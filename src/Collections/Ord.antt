-- ===== src/Collections/Ord.antt =====
-- The total orders of keys: numbers, and pairs compared field by field as `derive(Ord)` does.
use Prim.Native.Nat.{compare, Ordering}
use Prim.Native.Nat.Ordering.{lt, eq, gt}
use flux_rs.Base.{ℕ, Bool, true, false, ◌≡◌, ◌↔◌, arith}

abbrev pub reverse : Ordering → Ordering
reverse lt = gt
reverse eq = eq
reverse gt = lt

pub record Ord {ℓ} (K : Type ℓ) : Type ℓ where
  pub cmp : K → K → Ordering
  pub cmp_eq : (a b : K) → (cmp a b ≡ eq) ↔ (a ≡ b)
  pub cmp_reverse : (a b : K) → cmp b a ≡ reverse (cmp a b)
  pub cmp_trans : (a b c : K) → cmp a b ≡ lt → cmp b c ≡ lt → cmp a c ≡ lt

pub compare-eq : (a b : ℕ) → (compare a b ≡ eq) ↔ (a ≡ b)
compare-eq a b = ground arith

pub compare-reverse : (a b : ℕ) → compare b a ≡ reverse (compare a b)
compare-reverse a b = ground arith

pub compare_trans : (a b c : ℕ) → compare a b ≡ lt → compare b c ≡ lt → compare a c ≡ lt
compare_trans a b c = ground arith

instance abbrev pub nat_ord : Ord ℕ
nat_ord = record {
  cmp = compare;
  cmp_eq = compare-eq;
  cmp_reverse = compare-reverse;
  cmp_trans = compare_trans;
}

-- Equality of keys as the order decides it.
abbrev pub is_eq : Ordering → Bool
is_eq eq = true
is_eq lt = false
is_eq gt = false
