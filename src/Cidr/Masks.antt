-- ===== src/Cidr/Masks.antt =====
-- The masks as arithmetic: `& mask` clears the host bits, and `& !mask` keeps them.
use Prim.Native.Nat.{bit_and}
use mathlib.Core.Path.{◌≡⟨◌⟩◌, ◌∎}
use flux_rs.Base.{
  ℕ, zero, suc, ◌+◌, ◌-◌, ◌*◌, ◌/◌, ◌%◌, ◌^◌, ◌≤◌, ◌<◌, ◌≡◌, ap, arith, leb, ◌==◌, Bool-cases, inl,
  inr, true, leb→le, ==_iff,
}
use flux_rs.Base.Bits.{bit_and-low, bit_and-shifted, double_pow}
use native.Mathlib.Nat.{zero-add, suc-add, pow-zero}
use native.Mathlib.Nat.{one-le-pow, mod-eq_of_lt, div-lt_iff_lt-mul, add-mul-mod_self_right}
use flux_rs.Cidr.{mask, max_word, complement}

-- The number of host bits of a prefix, and the size of its block.
abbrev pub block : ℕ → ℕ → ℕ
block w n = 2 ^ (w - n)

pub pow_add : (n k : ℕ) → 2 ^ (n + k) ≡ 2 ^ n * 2 ^ k
pow_add zero k = rw (zero-add, pow-zero) (omega arith)
pow_add (suc n) k = rw (suc-add, double_pow (n + k), double_pow n, pow_add n k) (omega arith)

pub pow_block : (w n : ℕ) → n ≤ w → 2 ^ w ≡ 2 ^ n * block w n
pow_block w n h = rw (← pow_add n (w - n)) (ap (λ (t : ℕ). 2 ^ t) (omega arith))

-- A word of `p * b` values, all ones, shifted left by the block `b`.
shifted_ones : (p b : ℕ) → (suc p * suc b - 1) * suc b % (suc p * suc b) ≡ (suc p - 1) * suc b
shifted_ones p b =
    (suc p * suc b - 1) * suc b % (suc p * suc b)
    ≡⟨ ap (λ (t : ℕ). t % (suc p * suc b)) parts ⟩
      (p * suc b + b * (suc p * suc b)) % (suc p * suc b)
    ≡⟨ add-mul-mod_self_right (p * suc b) b (suc p * suc b) ⟩ p * suc b % (suc p * suc b)
    ≡⟨ mod-eq_of_lt (omega arith) ⟩ p * suc b
    ≡⟨ ap (λ (t : ℕ). t * suc b) (omega arith) ⟩ (suc p - 1) * suc b ∎
  where
    parts : (suc p * suc b - 1) * suc b ≡ p * suc b + b * (suc p * suc b)
    parts = let ones : suc p * suc b - 1 ≡ p * suc b + b = omega arith in rw ones (omega arith)

shifted_ones_pos : (p b : ℕ) → 1 ≤ p → 1 ≤ b → (p * b - 1) * b % (p * b) ≡ (p - 1) * b
shifted_ones_pos zero b hp hb = absurd (omega arith)
shifted_ones_pos (suc p) zero hp hb = absurd (omega arith)
shifted_ones_pos (suc p) (suc b) hp hb = shifted_ones p b

pub mask_lem : (w n : ℕ) → n ≤ w → mask w n ≡ (2 ^ n - 1) * block w n
unfolding mask
mask_lem w n h = elim (Bool-cases (n == 0)) [
  | inl e ↦ rw e (rw ((==_iff n 0).0 e) (omega arith))
  | inr e ↦ rw e (elim (Bool-cases (leb w n)) [
    | inl l ↦ rw l (full l)
    | inr l ↦
        rw (l, pow_block w n h)
          (shifted_ones_pos (2 ^ n) (block w n) (one-le-pow n 2 (omega arith))
            (one-le-pow (w - n) 2 (omega arith)))
  ])
]
  where
    full : leb w n ≡ true → max_word w ≡ (2 ^ n - 1) * block w n
    full l =
        let same : n ≡ w = omega (arith, leb→le w n l) in
        let none_left : w - w ≡ 0 = omega arith in rw (same, none_left) (omega arith)

-- `x & mask(n)` keeps the network part of an address.
pub bit_and-mask :
    (w n x : ℕ) → n ≤ w → x < 2 ^ w → bit_and x (mask w n) ≡ x / block w n * block w n
bit_and-mask w n x h fits =
    rw (mask_lem w n h, bit_and-shifted (w - n) x (2 ^ n - 1), bit_and-low n (x / block w n))
      (ap (λ (t : ℕ). t * block w n)
        (mod-eq_of_lt (
          (div-lt_iff_lt-mul (one-le-pow (w - n) 2 (omega arith))).1
            (rw (pow_block w n h) at fits))))

complement_lem : (p b : ℕ) → 1 ≤ p → p * b - 1 - (p - 1) * b ≡ b - 1
complement_lem zero b h = absurd (omega arith)
complement_lem (suc p) b h = let pred : suc p - 1 ≡ p = omega arith in rw pred (omega arith)

-- `x & !mask(n)` is the host part.
pub bit_and-complement : (w n x : ℕ) → n ≤ w → bit_and x (complement w (mask w n)) ≡ x % block w n
bit_and-complement w n x h =
    rw
      (
        mask_lem w n h,
        pow_block w n h,
        complement_lem (2 ^ n) (block w n) (one-le-pow n 2 (omega arith)),
      )
      (bit_and-low (w - n) x)
