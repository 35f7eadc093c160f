-- ===== src/Collections/BTreeMap/Laws.antt =====
-- The laws of the ordered maps: lookups after each operation, the order kept, extensionality.
use Prim.Native.Nat.{Ordering}
use Prim.Native.Nat.Ordering.{lt, eq, gt}
use flux_rs.Base.{Bool, not, Option, none, some, [], ◌∷◌, ◌≡◌, refl, sym, arith, if◌then◌else◌}
use mathlib.Core.Path.{subst}
use flux_rs.Collections.Ord.{Ord, is_eq, reverse}
use flux_rs.Collections.BTreeMap.{
  BTreeMap, BTreeSet, get, insert, retain, remove, extend, IsAbove, IsSorted, contains, remove_all,
}

-- `y` where `x` is missing.
abbrev pub or_else {κ} : {V : Type κ} → Option V → Option V → Option V
or_else none y = y
or_else (some v) y = some v

module _ {ℓ κ} {K : Type ℓ} {V : Type κ} ⦃o : Ord K⦄ where
  pub get-insert :
      (j k : K) (v : V) (m : BTreeMap K V)
      → get j (insert k v m) ≡ (if is_eq (o.cmp j k) then some v else get j m)
  unfolding get insert
  get-insert j k v [] = refl
  get-insert j k v ((i, w) ∷ m) =
      ground
        (arith, o.cmp_eq k i, o.cmp_eq j k, o.cmp_eq j i, o.cmp_reverse k i, get-insert j k v m)

  pub get-retain :
      (j : K) (p : K → Bool) (m : BTreeMap K V)
      → get j (retain p m) ≡ (if p j then get j m else none)
  unfolding get retain
  get-retain j p [] = ground arith
  get-retain j p ((i, w) ∷ m) = ground (arith, o.cmp_eq j i, get-retain j p m)

  IsAbove-insert :
      (b k : K) (v : V) (m : BTreeMap K V) → o.cmp b k ≡ lt → IsAbove b m → IsAbove b (insert k v m)
  unfolding insert
  IsAbove-insert b k v [] h a = (h, tt)
  IsAbove-insert b k v ((i, w) ∷ m) h a = ground (arith, IsAbove-insert b k v m h a.1)

  IsAbove-trans : (a b : K) (m : BTreeMap K V) → o.cmp a b ≡ lt → IsAbove b m → IsAbove a m
  IsAbove-trans a b [] h above = tt
  IsAbove-trans a b ((i, w) ∷ m) h above =
      (o.cmp_trans a b i h above.0, IsAbove-trans a b m h above.1)

  pub IsSorted-insert : (k : K) (v : V) (m : BTreeMap K V) → IsSorted m → IsSorted (insert k v m)
  unfolding insert
  IsSorted-insert k v [] s = (tt, tt)
  IsSorted-insert k v ((i, w) ∷ m) s = ground (
    arith,
    o.cmp_eq k i,
    o.cmp_reverse k i,
    IsAbove-trans k i m,
    IsAbove-insert i k v m,
    IsSorted-insert k v m,
  )

  IsAbove-retain : (b : K) (p : K → Bool) (m : BTreeMap K V) → IsAbove b m → IsAbove b (retain p m)
  unfolding retain
  IsAbove-retain b p [] a = tt
  IsAbove-retain b p ((i, w) ∷ m) a = ground (arith, IsAbove-retain b p m a.1)

  pub IsSorted-retain : (p : K → Bool) (m : BTreeMap K V) → IsSorted m → IsSorted (retain p m)
  unfolding retain
  IsSorted-retain p [] s = tt
  IsSorted-retain p ((i, w) ∷ m) s =
      ground (arith, IsAbove-retain i p m s.0, IsSorted-retain p m s.1)

  pub IsSorted-extend : (m n : BTreeMap K V) → IsSorted m → IsSorted (extend m n)
  unfolding extend
  IsSorted-extend m [] s = s
  IsSorted-extend m ((k, v) ∷ n) s = IsSorted-extend (insert k v m) n (IsSorted-insert k v m s)

  -- No key at or below a bound is found above it.
  pub get-IsAbove : (b : K) (m : BTreeMap K V) → IsAbove b m → get b m ≡ none
  unfolding get
  get-IsAbove b [] a = refl
  get-IsAbove b ((i, w) ∷ m) a = ground (arith, get-IsAbove b m a.1)

  pub get-extend :
      (j : K) (m n : BTreeMap K V) → IsSorted n → get j (extend m n) ≡ or_else (get j n) (get j m)
  unfolding get extend
  get-extend j m [] s = refl
  get-extend j m ((i, w) ∷ n) s = ground (
    arith,
    o.cmp_eq j i,
    get-extend j (insert i w m) n s.1,
    get-insert j i w m,
    get-IsAbove i n s.0,
  )

  ext_head :
      (i j : K) (w v : V) (m n : BTreeMap K V)
      → IsSorted ((i, w) ∷ m)
      → IsSorted ((j, v) ∷ n)
      → get i ((i, w) ∷ m) ≡ get i ((j, v) ∷ n)
      → get j ((i, w) ∷ m) ≡ get j ((j, v) ∷ n)
      → (i ≡ j) × (w ≡ v)
  unfolding get
  ext_head i j w v m n s t hi hj = ground (
    arith,
    o.cmp_eq i j,
    o.cmp_eq i i,
    o.cmp_eq j j,
    o.cmp_reverse i j,
    get-IsAbove i n,
    IsAbove-trans i j n,
    get-IsAbove j m,
    IsAbove-trans j i m,
    t.0,
    s.0,
  )

  ext_tail :
      (i k : K) (w v : V) (m n : BTreeMap K V)
      → IsAbove i m
      → IsAbove i n
      → get k ((i, w) ∷ m) ≡ get k ((i, v) ∷ n)
      → get k m ≡ get k n
  unfolding get
  ext_tail i k w v m n a b h = ground (arith, o.cmp_eq k i, get-IsAbove i m a, get-IsAbove i n b)

  -- Two ordered maps with the same lookups are the same list of entries.
  pub BTreeMap_ext :
      (m n : BTreeMap K V) → IsSorted m → IsSorted n → ((k : K) → get k m ≡ get k n) → m ≡ n
  BTreeMap_ext [] [] s t h = refl
  BTreeMap_ext [] ((j, v) ∷ n) s t h = unfold get in ground (arith, h j, o.cmp_eq j j)
  BTreeMap_ext ((i, w) ∷ m) [] s t h = unfold get in ground (arith, h i, o.cmp_eq i i)
  BTreeMap_ext ((i, w) ∷ m) ((j, v) ∷ n) s t h =
      let (same, value) = ext_head i j w v m n s t (h i) (h j) in
      let t' : IsSorted ((i, v) ∷ n) = subst (λ k. IsSorted ((k, v) ∷ n)) (sym same) t in
      let tails : (k : K) → get k m ≡ get k n =
        λ k. ext_tail i k w v m n s.0 t'.0 (rw (← same) at (h k)) in
      cc (same, value, BTreeMap_ext m n s.1 t.1 tails)

module _ {K : Type 0} ⦃o : Ord K⦄ where
  pub get-remove :
      (j k : K) (s : BTreeSet K)
      → get j (remove k s) ≡ (if is_eq (o.cmp j k) then none else get j s)
  get-remove j k s =
      rw (get-retain j (λ i. not (is_eq (o.cmp k i))) s, o.cmp_reverse j k) (flip (o.cmp j k))
    where
      flip :
          (c : Ordering)
          → (if not (is_eq (reverse c)) then get j s else none)
            ≡ (if is_eq c then none else get j s)
      flip lt = refl
      flip eq = refl
      flip gt = refl

  pub get-remove_all :
      (j : K) (s t : BTreeSet K) → get j (remove_all s t) ≡ (if contains j t then none else get j s)
  unfolding remove_all get
  get-remove_all j s [] = refl
  get-remove_all j s ((k, u) ∷ t) =
      ground (arith, o.cmp_eq j k, get-remove_all j (remove k s) t, get-remove j k s)

  pub IsSorted-remove_all : (s t : BTreeSet K) → IsSorted s → IsSorted (remove_all s t)
  unfolding remove_all
  IsSorted-remove_all s [] h = h
  IsSorted-remove_all s ((k, u) ∷ t) h = IsSorted-remove_all (remove k s) t (IsSorted-retain _ s h)
