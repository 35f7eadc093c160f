-- ===== src/Collections/BTreeMap.antt =====
-- `BTreeMap<K, V>` as its entries in key order, and `BTreeSet<K>` as the map to the unit that it is.
pub mod Laws
use Prim.Native.Nat.{Ordering}
use Prim.Native.Nat.Ordering.{lt, eq, gt}
use flux_rs.Base.{
  Bool, true, false, not, Option, none, some, List, [], ◌∷◌, ◌≡◌, All, if◌then◌else◌,
}
use flux_rs.Collections.Ord.{Ord, is_eq}

abbrev pub BTreeMap {ℓ κ} : Type ℓ → Type κ → Type (ℓ ⊔ κ)
BTreeMap K V = List (K × V)

abbrev pub BTreeSet : Type 0 → Type 0
BTreeSet K = BTreeMap K (Unit {0})

abbrev pub is_some {ℓ} : {A : Type ℓ} → Option A → Bool
is_some none = false
is_some (some a) = true

module _ {ℓ κ} {K : Type ℓ} {V : Type κ} ⦃o : Ord K⦄ where
  unfoldable pub get : K → BTreeMap K V → Option V
  get k [] = none
  get k ((j, v) ∷ m) = if is_eq (o.cmp k j) then some v else get k m

  abbrev pub contains_key : K → BTreeMap K V → Bool
  contains_key k m = is_some (get k m)

  unfoldable pub insert : K → V → BTreeMap K V → BTreeMap K V
  insert k v [] = (k, v) ∷ []
  insert k v ((j, w) ∷ m) =
      let later = insert k v m in
      elim (o.cmp k j) [ lt ↦ (k, v) ∷ (j, w) ∷ m | eq ↦ (k, v) ∷ m | gt ↦ (j, w) ∷ later ]

  -- `retain` by a test of the key.
  unfoldable pub retain : (K → Bool) → BTreeMap K V → BTreeMap K V
  retain p [] = []
  retain p ((j, v) ∷ m) = if p j then (j, v) ∷ retain p m else retain p m

  abbrev pub remove : K → BTreeMap K V → BTreeMap K V
  remove k = retain (λ j. not (is_eq (o.cmp k j)))

  -- Inserts the entries of the second map in turn.
  unfoldable pub extend : BTreeMap K V → BTreeMap K V → BTreeMap K V
  extend m [] = m
  extend m ((j, v) ∷ n) = extend (insert j v m) n

  -- Strictly ascending keys: what every `BTreeMap` keeps.
  abbrev pub IsAbove : K → BTreeMap K V → Type 0
  IsAbove k = All (λ e. o.cmp k e.0 ≡ lt)

  abbrev pub IsSorted : BTreeMap K V → Type 0
  IsSorted [] = Unit {0}
  IsSorted ((k, v) ∷ m) = IsAbove k m × IsSorted m

module _ {K : Type 0} ⦃o : Ord K⦄ where
  abbrev pub contains : K → BTreeSet K → Bool
  contains k s = is_some (get k s)

  abbrev pub add : K → BTreeSet K → BTreeSet K
  add k s = insert k tt s

  -- The elements of the first set that are not in the second.
  abbrev pub difference : BTreeSet K → BTreeSet K → BTreeSet K
  difference s t = retain (λ k. not (contains k t)) s

  -- Removes the elements of the second set from the first in turn.
  unfoldable pub remove_all : BTreeSet K → BTreeSet K → BTreeSet K
  remove_all s [] = s
  remove_all s ((k, u) ∷ t) = remove_all (remove k s) t
