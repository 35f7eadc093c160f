-- ===== src/Dataplane/Addresses/Selection.antt =====
-- crates/fluxd/src/dataplane/platform.rs: which of the device's own addresses are kept.
use flux_rs.Base.{
  ℕ, zero, suc, ◌+◌, ◌-◌, ◌≤◌, ◌≡◌, refl, Bool, true, false, not, ◌||◌, ltb, Option, none, some,
  List, [], ◌∷◌, length, arith, if◌then◌else◌,
}
use flux_rs.Collections.Ord.{is_eq}
use flux_rs.Collections.TextOrd.{text_ord}
use flux_rs.Collections.BTreeMap.{
  BTreeMap, BTreeSet, get, insert, contains, contains_key, IsSorted, add,
}
use flux_rs.Collections.BTreeMap.Laws.{get-insert, get-IsAbove}
use flux_rs.Dataplane.{ok, err, capacity_self_addr}
use flux_rs.Dataplane.Addresses.{
  Candidates, stable_of, privacy_of, insert_newest, newest_first, add_first, select_self_addresses,
}

abbrev pub is_stable : Option Bool → Bool
is_stable none = false
is_stable (some privacy) = not privacy

abbrev is_private : Option Bool → Bool
is_private none = false
is_private (some privacy) = privacy

contains-add :
    (a b : List ℕ) (s : BTreeSet (List ℕ))
    → contains a (add b s) ≡ (is_eq (text_ord.cmp a b) || contains a s)
contains-add a b s = ground (arith, get-insert a b tt s)

contains-stable_of :
    (a : List ℕ) (c : Candidates) (out : BTreeSet (List ℕ))
    → IsSorted c
    → contains a (stable_of c out) ≡ (is_stable (get a c) || contains a out)
unfolding stable_of get
contains-stable_of a [] out s = refl
contains-stable_of a ((b, p) ∷ c) out s = ground (
  arith,
  text_ord.cmp_eq a b,
  contains-stable_of a c out s.1,
  contains-stable_of a c (add b out) s.1,
  contains-add a b out,
  get-IsAbove b c s.0,
)

abbrev listed : List ℕ → List (ℕ × List ℕ) → Bool
listed a [] = false
listed a (e ∷ es) = is_eq (text_ord.cmp a e.1) || listed a es

listed-insert_newest :
    (a : List ℕ) (e : ℕ × List ℕ) (es : List (ℕ × List ℕ))
    → listed a (insert_newest e es) ≡ (is_eq (text_ord.cmp a e.1) || listed a es)
listed-insert_newest a e [] = refl
listed-insert_newest a e (f ∷ fs) = ground (arith, listed-insert_newest a e fs)

listed-newest_first :
    (a : List ℕ) (es : List (ℕ × List ℕ)) → listed a (newest_first es) ≡ listed a es
listed-newest_first a [] = refl
listed-newest_first a (e ∷ es) =
    ground (arith, listed-newest_first a es, listed-insert_newest a e (newest_first es))

listed-privacy_of :
    (a : List ℕ) (seen : BTreeMap (List ℕ) ℕ) (c : Candidates)
    → IsSorted c
    → listed a (privacy_of seen c) ≡ is_private (get a c)
unfolding get
listed-privacy_of a seen [] s = refl
listed-privacy_of a seen ((b, p) ∷ c) s =
    ground (arith, text_ord.cmp_eq a b, listed-privacy_of a seen c s.1, get-IsAbove b c s.0)

length-insert : (a : List ℕ) (s : BTreeSet (List ℕ)) → length (add a s) ≤ suc (length s)
unfolding insert
length-insert a [] = ground arith
length-insert a ((b, u) ∷ s) = ground (arith, length-insert a s)

length-add_first :
    (n : ℕ) (es : List (ℕ × List ℕ)) (s : BTreeSet (List ℕ))
    → length (add_first n es s) ≤ n + length s
unfolding add_first
length-add_first zero es s = ground arith
length-add_first (suc n) [] s = ground arith
length-add_first (suc n) ((tick, a) ∷ es) s =
    ground (arith, length-add_first n es (add a s), length-insert a s)

-- What is added was listed, and nothing that was there is lost.
add_first-bounds :
    (a : List ℕ) (n : ℕ) (es : List (ℕ × List ℕ)) (s : BTreeSet (List ℕ))
    → (contains a s ≡ true → contains a (add_first n es s) ≡ true)
      × (contains a (add_first n es s) ≡ true → (listed a es || contains a s) ≡ true)
unfolding add_first
add_first-bounds a zero es s = (λ h. h, λ h. ground (arith, h))
add_first-bounds a (suc n) [] s = (λ h. h, λ h. h)
add_first-bounds a (suc n) ((tick, b) ∷ es) s =
    let (kept, only) = add_first-bounds a n es (add b s) in
    (
      λ h. kept (ground (arith, contains-add a b s, h)),
      λ h. ground (arith, contains-add a b s, only h),
    )

-- Where there is room for all of them, all are added.
add_first-all :
    (a : List ℕ) (n : ℕ) (es : List (ℕ × List ℕ)) (s : BTreeSet (List ℕ))
    → length es ≤ n
    → contains a (add_first n es s) ≡ (listed a es || contains a s)
unfolding add_first
add_first-all a zero [] s h = refl
add_first-all a zero (e ∷ es) s h = ground arith
add_first-all a (suc n) [] s h = refl
add_first-all a (suc n) ((tick, b) ∷ es) s h =
    ground (arith, add_first-all a n es (add b s) (omega arith), contains-add a b s)

-- What a selection promises: no more than the capacity, every stable address, candidates only, and
-- all of them unless it says that it was cut short.
pub record IsSelection (c : Candidates) (capacity : ℕ) (s : BTreeSet (List ℕ)) (truncated : Bool)
    : Type 0 where
  pub bound : length s ≤ capacity
  pub stable : (a : List ℕ) → get a c ≡ some false → contains a s ≡ true
  pub only : (a : List ℕ) → contains a s ≡ true → contains_key a c ≡ true
  pub whole : (a : List ℕ) → truncated ≡ false → contains a s ≡ contains_key a c

module _ (c : Candidates) (seen : BTreeMap (List ℕ) ℕ) (sorted : IsSorted c) where
  abbrev stable_set : BTreeSet (List ℕ)
  stable_set = stable_of c []

  abbrev privacy_list : List (ℕ × List ℕ)
  privacy_list = newest_first (privacy_of seen c)

  -- A candidate is stable or listed.
  is_candidate : (a : List ℕ) → (listed a privacy_list || contains a stable_set) ≡ contains_key a c
  is_candidate a =
      unfold get in
      ground (
        arith,
        listed-newest_first a (privacy_of seen c),
        listed-privacy_of a seen c sorted,
        contains-stable_of a c [] sorted,
      )

  selection :
      (capacity : ℕ)
      → length stable_set ≤ capacity
      → IsSelection c capacity
          (add_first (capacity - length stable_set) privacy_list stable_set)
          (ltb (capacity - length stable_set) (length privacy_list))
  selection capacity h =
      let n : ℕ = capacity - length stable_set in
      record {
        bound = ground (arith, length-add_first n privacy_list stable_set);
        stable = λ a g.
            (add_first-bounds a n privacy_list stable_set).0
              (unfold get in ground (arith, contains-stable_of a c [] sorted));
        only = λ a g. rw (← is_candidate a) ((add_first-bounds a n privacy_list stable_set).1 g);
        whole =
            λ a g. rw (← is_candidate a) (add_first-all a n privacy_list stable_set (ground arith));
      }

  abbrev selected : ℕ → BTreeSet (List ℕ) × Bool
  selected capacity = (
    add_first (capacity - length stable_set) privacy_list stable_set,
    ltb (capacity - length stable_set) (length privacy_list),
  )

  unless_over :
      (capacity : ℕ) (over : Bool) (s : BTreeSet (List ℕ)) (truncated : Bool)
      → ltb capacity (length stable_set) ≡ over
      → (if over then err capacity_self_addr else ok (selected capacity)) ≡ ok (s, truncated)
      → IsSelection c capacity s truncated
  unless_over capacity true s truncated o h = ground arith
  unless_over capacity false s truncated o h =
      let set : s ≡ add_first (capacity - length stable_set) privacy_list stable_set =
        ground arith in
      let cut : truncated ≡ ltb (capacity - length stable_set) (length privacy_list) =
        ground arith in
      rw (set, cut) (selection capacity (ground arith))

  -- `select_self_addresses` on candidates in key order: its success is such a selection.
  pub select_self_addresses-IsSelection :
      (capacity : ℕ) (s : BTreeSet (List ℕ)) (truncated : Bool)
      → select_self_addresses c seen capacity ≡ ok (s, truncated)
      → IsSelection c capacity s truncated
  unfolding select_self_addresses
  select_self_addresses-IsSelection capacity s truncated h =
      unless_over capacity _ s truncated refl h
