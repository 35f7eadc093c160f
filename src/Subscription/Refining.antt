-- ===== src/Subscription/Refining.antt =====
-- crates/flux-core/src/subscription.rs: what a refined node is.
use flux_rs.Base.{
  ℕ, zero, suc, ◌+◌, ◌-◌, ◌≤◌, ◌≡◌, refl, Bool, true, false, ltb, if◌then◌else◌, Option, none, some,
  List, [], ◌∷◌, ◌++◌, length, All, arith,
}
use flux_rs.Base.Text.{Text}
use flux_rs.Subscription.{
  Value, other, object, Result, ok, err, RefinedNode, NodePolicy, is_infrastructure, is_excluded,
  take, dots, truncate_tag, refined_tag, groups_of, Entry, skipped, node, invalid, tagged_entry,
  refine_entry, add_entry, refine_from, nonempty, refine, refined_node,
}

length-take : (n : ℕ) (s : Text) → length (take n s) ≤ n
length-take zero s = omega arith
length-take (suc n) [] = omega arith
length-take (suc n) (c ∷ s) = ground (arith, length-take n s)

length-dots : (n : ℕ) → length (dots n) ≡ n
length-dots zero = refl
length-dots (suc n) = ground (arith, length-dots n)

length-append : (s t : Text) → length (s ++ t) ≡ length s + length t
length-append [] t = ground arith
length-append (c ∷ s) t = ground (arith, length-append s t)

pub length-truncate_tag : (tag : Text) (max : ℕ) → length (truncate_tag tag max) ≤ max
unfolding truncate_tag
length-truncate_tag tag max =
    ground (
      arith,
      length-dots max,
      length-append (take (max - 3) tag) (dots 3),
      length-take (max - 3) tag,
    )

-- A selectable node: not infrastructure, from an original tag that is not excluded, with the refined
-- tag, within the bound, and the groups of that tag.
pub record IsRefined {A : Type 0} (p : NodePolicy) (n : RefinedNode A) : Type 0 where
  pub selectable : is_infrastructure n.kind ≡ false
  pub original : Text
  pub kept : is_excluded p.exclude original ≡ false
  pub tag : n.tag ≡ refined_tag p n.kind original
  pub bound : length n.tag ≤ p.max_tag_length
  pub groups : n.groups ≡ groups_of p.groups n.tag

module _ {A : Type 0} (p : NodePolicy) where
  -- The nodes of an entry and of a result.
  abbrev EntryIsRefined : Entry A → Type 0
  EntryIsRefined skipped = Unit {0}
  EntryIsRefined (node n) = IsRefined p n
  EntryIsRefined (invalid e) = Unit {0}

  abbrev AreRefined : Result (List (RefinedNode A)) → Type 0
  AreRefined (err e) = Unit {0}
  AreRefined (ok ns) = All (IsRefined p) ns

  refined_node-IsRefined :
      (kind original : Text) (rest : A)
      → is_infrastructure kind ≡ false
      → is_excluded p.exclude original ≡ false
      → IsRefined p (refined_node p kind original rest)
  refined_node-IsRefined kind original rest k o = record {
    selectable = k;
    original = original;
    kept = o;
    tag = refl;
    bound = unfold refined_tag in length-truncate_tag _ p.max_tag_length;
    groups = refl;
  }

  tagged_entry-IsRefined :
      (index : ℕ) (kind : Text) (tag : Option Text) (rest : A)
      → is_infrastructure kind ≡ false
      → EntryIsRefined (tagged_entry p index kind tag rest)
  tagged_entry-IsRefined index kind none rest k = tt
  tagged_entry-IsRefined index kind (some original) rest k =
      by_test (is_excluded p.exclude original) refl
    where
      by_test :
          (b : Bool)
          → is_excluded p.exclude original ≡ b
          → EntryIsRefined (if b then skipped else node (refined_node p kind original rest))
      by_test true eq = tt
      by_test false eq = refined_node-IsRefined kind original rest k eq

  refine_entry-IsRefined : (index : ℕ) (v : Value A) → EntryIsRefined (refine_entry p index v)
  unfolding refine_entry
  refine_entry-IsRefined index other = tt
  refine_entry-IsRefined index (object none tag rest) = tt
  refine_entry-IsRefined index (object (some kind) tag rest) = by_test (is_infrastructure kind) refl
    where
      by_test :
          (b : Bool)
          → is_infrastructure kind ≡ b
          → EntryIsRefined (if b then skipped else tagged_entry p index kind tag rest)
      by_test true eq = tt
      by_test false eq = tagged_entry-IsRefined index kind tag rest eq

  add_entry-AreRefined :
      (e : Entry A) (r : Result (List (RefinedNode A)))
      → EntryIsRefined e
      → AreRefined r
      → AreRefined (add_entry e r)
  add_entry-AreRefined skipped r h k = k
  add_entry-AreRefined (node n) (err e) h k = tt
  add_entry-AreRefined (node n) (ok ns) h k = (h, k)
  add_entry-AreRefined (invalid e) r h k = tt

  refine_from-AreRefined : (index : ℕ) (vs : List (Value A)) → AreRefined (refine_from p index vs)
  unfolding refine_from
  refine_from-AreRefined index [] = tt
  refine_from-AreRefined index (v ∷ vs) =
      add_entry-AreRefined (refine_entry p index v) (refine_from p (suc index) vs)
        (refine_entry-IsRefined index v) (refine_from-AreRefined (suc index) vs)

  nonempty-AreRefined :
      (r : Result (List (RefinedNode A))) (ns : List (RefinedNode A))
      → AreRefined r
      → nonempty r ≡ ok ns
      → All (IsRefined p) ns × (ltb 0 (length ns) ≡ true)
  nonempty-AreRefined (err e) ns h eq = ground (arith, eq)
  nonempty-AreRefined (ok []) ns h eq = ground (arith, eq)
  nonempty-AreRefined (ok (m ∷ ms)) ns h eq =
      let same : (m ∷ ms) ≡ ns = ground arith in rw (← same) (h, ground arith)

  -- A refinement that succeeds gives at least one node, and each node is selectable: it is not an
  -- infrastructure type, its original tag is not excluded, its tag is the refined one and within the
  -- bound, and its groups are those of the tag that the user sees.
  pub refine-AreRefined :
      (vs : List (Value A)) (ns : List (RefinedNode A))
      → refine p vs ≡ ok ns
      → All (IsRefined p) ns × (ltb 0 (length ns) ≡ true)
  unfolding refine
  refine-AreRefined vs ns eq = nonempty-AreRefined _ ns (refine_from-AreRefined 0 vs) eq
