-- ===== src/Subscription.antt =====
-- crates/flux-core/src/subscription.rs: the refinement of provider nodes and the assembly of all
-- sources. A compiled expression is the function that its library gives; parsing is a parameter.
pub mod Sources
pub mod Refining
pub mod Assembling
mod Witnesses
use flux_rs.Base.{
  ℕ, zero, suc, ◌+◌, ◌-◌, Bool, true, false, not, ◌||◌, ltb, leb, if◌then◌else◌, Option, none, some,
  List, [], ◌∷◌, ◌++◌, length, ◌==◌,
}
use flux_rs.Base.Text.{Text, text_eq, is_empty, split_whitespace}
use flux_rs.Collections.Ord.{Ord}
use flux_rs.Collections.TextOrd.{text_ord}
use flux_rs.Collections.BTreeMap.{BTreeMap, get, insert}

-- An entry of a response as `refine` reads it: its type and tag where they are strings, and the rest.
pub data Value (A : Type 0) : Type 0 where
  other : Value A
  object : (kind tag : Option Text) → A → Value A

-- `format!("{position}, node {}", index + 1)`.
pub record Location : Type 0 where
  pub position : Text
  pub node : ℕ

pub data SubscriptionError : Type 0 where
  not_an_object missing_type missing_tag : ℕ → SubscriptionError
  zero_nodes parse_failed : SubscriptionError
  source : Text → SubscriptionError → SubscriptionError
  duplicate_tag : (first second : Location) → SubscriptionError

pub data Result (A : Type 0) : Type 0 where
  ok : A → Result A
  err : SubscriptionError → Result A

pub record RefinedNode (A : Type 0) : Type 0 where
  pub kind : Text
  pub tag : Text
  pub rest : A
  pub groups : List Text

-- `NodePolicy`, with the two constant expressions of `normalise_tag`.
pub record NodePolicy : Type 0 where
  pub exclude : Option (Text → Bool)
  pub renames : List (Text → Text)
  pub groups : List (Text × (Text → Bool))
  pub strip_emoji : Bool
  pub max_tag_length : ℕ
  pub currency : Text → Text
  pub suffix : Text → Text

-- "selector", "urltest", "direct", "block" and "dns".
abbrev pub infrastructure_types : List Text
infrastructure_types =
    (115 ∷ 101 ∷ 108 ∷ 101 ∷ 99 ∷ 116 ∷ 111 ∷ 114 ∷ [])
    ∷ (117 ∷ 114 ∷ 108 ∷ 116 ∷ 101 ∷ 115 ∷ 116 ∷ [])
    ∷ (100 ∷ 105 ∷ 114 ∷ 101 ∷ 99 ∷ 116 ∷ [])
    ∷ (98 ∷ 108 ∷ 111 ∷ 99 ∷ 107 ∷ [])
    ∷ (100 ∷ 110 ∷ 115 ∷ [])
    ∷ []

abbrev pub contains_text : Text → List Text → Bool
contains_text t [] = false
contains_text t (s ∷ ss) = text_eq t s || contains_text t ss

abbrev pub is_infrastructure : Text → Bool
is_infrastructure kind = contains_text kind infrastructure_types

abbrev pub is_excluded : Option (Text → Bool) → Text → Bool
is_excluded none tag = false
is_excluded (some pattern) tag = pattern tag

abbrev pub rename_all : List (Text → Text) → Text → Text
rename_all [] tag = tag
rename_all (r ∷ rs) tag = rename_all rs (r tag)

abbrev within : ℕ → ℕ → ℕ → Bool
within low high c = if ltb c low then false else leb c high

abbrev pub is_emoji : ℕ → Bool
is_emoji c =
    within 0x1f1e6 0x1f1ff c
    || within 0x1f300 0x1f5ff c
    || within 0x1f600 0x1f64f c
    || within 0x1f680 0x1f6ff c
    || within 0x1f700 0x1faff c
    || (c == 0x20e3)
    || within 0x2600 0x27bf c
    || within 0x2e80 0x2eff c
    || (c == 0xfe0f)
    || (c == 0x200d)

abbrev pub without_emoji : Text → Text
without_emoji [] = []
without_emoji (c ∷ s) = if is_emoji c then without_emoji s else c ∷ without_emoji s

-- `join(" ")`.
abbrev pub join : List Text → Text
join [] = []
join (s ∷ []) = s
join (s ∷ t ∷ ss) = s ++ (32 ∷ join (t ∷ ss))

abbrev pub normalise_tag : NodePolicy → Text → Text
normalise_tag p tag = join (split_whitespace (p.suffix (p.currency tag)))

abbrev pub take : ℕ → Text → Text
take zero s = []
take (suc n) [] = []
take (suc n) (c ∷ s) = c ∷ take n s

abbrev pub dots : ℕ → Text
dots zero = []
dots (suc n) = 46 ∷ dots n

unfoldable pub truncate_tag : Text → ℕ → Text
truncate_tag tag max_length =
    if leb (length tag) max_length
    then tag
    else if leb max_length 3
    then dots max_length
    else take (max_length - 3) tag ++ dots 3

abbrev or_kind : Text → Text → Text
or_kind kind tag = if is_empty tag then kind else tag

-- Steps 3 to 6 of the refinement.
unfoldable pub refined_tag : NodePolicy → Text → Text → Text
unfolding truncate_tag
refined_tag p kind original =
    let renamed = rename_all p.renames original in
    let plain = if p.strip_emoji then without_emoji renamed else renamed in
    truncate_tag (or_kind kind (normalise_tag p plain)) p.max_tag_length

unfoldable pub groups_of : List (Text × (Text → Bool)) → Text → List Text
groups_of [] tag = []
groups_of ((group, matches) ∷ gs) tag =
    if matches tag then group ∷ groups_of gs tag else groups_of gs tag

abbrev pub refined_node : {A : Type 0} → NodePolicy → Text → Text → A → RefinedNode A
refined_node p kind original rest = record {
  kind = kind;
  tag = refined_tag p kind original;
  rest = rest;
  groups = groups_of p.groups (refined_tag p kind original);
}

-- What one entry becomes: skipped, a node, or an error.
pub data Entry (A : Type 0) : Type 0 where
  skipped : Entry A
  node : RefinedNode A → Entry A
  invalid : SubscriptionError → Entry A

abbrev pub tagged_entry : {A : Type 0} → NodePolicy → ℕ → Text → Option Text → A → Entry A
tagged_entry p index kind none rest = invalid (missing_tag index)
tagged_entry p index kind (some original) rest =
    if is_excluded p.exclude original then skipped else node (refined_node p kind original rest)

-- The body of the loop of `refine`, at an index.
unfoldable pub refine_entry : {A : Type 0} → NodePolicy → ℕ → Value A → Entry A
unfolding refined_tag groups_of
refine_entry p index other = invalid (not_an_object index)
refine_entry p index (object none tag rest) = invalid (missing_type index)
refine_entry p index (object (some kind) tag rest) =
    if is_infrastructure kind then skipped else tagged_entry p index kind tag rest

abbrev pub push : {A : Type 0} → A → Result (List A) → Result (List A)
push n (err e) = err e
push n (ok ns) = ok (n ∷ ns)

abbrev pub add_entry :
    {A : Type 0} → Entry A → Result (List (RefinedNode A)) → Result (List (RefinedNode A))
add_entry skipped later = later
add_entry (node n) later = push n later
add_entry (invalid e) later = err e

unfoldable pub refine_from :
    {A : Type 0} → NodePolicy → ℕ → List (Value A) → Result (List (RefinedNode A))
unfolding refine_entry
refine_from p index [] = ok []
refine_from p index (v ∷ vs) = add_entry (refine_entry p index v) (refine_from p (suc index) vs)

abbrev pub nonempty : {A : Type 0} → Result (List A) → Result (List A)
nonempty (err e) = err e
nonempty (ok []) = err zero_nodes
nonempty (ok (n ∷ ns)) = ok (n ∷ ns)

unfoldable pub refine : {A : Type 0} → NodePolicy → List (Value A) → Result (List (RefinedNode A))
unfolding refine_from
refine p vs = nonempty (refine_from p 0 vs)
