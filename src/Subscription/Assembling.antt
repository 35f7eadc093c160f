-- ===== src/Subscription/Assembling.antt =====
-- crates/flux-core/src/subscription.rs: `assemble_nodes` against the nodes of all sources in order.
use mathlib.Core.Path.{subst}
use flux_rs.Base.{ℕ, suc, ◌≡◌, ◌≢◌, ◌↔◌, refl, false, Option, none, some, List, [], ◌∷◌, All, arith}
use flux_rs.Base.Text.{Text}
use flux_rs.Collections.TextOrd.{text_ord}
use flux_rs.Collections.BTreeMap.{BTreeMap, get, insert, contains_key}
use flux_rs.Collections.BTreeMap.Laws.{get-insert}
use flux_rs.Subscription.{Value, Location, Result, ok, err, RefinedNode, NodePolicy, push}
use flux_rs.Subscription.Sources.{
  NodeSource, manual, remote, unless_known, push_batch, push_source, batch_of, push_remote,
  assemble_from, assemble_nodes,
}

-- The nodes of a batch before those of a result, and of all sources, with no look at the tags.
abbrev pub prepend : {A : Type 0} → List A → Result (List A) → Result (List A)
prepend [] r = r
prepend (n ∷ ns) r = push n (prepend ns r)

abbrev pub append : {A : Type 0} → Result (List A) → Result (List A) → Result (List A)
append (err e) r = err e
append (ok ns) r = prepend ns r

abbrev pub append_answer :
    {A B : Type 0}
    → (B → Result (List (Value A)))
    → NodePolicy
    → Text
    → Option B
    → Result (List (RefinedNode A))
    → Result (List (RefinedNode A))
append_answer parse p position none later = later
append_answer parse p position (some bytes) later = append (batch_of parse p position bytes) later

abbrev pub all_nodes :
    {A B : Type 0}
    → (B → Result (List (Value A)))
    → NodePolicy
    → (Text → Option B)
    → List (NodeSource A)
    → Result (List (RefinedNode A))
all_nodes parse p response [] = ok []
all_nodes parse p response (manual n position ∷ sources) =
    push n (all_nodes parse p response sources)
all_nodes parse p response (remote url position ∷ sources) =
    append_answer parse p position (response url) (all_nodes parse p response sources)

module _ {A : Type 0} where
  -- No two nodes have one tag.
  abbrev pub AreDistinct : List (RefinedNode A) → Type 0
  AreDistinct [] = Unit {0}
  AreDistinct (n ∷ ns) = All (λ m. m.tag ≢ n.tag) ns × AreDistinct ns

  abbrev AreFresh : BTreeMap Text Location → List (RefinedNode A) → Type 0
  AreFresh tags = All (λ m. contains_key m.tag tags ≡ false)

  fresh_insert :
      (t : Text) (here : Location) (tags : BTreeMap Text Location) (ns : List (RefinedNode A))
      → AreFresh (insert t here tags) ns ↔ (AreFresh tags ns × All (λ m. m.tag ≢ t) ns)
  fresh_insert t here tags [] = (λ h. (tt, tt), λ h. tt)
  fresh_insert t here tags (n ∷ ns) =
      let (to, from) = fresh_insert t here tags ns in
      (
        λ h. (
          (ground (arith, h.0, get-insert n.tag t here tags), (to h.1).0),
          (
            λ same.
                ground (arith, h.0, same, get-insert n.tag t here tags, text_ord.cmp_eq n.tag t),
            (to h.1).1,
          ),
        ),
        λ h. (
          ground (arith, h.0.0, h.1.0, get-insert n.tag t here tags, text_ord.cmp_eq n.tag t),
          from (h.0.1, h.1.1),
        ),
      )

  -- A result gives what a reference gives, exactly when its nodes are distinct and fresh.
  abbrev Meets :
      BTreeMap Text Location
      → Result (List (RefinedNode A))
      → Result (List (RefinedNode A))
      → Type 0
  Meets tags reference r =
      (ns : List (RefinedNode A))
      → (r ≡ ok ns) ↔ ((reference ≡ ok ns) × AreFresh tags ns × AreDistinct ns)

  pushed :
      (n : RefinedNode A) (r : Result (List (RefinedNode A))) (ns : List (RefinedNode A))
      → push n r ≡ ok ns
      → (ms : List (RefinedNode A)) × (r ≡ ok ms) × (ns ≡ (n ∷ ms))
  pushed n (err e) ns h = ground (arith, h)
  pushed n (ok ms) ns h = (ms, refl, ground (arith, h))

  -- One node more, whose tag is new.
  push_to :
      (n : RefinedNode A) (here : Location) (tags : BTreeMap Text Location)
      (reference later : Result (List (RefinedNode A))) (ns : List (RefinedNode A))
      → get n.tag tags ≡ none
      → Meets (insert n.tag here tags) reference later
      → push n later ≡ ok ns
      → (push n reference ≡ ok ns) × AreFresh tags ns × AreDistinct ns
  push_to n here tags reference later ns new meets h =
      let (ms, found, same) = pushed n later ns h in
      let (same_reference, fresh, distinct) = (meets ms).0 found in
      let (old, apart) = (fresh_insert n.tag here tags ms).0 fresh in
      rw (same, same_reference) (refl, (rw new refl, old), (apart, distinct))

  push_from :
      (n : RefinedNode A) (here : Location) (tags : BTreeMap Text Location)
      (reference later : Result (List (RefinedNode A))) (ns ms : List (RefinedNode A))
      → Meets (insert n.tag here tags) reference later
      → reference ≡ ok ms
      → ns ≡ (n ∷ ms)
      → AreFresh tags (n ∷ ms)
      → AreDistinct (n ∷ ms)
      → push n later ≡ ok ns
  push_from n here tags reference later ns ms meets found same fresh distinct =
      let done : later ≡ ok ms =
        (meets ms).1
          (found, (fresh_insert n.tag here tags ms).1 (fresh.1, distinct.0), distinct.1) in
      rw (same, done) refl

  known_iff :
      (o : Option Location) (n : RefinedNode A) (here : Location) (tags : BTreeMap Text Location)
      (reference later : Result (List (RefinedNode A)))
      → get n.tag tags ≡ o
      → Meets (insert n.tag here tags) reference later
      → Meets tags (push n reference) (unless_known o here n later)
  known_iff (some first) n here tags reference later eq meets ns = (
    λ h. ground (arith, h),
    λ h.
        let (ms, found, same) = pushed n reference ns h.0 in
        let fresh : AreFresh tags (n ∷ ms) = rw same at h.1 in ground (arith, fresh.0, eq),
  )
  known_iff none n here tags reference later eq meets ns = (
    λ h. push_to n here tags reference later ns eq meets h,
    λ h.
        let (ms, found, same) = pushed n reference ns h.0 in
        push_from n here tags reference later ns ms meets found same (rw same at h.1)
          (rw same at h.2),
  )

  push_batch_iff :
      (position : Text) (index : ℕ) (batch : List (RefinedNode A)) (tags : BTreeMap Text Location)
      (reference : Result (List (RefinedNode A)))
      (next : BTreeMap Text Location → Result (List (RefinedNode A)))
      → ((later : BTreeMap Text Location) → Meets later reference (next later))
      → Meets tags (prepend batch reference) (push_batch position index batch tags next)
  unfolding push_batch
  push_batch_iff position index [] tags reference next meets = meets tags
  push_batch_iff position index (n ∷ ns) tags reference next meets =
      known_iff (get n.tag tags) n (record { position = position; node = index }) tags
        (prepend ns reference) _ refl
        (push_batch_iff position (suc index) ns
          (insert n.tag (record { position = position; node = index }) tags) reference next meets)

  push_source_iff :
      (position : Text) (batch : Result (List (RefinedNode A))) (tags : BTreeMap Text Location)
      (reference : Result (List (RefinedNode A)))
      (next : BTreeMap Text Location → Result (List (RefinedNode A)))
      → ((later : BTreeMap Text Location) → Meets later reference (next later))
      → Meets tags (append batch reference) (push_source position batch tags next)
  push_source_iff position (err e) tags reference next meets =
      λ ns. (λ h. ground (arith, h), λ h. ground (arith, h.0))
  push_source_iff position (ok batch) tags reference next meets =
      push_batch_iff position 1 batch tags reference next meets

module _ {A B : Type 0} (parse : B → Result (List (Value A))) (p : NodePolicy)
    (response : Text → Option B) where
  push_remote_iff :
      (position : Text) (answer : Option B) (tags : BTreeMap Text Location)
      (reference : Result (List (RefinedNode A)))
      (next : BTreeMap Text Location → Result (List (RefinedNode A)))
      → ((later : BTreeMap Text Location) → Meets later reference (next later))
      → Meets tags
          (append_answer parse p position answer reference)
          (push_remote parse p position answer tags next)
  push_remote_iff position none tags reference next meets = meets tags
  push_remote_iff position (some bytes) tags reference next meets =
      push_source_iff position (batch_of parse p position bytes) tags reference next meets

  assemble_from_iff :
      (sources : List (NodeSource A)) (tags : BTreeMap Text Location)
      → Meets tags
          (all_nodes parse p response sources)
          (assemble_from parse p response sources tags)
  unfolding assemble_from
  assemble_from_iff [] tags = λ ns. (
    λ h.
        let same : [] ≡ ns = ground arith in
        (h, subst (AreFresh tags) same tt, subst AreDistinct same tt),
    λ h. h.0,
  )
  assemble_from_iff (manual n position ∷ sources) tags =
      push_source_iff position (ok (n ∷ [])) tags (all_nodes parse p response sources) _
        (assemble_from_iff sources)
  assemble_from_iff (remote url position ∷ sources) tags =
      push_remote_iff position (response url) tags (all_nodes parse p response sources) _
        (assemble_from_iff sources)

  fresh_empty : (ns : List (RefinedNode A)) → AreFresh [] ns
  unfolding get
  fresh_empty [] = tt
  fresh_empty (n ∷ ns) = (refl, fresh_empty ns)

  -- The assembly succeeds with some nodes exactly when every source that answered parses and refines,
  -- these are their nodes in the order of the sources, and no two of them have one tag.
  pub assemble_nodes_iff :
      (sources : List (NodeSource A)) (ns : List (RefinedNode A))
      → (assemble_nodes parse p response sources ≡ ok ns)
        ↔ ((all_nodes parse p response sources ≡ ok ns) × AreDistinct ns)
  unfolding assemble_nodes
  assemble_nodes_iff sources ns =
      let (to, from) = assemble_from_iff sources [] ns in
      (λ h. ((to h).0, (to h).2), λ h. from (h.0, fresh_empty ns, h.1))
