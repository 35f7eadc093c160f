-- ===== src/Subscription/Sources.antt =====
-- crates/flux-core/src/subscription.rs: `assemble_nodes`.
use flux_rs.Base.{ℕ, suc, Option, none, some, List, [], ◌∷◌}
use flux_rs.Base.Text.{Text}
use flux_rs.Collections.TextOrd.{text_ord}
use flux_rs.Collections.BTreeMap.{BTreeMap, get, insert}
use flux_rs.Subscription.{
  Value, Location, Result, RefinedNode, NodePolicy, push, refine, source, duplicate_tag, ok, err,
}

-- `NodeSource`; a remote source is known by its URL.
pub data NodeSource (A : Type 0) : Type 0 where
  manual : RefinedNode A → Text → NodeSource A
  remote : (url position : Text) → NodeSource A

abbrev pub at_source : {A : Type 0} → Text → Result A → Result A
at_source position (err e) = err (source position e)
at_source position (ok a) = ok a

abbrev pub unless_known :
    {A : Type 0}
    → Option Location
    → Location
    → RefinedNode A
    → Result (List (RefinedNode A))
    → Result (List (RefinedNode A))
unless_known (some first) here n later = err (duplicate_tag first here)
unless_known none here n later = push n later

-- The nodes of one batch in turn, with the locations of the tags so far, and what follows the batch.
unfoldable pub push_batch :
    {A : Type 0}
    → Text
    → ℕ
    → List (RefinedNode A)
    → BTreeMap Text Location
    → (BTreeMap Text Location → Result (List (RefinedNode A)))
    → Result (List (RefinedNode A))
push_batch position index [] tags next = next tags
push_batch position index (n ∷ ns) tags next =
    let here : Location = record { position = position; node = index } in
    unless_known (get n.tag tags) here n
      (push_batch position (suc index) ns (insert n.tag here tags) next)

abbrev pub push_source :
    {A : Type 0}
    → Text
    → Result (List (RefinedNode A))
    → BTreeMap Text Location
    → (BTreeMap Text Location → Result (List (RefinedNode A)))
    → Result (List (RefinedNode A))
push_source position (err e) tags next = err e
push_source position (ok batch) tags next = push_batch position 1 batch tags next

-- A source that has not answered is passed over.
abbrev pub refined :
    {A : Type 0} → NodePolicy → Result (List (Value A)) → Result (List (RefinedNode A))
refined p (err e) = err e
refined p (ok vs) = refine p vs

abbrev pub batch_of :
    {A B : Type 0}
    → (B → Result (List (Value A)))
    → NodePolicy
    → Text
    → B
    → Result (List (RefinedNode A))
batch_of parse p position bytes = at_source position (refined p (parse bytes))

abbrev pub push_remote :
    {A B : Type 0}
    → (B → Result (List (Value A)))
    → NodePolicy
    → Text
    → Option B
    → BTreeMap Text Location
    → (BTreeMap Text Location → Result (List (RefinedNode A)))
    → Result (List (RefinedNode A))
push_remote parse p position none tags next = next tags
push_remote parse p position (some bytes) tags next =
    push_source position (batch_of parse p position bytes) tags next

unfoldable pub assemble_from :
    {A B : Type 0}
    → (B → Result (List (Value A)))
    → NodePolicy
    → (Text → Option B)
    → List (NodeSource A)
    → BTreeMap Text Location
    → Result (List (RefinedNode A))
unfolding push_batch refine
assemble_from parse p response [] tags = ok []
assemble_from parse p response (manual n position ∷ sources) tags =
    push_source position (ok (n ∷ [])) tags (λ later. assemble_from parse p response sources later)
assemble_from parse p response (remote url position ∷ sources) tags =
    push_remote parse p position (response url) tags
      (λ later. assemble_from parse p response sources later)

unfoldable pub assemble_nodes :
    {A B : Type 0}
    → (B → Result (List (Value A)))
    → NodePolicy
    → (Text → Option B)
    → List (NodeSource A)
    → Result (List (RefinedNode A))
unfolding assemble_from
assemble_nodes parse p response sources = assemble_from parse p response sources []
