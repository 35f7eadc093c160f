-- ===== src/Subscription/Witnesses.antt =====
-- Tests of the subscriptions, and their theorems at concrete inputs.
use flux_rs.Base.{ℕ, ◌≡◌, ◌↔◌, refl, true, ltb, none, some, List, [], ◌∷◌, length, All}
use flux_rs.Base.Text.{Text}
use flux_rs.Collections.TextOrd.{text_ord}
use flux_rs.Collections.BTreeMap.{get, insert}
use flux_rs.Subscription.{
  Value, object, ok, RefinedNode, NodePolicy, refine, refine_from, refine_entry, refined_tag,
  truncate_tag, groups_of,
}
use flux_rs.Subscription.Sources.{
  NodeSource, manual, remote, assemble_nodes, assemble_from, push_batch,
}
use flux_rs.Subscription.Refining.{IsRefined, refine-AreRefined}
use flux_rs.Subscription.Assembling.{all_nodes, AreDistinct, assemble_nodes_iff}

-- Tags of at most five characters; "x" is a type, "direct" an infrastructure type.
abbrev short_tags : NodePolicy
short_tags = record {
  exclude = none;
  renames = [];
  groups = (104 ∷ [], λ tag. true) ∷ [];
  strip_emoji = true;
  max_tag_length = 5;
  currency = λ tag. tag;
  suffix = λ tag. tag;
}

-- "a b c d" of type "x", and an entry of type "direct".
abbrev long_tag : Text
long_tag = 97 ∷ 32 ∷ 98 ∷ 32 ∷ 99 ∷ 32 ∷ 100 ∷ []

abbrev response : List (Value ℕ)
response =
    object (some (120 ∷ [])) (some long_tag) 7
    ∷ object (some (100 ∷ 105 ∷ 114 ∷ 101 ∷ 99 ∷ 116 ∷ [])) none 8
    ∷ []

abbrev short_node : RefinedNode ℕ
short_node = record {
  kind = 120 ∷ [];
  tag = 97 ∷ 32 ∷ 46 ∷ 46 ∷ 46 ∷ [];
  rest = 7;
  groups = (104 ∷ []) ∷ [];
}

refined : refine short_tags response ≡ ok (short_node ∷ [])
unfolding refine refine_from refine_entry refined_tag truncate_tag groups_of
refined = refl

refine-AreRefined_example :
    All (IsRefined short_tags) (short_node ∷ []) × (ltb 0 (length (short_node ∷ [])) ≡ true)
refine-AreRefined_example = refine-AreRefined short_tags response (short_node ∷ []) refined

abbrev own_node : RefinedNode ℕ
own_node = record { kind = 120 ∷ []; tag = 98 ∷ []; rest = 9; groups = [] }

abbrev sources : List (NodeSource ℕ)
sources = manual own_node (49 ∷ []) ∷ remote (117 ∷ []) (50 ∷ []) ∷ []

both : assemble_nodes ok short_tags (λ url. some response) sources ≡ ok (own_node ∷ short_node ∷ [])
unfolding assemble_nodes assemble_from push_batch refine refine_from refine_entry refined_tag
    truncate_tag groups_of get insert
both = refl

assemble_nodes_iff_example :
    (assemble_nodes ok short_tags (λ url. some response) sources ≡ ok (own_node ∷ short_node ∷ []))
    ↔ ((all_nodes ok short_tags (λ url. some response) sources ≡ ok (own_node ∷ short_node ∷ []))
        × AreDistinct (own_node ∷ short_node ∷ []))
assemble_nodes_iff_example =
    assemble_nodes_iff ok short_tags (λ url. some response) sources (own_node ∷ short_node ∷ [])
