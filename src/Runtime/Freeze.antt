-- ===== src/Runtime/Freeze.antt =====
-- crates/flux-core/src/runtime.rs: a step that leaves `active` publishes the inactive control leaf
-- first.
use flux_rs.Base.{true, ◌≡◌, ◌≢◌, Option, none, some, List, [], ◌∷◌, arith}
use flux_rs.Runtime.{Phase, Stimulus}
use flux_rs.Runtime.Phase.{active, activating}
use flux_rs.Runtime.Stimulus.{status, activation_committed}
use flux_rs.Runtime.CommandKind.{publish_inactive}
use flux_rs.Runtime.Table.{step}
use flux_rs.Runtime.Plan.{freezes_capture}

abbrev pub first {ℓ} : {A : Type ℓ} → List A → Option A
first [] = none
first (x ∷ xs) = some x

-- A step from `active` to another phase publishes inactive before any other command.
pub step-active_leaves :
    (s : Stimulus)
    → (step active s).phase ≢ active
    → first (step active s).commands ≡ some publish_inactive
unfolding step
step-active_leaves status h = ground arith
step-active_leaves s h = ground arith

-- A step that publishes inactive, from any phase, does so first and does not end in `active`.
pub step-freezes_first :
    (p : Phase) (s : Stimulus)
    → freezes_capture (step p s).commands ≡ true
    → (first (step p s).commands ≡ some publish_inactive) × ((step p s).phase ≢ active)
unfolding step
step-freezes_first p status h = ground arith
step-freezes_first p s h = ground arith

-- A step enters `active` from `activating` alone, by the committed activation.
pub step-enters_active :
    (p : Phase) (s : Stimulus)
    → p ≢ active
    → (step p s).phase ≡ active
    → (p ≡ activating) × (s ≡ activation_committed)
unfolding step
step-enters_active p status h e = ground arith
step-enters_active p s h e = ground arith
