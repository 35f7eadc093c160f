-- ===== src/Runtime/Commit.antt =====
-- Capture starts only by a committed activation.
use flux_rs.Base.{◌≢◌, List, [], ◌∷◌, All}
use flux_rs.Runtime.{Stimulus}
use flux_rs.Runtime.Phase.{active}
use flux_rs.Runtime.Stimulus.{activation_committed}
use flux_rs.Runtime.Plan.{Model, plan, run}
use flux_rs.Runtime.Freeze.{step-enters_active}

-- From a phase other than `active`, stimuli without an `ActivationCommitted` never reach `active`.
pub run-not_active :
    (m : Model) (ss : List Stimulus)
    → m.phase ≢ active
    → All (λ s. s ≢ activation_committed) ss
    → (run m ss).0.phase ≢ active
unfolding run plan
run-not_active m [] ne h = ne
run-not_active m (s ∷ ss) ne h =
    run-not_active (plan m s).0 ss (λ e. h.0 (step-enters_active m.phase s ne e).1) h.1
