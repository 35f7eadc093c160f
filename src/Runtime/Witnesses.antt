-- ===== src/Runtime/Witnesses.antt =====
-- Tests of the lifecycle table, and its theorems at concrete inputs.
use flux_rs.Base.{
  ℕ, ◌≡◌, ◌↔◌, inl, refl, true, false, Option, none, some, List, [], ◌∷◌, length, arith,
}
use flux_rs.Runtime.{Stimulus}
use flux_rs.Runtime.Phase.{activating, active}
use flux_rs.Runtime.Stimulus.{bootstrap, disable, core_drift, engine_stopped}
use flux_rs.Runtime.Table.{step}
use flux_rs.Runtime.Plan.{new, run}
use flux_rs.Runtime.View.{Observation}
use flux_rs.Runtime.Generations
use flux_rs.Runtime.Halted.{IsHalted, QuietCommands, switched_off-quiet}

core_drift_table : (step active core_drift).phase ≡ activating
unfolding step
core_drift_table = refl

abbrev after_disable : List Stimulus
after_disable = bootstrap ∷ engine_stopped ∷ core_drift ∷ []

switched_off-quiet_example :
    IsHalted (run (new active) (disable ∷ after_disable)).0.phase
    × QuietCommands (run (new active) (disable ∷ after_disable)).1
switched_off-quiet_example =
    switched_off-quiet (new active) disable after_disable (inl refl)
      (λ e. cc, (λ e. cc, (λ e. cc, tt)))

abbrev stops : List Stimulus
stops = core_drift ∷ disable ∷ []

three_commands : length (run (new active) stops).1 ≡ 3
unfolding run step
three_commands = refl

abbrev live : Observation
live = record {
  disable_present = false;
  shutdown = false;
  ssid_paused = false;
  engine_present = true;
  dataplane_active = true;
  awaiting_commit = false;
  convergence_busy = false;
}

abbrev no_error : Option ℕ
no_error = none

abbrev two_generations : List Generations.Op
two_generations = Generations.allocating ∷ Generations.committing 1 ∷ Generations.allocating ∷ []

abbrev after_two : Generations.Generations
after_two = record { next = 3; committed = 1 }

two_run : Generations.run_ops Generations.new two_generations ≡ some (after_two, 1 ∷ 2 ∷ [])
unfolding Generations.run_ops Generations.allocate
two_run = refl

abbrev third : Generations.Generations
third = record { next = 4; committed = 1 }

commit-supersedes_example :
    (Generations.fault_is_current (Generations.commit third 3) 1 (some 1) ≡ false)
    × ((Generations.fault_is_current (Generations.commit third 3) 3 (some 1) ≡ true)
        ↔ (◌≡◌ {A = Option ℕ} (some 1) (some 3)))
    × Generations.IsOwned (Generations.commit third 3)
commit-supersedes_example =
    Generations.commit-supersedes after_two third 3 (some 1) (omega arith)
      (unfold Generations.allocate in refl)
