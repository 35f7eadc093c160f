-- ===== src/Dataplane/Lifecycle/Witnesses.antt =====
-- Tests of the convergence of the data plane, and its theorems at concrete inputs.
use flux_rs.Base.{◌≡◌, refl, true, false, [], arith}
use flux_rs.Dataplane.{Outcome, ok, Manager}
use flux_rs.Dataplane.Witnesses.{manager, calls_with, desired}
use flux_rs.Dataplane.Transactions.{apply_policy}
use flux_rs.Dataplane.Lifecycle.{converge_inner, prepare_generation, publish_active}
use flux_rs.Dataplane.Lifecycle.Activation.{IsSound}
use flux_rs.Dataplane.Lifecycle.Reachable.{Step, Steps, Steps-IsSound}
use flux_rs.Dataplane.Lifecycle.Starting.{working, IsPublished, start-IsPublished}
use flux_rs.Dataplane.Lifecycle.Stopping.{IsStopped, converge_inner-IsStopped}

manager-IsSound : IsSound manager
manager-IsSound = record {
  live = refl;
  reported = λ h. ground (arith, h);
  attached = λ h. ground (arith, h);
  generation = refl;
}

abbrev up : Manager
up = converge_inner (working 0) true true manager

abbrev prepared : Manager
prepared = (prepare_generation Outcome.done [] [] 7 0x1f90 0x1f91 up).1

abbrev running : Manager
running = (publish_active prepared).1

abbrev applied : Manager
applied = (apply_policy (calls_with Outcome.done) desired running).1

running_steps : Steps manager running
running_steps =
    Steps.step manager prepared running
      (Steps.step manager up prepared
        (Steps.step manager manager up (Steps.stay manager)
          (Step.converge (working 0) true true manager))
        (Step.prepare Outcome.done [] [] 7 0x1f90 0x1f91 up))
      (Step.activate prepared)

Steps-IsSound_example : IsSound applied
Steps-IsSound_example = Steps-IsSound manager applied manager-IsSound (
    Steps.step manager running applied running_steps
      (Step.apply (calls_with Outcome.done) desired running))

start-IsPublished_example :
    ((prepare_generation Outcome.done [] [] 7 0x1f90 0x1f91 up).0 ≡ ok tt)
    × IsPublished (publish_active prepared)
start-IsPublished_example = start-IsPublished 0 7 0x1f90 0x1f91 true [] [] manager refl

converge_inner-IsStopped_example : IsStopped (converge_inner (working 0) false true running)
converge_inner-IsStopped_example =
    converge_inner-IsStopped (working 0) true running
      (Steps-IsSound manager running manager-IsSound running_steps).live refl
