-- ===== src/Engine/Returning/Restarting.antt =====
-- crates/fluxd/src/reactor.rs: the old generation is started when the failed candidate has exited.
use flux_rs.Base.{ℕ, ◌+◌, Bool, false, none, some, ◌≡◌, arith}
use flux_rs.Engine.{
  EngineChild, EngineError, OldGeneration, SwitchPlan, recovery, recover, stopping, ready_deadline,
}
use flux_rs.Engine.Machine.{Machine, Answers, terminate, remove_file, discard_generation}
use flux_rs.Engine.Recovering.{
  wait_for_child, begin_candidate_failure, complete_stopped, new_child, with_process,
}
use flux_rs.Engine.Handlers.{handle_transaction_pidfd}
use flux_rs.Engine.Supervised.{IsSupervised, IsIdle, Holds}
use flux_rs.Engine.Supervised.Steps.{stopping-Holds}
use flux_rs.Engine.Returning.{Restarts, Waits, otherwise}

restarted :
    {old : OldGeneration} {pid : ℕ} (a : Answers) (e : EngineError) (m : Machine)
    → Restarts old pid a
    → Holds pid m
    → m.engine_cancel_requested ≡ false
    → Waits
        (new_child a pid old.params old.effective)
        e
        (a.now + ready_deadline)
        10
        (wait_for_child a (new_child a pid old.params old.effective) (recovery e) m)
unfolding wait_for_child
restarted a e m r h c = ground arith

failed :
    {old : OldGeneration} {pid : ℕ} (a : Answers) (plan : SwitchPlan) (e : EngineError)
    (m : Machine)
    → Restarts old pid a
    → IsIdle m
    → m.engine ≡ none
    → plan.old ≡ some old
    → m.engine_cancel_requested ≡ false
    → Waits
        (new_child a pid old.params old.effective)
        e
        (a.now + ready_deadline)
        10
        (begin_candidate_failure a plan e m)
unfolding begin_candidate_failure
failed {old} {pid} a plan e m r h n o c =
    let m' = remove_file plan.candidate (discard_generation plan.generation m) in
    let held : Holds pid (with_process pid m') = ground arith in
    otherwise (Waits (new_child a pid old.params old.effective) e (a.now + ready_deadline) 10)
      m.engine_cancel_requested _ _ c
      (rw (o, r.spawned, r.registered) (restarted a e (with_process pid m') r held c))

reaped :
    {pid : ℕ} {old : OldGeneration} (a : Answers) (child : EngineChild) (m : Machine)
    → Restarts old pid a
    → Holds child.pid m
    → m.diag_probe ≡ false
    → IsIdle (remove_file child.effective (terminate a child m))
      × ((remove_file child.effective (terminate a child m)).engine ≡ none)
reaped a child m r h q = (ground (arith, r.exited), ground (arith, r.exited))

pub stopped :
    {child : EngineChild} {plan : SwitchPlan} {old : OldGeneration} {pid deadline : ℕ}
    {kill_sent : Bool} (a : Answers) (e : EngineError) (m : Machine)
    → Restarts old pid a
    → IsSupervised m
    → m.transaction ≡ some (stopping child (recover plan e) deadline kill_sent)
    → plan.old ≡ some old
    → m.engine_cancel_requested ≡ false
    → Waits
        (new_child a pid old.params old.effective)
        e
        (a.now + ready_deadline)
        10
        (handle_transaction_pidfd a m)
unfolding handle_transaction_pidfd complete_stopped
stopped {child} {plan} {old} {pid} a e m r h t o c =
    let m' = record m { transaction = none; engine_timer = none } in
    let (held, quiet) = stopping-Holds m h t in
    let held' : Holds child.pid m' = ground arith in
    let (idle, gone) = reaped a child m' r held' quiet in
    rw t (
      failed a plan e (remove_file child.effective (terminate a child m')) r idle gone o
        (ground (arith, r.exited)))
