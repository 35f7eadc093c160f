-- ===== src/Engine/Supervised/Ends.antt =====
-- crates/fluxd/src/reactor.rs: the ends of a transaction keep the engine supervised.
use flux_rs.Base.{ℕ, ◌||◌, true, false, Option, none, some, ◌≡◌, refl, ◌∙◌, arith}
use flux_rs.Engine.{EngineChild, EngineError, io, SwitchPlan, WaitRole, StopNext, OldGeneration}
use flux_rs.Engine.Machine.{
  Machine, Answers, Spawned, started, failed, terminate, remove_file, discard_generation,
}
use flux_rs.Engine.Stopping.{
  begin_stop, finish_cancelled, finish_transaction_error, stop_confirmation_failed, retain,
  failed_generation, remove_old, cleanup_cancelled_stop_next, cleanup_cancelled_wait_role,
}
use flux_rs.Engine.Recovering.{
  wait_for_child, begin_candidate_failure, start, complete_stopped, supervise, new_child,
  with_process, recover_old, without_candidate, start_spawned, after_stop,
}
use flux_rs.Engine.Supervised.{IsSupervised, IsIdle, Holds, choose-IsSupervised}

pub begin_stop-IsSupervised :
    (a : Answers) (child : EngineChild) (next : StopNext) (m : Machine)
    → Holds child.pid m
    → IsSupervised (begin_stop a child next m)
unfolding begin_stop
begin_stop-IsSupervised a child next m h = ground arith

pub wait_for_child-IsSupervised :
    (a : Answers) (child : EngineChild) (role : WaitRole) (m : Machine)
    → Holds child.pid m
    → m.diag_probe ≡ false
    → IsSupervised (wait_for_child a child role m)
unfolding wait_for_child
wait_for_child-IsSupervised a child role m h q = ground arith

pub finish_cancelled-IsSupervised :
    (a : Answers) (m : Machine) → IsIdle m → IsSupervised (finish_cancelled a m)
unfolding finish_cancelled begin_stop
finish_cancelled-IsSupervised a m h = ground arith

pub finish_transaction_error-IsSupervised :
    (e : EngineError) (r : Option EngineError) (m : Machine)
    → IsIdle m
    → IsSupervised (finish_transaction_error e r m)
unfolding finish_transaction_error
finish_transaction_error-IsSupervised e r m h = ground arith

-- A child that is started where nothing runs is the only one.
pub supervise-IsSupervised :
    (a : Answers) (child : EngineChild) (role : WaitRole) (next : StopNext) (m : Machine)
    → Holds child.pid m
    → m.diag_probe ≡ false
    → IsSupervised (supervise a child role next m)
supervise-IsSupervised a child role next m h q =
    choose-IsSupervised (a.registered child.pid) _ _
      (λ _. wait_for_child-IsSupervised a child role m h q)
      (λ _. begin_stop-IsSupervised a child next m h)

pub remove_old-IsIdle :
    (old : Option OldGeneration) (m : Machine)
    → IsIdle m
    → IsIdle (remove_old old m) × ((remove_old old m).engine ≡ m.engine)
remove_old-IsIdle none m h = (h, refl)
remove_old-IsIdle (some old) m h = (ground arith, refl)

pub recover_old-IsSupervised :
    (a : Answers) (e : EngineError) (old : OldGeneration) (s : Spawned) (m : Machine)
    → IsIdle m
    → m.engine ≡ none
    → IsSupervised (recover_old a e old s m)
recover_old-IsSupervised a e old (failed r) m h n =
    finish_transaction_error-IsSupervised e (some r) m h
recover_old-IsSupervised a e old (started pid) m h n =
    supervise-IsSupervised a (new_child a pid old.params old.effective) (WaitRole.recovery e)
      (StopNext.finish_recovery_failure e io) (with_process pid m) (ground arith) h.quiet

without_candidate-IsSupervised :
    (a : Answers) (e : EngineError) (old : Option OldGeneration) (m : Machine)
    → IsIdle m
    → m.engine ≡ none
    → IsSupervised (without_candidate a e old m)
without_candidate-IsSupervised a e none m h n = finish_transaction_error-IsSupervised e none m h
without_candidate-IsSupervised a e (some old) m h n =
    recover_old-IsSupervised a e old (a.spawn old.effective) m h n

pub begin_candidate_failure-IsSupervised :
    (a : Answers) (plan : SwitchPlan) (e : EngineError) (m : Machine)
    → IsIdle m
    → m.engine ≡ none
    → IsSupervised (begin_candidate_failure a plan e m)
unfolding begin_candidate_failure
begin_candidate_failure-IsSupervised a plan e m h n =
    let m' = remove_file plan.candidate (discard_generation plan.generation m) in
    let h' : IsIdle m' = ground arith in
    choose-IsSupervised m.engine_cancel_requested _ _
      (λ _.
        finish_cancelled-IsSupervised a (remove_old plan.old m')
          (remove_old-IsIdle plan.old m' h').0)
      (λ _. without_candidate-IsSupervised a e plan.old m' h' n)

start_spawned-IsSupervised :
    (a : Answers) (plan : SwitchPlan) (s : Spawned) (m : Machine)
    → IsIdle m
    → m.engine ≡ none
    → IsSupervised (start_spawned a plan s m)
start_spawned-IsSupervised a plan (failed e) m h n =
    begin_candidate_failure-IsSupervised a plan e m h n
start_spawned-IsSupervised a plan (started pid) m h n =
    supervise-IsSupervised a (new_child a pid plan.params plan.candidate) (WaitRole.candidate plan)
      (StopNext.recover plan io) (with_process pid m) (ground arith) h.quiet

pub start-IsSupervised :
    (a : Answers) (plan : SwitchPlan) (m : Machine)
    → IsIdle m
    → m.engine ≡ none
    → IsSupervised (start a plan m)
unfolding start
start-IsSupervised a plan m h n = start_spawned-IsSupervised a plan (a.spawn plan.candidate) m h n

-- The child of a machine that holds it is reaped once it has exited.
pub terminate-IsIdle :
    (a : Answers) (child : EngineChild) (m : Machine)
    → (a.exited || a.dies) ≡ true
    → Holds child.pid m
    → m.diag_probe ≡ false
    → IsIdle (terminate a child m) × ((terminate a child m).engine ≡ none)
terminate-IsIdle a child m d h q = ground arith

after_stop-IsSupervised :
    (a : Answers) (child : EngineChild) (next : StopNext) (m : Machine)
    → IsIdle m
    → m.engine ≡ none
    → IsSupervised (after_stop a child next m)
after_stop-IsSupervised a child (StopNext.start_candidate plan) m h n =
    choose-IsSupervised m.engine_cancel_requested _ _
      (λ _.
        finish_cancelled-IsSupervised a (remove_file plan.candidate (remove_file child.effective m))
          (ground arith))
      (λ _. start-IsSupervised a plan m h n)
after_stop-IsSupervised a child (StopNext.recover plan e) m h n =
    begin_candidate_failure-IsSupervised a plan e (remove_file child.effective m) (ground arith) n
after_stop-IsSupervised a child (StopNext.finish_recovery_failure e r) m h n =
    finish_transaction_error-IsSupervised e (some r) (remove_file child.effective m) (ground arith)
after_stop-IsSupervised a child StopNext.cancelled m h n =
    finish_cancelled-IsSupervised a (remove_file child.effective m) (ground arith)

pub complete_stopped-IsSupervised :
    (a : Answers) (child : EngineChild) (next : StopNext) (m : Machine)
    → (a.exited || a.dies) ≡ true
    → Holds child.pid m
    → m.diag_probe ≡ false
    → IsSupervised (complete_stopped a child next m)
unfolding complete_stopped
complete_stopped-IsSupervised a child next m d h q =
    let m' = record m { engine_timer = none } in
    let reaped = terminate-IsIdle a child m' d (ground arith) q in
    after_stop-IsSupervised a child next (terminate a child m') reaped.0 reaped.1

-- What is cleaned up with a cancelled step leaves the processes and their owner alone.
pub remove_old-Holds :
    (pid : ℕ) (old : Option OldGeneration) (m : Machine)
    → Holds pid m
    → Holds pid (remove_old old m)
remove_old-Holds pid none m h = h
remove_old-Holds pid (some old) m h = record {
  taken = h.taken;
  unassigned = h.unassigned;
  counted = h.counted;
}

pub cleanup_cancelled_stop_next-Holds :
    (pid : ℕ) (next : StopNext) (m : Machine)
    → Holds pid m
    → Holds pid (cleanup_cancelled_stop_next next m)
cleanup_cancelled_stop_next-Holds pid (StopNext.start_candidate plan) m h = record {
  taken = h.taken;
  unassigned = h.unassigned;
  counted = h.counted;
}
cleanup_cancelled_stop_next-Holds pid (StopNext.recover plan e) m h =
    remove_old-Holds pid plan.old m h
cleanup_cancelled_stop_next-Holds pid (StopNext.finish_recovery_failure e r) m h = h
cleanup_cancelled_stop_next-Holds pid StopNext.cancelled m h = h

pub cleanup_cancelled_wait_role-Holds :
    (pid : ℕ) (role : WaitRole) (m : Machine)
    → Holds pid m
    → Holds pid (cleanup_cancelled_wait_role role m)
cleanup_cancelled_wait_role-Holds pid (WaitRole.candidate plan) m h =
    remove_old-Holds pid plan.old m h
cleanup_cancelled_wait_role-Holds pid (WaitRole.recovery e) m h = h

cleanup_cancelled_stop_next-quiet :
    (next : StopNext) (m : Machine) → (cleanup_cancelled_stop_next next m).diag_probe ≡ m.diag_probe
cleanup_cancelled_stop_next-quiet (StopNext.start_candidate plan) m = refl
cleanup_cancelled_stop_next-quiet (StopNext.recover plan e) m = quiet plan.old
  where
    quiet : (old : Option OldGeneration) → (remove_old old m).diag_probe ≡ m.diag_probe
    quiet none = refl
    quiet (some old) = refl
cleanup_cancelled_stop_next-quiet (StopNext.finish_recovery_failure e r) m = refl
cleanup_cancelled_stop_next-quiet StopNext.cancelled m = refl

retain-IsSupervised :
    (child : EngineChild) (m : Machine)
    → Holds child.pid m
    → m.diag_probe ≡ false
    → IsSupervised (retain child m)
retain-IsSupervised child m h q = ground arith

failed_generation-Holds :
    (pid : ℕ) (next : StopNext) (m : Machine)
    → Holds pid m
    → Holds pid (failed_generation next m) × ((failed_generation next m).diag_probe ≡ m.diag_probe)
failed_generation-Holds pid (StopNext.start_candidate plan) m h =
    (record { taken = h.taken; unassigned = h.unassigned; counted = h.counted }, refl)
failed_generation-Holds pid (StopNext.recover plan e) m h =
    (record { taken = h.taken; unassigned = h.unassigned; counted = h.counted }, refl)
failed_generation-Holds pid (StopNext.finish_recovery_failure e r) m h = (h, refl)
failed_generation-Holds pid StopNext.cancelled m h = (h, refl)

pub stop_confirmation_failed-IsSupervised :
    (child : EngineChild) (next : StopNext) (m : Machine)
    → Holds child.pid m
    → m.diag_probe ≡ false
    → IsSupervised (stop_confirmation_failed child next m)
unfolding stop_confirmation_failed
stop_confirmation_failed-IsSupervised child next m h q =
    let (held, same) = failed_generation-Holds child.pid next m h in
    let m' = failed_generation next m in
    retain-IsSupervised child (cleanup_cancelled_stop_next next m')
      (cleanup_cancelled_stop_next-Holds child.pid next m' held)
      (cleanup_cancelled_stop_next-quiet next m' ∙ same ∙ q)
