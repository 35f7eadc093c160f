-- ===== src/Engine/Stopping.antt =====
-- crates/fluxd/src/reactor.rs: stopping an engine, and the ends of a transaction that fails or is
-- cancelled.
use flux_rs.Base.{ℕ, ◌+◌, Bool, true, false, not, ◌&&◌, if◌then◌else◌, Option, none, some}
use flux_rs.Runtime.Generations.{commit}
use flux_rs.Engine.{
  EngineChild, EngineError, OldGeneration, CheckDisposition, WaitRole, candidate, recovery,
  StopNext, start_candidate, recover, cancelled, EngineTransaction, checking, waiting, stopping,
  terminate_grace, is_retryable,
}
use flux_rs.Engine.Machine.{
  of_engine, engine_stop_failed, Machine, Answers, arm_timer, disarm_timer, remove_file,
  drop_diag_probe, schedule_backoff, retry_later, discard_generation,
  resume_queued_subscription_work, run_queued_convergence, is_some,
}

-- The signals that fail are only logged.
unfoldable pub begin_stop : Answers → EngineChild → StopNext → Machine → Machine
begin_stop a child next m = record m {
  diag_probe = false;
  transaction = some (stopping child next (a.now + terminate_grace) false);
  engine_timer = some terminate_grace;
}

abbrev pub remove_old : Option OldGeneration → Machine → Machine
remove_old none m = m
remove_old (some old) m = remove_file old.effective m

abbrev pub cleanup_cancelled_wait_role : WaitRole → Machine → Machine
cleanup_cancelled_wait_role (candidate plan) m = remove_old plan.old m
cleanup_cancelled_wait_role (recovery e) m = m

abbrev pub cleanup_cancelled_stop_next : StopNext → Machine → Machine
cleanup_cancelled_stop_next (start_candidate plan) m = remove_file plan.candidate m
cleanup_cancelled_stop_next (recover plan e) m = remove_old plan.old m
cleanup_cancelled_stop_next next m = m

abbrev pub converge_after_cancel : Machine → Machine
converge_after_cancel m =
    if m.disabled
    then record m { last_error = none }
    else record m { convergence_due = not m.shutdown_requested }

abbrev pub end_cancelled : Answers → Option EngineChild → Machine → Machine
end_cancelled a none m = converge_after_cancel (record m { engine_cancel_requested = false })
end_cancelled a (some child) m = begin_stop a child cancelled (record m { engine = none })

-- `converge` is its last call, and its callers do nothing after it: it is marked here, and `converge_last` of
-- Converging makes the call at the end of the handler.
unfoldable pub finish_cancelled : Answers → Machine → Machine
finish_cancelled a m =
    end_cancelled a m.engine (disarm_timer (record m { diag_probe = false; transaction = none }))

abbrev pub bound : Option (Option ℕ) → Bool
bound (some (some g)) = true
bound p = false

abbrev pub retry_cold_start : EngineError → Machine → Machine
retry_cold_start error m =
    if not (is_some m.engine) && not m.disabled && not m.shutdown_requested && is_retryable error
    then retry_later m
    else m

-- The second error shows in the detail only.
unfoldable pub finish_transaction_error : EngineError → Option EngineError → Machine → Machine
finish_transaction_error error recovery_error m = run_queued_convergence (
    resume_queued_subscription_work (
      retry_cold_start error (record m {
        pending = if bound m.pending then none else m.pending;
        transaction = none;
        engine_timer = none;
        last_error = some (of_engine error);
      })))

abbrev pub failed_generation : StopNext → Machine → Machine
failed_generation (start_candidate plan) m = discard_generation plan.generation m
failed_generation (recover plan e) m = discard_generation plan.generation m
failed_generation next m = m

-- The child that survives SIGKILL is the engine again.
abbrev pub retain : EngineChild → Machine → Machine
retain child m = schedule_backoff 1 (
    resume_queued_subscription_work (record m {
      last_error = some engine_stop_failed;
      generations = commit m.generations child.params.generation;
      engine = some child;
      transaction = none;
      engine_cancel_requested = false;
      engine_timer = none;
    }))

unfoldable pub stop_confirmation_failed : EngineChild → StopNext → Machine → Machine
stop_confirmation_failed child next m =
    retain child (cleanup_cancelled_stop_next next (failed_generation next m))

abbrev pub cancel_role : Option WaitRole → Machine → Machine
cancel_role none m = m
cancel_role (some role) m = cleanup_cancelled_wait_role role (record m { activation_role = none })

abbrev pub cancel_engine : Answers → Option EngineChild → Machine → Machine
cancel_engine a none m = record m { engine_cancel_requested = false }
cancel_engine a (some child) m = begin_stop a child cancelled (record m { engine = none })

abbrev pub cancel_transaction : Answers → Option EngineTransaction → Machine → Machine
cancel_transaction a none m = cancel_engine a m.engine (cancel_role m.activation_role m)
cancel_transaction a (some (checking plan deadline disposition)) m =
    arm_timer 10
      (record m { transaction = some (checking plan deadline CheckDisposition.cancelled) })
cancel_transaction a (some (waiting child role deadline backoff)) m =
    begin_stop a child cancelled (cleanup_cancelled_wait_role role m)
cancel_transaction a (some (stopping child next deadline kill_sent)) m =
    begin_stop a child cancelled (cleanup_cancelled_stop_next next m)

unfoldable pub cancel_engine_work : Answers → Machine → Machine
cancel_engine_work a m = cancel_transaction a m.transaction (drop_diag_probe m)
