-- ===== src/Engine/Handlers.antt =====
-- crates/fluxd/src/reactor.rs: the handlers of the event loop that advance the engine's transaction, and
-- the starts and stops that come from outside of it.
use flux_rs.Base.{ℕ, ◌+◌, ◌-◌, leb, Bool, true, not, ◌&&◌, if◌then◌else◌, Option, none, some, ◌∷◌}
use flux_rs.Base.Text.{Text}
use flux_rs.Supervisor.{backoff_reset_after}
use flux_rs.Engine.{
  EngineChild, EngineError, exited, check_failed, io, SwitchPlan, CheckDisposition, WaitRole,
  candidate, recovery, StopNext, EngineTransaction, checking, waiting, stopping, check_deadline,
}
use flux_rs.Engine.Machine.{
  of_engine, engine_exited, engine_io_error, Machine, Answers, CheckAnswer, live, ended,
  unsupervised, arm_timer, disarm_timer, remove_file, terminate, is_some, cancel_backoff,
  retry_later,
}
use flux_rs.Engine.Stopping.{
  begin_stop, finish_cancelled, finish_transaction_error, stop_confirmation_failed,
  cancel_engine_work,
}
use flux_rs.Engine.Recovering.{start, begin_candidate_failure, complete_stopped}
use flux_rs.Engine.Activating.{freeze_capture}
use flux_rs.Engine.Waiting.{advance_waiting}

-- A candidate that passed its check replaces the engine, which is stopped first.
abbrev pub switch : Answers → SwitchPlan → Option EngineChild → Machine → Machine
switch a plan none m = start a plan m
switch a plan (some child) m =
    if a.frozen
    then begin_stop a child
        (StopNext.start_candidate (record plan {
          old = some (record { params = child.params; effective = child.effective });
        }))
        (freeze_capture a (record m { engine = none }))
    else finish_transaction_error io none (remove_file plan.candidate m)

abbrev pub by_result : Answers → SwitchPlan → Option EngineError → Machine → Machine
by_result a plan (some error) m = finish_transaction_error error none (remove_file plan.candidate m)
by_result a plan none m =
    if m.engine_cancel_requested
    then finish_cancelled a (remove_file plan.candidate m)
    else switch a plan m.engine m

abbrev pub by_disposition :
    Answers → SwitchPlan → CheckDisposition → Option EngineError → Machine → Machine
by_disposition a plan CheckDisposition.cancelled result m =
    finish_cancelled a (remove_file plan.candidate m)
by_disposition a plan CheckDisposition.timed_out result m =
    finish_transaction_error check_failed none (remove_file plan.candidate m)
by_disposition a plan CheckDisposition.supervision_failed result m =
    finish_transaction_error io none (remove_file plan.candidate m)
by_disposition a plan CheckDisposition.normal result m = by_result a plan result m

unfoldable pub complete_check :
    Answers → SwitchPlan → CheckDisposition → Option EngineError → Machine → Machine
complete_check a plan disposition result m =
    by_disposition a plan disposition result (disarm_timer m)

abbrev pub check_delay : Answers → ℕ → CheckDisposition → ℕ
check_delay a deadline CheckDisposition.normal = deadline - a.now
check_delay a deadline disposition = 10

abbrev pub watch_failed : Answers → SwitchPlan → EngineError → Machine → Machine
watch_failed a plan error m = arm_timer 10 (record m {
  last_error = some (of_engine error);
  transaction = some (checking plan (a.now + 2_000) CheckDisposition.supervision_failed);
})

-- The machine's timer is armed again where the check is still alive; on the descriptor's event it
-- stays as it is.
abbrev pub check_exited : Answers → Option EngineTransaction → CheckAnswer → Machine → Machine
check_exited a (some (checking plan deadline disposition)) (ended result) m =
    complete_check a plan disposition result (record m { transaction = none })
check_exited a (some (checking plan deadline disposition)) (unsupervised error) m =
    watch_failed a plan error m
check_exited a transaction answer m = m

unfoldable pub handle_check_exit : Answers → Machine → Machine
handle_check_exit a m = check_exited a m.transaction a.check m

abbrev pub timed : Answers → ℕ → CheckDisposition → CheckDisposition
timed a deadline CheckDisposition.normal =
    if leb deadline a.now then CheckDisposition.timed_out else CheckDisposition.normal
timed a deadline disposition = disposition

abbrev pub check_timer :
    Answers → SwitchPlan → ℕ → CheckDisposition → CheckAnswer → Machine → Machine
check_timer a plan deadline disposition (ended result) m =
    complete_check a plan disposition result (record m { transaction = none })
check_timer a plan deadline disposition (unsupervised error) m = watch_failed a plan error m
check_timer a plan deadline disposition live m =
    arm_timer (check_delay a deadline disposition)
      (record m { transaction = some (checking plan deadline disposition) })

abbrev pub stop_timer : Answers → EngineChild → StopNext → ℕ → Bool → Machine → Machine
stop_timer a child next deadline kill_sent m =
    if a.exited
    then complete_stopped a child next (record m { transaction = none })
    else if not (leb deadline a.now)
    then arm_timer (deadline - a.now) m
    else if not kill_sent
    then arm_timer 2_000
        (record m { transaction = some (stopping child next (a.now + 2_000) true) })
    else stop_confirmation_failed child next (record m { transaction = none })

abbrev pub on_timer : Answers → Option EngineTransaction → Machine → Machine
on_timer a none m = m
on_timer a (some (checking plan deadline disposition)) m =
    check_timer a plan deadline (timed a deadline disposition) a.check m
on_timer a (some (waiting child role deadline backoff)) m =
    advance_waiting a child role deadline backoff (record m { transaction = none })
on_timer a (some (stopping child next deadline kill_sent)) m =
    stop_timer a child next deadline kill_sent m

unfoldable pub handle_engine_timer : Answers → Machine → Machine
handle_engine_timer a m = on_timer a m.transaction m

abbrev pub on_pidfd : Answers → Option EngineTransaction → Machine → Machine
on_pidfd a (some (waiting child role deadline backoff)) m =
    advance_waiting a child role deadline backoff (record m { transaction = none })
on_pidfd a (some (stopping child next deadline kill_sent)) m =
    complete_stopped a child next (record m { transaction = none })
on_pidfd a transaction m = m

unfoldable pub handle_transaction_pidfd : Answers → Machine → Machine
handle_transaction_pidfd a m = on_pidfd a m.transaction m

abbrev pub failed_role : Answers → Option WaitRole → Machine → Machine → Machine
failed_role a (some (candidate plan)) m otherwise = begin_candidate_failure a plan exited m
failed_role a (some (recovery candidate_error)) m otherwise =
    finish_transaction_error candidate_error (some exited) m
failed_role a none m otherwise = otherwise

-- A minute of running forgets the crashes before.
abbrev pub after_crash : Answers → EngineChild → Machine → Machine
after_crash a child m =
    let count = if leb (child.spawned_at + backoff_reset_after) a.now then 0 else m.crash_count in
    let m = record m { last_error = some engine_exited; crash_count = count } in
    if is_some m.transaction then m else retry_later m

abbrev pub engine_gone : Answers → Option EngineChild → Machine → Machine
engine_gone a none m = m
engine_gone a (some child) m =
    let m = remove_file child.effective (terminate a child (record m { engine = none })) in
    failed_role a m.activation_role (record m { activation_role = none }) (after_crash a child m)

-- The planner's freeze of the capture comes first; Runtime models when it asks for one.
unfoldable pub handle_engine_exit : Answers → Bool → Machine → Machine
handle_engine_exit a freezes m =
    let m = if freezes then freeze_capture a m else m in engine_gone a m.engine m

unfoldable pub request_shutdown : Answers → Machine → Machine
request_shutdown a m =
    if m.shutdown_requested
    then m
    else cancel_engine_work a
        (freeze_capture a (record m { shutdown_requested = true; engine_cancel_requested = true }))

-- `inactive` says whether the data plane could be left.
unfoldable pub deactivate_runtime : Answers → Machine → Machine
deactivate_runtime a m =
    cancel_backoff
      (record (cancel_engine_work a
        (record m { active = m.active && not a.inactive; engine_cancel_requested = true })) {
          changes_queued = true;
        })

-- What `start_generation_check` meets on its way: an error of the ports or the configuration, of the
-- file, of the check's process, and whether its descriptors can be watched.
pub record Start : Type 0 where
  pub port_v4 : ℕ
  pub port_v6 : ℕ
  pub unprepared : Option EngineError
  pub unwritten : Option EngineError
  pub unspawned : Option EngineError
  pub watched : Bool
  pub policy_present : Bool

abbrev pub bind_pending : ℕ → Option (Option ℕ) → Option (Option ℕ)
bind_pending generation none = none
bind_pending generation (some g) = some (some generation)

abbrev pub begin_check : Answers → Start → SwitchPlan → Machine → Machine
begin_check a s plan m =
    if s.watched
    then arm_timer check_deadline (record m {
      transaction = some (checking plan (a.now + check_deadline) CheckDisposition.normal);
    })
    else arm_timer 10 (record m {
      last_error = some engine_io_error;
      transaction =
          some (checking plan (a.now + check_deadline) CheckDisposition.supervision_failed);
    })

abbrev pub spawn_check : Answers → Start → SwitchPlan → Option EngineError → Machine → Machine
spawn_check a s plan (some error) m =
    finish_transaction_error error none (remove_file plan.candidate m)
spawn_check a s plan none m = begin_check a s plan m

abbrev pub write_effective : Answers → Start → SwitchPlan → Option EngineError → Machine → Machine
write_effective a s plan (some error) m = finish_transaction_error error none m
write_effective a s plan none m =
    spawn_check a s plan s.unspawned (record m { files = plan.candidate ∷ m.files })

abbrev pub prepare_check : Answers → Start → SwitchPlan → Option EngineError → Machine → Machine
prepare_check a s plan (some error) m = finish_transaction_error error none m
prepare_check a s plan none m = write_effective a s plan s.unwritten m

unfoldable pub start_generation_check : Answers → Start → Text → ℕ → Machine → Machine
start_generation_check a s user generation m =
    prepare_check a s
      (record {
        generation = generation;
        params = record { generation = generation; port_v4 = s.port_v4; port_v6 = s.port_v6 };
        candidate = generation;
        user = user;
        old = none;
      })
      s.unprepared
      (record m {
        pending = if s.policy_present then bind_pending generation m.pending else m.pending;
      })
