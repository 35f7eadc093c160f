-- ===== src/Engine/Activating.antt =====
-- crates/fluxd/src/reactor.rs: the activation of an engine whose sockets are verified. The data plane's
-- calls are answers here; Dataplane models them.
use flux_rs.Base.{Bool, true, false, not, ◌&&◌, ◌||◌, if◌then◌else◌, Option, none, some}
use flux_rs.Runtime.Generations.{commit}
use flux_rs.Engine.{
  EngineChild, EngineError, io, WaitRole, candidate, recovery, StopNext, recover,
  finish_recovery_failure,
}
use flux_rs.Engine.Machine.{
  of_engine, Machine, Answers, AttachmentAnswer, waits, complete, broken, drop_diag_probe, is_some,
  bound_to, record_dataplane_error, resume_queued_subscription_work, run_queued_convergence,
}
use flux_rs.Engine.Stopping.{begin_stop, remove_old, finish_transaction_error}

abbrev pub next_of : WaitRole → EngineError → StopNext
next_of (candidate plan) error = recover plan error
next_of (recovery candidate_error) error = finish_recovery_failure candidate_error error

abbrev pub freeze_capture : Answers → Machine → Machine
freeze_capture a m = if a.frozen then record m { active = false } else m

abbrev pub stop_or_finish :
    Answers → StopNext → EngineError → Option EngineChild → Machine → Machine
stop_or_finish a next error none m = finish_transaction_error error none m
stop_or_finish a next error (some child) m = begin_stop a child next (record m { engine = none })

abbrev pub fail_role : Answers → Option WaitRole → Machine → Machine
fail_role a none m = freeze_capture a m
fail_role a (some role) m =
    stop_or_finish a (next_of role io) io m.engine (record m { activation_role = none })

unfoldable pub fail_phase6_activation : Answers → Machine → Machine
fail_phase6_activation a m = let m = record_dataplane_error m in fail_role a m.activation_role m

abbrev pub committed_role : Option WaitRole → Machine → Machine
committed_role (some (candidate plan)) m =
    remove_old plan.old (record m { current_engine_user = some plan.user; last_error = none })
committed_role (some (recovery candidate_error)) m = record m {
  last_error = some (of_engine candidate_error);
}
committed_role none m = m

abbrev pub commit_child : Answers → Option EngineChild → Machine → Machine
commit_child a none m = fail_phase6_activation a m
commit_child a (some child) m = run_queued_convergence (
    resume_queued_subscription_work
      (record (committed_role m.activation_role (record m {
        generations = commit m.generations child.params.generation;
        activation_role = none;
      })) { engine_cancel_requested = false }))

abbrev pub publish_active : Answers → Machine → Machine
publish_active a m =
    if a.published
    then commit_child a m.engine (record m { active = true })
    else fail_phase6_activation a m

-- The responses that wait for the generation are written to the cache.
abbrev pub with_pending : Answers → Option WaitRole → Machine → Machine
with_pending a (some (candidate plan)) m =
    let taken = record m {
      pending = if bound_to plan.generation m.pending then none else m.pending;
    } in
    if bound_to plan.generation m.pending && not a.cached
    then stop_or_finish a (recover plan io) io m.engine (record taken { activation_role = none })
    else publish_active a taken
with_pending a role m = publish_active a m

unfoldable pub finish_phase6_activation : Answers → Machine → Machine
finish_phase6_activation a m = with_pending a m.activation_role m

abbrev pub attached : Answers → Bool → AttachmentAnswer → Machine → Machine
attached a activating waits m = m
attached a activating complete m =
    if a.interface_ready && (activating || not m.active) then finish_phase6_activation a m else m
attached a activating broken m =
    if activating || not m.active then fail_phase6_activation a m else record_dataplane_error m

unfoldable pub start_phase6_attachment : Answers → Machine → Machine
start_phase6_attachment a m =
    if is_some m.activation_role || not m.active
    then if a.prepared
      then attached a true a.attachment (record m { active = false })
      else fail_phase6_activation a m
    else attached a false a.attachment m

unfoldable pub promote_ready_child : Answers → EngineChild → WaitRole → Machine → Machine
promote_ready_child a child role m =
    let m = drop_diag_probe m in
    if a.retagged
    then start_phase6_attachment a (record m {
      engine_timer = none;
      engine = some child;
      activation_role = some role;
      engine_cancel_requested = false;
    })
    else begin_stop a child (next_of role io) m

abbrev pub verified : Answers → AttachmentAnswer → Machine → Machine
verified a waits m = m
verified a complete m =
    if a.interface_ready
    then run_queued_convergence
        (if is_some m.activation_role || not m.active then finish_phase6_activation a m else m)
    else m
verified a broken m =
    if is_some m.activation_role || not m.active
    then fail_phase6_activation a m
    else record_dataplane_error m

unfoldable pub handle_tc_verify : Answers → Machine → Machine
handle_tc_verify a m = verified a a.attachment m
