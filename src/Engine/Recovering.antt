-- ===== src/Engine/Recovering.antt =====
-- crates/fluxd/src/reactor.rs: starting a candidate, and the return to the old generation.
use flux_rs.Base.{ℕ, ◌+◌, if◌then◌else◌, Option, none, some, ◌∷◌}
use flux_rs.Engine.{
  EngineParams, EngineChild, EngineError, io, OldGeneration, SwitchPlan, WaitRole, candidate,
  recovery, StopNext, start_candidate, recover, finish_recovery_failure, cancelled, waiting,
  ready_deadline,
}
use flux_rs.Engine.Machine.{
  Machine, Spawned, started, failed, Answers, disarm_timer, remove_file, terminate,
  discard_generation,
}
use flux_rs.Engine.Stopping.{begin_stop, remove_old, finish_cancelled, finish_transaction_error}

unfoldable pub wait_for_child : Answers → EngineChild → WaitRole → Machine → Machine
wait_for_child a child role m = record m {
  transaction = some (waiting child role (a.now + ready_deadline) 10);
  engine_timer = some 10;
}

abbrev pub new_child : Answers → ℕ → EngineParams → ℕ → EngineChild
new_child a pid params effective = record {
  pid = pid;
  params = params;
  effective = effective;
  spawned_at = a.now;
  sockets_verified = 0;
}

abbrev pub with_process : ℕ → Machine → Machine
with_process pid m = record m { processes = pid ∷ m.processes }

-- A process that cannot be watched is stopped at once.
abbrev pub supervise : Answers → EngineChild → WaitRole → StopNext → Machine → Machine
supervise a child role next m =
    if a.registered child.pid then wait_for_child a child role m else begin_stop a child next m

abbrev pub recover_old : Answers → EngineError → OldGeneration → Spawned → Machine → Machine
recover_old a error old (failed recovery_error) m =
    finish_transaction_error error (some recovery_error) m
recover_old a error old (started pid) m =
    supervise a (new_child a pid old.params old.effective) (recovery error)
      (finish_recovery_failure error io) (with_process pid m)

abbrev pub without_candidate : Answers → EngineError → Option OldGeneration → Machine → Machine
without_candidate a error none m = finish_transaction_error error none m
without_candidate a error (some old) m = recover_old a error old (a.spawn old.effective) m

unfoldable pub begin_candidate_failure : Answers → SwitchPlan → EngineError → Machine → Machine
begin_candidate_failure a plan error m =
    let m = remove_file plan.candidate (discard_generation plan.generation m) in
    if m.engine_cancel_requested
    then finish_cancelled a (remove_old plan.old m)
    else without_candidate a error plan.old m

abbrev pub start_spawned : Answers → SwitchPlan → Spawned → Machine → Machine
start_spawned a plan (failed error) m = begin_candidate_failure a plan error m
start_spawned a plan (started pid) m =
    supervise a (new_child a pid plan.params plan.candidate) (candidate plan) (recover plan io)
      (with_process pid m)

unfoldable pub start : Answers → SwitchPlan → Machine → Machine
start a plan m = start_spawned a plan (a.spawn plan.candidate) m

abbrev pub after_stop : Answers → EngineChild → StopNext → Machine → Machine
after_stop a child (start_candidate plan) m =
    if m.engine_cancel_requested
    then finish_cancelled a (remove_file plan.candidate (remove_file child.effective m))
    else start a plan m
after_stop a child (recover plan candidate_error) m =
    begin_candidate_failure a plan candidate_error (remove_file child.effective m)
after_stop a child (finish_recovery_failure candidate_error recovery_error) m =
    finish_transaction_error candidate_error (some recovery_error) (remove_file child.effective m)
after_stop a child cancelled m = finish_cancelled a (remove_file child.effective m)

-- The transaction was taken from the machine.
unfoldable pub complete_stopped : Answers → EngineChild → StopNext → Machine → Machine
complete_stopped a child next m = after_stop a child next (terminate a child (disarm_timer m))
