-- ===== src/Engine/Waiting.antt =====
-- crates/fluxd/src/reactor.rs: waiting for the sockets of an engine that was spawned.
use flux_rs.Base.{ℕ, ◌-◌, ◌*◌, min, leb, ltb, Bool, true, false, if◌then◌else◌, Option, none, some}
use flux_rs.Engine.{
  EngineChild, EngineError, exited, io, not_ready, WaitRole, candidate, recovery, cancelled,
  EngineTransaction, waiting, Readiness, verify_listener_inodes,
}
use flux_rs.Engine.Machine.{
  Machine, Answers, ProbeAnswer, wait, answered, retryable, broken, terminate, drop_diag_probe,
}
use flux_rs.Engine.Stopping.{begin_stop, cleanup_cancelled_wait_role, finish_transaction_error}
use flux_rs.Engine.Recovering.{begin_candidate_failure}
use flux_rs.Engine.Activating.{next_of, promote_ready_child}

abbrev pub at_least : ℕ → ℕ → ℕ
at_least low n = if ltb n low then low else n

unfoldable pub park_waiting : Answers → EngineChild → WaitRole → ℕ → ℕ → Machine → Machine
park_waiting a child role deadline backoff m = record m {
  transaction = some (waiting child role deadline backoff);
  engine_timer = some (at_least 1 (deadline - a.now));
}

unfoldable pub rearm_waiting : Answers → EngineChild → WaitRole → ℕ → ℕ → Machine → Machine
rearm_waiting a child role deadline backoff m = record m {
  transaction = some (waiting child role deadline (min (backoff * 2) 250));
  engine_timer = some (min backoff (deadline - a.now));
}

abbrev pub fail_waiting : Answers → EngineChild → WaitRole → EngineError → Machine → Machine
fail_waiting a child role error m = begin_stop a child (next_of role error) m

abbrev pub after_exit : Answers → WaitRole → EngineError → Machine → Machine
after_exit a (candidate plan) error m = begin_candidate_failure a plan error m
after_exit a (recovery candidate_error) error m =
    finish_transaction_error candidate_error (some error) m

unfoldable pub finish_waiting_exit : Answers → EngineChild → WaitRole → Machine → Machine
finish_waiting_exit a child role m =
    after_exit a role exited (terminate a child (drop_diag_probe m))

abbrev pub start_probe : Answers → EngineChild → WaitRole → ℕ → ℕ → Machine → Machine
start_probe a child role deadline backoff m =
    if m.diag_probe
    then park_waiting a child role deadline backoff m
    else if a.probe_started
    then park_waiting a child role deadline backoff (record m { diag_probe = true })
    else fail_waiting a child role io m

abbrev pub by_identity : Answers → EngineChild → WaitRole → ℕ → ℕ → Machine → Option Bool → Machine
by_identity a child role deadline backoff m none = fail_waiting a child role io m
by_identity a child role deadline backoff m (some false) =
    rearm_waiting a child role deadline backoff (drop_diag_probe m)
by_identity a child role deadline backoff m (some true) =
    start_probe a child role deadline backoff m

-- The guards that a timer's expiry and an answer to the probe have in common.
abbrev pub unless_over : Answers → EngineChild → WaitRole → ℕ → Machine → Machine → Machine
unless_over a child role deadline m go_on =
    if m.engine_cancel_requested
    then begin_stop a child cancelled (cleanup_cancelled_wait_role role m)
    else if a.exited
    then finish_waiting_exit a child role m
    else if leb deadline a.now
    then fail_waiting a child role (not_ready child.sockets_verified) m
    else go_on

unfoldable pub advance_waiting : Answers → EngineChild → WaitRole → ℕ → ℕ → Machine → Machine
advance_waiting a child role deadline backoff m =
    unless_over a child role deadline m (by_identity a child role deadline backoff m a.identity)

abbrev pub by_readiness : Answers → EngineChild → WaitRole → ℕ → ℕ → Machine → Readiness → Machine
by_readiness a child role deadline backoff m (Readiness.ready n) =
    promote_ready_child a (record child { sockets_verified = n }) role m
by_readiness a child role deadline backoff m (Readiness.pending n) =
    rearm_waiting a (record child { sockets_verified = n }) role deadline backoff m
by_readiness a child role deadline backoff m (Readiness.refused error) =
    fail_waiting a child role error m

-- The probe was taken from the machine.
abbrev pub by_answer : Answers → EngineChild → WaitRole → ℕ → ℕ → Machine → ProbeAnswer → Machine
by_answer a child role deadline backoff m wait =
    park_waiting a child role deadline backoff (record m { diag_probe = true })
by_answer a child role deadline backoff m (answered inodes) =
    by_readiness a child role deadline backoff m (verify_listener_inodes a.owns inodes)
by_answer a child role deadline backoff m retryable = rearm_waiting a child role deadline backoff m
by_answer a child role deadline backoff m broken = fail_waiting a child role io m

-- A transaction that does not wait is lost with the probe, which only stands while one waits.
abbrev pub probed : Answers → Option EngineTransaction → Machine → Machine
probed a (some (waiting child role deadline backoff)) m =
    unless_over a child role deadline m (by_answer a child role deadline backoff m a.probe)
probed a transaction m = m

unfoldable pub handle_sock_diag : Answers → Machine → Machine
handle_sock_diag a m =
    if m.diag_probe
    then probed a m.transaction (record m { diag_probe = false; transaction = none })
    else m
