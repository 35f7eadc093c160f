-- ===== src/Engine/Supervised/Reachable.antt =====
-- crates/fluxd/src/reactor.rs: every machine that the event loop reaches is supervised.
use flux_rs.Base.{Bool, true, false, Option, none, some, [], ◌≡◌, ◌≤◌, refl, length, arith}
use flux_rs.Base.Text.{Text}
use flux_rs.Runtime.Generations.{new}
use flux_rs.Engine.Machine.{Machine, Answers}
use flux_rs.Engine.Stopping.{cancel_engine_work}
use flux_rs.Engine.Activating.{handle_tc_verify}
use flux_rs.Engine.Waiting.{handle_sock_diag}
use flux_rs.Engine.Handlers.{
  handle_check_exit, handle_engine_timer, handle_transaction_pidfd, handle_engine_exit,
  request_shutdown, deactivate_runtime, Start,
}
use flux_rs.Engine.Converging.{converge_engine}
use flux_rs.Engine.Supervised.{IsSupervised, carry-IsSupervised}
use flux_rs.Engine.Supervised.Activation.{handle_tc_verify-IsSupervised}
use flux_rs.Engine.Supervised.Steps.{handle_sock_diag-IsSupervised}
use flux_rs.Engine.Supervised.Handling.{
  handle_check_exit-IsSupervised, handle_engine_timer-IsSupervised,
  handle_transaction_pidfd-IsSupervised,
}
use flux_rs.Engine.Supervised.Cancelling.{
  cancel_engine_work-IsSupervised, request_shutdown-IsSupervised, deactivate_runtime-IsSupervised,
  handle_engine_exit-IsSupervised,
}
use flux_rs.Engine.Supervised.Convergence.{converge_engine-IsSupervised}

-- The handlers of the event loop. An event of a process's descriptor says that the process has exited.
pub data Step : Machine → Machine → Type 0 where
  check_exit : (a : Answers) (m : Machine) → Step m (handle_check_exit a m)
  timer : (a : Answers) (m : Machine) → Step m (handle_engine_timer a m)
  probe : (a : Answers) (m : Machine) → Step m (handle_sock_diag a m)
  verification : (a : Answers) (m : Machine) → Step m (handle_tc_verify a m)
  transaction_exit :
      (a : Answers) (m : Machine) → a.exited ≡ true → Step m (handle_transaction_pidfd a m)
  engine_exit :
      (a : Answers) (freezes : Bool) (m : Machine)
      → a.exited ≡ true
      → Step m (handle_engine_exit a freezes m)
  cancellation :
      (a : Answers) (m : Machine)
      → Step m (cancel_engine_work a (record m { engine_cancel_requested = true }))
  shutdown : (a : Answers) (m : Machine) → Step m (request_shutdown a m)
  deactivation : (a : Answers) (m : Machine) → Step m (deactivate_runtime a m)
  convergence :
      (a : Answers) (s : Start) (requeued : Bool) (user : Option Text) {m m' : Machine}
      → converge_engine a s requeued user m ≡ some m'
      → Step m m'
  -- The switch's file, and what queues a change.
  outside :
      (disabled changes reconfigure fetch : Bool) (m : Machine)
      → Step m (record m {
        disabled = disabled;
        changes_queued = changes;
        reconfigure_queued = reconfigure;
        fetch_queued = fetch;
      })

pub data Steps (m : Machine) : Machine → Type 0 where
  here : Steps m m
  next : {u v : Machine} → Steps m u → Step u v → Steps m v

pub Step-IsSupervised : {m m' : Machine} → Step m m' → IsSupervised m → IsSupervised m'
Step-IsSupervised (check_exit a m) h = handle_check_exit-IsSupervised a m h
Step-IsSupervised (timer a m) h = handle_engine_timer-IsSupervised a m h
Step-IsSupervised (probe a m) h = handle_sock_diag-IsSupervised a m h
Step-IsSupervised (verification a m) h = handle_tc_verify-IsSupervised a m h
Step-IsSupervised (transaction_exit a m e) h =
    handle_transaction_pidfd-IsSupervised a m (ground arith) h
Step-IsSupervised (engine_exit a freezes m e) h =
    handle_engine_exit-IsSupervised a freezes m (ground arith) h
Step-IsSupervised (cancellation a m) h =
    cancel_engine_work-IsSupervised a _ (carry-IsSupervised m _ refl refl refl refl refl refl h)
Step-IsSupervised (shutdown a m) h = request_shutdown-IsSupervised a m h
Step-IsSupervised (deactivation a m) h = deactivate_runtime-IsSupervised a m h
Step-IsSupervised (convergence a s requeued user {m} {m'} e) h =
    let ended = converge_engine-IsSupervised a s requeued user m h in rw e at ended
Step-IsSupervised (outside disabled changes reconfigure fetch m) h =
    carry-IsSupervised m _ refl refl refl refl refl refl h

-- The fields that a boot starts from.
abbrev pub fresh : Bool → Machine
fresh disabled = record {
  engine = none;
  transaction = none;
  activation_role = none;
  diag_probe = false;
  engine_cancel_requested = false;
  shutdown_requested = false;
  disabled = disabled;
  generations = new;
  current_engine_user = none;
  last_error = none;
  crash_count = 0;
  engine_timer = none;
  backoff = none;
  pending = none;
  reconfigure_queued = false;
  fetch_queued = false;
  changes_queued = false;
  convergence_due = false;
  active = false;
  processes = [];
  files = [];
}

reached : {disabled : Bool} {m : Machine} → Steps (fresh disabled) m → IsSupervised m
reached here = ground arith
reached (next steps step) = Step-IsSupervised step (reached steps)

processes-le : (m : Machine) → IsSupervised m → length m.processes ≤ 1
processes-le m h = ground arith

-- In every machine that the event loop reaches from a boot, the engine processes that run are the one
-- child that the engine or the transaction holds, so at most one; an activation has an engine and no
-- transaction; a transaction has its timer armed; and a probe stands only while a child is awaited.
pub Steps-IsSupervised :
    {disabled : Bool} {m : Machine}
    → Steps (fresh disabled) m
    → IsSupervised m × (length m.processes ≤ 1)
Steps-IsSupervised {disabled} {m} steps = let h = reached steps in (h, processes-le m h)
