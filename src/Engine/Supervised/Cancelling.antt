-- ===== src/Engine/Supervised/Cancelling.antt =====
-- crates/fluxd/src/reactor.rs: what comes from outside of a transaction, an exit of the engine, a
-- cancellation or a convergence, keeps the engine supervised.
use flux_rs.Base.{
  Bool, true, false, not, ◌&&◌, ◌||◌, if◌then◌else◌, Option, none, some, [], ◌≡◌, refl, sym, ◌∙◌,
  arith,
}
use flux_rs.Engine.{
  EngineChild, exited, WaitRole, candidate, recovery, cancelled, OldGeneration, EngineTransaction,
  checking, waiting, stopping,
}
use flux_rs.Engine.Machine.{Machine, Answers, terminate, remove_file, is_some}
use flux_rs.Engine.Stopping.{
  remove_old, cleanup_cancelled_wait_role, cleanup_cancelled_stop_next, cancel_role, cancel_engine,
  cancel_transaction, cancel_engine_work,
}
use flux_rs.Engine.Activating.{freeze_capture}
use flux_rs.Engine.Handlers.{
  failed_role, after_crash, engine_gone, handle_engine_exit, request_shutdown, deactivate_runtime,
}
use flux_rs.Engine.Supervised.{
  IsSupervised, IsIdle, choose-IsSupervised, carry-IsSupervised, holds_child, is_waiting,
}
use flux_rs.Engine.Supervised.Ends.{
  begin_stop-IsSupervised, finish_transaction_error-IsSupervised, remove_old-IsIdle,
  begin_candidate_failure-IsSupervised, cleanup_cancelled_wait_role-Holds,
  cleanup_cancelled_stop_next-Holds,
}
use flux_rs.Engine.Supervised.Steps.{waiting-Holds, stopping-Holds}

cancel_role-IsIdle :
    (role : Option WaitRole) (m : Machine)
    → role ≡ m.activation_role
    → m.transaction ≡ none
    → m.diag_probe ≡ false
    → IsSupervised m
    → IsIdle (cancel_role role m) × ((cancel_role role m).engine ≡ m.engine)
cancel_role-IsIdle none m e t q h = (ground arith, refl)
cancel_role-IsIdle (some (candidate plan)) m e t q h =
    remove_old-IsIdle plan.old (record m { activation_role = none }) (ground arith)
cancel_role-IsIdle (some (recovery c)) m e t q h = (ground arith, refl)

pub cancel_role-untouched :
    (role : Option WaitRole) (m : Machine) → (cancel_role role m).transaction ≡ m.transaction
cancel_role-untouched none m = refl
cancel_role-untouched (some (recovery c)) m = refl
cancel_role-untouched (some (candidate plan)) m = kept plan.old
  where
    kept :
        (old : Option OldGeneration)
        → (remove_old old (record m { activation_role = none })).transaction ≡ m.transaction
    kept none = refl
    kept (some old) = refl

pub cancel_role-engine :
    (role : Option WaitRole) (m : Machine) → (cancel_role role m).engine ≡ m.engine
cancel_role-engine none m = refl
cancel_role-engine (some (recovery c)) m = refl
cancel_role-engine (some (candidate plan)) m = kept plan.old
  where
    kept :
        (old : Option OldGeneration)
        → (remove_old old (record m { activation_role = none })).engine ≡ m.engine
    kept none = refl
    kept (some old) = refl

cancel_engine-IsSupervised :
    (a : Answers) (child : Option EngineChild) (m : Machine)
    → child ≡ m.engine
    → m.transaction ≡ none
    → IsIdle m
    → IsSupervised (cancel_engine a child m)
cancel_engine-IsSupervised a none m e t h = ground arith
cancel_engine-IsSupervised a (some child) m e t h =
    begin_stop-IsSupervised a child cancelled (record m { engine = none }) (ground arith)

cancel_transaction-IsSupervised :
    (a : Answers) (t : Option EngineTransaction) (m : Machine)
    → t ≡ m.transaction
    → m.diag_probe ≡ false
    → IsSupervised m
    → IsSupervised (cancel_transaction a t m)
cancel_transaction-IsSupervised a none m e q h =
    let (idle, same) = cancel_role-IsIdle m.activation_role m refl (sym e) q h in
    cancel_engine-IsSupervised a m.engine (cancel_role m.activation_role m) (sym same)
      (cancel_role-untouched m.activation_role m ∙ sym e) idle
cancel_transaction-IsSupervised a (some (checking plan deadline disposition)) m e q h = ground arith
cancel_transaction-IsSupervised a (some (waiting child role deadline backoff)) m e q h =
    begin_stop-IsSupervised a child cancelled (cleanup_cancelled_wait_role role m)
      (cleanup_cancelled_wait_role-Holds child.pid role m (waiting-Holds m h (sym e)))
cancel_transaction-IsSupervised a (some (stopping child next deadline kill_sent)) m e q h =
    begin_stop-IsSupervised a child cancelled (cleanup_cancelled_stop_next next m)
      (cleanup_cancelled_stop_next-Holds child.pid next m (stopping-Holds m h (sym e)).0)

-- Where no probe is needed any more.
quiet-IsSupervised : (m : Machine) → IsSupervised m → IsSupervised (record m { diag_probe = false })
quiet-IsSupervised m h = record {
  counted = h.counted;
  alone = h.alone;
  assigned = h.assigned;
  owned = h.owned;
  armed = h.armed;
  probing = refl;
}

pub cancel_engine_work-IsSupervised :
    (a : Answers) (m : Machine) → IsSupervised m → IsSupervised (cancel_engine_work a m)
unfolding cancel_engine_work
cancel_engine_work-IsSupervised a m h =
    cancel_transaction-IsSupervised a m.transaction (record m { diag_probe = false }) refl refl
      (quiet-IsSupervised m h)

freeze_capture-IsSupervised :
    (a : Answers) (m : Machine) → IsSupervised m → IsSupervised (freeze_capture a m)
freeze_capture-IsSupervised a m h =
    choose-IsSupervised a.frozen _ _ (λ _. carry-IsSupervised m _ refl refl refl refl refl refl h)
      (λ _. h)

pub request_shutdown-IsSupervised :
    (a : Answers) (m : Machine) → IsSupervised m → IsSupervised (request_shutdown a m)
unfolding request_shutdown
request_shutdown-IsSupervised a m h =
    choose-IsSupervised m.shutdown_requested _ _ (λ _. h)
      (λ _.
        cancel_engine_work-IsSupervised a _ (
          freeze_capture-IsSupervised a _ (carry-IsSupervised m _ refl refl refl refl refl refl h)))

pub deactivate_runtime-IsSupervised :
    (a : Answers) (m : Machine) → IsSupervised m → IsSupervised (deactivate_runtime a m)
unfolding deactivate_runtime
deactivate_runtime-IsSupervised a m h =
    let m' = record m { active = m.active && not a.inactive; engine_cancel_requested = true } in
    carry-IsSupervised (cancel_engine_work a m') _ refl refl refl refl refl refl (
      cancel_engine_work-IsSupervised a m'
        (carry-IsSupervised m m' refl refl refl refl refl refl h))

failed_role-IsSupervised :
    (a : Answers) (role : Option WaitRole) (m otherwise : Machine)
    → (is_some role ≡ true → IsIdle m × (m.engine ≡ none))
    → (role ≡ none → IsSupervised otherwise)
    → IsSupervised (failed_role a role m otherwise)
failed_role-IsSupervised a none m otherwise idle h = h refl
failed_role-IsSupervised a (some (candidate plan)) m otherwise idle h =
    begin_candidate_failure-IsSupervised a plan exited m (idle refl).0 (idle refl).1
failed_role-IsSupervised a (some (recovery c)) m otherwise idle h =
    finish_transaction_error-IsSupervised c (some exited) m (idle refl).0

after_crash-IsSupervised :
    (a : Answers) (child : EngineChild) (m : Machine)
    → IsSupervised m
    → IsSupervised (after_crash a child m)
after_crash-IsSupervised a child m h =
    choose-IsSupervised (is_some m.transaction) _ _ (λ _. ground arith) (λ _. ground arith)

-- A machine whose engine was reaped: a check may still run.
record IsLeft (m : Machine) : Type 0 where
  empty : m.processes ≡ []
  gone : m.engine ≡ none
  childless : holds_child m.transaction ≡ false
  assigned : (is_some m.activation_role && is_some m.transaction) ≡ false
  armed : (is_some m.transaction && not (is_some m.engine_timer)) ≡ false
  probing : (m.diag_probe && not (is_waiting m.transaction)) ≡ false

left-IsIdle :
    (m : Machine)
    → IsLeft m
    → is_some m.activation_role ≡ true
    → IsIdle (record m { activation_role = none })
left-IsIdle m h s = ground arith

left-IsSupervised : (m : Machine) → IsLeft m → m.activation_role ≡ none → IsSupervised m
left-IsSupervised m h s = ground arith

after_reaping :
    (a : Answers) (child : EngineChild) (m : Machine)
    → IsLeft m
    → IsSupervised (
        failed_role a m.activation_role
          (record m { activation_role = none })
          (after_crash a child m))
after_reaping a child m h =
    failed_role-IsSupervised a m.activation_role (record m { activation_role = none }) _
      (λ s. (left-IsIdle m h s, h.gone))
      (λ s. after_crash-IsSupervised a child m (left-IsSupervised m h s))

terminate-IsLeft :
    (a : Answers) (child : EngineChild) (m : Machine)
    → m.engine ≡ some child
    → (a.exited || a.dies) ≡ true
    → IsSupervised m
    → IsLeft (remove_file child.effective (terminate a child (record m { engine = none })))
terminate-IsLeft a child m e d h = ground arith

engine_gone-IsSupervised :
    (a : Answers) (child : Option EngineChild) (m : Machine)
    → m.engine ≡ child
    → (a.exited || a.dies) ≡ true
    → IsSupervised m
    → IsSupervised (engine_gone a child m)
engine_gone-IsSupervised a none m e d h = h
engine_gone-IsSupervised a (some child) m e d h =
    after_reaping a child
      (remove_file child.effective (terminate a child (record m { engine = none })))
      (terminate-IsLeft a child m e d h)

pub handle_engine_exit-IsSupervised :
    (a : Answers) (freezes : Bool) (m : Machine)
    → (a.exited || a.dies) ≡ true
    → IsSupervised m
    → IsSupervised (handle_engine_exit a freezes m)
unfolding handle_engine_exit
handle_engine_exit-IsSupervised a freezes m d h =
    let m' = if freezes then freeze_capture a m else m in
    engine_gone-IsSupervised a m'.engine m' refl d
      (choose-IsSupervised freezes _ _ (λ _. freeze_capture-IsSupervised a m h) (λ _. h))
