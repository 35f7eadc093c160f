-- ===== src/Engine/Supervised/Handling.antt =====
-- crates/fluxd/src/reactor.rs: checks, timers, exits, cancellations and convergences keep the engine
-- supervised.
use flux_rs.Base.{ℕ, Bool, true, not, ◌||◌, leb, Option, none, some, ◌≡◌, refl, sym, arith}
use flux_rs.Engine.{
  EngineChild, EngineError, io, check_failed, SwitchPlan, CheckDisposition, StopNext,
  EngineTransaction, checking, waiting, stopping,
}
use flux_rs.Engine.Machine.{Machine, Answers, CheckAnswer, live, ended, unsupervised, remove_file}
use flux_rs.Engine.Handlers.{
  switch, by_disposition, complete_check, watch_failed, check_exited, handle_check_exit, timed,
  check_timer, stop_timer, on_timer, handle_engine_timer, on_pidfd, handle_transaction_pidfd,
}
use flux_rs.Engine.Supervised.{IsSupervised, IsIdle, Holds, choose-IsSupervised}
use flux_rs.Engine.Supervised.Ends.{
  begin_stop-IsSupervised, finish_cancelled-IsSupervised, finish_transaction_error-IsSupervised,
  start-IsSupervised, complete_stopped-IsSupervised, stop_confirmation_failed-IsSupervised,
}
use flux_rs.Engine.Supervised.Steps.{
  advance_waiting-IsSupervised, waiting-Holds, stopping-Holds, checking-IsIdle,
}

switch-IsSupervised :
    (a : Answers) (plan : SwitchPlan) (child : Option EngineChild) (m : Machine)
    → child ≡ m.engine
    → IsIdle m
    → IsSupervised (switch a plan child m)
switch-IsSupervised a plan none m same h = start-IsSupervised a plan m h (sym same)
switch-IsSupervised a plan (some child) m same h =
    choose-IsSupervised a.frozen _ _
      (λ f.
        begin_stop-IsSupervised a child
          (StopNext.start_candidate (record plan {
            old = some (record { params = child.params; effective = child.effective });
          }))
          _ (rw f (ground arith)))
      (λ _.
        finish_transaction_error-IsSupervised io none (remove_file plan.candidate m) (ground arith))

by_disposition-IsSupervised :
    (a : Answers) (plan : SwitchPlan) (disposition : CheckDisposition) (result : Option EngineError)
    (m : Machine)
    → IsIdle m
    → IsSupervised (by_disposition a plan disposition result m)
by_disposition-IsSupervised a plan CheckDisposition.cancelled result m h =
    finish_cancelled-IsSupervised a (remove_file plan.candidate m) (ground arith)
by_disposition-IsSupervised a plan CheckDisposition.timed_out result m h =
    finish_transaction_error-IsSupervised check_failed none (remove_file plan.candidate m)
      (ground arith)
by_disposition-IsSupervised a plan CheckDisposition.supervision_failed result m h =
    finish_transaction_error-IsSupervised io none (remove_file plan.candidate m) (ground arith)
by_disposition-IsSupervised a plan CheckDisposition.normal (some e) m h =
    finish_transaction_error-IsSupervised e none (remove_file plan.candidate m) (ground arith)
by_disposition-IsSupervised a plan CheckDisposition.normal none m h =
    choose-IsSupervised m.engine_cancel_requested _ _
      (λ _. finish_cancelled-IsSupervised a (remove_file plan.candidate m) (ground arith))
      (λ _. switch-IsSupervised a plan m.engine m refl h)

complete_check-IsSupervised :
    (a : Answers) (plan : SwitchPlan) (disposition : CheckDisposition) (result : Option EngineError)
    (m : Machine)
    → IsIdle m
    → IsSupervised (complete_check a plan disposition result m)
unfolding complete_check
complete_check-IsSupervised a plan disposition result m h =
    by_disposition-IsSupervised a plan disposition result (record m { engine_timer = none })
      (ground arith)

watch_failed-IsSupervised :
    (a : Answers) (plan : SwitchPlan) (e : EngineError) (m : Machine)
    → IsIdle m
    → IsSupervised (watch_failed a plan e m)
watch_failed-IsSupervised a plan e m h = ground arith

check_exited-IsSupervised :
    (a : Answers) (t : Option EngineTransaction) (answer : CheckAnswer) (m : Machine)
    → t ≡ m.transaction
    → IsSupervised m
    → IsSupervised (check_exited a t answer m)
check_exited-IsSupervised a (some (checking plan deadline disposition)) (ended result) m e h =
    complete_check-IsSupervised a plan disposition result (record m { transaction = none })
      (ground (arith, checking-IsIdle m h (sym e)))
check_exited-IsSupervised a (some (checking plan deadline disposition)) (unsupervised error) m e h =
    watch_failed-IsSupervised a plan error m (checking-IsIdle m h (sym e))
check_exited-IsSupervised a (some (checking plan deadline disposition)) live m e h = h
check_exited-IsSupervised a none answer m e h = h
check_exited-IsSupervised a (some (waiting child role deadline backoff)) answer m e h = h
check_exited-IsSupervised a (some (stopping child next deadline kill_sent)) answer m e h = h

pub handle_check_exit-IsSupervised :
    (a : Answers) (m : Machine) → IsSupervised m → IsSupervised (handle_check_exit a m)
unfolding handle_check_exit
handle_check_exit-IsSupervised a m h = check_exited-IsSupervised a m.transaction a.check m refl h

check_timer-IsSupervised :
    (a : Answers) (plan : SwitchPlan) (deadline : ℕ) (disposition : CheckDisposition)
    (answer : CheckAnswer) (m : Machine)
    → IsIdle m
    → IsSupervised (check_timer a plan deadline disposition answer m)
check_timer-IsSupervised a plan deadline disposition (ended result) m h =
    complete_check-IsSupervised a plan disposition result (record m { transaction = none })
      (ground arith)
check_timer-IsSupervised a plan deadline disposition (unsupervised error) m h =
    watch_failed-IsSupervised a plan error m h
check_timer-IsSupervised a plan deadline disposition live m h = ground arith

-- The machine from which a transaction was taken holds its child.
taken-Holds : (pid : ℕ) (m : Machine) → Holds pid m → Holds pid (record m { transaction = none })
taken-Holds pid m h = record { taken = h.taken; unassigned = h.unassigned; counted = h.counted }

stop_timer-IsSupervised :
    (a : Answers) (child : EngineChild) (next : StopNext) (deadline : ℕ) (kill_sent : Bool)
    (m : Machine)
    → m.transaction ≡ some (stopping child next deadline kill_sent)
    → IsSupervised m
    → IsSupervised (stop_timer a child next deadline kill_sent m)
stop_timer-IsSupervised a child next deadline kill_sent m t h =
    let (held, quiet) = stopping-Holds m h t in
    choose-IsSupervised a.exited _ _
      (λ e.
        complete_stopped-IsSupervised a child next (record m { transaction = none }) (ground arith)
          (taken-Holds child.pid m held) quiet)
      (λ _.
        choose-IsSupervised (not (leb deadline a.now)) _ _ (λ _. ground arith)
          (λ _.
            choose-IsSupervised (not kill_sent) _ _ (λ _. ground arith)
              (λ _.
                stop_confirmation_failed-IsSupervised child next (record m { transaction = none })
                  (taken-Holds child.pid m held) quiet)))

on_timer-IsSupervised :
    (a : Answers) (t : Option EngineTransaction) (m : Machine)
    → t ≡ m.transaction
    → IsSupervised m
    → IsSupervised (on_timer a t m)
on_timer-IsSupervised a none m e h = h
on_timer-IsSupervised a (some (checking plan deadline disposition)) m e h =
    check_timer-IsSupervised a plan deadline (timed a deadline disposition) a.check m
      (checking-IsIdle m h (sym e))
on_timer-IsSupervised a (some (waiting child role deadline backoff)) m e h =
    advance_waiting-IsSupervised a child role deadline backoff (record m { transaction = none })
      (taken-Holds child.pid m (waiting-Holds m h (sym e)))
on_timer-IsSupervised a (some (stopping child next deadline kill_sent)) m e h =
    stop_timer-IsSupervised a child next deadline kill_sent m (sym e) h

pub handle_engine_timer-IsSupervised :
    (a : Answers) (m : Machine) → IsSupervised m → IsSupervised (handle_engine_timer a m)
unfolding handle_engine_timer
handle_engine_timer-IsSupervised a m h = on_timer-IsSupervised a m.transaction m refl h

on_pidfd-IsSupervised :
    (a : Answers) (t : Option EngineTransaction) (m : Machine)
    → t ≡ m.transaction
    → (a.exited || a.dies) ≡ true
    → IsSupervised m
    → IsSupervised (on_pidfd a t m)
on_pidfd-IsSupervised a none m e d h = h
on_pidfd-IsSupervised a (some (checking plan deadline disposition)) m e d h = h
on_pidfd-IsSupervised a (some (waiting child role deadline backoff)) m e d h =
    advance_waiting-IsSupervised a child role deadline backoff (record m { transaction = none })
      (taken-Holds child.pid m (waiting-Holds m h (sym e)))
on_pidfd-IsSupervised a (some (stopping child next deadline kill_sent)) m e d h =
    let (held, quiet) = stopping-Holds m h (sym e) in
    complete_stopped-IsSupervised a child next (record m { transaction = none }) d
      (taken-Holds child.pid m held) quiet

pub handle_transaction_pidfd-IsSupervised :
    (a : Answers) (m : Machine)
    → (a.exited || a.dies) ≡ true
    → IsSupervised m
    → IsSupervised (handle_transaction_pidfd a m)
unfolding handle_transaction_pidfd
handle_transaction_pidfd-IsSupervised a m d h = on_pidfd-IsSupervised a m.transaction m refl d h
