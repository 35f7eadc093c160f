-- ===== src/Engine/Settling.antt =====
-- crates/fluxd/src/reactor.rs: what cancelled work of the engine comes to.
use flux_rs.Base.{
  ℕ, Bool, true, false, ◌&&◌, ◌||◌, Option, none, some, [], ◌≡◌, ◌⊎◌, inl, inr, refl, ◌∙◌, arith,
}
use flux_rs.Base.Text.{Text}
use flux_rs.Engine.{
  EngineChild, EngineError, OldGeneration, SwitchPlan, CheckDisposition, WaitRole, candidate,
  recovery, StopNext, start_candidate, recover, finish_recovery_failure, EngineTransaction,
  checking, waiting, stopping,
}
use flux_rs.Engine.Machine.{Machine, Answers, ended}
use flux_rs.Engine.Stopping.{
  begin_stop, remove_old, cleanup_cancelled_wait_role, cleanup_cancelled_stop_next, end_cancelled,
  cancel_role, cancel_engine, cancel_transaction, cancel_engine_work, finish_cancelled,
}
use flux_rs.Engine.Recovering.{complete_stopped}
use flux_rs.Engine.Converging.{converge_last}
use flux_rs.Engine.Handlers.{Start, handle_check_exit, handle_transaction_pidfd, complete_check}
use flux_rs.Engine.Supervised.{IsSupervised}
use flux_rs.Engine.Supervised.Steps.{stopping-Holds}
use flux_rs.Engine.Supervised.Handling.{
  handle_check_exit-IsSupervised, handle_transaction_pidfd-IsSupervised,
}
use flux_rs.Engine.Supervised.Cancelling.{
  cancel_engine_work-IsSupervised, cancel_role-untouched, cancel_role-engine,
}

-- The process of the transaction exits, and the handler of its descriptor runs.
abbrev pub exit_of : Answers → Option EngineTransaction → Machine → Machine
exit_of a none m = m
exit_of a (some (checking plan deadline disposition)) m = handle_check_exit a m
exit_of a (some t) m = handle_transaction_pidfd a m

abbrev pub settle : Answers → Machine → Machine
settle a m = exit_of a m.transaction m

-- The process has exited, a check's too.
pub record IsOver (a : Answers) : Type 0 where
  pub exited : a.exited ≡ true
  pub result : Option EngineError
  pub checked : a.check ≡ ended result

-- Only an enabled daemon that is not shutting down is to converge.
abbrev IsEnabledCall : Machine → Type 0
IsEnabledCall m = (m.convergence_due && (m.disabled || m.shutdown_requested)) ≡ false

-- No work is left, or the stop of a cancelled engine.
data IsEnding (m : Machine) : Type 0 where
  nothing : m.transaction ≡ none → m.engine ≡ none → IsEnabledCall m → IsEnding m
  stops :
      {child : EngineChild} {deadline : ℕ} {kill_sent : Bool}
      → m.transaction ≡ some (stopping child StopNext.cancelled deadline kill_sent)
      → m.convergence_due ≡ false
      → IsEnding m

data IsCancelled (m : Machine) : Type 0 where
  ending : IsEnding m → IsCancelled m
  checks :
      {plan : SwitchPlan} {deadline : ℕ}
      → m.transaction ≡ some (checking plan deadline CheckDisposition.cancelled)
      → m.convergence_due ≡ false
      → IsCancelled m

remove_old-due :
    (old : Option OldGeneration) (m : Machine)
    → (remove_old old m).convergence_due ≡ m.convergence_due
remove_old-due none m = refl
remove_old-due (some old) m = refl

wait_role-due :
    (role : WaitRole) (m : Machine)
    → (cleanup_cancelled_wait_role role m).convergence_due ≡ m.convergence_due
wait_role-due (candidate plan) m = remove_old-due plan.old m
wait_role-due (recovery e) m = refl

cancel_role-due :
    (role : Option WaitRole) (m : Machine)
    → (cancel_role role m).convergence_due ≡ m.convergence_due
cancel_role-due none m = refl
cancel_role-due (some role) m = wait_role-due role (record m { activation_role = none })

stop_next-due :
    (next : StopNext) (m : Machine)
    → (cleanup_cancelled_stop_next next m).convergence_due ≡ m.convergence_due
stop_next-due (start_candidate plan) m = refl
stop_next-due (recover plan e) m = remove_old-due plan.old m
stop_next-due (finish_recovery_failure e f) m = refl
stop_next-due StopNext.cancelled m = refl

cancel_engine-IsCancelled :
    (a : Answers) (child : Option EngineChild) (m : Machine)
    → m.engine ≡ child
    → m.transaction ≡ none
    → m.convergence_due ≡ false
    → IsCancelled (cancel_engine a child m)
unfolding begin_stop
cancel_engine-IsCancelled a none m e t d = ending (nothing t e (ground (arith, d)))
cancel_engine-IsCancelled a (some child) m e t d = ending (stops refl d)

cancel_transaction-IsCancelled :
    (a : Answers) (t : Option EngineTransaction) (m : Machine)
    → m.transaction ≡ t
    → m.convergence_due ≡ false
    → IsCancelled (cancel_transaction a t m)
unfolding begin_stop
cancel_transaction-IsCancelled a none m e d =
    cancel_engine-IsCancelled a m.engine (cancel_role m.activation_role m)
      (cancel_role-engine m.activation_role m) (cancel_role-untouched m.activation_role m ∙ e)
      (cancel_role-due m.activation_role m ∙ d)
cancel_transaction-IsCancelled a (some (checking plan deadline disposition)) m e d = checks refl d
cancel_transaction-IsCancelled a (some (waiting child role deadline backoff)) m e d =
    ending (stops refl (wait_role-due role m ∙ d))
cancel_transaction-IsCancelled a (some (stopping child next deadline kill_sent)) m e d =
    ending (stops refl (stop_next-due next m ∙ d))

-- A stop that was cancelled leaves nothing once its child has exited.
stop_settles :
    {child : EngineChild} {deadline : ℕ} {kill_sent : Bool} (a : Answers) (m : Machine)
    → IsOver a
    → m.engine ≡ none
    → m.transaction ≡ some (stopping child StopNext.cancelled deadline kill_sent)
    → m.convergence_due ≡ false
    → ((settle a m).transaction ≡ none) × ((settle a m).engine ≡ none) × IsEnabledCall (settle a m)
unfolding handle_transaction_pidfd complete_stopped finish_cancelled
stop_settles a m over n t d = rw t (ground arith)

end_cancelled-IsEnding :
    (a : Answers) (child : Option EngineChild) (m : Machine)
    → m.engine ≡ child
    → m.transaction ≡ none
    → m.convergence_due ≡ false
    → IsEnding (end_cancelled a child m)
unfolding begin_stop
end_cancelled-IsEnding a none m e t d = nothing (ground arith) (ground arith) (ground arith)
end_cancelled-IsEnding a (some child) m e t d = stops refl d

check_settles :
    {plan : SwitchPlan} {deadline : ℕ} (a : Answers) (m : Machine)
    → IsOver a
    → m.transaction ≡ some (checking plan deadline CheckDisposition.cancelled)
    → m.convergence_due ≡ false
    → IsEnding (settle a m)
unfolding handle_check_exit complete_check finish_cancelled
check_settles {plan} a m over t d =
    rw (t, over.checked)
      (end_cancelled-IsEnding (record a { check = ended over.result }) m.engine _ refl refl d)

settle-IsSupervised :
    (a : Answers) (t : Option EngineTransaction) (m : Machine)
    → IsOver a
    → IsSupervised m
    → IsSupervised (exit_of a t m)
settle-IsSupervised a none m over h = h
settle-IsSupervised a (some (checking plan deadline disposition)) m over h =
    handle_check_exit-IsSupervised a m h
settle-IsSupervised a (some (waiting child role deadline backoff)) m over h =
    handle_transaction_pidfd-IsSupervised a m (ground (arith, over.exited)) h
settle-IsSupervised a (some (stopping child next deadline kill_sent)) m over h =
    handle_transaction_pidfd-IsSupervised a m (ground (arith, over.exited)) h

-- What one exit makes of cancelled work.
cancelled_settles :
    (a : Answers) (m : Machine) → IsOver a → IsSupervised m → IsCancelled m → IsEnding (settle a m)
cancelled_settles a m over h (ending (nothing t e k)) = simp t (nothing t e k)
cancelled_settles a m over h (ending (stops t d)) =
    let (t', e', k') = stop_settles a m over (stopping-Holds m h t).0.taken t d in nothing t' e' k'
cancelled_settles a m over h (checks t d) = check_settles a m over t d

-- Nothing of the engine is left, and a convergence is called only where the daemon is enabled and not
-- shutting down.
pub record IsSettled (m : Machine) : Type 0 where
  pub untouched : m.transaction ≡ none
  pub stopped : m.engine ≡ none
  pub reaped : m.processes ≡ []
  pub called : (m.convergence_due && (m.disabled || m.shutdown_requested)) ≡ false

nothing-IsSettled :
    (m : Machine)
    → IsSupervised m
    → m.transaction ≡ none
    → m.engine ≡ none
    → IsEnabledCall m
    → IsSettled m
nothing-IsSettled m h t e k = record {
  untouched = t;
  stopped = e;
  reaped = ground arith;
  called = k;
}

converge_last-none :
    (a : Answers) (s : Start) (requeued : Bool) (user : Option Text) (m : Machine)
    → m.convergence_due ≡ false
    → converge_last a s requeued user m ≡ some m
converge_last-none a s requeued user m d = rw d refl

-- Whatever work of the engine stands in a supervised machine, a cancellation ends it: at the first exit,
-- or at the second with no convergence called by the handler of the first, no transaction, no engine and
-- no process is left. The convergence that this last handler may then call, if the daemon is enabled and
-- not shutting down, is a new start.
pub cancel_engine_work-settles :
    (a b c : Answers) (s : Start) (requeued : Bool) (user : Option Text) (m : Machine)
    → IsSupervised m
    → m.convergence_due ≡ false
    → IsOver b
    → IsOver c
    → IsSettled (settle b (cancel_engine_work a m))
      ⊎ ((converge_last b s requeued user (settle b (cancel_engine_work a m))
            ≡ some (settle b (cancel_engine_work a m)))
          × IsSettled (settle c (settle b (cancel_engine_work a m))))
unfolding cancel_engine_work
cancel_engine_work-settles a b c s requeued user m h due over_b over_c =
    let m' = cancel_engine_work a m in
    let h' = cancel_engine_work-IsSupervised a m h in
    second (settle-IsSupervised b m'.transaction m' over_b h') (
      cancelled_settles b m' over_b h'
        (cancel_transaction-IsCancelled a m.transaction (record m { diag_probe = false }) refl due))
  where
    second :
        IsSupervised (settle b (cancel_engine_work a m))
        → IsEnding (settle b (cancel_engine_work a m))
        → IsSettled (settle b (cancel_engine_work a m))
          ⊎ ((converge_last b s requeued user (settle b (cancel_engine_work a m))
                ≡ some (settle b (cancel_engine_work a m)))
              × IsSettled (settle c (settle b (cancel_engine_work a m))))
    second sup (nothing t e k) = inl (nothing-IsSettled _ sup t e k)
    second sup (stops t d) =
        let after = settle b (cancel_engine_work a m) in
        let (t', e', k') = stop_settles c after over_c (stopping-Holds after sup t).0.taken t d in
        inr (
          converge_last-none b s requeued user after d,
          nothing-IsSettled (settle c after)
              (settle-IsSupervised c after.transaction after over_c sup) t' e' k',
        )
