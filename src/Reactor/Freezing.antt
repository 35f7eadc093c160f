-- ===== src/Reactor/Freezing.antt =====
-- crates/fluxd/src/reactor.rs: the capture is frozen before the engine is touched, and what is shown.
use flux_rs.Base.{
  ◌≡◌, ◌↔◌, refl, Bool, true, false, ◌&&◌, ◌||◌, if◌then◌else◌, none, List, [], ◌∷◌, ◌++◌, arith,
}
use flux_rs.Runtime.{Phase, Stimulus, CommandKind}
use flux_rs.Runtime.Table.{step}
use flux_rs.Runtime.Plan.{freezes_capture}
use flux_rs.Runtime.View.{observe, State, project}
use flux_rs.Reactor.{
  Reactor, convergence_busy, observation, reactor_phase, status_error, overall_ok, committed_view,
  Action, publish_inactive, cancel_attachment, converge_disabled, cancel_engine_work, converge,
  quick_check, request_shutdown, deactivate_runtime, any, is_ignore, is_exit, is_stop, is_restart,
  is_deactivation, when, converge_or_check, execute_commands, apply_stimulus,
}

-- The capture is frozen, and before the engine is cancelled or a convergence runs.
abbrev pub frozen_first : List Action → Bool
frozen_first [] = false
frozen_first (publish_inactive ∷ rest) = true
frozen_first (converge_disabled ∷ rest) = true
frozen_first (cancel_attachment ∷ rest) = frozen_first rest
frozen_first (quick_check ∷ rest) = frozen_first rest
frozen_first (cancel_engine_work ∷ rest) = false
frozen_first (converge ∷ rest) = false

execute_commands-frozen_first :
    (kinds : List CommandKind) (s : Stimulus)
    → freezes_capture kinds ≡ true
    → frozen_first (execute_commands false kinds s) ≡ true
unfolding execute_commands request_shutdown
execute_commands-frozen_first kinds s h =
    by_tests (any is_exit kinds) (is_deactivation s && any is_stop kinds) (freezes_capture kinds) h
      (when (any is_stop kinds || any is_restart kinds) cancel_engine_work
        ++ converge_or_check kinds)
  where
    by_tests :
        (exit deactivate frozen : Bool)
        → frozen ≡ true
        → (rest : List Action)
        → frozen_first (
            if exit
            then publish_inactive ∷ cancel_attachment ∷ cancel_engine_work ∷ []
            else if deactivate
            then deactivate_runtime
            else when frozen publish_inactive ++ rest)
          ≡ true
    by_tests true deactivate frozen h rest = refl
    by_tests false true frozen h rest = refl
    by_tests false false true h rest = refl
    by_tests false false false h rest = ground (arith, h)

-- No step that freezes the capture is one of those that the table does not expect.
expected :
    (p : Phase) (s : Stimulus)
    → freezes_capture (step p s).commands ≡ true
    → any is_ignore (step p s).commands ≡ false
unfolding step
expected p s h = ground arith

-- Whatever the phase and the stimulus, a step that the table marks as freezing the capture makes the
-- reactor, which has no shutdown under way, freeze it, and before it cancels the work of the engine
-- or converges.
pub apply_stimulus-frozen_first :
    (p : Phase) (s : Stimulus)
    → freezes_capture (step p s).commands ≡ true
    → frozen_first (apply_stimulus false p s) ≡ true
unfolding apply_stimulus
apply_stimulus-frozen_first p s h =
    rw (expected p s h) (execute_commands-frozen_first (step p s).commands s h)

-- What the reactor reports: `disabled` exactly where the switch is off and neither an engine nor a
-- transaction is left, `active` exactly where nothing forbids the capture, the data plane is active and
-- the engine is committed; and it is in order exactly where no error is shown.
pub committed_view_iff :
    (r : Reactor)
    → (((committed_view r).state ≡ State.disabled)
        ↔ ((r.disabled ≡ true) × (r.engine_present ≡ false) × (convergence_busy r ≡ false)))
      × (((committed_view r).state ≡ State.active) ↔ (
          (r.disabled ≡ false)
          × (r.shutdown_requested ≡ false)
          × (r.ssid_paused ≡ false)
          × (r.dataplane_active ≡ true)
          × (r.engine_present ≡ true)
          × (r.activation_role ≡ false)))
      × ((overall_ok r ≡ true) ↔ (status_error r ≡ none))
unfolding committed_view reactor_phase observation convergence_busy overall_ok status_error observe
    project
committed_view_iff r = (ground arith, ground arith, ground arith)
