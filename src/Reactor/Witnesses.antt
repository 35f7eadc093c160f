-- ===== src/Reactor/Witnesses.antt =====
-- Tests of the reactor, and its theorems at concrete inputs.
use flux_rs.Base.{◌≡◌, ◌↔◌, refl, true, false, none}
use flux_rs.Runtime.{Phase, Stimulus}
use flux_rs.Runtime.Table.{step}
use flux_rs.Runtime.View.{State}
use flux_rs.Reactor.{
  Reactor, committed_view, convergence_busy, overall_ok, status_error, apply_stimulus,
}
use flux_rs.Reactor.Freezing.{frozen_first, apply_stimulus-frozen_first, committed_view_iff}

apply_stimulus-frozen_first_example :
    frozen_first (apply_stimulus false Phase.active Stimulus.core_drift) ≡ true
apply_stimulus-frozen_first_example =
    apply_stimulus-frozen_first Phase.active Stimulus.core_drift (unfold step in refl)

abbrev running : Reactor
running = record {
  disabled = false;
  shutdown_requested = false;
  ssid_paused = false;
  engine_present = true;
  dataplane_active = true;
  engine_transaction = false;
  activation_role = false;
  policy_error = none;
  subscription_error = none;
  last_error = none;
}

committed_view_iff_example :
    (((committed_view running).state ≡ State.disabled) ↔ (
      (running.disabled ≡ true)
      × (running.engine_present ≡ false)
      × (convergence_busy running ≡ false)))
    × (((committed_view running).state ≡ State.active) ↔ (
        (running.disabled ≡ false)
        × (running.shutdown_requested ≡ false)
        × (running.ssid_paused ≡ false)
        × (running.dataplane_active ≡ true)
        × (running.engine_present ≡ true)
        × (running.activation_role ≡ false)))
    × ((overall_ok running ≡ true) ↔ (status_error running ≡ none))
committed_view_iff_example = committed_view_iff running
