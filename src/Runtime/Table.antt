-- ===== src/Runtime/Table.antt =====
-- crates/flux-core/src/runtime.rs: the event table `step`, one function for each group of stimuli.
use flux_rs.Base.{Bool, true, false, List, [], ◌∷◌}
use flux_rs.Runtime.{Phase, Stimulus, CommandKind}
use flux_rs.Runtime.Phase.{disabled, stopping, paused, inactive, activating, active}
use flux_rs.Runtime.Stimulus.{
  bootstrap, enable, disable, reload, stop, status, check, new_interface, interface_gone,
  address_change, capture_side_drift, core_drift, netlink_overrun, flux_toml_changed,
  template_or_list_changed, packages_changed, ssid_pause, ssid_resume, engine_exited,
  current_generation_fault, stale_or_duplicate_fault, debounce_expired, backoff_expired,
  readiness_backoff, sighup, sigterm, activation_committed, activation_failed, engine_stopped,
}
use flux_rs.Runtime.CommandKind.{
  ignore_unexpected, attempt_activation, stop_engine, publish_inactive, exit_process,
  revalidate_only, policy_transaction, engine_candidate_switch, reevaluate_admission,
  admit_and_attach, exclude_interface, update_self_addresses, reattach_capture_locally, full_redump,
  regenerate_then_switch, reparse_then_policy, restart_with_backoff, clear_latch_only,
  run_pending_convergence, retry_activation, recheck_sock_diag,
}

pub record Step : Type 0 where
  pub phase : Phase
  pub commands : List CommandKind

-- The source's `with`.
abbrev pub go : Phase → List CommandKind → Step
go p cs = record { phase = p; commands = cs }

abbrev pub stay : Phase → Step
stay p = go p []

abbrev pub unexpected : Phase → Step
unexpected p = go p (ignore_unexpected ∷ [])

on_bootstrap : Phase → Step
on_bootstrap disabled = stay disabled
on_bootstrap stopping = stay stopping
on_bootstrap inactive = go inactive (attempt_activation ∷ [])
on_bootstrap paused = go paused (attempt_activation ∷ [])
on_bootstrap p = unexpected p

on_enable : Phase → Step
on_enable disabled = go inactive (attempt_activation ∷ [])
on_enable p = stay p

on_disable : Phase → Step
on_disable disabled = stay disabled
on_disable stopping = stay stopping
on_disable active = go stopping (publish_inactive ∷ stop_engine ∷ [])
on_disable p = go stopping (stop_engine ∷ [])

on_reload : Phase → Step
on_reload disabled = go disabled (revalidate_only ∷ [])
on_reload stopping = go stopping (revalidate_only ∷ [])
on_reload inactive = go inactive (attempt_activation ∷ [])
on_reload paused = go paused (attempt_activation ∷ [])
on_reload activating = stay activating
on_reload active = go active (policy_transaction ∷ engine_candidate_switch ∷ [])

on_stop : Phase → Step
on_stop disabled = go disabled (exit_process ∷ [])
on_stop stopping = go stopping (exit_process ∷ [])
on_stop p = go stopping (publish_inactive ∷ stop_engine ∷ exit_process ∷ [])

on_new_interface : Phase → Step
on_new_interface inactive = go inactive (reevaluate_admission ∷ [])
on_new_interface paused = go paused (reevaluate_admission ∷ [])
on_new_interface active = go active (admit_and_attach ∷ [])
on_new_interface p = stay p

on_interface_gone : Bool → Phase → Step
on_interface_gone last_active_iface inactive = go inactive (reevaluate_admission ∷ [])
on_interface_gone last_active_iface paused = go paused (reevaluate_admission ∷ [])
on_interface_gone true active = go inactive (publish_inactive ∷ exclude_interface ∷ [])
on_interface_gone false active = go active (exclude_interface ∷ [])
on_interface_gone last_active_iface p = stay p

on_address_change : Phase → Step
on_address_change disabled = stay disabled
on_address_change stopping = stay stopping
on_address_change p = go p (update_self_addresses ∷ [])

on_capture_side_drift : Phase → Step
on_capture_side_drift disabled = stay disabled
on_capture_side_drift stopping = stay stopping
on_capture_side_drift active = go active (reattach_capture_locally ∷ [])
on_capture_side_drift p = go p (run_pending_convergence ∷ [])

on_core_drift : Phase → Step
on_core_drift disabled = stay disabled
on_core_drift stopping = stay stopping
on_core_drift active = go activating (publish_inactive ∷ run_pending_convergence ∷ [])
on_core_drift p = go p (run_pending_convergence ∷ [])

on_netlink_overrun : Phase → Step
on_netlink_overrun disabled = stay disabled
on_netlink_overrun stopping = stay stopping
on_netlink_overrun p = go p (full_redump ∷ [])

-- `flux.toml` and the template and lists: the same table but for the command in `active`.
on_config_changed : CommandKind → Phase → Step
on_config_changed k disabled = go disabled (revalidate_only ∷ [])
on_config_changed k stopping = go stopping (revalidate_only ∷ [])
on_config_changed k inactive = go inactive (attempt_activation ∷ [])
on_config_changed k paused = go paused (attempt_activation ∷ [])
on_config_changed k activating = stay activating
on_config_changed k active = go active (k ∷ [])

on_packages_changed : Phase → Step
on_packages_changed disabled = stay disabled
on_packages_changed stopping = stay stopping
on_packages_changed activating = stay activating
on_packages_changed p = go p (reparse_then_policy ∷ [])

on_ssid_pause : Phase → Step
on_ssid_pause disabled = stay disabled
on_ssid_pause stopping = stay stopping
on_ssid_pause inactive = stay paused
on_ssid_pause paused = stay paused
on_ssid_pause p = go paused (publish_inactive ∷ stop_engine ∷ [])

on_ssid_resume : Phase → Step
on_ssid_resume paused = go inactive (attempt_activation ∷ [])
on_ssid_resume p = stay p

on_engine_exited : Phase → Step
on_engine_exited disabled = unexpected disabled
on_engine_exited stopping = stay disabled
on_engine_exited inactive = go inactive (restart_with_backoff ∷ [])
on_engine_exited paused = go paused (restart_with_backoff ∷ [])
on_engine_exited p = go inactive (publish_inactive ∷ restart_with_backoff ∷ [])

on_current_generation_fault : Phase → Step
on_current_generation_fault disabled = unexpected disabled
on_current_generation_fault activating = go inactive (publish_inactive ∷ restart_with_backoff ∷ [])
on_current_generation_fault active = go inactive (publish_inactive ∷ restart_with_backoff ∷ [])
on_current_generation_fault p = go p (clear_latch_only ∷ [])

-- The debounce, backoff and readiness timers: quiet while halted, else one command.
on_timer : CommandKind → Phase → Step
on_timer k disabled = stay disabled
on_timer k stopping = stay stopping
on_timer k p = go p (k ∷ [])

on_activation_committed : Phase → Step
on_activation_committed activating = stay active
on_activation_committed p = unexpected p

on_activation_failed : Phase → Step
on_activation_failed activating = go inactive (publish_inactive ∷ [])
on_activation_failed p = unexpected p

on_engine_stopped : Phase → Step
on_engine_stopped stopping = stay disabled
on_engine_stopped p = unexpected p

unfoldable pub step : Phase → Stimulus → Step
unfolding on_bootstrap on_enable on_disable on_reload on_stop on_new_interface on_interface_gone
    on_address_change on_capture_side_drift on_core_drift on_netlink_overrun on_config_changed
    on_packages_changed on_ssid_pause on_ssid_resume on_engine_exited on_current_generation_fault
    on_timer on_activation_committed on_activation_failed on_engine_stopped
step p status = stay p
step p check = stay p
step p bootstrap = on_bootstrap p
step p enable = on_enable p
step p disable = on_disable p
step p reload = on_reload p
step p sighup = on_reload p
step p stop = on_stop p
step p sigterm = on_stop p
step p new_interface = on_new_interface p
step p (interface_gone last) = on_interface_gone last p
step p address_change = on_address_change p
step p capture_side_drift = on_capture_side_drift p
step p core_drift = on_core_drift p
step p netlink_overrun = on_netlink_overrun p
step p flux_toml_changed = on_config_changed policy_transaction p
step p template_or_list_changed = on_config_changed regenerate_then_switch p
step p packages_changed = on_packages_changed p
step p ssid_pause = on_ssid_pause p
step p ssid_resume = on_ssid_resume p
step p engine_exited = on_engine_exited p
step p current_generation_fault = on_current_generation_fault p
step p stale_or_duplicate_fault = go p (clear_latch_only ∷ [])
step p debounce_expired = on_timer run_pending_convergence p
step p backoff_expired = on_timer retry_activation p
step p readiness_backoff = on_timer recheck_sock_diag p
step p activation_committed = on_activation_committed p
step p activation_failed = on_activation_failed p
step p engine_stopped = on_engine_stopped p
