-- ===== src/Runtime.antt =====
-- crates/flux-core/src/runtime.rs: phases, stimuli and commands of the daemon's lifecycle.
pub mod Table
pub mod Plan
pub mod View
pub mod Generations
pub mod Freeze
pub mod Halted
pub mod Ids
pub mod Commit
mod Witnesses
use flux_rs.Base.{Bool}

pub data Phase : Type 0 where
  disabled stopping paused inactive activating active : Phase

-- `interface_gone` carries `last_active_iface`.
pub data Stimulus : Type 0 where
  bootstrap enable disable reload stop status check new_interface : Stimulus
  interface_gone : Bool → Stimulus
  address_change capture_side_drift core_drift netlink_overrun : Stimulus
  flux_toml_changed template_or_list_changed packages_changed : Stimulus
  ssid_pause ssid_resume : Stimulus
  engine_exited current_generation_fault stale_or_duplicate_fault : Stimulus
  debounce_expired backoff_expired readiness_backoff : Stimulus
  sighup sigterm : Stimulus
  activation_committed activation_failed engine_stopped : Stimulus

pub data CommandKind : Type 0 where
  ignore_unexpected attempt_activation stop_engine publish_inactive exit_process : CommandKind
  revalidate_only policy_transaction engine_candidate_switch reevaluate_admission : CommandKind
  admit_and_attach exclude_interface update_self_addresses reattach_capture_locally : CommandKind
  full_redump regenerate_then_switch reparse_then_policy restart_with_backoff : CommandKind
  clear_latch_only run_pending_convergence retry_activation recheck_sock_diag : CommandKind
