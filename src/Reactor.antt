-- ===== src/Reactor.antt =====
-- crates/fluxd/src/reactor.rs: what the reactor observes of itself and reports, and the order in which
-- it runs the commands of a step. The calls themselves are named, not modelled.
pub mod Freezing
mod Witnesses
use flux_rs.Base.{
  ℕ, Bool, true, false, not, ◌&&◌, ◌||◌, if◌then◌else◌, Option, none, some, List, [], ◌∷◌, ◌++◌,
}
use flux_rs.Base.Text.{Text, text_eq}
use flux_rs.Runtime.{Phase, Stimulus, CommandKind}
use flux_rs.Runtime.CommandKind.{
  ignore_unexpected, exit_process, stop_engine, restart_with_backoff, revalidate_only,
}
use flux_rs.Runtime.Table.{step}
use flux_rs.Runtime.Plan.{freezes_capture, needs_converge}
use flux_rs.Runtime.View.{Observation, observe, State, CommittedView, project}

-- The fields of `Reactor` that its observation and its report read; an error is its token.
pub record Reactor : Type 0 where
  pub disabled : Bool
  pub shutdown_requested : Bool
  pub ssid_paused : Bool
  pub engine_present : Bool
  pub dataplane_active : Bool
  pub engine_transaction : Bool
  pub activation_role : Bool
  pub policy_error : Option Text
  pub subscription_error : Option Text
  pub last_error : Option Text

unfoldable pub convergence_busy : Reactor → Bool
convergence_busy r = r.engine_transaction || r.activation_role

unfoldable pub observation : Reactor → Observation
unfolding convergence_busy
observation r = record {
  disable_present = r.disabled;
  shutdown = r.shutdown_requested;
  ssid_paused = r.ssid_paused;
  engine_present = r.engine_present;
  dataplane_active = r.dataplane_active;
  awaiting_commit = r.activation_role;
  convergence_busy = convergence_busy r;
}

abbrev pub with_shutdown : Observation → Observation
with_shutdown o = if o.shutdown then record o { disable_present = true } else o

unfoldable pub reactor_phase : Reactor → Phase
unfolding observation observe
reactor_phase r = observe (with_shutdown (observation r))

abbrev pub or : Option Text → Option Text → Option Text
or none b = b
or (some a) b = some a

unfoldable pub status_error : Reactor → Option Text
status_error r = or (or r.policy_error r.subscription_error) r.last_error

abbrev pub is_none : Option Text → Bool
is_none none = true
is_none (some a) = false

unfoldable pub overall_ok : Reactor → Bool
overall_ok r = is_none r.last_error && is_none r.policy_error && is_none r.subscription_error

abbrev pub without_file : Bool → State → State
without_file disabled State.disabled = if disabled then State.disabled else State.inactive
without_file disabled s = s

unfoldable pub committed_view : Reactor → CommittedView
unfolding reactor_phase status_error project
committed_view r =
    let view = project (reactor_phase r) (status_error r) in
    record view { state = without_file r.disabled view.state }

-- `last_error` is cleared with the error that set it.
abbrev pub cleared : Option Text → Text → Option Text
cleared none token = none
cleared (some last) token = if text_eq last token then none else some last

unfoldable pub set_policy_error : Text → Reactor → Reactor
set_policy_error token r = record r { policy_error = some token; last_error = some token }

abbrev pub clear_policy : Option Text → Reactor → Reactor
clear_policy none r = r
clear_policy (some token) r = record r {
  policy_error = none;
  last_error = cleared r.last_error token;
}

unfoldable pub clear_policy_error : Reactor → Reactor
clear_policy_error r = clear_policy r.policy_error r

unfoldable pub set_subscription_error : Text → Reactor → Reactor
set_subscription_error token r = record r {
  subscription_error = some token;
  last_error = some token;
}

abbrev pub clear_subscription : Option Text → Reactor → Reactor
clear_subscription none r = r
clear_subscription (some token) r = record r {
  subscription_error = none;
  last_error = cleared r.last_error token;
}

unfoldable pub clear_subscription_error : Reactor → Reactor
clear_subscription_error r = clear_subscription r.subscription_error r

-- The calls that running a step makes, in their order; timers and marks of pending work are left out.
pub data Action : Type 0 where
  publish_inactive cancel_attachment converge_disabled : Action
  cancel_engine_work converge quick_check : Action

unfoldable pub request_shutdown : Bool → List Action
request_shutdown true = []
request_shutdown false = publish_inactive ∷ cancel_attachment ∷ cancel_engine_work ∷ []

abbrev pub deactivate_runtime : List Action
deactivate_runtime = cancel_attachment ∷ converge_disabled ∷ cancel_engine_work ∷ []

abbrev pub any : (CommandKind → Bool) → List CommandKind → Bool
any p [] = false
any p (k ∷ ks) = p k || any p ks

abbrev pub is_ignore : CommandKind → Bool
is_ignore ignore_unexpected = true
is_ignore k = false

abbrev pub is_exit : CommandKind → Bool
is_exit exit_process = true
is_exit k = false

abbrev pub is_stop : CommandKind → Bool
is_stop stop_engine = true
is_stop k = false

abbrev pub is_restart : CommandKind → Bool
is_restart restart_with_backoff = true
is_restart k = false

abbrev pub is_revalidate : CommandKind → Bool
is_revalidate revalidate_only = true
is_revalidate k = false

abbrev pub is_deactivation : Stimulus → Bool
is_deactivation Stimulus.disable = true
is_deactivation Stimulus.ssid_pause = true
is_deactivation s = false

abbrev pub when : Bool → Action → List Action
when b a = if b then a ∷ [] else []

abbrev pub converge_or_check : List CommandKind → List Action
converge_or_check kinds =
    if any needs_converge kinds then converge ∷ [] else when (any is_revalidate kinds) quick_check

unfoldable pub execute_commands : Bool → List CommandKind → Stimulus → List Action
unfolding request_shutdown needs_converge
execute_commands shutdown_requested kinds s =
    if any is_exit kinds
    then request_shutdown shutdown_requested
    else if is_deactivation s && any is_stop kinds
    then deactivate_runtime
    else when (freezes_capture kinds) publish_inactive
      ++ (when (any is_stop kinds || any is_restart kinds) cancel_engine_work
          ++ converge_or_check kinds)

-- `apply_stimulus`, from the phase that the planner keeps.
unfoldable pub apply_stimulus : Bool → Phase → Stimulus → List Action
unfolding step execute_commands
apply_stimulus shutdown_requested p s =
    let kinds = (step p s).commands in
    if any is_ignore kinds then [] else execute_commands shutdown_requested kinds s
