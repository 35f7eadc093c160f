-- ===== src/Runtime/View.antt =====
-- crates/flux-core/src/runtime.rs: `Phase::observe` and `project`.
use flux_rs.Base.{Bool, true, false, not, ◌&&◌, ◌||◌, Option, none, some, if◌then◌else◌}
use flux_rs.Base.{◌≡◌, ◌↔◌, arith}
use flux_rs.Runtime.{Phase}

pub record Observation : Type 0 where
  pub disable_present : Bool
  pub shutdown : Bool
  pub ssid_paused : Bool
  pub engine_present : Bool
  pub dataplane_active : Bool
  pub awaiting_commit : Bool
  pub convergence_busy : Bool

unfoldable pub observe : Observation → Phase
observe o =
    if o.disable_present || o.shutdown
    then (if o.engine_present || o.convergence_busy then Phase.stopping else Phase.disabled)
    else if o.ssid_paused
    then Phase.paused
    else if o.dataplane_active && o.engine_present && not o.awaiting_commit
    then Phase.active
    else if o.engine_present || o.awaiting_commit || o.convergence_busy
    then Phase.activating
    else Phase.inactive

-- crates/flux-core/src/control_wire.rs: the wire state.
pub data State : Type 0 where
  disabled inactive active : State

pub data DisplayKind : Type 0 where
  running failed starting paused stopped stopping : DisplayKind

pub record CommittedView : Type 0 where
  pub state : State
  pub display : DisplayKind
  pub engine_running : Bool

-- The display of `Activating` and `Inactive` turns on `error.is_some()`.
abbrev pub error_display {ℓ} : {A : Type ℓ} → Option A → DisplayKind
error_display none = DisplayKind.starting
error_display (some e) = DisplayKind.failed

unfoldable pub project {ℓ} : {A : Type ℓ} → Phase → Option A → CommittedView
project Phase.active error = record {
  state = State.active;
  display = DisplayKind.running;
  engine_running = true;
}
project Phase.disabled error = record {
  state = State.disabled;
  display = DisplayKind.stopped;
  engine_running = false;
}
project Phase.stopping error = record {
  state = State.inactive;
  display = DisplayKind.stopping;
  engine_running = false;
}
project Phase.paused error = record {
  state = State.inactive;
  display = DisplayKind.paused;
  engine_running = false;
}
project Phase.activating error = record {
  state = State.inactive;
  display = error_display error;
  engine_running = false;
}
project Phase.inactive error = record {
  state = State.inactive;
  display = error_display error;
  engine_running = false;
}

-- What an observer of the daemon may conclude from the reported view. `active`, and a running
-- engine, are reported exactly when the switch and `[ssid]` permit capture, no shutdown is pending,
-- the control leaf is active and a committed engine child exists. `disabled` is reported exactly
-- when the switch is off or a shutdown is pending, and no engine or transaction is left.
pub project-observe :
    {A : Type 0} (o : Observation) (error : Option A)
    → (((project (observe o) error).state ≡ State.active) ↔ (
        (o.disable_present ≡ false)
        × (o.shutdown ≡ false)
        × (o.ssid_paused ≡ false)
        × (o.dataplane_active ≡ true)
        × (o.engine_present ≡ true)
        × (o.awaiting_commit ≡ false)))
      × (((project (observe o) error).engine_running ≡ true)
          ↔ ((project (observe o) error).state ≡ State.active))
      × (((project (observe o) error).state ≡ State.disabled) ↔ (
          (o.disable_present || o.shutdown ≡ true)
          × (o.engine_present ≡ false)
          × (o.convergence_busy ≡ false)))
unfolding observe project
project-observe o error = ground arith
