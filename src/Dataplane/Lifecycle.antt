-- ===== src/Dataplane/Lifecycle.antt =====
-- crates/fluxd/src/dataplane/platform.rs: convergence of the module, and the publication of the
-- control.
pub mod Activation
pub mod Convergence
pub mod Reachable
pub mod Starting
pub mod Stopping
mod Witnesses
use flux_rs.Base.{
  ℕ, ◌+◌, ◌%◌, Bool, true, false, not, ◌||◌, ◌&&◌, ltb, ◌==◌, if◌then◌else◌, Option, none, some,
  List, [], ◌∷◌,
}
use flux_rs.Ssid.{ListMode}
use flux_rs.Dataplane.{
  Outcome, Error, Result, ok, err, lkm_not_loaded, lkm_load, lkm_status, uname, lkm_tproxy_symbol,
  dataplane_not_ready, control_missing, cleanup, LoadedModule, clear_uids, set_listeners, Control,
  Warning, steal_idle, no_bpf_object, test_bypassed, DataplaneStatus, DesiredPolicy, Manager, to_be,
}
use flux_rs.Dataplane.Epochs.{cidr_mode_value}
use flux_rs.Dataplane.Counting.{policy_counts, with_counts}

abbrev pub at_least_one : ℕ → ℕ
at_least_one n = if n == 0 then 1 else n

unfoldable pub inactive_control : ℕ → ℕ → ℕ → ℕ → ℕ → Control
inactive_control host_ifindex peer_ifindex generation port_v4 port_v6 = record {
  active = 0;
  generation = at_least_one generation;
  flxrs0_ifindex = host_ifindex;
  flxrs1_ifindex = peer_ifindex;
  listen_port_v4 = to_be port_v4;
  listen_port_v6 = to_be port_v6;
  cidr_mode = 0;
  selected_count = 0;
  draining_count = 0;
  bypass_v4_count = 0;
  bypass_v6_count = 0;
  policy_bank = 0;
}

abbrev pub stage_interface_policy : DesiredPolicy → Manager → Manager
stage_interface_policy desired m = record m {
  interfaces_mode = desired.interfaces_mode;
  interfaces = desired.interfaces;
  status = record m.status {
    policy = record m.status.policy { interfaces_mode = desired.interfaces_mode };
  };
}

unfoldable pub drop_kmod : Manager → Manager
drop_kmod m = record m {
  kmod = none;
  status = record m.status { attachment_ready = false; bpf_ready = false; topology_ready = false };
}

-- What `ensure_kmod` finds: the release, the load where there is no module, and its status.
pub record Probes : Type 0 where
  pub release : Outcome
  pub load : Outcome
  pub status : Outcome
  pub steal_ready : ℕ

abbrev pub empty_module : LoadedModule
empty_module = record { listeners = none; uids = []; bypass = none }

abbrev pub loaded_by : Probes → Result LoadedModule
loaded_by p = read p.release p.load
  where
    read : Outcome → Outcome → Result LoadedModule
    read (Outcome.errno e) load = err (uname e)
    read Outcome.done (Outcome.errno e) = err (lkm_load e)
    read Outcome.done Outcome.done = ok empty_module

abbrev pub first_control : Option Control → Option Control
first_control none = some (inactive_control 0 0 1 0 0)
first_control (some c) = some c

abbrev pub check_status : Probes → Outcome → Manager → Result (Unit {0}) × Manager
check_status p (Outcome.errno e) m = (err (lkm_status e), m)
check_status p Outcome.done m =
    if p.steal_ready == 0
    then (err lkm_tproxy_symbol, drop_kmod m)
    else (ok tt, record m { last_control = first_control m.last_control })

abbrev pub with_module : Probes → Manager → Result LoadedModule → Result (Unit {0}) × Manager
with_module p m (err e) = (err e, m)
with_module p m (ok k) = check_status p p.status (record m { kmod = some k })

abbrev pub module_of : Probes → Option LoadedModule → Result LoadedModule
module_of p none = loaded_by p
module_of p (some k) = ok k

unfoldable pub ensure_kmod : Probes → Manager → Result (Unit {0}) × Manager
unfolding drop_kmod inactive_control
ensure_kmod p m = with_module p m (module_of p m.kmod)

abbrev pub set_active : Bool → Manager → Manager
set_active b m = record m { status = record m.status { active = b } }

abbrev pub with_cleared : Manager → Result LoadedModule → Result (Unit {0}) × Manager
with_cleared m (err e) = (err e, m)
with_cleared m (ok k) = (ok tt, set_active false (record m { kmod = some k }))

abbrev pub clear_module : Outcome → Option LoadedModule → Manager → Result (Unit {0}) × Manager
clear_module call none m = (ok tt, set_active false m)
clear_module call (some k) m = with_cleared m (clear_uids call k)

abbrev pub deactivated : Control → Control
deactivated c = if c.active == 0 then c else record c { active = 0 }

abbrev pub publish_last_inactive : Outcome → Option Control → Manager → Result (Unit {0}) × Manager
publish_last_inactive call none m = (ok tt, set_active false m)
publish_last_inactive call (some c) m =
    clear_module call m.kmod (record m { last_control = some (deactivated c) })

unfoldable pub publish_inactive : Outcome → Manager → Result (Unit {0}) × Manager
unfolding clear_uids
publish_inactive call m =
    if m.test_bypass then (ok tt, m) else publish_last_inactive call m.last_control m

abbrev pub activate : Option Control → Manager → Result (Unit {0}) × Manager
activate none m = (err control_missing, m)
activate (some c) m = (
  ok tt,
  record m {
    last_control = some (with_counts (policy_counts m) (record c { active = 1 }));
    status = record m.status { active = true };
  },
)

unfoldable pub publish_active : Manager → Result (Unit {0}) × Manager
unfolding policy_counts
publish_active m =
    if m.test_bypass
    then (ok tt, m)
    else if not m.status.attachment_ready
    then (err dataplane_not_ready, m)
    else activate m.last_control m

abbrev pub kept_bank : Option Control → ℕ
kept_bank none = 0
kept_bank (some last) = last.policy_bank % 2

-- The listener addresses of the ABI are the parameters `listen_v4` and `listen_v6`.
abbrev pub with_listeners :
    Control → Option LoadedModule → Manager → Result LoadedModule → Result (Unit {0}) × Manager
with_listeners control k m (err e) = (err e, m)
with_listeners control k m (ok k') = (
  ok tt,
  record m {
    kmod = some k';
    last_control = some control;
    status = record m.status { active = false };
  },
)

abbrev pub listen_on : Outcome → List ℕ → List ℕ → ℕ → ℕ → Option LoadedModule → Result LoadedModule
listen_on call listen_v4 listen_v6 port_v4 port_v6 none = err lkm_not_loaded
listen_on call listen_v4 listen_v6 port_v4 port_v6 (some k) =
    set_listeners call listen_v4 port_v4 listen_v6 port_v6 k

unfoldable pub prepare_generation :
    Outcome → List ℕ → List ℕ → ℕ → ℕ → ℕ → Manager → Result (Unit {0}) × Manager
unfolding inactive_control policy_counts set_listeners
prepare_generation call listen_v4 listen_v6 generation port_v4 port_v6 m =
    let control =
      with_counts (policy_counts m) (record (inactive_control 0 0 generation port_v4 port_v6) {
        cidr_mode = cidr_mode_value m.cidr_mode;
        policy_bank = kept_bank m.last_control;
      }) in
    if m.test_bypass
    then (ok tt, m)
    else with_listeners control m.kmod m (listen_on call listen_v4 listen_v6 port_v4 port_v6 m.kmod)

-- The calls of one convergence: the cold-start cleanup, the release of the UIDs, the module's probes.
pub record ConvergeCalls : Type 0 where
  pub cleanup : Outcome
  pub clear_uids : Outcome
  pub probes : Probes

-- The status that a convergence starts from; the sysctls are not part of the model.
abbrev pub fresh_status : Manager → DataplaneStatus
fresh_status m = record {
  active = m.status.active;
  topology_ready = false;
  bpf_ready = false;
  attachment_ready = false;
  policy = m.status.policy;
  warnings = [];
  error = none;
}

abbrev pub report : DataplaneStatus → Error → Manager → Manager
report next e m = record m { status = record next { error = some e } }

abbrev pub switched_off : DataplaneStatus → Result (Unit {0}) × Manager → Manager
switched_off next (err e, m) = report next e m
switched_off next (ok u, m) = record m { status = record next { active = false } }

abbrev pub is_loaded : Option LoadedModule → Bool
is_loaded none = false
is_loaded (some k) = true

-- `object` is whether a BPF object was passed.
abbrev pub ready_warnings : Bool → Bool → List Warning
ready_warnings object active =
    if not object then no_bpf_object ∷ [] else if active then [] else steal_idle ∷ []

abbrev pub switched_on : Bool → DataplaneStatus → Result (Unit {0}) × Manager → Manager
switched_on object next (err e, m) = report next e m
switched_on object next (ok u, m) = record m {
  status = record next {
    topology_ready = true;
    bpf_ready = true;
    attachment_ready = is_loaded m.kmod;
    warnings = ready_warnings object next.active;
  };
}

abbrev pub reconciled : ConvergeCalls → Bool → Bool → DataplaneStatus → Manager → Manager
reconciled calls enabled object next m =
    if enabled
    then switched_on object next (ensure_kmod calls.probes m)
    else switched_off next (publish_inactive calls.clear_uids (drop_kmod m))

abbrev pub clean_up : ConvergeCalls → Bool → Bool → DataplaneStatus → Outcome → Manager → Manager
clean_up calls enabled object next (Outcome.errno e) m = report next (cleanup e) m
clean_up calls enabled object next Outcome.done m =
    reconciled calls enabled object next (record m { reconciled_once = true })

unfoldable pub converge_inner : ConvergeCalls → Bool → Bool → Manager → Manager
unfolding ensure_kmod publish_inactive drop_kmod
converge_inner calls enabled object m =
    let next = fresh_status m in
    if m.test_bypass
    then record m { status = record next { active = false; warnings = test_bypassed ∷ [] } }
    else if m.reconciled_once
    then reconciled calls enabled object next m
    else clean_up calls enabled object next calls.cleanup m
