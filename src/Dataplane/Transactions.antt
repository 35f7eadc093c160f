-- ===== src/Dataplane/Transactions.antt =====
-- crates/fluxd/src/dataplane/platform.rs: `apply_policy`.
use flux_rs.Base.{
  ℕ, ◌+◌, Bool, true, false, ◌||◌, ltb, if◌then◌else◌, Option, none, some, List, [], ◌∷◌, ◌++◌,
  length,
}
use flux_rs.Collections.BTreeMap.{difference}
use flux_rs.Collections.Ord.{nat_ord}
use flux_rs.Policy.Epoch.{PolicyEpoch, committed}
use flux_rs.Dataplane.{
  Outcome, Result, ok, err, capacity_selected, capacity_bypass, capacity_uid_policy, rtnetlink_dump,
  lkm_not_loaded, LoadedModule, set_uids, Control, DesiredPolicy, PolicyCounts, Warning,
  sock_destroy_incomplete, sock_destroy_failed, self_addr_lru, Manager,
}
use flux_rs.Dataplane.Addresses.{Address, SelfSelection, desired_self_addresses}
use flux_rs.Dataplane.Epochs.{
  live_epoch, desired_epoch, uid_modes_from_epoch, kmod_set_bypass, cidr_mode_value, keys,
}
use flux_rs.Dataplane.Counting.{policy_counts}

-- What `destroy_tcp_for_uids` returns; `incomplete` is the error that `dump_retryable` accepts.
pub data Destroyed : Type 0 where
  destroyed incomplete : Destroyed
  failed : ℕ → Destroyed

-- What the system calls of one transaction return, in the order of the calls.
pub record Calls : Type 0 where
  pub snapshot : Outcome
  pub addresses : List Address
  pub set_bypass : Outcome
  pub set_uids : Outcome
  pub restore : Outcome
  pub destroy : Destroyed

abbrev pub uid_selected_max : ℕ
uid_selected_max = 1024

abbrev pub lpm_max_entries : ℕ
lpm_max_entries = 65536

abbrev pub uid_policy_max_entries : ℕ
uid_policy_max_entries = 4096

abbrev pub is_sock_destroy : Warning → Bool
is_sock_destroy sock_destroy_incomplete = true
is_sock_destroy (sock_destroy_failed e) = true
is_sock_destroy w = false

abbrev pub is_self_addr : Warning → Bool
is_self_addr self_addr_lru = true
is_self_addr w = false

-- `retain` of the warnings that the test does not meet.
abbrev pub without : (Warning → Bool) → List Warning → List Warning
without p [] = []
without p (w ∷ ws) = if p w then without p ws else w ∷ without p ws

abbrev pub destroy_warning : Destroyed → List Warning
destroy_warning destroyed = []
destroy_warning incomplete = sock_destroy_incomplete ∷ []
destroy_warning (failed e) = sock_destroy_failed e ∷ []

-- The sockets of dropped UIDs are destroyed only where there are some.
abbrev pub reset_sockets : List ℕ → Destroyed → List Warning → List Warning
reset_sockets [] call ws = without is_sock_destroy ws
reset_sockets (uid ∷ uids) call ws = without is_sock_destroy ws ++ destroy_warning call

abbrev pub counted : DesiredPolicy → PolicyEpoch → Option Control → Option Control
counted desired next none = none
counted desired next (some last) = some (record last {
  selected_count = length next.selected;
  draining_count = length next.draining;
  bypass_v4_count = length next.bypass_v4;
  bypass_v6_count = length next.bypass_v6;
  cidr_mode = cidr_mode_value desired.cidr_mode;
})

-- The manager's own copy of the policy that the module now holds.
abbrev pub recorded : DesiredPolicy → SelfSelection → PolicyEpoch → Manager → Manager
recorded desired own next m = record m {
  last_control = counted desired next m.last_control;
  uid_modes = uid_modes_from_epoch next;
  bypass_v4 = desired.bypass_v4;
  bypass_v6 = desired.bypass_v6;
  self_v4 = own.v4;
  self_v6 = own.v6;
  apps_mode = desired.apps_mode;
  cidr_mode = desired.cidr_mode;
  interfaces_mode = desired.interfaces_mode;
  interfaces = desired.interfaces;
}

abbrev pub lru_warning : Bool → List Warning
lru_warning true = self_addr_lru ∷ []
lru_warning false = []

-- What follows the two requests to the module.
unfoldable pub adopt :
    Calls
    → DesiredPolicy
    → SelfSelection
    → PolicyEpoch
    → PolicyEpoch
    → LoadedModule
    → Manager
    → Manager
unfolding policy_counts uid_modes_from_epoch
adopt calls desired own from next k m =
    let dropped = keys (difference from.selected next.selected) in
    let after = recorded desired own next (record m { kmod = some k }) in
    record after {
      status = record m.status {
        policy = policy_counts after;
        warnings =
            without is_self_addr (reset_sockets dropped calls.destroy m.status.warnings)
            ++ lru_warning own.truncated;
      };
    }

-- The module after the request to restore its bypass tables, whose error is dropped.
abbrev pub restored : LoadedModule → Result LoadedModule → LoadedModule
restored k (ok k') = k'
restored k (err e) = k

abbrev pub after_uids :
    Calls
    → DesiredPolicy
    → SelfSelection
    → PolicyEpoch
    → PolicyEpoch
    → Manager
    → LoadedModule
    → Result LoadedModule
    → Result (Unit {0}) × Manager
after_uids calls desired own from next m k (err e) =
    (err e, record m { kmod = some (restored k (kmod_set_bypass calls.restore from k)) })
after_uids calls desired own from next m k (ok k') = (ok tt, adopt calls desired own from next k' m)

abbrev pub after_bypass :
    Calls
    → DesiredPolicy
    → SelfSelection
    → PolicyEpoch
    → PolicyEpoch
    → Manager
    → Result LoadedModule
    → Result (Unit {0}) × Manager
after_bypass calls desired own from next m (err e) = (err e, m)
after_bypass calls desired own from next m (ok k) =
    after_uids calls desired own from next m k (set_uids calls.set_uids (keys next.selected) k)

abbrev pub publish :
    Calls
    → DesiredPolicy
    → SelfSelection
    → PolicyEpoch
    → PolicyEpoch
    → Manager
    → Option LoadedModule
    → Result (Unit {0}) × Manager
publish calls desired own from next m none = (err lkm_not_loaded, m)
publish calls desired own from next m (some k) =
    after_bypass calls desired own from next m (kmod_set_bypass calls.set_bypass next k)

abbrev pub with_addresses :
    Calls → DesiredPolicy → Result SelfSelection × Manager → Result (Unit {0}) × Manager
with_addresses calls desired (err e, m) = (err e, m)
with_addresses calls desired (ok own, m) =
    let from = live_epoch m in
    let next = committed from (desired_epoch desired own.v4 own.v6) in
    if ltb uid_policy_max_entries (length next.selected + length next.draining)
    then (err capacity_uid_policy, m)
    else publish calls desired own from next m m.kmod

abbrev pub with_snapshot : Calls → DesiredPolicy → Manager → Outcome → Result (Unit {0}) × Manager
with_snapshot calls desired m (Outcome.errno e) = (err (rtnetlink_dump e), m)
with_snapshot calls desired m Outcome.done =
    with_addresses calls desired (desired_self_addresses calls.addresses m)

abbrev pub bypassed_counts : DesiredPolicy → PolicyCounts
bypassed_counts desired = record {
  apps_mode = desired.apps_mode;
  cidr_mode = desired.cidr_mode;
  interfaces_mode = desired.interfaces_mode;
  selected = length desired.selected_uids;
  draining = 0;
  bypass_v4 = length desired.bypass_v4;
  bypass_v6 = length desired.bypass_v6;
  self_addresses = 0;
}

unfoldable pub apply_policy : Calls → DesiredPolicy → Manager → Result (Unit {0}) × Manager
unfolding desired_self_addresses live_epoch desired_epoch kmod_set_bypass set_uids adopt
apply_policy calls desired m =
    if m.test_bypass
    then (ok tt, record m { status = record m.status { policy = bypassed_counts desired } })
    else if ltb uid_selected_max (length desired.selected_uids)
    then (err capacity_selected, m)
    else if ltb lpm_max_entries (length desired.bypass_v4)
        || ltb lpm_max_entries (length desired.bypass_v6)
    then (err capacity_bypass, m)
    else with_snapshot calls desired m calls.snapshot
