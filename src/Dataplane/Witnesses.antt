-- ===== src/Dataplane/Witnesses.antt =====
-- Tests of the data plane, and its theorems at concrete inputs.
use flux_rs.Base.{◌≡◌, refl, false, some, none, [], ◌∷◌, arith}
use flux_rs.Collections.Ord.{nat_ord}
use flux_rs.Collections.BTreeMap.{insert, get, extend, retain, remove_all}
use flux_rs.Collections.TextOrd.{text_ord}
use flux_rs.Ssid.{blacklist, whitelist}
use flux_rs.Cidr.{from_octets, of_octets}
use flux_rs.Policy.Epoch.{cidr_ord, committed, policy}
use flux_rs.Dataplane.{
  Outcome, ok, err, lkm_set_uids, set_uids, set_bypass, LoadedModule, PolicyCounts, DataplaneStatus,
  DesiredPolicy, Manager,
}
use flux_rs.Dataplane.Addresses.{
  Address, desired_self_addresses, candidates, add_candidate, note_seen, see_new,
  select_self_addresses, stable_of, add_first, is_privacy_address, SelfSelection,
}
use flux_rs.Dataplane.Addresses.Exemption.{IsExempt, desired_self_addresses-IsExempt}
use flux_rs.Dataplane.Epochs.{
  live_epoch, desired_epoch, uids_of_mode, uid_modes_from_epoch, insert_all, collect_prefixes,
  collect_addresses, lpm_to_cidr, kmod_set_bypass, bypass_of,
}
use flux_rs.Dataplane.Counting.{policy_counts}
use flux_rs.Dataplane.Holding.{Holds}
use flux_rs.Dataplane.Transactions.{Calls, destroyed, apply_policy, adopt}
use flux_rs.Dataplane.Refinement.{IsCommit, apply_policy-IsCommit}
use flux_rs.Dataplane.Restoring.{IsUndone, apply_policy-IsUndone}

abbrev no_counts : PolicyCounts
no_counts = record {
  apps_mode = blacklist;
  cidr_mode = blacklist;
  interfaces_mode = blacklist;
  selected = 0;
  draining = 0;
  bypass_v4 = 0;
  bypass_v6 = 0;
  self_addresses = 0;
}

abbrev idle : DataplaneStatus
idle = record {
  active = false;
  topology_ready = false;
  bpf_ready = false;
  attachment_ready = false;
  policy = no_counts;
  warnings = [];
  error = none;
}

-- A module that holds one UID, and the manager that published it.
abbrev loaded : LoadedModule
loaded = record {
  listeners = none;
  uids = 10_001 ∷ [];
  bypass = some (record { cidr_mode = 0; v4 = []; v6 = []; self4 = []; self6 = [] });
}

abbrev pub manager : Manager
manager = record {
  test_bypass = false;
  reconciled_once = false;
  last_control = none;
  apps_mode = blacklist;
  cidr_mode = blacklist;
  interfaces_mode = blacklist;
  interfaces = [];
  uid_modes = (10_001, 1) ∷ [];
  bypass_v4 = [];
  bypass_v6 = [];
  self_v4 = [];
  self_v6 = [];
  address_seen_v4 = [];
  address_seen_v6 = [];
  address_tick = 0;
  kmod = some loaded;
  status = idle;
}

-- 10.0.0.2 on the interface 3.
abbrev own_v4 : Address
own_v4 = record {
  ifindex = 3;
  family = 2;
  prefix_len = 24;
  scope = 0;
  flags = 0x80;
  bytes = 10 ∷ 0 ∷ 0 ∷ 2 ∷ [];
}

abbrev pub calls_with : Outcome → Calls
calls_with uids = record {
  snapshot = Outcome.done;
  addresses = own_v4 ∷ [];
  set_bypass = Outcome.done;
  set_uids = uids;
  restore = Outcome.done;
  destroy = destroyed;
}

abbrev pub desired : DesiredPolicy
desired = record {
  apps_mode = whitelist;
  cidr_mode = blacklist;
  interfaces_mode = blacklist;
  interfaces = [];
  selected_uids = (10_002, tt) ∷ [];
  bypass_v4 = (record { prefixlen = 8; addr = 10 ∷ 0 ∷ 0 ∷ 0 ∷ [] }, policy) ∷ [];
  bypass_v6 = [];
}

apply_ok : (apply_policy (calls_with Outcome.done) desired manager).0 ≡ ok tt
unfolding apply_policy desired_self_addresses candidates add_candidate note_seen see_new
    select_self_addresses stable_of add_first is_privacy_address live_epoch desired_epoch
    uids_of_mode insert get retain extend remove_all collect_prefixes collect_addresses lpm_to_cidr
    from_octets of_octets committed kmod_set_bypass bypass_of set_bypass set_uids adopt
    policy_counts uid_modes_from_epoch insert_all
apply_ok = refl

apply_policy-IsCommit_example :
    IsCommit
      (calls_with Outcome.done)
      desired
      manager
      (apply_policy (calls_with Outcome.done) desired manager).1
apply_policy-IsCommit_example =
    apply_policy-IsCommit (calls_with Outcome.done) desired (tt, tt) manager
      (apply_policy (calls_with Outcome.done) desired manager).1 refl
      (λ i. (apply_ok i, (apply_policy (calls_with Outcome.done) desired manager).1))

loaded-Holds : Holds (live_epoch manager) loaded
unfolding bypass_of live_epoch uids_of_mode insert collect_prefixes collect_addresses
loaded-Holds = record {
  uids = refl;
  bypass = refl;
  fits = record { v4 = omega arith; v6 = omega arith; self4 = omega arith; self6 = omega arith };
}

-- The request for the UIDs fails with EIO.
apply_err : (apply_policy (calls_with (Outcome.errno 5)) desired manager).0 ≡ err (lkm_set_uids 5)
unfolding apply_policy desired_self_addresses candidates add_candidate note_seen see_new
    select_self_addresses stable_of add_first is_privacy_address live_epoch desired_epoch
    uids_of_mode insert get retain extend remove_all collect_prefixes collect_addresses lpm_to_cidr
    from_octets of_octets committed kmod_set_bypass bypass_of set_bypass set_uids adopt
    policy_counts uid_modes_from_epoch insert_all
apply_err = refl

apply_policy-IsUndone_example :
    IsUndone manager (apply_policy (calls_with (Outcome.errno 5)) desired manager).1
apply_policy-IsUndone_example =
    apply_policy-IsUndone (calls_with (Outcome.errno 5)) desired (lkm_set_uids 5) manager loaded
      loaded-Holds refl (apply_policy (calls_with (Outcome.errno 5)) desired manager).1 refl
      (λ i. (apply_err i, (apply_policy (calls_with (Outcome.errno 5)) desired manager).1))

abbrev own_addresses : SelfSelection
own_addresses = record { v4 = (own_v4.bytes, tt) ∷ []; v6 = []; truncated = false }

own_addresses_ok : (desired_self_addresses (own_v4 ∷ []) manager).0 ≡ ok own_addresses
unfolding desired_self_addresses candidates add_candidate note_seen see_new select_self_addresses
    stable_of add_first is_privacy_address insert get retain
own_addresses_ok = refl

desired_self_addresses-IsExempt_example : IsExempt (own_v4 ∷ []) own_addresses
desired_self_addresses-IsExempt_example =
    desired_self_addresses-IsExempt (own_v4 ∷ []) manager own_addresses own_addresses_ok
