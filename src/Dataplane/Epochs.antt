-- ===== src/Dataplane/Epochs.antt =====
-- crates/fluxd/src/dataplane/platform.rs: the policy that is live, the one that is wanted, and the
-- epoch as the kernel module takes it.
use flux_rs.Base.{ℕ, ◌/◌, leb, ◌==◌, min, if◌then◌else◌, List, [], ◌∷◌}
use flux_rs.Collections.Ord.{nat_ord}
use flux_rs.Collections.BTreeMap.{BTreeMap, BTreeSet, insert, add}
use flux_rs.Cidr.{Cidr, LpmKey, from_octets, octets, of_octets}
use flux_rs.Cidr
use flux_rs.Policy.Epoch
use flux_rs.Policy.Epoch.{PolicyEpoch, BypassTag, reserved, policy, CidrMode, cidr_ord}
use flux_rs.Ssid.{ListMode, blacklist, whitelist}
use flux_rs.Dataplane.{
  Outcome, Result, Pfx, Bypass, LoadedModule, set_bypass, DesiredPolicy, Manager, uid_selected,
  uid_draining,
}

abbrev pub epoch_mode : ListMode → CidrMode
epoch_mode blacklist = Epoch.blacklist
epoch_mode whitelist = Epoch.whitelist

-- `cidr_mode_value`, and `as u32` of the epoch's mode.
abbrev pub cidr_mode_value : ListMode → ℕ
cidr_mode_value blacklist = 0
cidr_mode_value whitelist = 1

abbrev pub cidr_mode_code : CidrMode → ℕ
cidr_mode_code Epoch.blacklist = 0
cidr_mode_code Epoch.whitelist = 1

abbrev pub tag_code : BypassTag → ℕ
tag_code reserved = 1
tag_code policy = 2

abbrev or_default : Cidr.Result Cidr → Cidr
or_default (Cidr.ok c) = c
or_default (Cidr.err e) = record { addr = 0; prefix_len = 0 }

-- `lpm_v4_to_cidr` and `lpm_v6_to_cidr`: `u8::try_from(..).unwrap_or(w).min(w)`.
unfoldable pub lpm_to_cidr : ℕ → LpmKey → Cidr
unfolding from_octets
lpm_to_cidr w key =
    or_default (from_octets w key.addr (min (if leb key.prefixlen 255 then key.prefixlen else w) w))

-- `.map(..).collect()` into a map and into a set, from what is collected so far.
unfoldable pub collect_prefixes :
    ℕ → BTreeMap LpmKey BypassTag → BTreeMap Cidr BypassTag → BTreeMap Cidr BypassTag
unfolding lpm_to_cidr
collect_prefixes w [] out = out
collect_prefixes w ((key, tag) ∷ m) out = collect_prefixes w m (insert (lpm_to_cidr w key) tag out)

unfoldable pub collect_addresses : BTreeSet (List ℕ) → BTreeSet ℕ → BTreeSet ℕ
unfolding of_octets
collect_addresses [] out = out
collect_addresses ((bytes, u) ∷ s) out = collect_addresses s (add (of_octets 0 bytes) out)

unfoldable pub desired_epoch : DesiredPolicy → BTreeSet (List ℕ) → BTreeSet (List ℕ) → PolicyEpoch
unfolding collect_prefixes collect_addresses
desired_epoch desired self_v4 self_v6 = record {
  cidr_mode = epoch_mode desired.cidr_mode;
  selected = desired.selected_uids;
  draining = [];
  bypass_v4 = collect_prefixes 32 desired.bypass_v4 [];
  bypass_v6 = collect_prefixes 128 desired.bypass_v6 [];
  self_v4 = collect_addresses self_v4 [];
  self_v6 = collect_addresses self_v6 [];
}

-- The UIDs of one mode, as the loop of `live_epoch` inserts them.
unfoldable pub uids_of_mode : ℕ → BTreeMap ℕ ℕ → BTreeSet ℕ → BTreeSet ℕ
uids_of_mode mode [] out = out
uids_of_mode mode ((uid, m) ∷ modes) out =
    uids_of_mode mode modes (if m == mode then add uid out else out)

unfoldable pub live_epoch : Manager → PolicyEpoch
unfolding uids_of_mode collect_prefixes collect_addresses
live_epoch m = record {
  cidr_mode = epoch_mode m.cidr_mode;
  selected = uids_of_mode uid_selected m.uid_modes [];
  draining = uids_of_mode uid_draining m.uid_modes [];
  bypass_v4 = collect_prefixes 32 m.bypass_v4 [];
  bypass_v6 = collect_prefixes 128 m.bypass_v6 [];
  self_v4 = collect_addresses m.self_v4 [];
  self_v6 = collect_addresses m.self_v6 [];
}

unfoldable pub insert_all : ℕ → BTreeSet ℕ → BTreeMap ℕ ℕ → BTreeMap ℕ ℕ
insert_all mode [] out = out
insert_all mode ((uid, u) ∷ s) out = insert_all mode s (insert uid mode out)

unfoldable pub uid_modes_from_epoch : PolicyEpoch → BTreeMap ℕ ℕ
unfolding insert_all
uid_modes_from_epoch e = insert_all uid_draining e.draining (insert_all uid_selected e.selected [])

abbrev pub keys {ℓ} : {K : Type 0} {V : Type ℓ} → BTreeMap K V → List K
keys [] = []
keys ((k, v) ∷ m) = k ∷ keys m

abbrev pub prefixes : ℕ → BTreeMap Cidr BypassTag → List Pfx
prefixes w [] = []
prefixes w ((c, tag) ∷ m) =
    record { addr = octets (w / 8) c.addr; prefixlen = c.prefix_len; tag = tag_code tag }
    ∷ prefixes w m

abbrev pub addresses : ℕ → BTreeSet ℕ → List (List ℕ)
addresses w [] = []
addresses w ((a, u) ∷ s) = octets (w / 8) a ∷ addresses w s

-- The body of the request that `kmod_set_bypass` makes of an epoch.
unfoldable pub bypass_of : PolicyEpoch → Bypass
bypass_of e = record {
  cidr_mode = cidr_mode_code e.cidr_mode;
  v4 = prefixes 32 e.bypass_v4;
  v6 = prefixes 128 e.bypass_v6;
  self4 = addresses 32 e.self_v4;
  self6 = addresses 128 e.self_v6;
}

unfoldable pub kmod_set_bypass : Outcome → PolicyEpoch → LoadedModule → Result LoadedModule
unfolding bypass_of set_bypass
kmod_set_bypass call e k = set_bypass call (bypass_of e) k
