-- ===== src/Dataplane.antt =====
-- crates/fluxd/src/dataplane/platform.rs, kmod.rs and crates/flux-core/src/kmod_uapi.rs: the
-- `Manager` of the data plane and the kernel module that it holds. A system call is an argument: what
-- it returns.
pub mod Epochs
pub mod Addresses
pub mod Transactions
pub mod Lifecycle
pub mod Counting
pub mod UidModes
pub mod Holding
pub mod Refinement
pub mod Restoring
pub mod Attachment
mod Witnesses
use flux_rs.Base.{
  ℕ, ◌+◌, ◌*◌, ◌/◌, ◌%◌, Bool, true, false, ltb, ◌||◌, if◌then◌else◌, Option, none, some, List, [],
  ◌∷◌, length,
}
use flux_rs.Base.Text.{Text}
use flux_rs.Collections.BTreeMap.{BTreeMap, BTreeSet}
use flux_rs.Cidr.{LpmKey}
use flux_rs.Policy.Epoch.{BypassTag}
use flux_rs.Ssid.{ListMode}

-- What a system call returns: its errno where it fails.
pub data Outcome : Type 0 where
  done : Outcome
  errno : ℕ → Outcome

-- `DataplaneError` by its code; the detail text is left out. `invalid_input` is the errno-less error
-- of a request that is too long for the module.
pub data Error : Type 0 where
  capacity_selected capacity_bypass capacity_self_addr capacity_uid_policy : Error
  rtnetlink_dump uname lkm_load lkm_status lkm_set_bypass lkm_set_uids : ℕ → Error
  lkm_clear_uids lkm_set_listeners cleanup : ℕ → Error
  too_many_prefixes too_many_self_addresses too_many_uids : Error
  lkm_not_loaded lkm_tproxy_symbol dataplane_not_ready control_missing : Error

pub data Result {ℓ} (A : Type ℓ) : Type ℓ where
  ok : A → Result A
  err : Error → Result A

-- `kmod_uapi::Pfx4` and `Pfx6`: the network address in network byte order, the length, the tag.
pub record Pfx : Type 0 where
  pub addr : List ℕ
  pub prefixlen : ℕ
  pub tag : ℕ

pub record Bypass : Type 0 where
  pub cidr_mode : ℕ
  pub v4 : List Pfx
  pub v6 : List Pfx
  pub self4 : List (List ℕ)
  pub self6 : List (List ℕ)

pub record Listeners : Type 0 where
  pub v4_addr : List ℕ
  pub v4_port : ℕ
  pub v6_addr : List ℕ
  pub v6_port : ℕ

-- `LoadedModule`: the tables that the kernel module holds while its descriptor is open.
pub record LoadedModule : Type 0 where
  pub listeners : Option Listeners
  pub uids : List ℕ
  pub bypass : Option Bypass

abbrev pub uid_slot_max : ℕ
uid_slot_max = 1024

abbrev pub lpm_max : ℕ
lpm_max = 65536

abbrev pub self_max : ℕ
self_max = 256

abbrev on_outcome : (ℕ → Error) → Outcome → LoadedModule → Result LoadedModule
on_outcome failure done k = ok k
on_outcome failure (errno e) k = err (failure e)

-- `LoadedModule::set_uids`, and its errors as the callers name them.
unfoldable pub set_uids : Outcome → List ℕ → LoadedModule → Result LoadedModule
set_uids call uids k =
    if ltb uid_slot_max (length uids)
    then err too_many_uids
    else on_outcome lkm_set_uids call (record k { uids = uids })

unfoldable pub set_bypass : Outcome → Bypass → LoadedModule → Result LoadedModule
set_bypass call b k =
    if ltb lpm_max (length b.v4) || ltb lpm_max (length b.v6)
    then err too_many_prefixes
    else if ltb self_max (length b.self4) || ltb self_max (length b.self6)
    then err too_many_self_addresses
    else on_outcome lkm_set_bypass call (record k { bypass = some b })

unfoldable pub clear_uids : Outcome → LoadedModule → Result LoadedModule
clear_uids call k = on_outcome lkm_clear_uids call (record k { uids = [] })

-- `u16::to_be` on the supported targets.
abbrev pub to_be : ℕ → ℕ
to_be port = port % 256 * 256 + port / 256 % 256

unfoldable pub set_listeners :
    Outcome → List ℕ → ℕ → List ℕ → ℕ → LoadedModule → Result LoadedModule
set_listeners call v4 v4_port v6 v6_port k = on_outcome lkm_set_listeners call (record k {
  listeners =
      some
        (record { v4_addr = v4; v4_port = to_be v4_port; v6_addr = v6; v6_port = to_be v6_port });
})

-- The fields of `abi::Control` that differ between controls.
pub record Control : Type 0 where
  pub active : ℕ
  pub generation : ℕ
  pub flxrs0_ifindex : ℕ
  pub flxrs1_ifindex : ℕ
  pub listen_port_v4 : ℕ
  pub listen_port_v6 : ℕ
  pub cidr_mode : ℕ
  pub selected_count : ℕ
  pub draining_count : ℕ
  pub bypass_v4_count : ℕ
  pub bypass_v6_count : ℕ
  pub policy_bank : ℕ

pub record DesiredPolicy : Type 0 where
  pub apps_mode : ListMode
  pub cidr_mode : ListMode
  pub interfaces_mode : ListMode
  pub interfaces : BTreeSet Text
  pub selected_uids : BTreeSet ℕ
  pub bypass_v4 : BTreeMap LpmKey BypassTag
  pub bypass_v6 : BTreeMap LpmKey BypassTag

pub record PolicyCounts : Type 0 where
  pub apps_mode : ListMode
  pub cidr_mode : ListMode
  pub interfaces_mode : ListMode
  pub selected : ℕ
  pub draining : ℕ
  pub bypass_v4 : ℕ
  pub bypass_v6 : ℕ
  pub self_addresses : ℕ

-- The texts of `warnings`, by name.
pub data Warning : Type 0 where
  sock_destroy_incomplete self_addr_lru steal_idle no_bpf_object test_bypassed : Warning
  sock_destroy_failed : ℕ → Warning

pub record DataplaneStatus : Type 0 where
  pub active : Bool
  pub topology_ready : Bool
  pub bpf_ready : Bool
  pub attachment_ready : Bool
  pub policy : PolicyCounts
  pub warnings : List Warning
  pub error : Option Error

-- The fields of `Manager` that its transactions use; the modes of UIDs are `abi::UidMode` as `u8`.
pub record Manager : Type 0 where
  pub test_bypass : Bool
  pub reconciled_once : Bool
  pub last_control : Option Control
  pub apps_mode : ListMode
  pub cidr_mode : ListMode
  pub interfaces_mode : ListMode
  pub interfaces : BTreeSet Text
  pub uid_modes : BTreeMap ℕ ℕ
  pub bypass_v4 : BTreeMap LpmKey BypassTag
  pub bypass_v6 : BTreeMap LpmKey BypassTag
  pub self_v4 : BTreeSet (List ℕ)
  pub self_v6 : BTreeSet (List ℕ)
  pub address_seen_v4 : BTreeMap (List ℕ) ℕ
  pub address_seen_v6 : BTreeMap (List ℕ) ℕ
  pub address_tick : ℕ
  pub kmod : Option LoadedModule
  pub status : DataplaneStatus

abbrev pub uid_selected : ℕ
uid_selected = 1

abbrev pub uid_draining : ℕ
uid_draining = 2
