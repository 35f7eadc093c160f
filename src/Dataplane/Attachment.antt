-- ===== src/Dataplane/Attachment.antt =====
-- crates/fluxd/src/dataplane/attachment.rs: the verification of the admitted interfaces, one after the
-- other, each within three windows of a timer.
pub mod Advancing
pub mod Beginning
pub mod Preference
pub mod Deciding
mod Witnesses
use flux_rs.Base.{
  ℕ, ◌+◌, ◌-◌, ◌*◌, ◌^◌, Bool, true, false, not, ◌&&◌, ◌||◌, ltb, leb, ◌==◌, if◌then◌else◌, Option,
  none, some, List, [], ◌∷◌,
}
use flux_rs.Base.Text.{Text}
use flux_rs.Collections.Ord.{Ord, is_eq}
use flux_rs.Collections.TextOrd.{text_ord}
use flux_rs.Dataplane.{Outcome, Error, Result, ok, err, Manager}
use flux_rs.Dataplane.Lifecycle.{publish_inactive, is_loaded}

-- The status tokens that an attachment reads and writes; any other is `other`.
pub data IfaceState : Type 0 where
  admitted active excluded : IfaceState
  other : Text → IfaceState

-- The error codes that `attachment_reason` tells apart.
pub data Failure : Type 0 where
  interface_reused tc_dump_failed identity_drift other_failure : Failure

pub data Reason : Type 0 where
  interface_reused tc_dump_failed identity_drift tc_no_usable_pref tc_chain_shadowed : Reason

abbrev pub attachment_reason : Failure → Reason
attachment_reason Failure.interface_reused = Reason.interface_reused
attachment_reason Failure.tc_dump_failed = Reason.tc_dump_failed
attachment_reason Failure.identity_drift = Reason.identity_drift
attachment_reason Failure.other_failure = tc_no_usable_pref

-- The fields of `IfaceStatus` that decide what happens; program identities are left out.
pub record IfaceStatus : Type 0 where
  pub name : Text
  pub ifindex : ℕ
  pub entry : Option Text
  pub status : IfaceState
  pub reason : Option Reason
  pub reachable : Option Bool

pub record Verification : Type 0 where
  pub iface : IfaceStatus
  pub pref : ℕ
  pub baseline_counter : ℕ
  pub baseline_tx : ℕ
  pub attempts : ℕ
  pub wait : ℕ

pub record AttachmentState : Type 0 where
  pub pending : List IfaceStatus
  pub verifying : Option Verification

-- The manager with the fields of its attachment; the warnings of an attachment are left out.
pub record Attaching : Type 0 where
  pub manager : Manager
  pub ifaces : List IfaceStatus
  pub attachment : Option AttachmentState

-- Seconds, as `TC_VERIFY_WINDOW`.
abbrev pub tc_verify_window : ℕ
tc_verify_window = 2

abbrev pub tc_verify_max_attempts : ℕ
tc_verify_max_attempts = 3

-- `AttachmentProgress` and the errors, by name.
pub data Reply : Type 0 where
  complete : Reply
  wait : ℕ → Reply
  tc_verify_not_pending counter_read dataplane_not_ready : Reply
  failed : Failure → Reply
  failed_publication : Error → Reply

-- What a reading returns, and what `start_verification` returns for an interface.
pub data Read : Type 0 where
  value : ℕ → Read
  unread : Failure → Read

pub data Started : Type 0 where
  started : (pref counter tx : ℕ) → Started
  refused : Failure → Started

pub data Call : Type 0 where
  done : Call
  failure : Failure → Call

-- The system calls of one advance: the packet and counter readings, the removal of the verifier, the
-- attachment of the capture filter with its order and the removal of that, the next verifications,
-- and the publication.
pub record AdvanceCalls : Type 0 where
  pub tx : Read
  pub counter : Read
  pub detach : Call
  pub attach : Call
  pub order : Call
  pub undo : Call
  pub start : IfaceStatus → Started
  pub publish : Outcome

abbrev pub is_same : IfaceStatus → IfaceStatus → Bool
is_same iface status =
    is_eq (text_ord.cmp status.name iface.name) && (status.ifindex == iface.ifindex)

-- The first status of the interface is replaced.
abbrev pub update : (IfaceStatus → IfaceStatus) → IfaceStatus → List IfaceStatus → List IfaceStatus
update f iface [] = []
update f iface (status ∷ rest) =
    if is_same iface status then f status ∷ rest else status ∷ update f iface rest

abbrev pub exclude : Reason → IfaceStatus → IfaceStatus
exclude reason status = record status {
  status = excluded;
  reason = some reason;
  reachable = some false;
}

abbrev pub activate : IfaceStatus → IfaceStatus
activate status = record status { status = active; reason = none; reachable = some true }

unfoldable pub exclude_iface : IfaceStatus → Reason → Attaching → Attaching
exclude_iface iface reason a = record a { ifaces = update (exclude reason) iface a.ifaces }

unfoldable pub activate_iface : IfaceStatus → Attaching → Attaching
activate_iface iface a = record a { ifaces = update activate iface a.ifaces }

abbrev pub is_active : IfaceState → Bool
is_active active = true
is_active s = false

abbrev pub any_active : List IfaceStatus → Bool
any_active [] = false
any_active (i ∷ is) = is_active i.status || any_active is

abbrev pub set_ready : Bool → Manager → Manager
set_ready b m = record m { status = record m.status { attachment_ready = b } }

-- What the end of the queue returns, from the publication where one was needed.
abbrev after_publication : List IfaceStatus → Result (Unit {0}) × Manager → Reply × Attaching
after_publication is (err e, m) =
    (failed_publication e, record { manager = m; ifaces = is; attachment = none })
after_publication is (ok u, m) = (complete, record { manager = m; ifaces = is; attachment = none })

-- The empty queue of `start_next_verification`.
unfoldable pub finish_attachment : AdvanceCalls → Attaching → Reply × Attaching
finish_attachment calls a =
    let ready = any_active a.ifaces in
    let m = set_ready ready a.manager in
    if a.manager.status.active && not ready
    then after_publication a.ifaces (publish_inactive calls.publish m)
    else (complete, record { manager = m; ifaces = a.ifaces; attachment = none })

abbrev pub verification_of : IfaceStatus → (pref counter tx : ℕ) → Verification
verification_of iface pref counter tx = record {
  iface = iface;
  pref = pref;
  baseline_counter = counter;
  baseline_tx = tx;
  attempts = 1;
  wait = tc_verify_window;
}

-- `start_next_verification` over the queue.
unfoldable pub start_next_verification :
    AdvanceCalls → List IfaceStatus → Attaching → Reply × Attaching
unfolding finish_attachment exclude_iface
start_next_verification calls [] a = finish_attachment calls a
start_next_verification calls (iface ∷ rest) a = elim (calls.start iface) [
  | started pref counter tx ↦ (
    wait tc_verify_window,
    record a {
      attachment =
          some
            (record { pending = rest; verifying = some (verification_of iface pref counter tx) });
    },
  )
  | refused e ↦ start_next_verification calls rest (exclude_iface iface (attachment_reason e) a)
]

abbrev is_admitted : IfaceState → Bool
is_admitted admitted = true
is_admitted s = false

abbrev pub admitted_ifaces : List IfaceStatus → List IfaceStatus
admitted_ifaces [] = []
admitted_ifaces (i ∷ is) =
    if is_admitted i.status then i ∷ admitted_ifaces is else admitted_ifaces is
