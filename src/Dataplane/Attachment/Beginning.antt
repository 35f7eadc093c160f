-- ===== src/Dataplane/Attachment/Beginning.antt =====
-- crates/fluxd/src/dataplane/attachment.rs: `begin_attachment` and the ingress filter that it needs.
use flux_rs.Base.{Bool, true, not, ◌||◌, if◌then◌else◌, Option, none, some}
use flux_rs.Dataplane.{Outcome, Result, ok, err, Manager}
use flux_rs.Dataplane.Lifecycle.{publish_inactive, is_loaded}
use flux_rs.Dataplane.Attachment.{
  Call, failure, AttachmentState, Verification, Attaching, Reply, complete, dataplane_not_ready,
  failed, failed_publication, AdvanceCalls, admitted_ifaces, start_next_verification, set_ready,
}

-- The calls of `ensure_ingress_attached`: the index of the peer, whether its filter is recorded and
-- still verified, the publications, and the attachment.
pub record IngressCalls : Type 0 where
  pub index : Call
  pub recorded : Bool
  pub verified : Bool
  pub publish : Outcome
  pub attach : Call

abbrev publish_if_active : Outcome → Manager → Result (Unit {0}) × Manager
publish_if_active call m = if m.status.active then publish_inactive call m else (ok tt, m)

-- What an ingress attachment ends with: no reply where it succeeded.
abbrev attach_ingress : Call → Result (Unit {0}) × Manager → Option Reply × Manager
attach_ingress call (err e, m) = (some (failed_publication e), m)
attach_ingress (failure e) (ok u, m) = (some (failed e), m)
attach_ingress Call.done (ok u, m) = (none, m)

abbrev again : IngressCalls → Result (Unit {0}) × Manager → Option Reply × Manager
again calls (err e, m) = (some (failed_publication e), m)
again calls (ok u, m) = attach_ingress calls.attach (publish_if_active calls.publish m)

abbrev with_index : IngressCalls → Manager → Call → Option Reply × Manager
with_index calls m (failure e) = (some (failed e), m)
with_index calls m Call.done =
    if calls.recorded
    then (if calls.verified then (none, m) else again calls (publish_if_active calls.publish m))
    else attach_ingress calls.attach (publish_if_active calls.publish m)

unfoldable pub ensure_ingress_attached : IngressCalls → Manager → Option Reply × Manager
ensure_ingress_attached calls m = with_index calls m calls.index

abbrev with_ingress : AdvanceCalls → Attaching → Option Reply × Manager → Reply × Attaching
with_ingress calls a (some r, m) = (r, record a { manager = m })
with_ingress calls a (none, m) =
    let pending = admitted_ifaces a.ifaces in
    start_next_verification calls pending
      (record a { manager = m; attachment = some (record { pending = pending; verifying = none }) })

abbrev pending_wait : Option AttachmentState → Option Verification
pending_wait none = none
pending_wait (some s) = s.verifying

-- The old path, of a data plane without a module.
abbrev begin_filters :
    IngressCalls → AdvanceCalls → Attaching → Option Verification → Reply × Attaching
begin_filters ingress calls a (some v) = (Reply.wait v.wait, a)
begin_filters ingress calls a none =
    if not a.manager.status.topology_ready || not a.manager.status.bpf_ready
    then (dataplane_not_ready, a)
    else with_ingress calls a (ensure_ingress_attached ingress a.manager)

unfoldable pub begin_attachment : IngressCalls → AdvanceCalls → Attaching → Reply × Attaching
unfolding ensure_ingress_attached start_next_verification
begin_attachment ingress calls a =
    let ready = record a { manager = set_ready true a.manager } in
    if a.manager.test_bypass
    then (complete, ready)
    else if is_loaded a.manager.kmod
    then (if not a.manager.status.topology_ready || not a.manager.status.bpf_ready
        then (dataplane_not_ready, a)
        else (complete, ready))
    else if a.manager.status.attachment_ready
    then (complete, a)
    else begin_filters ingress calls a (pending_wait a.attachment)
