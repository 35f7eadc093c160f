-- ===== src/Dataplane/Attachment/Advancing.antt =====
-- crates/fluxd/src/dataplane/attachment.rs: `advance_attachment`, `cancel_attachment` and the end of a
-- verification.
use flux_rs.Base.{ℕ, ◌+◌, ◌-◌, ◌*◌, ◌^◌, false, ltb, leb, if◌then◌else◌, Option, none, some, List}
use flux_rs.Base.Text.{Text}
use flux_rs.Collections.TextOrd.{text_ord}
use flux_rs.Dataplane.Attachment.{
  Failure, attachment_reason, IfaceStatus, Verification, AttachmentState, Attaching,
  tc_verify_window, tc_verify_max_attempts, Reply, Read, Call, AdvanceCalls, exclude_iface,
  activate_iface, set_ready, start_next_verification, other_failure, tc_chain_shadowed, complete,
  wait, tc_verify_not_pending, counter_read, failed, value, unread, done, failure,
}

-- The calls of `finish_verified_interface`: where the order cannot be recorded, the capture filter is
-- removed again, and the first failure among the two is reported.
abbrev pub undone : Failure → Call → Call
undone e done = failure e
undone e (failure e') = failure e'

abbrev pub ordered : Call → Call → Call
ordered done undo = done
ordered (failure e) undo = undone e undo

abbrev pub attached : Call → Call → Call → Call
attached (failure e) order undo = failure e
attached done order undo = ordered order undo

abbrev pub with_entry : Option Text → AdvanceCalls → Call
with_entry none calls = failure other_failure
with_entry (some entry) calls = attached calls.attach calls.order calls.undo

abbrev pub capture_calls : Call → Option Text → AdvanceCalls → Call
capture_calls (failure e) entry calls = failure e
capture_calls done entry calls = with_entry entry calls

unfoldable pub finish_verified_interface : AdvanceCalls → Verification → Attaching → Attaching
unfolding activate_iface exclude_iface
finish_verified_interface calls v a = elim (capture_calls calls.detach v.iface.entry calls) [
  | done ↦ activate_iface v.iface a
  | failure e ↦ exclude_iface v.iface (attachment_reason e) a
]

abbrev pub with_verifying : List IfaceStatus → Option Verification → Attaching → Attaching
with_verifying pending v a = record a {
  attachment = some (record { pending = pending; verifying = v });
}

-- The verifier of an interface whose traffic it does not see is removed.
abbrev pub shadowed :
    AdvanceCalls → List IfaceStatus → Verification → Attaching → Call → Reply × Attaching
shadowed calls pending v a (failure e) = (failed e, with_verifying pending none a)
shadowed calls pending v a done =
    start_next_verification calls pending
      (with_verifying pending none (exclude_iface v.iface tc_chain_shadowed a))

-- Another window, twice as long.
abbrev pub retry : ℕ → ℕ → Verification → Verification
retry counter tx v = record v {
  attempts = v.attempts + 1;
  baseline_counter = counter;
  baseline_tx = tx;
  wait = tc_verify_window * 2 ^ (v.attempts + 1 - 1);
}

abbrev pub decide :
    AdvanceCalls → List IfaceStatus → Verification → ℕ → ℕ → Attaching → Reply × Attaching
decide calls pending v tx counter a =
    if ltb v.baseline_counter counter
    then start_next_verification calls pending
        (finish_verified_interface calls v (with_verifying pending none a))
    else if ltb v.baseline_tx tx
    then shadowed calls pending v a calls.detach
    else if leb tc_verify_max_attempts v.attempts
    then start_next_verification calls pending
        (finish_verified_interface calls v (with_verifying pending none a))
    else (wait (retry counter tx v).wait, with_verifying pending (some (retry counter tx v)) a)

abbrev pub with_counter :
    AdvanceCalls → List IfaceStatus → Verification → ℕ → Attaching → Read → Reply × Attaching
with_counter calls pending v tx a (unread e) = (counter_read, with_verifying pending (some v) a)
with_counter calls pending v tx a (value counter) = decide calls pending v tx counter a

abbrev pub with_tx :
    AdvanceCalls → List IfaceStatus → Verification → Attaching → Read → Reply × Attaching
with_tx calls pending v a (unread e) =
    start_next_verification calls pending
      (with_verifying pending none (exclude_iface v.iface (attachment_reason e) a))
with_tx calls pending v a (value tx) = with_counter calls pending v tx a calls.counter

abbrev pub with_verification :
    AdvanceCalls → List IfaceStatus → Option Verification → Attaching → Reply × Attaching
with_verification calls pending none a = (tc_verify_not_pending, a)
with_verification calls pending (some v) a = with_tx calls pending v a calls.tx

abbrev pub with_state : AdvanceCalls → Option AttachmentState → Attaching → Reply × Attaching
with_state calls none a = (complete, a)
with_state calls (some s) a = with_verification calls s.pending s.verifying a

unfoldable pub advance_attachment : AdvanceCalls → Attaching → Reply × Attaching
advance_attachment calls a = with_state calls a.attachment a

-- `cancel_attachment`: a verifier that cannot be removed keeps the attachment.
abbrev pub cancelled : Call → Attaching → Reply × Attaching
cancelled (failure e) a = (failed e, a)
cancelled done a = (complete, record a { attachment = none })

abbrev pub verifier_removal : Option AttachmentState → Call → Call
verifier_removal none call = done
verifier_removal (some s) call = remove s.verifying
  where
    remove : Option Verification → Call
    remove none = done
    remove (some v) = call

unfoldable pub cancel_attachment : Call → Attaching → Reply × Attaching
cancel_attachment call a =
    cancelled (verifier_removal a.attachment call)
      (record a { manager = set_ready false a.manager })
