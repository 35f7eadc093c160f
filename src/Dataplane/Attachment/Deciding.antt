-- ===== src/Dataplane/Attachment/Deciding.antt =====
-- crates/fluxd/src/dataplane/attachment.rs: every admitted interface is decided after three windows.
use flux_rs.Base.{
  ℕ, suc, ◌+◌, ◌-◌, ◌*◌, ◌≤◌, ◌≡◌, refl, Bool, true, false, not, ◌&&◌, ltb, leb, if◌then◌else◌,
  Option, none, some, List, [], ◌∷◌, length, All, arith,
}
use flux_rs.Dataplane.{Outcome, Result, ok, err, Manager}
use flux_rs.Dataplane.Lifecycle.{
  publish_inactive, publish_last_inactive, clear_module, with_cleared, deactivated,
}
use flux_rs.Dataplane.{LoadedModule, Control, clear_uids}
use flux_rs.Dataplane.Attachment.{
  IfaceStatus, Verification, AttachmentState, Attaching, Reply, complete, wait, Read, value, unread,
  Started, started, refused, Call, failure, Failure, AdvanceCalls, any_active, set_ready,
  after_publication, finish_attachment, start_next_verification, exclude_iface, verification_of,
  tc_verify_window, tc_verify_max_attempts, attachment_reason,
}
use flux_rs.Dataplane.Attachment.Advancing.{
  finish_verified_interface, with_verifying, shadowed, retry, decide, with_counter, with_tx,
  with_verification, with_state, advance_attachment,
}

-- A publication keeps the attachment flag.
abbrev KeepsReady : (m : Manager) (r : Result (Unit {0}) × Manager) → Type 0
KeepsReady m r = r.1.status.attachment_ready ≡ m.status.attachment_ready

with_cleared-KeepsReady : (m : Manager) (r : Result LoadedModule) → KeepsReady m (with_cleared m r)
with_cleared-KeepsReady m (err e) = refl
with_cleared-KeepsReady m (ok k) = refl

clear_module-KeepsReady :
    (call : Outcome) (k : Option LoadedModule) (m : Manager) → KeepsReady m (clear_module call k m)
clear_module-KeepsReady call none m = refl
clear_module-KeepsReady call (some k) m = with_cleared-KeepsReady m (clear_uids call k)

publish_last_inactive-KeepsReady :
    (call : Outcome) (c : Option Control) (m : Manager)
    → KeepsReady m (publish_last_inactive call c m)
publish_last_inactive-KeepsReady call none m = refl
publish_last_inactive-KeepsReady call (some c) m =
    clear_module-KeepsReady call m.kmod (record m { last_control = some (deactivated c) })

publish_inactive-KeepsReady :
    (call : Outcome) (m : Manager) → KeepsReady m (publish_inactive call m)
unfolding publish_inactive
publish_inactive-KeepsReady call m = by_mode m.test_bypass
  where
    by_mode :
        (bypass : Bool)
        → KeepsReady m (if bypass then (ok tt, m) else publish_last_inactive call m.last_control m)
    by_mode true = refl
    by_mode false = publish_last_inactive-KeepsReady call m.last_control m

-- At most `n` further advances decide: either all is decided and the readiness is that of the
-- interfaces, or a verification is pending with that much left.
pub data IsBounded (n : ℕ) (a : Attaching) : Type 0 where
  over :
      a.attachment ≡ none → a.manager.status.attachment_ready ≡ any_active a.ifaces → IsBounded n a
  within :
      (s : AttachmentState) (v : Verification)
      → a.attachment ≡ some s
      → s.verifying ≡ some v
      → v.attempts ≤ 3
      → 3 * length s.pending + (4 - v.attempts) ≤ n
      → IsBounded n a

after_publication-IsBounded :
    (n : ℕ) (is : List IfaceStatus) (r : Result (Unit {0}) × Manager)
    → r.1.status.attachment_ready ≡ any_active is
    → IsBounded n (after_publication is r).1
after_publication-IsBounded n is (err e, m) h = over refl h
after_publication-IsBounded n is (ok u, m) h = over refl h

finish_attachment-IsBounded :
    (n : ℕ) (calls : AdvanceCalls) (a : Attaching) → IsBounded n (finish_attachment calls a).1
unfolding finish_attachment
finish_attachment-IsBounded n calls a =
    by_active (a.manager.status.active && not (any_active a.ifaces))
  where
    m : Manager
    m = set_ready (any_active a.ifaces) a.manager

    by_active :
        (b : Bool)
        → IsBounded n
            (if b
              then after_publication a.ifaces (publish_inactive calls.publish m)
              else (complete, record { manager = m; ifaces = a.ifaces; attachment = none })).1
    by_active true =
        after_publication-IsBounded n a.ifaces (publish_inactive calls.publish m)
          (publish_inactive-KeepsReady calls.publish m)
    by_active false = over refl refl

start_next_verification-IsBounded :
    (n : ℕ) (calls : AdvanceCalls) (pending : List IfaceStatus) (a : Attaching)
    → 3 * length pending ≤ n
    → IsBounded n (start_next_verification calls pending a).1
unfolding start_next_verification
start_next_verification-IsBounded n calls [] a h = finish_attachment-IsBounded n calls a
start_next_verification-IsBounded n calls (iface ∷ rest) a h = by_start (calls.start iface) (λ e.
    start_next_verification-IsBounded n calls rest (exclude_iface iface (attachment_reason e) a)
      (omega arith))
  where
    by_start :
        (r : Started)
        → ((e : Failure)
            → IsBounded n
                (start_next_verification calls rest
                  (exclude_iface iface (attachment_reason e) a)).1)
        → IsBounded n
            (elim r as (λ x. Reply × Attaching) [
              | started pref counter tx ↦ (
                wait tc_verify_window,
                with_verifying rest (some (verification_of iface pref counter tx)) a,
              )
              | refused e ↦
                  start_next_verification calls rest (exclude_iface iface (attachment_reason e) a)
            ]).1
    by_start (started pref counter tx) later =
        within (record { pending = rest; verifying = some (verification_of iface pref counter tx) })
          (verification_of iface pref counter tx) refl refl (omega arith) (omega arith)
    by_start (refused e) later = later e

-- The calls of an advance that can conclude: the counter is read and the verifier removed.
pub record IsConclusive (calls : AdvanceCalls) : Type 0 where
  pub count : ℕ
  pub counter : calls.counter ≡ value count
  pub detach : calls.detach ≡ Call.done

shadowed-IsBounded :
    (n : ℕ) (calls : AdvanceCalls) (pending : List IfaceStatus) (v : Verification) (a : Attaching)
    (call : Call)
    → call ≡ Call.done
    → 3 * length pending ≤ n
    → IsBounded n (shadowed calls pending v a call).1
shadowed-IsBounded n calls pending v a (failure e) h le = ground (arith, h)
shadowed-IsBounded n calls pending v a Call.done h le =
    start_next_verification-IsBounded n calls pending _ le

decide-IsBounded :
    (n : ℕ) (calls : AdvanceCalls) (pending : List IfaceStatus) (v : Verification) (tx counter : ℕ)
    (a : Attaching)
    → calls.detach ≡ Call.done
    → v.attempts ≤ 3
    → 3 * length pending + (4 - v.attempts) ≤ suc n
    → IsBounded n (decide calls pending v tx counter a).1
decide-IsBounded n calls pending v tx counter a d three left =
    by_tests (ltb v.baseline_counter counter) (ltb v.baseline_tx tx)
      (leb tc_verify_max_attempts v.attempts) refl
  where
    next : Attaching
    next = finish_verified_interface calls v (with_verifying pending none a)

    by_tests :
        (seen sent last : Bool)
        → leb tc_verify_max_attempts v.attempts ≡ last
        → IsBounded n
            (if seen
              then start_next_verification calls pending next
              else if sent
              then shadowed calls pending v a calls.detach
              else if last
              then start_next_verification calls pending next
              else (
                wait (retry counter tx v).wait,
                with_verifying pending (some (retry counter tx v)) a,
              )).1
    by_tests true sent last eq =
        start_next_verification-IsBounded n calls pending next (omega arith)
    by_tests false true last eq =
        shadowed-IsBounded n calls pending v a calls.detach d (omega arith)
    by_tests false false true eq =
        start_next_verification-IsBounded n calls pending next (omega arith)
    by_tests false false false eq =
        within (record { pending = pending; verifying = some (retry counter tx v) })
          (retry counter tx v) refl refl (ground (arith, eq)) (ground (arith, eq, left))

with_counter-IsBounded :
    (n count : ℕ) (calls : AdvanceCalls) (pending : List IfaceStatus) (v : Verification) (tx : ℕ)
    (a : Attaching) (r : Read)
    → r ≡ value count
    → calls.detach ≡ Call.done
    → v.attempts ≤ 3
    → 3 * length pending + (4 - v.attempts) ≤ suc n
    → IsBounded n (with_counter calls pending v tx a r).1
with_counter-IsBounded n count calls pending v tx a (unread e) r d three left = ground (arith, r)
with_counter-IsBounded n count calls pending v tx a (value c) r d three left =
    decide-IsBounded n calls pending v tx c a d three left

with_tx-IsBounded :
    (n : ℕ) (calls : AdvanceCalls) (pending : List IfaceStatus) (v : Verification) (a : Attaching)
    (r : Read)
    → IsConclusive calls
    → v.attempts ≤ 3
    → 3 * length pending + (4 - v.attempts) ≤ suc n
    → IsBounded n (with_tx calls pending v a r).1
with_tx-IsBounded n calls pending v a (unread e) c three left =
    start_next_verification-IsBounded n calls pending _ (omega arith)
with_tx-IsBounded n calls pending v a (value tx) c three left =
    with_counter-IsBounded n c.count calls pending v tx a calls.counter c.counter c.detach three
      left

with_verification-IsBounded :
    (n : ℕ) (calls : AdvanceCalls) (pending : List IfaceStatus) (o : Option Verification)
    (v : Verification) (a : Attaching)
    → IsConclusive calls
    → o ≡ some v
    → v.attempts ≤ 3
    → 3 * length pending + (4 - v.attempts) ≤ suc n
    → IsBounded n (with_verification calls pending o a).1
with_verification-IsBounded n calls pending none v a c eq three left = ground (arith, eq)
with_verification-IsBounded n calls pending (some w) v a c eq three left =
    let same : w ≡ v = ground arith in
    with_tx-IsBounded n calls pending w a calls.tx c (rw same three) (rw same left)

with_state-IsBounded :
    (n : ℕ) (calls : AdvanceCalls) (s : Option AttachmentState) (a : Attaching)
    → IsConclusive calls
    → a.attachment ≡ s
    → IsBounded (suc n) a
    → IsBounded n (with_state calls s a).1
with_state-IsBounded n calls none a c eq (over gone ready) = over gone ready
with_state-IsBounded n calls (some s) a c eq (over gone ready) = ground (arith, eq, gone)
with_state-IsBounded n calls none a c eq (within t v found verifying three left) =
    ground (arith, eq, found)
with_state-IsBounded n calls (some s) a c eq (within t v found verifying three left) =
    let same : s ≡ t = ground arith in
    with_verification-IsBounded n calls s.pending s.verifying v a c (rw same verifying) three
      (rw same left)

-- The advances of an attachment, one for each expiry of its timer.
unfoldable pub advance_all : List AdvanceCalls → Attaching → Attaching
advance_all [] a = a
advance_all (c ∷ cs) a = advance_all cs (advance_attachment c a).1

decided_by :
    (calls : List AdvanceCalls) (a : Attaching)
    → All IsConclusive calls
    → IsBounded (length calls) a
    → IsBounded 0 (advance_all calls a)
unfolding advance_all advance_attachment
decided_by [] a c b = b
decided_by (call ∷ calls) a c b =
    decided_by calls (advance_attachment call a).1 c.1
      (with_state-IsBounded (length calls) call a.attachment a c.0 refl b)

-- Decided: no attachment is under way, and it is ready exactly when an interface is active.
pub record IsDecided (a : Attaching) : Type 0 where
  pub done : a.attachment ≡ none
  pub ready : a.manager.status.attachment_ready ≡ any_active a.ifaces

bounded_zero : (a : Attaching) → IsBounded 0 a → IsDecided a
bounded_zero a (over gone ready) = record { done = gone; ready = ready }
bounded_zero a (within s v found verifying three left) = ground (arith, three, left)

-- The verification of the interfaces ends: from a start over any queue, three expiries of the timer
-- for each interface of the queue, with the counter read and the verifiers removed and whatever else
-- the system calls return, leave no attachment under way, and it is then ready exactly when some
-- interface is active.
pub start_next_verification-IsDecided :
    (first : AdvanceCalls) (pending : List IfaceStatus) (a : Attaching) (calls : List AdvanceCalls)
    → All IsConclusive calls
    → length calls ≡ 3 * length pending
    → IsDecided (advance_all calls (start_next_verification first pending a).1)
start_next_verification-IsDecided first pending a calls c eq = bounded_zero _ (
    decided_by calls (start_next_verification first pending a).1 c
      (start_next_verification-IsBounded (length calls) first pending a (omega arith)))
