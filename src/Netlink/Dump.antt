-- ===== src/Netlink/Dump.antt =====
-- crates/fluxd/src/netlink/wire.rs: acknowledgements, and the assembly of a dump from datagrams.
pub mod Boundaries
pub mod Completion
use Prim.Native.Nat.{bit_and}
use flux_rs.Base.{
  ℕ, ◌+◌, ◌-◌, ◌^◌, ◌≡◌, ◌≢◌, ◌↔◌, ◌⊎◌, inl, inr, refl, ap, Bool, true, false, not, ◌||◌, ◌&&◌,
  List, [], ◌∷◌, ◌++◌, All, ◌==◌, if◌then◌else◌, arith,
}
use flux_rs.Snapshot.{try_from_parts, TrustedSnapshot}
use flux_rs.Snapshot
use flux_rs.Netlink.{
  RawMessage, Error, Result, ok, err, ◌⟫◌, short_ack, os_error, overrun, dump_interrupted,
  dump_truncated, incomplete_dump,
}
use flux_rs.Netlink.Bytes.{word32}

abbrev pub nlmsg_noop : ℕ
nlmsg_noop = 1

abbrev pub nlmsg_error : ℕ
nlmsg_error = 2

abbrev pub nlmsg_done : ℕ
nlmsg_done = 3

abbrev pub nlmsg_overrun : ℕ
nlmsg_overrun = 4

abbrev pub nlm_f_dump_intr : ℕ
nlm_f_dump_intr = 0x10

-- `i32::saturating_neg` on the bit pattern.
abbrev pub saturating_neg : ℕ → ℕ
saturating_neg n = if n == 2 ^ 31 then 2 ^ 31 - 1 else 2 ^ 32 - n

unfoldable pub parse_ack : List ℕ → Result (Unit {0})
parse_ack (a ∷ b ∷ c ∷ d ∷ rest) =
    if word32 a b c d == 0 then ok tt else err (os_error (saturating_neg (word32 a b c d)))
parse_ack payload = err short_ack

unfoldable pub parse_done_status : List ℕ → ℕ
parse_done_status (a ∷ b ∷ c ∷ d ∷ rest) = word32 a b c d
parse_done_status payload = 0

abbrev pub is_interrupted : RawMessage → Bool
is_interrupted m = not (bit_and m.flags nlm_f_dump_intr == 0)

abbrev pub any_interrupted : List RawMessage → Bool
any_interrupted [] = false
any_interrupted (m ∷ ms) = is_interrupted m || any_interrupted ms

abbrev pub into_inner :
    Snapshot.Result (TrustedSnapshot (List RawMessage)) → Result (List RawMessage)
into_inner (Snapshot.ok s) = ok s.inner
into_inner (Snapshot.err e) = err incomplete_dump

unfoldable pub finish_dump : List RawMessage → RawMessage → Bool → Result (List RawMessage)
finish_dump items done truncated = into_inner (
    try_from_parts items (is_interrupted done || any_interrupted items) truncated false
      (parse_done_status done.payload))

pub data DumpFeed : Type 0 where
  need_more complete : List RawMessage → DumpFeed

abbrev pub completed : Result (List RawMessage) → Result DumpFeed
completed r = r ⟫ λ items. ok (complete items)

-- The loop of `feed_dump` over the messages of one datagram.
unfoldable pub feed_messages : List RawMessage → List RawMessage → Result DumpFeed
feed_messages items [] = ok (need_more items)
feed_messages items (m ∷ ms) =
    let later = feed_messages items ms in
    let kept = feed_messages (items ++ (m ∷ [])) ms in
    if m.kind == nlmsg_done
    then completed (finish_dump items m false)
    else if m.kind == nlmsg_error
    then (parse_ack m.payload ⟫ λ u. later)
    else if m.kind == nlmsg_overrun
    then err overrun
    else if m.kind == nlmsg_noop
    then later
    else if is_interrupted m
    then err dump_interrupted
    else kept

unfoldable pub feed_dump : List RawMessage → List RawMessage → Bool → Result DumpFeed
unfolding feed_messages
feed_dump items messages truncated =
    if truncated then err dump_truncated else feed_messages items messages
