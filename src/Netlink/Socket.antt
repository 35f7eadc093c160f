-- ===== src/Netlink/Socket.antt =====
-- crates/fluxd/src/netlink/wire.rs: requests on a netlink socket, over the script of what `recvmsg`
-- returns.
pub mod Matching
use flux_rs.Base.{
  ℕ, zero, suc, ◌+◌, ◌%◌, ◌^◌, Bool, true, false, not, ◌&&◌, ◌==◌, if◌then◌else◌, Option, none,
  some, List, [], ◌∷◌, ◌++◌,
}
use flux_rs.Netlink.{
  RawMessage, Result, ok, err, stuck, ◌⟫◌, overrun, dump_truncated, unexpected_port, no_response,
  os_error,
}
use flux_rs.Netlink.Datagram.{parse_datagram}
use flux_rs.Netlink.Dump.{
  DumpFeed, need_more, complete, feed_dump, parse_ack, nlmsg_done, nlmsg_error, nlmsg_overrun,
  nlmsg_noop,
}

pub record RequestSocket : Type 0 where
  pub port_id : ℕ
  pub seq : ℕ
  pub nonblocking : Bool
  pub pending : List RawMessage

-- `wrapping_add(1).max(1)` on a `u32`.
unfoldable pub next_seq : RequestSocket → RequestSocket
next_seq s =
    let next = (s.seq + 1) % 2 ^ 32 in
    record {
      port_id = s.port_id;
      seq = if next == 0 then 1 else next;
      nonblocking = s.nonblocking;
      pending = s.pending;
    }

-- What `recvmsg` returns: an error, or the bytes read and whether they are truncated.
pub data Received : Type 0 where
  failed : ℕ → Received
  datagram : List ℕ → Bool → Received

abbrev pub with_pending : RequestSocket → List RawMessage → RequestSocket
with_pending s pending = record {
  port_id = s.port_id;
  seq = s.seq;
  nonblocking = s.nonblocking;
  pending = pending;
}

-- The messages of one sequence number, and the others, both in order.
unfoldable pub split_seq : ℕ → List RawMessage → List RawMessage × List RawMessage
split_seq seq [] = ([], [])
split_seq seq (m ∷ ms) =
    let later = split_seq seq ms in
    if m.seq == seq then (m ∷ later.0, later.1) else (later.0, m ∷ later.1)

unfoldable pub take_pending : ℕ → RequestSocket → List RawMessage × RequestSocket
unfolding split_seq
take_pending seq s = let parts = split_seq seq s.pending in (parts.0, with_pending s parts.1)

-- The loop of `recv_matching`, with the socket that an early return leaves.
unfoldable pub match_messages :
    ℕ → RequestSocket → List RawMessage → List RawMessage → Result (List RawMessage) × RequestSocket
match_messages seq s matching [] = (ok matching, s)
match_messages seq s matching (m ∷ ms) =
    let skipped = match_messages seq s matching ms in
    let kept = match_messages seq (with_pending s (s.pending ++ (m ∷ []))) matching ms in
    let matched = match_messages seq s (matching ++ (m ∷ [])) ms in
    if not (m.seq == seq)
    then (if s.nonblocking then kept else skipped)
    else if not (m.pid == 0) && not (m.pid == s.port_id)
    then (err unexpected_port, s)
    else matched

abbrev pub match_parsed :
    ℕ → RequestSocket → Result (List RawMessage) → Result (List RawMessage) × RequestSocket
match_parsed seq s (ok ms) = match_messages seq s [] ms
match_parsed seq s (err e) = (err e, s)
match_parsed seq s stuck = (stuck, s)

unfoldable pub recv_matching :
    ℕ → RequestSocket → Received → Result (List RawMessage) × RequestSocket
unfolding match_messages
recv_matching seq s (failed errno) = (err (os_error errno), s)
recv_matching seq s (datagram bytes true) = (err dump_truncated, s)
recv_matching seq s (datagram bytes false) = match_parsed seq s (parse_datagram bytes)

-- `none` without a matching pending message and without a datagram: the call has not returned.
unfoldable pub try_recv : ℕ → RequestSocket → Received → Result (List RawMessage) × RequestSocket
unfolding take_pending recv_matching
try_recv seq s received = pending_or (take_pending seq s)
  where
    pending_or : List RawMessage × RequestSocket → Result (List RawMessage) × RequestSocket
    pending_or ([], t) = recv_matching seq t received
    pending_or (m ∷ ms, t) = (ok (m ∷ ms), t)

-- The loop of `ack` over the batches that `recv` returns; `none` is the loop still waiting.
unfoldable pub ack_messages : List RawMessage → Option (Result (Unit {0}))
ack_messages [] = none
ack_messages (m ∷ ms) =
    let later = ack_messages ms in
    if m.kind == nlmsg_error
    then some (parse_ack m.payload)
    else if m.kind == nlmsg_overrun
    then some (err overrun)
    else later

abbrev pub checked_ack : Result (Unit {0}) → Option (Result RawMessage) → Option (Result RawMessage)
checked_ack (ok u) later = later
checked_ack (err e) later = some (err e)
checked_ack stuck later = some stuck

-- The loop of `request` on the messages of a batch.
unfoldable pub request_messages : List RawMessage → Option (Result RawMessage)
request_messages [] = none
request_messages (m ∷ ms) =
    let later = request_messages ms in
    if m.kind == nlmsg_error
    then checked_ack (parse_ack m.payload) later
    else if m.kind == nlmsg_overrun
    then some (err overrun)
    else if m.kind == nlmsg_noop
    then later
    else if m.kind == nlmsg_done
    then some (err no_response)
    else some (ok m)

abbrev pub returned_or {ℓ} : {A : Type ℓ} → Option A → Option A → Option A
returned_or none later = later
returned_or (some a) later = some a

abbrev pub read_batch {ℓ} :
    {A : Type ℓ}
    → (List RawMessage → Option (Result A))
    → Result (List RawMessage)
    → Option (Result A)
    → Option (Result A)
read_batch body (ok ms) later = returned_or (body ms) later
read_batch body (err e) later = some (err e)
read_batch body stuck later = some stuck

-- The loop over `recv`: each batch is read by `body`, until it returns or `recv` fails.
unfoldable pub receive_until {ℓ} :
    {A : Type ℓ}
    → (List RawMessage → Option (Result A))
    → ℕ
    → RequestSocket
    → List Received
    → Option (Result A)
receive_until body seq s [] = none
receive_until body seq s (r ∷ rs) =
    let received = recv_matching seq s r in
    read_batch body received.0 (receive_until body seq received.1 rs)

unfoldable pub ack : ℕ → RequestSocket → List Received → Option (Result (Unit {0}))
unfolding ack_messages recv_matching
ack seq s rs = receive_until ack_messages seq s rs

unfoldable pub request : ℕ → RequestSocket → List Received → Option (Result RawMessage)
unfolding request_messages recv_matching
request seq s rs = receive_until request_messages seq s rs

-- The loop of `dump`, from the items so far.
unfoldable pub dump :
    ℕ → RequestSocket → List RawMessage → List Received → Option (Result (List RawMessage))
unfolding recv_matching feed_dump
dump seq s out [] = none
dump seq s out (r ∷ rs) =
    fed ((recv_matching seq s r).0 ⟫ λ ms. feed_dump out ms false)
      (λ next. dump seq (recv_matching seq s r).1 next rs)
  where
    fed :
        Result DumpFeed
        → (List RawMessage → Option (Result (List RawMessage)))
        → Option (Result (List RawMessage))
    fed (ok (need_more next)) later = later next
    fed (ok (complete done)) later = some (ok done)
    fed (err e) later = some (err e)
    fed stuck later = some stuck
