-- ===== src/Netlink/Datagram.antt =====
-- crates/fluxd/src/netlink/wire.rs: the messages of one datagram.
pub mod Parsing
pub mod Roundtrip
use flux_rs.Base.{
  ℕ, zero, suc, ◌+◌, ◌-◌, Bool, ◌||◌, ◌==◌, ltb, if◌then◌else◌, Option, none, some, List, [], ◌∷◌,
  ◌++◌, length,
}
use flux_rs.Netlink.{
  RawMessage, Result, ok, err, stuck, ◌⟫◌, short_payload, truncated_msg_header, invalid_msg_length,
  truncated_msg_padding,
}
use flux_rs.Netlink.Bytes.{take, drop, word16, word32, align4}

pub record NlMsgHdr : Type 0 where
  pub len : ℕ
  pub kind : ℕ
  pub flags : ℕ
  pub seq : ℕ
  pub pid : ℕ

-- `read_struct::<NlMsgHdr>`: sixteen bytes, each word in native order.
abbrev pub header_of : List ℕ → Option NlMsgHdr
header_of (l0 ∷ l1 ∷ l2 ∷ l3 ∷ k0 ∷ k1 ∷ f0 ∷ f1 ∷ s0 ∷ s1 ∷ s2 ∷ s3 ∷ p0 ∷ p1 ∷ p2 ∷ p3 ∷ rest) =
    some (record {
      len = word32 l0 l1 l2 l3;
      kind = word16 k0 k1;
      flags = word16 f0 f1;
      seq = word32 s0 s1 s2 s3;
      pid = word32 p0 p1 p2 p3;
    })
header_of bytes = none

abbrev pub read_struct {ℓ} : {A : Type ℓ} → Option A → Result A
read_struct none = err short_payload
read_struct (some a) = ok a

abbrev pub read_header : List ℕ → Result NlMsgHdr
read_header bytes = read_struct (header_of bytes)

abbrev pub raw_message : NlMsgHdr → List ℕ → RawMessage
raw_message header bytes = record {
  kind = header.kind;
  flags = header.flags;
  seq = header.seq;
  pid = header.pid;
  payload = drop 16 (take header.len bytes);
}

-- One round of the loop: `bytes` are the bytes from `offset` on, `later` the rest of the loop.
abbrev pub parse_message :
    List ℕ → (ℕ → Result (List RawMessage)) → NlMsgHdr → Result (List RawMessage)
parse_message bytes later header =
    let here = raw_message header bytes in
    let advance = align4 header.len in
    if ltb header.len 16 || ltb (length bytes) header.len
    then err invalid_msg_length
    else if ltb (length bytes) advance
    then (if header.len == length bytes then ok (here ∷ []) else err truncated_msg_padding)
    else (later advance ⟫ λ out. ok (here ∷ out))

-- The loop of `parse_datagram`; `fuel` bounds its rounds.
unfoldable pub parse_from : ℕ → List ℕ → Result (List RawMessage)
parse_from fuel [] = ok []
parse_from zero (x ∷ rest) = stuck
parse_from (suc fuel) (x ∷ rest) =
    let bytes = x ∷ rest in
    if ltb (length bytes) 16
    then err truncated_msg_header
    else (read_header bytes ⟫ parse_message bytes (λ advance. parse_from fuel (drop advance bytes)))

-- A round takes at least sixteen bytes, so one round for each byte is enough.
unfoldable pub parse_datagram : List ℕ → Result (List RawMessage)
unfolding parse_from
parse_datagram bytes = parse_from (length bytes) bytes
