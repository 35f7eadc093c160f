-- ===== src/Netlink/Datagram/Roundtrip.antt =====
-- crates/fluxd/src/netlink/wire.rs: a message as the builder finishes it, read back as a datagram.
use flux_rs.Base.{
  ℕ, suc, ◌+◌, ◌*◌, ◌%◌, ◌^◌, ◌≤◌, ◌<◌, ◌≡◌, refl, sym, ap, ◌∙◌, Bool, true, false, ◌||◌, ◌==◌, ltb,
  if◌then◌else◌, some, List, [], ◌∷◌, ◌++◌, length, All, arith,
}
use flux_rs.Netlink.{Error, RawMessage, Result, ok, err}
use flux_rs.Netlink.Bytes.{
  take, drop, le16, le32, word16-le16, word32-le32, align4, align4_lem, take-length, drop_all,
}
use flux_rs.Netlink.Attrs.{Attr, MessageBuilder, new, attr, finish}
use flux_rs.Netlink.Attrs.Roundtrip.{IsPlain, attr_all, encode_all, attr_all-bytes}
use flux_rs.Netlink.Datagram.{
  NlMsgHdr, read_header, raw_message, parse_message, parse_from, parse_datagram,
}

-- The bytes of a message: its header with the length of the whole, and its payload.
abbrev pub encode_message : ℕ → ℕ → ℕ → List ℕ → List ℕ
encode_message kind flags seq payload =
    le32 (16 + length payload) ++ (le16 kind ++ (le16 flags ++ (le32 seq ++ (le32 0 ++ payload))))

pick_last :
    {A : Type 0} (invalid short whole : Bool) (x y : Error) (a : A) (r : Result A)
    → invalid ≡ false
    → whole ≡ true
    → r ≡ ok a
    → (if invalid then err x else if short then (if whole then ok a else err y) else r) ≡ ok a
pick_last true short whole x y a r h k m = ground arith
pick_last false true true x y a r h k m = refl
pick_last false true false x y a r h k m = ground arith
pick_last false false whole x y a r h k m = m

parse_message-whole :
    (bytes : List ℕ) (later : ℕ → Result (List RawMessage)) (header : NlMsgHdr)
    → header.len ≡ length bytes
    → 16 ≤ length bytes
    → length bytes + 3 < 2 ^ 64
    → ((advance : ℕ) → length bytes ≤ advance → later advance ≡ ok [])
    → parse_message bytes later header ≡ ok (raw_message header bytes ∷ [])
parse_message-whole bytes later header h k m end =
    pick_last (ltb header.len 16 || ltb (length bytes) header.len)
      (ltb (length bytes) (align4 header.len)) (header.len == length bytes) _ _ _ _ (ground arith)
      (ground arith)
      (rw (end (align4 header.len) (omega (arith, h, align4_lem header.len (omega (arith, h))))))

parse_from-whole :
    (fuel : ℕ) (x : ℕ) (rest : List ℕ) (header : NlMsgHdr)
    → read_header (x ∷ rest) ≡ ok header
    → header.len ≡ length (x ∷ rest)
    → 16 ≤ length (x ∷ rest)
    → length (x ∷ rest) + 3 < 2 ^ 64
    → parse_from (suc fuel) (x ∷ rest) ≡ ok (raw_message header (x ∷ rest) ∷ [])
unfolding parse_from
parse_from-whole fuel x rest header read h k m =
    let bytes = x ∷ rest in
    let long : ltb (length bytes) 16 ≡ false = ground arith in
    let end : (advance : ℕ)
        → length bytes ≤ advance
        → parse_from fuel (drop advance bytes) ≡ ok [] =
      λ advance big. ap (parse_from fuel) (drop_all advance bytes big) in
    rw (long, read)
      (parse_message-whole bytes (λ advance. parse_from fuel (drop advance bytes)) header h k m end)

parse_datagram-whole :
    (bytes : List ℕ) (header : NlMsgHdr)
    → read_header bytes ≡ ok header
    → header.len ≡ length bytes
    → 16 ≤ length bytes
    → length bytes + 3 < 2 ^ 64
    → parse_datagram bytes ≡ ok (raw_message header bytes ∷ [])
unfolding parse_datagram
parse_datagram-whole [] header read h k m = absurd (omega arith)
parse_datagram-whole (x ∷ rest) header read h k m =
    parse_from-whole (length rest) x rest header read h k m

length-encode_message :
    (kind flags seq : ℕ) (payload : List ℕ)
    → length (encode_message kind flags seq payload) ≡ 16 + length payload
length-encode_message kind flags seq payload = omega arith

read_header-encode_message :
    (kind flags seq : ℕ) (payload : List ℕ)
    → kind < 2 ^ 16
    → flags < 2 ^ 16
    → seq < 2 ^ 32
    → 16 + length payload < 2 ^ 32
    → read_header (encode_message kind flags seq payload)
      ≡ ok (record { len = 16 + length payload; kind = kind; flags = flags; seq = seq; pid = 0 })
read_header-encode_message kind flags seq payload hk hf hs hp = λ i. ok (record {
  len = word32-le32 (16 + length payload) hp i;
  kind = word16-le16 kind hk i;
  flags = word16-le16 flags hf i;
  seq = word32-le32 seq hs i;
  pid = 0;
})

parse_datagram-encode_message :
    (kind flags seq : ℕ) (payload : List ℕ)
    → kind < 2 ^ 16
    → flags < 2 ^ 16
    → seq < 2 ^ 32
    → 16 + length payload < 2 ^ 32
    → parse_datagram (encode_message kind flags seq payload)
      ≡ ok (record { kind = kind; flags = flags; seq = seq; pid = 0; payload = payload } ∷ [])
parse_datagram-encode_message kind flags seq payload hk hf hs hp =
    let bytes = encode_message kind flags seq payload in
    let size : 16 + length payload ≡ length bytes =
      sym (length-encode_message kind flags seq payload) in
    let kept : drop 16 (take (16 + length payload) bytes) ≡ payload =
      ap (drop 16) (ap (λ n. take n bytes) size ∙ take-length bytes) in
    parse_datagram-whole bytes
      (record { len = 16 + length payload; kind = kind; flags = flags; seq = seq; pid = 0 })
      (read_header-encode_message kind flags seq payload hk hf hs hp) size (omega (arith, size))
      (omega (arith, size))
    ∙ λ i. ok (record { kind = kind; flags = flags; seq = seq; pid = 0; payload = kept i } ∷ [])

attr_all-nested : (b : MessageBuilder) (more : List Attr) → (attr_all b more).nested ≡ b.nested
unfolding attr
attr_all-nested b [] = refl
attr_all-nested b (a ∷ more) = attr_all-nested (attr b a.kind a.payload) more

finish-encode_message :
    (b : MessageBuilder) (kind flags seq : ℕ) (payload : List ℕ)
    → b.nested ≡ []
    → b.bytes ≡ (new kind flags seq payload).bytes
    → finish b ≡ some (encode_message kind flags seq payload)
unfolding finish new
finish-encode_message b kind flags seq payload h k =
    rw (h, k)
      (ap (λ n. some (le32 n ++ (le16 kind ++ (le16 flags ++ (le32 seq ++ (le32 0 ++ payload))))))
        (sixteen payload))
  where
    sixteen : (xs : List ℕ) → length (new kind flags seq xs).bytes ≡ 16 + length xs
    sixteen xs = omega arith

-- A message built from a header, a payload of a length divisible by 4 and plain attributes is
-- finished, and as a datagram parses to that one message, from port 0: its kind, flags and sequence
-- number, and the payload with the encoded attributes.
pub parse_datagram-finish :
    (kind flags seq : ℕ) (payload : List ℕ) (more : List Attr)
    → kind < 2 ^ 16
    → flags < 2 ^ 16
    → seq < 2 ^ 32
    → All IsPlain more
    → length payload % 4 ≡ 0
    → 16 + length (payload ++ encode_all more) < 2 ^ 32
    → length payload + 2 ^ 16 * length more < 2 ^ 62
    → (finish (attr_all (new kind flags seq payload) more)
        ≡ some (encode_message kind flags seq (payload ++ encode_all more)))
      × (parse_datagram (encode_message kind flags seq (payload ++ encode_all more))
          ≡ ok (
              record {
                kind = kind;
                flags = flags;
                seq = seq;
                pid = 0;
                payload = payload ++ encode_all more;
              }
              ∷ []))
unfolding new
parse_datagram-finish kind flags seq payload more hk hf hs plain aligned short fits =
    let b = new kind flags seq payload in
    let body = payload ++ encode_all more in
    let size : length b.bytes ≡ 16 + length payload = omega arith in
    (
      finish-encode_message (attr_all b more) kind flags seq body (attr_all-nested b more)
          (attr_all-bytes b more plain (omega (arith, size, aligned)) (omega (arith, size))),
      parse_datagram-encode_message kind flags seq body hk hf hs short,
    )
