-- ===== src/Netlink/Datagram/Parsing.antt =====
-- crates/fluxd/src/netlink/wire.rs: the parser of datagrams comes to an end.
use flux_rs.Base.{
  ℕ, zero, suc, ◌+◌, ◌^◌, ◌≤◌, ◌<◌, ◌≡◌, ◌≢◌, refl, Bool, true, false, ◌||◌, ◌==◌, ltb,
  if◌then◌else◌, Option, none, some, List, [], ◌∷◌, length, arith,
}
use flux_rs.Netlink.{RawMessage, Result, ok, err, stuck, ◌⟫◌, truncated_msg_header}
use flux_rs.Netlink.Bytes.{drop, align4, align4_lem, length-drop}
use flux_rs.Netlink.Fuel.{bind_ok, later_or_known}
use flux_rs.Netlink.Datagram.{
  NlMsgHdr, read_header, header_of, read_struct, raw_message, parse_message, parse_from,
  parse_datagram,
}

size_bound : (len l : ℕ) → (ltb len 16 || ltb l len) ≡ false → l + 3 < 2 ^ 64 → 16 ≤ align4 len
size_bound len l h k = ground (arith, align4_lem len)

parse_message-enough :
    (bytes : List ℕ) (later : ℕ → Result (List RawMessage)) (header : NlMsgHdr)
    → length bytes + 3 < 2 ^ 64
    → ((advance : ℕ) → 16 ≤ advance → later advance ≢ stuck)
    → parse_message bytes later header ≢ stuck
parse_message-enough bytes later header h k =
    later_or_known (ltb header.len 16 || ltb (length bytes) header.len)
      (ltb (length bytes) (align4 header.len)) (header.len == length bytes) _ _ _ _
      (λ valid.
        bind_ok (later (align4 header.len)) (λ out. raw_message header bytes ∷ out)
          (k (align4 header.len) (size_bound header.len (length bytes) valid h)))

bind_fine :
    {A B : Type 0} (r : Result A) (f : A → Result B)
    → r ≢ stuck
    → ((a : A) → f a ≢ stuck)
    → (r ⟫ f) ≢ stuck
bind_fine (ok a) f h k e = k a e
bind_fine (err x) f h k e = ground arith
bind_fine stuck f h k e = h refl

read_struct-fine : {A : Type 0} (o : Option A) → read_struct o ≢ stuck
read_struct-fine none e = ground arith
read_struct-fine (some a) e = ground arith

parse_from-enough :
    (fuel : ℕ) (bytes : List ℕ)
    → length bytes ≤ fuel
    → length bytes + 3 < 2 ^ 64
    → parse_from fuel bytes ≢ stuck
unfolding parse_from
parse_from-enough fuel [] h k e = ground arith
parse_from-enough zero (x ∷ rest) h k e = omega arith
parse_from-enough (suc fuel) (x ∷ rest) h k e =
    let bytes = x ∷ rest in
    long_enough (ltb (length bytes) 16) _
      (bind_fine (read_header bytes)
        (parse_message bytes (λ advance. parse_from fuel (drop advance bytes)))
        (read_struct-fine (header_of bytes))
        (λ header.
          parse_message-enough bytes (λ advance. parse_from fuel (drop advance bytes)) header k
            (λ advance big.
              parse_from-enough fuel (drop advance bytes) (omega (arith, length-drop advance bytes))
                (omega (arith, length-drop advance bytes)))))
      e
  where
    long_enough :
        (short : Bool) (r : Result (List RawMessage))
        → r ≢ stuck
        → (if short then err truncated_msg_header else r) ≢ stuck
    long_enough true r h e = ground arith
    long_enough false r h e = h e

-- Parsing a datagram ends with messages or an error, whatever its bytes, up to the length a slice can
-- have.
pub parse_datagram_total : (bytes : List ℕ) → length bytes < 2 ^ 63 → parse_datagram bytes ≢ stuck
unfolding parse_datagram
parse_datagram_total bytes h = parse_from-enough (length bytes) bytes (omega arith) (omega arith)
