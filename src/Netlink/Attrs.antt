-- ===== src/Netlink/Attrs.antt =====
-- crates/fluxd/src/netlink/wire.rs: the message builder, and the parser of attributes.
pub mod Roundtrip
use Prim.Native.Nat.{bit_and, bit_or}
use flux_rs.Base.{
  ℕ, zero, suc, ◌+◌, ◌-◌, ◌^◌, ◌≤◌, ◌<◌, ◌≡◌, ◌≢◌, refl, ap, Bool, true, false, not, ◌||◌, ◌==◌,
  ltb, if◌then◌else◌, Option, none, some, List, [], ◌∷◌, ◌++◌, length, arith,
}
use flux_rs.Netlink.{
  Error, Result, ok, err, stuck, ◌⟫◌, truncated_attr_header, invalid_attr_length,
  truncated_attr_padding, wrong_attr_size, not_nul_terminated, embedded_nul, not_utf8,
}
use flux_rs.Netlink.Bytes.{take, drop, zeros, le16, le32, word16, word32, align4}

abbrev pub nla_f_nested : ℕ
nla_f_nested = 2 ^ 15

-- `!(NLA_F_NESTED | (1 << 14))` on a `u16`.
abbrev pub nla_type_mask : ℕ
nla_type_mask = 2 ^ 14 - 1

-- `nested` holds the offsets of the open attributes, the innermost first.
pub record MessageBuilder : Type 0 where
  pub bytes : List ℕ
  pub nested : List ℕ

-- `resize(align4(len), 0)`.
abbrev pub padded : List ℕ → List ℕ
padded bytes = bytes ++ zeros (align4 (length bytes) - length bytes)

unfoldable pub new : ℕ → ℕ → ℕ → List ℕ → MessageBuilder
new kind flags seq payload = record {
  bytes = le32 0 ++ (le16 kind ++ (le16 flags ++ (le32 seq ++ (le32 0 ++ payload))));
  nested = [];
}

unfoldable pub attr : MessageBuilder → ℕ → List ℕ → MessageBuilder
attr b kind payload = record {
  bytes = padded (b.bytes ++ (le16 (4 + length payload) ++ (le16 kind ++ payload)));
  nested = b.nested;
}

unfoldable pub attr_u32 : MessageBuilder → ℕ → ℕ → MessageBuilder
unfolding attr
attr_u32 b kind value = attr b kind (le32 value)

unfoldable pub attr_cstr : MessageBuilder → ℕ → List ℕ → MessageBuilder
unfolding attr
attr_cstr b kind text = attr b kind (text ++ (0 ∷ []))

unfoldable pub begin_nested : MessageBuilder → ℕ → MessageBuilder
begin_nested b kind = record {
  bytes = b.bytes ++ (le16 0 ++ le16 (bit_or kind nla_f_nested));
  nested = length b.bytes ∷ b.nested;
}

unfoldable pub nested_payload : MessageBuilder → List ℕ → MessageBuilder
nested_payload b payload = record { bytes = b.bytes ++ payload; nested = b.nested }

-- `bytes[start..start + word.len()].copy_from_slice(word)`.
abbrev pub write_at : List ℕ → ℕ → List ℕ → List ℕ
write_at bytes start word = take start bytes ++ (word ++ drop (start + length word) bytes)

abbrev close_nested : List ℕ → List ℕ → Option MessageBuilder
close_nested bytes [] = none
close_nested bytes (start ∷ nested) = some (record {
  bytes = padded (write_at bytes start (le16 (length bytes - start)));
  nested = nested;
})

-- `none` is the panic on unbalanced attributes.
unfoldable pub end_nested : MessageBuilder → Option MessageBuilder
end_nested b = close_nested b.bytes b.nested

abbrev sealed : List ℕ → List ℕ → Option (List ℕ)
sealed bytes [] = some (write_at bytes 0 (le32 (length bytes)))
sealed bytes (start ∷ nested) = none

-- `none` is the panic on an attribute left open.
unfoldable pub finish : MessageBuilder → Option (List ℕ)
finish b = sealed b.bytes b.nested

pub record Attr : Type 0 where
  pub kind : ℕ
  pub nested : Bool
  pub payload : List ℕ

abbrev pub decode_attr : ℕ → List ℕ → Attr
decode_attr raw_kind payload = record {
  kind = bit_and raw_kind nla_type_mask;
  nested = not (bit_and raw_kind nla_f_nested == 0);
  payload = payload;
}

-- The loop of `attrs`; `fuel` bounds its rounds.
unfoldable pub attrs_from : ℕ → List ℕ → Result (List Attr)
attrs_from fuel [] = ok []
attrs_from zero (a ∷ rest) = stuck
attrs_from (suc fuel) (a ∷ b ∷ c ∷ d ∷ rest) =
    let bytes = a ∷ b ∷ c ∷ d ∷ rest in
    let len = word16 a b in
    let here = decode_attr (word16 c d) (take (len - 4) rest) in
    let later = attrs_from fuel (drop (align4 len) bytes) in
    if ltb len 4 || ltb (length bytes) len
    then err invalid_attr_length
    else if ltb (length bytes) (align4 len)
    then (if len == length bytes then ok (here ∷ []) else err truncated_attr_padding)
    else (later ⟫ λ out. ok (here ∷ out))
attrs_from (suc fuel) (a ∷ rest) = err truncated_attr_header

-- A round takes at least four bytes, so one round for each byte is enough.
unfoldable pub attrs : List ℕ → Result (List Attr)
unfolding attrs_from
attrs bytes = attrs_from (length bytes) bytes

unfoldable pub read_u32 : Attr → Result ℕ
read_u32 a = word_of a.payload
  where
    word_of : List ℕ → Result ℕ
    word_of (a ∷ b ∷ c ∷ d ∷ []) = ok (word32 a b c d)
    word_of payload = err wrong_attr_size

unfoldable pub read_u16 : Attr → Result ℕ
read_u16 a = word_of a.payload
  where
    word_of : List ℕ → Result ℕ
    word_of (a ∷ b ∷ []) = ok (word16 a b)
    word_of payload = err wrong_attr_size

abbrev pub contains_zero : List ℕ → Bool
contains_zero [] = false
contains_zero (x ∷ xs) = (x == 0) || contains_zero xs

abbrev before : ℕ → Option (List ℕ) → Option (List ℕ)
before x none = none
before x (some text) = some (x ∷ text)

-- The text before a final NUL: `split_last` with a zero.
abbrev pub split_nul : List ℕ → Option (List ℕ)
split_nul [] = none
split_nul (x ∷ []) = if x == 0 then some [] else none
split_nul (x ∷ y ∷ ys) = before x (split_nul (y ∷ ys))

-- `str::from_utf8` is the parameter `is_utf8`.
unfoldable pub read_cstr : (List ℕ → Bool) → Attr → Result (List ℕ)
read_cstr is_utf8 a = text_of (split_nul a.payload)
  where
    text_of : Option (List ℕ) → Result (List ℕ)
    text_of none = err not_nul_terminated
    text_of (some text) =
        if contains_zero text
        then err embedded_nul
        else if is_utf8 text
        then ok text
        else err not_utf8
