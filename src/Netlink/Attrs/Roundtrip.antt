-- ===== src/Netlink/Attrs/Roundtrip.antt =====
-- What the message builder writes, the attribute parser reads back.
use Prim.Native.Nat.{bit_and}
use flux_rs.Base.{
  ℕ, zero, suc, ◌+◌, ◌-◌, ◌*◌, ◌/◌, ◌%◌, ◌^◌, ◌≤◌, ◌<◌, ◌≡◌, ◌≢◌, refl, sym, ap, ◌∙◌, Bool, true,
  false, not, ◌||◌, ◌==◌, ltb, if◌then◌else◌, List, [], ◌∷◌, ◌++◌, length, length-append, All,
  arith,
}
use mathlib.Core.List.{append_assoc, append-nil}
use flux_rs.Base.Bits.{bit_and-low, bit_and-shifted}
use flux_rs.Netlink.Fuel.{bind_ok, later_or_known}
use flux_rs.Netlink.{Error, Result, ok, err, stuck, ◌⟫◌}
use flux_rs.Netlink.Bytes.{
  take, drop, zeros, le16, word16, align4, align4_lem, take-append, drop-append, word16-le16,
  length-zeros, length-drop,
}
use flux_rs.Netlink.Attrs.{
  MessageBuilder, Attr, attr, attrs_from, attrs, decode_attr, nla_type_mask, nla_f_nested,
}

-- One round for each byte is enough, whatever the bytes.
pub attrs_from-enough :
    (fuel : ℕ) (bytes : List ℕ)
    → length bytes ≤ fuel
    → length bytes + 3 < 2 ^ 64
    → attrs_from fuel bytes ≢ stuck
unfolding attrs_from
attrs_from-enough fuel [] h k e = ground arith
attrs_from-enough zero (a ∷ rest) h k e = omega arith
attrs_from-enough (suc fuel) (a ∷ []) h k e = ground arith
attrs_from-enough (suc fuel) (a ∷ b ∷ []) h k e = ground arith
attrs_from-enough (suc fuel) (a ∷ b ∷ c ∷ []) h k e = ground arith
attrs_from-enough (suc fuel) (a ∷ b ∷ c ∷ d ∷ rest) h k e =
    let bytes = a ∷ b ∷ c ∷ d ∷ rest in
    let size = align4 (word16 a b) in
    let here = decode_attr (word16 c d) (take (word16 a b - 4) rest) in
    let later : (ltb (word16 a b) 4 || ltb (length bytes) (word16 a b)) ≡ false
        → (attrs_from fuel (drop size bytes) ⟫ λ out. ok (here ∷ out)) ≢ stuck =
      λ h0.
        bind_ok (attrs_from fuel (drop size bytes)) (λ out. here ∷ out)
          (attrs_from-enough fuel (drop size bytes)
            (omega (arith, length-drop size bytes, size_bound (word16 a b) (length bytes) h0 k))
            (omega (arith, length-drop size bytes))) in
    later_or_known (ltb (word16 a b) 4 || ltb (length bytes) (word16 a b)) (ltb (length bytes) size)
      (word16 a b == length bytes) _ _ _ _ later e
  where
    size_bound : (len l : ℕ) → (ltb len 4 || ltb l len) ≡ false → l + 3 < 2 ^ 64 → 4 ≤ align4 len
    size_bound len l h k = ground (arith, align4_lem len)

-- Parsing attributes ends with attributes or an error, whatever the bytes, up to the length a slice can
-- have.
pub attrs_total : (bytes : List ℕ) → length bytes < 2 ^ 63 → attrs bytes ≢ stuck
unfolding attrs
attrs_total bytes h = attrs_from-enough (length bytes) bytes (omega arith) (omega arith)

drop_of : (n : ℕ) (xs ys : List ℕ) → length xs ≡ n → drop n (xs ++ ys) ≡ ys
drop_of n xs ys h = ap (λ k. drop k (xs ++ ys)) (sym h) ∙ drop-append xs ys

take_of : (n : ℕ) (xs ys : List ℕ) → length xs ≡ n → take n (xs ++ ys) ≡ xs
take_of n xs ys h = ap (λ k. take k (xs ++ ys)) (sym h) ∙ take-append xs ys

pick_third :
    {A : Type 0} (invalid short whole : Bool) (x y : Error) (a : A) (r : Result A)
    → invalid ≡ false
    → short ≡ false
    → (if invalid then err x else if short then (if whole then ok a else err y) else r) ≡ r
pick_third true short whole x y a r h k = ground arith
pick_third false true whole x y a r h k = ground arith
pick_third false false whole x y a r h k = refl

-- A round on an attribute that is there with its padding.
attrs_from_step :
    (fuel a b c d : ℕ) (rest : List ℕ)
    → 4 ≤ word16 a b
    → word16 a b + 3 < 2 ^ 64
    → align4 (word16 a b) ≤ 4 + length rest
    → attrs_from (suc fuel) (a ∷ b ∷ c ∷ d ∷ rest) ≡ (
        attrs_from fuel (drop (align4 (word16 a b)) (a ∷ b ∷ c ∷ d ∷ rest)) ⟫ λ out.
        ok (decode_attr (word16 c d) (take (word16 a b - 4) rest) ∷ out))
unfolding attrs_from
attrs_from_step fuel a b c d rest h k m =
    let bytes = a ∷ b ∷ c ∷ d ∷ rest in
    pick_third (ltb (word16 a b) 4 || ltb (length bytes) (word16 a b))
      (ltb (length bytes) (align4 (word16 a b))) (word16 a b == length bytes) _ _ _ _
      (ground (arith, align4_lem (word16 a b))) (ground arith)

abbrev pub pad : List ℕ → ℕ
pad payload = align4 (4 + length payload) - (4 + length payload)

abbrev pub encode : Attr → List ℕ
encode a = le16 (4 + length a.payload) ++ (le16 a.kind ++ (a.payload ++ zeros (pad a.payload)))

-- An attribute of the kind the builder writes: a 14-bit kind, not nested, of at most 65535 bytes.
pub record IsPlain (a : Attr) : Type 0 where
  pub low : a.kind < 2 ^ 14
  pub flat : a.nested ≡ false
  pub short : 4 + length a.payload < 2 ^ 16

decode_attr_plain : (a : Attr) → IsPlain a → decode_attr a.kind a.payload ≡ a
decode_attr_plain a h =
    let kind : bit_and a.kind nla_type_mask ≡ a.kind =
      omega (arith, bit_and-low 14 a.kind, h.low) in
    let zero : bit_and a.kind nla_f_nested ≡ 0 =
      omega (arith, bit_and-shifted 15 a.kind 1, bit_and-low 1 (a.kind / 2 ^ 15), h.low) in
    let flat : not (bit_and a.kind nla_f_nested == 0) ≡ a.nested = rw (zero, h.flat) in
    λ i. record { kind = kind i; nested = flat i; payload = a.payload }

length-encode : (a : Attr) → IsPlain a → length (encode a) ≡ align4 (4 + length a.payload)
length-encode a h = omega (
  arith,
  length-append a.payload (zeros (pad a.payload)),
  length-zeros (pad a.payload),
  align4_lem (4 + length a.payload) (omega (arith, h.short)),
)

attrs_from-encode :
    (fuel : ℕ) (a : Attr) (rest : List ℕ)
    → IsPlain a
    → attrs_from (suc fuel) (encode a ++ rest) ≡ (attrs_from fuel rest ⟫ λ out. ok (a ∷ out))
attrs_from-encode fuel a rest h =
    let n = 4 + length a.payload in
    let body = (a.payload ++ zeros (pad a.payload)) ++ rest in
    let l0 = n % 256 in
    let l1 = n / 256 % 256 in
    let k0 = a.kind % 256 in
    let k1 = a.kind / 256 % 256 in
    let size : word16 l0 l1 ≡ n = word16-le16 n h.short in
    let kind : word16 k0 k1 ≡ a.kind = word16-le16 a.kind (omega (arith, h.low)) in
    let payload : take (n - 4) body ≡ a.payload =
      ap (take (n - 4)) (append_assoc a.payload (zeros (pad a.payload)) rest)
      ∙ take_of (n - 4) a.payload (zeros (pad a.payload) ++ rest) (omega arith) in
    let here : decode_attr (word16 k0 k1) (take (word16 l0 l1 - 4) body) ≡ a =
      rw (kind, size, payload, decode_attr_plain a h) in
    let next : drop (align4 (word16 l0 l1)) (encode a ++ rest) ≡ rest =
      rw size (drop_of (align4 n) (encode a) rest (length-encode a h)) in
    let fits : align4 (word16 l0 l1) ≤ 4 + length body =
      rw size (
        omega
          (arith, length-encode a h, length-append (a.payload ++ zeros (pad a.payload)) rest)) in
    attrs_from_step fuel l0 l1 k0 k1 body (omega (arith, size)) (omega (arith, size, h.short)) fits
    ∙ rw (next, here)

-- One `attr` of the builder for each attribute, in order.
abbrev pub attr_all : MessageBuilder → List Attr → MessageBuilder
attr_all b [] = b
attr_all b (a ∷ more) = attr_all (attr b a.kind a.payload) more

abbrev pub encode_all : List Attr → List ℕ
encode_all [] = []
encode_all (a ∷ more) = encode a ++ encode_all more

attr-bytes :
    (b : MessageBuilder) (a : Attr)
    → IsPlain a
    → length b.bytes % 4 ≡ 0
    → length b.bytes < 2 ^ 63
    → (attr b a.kind a.payload).bytes ≡ b.bytes ++ encode a
unfolding attr
attr-bytes b a h k m =
    let body = le16 (4 + length a.payload) ++ (le16 a.kind ++ a.payload) in
    let size : length (b.bytes ++ body) ≡ length b.bytes + (4 + length a.payload) =
      omega (arith, length-append b.bytes body) in
    let gap : align4 (length (b.bytes ++ body)) - length (b.bytes ++ body) ≡ pad a.payload =
      rw size (
        omega (
          arith,
          k,
          align4_lem (length b.bytes + (4 + length a.payload)) (omega (arith, h.short)),
          align4_lem (4 + length a.payload) (omega (arith, h.short)),
        )) in
    ap (λ n. (b.bytes ++ body) ++ zeros n) gap ∙ append_assoc b.bytes body (zeros (pad a.payload))

pub attr_all-bytes :
    (b : MessageBuilder) (more : List Attr)
    → All IsPlain more
    → length b.bytes % 4 ≡ 0
    → length b.bytes + 2 ^ 16 * length more < 2 ^ 63
    → (attr_all b more).bytes ≡ b.bytes ++ encode_all more
attr_all-bytes b [] h k m = sym (append-nil b.bytes)
attr_all-bytes b (a ∷ more) h k m =
    let here : (attr b a.kind a.payload).bytes ≡ b.bytes ++ encode a =
      attr-bytes b a h.0 k (omega arith) in
    let size : length (attr b a.kind a.payload).bytes
        ≡ length b.bytes + (4 + length a.payload + 3) / 4 * 4 =
      rw here (
        omega (
          arith,
          length-append b.bytes (encode a),
          length-encode a h.0,
          align4_lem (4 + length a.payload) (omega (arith, h.0.short)),
        )) in
    attr_all-bytes (attr b a.kind a.payload) more h.1 (omega (arith, k, size))
      (omega (arith, size, h.0.short))
    ∙ (ap (λ t. t ++ encode_all more) here ∙ append_assoc b.bytes (encode a) (encode_all more))

attrs_from-encode_all :
    (fuel : ℕ) (more : List Attr)
    → All IsPlain more
    → length more ≤ fuel
    → attrs_from fuel (encode_all more) ≡ ok more
unfolding attrs_from
attrs_from-encode_all fuel [] h k = refl
attrs_from-encode_all zero (a ∷ more) h k = absurd (omega arith)
attrs_from-encode_all (suc fuel) (a ∷ more) h k =
    attrs_from-encode fuel a (encode_all more) h.0
    ∙ rw (attrs_from-encode_all fuel more h.1 (omega arith))

length-encode_all : (more : List Attr) → length more ≤ length (encode_all more)
length-encode_all [] = omega arith
length-encode_all (a ∷ more) =
    omega (arith, length-append (encode a) (encode_all more), length-encode_all more)

-- What the builder appends for a list of attributes, the parser reads back: each attribute with its
-- kind and its payload, in order, when the message so far has a length divisible by 4, and each has a
-- 14-bit kind and fits 16 bits with its header.
pub attrs-attr_all :
    (b : MessageBuilder) (more : List Attr)
    → All IsPlain more
    → length b.bytes % 4 ≡ 0
    → length b.bytes + 2 ^ 16 * length more < 2 ^ 63
    → attrs (drop (length b.bytes) (attr_all b more).bytes) ≡ ok more
unfolding attrs
attrs-attr_all b more h k m =
    rw (attr_all-bytes b more h k m, drop-append b.bytes (encode_all more))
      (attrs_from-encode_all (length (encode_all more)) more h (length-encode_all more))
