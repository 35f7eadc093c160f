-- ===== src/Netlink/Route/Filters.antt =====
-- crates/fluxd/src/netlink/route.rs: queueing disciplines and filters, and whose filter one is.
use Prim.Native.Nat.{bit_and}
use flux_rs.Base.{
  ℕ, ◌+◌, ◌*◌, ◌/◌, ◌%◌, Bool, true, false, not, ◌&&◌, ◌||◌, ◌==◌, leb, if◌then◌else◌, Option, none,
  some, List, [], ◌∷◌, length,
}
use flux_rs.Base.Text.{text_eq}
use flux_rs.Netlink.{Result, ok, ◌⟫◌}
use flux_rs.Netlink.Bytes.{drop, word32}
use flux_rs.Netlink.Attrs.{Attr, attrs, read_u32, read_cstr}
use flux_rs.Netlink.Datagram.{read_struct}
use flux_rs.Netlink.Route.{for_each}
use flux_rs.Netlink.Route.Links.{positive_index}

-- `to_be` and `from_be` of a `u16`.
abbrev pub swap16 : ℕ → ℕ
swap16 n = n % 256 * 256 + n / 256 % 256

unfoldable pub tc_info : ℕ → ℕ → ℕ
tc_info priority protocol = priority * 65536 + swap16 protocol

pub record TcMsg : Type 0 where
  pub ifindex : ℕ
  pub handle : ℕ
  pub parent : ℕ
  pub info : ℕ

abbrev pub tc_msg_of : List ℕ → Option TcMsg
tc_msg_of
      (f ∷ p ∷ q ∷ r ∷ i0 ∷ i1 ∷ i2 ∷ i3 ∷ h0 ∷ h1 ∷ h2 ∷ h3 ∷ p0 ∷ p1 ∷ p2 ∷ p3 ∷ n0 ∷ n1 ∷ n2 ∷ n3
        ∷ rest) =
    some (record {
      ifindex = word32 i0 i1 i2 i3;
      handle = word32 h0 h1 h2 h3;
      parent = word32 p0 p1 p2 p3;
      info = word32 n0 n1 n2 n3;
    })
tc_msg_of bytes = none

pub record QdiscParts : Type 0 where
  pub kind : Option (List ℕ)
  pub options_nonempty : Bool
  pub ingress_block : Bool
  pub egress_block : Bool
  pub unknown_attrs : Bool
  pub duplicate_attrs : Bool

pub record Qdisc : Type 0 where
  pub ifindex : ℕ
  pub handle : ℕ
  pub parent : ℕ
  pub parts : QdiscParts

abbrev pub qdisc_known : (List ℕ → Bool) → Attr → QdiscParts → Result QdiscParts
qdisc_known is_utf8 a q =
    if a.kind == 1
    then read_cstr is_utf8 a ⟫ (λ text. ok (record q { kind = some text }))
    else if a.kind == 2
    then ok (record q { options_nonempty = not (length a.payload == 0) })
    else if a.kind == 13
    then ok (record q { ingress_block = true })
    else if a.kind == 14
    then ok (record q { egress_block = true })
    else if leb 3 a.kind && leb a.kind 12
    then ok q
    else ok (record q { unknown_attrs = true })

abbrev pub qdisc_attr : (List ℕ → Bool) → Bool → Attr → QdiscParts → Result QdiscParts
qdisc_attr is_utf8 again a q =
    qdisc_known is_utf8 a (if again then record q { duplicate_attrs = true } else q)

unfoldable pub parse_qdisc : (List ℕ → Bool) → List ℕ → Result Qdisc
unfolding read_cstr positive_index
parse_qdisc is_utf8 payload = read_struct (tc_msg_of payload) ⟫ λ header.
    attrs (drop 20 payload) ⟫ λ more.
    for_each (qdisc_attr is_utf8) [] more (record {
      kind = none;
      options_nonempty = false;
      ingress_block = false;
      egress_block = false;
      unknown_attrs = false;
      duplicate_attrs = false;
    })
    ⟫ λ parts. positive_index header.ifindex ⟫ λ ifindex. ok (record {
      ifindex = ifindex;
      handle = header.handle;
      parent = header.parent;
      parts = parts;
    })

pub record FilterParts : Type 0 where
  pub chain : ℕ
  pub kind : Option (List ℕ)
  pub direct_action : Bool
  pub bpf_flags : Option ℕ
  pub prog_id : Option ℕ
  pub prog_tag : Option (List ℕ)
  pub prog_name : Option (List ℕ)
  pub flags_gen : Option ℕ
  pub unknown_attrs : Bool
  pub duplicate_attrs : Bool

abbrev pub no_filter_parts : FilterParts
no_filter_parts = record {
  chain = 0;
  kind = none;
  direct_action = false;
  bpf_flags = none;
  prog_id = none;
  prog_tag = none;
  prog_name = none;
  flags_gen = none;
  unknown_attrs = false;
  duplicate_attrs = false;
}

abbrev pub repeated : Bool → FilterParts → FilterParts
repeated again f = if again then record f { duplicate_attrs = true } else f

abbrev pub option_known : (List ℕ → Bool) → Attr → FilterParts → Result FilterParts
option_known is_utf8 a f =
    if a.kind == 8
    then read_u32 a ⟫ (λ flags.
      ok (record f { direct_action = not (bit_and flags 1 == 0); bpf_flags = some flags }))
    else if a.kind == 9
    then read_u32 a ⟫ (λ v. ok (record f { flags_gen = some v }))
    else if a.kind == 10
    then (if length a.payload == 8
        then ok (record f { prog_tag = some a.payload })
        else ok (record f { unknown_attrs = true }))
    else if a.kind == 11
    then read_u32 a ⟫ (λ v. ok (record f { prog_id = some v }))
    else if a.kind == 7
    then read_cstr is_utf8 a ⟫ (λ text. ok (record f { prog_name = some text }))
    else ok (record f { unknown_attrs = true })

abbrev pub option_attr : (List ℕ → Bool) → Bool → Attr → FilterParts → Result FilterParts
option_attr is_utf8 again a f = option_known is_utf8 a (repeated again f)

abbrev pub is_diagnostic : ℕ → Bool
is_diagnostic kind = (leb 3 kind && leb kind 10) || (kind == 12)

abbrev pub filter_known : (List ℕ → Bool) → Attr → FilterParts → Result FilterParts
filter_known is_utf8 a f =
    if a.kind == 1
    then read_cstr is_utf8 a ⟫ (λ text. ok (record f { kind = some text }))
    else if a.kind == 11
    then read_u32 a ⟫ (λ v. ok (record f { chain = v }))
    else if a.kind == 2
    then attrs a.payload ⟫ (λ options. for_each (option_attr is_utf8) [] options f)
    else if is_diagnostic a.kind
    then ok f
    else ok (record f { unknown_attrs = true })

abbrev pub filter_attr : (List ℕ → Bool) → Bool → Attr → FilterParts → Result FilterParts
filter_attr is_utf8 again a f = filter_known is_utf8 a (repeated again f)

pub record Filter : Type 0 where
  pub ifindex : ℕ
  pub parent : ℕ
  pub handle : ℕ
  pub priority : ℕ
  pub protocol : ℕ
  pub parts : FilterParts

abbrev pub filter_of : TcMsg → FilterParts → ℕ → Filter
filter_of header parts ifindex = record {
  ifindex = ifindex;
  parent = header.parent;
  handle = header.handle;
  priority = header.info / 65536;
  protocol = swap16 header.info;
  parts = parts;
}

unfoldable pub parse_filter : (List ℕ → Bool) → List ℕ → Result Filter
unfolding read_u32 read_cstr positive_index
parse_filter is_utf8 payload = read_struct (tc_msg_of payload) ⟫ λ header.
    attrs (drop 20 payload) ⟫ λ more.
    for_each (filter_attr is_utf8) [] more no_filter_parts ⟫ λ parts.
    positive_index header.ifindex ⟫ λ ifindex. ok (filter_of header parts ifindex)

pub record FilterIdentity : Type 0 where
  pub ifindex : ℕ
  pub parent : ℕ
  pub handle : ℕ
  pub chain : ℕ
  pub priority : ℕ
  pub protocol : ℕ
  pub prog_id : ℕ
  pub prog_tag : List ℕ
  pub prog_name : List ℕ
  pub flags_gen : ℕ

abbrev pub is_number : ℕ → Option ℕ → Bool
is_number n none = false
is_number n (some m) = m == n

abbrev pub is_text : List ℕ → Option (List ℕ) → Bool
is_text s none = false
is_text s (some t) = text_eq t s

-- "bpf" and TCA_BPF_FLAG_ACT_DIRECT.
unfoldable pub matches : FilterIdentity → Filter → Bool
matches self f =
    not f.parts.unknown_attrs
    && not f.parts.duplicate_attrs
    && f.ifindex == self.ifindex
    && f.parent == self.parent
    && f.handle == self.handle
    && f.parts.chain == self.chain
    && f.priority == self.priority
    && f.protocol == self.protocol
    && is_text (b'b' ∷ b'p' ∷ b'f' ∷ []) f.parts.kind
    && f.parts.direct_action
    && is_number 1 f.parts.bpf_flags
    && is_number self.flags_gen f.parts.flags_gen
    && is_number self.prog_id f.parts.prog_id
    && is_text self.prog_tag f.parts.prog_tag
    && is_text self.prog_name f.parts.prog_name
