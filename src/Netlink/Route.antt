-- ===== src/Netlink/Route.antt =====
-- crates/fluxd/src/netlink/route.rs: routes and rules, as they are requested and as a dump of them is
-- read. The children do the same for links, addresses and traffic control.
pub mod Links
pub mod Filters
pub mod Ownership
pub mod Roundtrip
mod Witnesses
use flux_rs.Base.{
  ℕ, Bool, true, false, not, ◌&&◌, ◌||◌, ◌==◌, if◌then◌else◌, Option, none, some, List, [], ◌∷◌,
  ◌++◌, length,
}
use flux_rs.Netlink.{Error, Result, ok, err, ◌⟫◌, route_preference_size, rule_protocol_size}
use flux_rs.Netlink.Bytes.{drop, word32}
use flux_rs.Netlink.Attrs.{
  MessageBuilder, new, attr_u32, attr_cstr, Attr, attrs, read_u32, read_cstr,
}
use flux_rs.Netlink.Datagram.{read_struct}

-- The flags of a request: REQUEST, ACK, CREATE and EXCL.
abbrev pub request_flags : Bool → ℕ
request_flags create = if create then 0x605 else 0x5

abbrev pub contains : ℕ → List ℕ → Bool
contains kind [] = false
contains kind (k ∷ ks) = (kind == k) || contains kind ks

-- A loop over attributes that keeps the kinds seen: the step is told whether a kind comes again.
abbrev pub for_each {ℓ} :
    {S : Type ℓ} → (Bool → Attr → S → Result S) → List ℕ → List Attr → S → Result S
for_each step seen [] s = ok s
for_each step seen (a ∷ more) s =
    step (contains a.kind seen) a s ⟫ λ s'. for_each step (a.kind ∷ seen) more s'

pub record RtMsg : Type 0 where
  pub family : ℕ
  pub dst_len : ℕ
  pub src_len : ℕ
  pub tos : ℕ
  pub table : ℕ
  pub protocol : ℕ
  pub scope : ℕ
  pub kind : ℕ
  pub flags : ℕ

abbrev pub rt_msg_of : List ℕ → Option RtMsg
rt_msg_of (f ∷ d ∷ s ∷ t ∷ n ∷ p ∷ c ∷ k ∷ a ∷ b ∷ e ∷ g ∷ rest) = some (record {
  family = f;
  dst_len = d;
  src_len = s;
  tos = t;
  table = n;
  protocol = p;
  scope = c;
  kind = k;
  flags = word32 a b e g;
})
rt_msg_of bytes = none

pub record Route : Type 0 where
  pub family : ℕ
  pub dst_len : ℕ
  pub table : ℕ
  pub protocol : ℕ
  pub scope : ℕ
  pub kind : ℕ
  pub oif : Option ℕ
  pub has_dst : Bool
  pub metric : Option ℕ
  pub preference : Option ℕ
  pub extra_attrs : Bool
  pub extra_attr_kinds : List ℕ

abbrev pub with_extra : ℕ → Route → Route
with_extra kind r = record r {
  extra_attrs = true;
  extra_attr_kinds = r.extra_attr_kinds ++ kind ∷ [];
}

abbrev pub one_byte : Error → List ℕ → Result ℕ
one_byte problem (value ∷ []) = ok value
one_byte problem payload = err problem

abbrev route_known : Attr → Route → Result Route
route_known a r =
    if a.kind == 15
    then read_u32 a ⟫ (λ v. ok (record r { table = v }))
    else if a.kind == 4
    then read_u32 a ⟫ (λ v. ok (record r { oif = some v }))
    else if a.kind == 1
    then ok (record r { has_dst = true })
    else if a.kind == 6
    then read_u32 a ⟫ (λ v. ok (record r { metric = some v }))
    else if a.kind == 12 && length a.payload == 32
    then ok r
    else if a.kind == 20
    then one_byte route_preference_size a.payload ⟫ (λ v. ok (record r { preference = some v }))
    else ok (with_extra a.kind r)

abbrev pub route_attr : Bool → Attr → Route → Result Route
route_attr again a r = route_known a (if again then with_extra a.kind r else r)

abbrev pub route_start : RtMsg → Route
route_start header = record {
  family = header.family;
  dst_len = header.dst_len;
  table = header.table;
  protocol = header.protocol;
  scope = header.scope;
  kind = header.kind;
  oif = none;
  has_dst = false;
  metric = none;
  preference = none;
  extra_attrs = not (header.src_len == 0) || not (header.tos == 0) || not (header.flags == 0);
  extra_attr_kinds = [];
}

unfoldable pub parse_route : List ℕ → Result Route
unfolding read_u32
parse_route payload = read_struct (rt_msg_of payload) ⟫ λ header.
    attrs (drop 12 payload) ⟫ λ more. for_each route_attr [] more (route_start header)

-- RTN_LOCAL in RT_SCOPE_HOST; the table stands in an attribute.
abbrev pub local_route_body : ℕ → ℕ → List ℕ
local_route_body family protocol = family ∷ 0 ∷ 0 ∷ 0 ∷ 0 ∷ protocol ∷ 254 ∷ 2 ∷ 0 ∷ 0 ∷ 0 ∷ 0 ∷ []

-- The request of `local_route`, before its length is filled in.
unfoldable pub local_route : ℕ → ℕ → Bool → ℕ → ℕ → ℕ → ℕ → MessageBuilder
unfolding new attr_u32
local_route seq kind create family table protocol lo_ifindex =
    attr_u32
      (attr_u32 (new kind (request_flags create) seq (local_route_body family protocol)) 15 table) 4
      lo_ifindex

pub record FibRuleHdr : Type 0 where
  pub family : ℕ
  pub dst_len : ℕ
  pub src_len : ℕ
  pub tos : ℕ
  pub table : ℕ
  pub action : ℕ
  pub flags : ℕ

abbrev pub fib_rule_of : List ℕ → Option FibRuleHdr
fib_rule_of (f ∷ d ∷ s ∷ t ∷ n ∷ r ∷ q ∷ c ∷ a ∷ b ∷ e ∷ g ∷ rest) = some (record {
  family = f;
  dst_len = d;
  src_len = s;
  tos = t;
  table = n;
  action = c;
  flags = word32 a b e g;
})
fib_rule_of bytes = none

pub record Rule : Type 0 where
  pub family : ℕ
  pub dst_len : ℕ
  pub src_len : ℕ
  pub table : ℕ
  pub action : ℕ
  pub priority : Option ℕ
  pub iif_name : Option (List ℕ)
  pub suppress_prefix_len : Option ℕ
  pub protocol : Option ℕ
  pub extra_attrs : Bool
  pub extra_attr_kinds : List ℕ

abbrev pub rule_extra : ℕ → Rule → Rule
rule_extra kind r = record r {
  extra_attrs = true;
  extra_attr_kinds = r.extra_attr_kinds ++ kind ∷ [];
}

abbrev pub rule_known : (List ℕ → Bool) → Attr → Rule → Result Rule
rule_known is_utf8 a r =
    if a.kind == 15
    then read_u32 a ⟫ (λ v. ok (record r { table = v }))
    else if a.kind == 6
    then read_u32 a ⟫ (λ v. ok (record r { priority = some v }))
    else if a.kind == 3
    then read_cstr is_utf8 a ⟫ (λ v. ok (record r { iif_name = some v }))
    else if a.kind == 14
    then read_u32 a ⟫ (λ v. ok (record r { suppress_prefix_len = some v }))
    else if a.kind == 21
    then one_byte rule_protocol_size a.payload ⟫ (λ v. ok (record r { protocol = some v }))
    else ok (rule_extra a.kind r)

abbrev pub rule_attr : (List ℕ → Bool) → Bool → Attr → Rule → Result Rule
rule_attr is_utf8 again a r = rule_known is_utf8 a (if again then rule_extra a.kind r else r)

abbrev pub rule_start : FibRuleHdr → Rule
rule_start header = record {
  family = header.family;
  dst_len = header.dst_len;
  src_len = header.src_len;
  table = header.table;
  action = header.action;
  priority = none;
  iif_name = none;
  suppress_prefix_len = none;
  protocol = none;
  extra_attrs = not (header.tos == 0) || not (header.flags == 0);
  extra_attr_kinds = [];
}

unfoldable pub parse_rule : (List ℕ → Bool) → List ℕ → Result Rule
unfolding read_u32 read_cstr
parse_rule is_utf8 payload = read_struct (fib_rule_of payload) ⟫ λ header.
    attrs (drop 12 payload) ⟫ λ more. for_each (rule_attr is_utf8) [] more (rule_start header)

-- FR_ACT_TO_TBL; the table stands in an attribute.
abbrev pub rule_body : ℕ → List ℕ
rule_body family = family ∷ 0 ∷ 0 ∷ 0 ∷ 0 ∷ 0 ∷ 0 ∷ 1 ∷ 0 ∷ 0 ∷ 0 ∷ 0 ∷ []

-- The request of `rule`, before its length is filled in.
unfoldable pub rule : ℕ → ℕ → Bool → ℕ → ℕ → ℕ → List ℕ → MessageBuilder
unfolding new attr_u32 attr_cstr
rule seq kind create family priority table iif =
    attr_cstr
      (attr_u32 (attr_u32 (new kind (request_flags create) seq (rule_body family)) 6 priority) 15
        table)
      3 iif
