-- ===== src/Netlink/Route/Links.antt =====
-- crates/fluxd/src/netlink/route.rs: links and addresses as a dump of them is read.
use flux_rs.Base.{
  ℕ, ◌^◌, Bool, true, false, not, ◌&&◌, ◌||◌, ◌==◌, ltb, leb, if◌then◌else◌, Option, none, some,
  List, [], ◌∷◌,
}
use flux_rs.Netlink.{
  Result, ok, err, ◌⟫◌, link_without_name, address_without_bytes, invalid_interface_index,
}
use flux_rs.Netlink.Bytes.{drop, word16, word32}
use flux_rs.Netlink.Attrs.{Attr, attrs, read_u32, read_cstr}
use flux_rs.Netlink.Datagram.{read_struct}
use flux_rs.Netlink.Route.{for_each}

-- `u32::try_from` on an `i32`, which is given as its bits.
unfoldable pub positive_index : ℕ → Result ℕ
positive_index index =
    if ltb index (2 ^ 31) && not (index == 0) then ok index else err invalid_interface_index

pub record IfInfoMsg : Type 0 where
  pub arphrd : ℕ
  pub index : ℕ
  pub flags : ℕ

abbrev pub if_info_of : List ℕ → Option IfInfoMsg
if_info_of (f ∷ p ∷ a ∷ b ∷ i0 ∷ i1 ∷ i2 ∷ i3 ∷ f0 ∷ f1 ∷ f2 ∷ f3 ∷ c0 ∷ c1 ∷ c2 ∷ c3 ∷ rest) =
    some (record { arphrd = word16 a b; index = word32 i0 i1 i2 i3; flags = word32 f0 f1 f2 f3 })
if_info_of bytes = none

-- The variables of the loop over a link's attributes.
pub record LinkParts : Type 0 where
  pub name : Option (List ℕ)
  pub alias : Option (List ℕ)
  pub kind : Option (List ℕ)
  pub peer_ifindex : Option ℕ
  pub master_ifindex : Option ℕ
  pub mtu : ℕ
  pub address : List ℕ
  pub unknown : Bool
  pub duplicate : Bool

abbrev pub no_link_parts : LinkParts
no_link_parts = record {
  name = none;
  alias = none;
  kind = none;
  peer_ifindex = none;
  master_ifindex = none;
  mtu = 0;
  address = [];
  unknown = false;
  duplicate = false;
}

-- IFLA_INFO_KIND and IFLA_INFO_DATA.
abbrev pub link_info : (List ℕ → Bool) → Bool → Attr → LinkParts → Result LinkParts
link_info is_utf8 again a l =
    if a.kind == 1
    then read_cstr is_utf8 a ⟫ (λ text. ok (record l { kind = some text }))
    else if a.kind == 2
    then ok l
    else ok (record l { unknown = true })

abbrev pub is_observed : ℕ → Bool
is_observed kind =
    (kind == 2)
    || (leb 6 kind && leb kind 9)
    || (leb 11 kind && leb kind 17)
    || (kind == 19)
    || (leb 21 kind && leb kind 64)

abbrev pub link_known : (List ℕ → Bool) → Attr → LinkParts → Result LinkParts
link_known is_utf8 a l =
    if a.kind == 3
    then read_cstr is_utf8 a ⟫ (λ text. ok (record l { name = some text }))
    else if a.kind == 20
    then read_cstr is_utf8 a ⟫ (λ text. ok (record l { alias = some text }))
    else if a.kind == 4
    then read_u32 a ⟫ (λ v. ok (record l { mtu = v }))
    else if a.kind == 5
    then read_u32 a ⟫ (λ v. ok (record l { peer_ifindex = some v }))
    else if a.kind == 10
    then read_u32 a ⟫ (λ v. ok (record l { master_ifindex = some v }))
    else if a.kind == 1
    then ok (record l { address = a.payload })
    else if a.kind == 18
    then attrs a.payload ⟫ (λ more.
      for_each (link_info is_utf8) [] more (record l { unknown = l.unknown || not a.nested }))
    else if is_observed a.kind
    then ok l
    else ok (record l { unknown = true })

abbrev pub link_attr : (List ℕ → Bool) → Bool → Attr → LinkParts → Result LinkParts
link_attr is_utf8 again a l =
    link_known is_utf8 a (if again then record l { duplicate = true } else l)

pub record Link : Type 0 where
  pub ifindex : ℕ
  pub name : List ℕ
  pub arphrd : ℕ
  pub flags : ℕ
  pub parts : LinkParts

abbrev pub link_of : IfInfoMsg → LinkParts → ℕ → Option (List ℕ) → Result Link
link_of header parts ifindex none = err link_without_name
link_of header parts ifindex (some name) = ok (record {
  ifindex = ifindex;
  name = name;
  arphrd = header.arphrd;
  flags = header.flags;
  parts = parts;
})

unfoldable pub parse_link : (List ℕ → Bool) → List ℕ → Result Link
unfolding read_u32 read_cstr positive_index
parse_link is_utf8 payload = read_struct (if_info_of payload) ⟫ λ header.
    attrs (drop 16 payload) ⟫ λ more. for_each (link_attr is_utf8) [] more no_link_parts ⟫ λ parts.
    positive_index header.index ⟫ λ ifindex. link_of header parts ifindex parts.name

pub record Address : Type 0 where
  pub ifindex : ℕ
  pub family : ℕ
  pub prefix_len : ℕ
  pub scope : ℕ
  pub flags : ℕ
  pub bytes : Option (List ℕ)

abbrev pub if_addr_of : List ℕ → Option Address
if_addr_of (f ∷ p ∷ g ∷ s ∷ i0 ∷ i1 ∷ i2 ∷ i3 ∷ rest) = some (record {
  ifindex = word32 i0 i1 i2 i3;
  family = f;
  prefix_len = p;
  scope = s;
  flags = g;
  bytes = none;
})
if_addr_of bytes = none

abbrev pub or_first : Option (List ℕ) → List ℕ → Option (List ℕ)
or_first none bytes = some bytes
or_first (some first) bytes = some first

-- IFA_LOCAL wins over IFA_ADDRESS in either order.
abbrev pub address_attr : Bool → Attr → Address → Result Address
address_attr again a r =
    if a.kind == 2
    then ok (record r { bytes = some a.payload })
    else if a.kind == 1
    then ok (record r { bytes = or_first r.bytes a.payload })
    else if a.kind == 8
    then read_u32 a ⟫ (λ v. ok (record r { flags = v }))
    else ok r

abbrev pub with_bytes : Address → Option (List ℕ) → Result Address
with_bytes r none = err address_without_bytes
with_bytes r (some bytes) = ok r

unfoldable pub parse_address : List ℕ → Result Address
unfolding read_u32
parse_address payload = read_struct (if_addr_of payload) ⟫ λ header.
    attrs (drop 8 payload) ⟫ λ more.
    for_each address_attr [] more header ⟫ λ r. with_bytes r r.bytes
