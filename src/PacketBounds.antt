-- ===== src/PacketBounds.antt =====
-- crates/flux-core/src/parse_bounds.rs: the lengths that the packet parser accepts.
mod Witnesses
use flux_rs.Base.{
  ℕ, ◌+◌, ◌*◌, ◌%◌, ◌^◌, ◌≤◌, ◌<◌, ◌≡◌, ◌↔◌, Bool, true, false, not, ◌&&◌, leb, ◌==◌, leb→le,
  le→leb, Option, none, some, u32_max, checked_add, saturating_add, arith,
}

abbrev pub ends_within : Option ℕ → ℕ → ℕ → Bool
ends_within none l3_end data_end = false
ends_within (some end) l3_end data_end = leb end l3_end && leb end data_end

-- `None` of `checked_add` is an end past the type.
unfoldable pub header_fits : ℕ → ℕ → ℕ → ℕ → Bool
header_fits start len l3_end data_end = ends_within (checked_add u32_max start len) l3_end data_end

unfoldable pub ipv4_length_ok : ℕ → ℕ → ℕ → ℕ → Bool
ipv4_length_ok nh_off tot_len ihl_bytes skb_len =
    leb ihl_bytes tot_len && leb (saturating_add u32_max nh_off tot_len) skb_len

unfoldable pub ipv6_length_ok : ℕ → ℕ → ℕ → Bool
ipv6_length_ok nh_off payload_len skb_len =
    not (payload_len == 0)
    && leb (saturating_add u32_max (saturating_add u32_max nh_off 40) payload_len) skb_len

-- The end of a packet of this length as a `u32`, which wraps.
abbrev pub l3_end : ℕ → ℕ → ℕ
l3_end nh_off total = (nh_off + total) % 2 ^ 32

header_fits_iff :
    (start len end data_end : ℕ)
    → end ≤ u32_max
    → (header_fits start len end data_end ≡ true) ↔ ((start + len ≤ end) × (start + len ≤ data_end))
unfolding header_fits
header_fits_iff start len end data_end m = ground arith

ipv4_length_ok_iff :
    (nh_off tot_len ihl_bytes skb_len : ℕ)
    → skb_len < u32_max
    → (ipv4_length_ok nh_off tot_len ihl_bytes skb_len ≡ true)
      ↔ ((ihl_bytes ≤ tot_len) × (nh_off + tot_len ≤ skb_len))
unfolding ipv4_length_ok
ipv4_length_ok_iff nh_off tot_len ihl_bytes skb_len m = ground arith

ipv6_length_ok_iff :
    (nh_off payload_len skb_len : ℕ)
    → skb_len < u32_max
    → (ipv6_length_ok nh_off payload_len skb_len ≡ true)
      ↔ ((1 ≤ payload_len) × (nh_off + 40 + payload_len ≤ skb_len))
unfolding ipv6_length_ok
ipv6_length_ok_iff nh_off payload_len skb_len m = ground arith

-- A packet's length and a header in it are accepted exactly where, in numbers without a bound, the length
-- covers the fixed header and the header ends within the packet, the packet within the buffer and the
-- header within the linear data; the end of the packet is computed in 32 bits. For IPv4 and IPv6. The
-- buffer is shorter than 2^32 - 1, at which the saturated sum hides an overflow.
pub header_fits-lengths_iff :
    (nh_off total ihl_bytes skb_len start len data_end : ℕ)
    → skb_len < u32_max
    → (((ipv4_length_ok nh_off total ihl_bytes skb_len
            && header_fits start len (l3_end nh_off total) data_end)
          ≡ true)
        ↔ ((ihl_bytes ≤ total)
            × (nh_off + total ≤ skb_len)
            × (start + len ≤ nh_off + total)
            × (start + len ≤ data_end)))
      × (((ipv6_length_ok nh_off total skb_len
              && header_fits start len (l3_end nh_off (40 + total)) data_end)
            ≡ true)
          ↔ ((1 ≤ total)
              × (nh_off + 40 + total ≤ skb_len)
              × (start + len ≤ nh_off + 40 + total)
              × (start + len ≤ data_end)))
header_fits-lengths_iff nh_off total ihl_bytes skb_len start len data_end m = (
  ground (
    arith,
    ipv4_length_ok_iff nh_off total ihl_bytes skb_len m,
    header_fits_iff start len (l3_end nh_off total) data_end (omega arith),
  ),
  ground (
    arith,
    ipv6_length_ok_iff nh_off total skb_len m,
    header_fits_iff start len (l3_end nh_off (40 + total)) data_end (omega arith),
  ),
)
