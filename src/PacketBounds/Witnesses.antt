-- ===== src/PacketBounds/Witnesses.antt =====
-- The packets of the unit tests: a TCP header after the packet's end, and one within it.
use flux_rs.Base.{◌+◌, ◌≤◌, ◌≡◌, ◌↔◌, true, false, refl, ◌&&◌, arith}
use flux_rs.PacketBounds.{
  header_fits, ipv4_length_ok, ipv6_length_ok, l3_end, header_fits-lengths_iff,
}

padding : (ipv4_length_ok 14 20 20 54 && header_fits 34 20 34 54) ≡ false
unfolding ipv4_length_ok header_fits
padding = refl

inside : (ipv4_length_ok 14 40 20 74 && header_fits 34 20 54 74) ≡ true
unfolding ipv4_length_ok header_fits
inside = refl

header_fits-lengths_iff_example :
    (((ipv4_length_ok 14 40 20 74 && header_fits 34 20 (l3_end 14 40) 74) ≡ true)
      ↔ ((20 ≤ 40) × (14 + 40 ≤ 74) × (34 + 20 ≤ 14 + 40) × (34 + 20 ≤ 74)))
    × (((ipv6_length_ok 14 40 74 && header_fits 34 20 (l3_end 14 (40 + 40)) 74) ≡ true)
        ↔ ((1 ≤ 40) × (14 + 40 + 40 ≤ 74) × (34 + 20 ≤ 14 + 40 + 40) × (34 + 20 ≤ 74)))
header_fits-lengths_iff_example = header_fits-lengths_iff 14 40 20 74 34 20 74 (omega arith)
