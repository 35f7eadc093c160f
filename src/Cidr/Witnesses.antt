-- ===== src/Cidr/Witnesses.antt =====
-- Tests of the prefixes, and their theorems at concrete inputs.
use flux_rs.Base.{ℕ, ◌≡◌, ◌↔◌, refl, true, [], ◌∷◌, arith}
use flux_rs.Cidr.{
  Cidr, Result, ok, err, host_bits_set, LpmKey, from_octets, to_lpm_key, contains_prefix,
}
use flux_rs.Cidr.Containment.{InPrefix, contains_prefix_iff}
use flux_rs.Cidr.Keys.{from_octets-to_lpm_key}

-- 10.0.0.0/8 and 10.1.0.0/16.
abbrev ten : Cidr
ten = record { addr = 0x0a00_0000; prefix_len = 8 }

abbrev ten_one : Cidr
ten_one = record { addr = 0x0a01_0000; prefix_len = 16 }

host_bits : from_octets 32 (10 ∷ 1 ∷ 0 ∷ 0 ∷ []) 8 ≡ err (host_bits_set 0x0a01_0000 8)
unfolding from_octets flux_rs.Cidr.mask
host_bits = refl

contains_prefix_iff_example :
    (contains_prefix 32 ten ten_one ≡ true) ↔ ((x : ℕ) → InPrefix 32 ten_one x → InPrefix 32 ten x)
contains_prefix_iff_example = contains_prefix_iff 32 ten ten_one (omega arith) (omega arith)

from_octets-to_lpm_key_example :
    from_octets 32 (to_lpm_key 32 ten_one).addr (to_lpm_key 32 ten_one).prefixlen ≡ ok ten_one
from_octets-to_lpm_key_example = from_octets-to_lpm_key 4 32 ten_one (omega arith) (omega arith)

ten_accepted : from_octets 32 (10 ∷ 0 ∷ 0 ∷ 0 ∷ []) 8 ≡ ok ten
unfolding from_octets flux_rs.Cidr.mask
ten_accepted = refl
