-- ===== src/Cidr.antt =====
-- crates/flux-core/src/cidr.rs: canonical prefixes, their masks and LPM keys. Both address families
-- are one definition over the width `w` of an address, 32 or 128; an address is its number.
pub mod Masks
pub mod Octets
pub mod Containment
pub mod Keys
mod Witnesses
use Prim.Native.Nat.{bit_and}
use flux_rs.Base.{
  ℕ, zero, suc, ◌+◌, ◌-◌, ◌*◌, ◌/◌, ◌%◌, ◌^◌, ◌≤◌, ◌<◌, ◌≡◌, Bool, true, false, not, ◌&&◌, List, [],
  ◌∷◌, ltb, leb, ◌==◌, if◌then◌else◌,
}

-- `HostBitsSet` holds the text of the rejected prefix: here the address and length that it renders.
pub data CidrError : Type 0 where
  prefix_too_long : ℕ → CidrError
  host_bits_set : ℕ → ℕ → CidrError

pub data Result {ℓ} (A : Type ℓ) : Type ℓ where
  ok : A → Result A
  err : CidrError → Result A

pub record Cidr : Type 0 where
  pub addr : ℕ
  pub prefix_len : ℕ

-- `uN::MAX`, `x << k` and `!x` at width `w`.
abbrev pub max_word : ℕ → ℕ
max_word w = 2 ^ w - 1

abbrev pub shl : ℕ → ℕ → ℕ → ℕ
shl w x k = x * 2 ^ k % 2 ^ w

abbrev pub complement : ℕ → ℕ → ℕ
complement w x = max_word w - x

unfoldable pub mask : ℕ → ℕ → ℕ
mask w n = if n == 0 then 0 else if leb w n then max_word w else shl w (max_word w) (w - n)

abbrev pub mask32 : ℕ → ℕ
mask32 = mask 32

abbrev pub mask128 : ℕ → ℕ
mask128 = mask 128

-- `Ipv4Addr::from([u8; 4])` and its 128-bit sibling: network byte order.
unfoldable pub of_octets : ℕ → List ℕ → ℕ
of_octets acc [] = acc
of_octets acc (b ∷ bs) = of_octets (acc * 256 + b) bs

-- The `n` low octets of an address, the highest first.
unfoldable pub octets : ℕ → ℕ → List ℕ
octets zero x = []
octets (suc n) x = x / 256 ^ n % 256 ∷ octets n x

unfoldable pub from_octets : ℕ → List ℕ → ℕ → Result Cidr
unfolding of_octets
from_octets w bytes prefix_len =
    let addr = of_octets 0 bytes in
    if ltb w prefix_len
    then err (prefix_too_long prefix_len)
    else if not (bit_and addr (complement w (mask w prefix_len)) == 0)
    then err (host_bits_set addr prefix_len)
    else ok (record { addr = addr; prefix_len = prefix_len })

abbrev pub from_octets_v4 : List ℕ → ℕ → Result Cidr
from_octets_v4 = from_octets 32

abbrev pub from_octets_v6 : List ℕ → ℕ → Result Cidr
from_octets_v6 = from_octets 128

-- `LpmV4Key` and `LpmV6Key`.
pub record LpmKey : Type 0 where
  pub prefixlen : ℕ
  pub addr : List ℕ

unfoldable pub to_lpm_key : ℕ → Cidr → LpmKey
unfolding octets
to_lpm_key w c = record { prefixlen = c.prefix_len; addr = octets (w / 8) c.addr }

abbrev pub to_lpm_key_v4 : Cidr → LpmKey
to_lpm_key_v4 = to_lpm_key 32

abbrev pub to_lpm_key_v6 : Cidr → LpmKey
to_lpm_key_v6 = to_lpm_key 128

-- Whether every address of `other` is in `self`.
unfoldable pub contains_prefix : ℕ → Cidr → Cidr → Bool
contains_prefix w self other =
    leb self.prefix_len other.prefix_len && bit_and other.addr (mask w self.prefix_len) == self.addr

abbrev pub contains_prefix_v4 : Cidr → Cidr → Bool
contains_prefix_v4 = contains_prefix 32

abbrev pub contains_prefix_v6 : Cidr → Cidr → Bool
contains_prefix_v6 = contains_prefix 128
