-- ===== src/Cidr/Keys.antt =====
-- The LPM keys: which octets are accepted, and what a key gives back.
use flux_rs.Base.{
  ℕ, ◌*◌, ◌/◌, ◌%◌, ◌^◌, ◌≤◌, ◌<◌, ◌≡◌, ◌∙◌, List, length, All, arith, ltb, ◌==◌, if◌then◌else◌,
  Bool-cases, inl, inr,
}
use native.Mathlib.Nat.{mod-eq_of_lt}
use flux_rs.Cidr.{
  Cidr, ok, err, prefix_too_long, host_bits_set, of_octets, octets, from_octets, to_lpm_key,
}
use flux_rs.Cidr.Masks.{block, bit_and-complement}
use flux_rs.Cidr.Octets.{IsByte, of_octets-octets, octets-of_octets, of_octets-lt}
use flux_rs.Cidr.Containment.{IsCanonical}

-- A width of whole octets, such as 32 and 128.
abbrev pub IsWidth : ℕ → ℕ → Type 0
IsWidth n w = (w ≡ 8 * n) × (2 ^ w ≡ 256 ^ n)

-- What `from_octets` answers, by the three tests in turn.
from_octets_cases :
    (w n : ℕ) (bytes : List ℕ)
    → from_octets w bytes n ≡ (
        if ltb w n
        then err (prefix_too_long n)
        else if of_octets 0 bytes % block w n == 0
        then ok (record { addr = of_octets 0 bytes; prefix_len = n })
        else err (host_bits_set (of_octets 0 bytes) n))
unfolding from_octets
from_octets_cases w n bytes = elim (Bool-cases (ltb w n)) [
  | inl long ↦ rw long
  | inr fits ↦ rw (fits, bit_and-complement w n (of_octets 0 bytes) (ground arith)) (ground arith)
]

-- A canonical prefix comes back from its LPM key: the key's octets and length are accepted and give
-- the same prefix.
pub from_octets-to_lpm_key :
    (n w : ℕ) (c : Cidr)
    → IsWidth n w
    → IsCanonical w c
    → from_octets w (to_lpm_key w c).addr (to_lpm_key w c).prefixlen ≡ ok c
unfolding to_lpm_key
from_octets-to_lpm_key n w c hw hc =
    let count : w / 8 ≡ n = omega (arith, hw.0) in
    let number : of_octets 0 (octets n c.addr) ≡ c.addr =
      of_octets-octets n 0 c.addr ∙ omega (arith, mod-eq_of_lt (rw hw.1 at hc.addr_fits)) in
    rw count (
      from_octets_cases w c.prefix_len (octets n c.addr)
      ∙ rw (number, hc.no_host_bits) (ground (arith, hc.len_fits)))

-- Whatever octets are accepted give a canonical prefix, whose LPM key holds just those octets and
-- that length.
pub from_octets-ok :
    (n w prefix_len : ℕ) (bytes : List ℕ) (c : Cidr)
    → IsWidth n w
    → length bytes ≡ n
    → All IsByte bytes
    → from_octets w bytes prefix_len ≡ ok c
    → IsCanonical w c × (to_lpm_key w c ≡ record { prefixlen = prefix_len; addr = bytes })
unfolding to_lpm_key
from_octets-ok n w prefix_len bytes c hw hl hb h =
    let answer = from_octets_cases w prefix_len bytes in
    let small : of_octets 0 bytes < 2 ^ w = rw (hw.1, ← hl) (of_octets-lt bytes hb) in
    let (same, fits, host) : (c ≡ record { addr = of_octets 0 bytes; prefix_len = prefix_len })
        × (prefix_len ≤ w)
        × (of_octets 0 bytes % block w prefix_len ≡ 0) =
      (ground (arith, answer), ground (arith, answer), ground (arith, answer)) in
    let count : w / 8 ≡ length bytes = omega (arith, hw.0) in
    rw (same, count)
      (
        record { len_fits = fits; addr_fits = small; no_host_bits = host },
        rw (octets-of_octets 0 bytes hb),
      )
