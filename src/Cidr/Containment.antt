-- ===== src/Cidr/Containment.antt =====
-- `contains_prefix` decides inclusion of the sets of addresses.
use flux_rs.Base.{
  ℕ, suc, ◌+◌, ◌-◌, ◌*◌, ◌/◌, ◌%◌, ◌^◌, ◌≤◌, ◌<◌, ◌≡◌, ◌↔◌, ◌∙◌, refl, sym, ap, true, arith,
}
use native.Mathlib.Decide.{dec_le}
use native.Mathlib.Nat.{
  one-le-pow, div-div-eq-div-mul, div-add-mod', mul-div_cancel, add-div_right, mul-add-div_right,
  div-eq_of_lt, div-lt_iff_lt-mul,
}
use flux_rs.Base.Bits.{double_pow}
use flux_rs.Cidr.{Cidr, contains_prefix}
use flux_rs.Cidr.Masks.{block, pow_add, pow_block, bit_and-mask}

-- No host bit is set, and the fields are in range.
pub record IsCanonical (w : ℕ) (c : Cidr) : Type 0 where
  pub len_fits : c.prefix_len ≤ w
  pub addr_fits : c.addr < 2 ^ w
  pub no_host_bits : c.addr % block w c.prefix_len ≡ 0

-- The addresses that share the prefix's network part.
abbrev pub InPrefix : ℕ → Cidr → ℕ → Type 0
InPrefix w c x = (x < 2 ^ w) × (x / block w c.prefix_len ≡ c.addr / block w c.prefix_len)

pub block_pos : (w n : ℕ) → 1 ≤ block w n
block_pos w n = one-le-pow (w - n) 2 (omega arith)

block_split : (w m n : ℕ) → m ≤ n → n ≤ w → block w m ≡ block w n * 2 ^ (n - m)
block_split w m n p q = rw (← pow_add (w - n) (n - m)) (ap (λ (t : ℕ). 2 ^ t) (omega arith))

div_nested : (w m n x : ℕ) → m ≤ n → n ≤ w → x / block w m ≡ x / block w n / 2 ^ (n - m)
div_nested w m n x p q = rw (block_split w m n p q, div-div-eq-div-mul x (block w n) (2 ^ (n - m)))

pub canonical_addr :
    (w : ℕ) (c : Cidr)
    → IsCanonical w c
    → c.addr / block w c.prefix_len * block w c.prefix_len ≡ c.addr
canonical_addr w c h = omega (arith, div-add-mod' c.addr (block w c.prefix_len), h.no_host_bits)

-- The test computes to a comparison of lengths and of network parts.
pub contains_prefix_parts :
    (w : ℕ) (a b : Cidr)
    → IsCanonical w a
    → IsCanonical w b
    → (contains_prefix w a b ≡ true) ↔ (
        (a.prefix_len ≤ b.prefix_len)
        × (b.addr / block w a.prefix_len ≡ a.addr / block w a.prefix_len))
unfolding contains_prefix
contains_prefix_parts w a b ha hb =
    rw (bit_and-mask w a.prefix_len b.addr ha.len_fits hb.addr_fits) (
      ground (
        arith,
        canonical_addr w a ha,
        mul-div_cancel (b.addr / block w a.prefix_len) (block_pos w a.prefix_len),
      ))

half_block : (w la lb : ℕ) → la ≤ w → lb < la → block w la < block w lb
half_block w la lb ha less =
    let gap : la - lb ≡ suc (la - lb - 1) = omega arith in
    rw (block_split w lb la (omega arith) ha, gap, double_pow (la - lb - 1))
      (grind (arith, block_pos w la, one-le-pow (la - lb - 1) 2 (omega arith)))

add_in_block : (q p b m : ℕ) → q < p → b < m → q * m + b < p * m
add_in_block q p b m h k = grind arith

-- The address one block of the longer prefix above another stays in the shorter prefix.
next_block :
    (w la lb x : ℕ)
    → la ≤ w
    → lb < la
    → x < 2 ^ w
    → x % block w lb ≡ 0
    → (x + block w la < 2 ^ w) × ((x + block w la) / block w lb ≡ x / block w lb)
next_block w la lb x ha less fits canonical = (room, inside)
  where
    start : x ≡ x / block w lb * block w lb
    start = omega (arith, div-add-mod' x (block w lb))

    below : x / block w lb < 2 ^ lb
    below = (div-lt_iff_lt-mul (block_pos w lb)).1 (rw (pow_block w lb (omega arith)) at fits)

    room : x + block w la < 2 ^ w
    room = rw (pow_block w lb (omega arith)) (
        omega (
          arith,
          start,
          add_in_block (x / block w lb) (2 ^ lb) (block w la) (block w lb) below
              (half_block w la lb ha less),
        ))

    inside : (x + block w la) / block w lb ≡ x / block w lb
    inside =
        ap (λ (t : ℕ). (t + block w la) / block w lb) start
        ∙ mul-add-div_right (block_pos w lb) (x / block w lb) (block w la)
        ∙ omega (arith, div-eq_of_lt (half_block w la lb ha less))

-- For canonical prefixes `a` and `b`, the test holds exactly when every address in `b` is in `a`.
pub contains_prefix_iff :
    (w : ℕ) (a b : Cidr)
    → IsCanonical w a
    → IsCanonical w b
    → (contains_prefix w a b ≡ true) ↔ ((x : ℕ) → InPrefix w b x → InPrefix w a x)
contains_prefix_iff w a b ha hb = (to, from)
  where
    to : contains_prefix w a b ≡ true → (x : ℕ) → InPrefix w b x → InPrefix w a x
    to h x (fits, same) =
        let (shorter, network) = (contains_prefix_parts w a b ha hb).0 h in
        (
          fits,
          div_nested w a.prefix_len b.prefix_len x shorter hb.len_fits
              ∙ ap (λ (t : ℕ). t / 2 ^ (b.prefix_len - a.prefix_len)) same
              ∙ sym (div_nested w a.prefix_len b.prefix_len b.addr shorter hb.len_fits)
              ∙ network,
        )

    too_long : ((x : ℕ) → InPrefix w b x → InPrefix w a x) → b.prefix_len < a.prefix_len → ⊥
    too_long f less =
        let (fits, inside) =
          next_block w a.prefix_len b.prefix_len b.addr ha.len_fits less hb.addr_fits
            hb.no_host_bits in
        let one : (b.addr + block w a.prefix_len) / block w a.prefix_len
            ≡ b.addr / block w a.prefix_len + 1 =
          add-div_right b.addr (block_pos w a.prefix_len) in
        omega (
          arith,
          one,
          (f (b.addr + block w a.prefix_len) (fits, inside)).1,
          (f b.addr (hb.addr_fits, refl)).1,
        )

    from : ((x : ℕ) → InPrefix w b x → InPrefix w a x) → contains_prefix w a b ≡ true
    from f = elim (dec_le a.prefix_len b.prefix_len) [
      | yes shorter ↦
          (contains_prefix_parts w a b ha hb).1 (shorter, (f b.addr (hb.addr_fits, refl)).1)
      | no longer ↦ absurd (too_long f (omega arith))
    ]
