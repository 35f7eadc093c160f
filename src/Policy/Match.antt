-- ===== src/Policy/Match.antt =====
-- The bit test of the data-plane model is membership of the prefix.
use flux_rs.Base.{
  ℕ, ◌-◌, ◌*◌, ◌/◌, ◌^◌, ◌≤◌, ◌<◌, ◌≡◌, ◌↔◌, ap, true, ◌==◌, leb, leb→le, if◌then◌else◌, Bool-cases,
  inl, inr, arith,
}
use native.Mathlib.Nat.{mul-div_cancel, mod-eq_of_lt, one-le-pow}
use flux_rs.Cidr.{Cidr, mask, max_word, shl}
use flux_rs.Cidr.Masks.{block, bit_and-mask}
use flux_rs.Cidr.Containment.{IsCanonical, InPrefix, canonical_addr, block_pos}
use flux_rs.Policy.Epoch.{epoch_mask, prefix_in}

-- The two sources' masks agree on every length that fits the width, also where the shift is by 0.
epoch_mask-mask : (w n : ℕ) → n ≤ w → epoch_mask w n ≡ mask w n
unfolding epoch_mask mask
epoch_mask-mask w n h = elim (Bool-cases (leb w n)) [
  | inl full ↦ rw full (ap (λ (m : ℕ). if n == 0 then 0 else m) (unshifted full))
  | inr part ↦ rw part
]
  where
    unshifted : leb w n ≡ true → shl w (max_word w) (w - n) ≡ max_word w
    unshifted full =
        let same : w - n ≡ 0 = omega (arith, leb→le w n full) in
        let unit : max_word w * 2 ^ 0 ≡ max_word w = omega arith in
        rw (same, unit) (mod-eq_of_lt (below w))
      where
        below : (k : ℕ) → max_word k < 2 ^ k
        below k = omega (arith, one-le-pow k 2 (omega arith))

-- For a canonical prefix and an address of the width, the test holds exactly when the address
-- shares the prefix's network part.
pub prefix_in_iff :
    (w addr : ℕ) (c : Cidr)
    → IsCanonical w c
    → addr < 2 ^ w
    → (prefix_in w c addr ≡ true) ↔ InPrefix w c addr
unfolding prefix_in
prefix_in_iff w addr c hc fits =
    rw
      (
        epoch_mask-mask w c.prefix_len hc.len_fits,
        bit_and-mask w c.prefix_len addr hc.len_fits fits,
      )
      (ground (
        arith,
        canonical_addr w c hc,
        mul-div_cancel (addr / block w c.prefix_len) (block_pos w c.prefix_len),
      ))
