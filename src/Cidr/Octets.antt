-- ===== src/Cidr/Octets.antt =====
-- An address and its octets in network byte order.
use mathlib.Core.Path.{ap₂, ◌≡⟨◌⟩◌, ◌∎}
use flux_rs.Base.{
  ℕ, zero, suc, ◌+◌, ◌*◌, ◌/◌, ◌%◌, ◌^◌, ◌<◌, ◌≡◌, refl, ap, ◌≤◌, List, [], ◌∷◌, length, All, arith,
}
use native.Mathlib.Nat.{
  one-le-pow, pow-suc, mod-lt, mod-eq_of_lt, div-add-mod, mul-add-mod_self_left, mul-add-div_right,
  div-eq_of_lt,
}
use flux_rs.Cidr.{of_octets, octets}

abbrev pub IsByte : ℕ → Type 0
IsByte b = b < 256

pos : (n : ℕ) → 1 ≤ 256 ^ n
pos n = one-le-pow n 256 (omega arith)

-- The value of the lowest `n + 1` octets: octet `n` above the lowest `n`.
top_octet : (p x : ℕ) → 0 < p → x % (256 * p) ≡ x / p % 256 * p + x % p
top_octet p x h =
    x % (256 * p)
    ≡⟨ ap (λ (t : ℕ). t % (256 * p)) parts ⟩
      (256 * p * (x / p / 256) + (x / p % 256 * p + x % p)) % (256 * p)
    ≡⟨ mul-add-mod_self_left (256 * p) (x / p / 256) (x / p % 256 * p + x % p) ⟩
      (x / p % 256 * p + x % p) % (256 * p)
    ≡⟨ mod-eq_of_lt (below (x / p % 256) (omega arith)) ⟩ x / p % 256 * p + x % p ∎
  where
    parts : x ≡ 256 * p * (x / p / 256) + (x / p % 256 * p + x % p)
    parts = omega (arith, div-add-mod x p, ap (λ (t : ℕ). p * t) (div-add-mod (x / p) 256))

    below : (d : ℕ) → d < 256 → d * p + x % p < 256 * p
    below d hd = let scaled : d * p ≤ 255 * p = grind arith in omega (arith, scaled, mod-lt x h)

pow_256 : (n : ℕ) → 256 ^ suc n ≡ 256 * 256 ^ n
pow_256 n = omega (arith, pow-suc 256 n)

pub of_octets-octets : (n acc x : ℕ) → of_octets acc (octets n x) ≡ acc * 256 ^ n + x % 256 ^ n
unfolding of_octets octets
of_octets-octets zero acc x = omega arith
of_octets-octets (suc n) acc x =
    rw
      (
        of_octets-octets n (acc * 256 + x / 256 ^ n % 256) x,
        pow_256 n,
        top_octet (256 ^ n) x (pos n),
      )
      (omega arith)

of_octets_split :
    (acc : ℕ) (bs : List ℕ) → of_octets acc bs ≡ acc * 256 ^ length bs + of_octets 0 bs
unfolding of_octets
of_octets_split acc [] = omega arith
of_octets_split acc (b ∷ bs) =
    rw (of_octets_split (acc * 256 + b) bs, of_octets_split (0 * 256 + b) bs, pow_256 (length bs))
      (omega arith)

pub of_octets-lt : (bs : List ℕ) → All IsByte bs → of_octets 0 bs < 256 ^ length bs
unfolding of_octets
of_octets-lt [] h = omega arith
of_octets-lt (b ∷ bs) h =
    let scaled : b * 256 ^ length bs ≤ 255 * 256 ^ length bs = scale b h.0 in
    rw (of_octets_split (0 * 256 + b) bs, pow_256 (length bs))
      (omega (arith, of_octets-lt bs h.1, scaled))
  where
    scale : (d : ℕ) → d < 256 → d * 256 ^ length bs ≤ 255 * 256 ^ length bs
    scale d hd = grind arith

pub octets-of_octets :
    (acc : ℕ) (bs : List ℕ) → All IsByte bs → octets (length bs) (of_octets acc bs) ≡ bs
unfolding of_octets octets
octets-of_octets acc [] h = refl
octets-of_octets acc (b ∷ bs) h = ap₂ ◌∷◌ head (octets-of_octets (acc * 256 + b) bs h.1)
  where
    head : of_octets (acc * 256 + b) bs / 256 ^ length bs % 256 ≡ b
    head =
        rw
          (
            of_octets_split (acc * 256 + b) bs,
            mul-add-div_right (pos (length bs)) (acc * 256 + b) (of_octets 0 bs),
            div-eq_of_lt (of_octets-lt bs h.1),
          )
          (omega (arith, h.0))
