-- ===== src/Base/Bits.antt =====
-- `&` with a mask of low bits, and with such a mask shifted left, as arithmetic at every width.
use Prim.Native.Nat.{
  ℕ, zero, suc, ◌+◌, ◌-◌, ◌*◌, ◌/◌, ◌%◌, ◌^◌, ◌≤◌, ◌<◌, min, bit_and, digits, bit_and-bitwise,
}
use mathlib.Core.Path.{◌≡◌, refl, sym, ◌∙◌, ap, ◌≡⟨◌⟩◌, ◌∎}
use native.Mathlib.Nat.{zero-add, suc-add, pow-suc, one-le-pow, div-div-eq-div-mul}
use native.Mathlib.Nat.{mul-add-mod_self_left, mod-eq_of_lt, mod-lt, div-add-mod}
use native.Mathlib.Omega.{arith}

-- `bit_and` by its recursion on binary digits, cut off after `fuel` of them.
abbrev conjoin : ℕ → ℕ → ℕ → ℕ
conjoin fuel x m = digits (λ y. zero) min fuel x m

-- One digit more changes nothing once the fuel covers `x`.
conjoin_grow : (fuel x m : ℕ) → x ≤ fuel → conjoin (suc fuel) x m ≡ conjoin fuel x m
conjoin_grow fuel zero m h = conjoin_nothing fuel m
  where
    conjoin_nothing : (k y : ℕ) → conjoin (suc k) zero y ≡ conjoin k zero y
    conjoin_nothing zero y = refl
    conjoin_nothing (suc k) y = refl
conjoin_grow zero (suc x) m h = absurd (omega arith)
conjoin_grow (suc fuel) (suc x) m h =
    let rest = conjoin_grow fuel (suc x / 2) (m / 2) (omega arith) in omega (arith, rest)

-- So `extra` digits change nothing either.
conjoin_enough : (extra x m : ℕ) → conjoin (extra + x) x m ≡ conjoin x x m
conjoin_enough zero x m = rw zero-add
conjoin_enough (suc extra) x m =
    rw suc-add (conjoin_grow (extra + x) x m (omega arith) ∙ conjoin_enough extra x m)

-- With fuel for `x`, the recursion is the native operation.
conjoin-bit_and : (fuel x m : ℕ) → x ≤ fuel → conjoin fuel x m ≡ bit_and x m
conjoin-bit_and fuel x m h =
    let split : fuel ≡ (fuel - x) + x = omega arith in
    rw (split, conjoin_enough (fuel - x) x m) (sym (bit_and-bitwise x m))

-- The lowest digit apart from the others.
bit_and_halves : (x m : ℕ) → bit_and x m ≡ bit_and (x / 2) (m / 2) * 2 + min (x % 2) (m % 2)
bit_and_halves zero m = omega (arith, bit_and-bitwise 0 m, bit_and-bitwise 0 (m / 2))
bit_and_halves (suc x) m =
    let upper = conjoin-bit_and x (suc x / 2) (m / 2) (omega arith) in
    bit_and-bitwise (suc x) m ∙ omega (arith, upper)

pub bit_and-zero : (x : ℕ) → bit_and x 0 ≡ 0
bit_and-zero x = sym (conjoin-bit_and x x 0 (omega arith)) ∙ without x x
  where
    without : (k y : ℕ) → conjoin k y 0 ≡ 0
    without zero y = refl
    without (suc k) zero = refl
    without (suc k) (suc y) = omega (arith, without k (suc y / 2))

pub double_pow : (k : ℕ) → 2 ^ suc k ≡ 2 * 2 ^ k
double_pow k = omega (arith, pow-suc 2 k)

double_mul : (m k : ℕ) → m * 2 ^ suc k ≡ 2 * (m * 2 ^ k)
double_mul m k = omega (arith, ap (λ (t : ℕ). m * t) (pow-suc 2 k))

half_div : (x k : ℕ) → x / 2 / 2 ^ k ≡ x / 2 ^ suc k
half_div x k = omega (arith, div-div-eq-div-mul x 2 (2 ^ k), ap (λ (t : ℕ). x / t) (double_pow k))

-- A mask shifted left selects the same bits of the value shifted right.
pub bit_and-shifted : (k x m : ℕ) → bit_and x (m * 2 ^ k) ≡ bit_and (x / 2 ^ k) m * 2 ^ k
bit_and-shifted zero x m = ground arith
bit_and-shifted (suc k) x m = ground (
  arith,
  bit_and_halves x (m * 2 ^ suc k),
  double_mul m k,
  bit_and-shifted k (x / 2) m,
  half_div x k,
  double_mul (bit_and (x / 2 ^ suc k) m) k,
)

mod_double : (p x : ℕ) → 0 < p → x % (2 * p) ≡ x / 2 % p * 2 + x % 2
mod_double p x h =
    x % (2 * p)
    ≡⟨ ap (λ (t : ℕ). t % (2 * p)) parts ⟩ (2 * p * (x / 2 / p) + (x / 2 % p * 2 + x % 2)) % (2 * p)
    ≡⟨ mul-add-mod_self_left (2 * p) (x / 2 / p) (x / 2 % p * 2 + x % 2) ⟩
      (x / 2 % p * 2 + x % 2) % (2 * p)
    ≡⟨ mod-eq_of_lt (omega (arith, mod-lt (x / 2) h)) ⟩ x / 2 % p * 2 + x % 2 ∎
  where
    parts : x ≡ 2 * p * (x / 2 / p) + (x / 2 % p * 2 + x % 2)
    parts = omega (arith, div-add-mod (x / 2) p)

-- A mask of `k` low bits takes the remainder by `2 ^ k`.
pub bit_and-low : (k x : ℕ) → bit_and x (2 ^ k - 1) ≡ x % 2 ^ k
bit_and-low zero x = omega (arith, bit_and-zero x)
bit_and-low (suc k) x = ground (
  arith,
  bit_and_halves x (2 ^ suc k - 1),
  double_pow k,
  one-le-pow k 2,
  bit_and-low k (x / 2),
  mod_double (2 ^ k) x,
)
