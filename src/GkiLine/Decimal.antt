-- ===== src/GkiLine/Decimal.antt =====
-- crates/flux-core/src/gki_line.rs: a number in decimal is read back as that number.
use native.Mathlib.Nat.{pow-suc}
use flux_rs.Base.{
  ℕ, zero, suc, ◌+◌, ◌*◌, ◌/◌, ◌%◌, ◌^◌, ◌≤◌, ◌<◌, ◌≡◌, refl, ap, sym, ◌∙◌, true, false, ltb,
  Option, none, some, [], ◌∷◌, ◌++◌, u32_max, Bool-cases, ltb→lt, inl, inr, arith,
}
use flux_rs.Base.Text.{Text, is_empty, all, is_ascii_digit, digits_value, parse_u32}
use flux_rs.GkiLine.Affixes.{all-append}
use flux_rs.GkiLine.{decimal_from, decimal, parse_component}

digits_value-none : (t : Text) → digits_value none t ≡ none
digits_value-none [] = refl
digits_value-none (c ∷ t) = refl

digits_value-append :
    (s t : Text) (v : Option ℕ) → digits_value v (s ++ t) ≡ digits_value (digits_value v s) t
digits_value-append [] t none = digits_value-none t
digits_value-append [] t (some v) = refl
digits_value-append (c ∷ s) t none = sym (digits_value-none t)
digits_value-append (c ∷ s) t (some v) = digits_value-append s t _

digits_value-digit :
    (v d : ℕ)
    → d < 10
    → 10 * v + d ≤ u32_max
    → digits_value (some v) ((48 + d) ∷ []) ≡ some (10 * v + d)
digits_value-digit v d h m = ground arith

decimal_from-small : (fuel n : ℕ) → ltb n 10 ≡ true → decimal_from (suc fuel) n ≡ (48 + n) ∷ []
unfolding decimal_from
decimal_from-small fuel n h = rw h refl

decimal_from-large :
    (fuel n : ℕ)
    → ltb n 10 ≡ false
    → decimal_from (suc fuel) n ≡ decimal_from fuel (n / 10) ++ (48 + n % 10) ∷ []
unfolding decimal_from
decimal_from-large fuel n h = rw h refl

no_digits : (n : ℕ) → decimal_from 0 n ≡ []
unfolding decimal_from
no_digits n = refl

pub decimal_from-digits : (fuel n : ℕ) → all is_ascii_digit (decimal_from fuel n) ≡ true
decimal_from-digits zero n = ap (all is_ascii_digit) (no_digits n)
decimal_from-digits (suc fuel) n = elim (Bool-cases (ltb n 10)) [
  | inl small ↦ ap (all is_ascii_digit) (decimal_from-small fuel n small) ∙ ground arith
  | inr large ↦
      ap (all is_ascii_digit) (decimal_from-large fuel n large)
      ∙ (all-append is_ascii_digit (decimal_from fuel (n / 10)) ((48 + n % 10) ∷ [])
          ∙ rw (decimal_from-digits fuel (n / 10)) (ground arith))
]

ten_times : (fuel : ℕ) → 10 ^ suc fuel ≡ 10 * 10 ^ fuel
ten_times fuel = omega (arith, pow-suc 10 fuel)

digits_value-decimal_from :
    (fuel n : ℕ)
    → n < 10 ^ fuel
    → n ≤ u32_max
    → digits_value (some 0) (decimal_from fuel n) ≡ some n
digits_value-decimal_from zero n h m =
    ap (digits_value (some 0)) (no_digits n) ∙ ap some (omega arith)
digits_value-decimal_from (suc fuel) n h m = elim (Bool-cases (ltb n 10)) [
  | inl small ↦
      ap (digits_value (some 0)) (decimal_from-small fuel n small)
      ∙ (digits_value-digit 0 n (ltb→lt n 10 small) (omega arith) ∙ ap some (omega arith))
  | inr large ↦
      ap (digits_value (some 0)) (decimal_from-large fuel n large)
      ∙ (digits_value-append (decimal_from fuel (n / 10)) ((48 + n % 10) ∷ []) (some 0)
          ∙ (ap (λ v. digits_value v ((48 + n % 10) ∷ []))
                (digits_value-decimal_from fuel (n / 10) (omega (arith, ten_times fuel))
                  (omega arith))
              ∙ (digits_value-digit (n / 10) (n % 10) (omega arith) (omega arith)
                  ∙ ap some (omega arith))))
]

not_empty : (s : Text) (c : ℕ) → is_empty (s ++ c ∷ []) ≡ false
not_empty [] c = refl
not_empty (d ∷ s) c = refl

pub decimal-not_empty : (n : ℕ) → is_empty (decimal n) ≡ false
decimal-not_empty n = elim (Bool-cases (ltb n 10)) [
  | inl small ↦ ap is_empty (decimal_from-small 9 n small)
  | inr large ↦
      ap is_empty (decimal_from-large 9 n large) ∙ not_empty (decimal_from 9 (n / 10)) (48 + n % 10)
]

-- A text of digits has no sign.
parse_u32-digits :
    (s : Text)
    → is_empty s ≡ false
    → all is_ascii_digit s ≡ true
    → parse_u32 s ≡ digits_value (some 0) s
parse_u32-digits [] e d = ground arith
parse_u32-digits (c ∷ []) e d = ground arith
parse_u32-digits (c ∷ c' ∷ s) e d = ground arith

-- A number of 32 bits in decimal is a component with its value.
pub parse_component-decimal : (n : ℕ) → n ≤ u32_max → parse_component (decimal n) ≡ some n
parse_component-decimal n m =
    rw (decimal-not_empty n, decimal_from-digits 10 n)
      (parse_u32-digits (decimal n) (decimal-not_empty n) (decimal_from-digits 10 n)
        ∙ digits_value-decimal_from 10 n (omega arith) m)
