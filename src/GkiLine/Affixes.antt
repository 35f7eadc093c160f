-- ===== src/GkiLine/Affixes.antt =====
-- crates/flux-core/src/gki_line.rs: what `strip_prefix`, `strip_suffix`, `split` and `split_once` take
-- apart.
use flux_rs.Base.{
  ℕ, ◌<◌, length, length-append, ◌≡◌, refl, ap, sym, ◌∙◌, Bool, true, false, not, ◌&&◌, ◌==◌,
  Option, none, some, [], ◌∷◌, ◌++◌, Bool-cases, ==_iff, inl, inr, arith,
}
use flux_rs.Base.Text.{
  Text, text_eq, text_eq_iff, all, is_ascii_digit, strip_prefix, split_once, split,
}
use flux_rs.GkiLine.{strip_suffix, put_front}

pub ++_assoc : (s t u : Text) → (s ++ t) ++ u ≡ s ++ (t ++ u)
++_assoc [] t u = refl
++_assoc (c ∷ s) t u = ap (λ rest. c ∷ rest) (++_assoc s t u)

pub strip_prefix-append : (p s : Text) → strip_prefix p (p ++ s) ≡ some s
strip_prefix-append [] s = refl
strip_prefix-append (c ∷ p) s = ground (arith, strip_prefix-append p s)

pub strip_prefix-some : (p f s : Text) → strip_prefix p f ≡ some s → f ≡ p ++ s
strip_prefix-some [] f s h = cc
strip_prefix-some (c ∷ p) [] s h = ground arith
strip_prefix-some (c ∷ p) (d ∷ f) s h = ground (arith, ==_iff c d, strip_prefix-some p f s)

pub put_back :
    (c : ℕ) (o : Option Text) (s : Text)
    → put_front c o ≡ some s
    → (r : Text) × (o ≡ some r) × (s ≡ c ∷ r)
put_back c none s h = ground arith
put_back c (some r) s h = (r, refl, cc)

pub strip_suffix-some : (p f s : Text) → strip_suffix p f ≡ some s → f ≡ s ++ p
strip_suffix-some [] [] s h = ground arith
strip_suffix-some (q ∷ p) [] s h = ground arith
strip_suffix-some p (c ∷ f) s h = elim (Bool-cases (text_eq (c ∷ f) p)) [
  | inl all ↦ ground (arith, text_eq_iff (c ∷ f) p)
  | inr part ↦
      let (r, e, cons) = put_back c (strip_suffix p f) s (ground arith) in
      ap (λ rest. c ∷ rest) (strip_suffix-some p f r e) ∙ ap (λ t. t ++ p) (sym cons)
]

pub longer : (t p : Text) → length p < length t → text_eq t p ≡ false
longer [] p h = ground arith
longer (c ∷ t) [] h = refl
longer (c ∷ t) (d ∷ p) h = ground (arith, longer t p)

pub strip_suffix-append : (p s : Text) → strip_suffix p (s ++ p) ≡ some s
strip_suffix-append [] [] = refl
strip_suffix-append (c ∷ p) [] = ground (arith, text_eq_iff (c ∷ p) (c ∷ p))
strip_suffix-append p (c ∷ s) =
    rw (longer (c ∷ s ++ p) p (omega (arith, length-append s p)), strip_suffix-append p s) refl

-- No piece ends within `s`.
pub split-clear :
    (sep : ℕ → Bool) (s : Text) → all (λ c. not (sep c)) s ≡ true → split sep s ≡ s ∷ []
split-clear sep [] h = refl
split-clear sep (c ∷ s) h = ground (arith, split-clear sep s)

pub split-cut :
    (sep : ℕ → Bool) (s t : Text) (d : ℕ)
    → all (λ c. not (sep c)) s ≡ true
    → sep d ≡ true
    → split sep (s ++ d ∷ t) ≡ s ∷ split sep t
split-cut sep [] t d h k = ground arith
split-cut sep (c ∷ s) t d h k = ground (arith, split-cut sep s t d)

pub split_once-first :
    (s t : Text) (d : ℕ)
    → all (λ c. not (c == d)) s ≡ true
    → split_once (d ∷ []) (s ++ d ∷ t) ≡ some (s, t)
split_once-first [] t d h = ground arith
split_once-first (c ∷ s) t d h = ground (arith, split_once-first s t d)

-- Digits hold no separator.
pub digits-clear :
    (sep : ℕ → Bool) (s : Text)
    → ((c : ℕ) → is_ascii_digit c ≡ true → sep c ≡ false)
    → all is_ascii_digit s ≡ true
    → all (λ c. not (sep c)) s ≡ true
digits-clear sep [] k h = refl
digits-clear sep (c ∷ s) k h = ground (arith, k c, digits-clear sep s k)

pub append_nil : (s : Text) → s ++ [] ≡ s
append_nil [] = refl
append_nil (c ∷ s) = ap (λ t. c ∷ t) (append_nil s)

pub all-append : (p : ℕ → Bool) (s t : Text) → all p (s ++ t) ≡ all p s && all p t
all-append p [] t = refl
all-append p (c ∷ s) t = ground (arith, all-append p s t)
