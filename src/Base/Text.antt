-- ===== src/Base/Text.antt =====
-- Strings as lists of Unicode scalar values, and what the components use of Rust's `str`.
use flux_rs.Base.Tests.{leb, ◌==◌, if◌then◌else◌}
use flux_rs.Base.Words.{u32_max, checked_add, checked_mul}
use Prim.Native.Nat.{ℕ, ◌-◌}
use mathlib.Core.Bool.{Bool, true, false, ◌&&◌, ◌||◌}
use mathlib.Core.Option.{Option, none, some}
use mathlib.Core.List.{List, [], ◌∷◌}
use mathlib.Core.Path.{◌≡◌}
use mathlib.Core.Logic.{◌↔◌}
use native.Mathlib.Omega.{arith}

abbrev pub Text : Type 0
Text = List ℕ

abbrev pub is_empty : Text → Bool
is_empty [] = true
is_empty (c ∷ s) = false

abbrev pub text_eq : Text → Text → Bool
text_eq [] [] = true
text_eq [] (d ∷ t) = false
text_eq (c ∷ s) [] = false
text_eq (c ∷ s) (d ∷ t) = (c == d) && text_eq s t

abbrev pub contains_char : ℕ → Text → Bool
contains_char c [] = false
contains_char c (d ∷ s) = (c == d) || contains_char c s

abbrev pub all : (ℕ → Bool) → Text → Bool
all p [] = true
all p (c ∷ s) = p c && all p s

pub text_eq_iff : (s t : Text) → (text_eq s t ≡ true) ↔ (s ≡ t)
text_eq_iff [] [] = ground arith
text_eq_iff [] (d ∷ t) = ground arith
text_eq_iff (c ∷ s) [] = ground arith
text_eq_iff (c ∷ s) (d ∷ t) = ground (arith, text_eq_iff s t)

-- The code points of White_Space.
abbrev pub is_whitespace : ℕ → Bool
is_whitespace c =
    (leb 9 c && leb c 13)
    || (c == 32)
    || (c == 133)
    || (c == 160)
    || (c == 5760)
    || (leb 8192 c && leb c 8202)
    || (c == 8232)
    || (c == 8233)
    || (c == 8239)
    || (c == 8287)
    || (c == 12288)

abbrev pub is_ascii_digit : ℕ → Bool
is_ascii_digit c = leb 48 c && leb c 57

-- `strip_prefix`.
abbrev pub strip_prefix : Text → Text → Option Text
strip_prefix [] s = some s
strip_prefix (c ∷ p) [] = none
strip_prefix (c ∷ p) (d ∷ s) = if c == d then strip_prefix p s else none

abbrev hold : ℕ → Option (Text × Text) → Option (Text × Text)
hold c none = none
hold c (some (before, after)) = some (c ∷ before, after)

abbrev cut : Option Text → Option (Text × Text) → Option (Text × Text)
cut (some after) later = some ([], after)
cut none later = later

-- `split_once` at the first place where the pattern stands.
abbrev pub split_once : Text → Text → Option (Text × Text)
split_once p [] = cut (strip_prefix p []) none
split_once p (c ∷ s) = cut (strip_prefix p (c ∷ s)) (hold c (split_once p s))

abbrev push_front : ℕ → List Text → List Text
push_front c [] = (c ∷ []) ∷ []
push_front c (s ∷ ss) = (c ∷ s) ∷ ss

-- `split` at a separator: one piece more than there are separators.
abbrev pub split : (ℕ → Bool) → Text → List Text
split sep [] = [] ∷ []
split sep (c ∷ s) = if sep c then [] ∷ split sep s else push_front c (split sep s)

abbrev drop_empty : List Text → List Text
drop_empty [] = []
drop_empty (s ∷ ss) = if is_empty s then drop_empty ss else s ∷ drop_empty ss

abbrev pub split_whitespace : Text → List Text
split_whitespace s = drop_empty (split is_whitespace s)

abbrev without_return : Text → Text
without_return [] = []
without_return (c ∷ []) = if c == 13 then [] else c ∷ []
without_return (c ∷ d ∷ s) = c ∷ without_return (d ∷ s)

abbrev terminated : List Text → List Text
terminated [] = []
terminated (s ∷ []) = if is_empty s then [] else s ∷ []
terminated (s ∷ t ∷ ss) = without_return s ∷ terminated (t ∷ ss)

-- `lines`: ended by a line feed that a carriage return may precede; no line after the last one.
abbrev pub lines : Text → List Text
lines s = terminated (split (λ c. c == 10) s)

abbrev pub trim_start : Text → Text
trim_start [] = []
trim_start (c ∷ s) = if is_whitespace c then trim_start s else c ∷ s

abbrev pub trim_end : Text → Text
trim_end [] = []
trim_end (c ∷ s) = keep c (trim_end s)
  where
    keep : ℕ → Text → Text
    keep c [] = if is_whitespace c then [] else c ∷ []
    keep c (d ∷ t) = c ∷ d ∷ t

abbrev pub trim : Text → Text
trim s = trim_end (trim_start s)

-- The digits' value after `value`, checked at every step.
abbrev pub digits_value : Option ℕ → Text → Option ℕ
digits_value none s = none
digits_value (some value) [] = some value
digits_value (some value) (c ∷ s) = digits_value (shifted (checked_mul u32_max value 10)) s
  where
    shifted : Option ℕ → Option ℕ
    shifted none = none
    shifted (some tens) = if is_ascii_digit c then checked_add u32_max tens (c - 48) else none

-- `str::parse::<u32>`: an optional plus sign, then at least one digit.
abbrev pub parse_u32 : Text → Option ℕ
parse_u32 [] = none
parse_u32 (c ∷ []) = if c == 43 then none else digits_value (some 0) (c ∷ [])
parse_u32 (c ∷ d ∷ s) =
    if c == 43 then digits_value (some 0) (d ∷ s) else digits_value (some 0) (c ∷ d ∷ s)
