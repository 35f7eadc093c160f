-- ===== src/GkiLine.antt =====
-- crates/flux-core/src/gki_line.rs: the generation of a kernel, and the module file built for it.
pub mod Affixes
pub mod Decimal
pub mod Filename
pub mod Scanning
pub mod Picking
mod Witnesses
use Prim.Native.Nat.{Ordering}
use Prim.Native.Nat.Ordering.{lt, eq, gt}
use flux_rs.Base.{
  ℕ, zero, suc, ◌+◌, ◌/◌, ◌%◌, Bool, true, false, not, ◌||◌, ltb, leb, ◌==◌, if◌then◌else◌, Option,
  none, some, List, [], ◌∷◌, ◌++◌,
}
use flux_rs.Base.Text.{
  Text, is_empty, text_eq, all, is_ascii_digit, strip_prefix, split_once, split, trim, parse_u32,
}
use flux_rs.Collections.TextOrd.{text_compare}
use flux_rs.Version.{and_then}

pub record GkiLine : Type 0 where
  pub android : ℕ
  pub kernel_major : ℕ
  pub kernel_minor : ℕ

-- A `u32` in decimal; it has at most ten digits.
unfoldable pub decimal_from : ℕ → ℕ → Text
decimal_from zero n = []
decimal_from (suc fuel) n =
    let before = decimal_from fuel (n / 10) in
    if ltb n 10 then (48 + n) ∷ [] else before ++ (48 + n % 10) ∷ []

abbrev pub decimal : ℕ → Text
decimal n = decimal_from 10 n

-- "android" and "fluxrs-".
abbrev pub android_word : Text
android_word = b'a' ∷ b'n' ∷ b'd' ∷ b'r' ∷ b'o' ∷ b'i' ∷ b'd' ∷ []

abbrev pub stem_word : Text
stem_word = b'f' ∷ b'l' ∷ b'u' ∷ b'x' ∷ b'r' ∷ b's' ∷ b'-' ∷ []

-- ".ko".
abbrev pub extension : Text
extension = b'.' ∷ b'k' ∷ b'o' ∷ []

abbrev pub series_text : ℕ → ℕ → Text
series_text major minor = decimal major ++ b'.' ∷ decimal minor

unfoldable pub name : GkiLine → Text
name line =
    android_word ++ decimal line.android ++ b'-' ∷ series_text line.kernel_major line.kernel_minor

unfoldable pub module_stem : GkiLine → Text
unfolding name
module_stem line = stem_word ++ name line

abbrev pub put_front : ℕ → Option Text → Option Text
put_front c none = none
put_front c (some s) = some (c ∷ s)

-- `strip_suffix`.
abbrev pub strip_suffix : Text → Text → Option Text
strip_suffix p [] = if text_eq [] p then some [] else none
strip_suffix p (c ∷ s) =
    let rest = strip_suffix p s in if text_eq (c ∷ s) p then some [] else put_front c rest

abbrev pub parse_component : Text → Option ℕ
parse_component text =
    if is_empty text || not (all is_ascii_digit text) then none else parse_u32 text

abbrev pub series_of : List Text → Option (ℕ × ℕ)
series_of (a ∷ b ∷ rest) =
    and_then (parse_component a)
      (λ major. and_then (parse_component b) (λ minor. some (major, minor)))
series_of parts = none

abbrev pub parse_series : Text → Option (ℕ × ℕ)
parse_series series = series_of (split (λ c. c == b'.') series)

-- `split('-').next()`.
abbrev pub before_dash : Text → Option Text
before_dash s = first (split (λ c. c == b'-') s)
  where
    first : List Text → Option Text
    first [] = none
    first (piece ∷ pieces) = some piece

abbrev pub line_of : ℕ → ℕ × ℕ → Option GkiLine
line_of android (major, minor) =
    some (record { android = android; kernel_major = major; kernel_minor = minor })

abbrev pub from_tokens : Text × Text → Option GkiLine
from_tokens (android_token, series_and_build) = and_then (parse_component android_token) (λ android.
    and_then (before_dash series_and_build)
      (λ series. and_then (parse_series series) (line_of android)))

unfoldable pub from_module_filename : Text → Option GkiLine
from_module_filename filename =
    and_then (strip_prefix (stem_word ++ android_word) filename) (λ rest.
      and_then (strip_suffix extension rest)
        (λ body. and_then (split_once (b'-' ∷ []) body) from_tokens))

abbrev pub is_build : Text → Bool
is_build [] = true
is_build (c ∷ body) = c == b'-'

abbrev pub is_build_of : Option Text → Bool
is_build_of none = false
is_build_of (some body) = is_build body

unfoldable pub matches_module_file : GkiLine → Text → Bool
unfolding module_stem
matches_module_file line filename =
    is_build_of (and_then (strip_prefix (module_stem line) filename) (strip_suffix extension))

unfoldable pub android_for_series : ℕ → ℕ → Option ℕ
android_for_series major minor =
    if major == 5
    then (if minor == 10 then some 12 else if minor == 15 then some 13 else none)
    else if major == 6
    then (if minor == 1
        then some 14
        else if minor == 6
        then some 15
        else if minor == 12
        then some 16
        else if minor == 18
        then some 17
        else none)
    else none

abbrev token_of : Text × Text → Option ℕ
token_of (before, after) = and_then (before_dash after) parse_component

-- After the first "-android".
unfoldable pub android_from_release : Text → Option ℕ
android_from_release release = and_then (split_once (b'-' ∷ android_word) release) token_of

abbrev android_of : Option ℕ → Option ℕ → Option ℕ
android_of none default = default
android_of (some n) default = some n

abbrev pub release_line : Text → Option GkiLine
unfolding android_from_release android_for_series
release_line release = and_then (before_dash release) (λ series.
    and_then (parse_series series) (λ (major, minor).
      and_then (android_of (android_from_release release) (android_for_series major minor))
        (λ android. line_of android (major, minor))))

unfoldable pub from_uname_release : Text → Option GkiLine
from_uname_release release =
    let trimmed = trim release in if is_empty trimmed then none else release_line trimmed

-- `<` of `str`.
abbrev pub text_lt : Text → Text → Bool
text_lt s t = is_lt (text_compare s t)
  where
    is_lt : Ordering → Bool
    is_lt lt = true
    is_lt eq = false
    is_lt gt = false

abbrev pub better : Option Text → Text → Option Text
better none name = some name
better (some current) name = if text_lt name current then some name else some current

-- The loop of `pick_module_file`, with the fallback found so far.
abbrev pub pick_from : GkiLine → Option Text → List Text → Option Text
pick_from line fallback [] = fallback
pick_from line fallback (name ∷ names) =
    let skipped = pick_from line fallback names in
    let kept = pick_from line (better fallback name) names in
    if not (matches_module_file line name)
    then skipped
    else if text_eq name (module_stem line ++ extension)
    then some name
    else kept

unfoldable pub pick_module_file : GkiLine → List Text → Option Text
unfolding matches_module_file module_stem
pick_module_file line names = pick_from line none names
