-- ===== src/GkiLine/Filename.antt =====
-- crates/flux-core/src/gki_line.rs: a file that is taken for a generation is named for it.
use flux_rs.Base.{
  ℕ, ◌≤◌, ◌≡◌, refl, ap, sym, ◌∙◌, Bool, true, false, not, ◌==◌, Option, none, some, [], ◌∷◌, ◌++◌,
  u32_max, arith,
}
use flux_rs.Base.Text.{Text, all, is_ascii_digit, strip_prefix, split_once}
use flux_rs.Version.{and_then}
use flux_rs.GkiLine.{
  GkiLine, decimal, android_word, stem_word, extension, series_text, name, module_stem,
  strip_suffix, parse_series, before_dash, from_tokens, from_module_filename, is_build, is_build_of,
  matches_module_file,
}
use flux_rs.GkiLine.Decimal.{decimal_from-digits, parse_component-decimal}
use flux_rs.GkiLine.Affixes.{
  ++_assoc, strip_prefix-some, strip_suffix-some, strip_suffix-append, split-clear, split-cut,
  split_once-first, digits-clear, append_nil, all-append,
}

abbrev dot : ℕ → Bool
dot c = c == b'.'

abbrev dash : ℕ → Bool
dash c = c == b'-'

decimal-clear :
    (sep : ℕ → Bool) (n : ℕ)
    → ((c : ℕ) → is_ascii_digit c ≡ true → sep c ≡ false)
    → all (λ c. not (sep c)) (decimal n) ≡ true
decimal-clear sep n k = digits-clear sep (decimal n) k (decimal_from-digits 10 n)

abbrev IsU32 : GkiLine → Type 0
IsU32 line =
    (line.android ≤ u32_max) × (line.kernel_major ≤ u32_max) × (line.kernel_minor ≤ u32_max)

parse_series-series_text :
    (major minor : ℕ)
    → major ≤ u32_max
    → minor ≤ u32_max
    → parse_series (series_text major minor) ≡ some (major, minor)
parse_series-series_text major minor a b =
    rw
      (
        split-cut dot (decimal major) (decimal minor) b'.'
            (decimal-clear dot major (λ c d. ground arith)) refl,
        split-clear dot (decimal minor) (decimal-clear dot minor (λ c d. ground arith)),
        parse_component-decimal major a,
        parse_component-decimal minor b,
      )
      refl

series_text-clear : (major minor : ℕ) → all (λ c. not (dash c)) (series_text major minor) ≡ true
series_text-clear major minor =
    all-append (λ c. not (dash c)) (decimal major) (b'.' ∷ decimal minor)
    ∙ rw
        (
          decimal-clear dash major (λ c d. ground arith),
          decimal-clear dash minor (λ c d. ground arith),
        )
        refl

before_dash-build :
    (s body : Text)
    → all (λ c. not (dash c)) s ≡ true
    → is_build body ≡ true
    → before_dash (s ++ body) ≡ some s
before_dash-build s [] h k = rw (append_nil s, split-clear dash s h) refl
before_dash-build s (c ∷ body) h k = rw (split-cut dash s body c h k) refl

-- What follows "fluxrs-android" in a file's name, without its extension.
abbrev tokens : GkiLine → Text → Text
tokens line body =
    decimal line.android ++ b'-' ∷ (series_text line.kernel_major line.kernel_minor ++ body)

tokens-read :
    (line : GkiLine) (body : Text)
    → IsU32 line
    → is_build body ≡ true
    → and_then (split_once (b'-' ∷ []) (tokens line body)) from_tokens ≡ some line
tokens-read line body (a, b, c) h =
    let series = series_text line.kernel_major line.kernel_minor in
    rw
      (
        split_once-first (decimal line.android) (series ++ body) b'-'
            (decimal-clear dash line.android (λ c d. ground arith)),
        parse_component-decimal line.android a,
        before_dash-build series body (series_text-clear line.kernel_major line.kernel_minor) h,
        parse_series-series_text line.kernel_major line.kernel_minor b c,
      )
      refl

regroup :
    (a series body e : Text) (d : ℕ)
    → (a ++ d ∷ series) ++ (body ++ e) ≡ (a ++ d ∷ (series ++ body)) ++ e
regroup a series body e d =
    sym (++_assoc (a ++ d ∷ series) body e) ∙ ap (λ t. t ++ e) (++_assoc a (d ∷ series) body)

stem-tokens :
    (line : GkiLine) (body : Text)
    → module_stem line ++ (body ++ extension)
      ≡ (stem_word ++ android_word) ++ (tokens line body ++ extension)
unfolding module_stem name
stem-tokens line body =
    ap (λ t. (stem_word ++ android_word) ++ t)
      (regroup (decimal line.android) (series_text line.kernel_major line.kernel_minor) body
        extension b'-')

from_module_filename-module_stem :
    (line : GkiLine) (body : Text)
    → IsU32 line
    → is_build body ≡ true
    → from_module_filename (module_stem line ++ (body ++ extension)) ≡ some line
unfolding from_module_filename
from_module_filename-module_stem line body u h =
    ap from_module_filename (stem-tokens line body)
    ∙ rw (strip_suffix-append extension (tokens line body)) (tokens-read line body u h)

-- The build in the name of a file that matches.
build_in :
    (stem filename : Text) (rest : Option Text)
    → strip_prefix stem filename ≡ rest
    → is_build_of (and_then rest (strip_suffix extension)) ≡ true
    → (body : Text) × (filename ≡ stem ++ (body ++ extension)) × (is_build body ≡ true)
build_in stem filename none e h = ground arith
build_in stem filename (some rest) e h = suffixed (strip_suffix extension rest) refl h
  where
    suffixed :
        (o : Option Text)
        → strip_suffix extension rest ≡ o
        → is_build_of o ≡ true
        → (body : Text) × (filename ≡ stem ++ (body ++ extension)) × (is_build body ≡ true)
    suffixed none k b = ground arith
    suffixed (some body) k b = (
      body,
      strip_prefix-some stem filename rest e
          ∙ ap (λ t. stem ++ t) (strip_suffix-some extension rest body k),
      b,
    )

-- A file that matches a generation of 32-bit numbers is read as named for that generation.
pub from_module_filename-matches_module_file :
    (line : GkiLine) (filename : Text)
    → IsU32 line
    → matches_module_file line filename ≡ true
    → from_module_filename filename ≡ some line
unfolding matches_module_file
from_module_filename-matches_module_file line filename u h =
    let (body, e, build) =
      build_in (module_stem line) filename (strip_prefix (module_stem line) filename) refl h in
    ap from_module_filename e ∙ from_module_filename-module_stem line body u build

-- So no file matches two generations.
pub matches_module_file_unique :
    (a b : GkiLine) (filename : Text)
    → IsU32 a
    → IsU32 b
    → matches_module_file a filename ≡ true
    → matches_module_file b filename ≡ true
    → a ≡ b
matches_module_file_unique a b filename u v h k =
    let as_a = from_module_filename-matches_module_file a filename u h in
    let as_b = from_module_filename-matches_module_file b filename v k in cc
