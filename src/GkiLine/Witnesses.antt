-- ===== src/GkiLine/Witnesses.antt =====
-- The line android13-5.15 and its files.
use flux_rs.Base.{◌≡◌, refl, true, some, [], ◌∷◌, ◌++◌, arith}
use flux_rs.Base.Text.{Text}
use flux_rs.GkiLine.{
  GkiLine, decimal_from, name, module_stem, extension, stem_word, android_word,
  from_module_filename, matches_module_file, android_from_release, android_for_series,
  from_uname_release, pick_module_file,
}
use flux_rs.GkiLine.Filename.{from_module_filename-matches_module_file}
use flux_rs.GkiLine.Scanning.{IsPick}
use flux_rs.GkiLine.Picking.{pick_module_file-IsPick}

abbrev line : GkiLine
line = record { android = 13; kernel_major = 5; kernel_minor = 15 }

-- "fluxrs-android13-5.15".
abbrev stem : Text
stem = stem_word ++ android_word ++ b'1' ∷ b'3' ∷ b'-' ∷ b'5' ∷ b'.' ∷ b'1' ∷ b'5' ∷ []

-- A build, "fluxrs-android13-5.15-gabc.ko".
abbrev built : Text
built = stem ++ b'-' ∷ b'g' ∷ b'a' ∷ b'b' ∷ b'c' ∷ extension

-- "5.15.9-x".
release-line :
    from_uname_release (b'5' ∷ b'.' ∷ b'1' ∷ b'5' ∷ b'.' ∷ b'9' ∷ b'-' ∷ b'x' ∷ []) ≡ some line
unfolding from_uname_release android_from_release android_for_series
release-line = refl

built-matches : matches_module_file line built ≡ true
unfolding matches_module_file module_stem name decimal_from
built-matches = refl

picked : pick_module_file line (built ∷ (stem ++ extension) ∷ []) ≡ some (stem ++ extension)
unfolding pick_module_file matches_module_file module_stem name decimal_from
picked = refl

from_module_filename-matches_module_file_example : from_module_filename built ≡ some line
from_module_filename-matches_module_file_example =
    from_module_filename-matches_module_file line built (omega arith, omega arith, omega arith)
      built-matches

pick_module_file-IsPick_example :
    IsPick line
      (built ∷ (stem ++ extension) ∷ [])
      (pick_module_file line (built ∷ (stem ++ extension) ∷ []))
pick_module_file-IsPick_example = pick_module_file-IsPick line (built ∷ (stem ++ extension) ∷ [])
