-- ===== src/Version/Witnesses.antt =====
-- Concrete versions.
use flux_rs.Base.{◌≡◌, ◌<◌, ◌↔◌, refl, none, some, [], ◌∷◌}
use flux_rs.Version.{Version, version_code, parse_version}
use flux_rs.Version.Code.{version_code-lt_iff, Precedes}

abbrev candidate : Version
candidate = record { major = 0; minor = 9; patch = 0; release_candidate = some 3 }

abbrev final : Version
final = record { major = 0; minor = 9; patch = 0; release_candidate = none }

version_code-lt_iff_example : (900003 < 900999) ↔ Precedes candidate final
unfolding version_code
version_code-lt_iff_example = version_code-lt_iff candidate final 900003 900999 refl refl

-- "0.9.0-rc.3".
parsed : parse_version (48 ∷ 46 ∷ 57 ∷ 46 ∷ 48 ∷ 45 ∷ 114 ∷ 99 ∷ 46 ∷ 51 ∷ []) ≡ some candidate
unfolding parse_version
parsed = refl
