-- ===== src/Version/Code.antt =====
-- crates/flux-core/src/version.rs: the version code as an order-preserving number.
use flux_rs.Base.{ℕ, ◌+◌, ◌*◌, ◌≤◌, ◌<◌, ◌≡◌, ◌↔◌, ◌⊎◌, sym, false, Option, none, some, arith}
use flux_rs.Version.{Version, version_code, stage, exceeds, i32_max}

-- Major first, then minor, then patch, then the stage: candidates by number, the final release last.
abbrev pub Precedes : Version → Version → Type 0
Precedes v w =
    (v.major < w.major)
    ⊎ ((v.major ≡ w.major)
        × ((v.minor < w.minor)
            ⊎ ((v.minor ≡ w.minor)
                × ((v.patch < w.patch)
                    ⊎ ((v.patch ≡ w.patch)
                        × (stage v.release_candidate < stage w.release_candidate))))))

abbrev pub InBounds : Version → Type 0
InBounds v = (v.minor ≤ 99) × (v.patch ≤ 99) × (exceeds v.release_candidate 998 ≡ false)

abbrev pub number : Version → ℕ
number v = ((v.major * 100 + v.minor) * 100 + v.patch) * 1000 + stage v.release_candidate

-- A version has a code exactly when its parts are in bounds and the number fits 31 bits, and the code
-- is the number: the checked arithmetic refuses nothing else.
pub version_code_iff :
    (v : Version) (code : ℕ)
    → (version_code v ≡ some code) ↔ (InBounds v × (number v ≤ i32_max) × (number v ≡ code))
unfolding version_code
version_code_iff v code = ground arith

stage-bounds : (c : Option ℕ) → exceeds c 998 ≡ false → stage c ≤ 999
stage-bounds none h = omega arith
stage-bounds (some n) h = ground arith

number-lt_iff :
    (M m p s M' m' p' s' : ℕ)
    → m ≤ 99
    → p ≤ 99
    → s ≤ 999
    → m' ≤ 99
    → p' ≤ 99
    → s' ≤ 999
    → (((M * 100 + m) * 100 + p) * 1000 + s < ((M' * 100 + m') * 100 + p') * 1000 + s')
      ↔ ((M < M') ⊎ ((M ≡ M') × ((m < m') ⊎ ((m ≡ m') × ((p < p') ⊎ ((p ≡ p') × (s < s')))))))
number-lt_iff M m p s M' m' p' s' a b c d e f = ground arith

-- Version codes are ordered as the versions are: by major, minor and patch number, and then a release
-- candidate by its number before the final release.
pub version_code-lt_iff :
    (v w : Version) (c d : ℕ)
    → version_code v ≡ some c
    → version_code w ≡ some d
    → (c < d) ↔ Precedes v w
version_code-lt_iff v w c d h k =
    let a = (version_code_iff v c).0 h in
    let b = (version_code_iff w d).0 k in
    rw (sym a.2, sym b.2)
      (number-lt_iff v.major v.minor v.patch (stage v.release_candidate) w.major w.minor w.patch
        (stage w.release_candidate) a.0.0 a.0.1 (stage-bounds v.release_candidate a.0.2) b.0.0 b.0.1
        (stage-bounds w.release_candidate b.0.2))
