-- ===== src/Version.antt =====
-- crates/flux-core/src/version.rs: versions and their Android version codes.
pub mod Code
mod Witnesses
use flux_rs.Base.{
  ℕ, zero, suc, ◌+◌, ◌*◌, ◌^◌, Bool, true, false, not, ◌||◌, ◌&&◌, ltb, leb, ◌==◌, if◌then◌else◌,
  Option, none, some, List, [], ◌∷◌, length, u32_max, checked_add, checked_mul,
}
use flux_rs.Base.Text.{Text, is_empty, all, is_ascii_digit, split_once, split, parse_u32}

pub record Version : Type 0 where
  pub major : ℕ
  pub minor : ℕ
  pub patch : ℕ
  pub release_candidate : Option ℕ

-- The `?` of Rust.
abbrev pub and_then {ℓ κ} : {A : Type ℓ} {B : Type κ} → Option A → (A → Option B) → Option B
and_then none f = none
and_then (some a) f = f a

abbrev pub exceeds : Option ℕ → ℕ → Bool
exceeds none max = false
exceeds (some n) max = ltb max n

-- `unwrap_or(999)`.
abbrev pub stage : Option ℕ → ℕ
stage none = 999
stage (some n) = n

abbrev pub i32_max : ℕ
i32_max = 0x7fff_ffff

unfoldable pub version_code : Version → Option ℕ
version_code v =
    if ltb 99 v.minor || ltb 99 v.patch || exceeds v.release_candidate 998
    then none
    else and_then (checked_mul u32_max v.major 100) (λ a.
      and_then (checked_add u32_max a v.minor) (λ b. and_then (checked_mul u32_max b 100) (λ c.
        and_then (checked_add u32_max c v.patch) (λ d. and_then (checked_mul u32_max d 1000) (λ e.
          and_then (checked_add u32_max e (stage v.release_candidate))
            (λ code. if leb code i32_max then some code else none))))))

abbrev pub leads_with_zero : Text → Bool
leads_with_zero [] = false
leads_with_zero (c ∷ s) = c == 48

unfoldable pub canonical_number : Text → Option ℕ
canonical_number text =
    if is_empty text
      || (ltb 1 (length text) && leads_with_zero text)
      || not (all is_ascii_digit text)
    then none
    else parse_u32 text

-- "-rc.".
abbrev pub rc_mark : Text
rc_mark = 45 ∷ 114 ∷ 99 ∷ 46 ∷ []

-- The three parts at the dots; fewer parts or more are refused.
abbrev pub of_parts : List Text → Option ℕ → Option Version
of_parts (a ∷ b ∷ c ∷ []) candidate = and_then (canonical_number a) (λ major.
    and_then (canonical_number b) (λ minor. and_then (canonical_number c) (λ patch.
      some
        (record { major = major; minor = minor; patch = patch; release_candidate = candidate }))))
of_parts parts candidate = none

abbrev pub checked_version : Version → Option Version
checked_version v = and_then (version_code v) (λ code. some v)

abbrev pub parse_triple_of : Option (Text × Text) → Text → Option Version
parse_triple_of none text = of_parts (split (λ c. c == 46) text) none
parse_triple_of (some (triple, candidate)) text =
    and_then (canonical_number candidate) (λ n. of_parts (split (λ c. c == 46) triple) (some n))

unfoldable pub parse_version : Text → Option Version
unfolding canonical_number version_code
parse_version text = and_then (parse_triple_of (split_once rc_mark text) text) checked_version

abbrev pub final_triple : Version → Option (ℕ × ℕ × ℕ)
final_triple v = triple_of v.release_candidate
  where
    triple_of : Option ℕ → Option (ℕ × ℕ × ℕ)
    triple_of none = some (v.major, v.minor, v.patch)
    triple_of (some n) = none

unfoldable pub parse_triple : Text → Option (ℕ × ℕ × ℕ)
unfolding parse_version
parse_triple text = and_then (parse_version text) final_triple
