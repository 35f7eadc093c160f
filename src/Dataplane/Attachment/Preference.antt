-- ===== src/Dataplane/Attachment/Preference.antt =====
-- crates/fluxd/src/dataplane/attachment.rs: `select_pref`, the slot of a capture filter.
use flux_rs.Base.{
  ℕ, zero, suc, ◌+◌, ◌-◌, ◌≤◌, ◌<◌, ◌≡◌, min, Bool, true, false, ◌&&◌, ◌||◌, leb, ◌==◌,
  if◌then◌else◌, Option, none, some, List, [], ◌∷◌,
}
use flux_rs.Base.Text.{Text, strip_prefix}

-- The fields of `Link` and `Filter` that the choice reads.
pub record Link : Type 0 where
  pub name : Text

pub record Filter : Type 0 where
  pub chain : ℕ
  pub priority : ℕ
  pub prog_name : Option Text

abbrev pub tc_pref_preferred : ℕ
tc_pref_preferred = 2

abbrev pub tc_pref_clat_max : ℕ
tc_pref_clat_max = 4

abbrev pub u16_max : ℕ
u16_max = 0xffff

-- `name.starts_with("v4-")`.
abbrev pub starts_with : Text → Text → Bool
starts_with p s = is_found (strip_prefix p s)
  where
    is_found : Option Text → Bool
    is_found none = false
    is_found (some rest) = true

abbrev pub is_v4 : Link → Bool
is_v4 link = starts_with (118 ∷ 52 ∷ 45 ∷ []) link.name

abbrev pub to_ascii_lowercase : Text → Text
to_ascii_lowercase [] = []
to_ascii_lowercase (c ∷ s) = (if leb 65 c && leb c 90 then c + 32 else c) ∷ to_ascii_lowercase s

abbrev pub contains_text : Text → Text → Bool
contains_text p [] = starts_with p []
contains_text p (c ∷ s) = starts_with p (c ∷ s) || contains_text p s

-- `prog_name.is_some_and(|name| name.to_ascii_lowercase().contains("clat"))`.
abbrev pub names_clat : Option Text → Bool
names_clat none = false
names_clat (some name) = contains_text (99 ∷ 108 ∷ 97 ∷ 116 ∷ []) (to_ascii_lowercase name)

abbrev pub is_occupied : List Filter → ℕ → Bool
is_occupied [] pref = false
is_occupied (f ∷ fs) pref = ((f.chain == 0) && (f.priority == pref)) || is_occupied fs pref

abbrev lower : ℕ → Option ℕ → ℕ
lower p none = p
lower p (some q) = min p q

-- The least priority of the CLAT filters of chain zero.
abbrev pub clat_pref : List Filter → Option ℕ
clat_pref [] = none
clat_pref (f ∷ fs) =
    if (f.chain == 0) && names_clat f.prog_name
    then some (lower f.priority (clat_pref fs))
    else clat_pref fs

-- `(from..from + n).find(|pref| !occupied.contains(pref))`.
unfoldable pub find_free : List Filter → ℕ → ℕ → Option ℕ
find_free fs zero from = none
find_free fs (suc n) from =
    let later = find_free fs n (suc from) in if is_occupied fs from then later else some from

abbrev pub below_clat : List Filter → Option ℕ → Option ℕ
below_clat fs none = none
below_clat fs (some p) = find_free fs (min p tc_pref_clat_max - tc_pref_preferred) tc_pref_preferred

unfoldable pub select_pref : Link → List Filter → Option ℕ
unfolding find_free
select_pref link fs =
    if is_v4 link
    then below_clat fs (clat_pref fs)
    else find_free fs (u16_max + 1 - tc_pref_preferred) tc_pref_preferred

-- The least free preference from a bound on, below another.
pub record IsLeastFree (fs : List Filter) (from end p : ℕ) : Type 0 where
  pub least : from ≤ p
  pub below : p < end
  pub free : is_occupied fs p ≡ false
  pub first : (q : ℕ) → from ≤ q → q < p → is_occupied fs q ≡ true

-- The bound of the preferences for a link: before every CLAT filter on a CLAT link, and then below 4.
abbrev pub pref_end : Bool → Option ℕ → ℕ
pref_end false c = u16_max + 1
pref_end true none = tc_pref_preferred
pref_end true (some c) = min c tc_pref_clat_max
