-- ===== src/Ssid.antt =====
-- crates/flux-core/src/ssid.rs: whether the connected networks pause the module.
pub mod Verdict
use flux_rs.Base.{
  ℕ, zero, suc, ◌+◌, Bool, true, false, not, ◌||◌, if◌then◌else◌, Option, none, some, List, [], ◌∷◌,
}
use flux_rs.Base.Text.{Text, text_eq}

pub data ListMode : Type 0 where
  blacklist whitelist : ListMode

pub record SsidVerdict : Type 0 where
  pub paused : Bool
  pub matched_entry : Option ℕ

abbrev pub is_connected : Text → List Text → Bool
is_connected entry [] = false
is_connected entry (ssid ∷ ssids) = text_eq entry ssid || is_connected entry ssids

abbrev pub next_position : Option ℕ → Option ℕ
next_position none = none
next_position (some i) = some (suc i)

-- `position`.
abbrev pub position : List Text → List Text → Option ℕ
position [] connected = none
position (entry ∷ list) connected =
    if is_connected entry connected then some 0 else next_position (position list connected)

abbrev pub verdict : ListMode → Option ℕ → SsidVerdict
verdict blacklist none = record { paused = false; matched_entry = none }
verdict blacklist (some index) = record { paused = true; matched_entry = some (index + 1) }
verdict whitelist none = record { paused = true; matched_entry = none }
verdict whitelist (some index) = record { paused = false; matched_entry = none }

-- Entries and SSIDs are byte strings.
unfoldable pub ssid_verdict : ListMode → List Text → List Text → SsidVerdict
ssid_verdict mode list [] = record { paused = false; matched_entry = none }
ssid_verdict mode list (ssid ∷ ssids) = verdict mode (position list (ssid ∷ ssids))
