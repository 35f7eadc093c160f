-- ===== src/Ssid/Verdict.antt =====
-- crates/flux-core/src/ssid.rs: the verdict against the sets of listed and connected networks.
use flux_rs.Base.{
  ℕ, ◌≡◌, ◌≢◌, ◌↔◌, refl, true, false, Option, none, some, List, [], ◌∷◌, All, arith,
}
use flux_rs.Base.Text.{Text, text_eq_iff}
use flux_rs.Ssid.{
  blacklist, whitelist, ssid_verdict, position, next_position, is_connected, verdict,
}

-- No listed network is connected.
abbrev pub Disjoint : List Text → List Text → Type 0
Disjoint list connected = All (λ entry. All (λ ssid. entry ≢ ssid) connected) list

is_connected_iff :
    (entry : Text) (connected : List Text)
    → (is_connected entry connected ≡ false) ↔ All (λ ssid. entry ≢ ssid) connected
is_connected_iff entry [] = ground arith
is_connected_iff entry (ssid ∷ ssids) =
    ground (arith, text_eq_iff entry ssid, is_connected_iff entry ssids)

next_position_iff : (p : Option ℕ) → (next_position p ≡ none) ↔ (p ≡ none)
next_position_iff none = ground arith
next_position_iff (some i) = ground arith

position_iff :
    (list connected : List Text) → (position list connected ≡ none) ↔ Disjoint list connected
position_iff [] connected = ground arith
position_iff (entry ∷ list) connected = ground (
  arith,
  is_connected_iff entry connected,
  next_position_iff (position list connected),
  position_iff list connected,
)

Disjoint-none : (list : List Text) → Disjoint list []
Disjoint-none [] = tt
Disjoint-none (entry ∷ list) = (tt, Disjoint-none list)

-- A blacklist pauses exactly when a listed network is connected.
pub blacklist_iff :
    (list connected : List Text)
    → ((ssid_verdict blacklist list connected).paused ≡ false) ↔ Disjoint list connected
unfolding ssid_verdict
blacklist_iff list [] = ((λ h. Disjoint-none list), (λ h. refl))
blacklist_iff list (ssid ∷ ssids) =
    let p = position_iff list (ssid ∷ ssids) in
    ((λ h. p.0 (calm (position list (ssid ∷ ssids)) h)), (λ h. rw (p.1 h)))
  where
    calm : (p : Option ℕ) → (verdict blacklist p).paused ≡ false → p ≡ none
    calm none h = refl
    calm (some i) h = ground arith

-- A whitelist pauses exactly when some network is connected and none of them is listed.
pub whitelist_iff :
    (list connected : List Text)
    → ((ssid_verdict whitelist list connected).paused ≡ true)
      ↔ ((connected ≢ []) × Disjoint list connected)
unfolding ssid_verdict
whitelist_iff list [] = ((λ h. ground arith), (λ h. absurd (h.0 refl)))
whitelist_iff list (ssid ∷ ssids) =
    let p = position_iff list (ssid ∷ ssids) in
    ((λ h. (ground arith, p.0 (paused (position list (ssid ∷ ssids)) h))), (λ h. rw (p.1 h.1)))
  where
    paused : (p : Option ℕ) → (verdict whitelist p).paused ≡ true → p ≡ none
    paused none h = refl
    paused (some i) h = ground arith
