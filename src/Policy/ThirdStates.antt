-- ===== src/Policy/ThirdStates.antt =====
-- The defect of the add-then-subtract order, and that the epoch commit is free of it: some window
-- gives a new flow a verdict that neither the old policy nor the new one gives.
use flux_rs.Base.{ℕ, ◌≡◌, refl, Bool, true, false, not, List, [], ◌∷◌, if◌then◌else◌, arith}
use flux_rs.Collections.Ord.{nat_ord}
use flux_rs.Collections.BTreeMap.{BTreeSet, contains, extend}
use flux_rs.Collections.BTreeMap.Laws.{get-extend}
use flux_rs.Policy.Epoch.{
  PolicyEpoch, Dest, v4, v6, direct, captured, committed, observe_new_flow, bypass_direct,
}
use flux_rs.Policy.Windows.{add_then_subtract_windows}
use flux_rs.Policy.Commit.{IsOrdered, select_all_lem}

-- The window after the UID phase of the add-then-subtract order.
abbrev pub second {ℓ} : {A : Type ℓ} → A → List A → A
second d [] = d
second d (x ∷ []) = d
second d (x ∷ y ∷ ys) = y

bypass_ignores_uids :
    (e : PolicyEpoch) (s t : BTreeSet ℕ) (dest : Dest)
    → bypass_direct (record e { selected = s; draining = t }) dest ≡ bypass_direct e dest
unfolding bypass_direct
bypass_ignores_uids e s t (v4 a) = refl
bypass_ignores_uids e s t (v6 a) = refl

bypass_of_committed :
    (from desired : PolicyEpoch) (dest : Dest)
    → bypass_direct (committed from desired) dest ≡ bypass_direct desired dest
unfolding bypass_direct committed
bypass_of_committed from desired (v4 a) = refl
bypass_of_committed from desired (v6 a) = refl

-- A UID that only the desired policy selects, and a destination that only the desired policy
-- bypasses: the flow is direct before and after, and captured in the window between.
pub new_uid-third_state :
    (from desired : PolicyEpoch) (uid : ℕ) (dest : Dest)
    → IsOrdered desired
    → contains uid from.selected ≡ false
    → contains uid desired.selected ≡ true
    → bypass_direct from dest ≡ false
    → bypass_direct desired dest ≡ true
    → (observe_new_flow from uid dest ≡ direct)
      × (observe_new_flow (committed from desired) uid dest ≡ direct)
      × (observe_new_flow (second from (add_then_subtract_windows from desired)) uid dest
          ≡ captured)
unfolding observe_new_flow add_then_subtract_windows
new_uid-third_state from desired uid dest h old new miss hit = (
  rw old,
  rw (bypass_of_committed from desired dest, hit)
      (either (not (contains uid (committed from desired).selected))),
  rw
      (
        select_all_lem desired.selected from,
        bypass_ignores_uids from (extend from.selected desired.selected) _ dest,
        miss,
      )
      (ground (arith, get-extend uid from.selected desired.selected h.selected)),
)
  where
    either : (b : Bool) → (if b then direct else direct) ≡ direct
    either true = refl
    either false = refl
