-- ===== src/Dataplane/Lifecycle/Reachable.antt =====
-- crates/fluxd/src/dataplane/platform.rs: every sequence of the operations of a `Manager`.
use flux_rs.Base.{
  ℕ, ◌≡◌, refl, sym, ap, ◌∙◌, Bool, true, false, ◌||◌, ltb, length, Option, none, some, List,
  if◌then◌else◌,
}
use flux_rs.Policy.Epoch.{PolicyEpoch}
use flux_rs.Dataplane.{
  Outcome, Result, ok, err, LoadedModule, Control, capacity_selected, capacity_bypass,
  DesiredPolicy, Manager, set_uids,
}
use flux_rs.Dataplane.Addresses.{SelfSelection, desired_self_addresses}
use flux_rs.Dataplane.Epochs.{kmod_set_bypass, keys, live_epoch}
use flux_rs.Dataplane.Transactions.{
  Calls, uid_selected_max, lpm_max_entries, bypassed_counts, apply_policy, adopt, counted, publish,
  with_addresses, with_snapshot, after_bypass, after_uids,
}
use flux_rs.Dataplane.Lifecycle.{
  ConvergeCalls, stage_interface_policy, publish_inactive, publish_active, prepare_generation,
  converge_inner, is_loaded,
}
use flux_rs.Dataplane.Lifecycle.Activation.{
  is_active, has_generation, IsSound, publish_active-IsSound, publish_inactive-IsSound,
  prepare_generation-IsSound,
}
use flux_rs.Dataplane.Lifecycle.Convergence.{converge_inner-IsSound}

-- What the soundness-- What the soundness of a manager reads.
record View : Type 0 where
  bypass : Bool
  active : Bool
  attached : Bool
  loaded : Bool
  control : Bool
  generation : Bool

abbrev view : Manager → View
view m = record {
  bypass = m.test_bypass;
  active = m.status.active;
  attached = m.status.attachment_ready;
  loaded = is_loaded m.kmod;
  control = is_active m.last_control;
  generation = has_generation m.last_control;
}

record SameView (m m' : Manager) : Type 0 where
  same : view m' ≡ view m

view-IsSound : (m m' : Manager) → view m' ≡ view m → IsSound m → IsSound m'
view-IsSound m m' same s = record {
  live = ap (λ v. v.bypass) same ∙ s.live;
  reported = λ h. ap (λ v. v.active) same ∙ s.reported (ap (λ v. v.control) (sym same) ∙ h);
  attached = λ h. ap (λ v. v.loaded) same ∙ s.attached (ap (λ v. v.attached) (sym same) ∙ h);
  generation = ap (λ v. v.generation) same ∙ s.generation;
}

counted_lem :
    (desired : DesiredPolicy) (next : PolicyEpoch) (c : Option Control)
    → (is_active (counted desired next c) ≡ is_active c)
      × (has_generation (counted desired next c) ≡ has_generation c)
counted_lem desired next none = (refl, refl)
counted_lem desired next (some c) = (refl, refl)

module _ (calls : Calls) (desired : DesiredPolicy) where
  view-adopt :
      (own : SelfSelection) (from next : PolicyEpoch) (k : LoadedModule) (m : Manager)
      → is_loaded m.kmod ≡ true
      → view (adopt calls desired own from next k m) ≡ view m
  unfolding adopt
  view-adopt own from next k m loaded i = record {
    bypass = m.test_bypass;
    active = m.status.active;
    attached = m.status.attachment_ready;
    loaded = sym loaded i;
    control = (counted_lem desired next m.last_control).0 i;
    generation = (counted_lem desired next m.last_control).1 i;
  }

  view-after_uids :
      (own : SelfSelection) (from next : PolicyEpoch) (m : Manager) (k : LoadedModule)
      (r : Result LoadedModule)
      → is_loaded m.kmod ≡ true
      → view (after_uids calls desired own from next m k r).1 ≡ view m
  view-after_uids own from next m k (err e) loaded = λ i. record (view m) { loaded = sym loaded i }
  view-after_uids own from next m k (ok k') loaded = view-adopt own from next k' m loaded

  view-after_bypass :
      (own : SelfSelection) (from next : PolicyEpoch) (m : Manager) (r : Result LoadedModule)
      → is_loaded m.kmod ≡ true
      → view (after_bypass calls desired own from next m r).1 ≡ view m
  view-after_bypass own from next m (err e) loaded = refl
  view-after_bypass own from next m (ok k) loaded =
      view-after_uids own from next m k (set_uids calls.set_uids (keys next.selected) k) loaded

  view-publish :
      (own : SelfSelection) (from next : PolicyEpoch) (m : Manager) (k : Option LoadedModule)
      → m.kmod ≡ k
      → view (publish calls desired own from next m k).1 ≡ view m
  view-publish own from next m none eq = refl
  view-publish own from next m (some k) eq =
      view-after_bypass own from next m (kmod_set_bypass calls.set_bypass next k) (rw eq refl)

  -- A view of both branches is one of the choice.
  view_branch :
      (m : Manager) (b : Bool) (r q : Result (Unit {0}) × Manager)
      → SameView m r.1
      → SameView m q.1
      → SameView m (if b then r else q).1
  view_branch m true r q s t = s
  view_branch m false r q s t = t

  view-with_addresses :
      (found : Result SelfSelection × Manager)
      → SameView found.1 (with_addresses calls desired found).1
  view-with_addresses (err e, m) = record { same = refl }
  view-with_addresses (ok own, m) =
      view_branch m _ _ _ (record { same = refl })
        (record { same = view-publish own (live_epoch m) _ m m.kmod refl })

  view-with_snapshot :
      (call : Outcome) (m : Manager) → SameView m (with_snapshot calls desired m call).1
  view-with_snapshot (Outcome.errno e) m = record { same = refl }
  view-with_snapshot Outcome.done m = record {
    same =
        (view-with_addresses (desired_self_addresses calls.addresses m)).same
        ∙ (unfold desired_self_addresses in refl);
  }

  view-apply_policy : (m : Manager) → SameView m (apply_policy calls desired m).1
  unfolding apply_policy
  view-apply_policy m =
      by_checks m.test_bypass (ltb uid_selected_max (length desired.selected_uids)) (
        ltb lpm_max_entries (length desired.bypass_v4)
        || ltb lpm_max_entries (length desired.bypass_v6))
    where
      counts : Manager
      counts = record m { status = record m.status { policy = bypassed_counts desired } }

      by_checks :
          (bypassed over_uids over_prefixes : Bool)
          → SameView m
              ((if bypassed
                then (ok tt, counts)
                else if over_uids
                then (err capacity_selected, m)
                else if over_prefixes
                then (err capacity_bypass, m)
                else with_snapshot calls desired m calls.snapshot)).1
      by_checks true uids prefixes = record { same = refl }
      by_checks false true prefixes = record { same = refl }
      by_checks false false true = record { same = refl }
      by_checks false false false = view-with_snapshot calls.snapshot m

-- One call of an operation, whatever it returns and whatever its system calls return.
pub data Step : Manager → Manager → Type 0 where
  converge :
      (calls : ConvergeCalls) (enabled object : Bool) (m : Manager)
      → Step m (converge_inner calls enabled object m)
  stage : (desired : DesiredPolicy) (m : Manager) → Step m (stage_interface_policy desired m)
  apply :
      (calls : Calls) (desired : DesiredPolicy) (m : Manager)
      → Step m (apply_policy calls desired m).1
  prepare :
      (call : Outcome) (v4 v6 : List ℕ) (generation port_v4 port_v6 : ℕ) (m : Manager)
      → Step m (prepare_generation call v4 v6 generation port_v4 port_v6 m).1
  activate : (m : Manager) → Step m (publish_active m).1
  deactivate : (call : Outcome) (m : Manager) → Step m (publish_inactive call m).1

pub data Steps : Manager → Manager → Type 0 where
  stay : (m : Manager) → Steps m m
  step : (m m' m'' : Manager) → Steps m m' → Step m' m'' → Steps m m''

Step-IsSound : (m m' : Manager) → Step m m' → IsSound m → IsSound m'
Step-IsSound _ _ (converge calls enabled object m) s =
    converge_inner-IsSound calls enabled object m s
Step-IsSound _ _ (stage desired m) s = view-IsSound m (stage_interface_policy desired m) refl s
Step-IsSound _ _ (apply calls desired m) s =
    view-IsSound m (apply_policy calls desired m).1 (view-apply_policy calls desired m).same s
Step-IsSound _ _ (prepare call v4 v6 generation port_v4 port_v6 m) s =
    prepare_generation-IsSound call v4 v6 generation port_v4 port_v6 m s
Step-IsSound _ _ (activate m) s = publish_active-IsSound m s
Step-IsSound _ _ (deactivate call m) s = publish_inactive-IsSound call m s

-- Over every sequence of operations and of results of their system calls, outside the test bypass, a
-- control that is active is reported as active, an attachment that is reported is a module that is
-- loaded, and no control has generation zero.
pub Steps-IsSound : (m m' : Manager) → IsSound m → Steps m m' → IsSound m'
Steps-IsSound _ _ s (stay m) = s
Steps-IsSound _ _ s (step m m' m'' before last) =
    Step-IsSound m' m'' last (Steps-IsSound m m' s before)
