-- ===== src/Dataplane/Lifecycle/Convergence.antt =====
-- crates/fluxd/src/dataplane/platform.rs: what `converge_inner` and `apply_policy` leave of the
-- control, and the soundness of every reachable manager.
use flux_rs.Base.{◌≡◌, refl, Bool, true, false, Option, none, some, if◌then◌else◌, arith}
use flux_rs.Dataplane.{Outcome, Result, ok, err, LoadedModule, Control, DataplaneStatus, Manager}
use flux_rs.Dataplane.Lifecycle.{
  ConvergeCalls, Probes, inactive_control, drop_kmod, ensure_kmod, with_module, check_status,
  module_of, first_control, publish_inactive, publish_last_inactive, converge_inner, reconciled,
  clean_up, switched_on, switched_off, fresh_status, is_loaded,
}
use flux_rs.Dataplane.Lifecycle.Activation.{is_active, has_generation, IsSound}

-- A property of both branches is one of the choice.
by_branch :
    (P : Manager → Type 0) (b : Bool) (r q : Result (Unit {0}) × Manager)
    → P r.1
    → P q.1
    → P (if b then r else q).1
by_branch P true r q s t = s
by_branch P false r q s t = t

-- No control becomes active, and the control keeps a generation.
record KeepsControl (m m' : Manager) : Type 0 where
  active : is_active m'.last_control ≡ true → is_active m.last_control ≡ true
  bypass : m'.test_bypass ≡ m.test_bypass
  generation : has_generation m.last_control ≡ true → has_generation m'.last_control ≡ true

same_control :
    (m m' : Manager)
    → m'.last_control ≡ m.last_control
    → m'.test_bypass ≡ m.test_bypass
    → KeepsControl m m'
same_control m m' eq bypass = record {
  bypass = bypass;
  active = λ h. rw eq at h;
  generation = λ h. rw eq h;
}

first_control-KeepsControl :
    (m : Manager) → KeepsControl m (record m { last_control = first_control m.last_control })
unfolding inactive_control
first_control-KeepsControl m = record {
  bypass = refl;
  active = active m.last_control;
  generation = generation m.last_control;
}
  where
    active : (c : Option Control) → is_active (first_control c) ≡ true → is_active c ≡ true
    active none h = ground arith
    active (some c) h = h

    generation :
        (c : Option Control) → has_generation c ≡ true → has_generation (first_control c) ≡ true
    generation none h = refl
    generation (some c) h = h

check_status-KeepsControl :
    (p : Probes) (call : Outcome) (m : Manager) → KeepsControl m (check_status p call m).1
unfolding drop_kmod
check_status-KeepsControl p (Outcome.errno e) m = same_control m m refl refl
check_status-KeepsControl p Outcome.done m =
    by_branch (KeepsControl m) _ _ _ (same_control m (drop_kmod m) refl refl)
      (first_control-KeepsControl m)

with_module-KeepsControl :
    (p : Probes) (m : Manager) (r : Result LoadedModule) → KeepsControl m (with_module p m r).1
with_module-KeepsControl p m (err e) = same_control m m refl refl
with_module-KeepsControl p m (ok k) =
    let kept = check_status-KeepsControl p p.status (record m { kmod = some k }) in
    record { bypass = kept.bypass; active = kept.active; generation = kept.generation }

ensure_kmod-KeepsControl : (p : Probes) (m : Manager) → KeepsControl m (ensure_kmod p m).1
unfolding ensure_kmod
ensure_kmod-KeepsControl p m = with_module-KeepsControl p m (module_of p m.kmod)

-- A status with the activity of the manager before, and no attachment but a loaded module's.
status-IsSound :
    (m m' : Manager) (next : DataplaneStatus)
    → IsSound m
    → KeepsControl m m'
    → next.active ≡ m.status.active
    → (next.attachment_ready ≡ true → is_loaded m'.kmod ≡ true)
    → IsSound (record m' { status = next })
status-IsSound m m' next s kept same attached = record {
  live = rw kept.bypass s.live;
  reported = λ h. rw same (s.reported (kept.active h));
  attached = attached;
  generation = kept.generation s.generation;
}

switched_on-IsSound :
    (object : Bool) (m : Manager) (r : Result (Unit {0}) × Manager)
    → IsSound m
    → KeepsControl m r.1
    → IsSound (switched_on object (fresh_status m) r)
switched_on-IsSound object m (err e, m') s kept =
    status-IsSound m m' _ s kept refl (λ h. ground (arith, h))
switched_on-IsSound object m (ok u, m') s kept = status-IsSound m m' _ s kept refl (λ h. h)

-- The request to switch off has succeeded: no module, no active control, the generation kept.
pub record IsOff (m : Manager) (r : Result (Unit {0}) × Manager) : Type 0 where
  pub done : r.0 ≡ ok tt
  pub live : r.1.test_bypass ≡ m.test_bypass
  pub kmod : r.1.kmod ≡ none
  pub inactive : is_active r.1.last_control ≡ false
  pub generation : has_generation m.last_control ≡ has_generation r.1.last_control

by_bypass :
    (b : Bool) (m : Manager) (r q : Result (Unit {0}) × Manager)
    → b ≡ false
    → IsOff m q
    → IsOff m (if b then r else q)
by_bypass true m r q h off = ground (arith, h)
by_bypass false m r q h off = off

publish_last_inactive-IsOff :
    (call : Outcome) (c : Option Control) (m : Manager)
    → m.last_control ≡ c
    → IsOff m (publish_last_inactive call c (drop_kmod m))
unfolding drop_kmod
publish_last_inactive-IsOff call none m eq = record {
  done = refl;
  live = refl;
  kmod = refl;
  inactive = rw eq refl;
  generation = refl;
}
publish_last_inactive-IsOff call (some c) m eq = record {
  done = refl;
  live = refl;
  kmod = refl;
  inactive = ground arith;
  generation = rw eq (ground arith);
}

-- Without a module the switch-off succeeds, whatever a request would return.
pub publish_inactive-IsOff :
    (call : Outcome) (m : Manager)
    → m.test_bypass ≡ false
    → IsOff m (publish_inactive call (drop_kmod m))
unfolding publish_inactive drop_kmod
publish_inactive-IsOff call m live =
    by_bypass m.test_bypass m _ _ live (publish_last_inactive-IsOff call m.last_control m refl)

switched_off-IsSound :
    (m : Manager) (r : Result (Unit {0}) × Manager)
    → IsSound m
    → IsOff m r
    → IsSound (switched_off (fresh_status m) r)
switched_off-IsSound m (err e, m') s off = ground (arith, off.done)
switched_off-IsSound m (ok u, m') s off = record {
  live = rw off.live s.live;
  reported = λ h. ground (arith, off.inactive, h);
  attached = λ h. ground (arith, h);
  generation = rw (← off.generation) s.generation;
}

reconciled-IsSound :
    (calls : ConvergeCalls) (enabled object : Bool) (m : Manager)
    → IsSound m
    → IsSound (reconciled calls enabled object (fresh_status m) m)
reconciled-IsSound calls true object m s =
    switched_on-IsSound object m (ensure_kmod calls.probes m) s
      (ensure_kmod-KeepsControl calls.probes m)
reconciled-IsSound calls false object m s =
    switched_off-IsSound m (publish_inactive calls.clear_uids (drop_kmod m)) s
      (publish_inactive-IsOff calls.clear_uids m s.live)

clean_up-IsSound :
    (calls : ConvergeCalls) (enabled object : Bool) (call : Outcome) (m : Manager)
    → IsSound m
    → IsSound (clean_up calls enabled object (fresh_status m) call m)
clean_up-IsSound calls enabled object (Outcome.errno e) m s =
    status-IsSound m m _ s (same_control m m refl refl) refl (λ h. ground (arith, h))
clean_up-IsSound calls enabled object Outcome.done m s =
    reconciled-IsSound calls enabled object (record m { reconciled_once = true })
      (record {
        live = s.live;
        reported = s.reported;
        attached = s.attached;
        generation = s.generation;
      })

pub converge_inner-IsSound :
    (calls : ConvergeCalls) (enabled object : Bool) (m : Manager)
    → IsSound m
    → IsSound (converge_inner calls enabled object m)
unfolding converge_inner
converge_inner-IsSound calls enabled object m s = by_mode m.test_bypass m.reconciled_once _ s.live
  where
    by_mode :
        (bypass once : Bool) (bypassed : Manager)
        → bypass ≡ false
        → IsSound (
            if bypass
            then bypassed
            else if once
            then reconciled calls enabled object (fresh_status m) m
            else clean_up calls enabled object (fresh_status m) calls.cleanup m)
    by_mode true once bypassed h = ground (arith, h)
    by_mode false true bypassed h = reconciled-IsSound calls enabled object m s
    by_mode false false bypassed h = clean_up-IsSound calls enabled object calls.cleanup m s
