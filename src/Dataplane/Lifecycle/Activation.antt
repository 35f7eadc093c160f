-- ===== src/Dataplane/Lifecycle/Activation.antt =====
-- crates/fluxd/src/dataplane/platform.rs: which controls a manager can publish, over all sequences of
-- its operations.
use flux_rs.Base.{
  ℕ, ◌≡◌, refl, Bool, true, false, not, ltb, ◌==◌, if◌then◌else◌, Option, none, some, List, arith,
}
use flux_rs.Dataplane.{Outcome, Result, ok, err, LoadedModule, Control, Manager, clear_uids}
use flux_rs.Dataplane.Lifecycle.{
  inactive_control, publish_inactive, publish_last_inactive, clear_module, with_cleared,
  deactivated, publish_active, activate, prepare_generation, with_listeners, listen_on, is_loaded,
}

-- Whether a control directs traffic to the engine.
abbrev pub is_active : Option Control → Bool
is_active none = false
is_active (some c) = not (c.active == 0)

abbrev pub has_generation : Option Control → Bool
has_generation none = true
has_generation (some c) = ltb 0 c.generation

-- Outside the test bypass: an active control is reported as active, a module reported as attached is loaded, and a control has
-- a generation that is not zero.
pub record IsSound (m : Manager) : Type 0 where
  pub live : m.test_bypass ≡ false
  pub reported : is_active m.last_control ≡ true → m.status.active ≡ true
  pub attached : m.status.attachment_ready ≡ true → is_loaded m.kmod ≡ true
  pub generation : has_generation m.last_control ≡ true

-- A result of either branch is sound where both are.
either :
    (b : Bool) (r q : Result (Unit {0}) × Manager)
    → IsSound r.1
    → IsSound q.1
    → IsSound (if b then r else q).1
either true r q s t = s
either false r q s t = t

activate-IsSound :
    (c : Option Control) (m : Manager) → m.last_control ≡ c → IsSound m → IsSound (activate c m).1
activate-IsSound none m eq s = s
activate-IsSound (some c) m eq s = record {
  live = s.live;
  reported = λ h. refl;
  attached = s.attached;
  generation = rw eq at s.generation;
}

pub publish_active-IsSound : (m : Manager) → IsSound m → IsSound (publish_active m).1
unfolding publish_active
publish_active-IsSound m s =
    either m.test_bypass _ _ s
      (either (not m.status.attachment_ready) _ _ s (activate-IsSound m.last_control m refl s))

-- Switching the status off is sound where no control is active.
off-IsSound :
    (m : Manager) (k : Option LoadedModule)
    → is_active m.last_control ≡ false
    → (m.status.attachment_ready ≡ true → is_loaded k ≡ true)
    → has_generation m.last_control ≡ true
    → m.test_bypass ≡ false
    → IsSound (record m { kmod = k; status = record m.status { active = false } })
off-IsSound m k off attached generation live = record {
  live = live;
  reported = λ h. ground arith;
  attached = attached;
  generation = generation;
}

with_cleared-IsSound :
    (m : Manager) (r : Result LoadedModule)
    → is_active m.last_control ≡ false
    → IsSound m
    → IsSound (with_cleared m r).1
with_cleared-IsSound m (err e) off s = s
with_cleared-IsSound m (ok k) off s = off-IsSound m (some k) off (λ h. refl) s.generation s.live

clear_module-IsSound :
    (call : Outcome) (k : Option LoadedModule) (m : Manager)
    → is_active m.last_control ≡ false
    → IsSound m
    → IsSound (clear_module call k m).1
clear_module-IsSound call none m off s = off-IsSound m m.kmod off s.attached s.generation s.live
clear_module-IsSound call (some k) m off s = with_cleared-IsSound m (clear_uids call k) off s

deactivated_lem :
    (c : Control)
    → (is_active (some (deactivated c)) ≡ false)
      × (has_generation (some (deactivated c)) ≡ has_generation (some c))
deactivated_lem c = (ground arith, ground arith)

publish_last_inactive-IsSound :
    (call : Outcome) (c : Option Control) (m : Manager)
    → m.last_control ≡ c
    → IsSound m
    → IsSound (publish_last_inactive call c m).1
publish_last_inactive-IsSound call none m eq s =
    off-IsSound m m.kmod (rw eq refl) s.attached s.generation s.live
publish_last_inactive-IsSound call (some c) m eq s =
    let (off, same) = deactivated_lem c in
    clear_module-IsSound call m.kmod (record m { last_control = some (deactivated c) }) off
      (record {
        live = s.live;
        reported = λ h. ground (arith, off, h);
        attached = s.attached;
        generation = rw same (rw eq at s.generation);
      })

pub publish_inactive-IsSound :
    (call : Outcome) (m : Manager) → IsSound m → IsSound (publish_inactive call m).1
unfolding publish_inactive
publish_inactive-IsSound call m s =
    either m.test_bypass _ _ s (publish_last_inactive-IsSound call m.last_control m refl s)

with_listeners-IsSound :
    (c : Control) (m : Manager) (r : Result LoadedModule)
    → is_active (some c) ≡ false
    → has_generation (some c) ≡ true
    → IsSound m
    → IsSound (with_listeners c m.kmod m r).1
with_listeners-IsSound c m (err e) off generation s = s
with_listeners-IsSound c m (ok k) off generation s =
    off-IsSound (record m { last_control = some c }) (some k) off (λ h. refl) generation s.live

pub prepare_generation-IsSound :
    (call : Outcome) (v4 v6 : List ℕ) (generation port_v4 port_v6 : ℕ) (m : Manager)
    → IsSound m
    → IsSound (prepare_generation call v4 v6 generation port_v4 port_v6 m).1
unfolding prepare_generation inactive_control
prepare_generation-IsSound call v4 v6 generation port_v4 port_v6 m s =
    either m.test_bypass _ _ s (
      with_listeners-IsSound _ m (listen_on call v4 v6 port_v4 port_v6 m.kmod) refl (ground arith)
        s)
