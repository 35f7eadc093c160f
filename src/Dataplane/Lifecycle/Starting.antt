-- ===== src/Dataplane/Lifecycle/Starting.antt =====
-- crates/fluxd/src/dataplane/platform.rs: a start and a stop of the data plane, in the order of the
-- supervisor's calls.
use flux_rs.Base.{
  ℕ, suc, ◌≡◌, refl, Bool, true, false, not, ◌==◌, Option, none, some, List, if◌then◌else◌, arith,
}
use flux_rs.Dataplane.{
  Outcome, Result, ok, err, dataplane_not_ready, lkm_tproxy_symbol, LoadedModule, Control, Manager,
  set_listeners,
}
use flux_rs.Dataplane.Lifecycle.{
  ConvergeCalls, inactive_control, drop_kmod, ensure_kmod, publish_active, prepare_generation,
  converge_inner, reconciled, clean_up, switched_on, fresh_status, with_module, module_of,
  check_status, first_control, activate, with_listeners, listen_on, empty_module, is_loaded,
}
use flux_rs.Dataplane.Lifecycle.Activation.{is_active}

-- The system calls of a start succeed, and the module reports its `nf_tproxy` symbols.
abbrev pub working : ℕ → ConvergeCalls
working n = record {
  cleanup = Outcome.done;
  clear_uids = Outcome.done;
  probes = record {
    release = Outcome.done;
    load = Outcome.done;
    status = Outcome.done;
    steal_ready = suc n;
  };
}

abbrev is_known : Option Control → Bool
is_known none = false
is_known (some c) = true

-- A manager whose module is attached.
record IsAttached (m : Manager) : Type 0 where
  live : m.test_bypass ≡ false
  ready : m.status.attachment_ready ≡ true
  loaded : is_loaded m.kmod ≡ true

check_status-ok :
    (n : ℕ) (m : Manager)
    → check_status (working n).probes Outcome.done m
      ≡ (ok tt, record m { last_control = first_control m.last_control })
unfolding drop_kmod inactive_control
check_status-ok n m = by_ready (suc n == 0) (ground arith)
  where
    by_ready :
        (b : Bool)
        → b ≡ false
        → Path
            (Result (Unit {0}) × Manager)
            (if b
              then (err lkm_tproxy_symbol, drop_kmod m)
              else (ok tt, record m { last_control = first_control m.last_control }))
            (ok tt, record m { last_control = first_control m.last_control })
    by_ready true h = ground (arith, h)
    by_ready false h = refl

switched_on-IsAttached :
    (n : ℕ) (object : Bool) (k : LoadedModule) (m : Manager)
    → m.test_bypass ≡ false
    → IsAttached (switched_on object (fresh_status m) (with_module (working n).probes m (ok k)))
switched_on-IsAttached n object k m live =
    rw (check_status-ok n (record m { kmod = some k }))
      (record { live = live; ready = refl; loaded = refl })

reconciled-IsAttached :
    (n : ℕ) (object : Bool) (k : Option LoadedModule) (m : Manager)
    → m.test_bypass ≡ false
    → IsAttached (
        switched_on object
          (fresh_status m)
          (with_module (working n).probes m (module_of (working n).probes k)))
reconciled-IsAttached n object none m live = switched_on-IsAttached n object empty_module m live
reconciled-IsAttached n object (some k) m live = switched_on-IsAttached n object k m live

converge_inner-IsAttached :
    (n : ℕ) (object : Bool) (m : Manager)
    → m.test_bypass ≡ false
    → IsAttached (converge_inner (working n) true object m)
unfolding converge_inner ensure_kmod
converge_inner-IsAttached n object m live = by_mode m.test_bypass m.reconciled_once _ live
  where
    by_mode :
        (bypass once : Bool) (bypassed : Manager)
        → bypass ≡ false
        → IsAttached (
            if bypass
            then bypassed
            else if once
            then reconciled (working n) true object (fresh_status m) m
            else clean_up (working n) true object (fresh_status m) Outcome.done m)
    by_mode true once bypassed h = ground (arith, h)
    by_mode false true bypassed h = reconciled-IsAttached n object m.kmod m live
    by_mode false false bypassed h =
        reconciled-IsAttached n object m.kmod (record m { reconciled_once = true }) live

-- A prepared manager: attached, with a control to activate.
record IsPrepared (r : Result (Unit {0}) × Manager) : Type 0 where
  done : r.0 ≡ ok tt
  attached : IsAttached r.1
  control : is_known r.1.last_control ≡ true

module _ (v4 v6 : List ℕ) (generation port_v4 port_v6 : ℕ) where
  listening-IsPrepared :
      (c : Control) (k : Option LoadedModule) (m : Manager)
      → IsAttached m
      → is_loaded k ≡ true
      → IsPrepared (with_listeners c k m (listen_on Outcome.done v4 v6 port_v4 port_v6 k))
  unfolding set_listeners
  listening-IsPrepared c none m a loaded = ground (arith, loaded)
  listening-IsPrepared c (some k) m a loaded = record {
    done = refl;
    attached = record { live = a.live; ready = a.ready; loaded = refl };
    control = refl;
  }

  prepare_generation-IsPrepared :
      (m : Manager)
      → IsAttached m
      → IsPrepared (prepare_generation Outcome.done v4 v6 generation port_v4 port_v6 m)
  unfolding prepare_generation
  prepare_generation-IsPrepared m a = by_mode m.test_bypass _ a.live
    where
      by_mode :
          (bypass : Bool) (c : Control)
          → bypass ≡ false
          → IsPrepared (
              if bypass
              then (ok tt, m)
              else with_listeners c m.kmod m (listen_on Outcome.done v4 v6 port_v4 port_v6 m.kmod))
      by_mode true c h = ground (arith, h)
      by_mode false c h = listening-IsPrepared c m.kmod m a a.loaded

-- An active publication.
pub record IsPublished (r : Result (Unit {0}) × Manager) : Type 0 where
  pub done : r.0 ≡ ok tt
  pub control : is_active r.1.last_control ≡ true
  pub status : r.1.status.active ≡ true
  pub loaded : is_loaded r.1.kmod ≡ true

activate-IsPublished :
    (c : Option Control) (m : Manager)
    → IsAttached m
    → is_known c ≡ true
    → IsPublished (activate c m)
activate-IsPublished none m a known = ground (arith, known)
activate-IsPublished (some c) m a known = record {
  done = refl;
  control = refl;
  status = refl;
  loaded = a.loaded;
}

publish_active-IsPublished :
    (m : Manager) → IsAttached m → is_known m.last_control ≡ true → IsPublished (publish_active m)
unfolding publish_active
publish_active-IsPublished m a known =
    by_mode m.test_bypass m.status.attachment_ready a.live a.ready
  where
    by_mode :
        (bypass ready : Bool)
        → bypass ≡ false
        → ready ≡ true
        → IsPublished (
            if bypass
            then (ok tt, m)
            else if not ready
            then (err dataplane_not_ready, m)
            else activate m.last_control m)
    by_mode true ready h r = ground (arith, h)
    by_mode false false h r = ground (arith, r)
    by_mode false true h r = activate-IsPublished m.last_control m a known

-- A start reaches the active state: from any manager outside the test bypass, where the system calls
-- succeed and the module reports its symbols, convergence, the preparation of any generation and the
-- publication end with both calls `Ok`, an active control, an active status and the module loaded.
pub start-IsPublished :
    (n generation port_v4 port_v6 : ℕ) (object : Bool) (v4 v6 : List ℕ) (m : Manager)
    → m.test_bypass ≡ false
    → let up = converge_inner (working n) true object m in
      let prepared = prepare_generation Outcome.done v4 v6 generation port_v4 port_v6 up in
      (prepared.0 ≡ ok tt) × IsPublished (publish_active prepared.1)
start-IsPublished n generation port_v4 port_v6 object v4 v6 m live =
    let up : Manager = converge_inner (working n) true object m in
    let ready =
      prepare_generation-IsPrepared v4 v6 generation port_v4 port_v6 up
        (converge_inner-IsAttached n object m live) in
    (ready.done, publish_active-IsPublished _ ready.attached ready.control)
