-- ===== src/Dataplane/Lifecycle/Stopping.antt =====
-- crates/fluxd/src/dataplane/platform.rs: what a disabled convergence leaves.
use flux_rs.Base.{◌≡◌, refl, Bool, true, false, not, none, if◌then◌else◌, arith}
use flux_rs.Dataplane.{Outcome, Result, ok, err, dataplane_not_ready, Manager}
use flux_rs.Dataplane.Lifecycle.{
  ConvergeCalls, drop_kmod, publish_inactive, publish_active, activate, converge_inner, reconciled,
  clean_up, switched_off, fresh_status,
}
use flux_rs.Dataplane.Lifecycle.Activation.{is_active}
use flux_rs.Dataplane.Lifecycle.Convergence.{IsOff, publish_inactive-IsOff}

-- No module, no active control, no active status, and a publication is refused.
pub record IsStopped (m : Manager) : Type 0 where
  pub kmod : m.kmod ≡ none
  pub control : is_active m.last_control ≡ false
  pub status : m.status.active ≡ false
  pub refused : publish_active m ≡ (err dataplane_not_ready, m)

refusal :
    (m : Manager)
    → m.test_bypass ≡ false
    → m.status.attachment_ready ≡ false
    → publish_active m ≡ (err dataplane_not_ready, m)
unfolding publish_active
refusal m live unready = by_mode m.test_bypass m.status.attachment_ready live unready
  where
    by_mode :
        (bypass ready : Bool)
        → bypass ≡ false
        → ready ≡ false
        → Path
            (Result (Unit {0}) × Manager)
            (if bypass
              then (ok tt, m)
              else if not ready
              then (err dataplane_not_ready, m)
              else activate m.last_control m)
            (err dataplane_not_ready, m)
    by_mode true ready h r = ground (arith, h)
    by_mode false true h r = ground (arith, r)
    by_mode false false h r = refl

switched_off-IsStopped :
    (m : Manager) (r : Result (Unit {0}) × Manager)
    → m.test_bypass ≡ false
    → IsOff m r
    → IsStopped (switched_off (fresh_status m) r)
switched_off-IsStopped m (err e, m') live off = ground (arith, off.done)
switched_off-IsStopped m (ok u, m') live off = record {
  kmod = off.kmod;
  control = off.inactive;
  status = refl;
  refused = refusal (switched_off (fresh_status m) (ok u, m')) (rw off.live live) refl;
}

reconciled-IsStopped :
    (calls : ConvergeCalls) (object : Bool) (m : Manager)
    → m.test_bypass ≡ false
    → IsStopped (reconciled calls false object (fresh_status m) m)
reconciled-IsStopped calls object m live =
    switched_off-IsStopped m (publish_inactive calls.clear_uids (drop_kmod m)) live
      (publish_inactive-IsOff calls.clear_uids m live)

-- A convergence that is disabled, outside the test bypass and with the cold-start cleanup done, ends
-- with no module, no active control and no active status, whatever its other system calls return,
-- and every publication is refused until a later convergence.
pub converge_inner-IsStopped :
    (calls : ConvergeCalls) (object : Bool) (m : Manager)
    → m.test_bypass ≡ false
    → calls.cleanup ≡ Outcome.done
    → IsStopped (converge_inner calls false object m)
unfolding converge_inner
converge_inner-IsStopped calls object m live done =
    by_mode m.test_bypass m.reconciled_once calls.cleanup _ live done
  where
    by_mode :
        (bypass once : Bool) (call : Outcome) (bypassed : Manager)
        → bypass ≡ false
        → call ≡ Outcome.done
        → IsStopped (
            if bypass
            then bypassed
            else if once
            then reconciled calls false object (fresh_status m) m
            else clean_up calls false object (fresh_status m) call m)
    by_mode true once call bypassed h d = ground (arith, h)
    by_mode false true call bypassed h d = reconciled-IsStopped calls object m live
    by_mode false false (Outcome.errno e) bypassed h d = ground (arith, d)
    by_mode false false Outcome.done bypassed h d =
        reconciled-IsStopped calls object (record m { reconciled_once = true }) live
