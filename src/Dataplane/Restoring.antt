-- ===== src/Dataplane/Restoring.antt =====
-- crates/fluxd/src/dataplane/platform.rs: `apply_policy` on its errors.
use flux_rs.Base.{◌≡◌, refl, sym, Bool, true, false, if◌then◌else◌, Option, none, some, arith}
use flux_rs.Policy.Epoch.{PolicyEpoch}
use flux_rs.Dataplane.{
  Outcome, Error, capacity_uid_policy, capacity_selected, capacity_bypass, Result, ok, err,
  LoadedModule, set_uids, DesiredPolicy, Manager,
}
use flux_rs.Dataplane.Addresses.{SelfSelection, desired_self_addresses}
use flux_rs.Dataplane.Epochs.{live_epoch, keys, bypass_of, kmod_set_bypass}
use flux_rs.Dataplane.Holding.{Holds, set_bypass-ok, set_bypass-done}
use flux_rs.Dataplane.Transactions.{
  Calls, apply_policy, publish, with_addresses, with_snapshot, after_bypass, after_uids, restored,
}

-- The policy in force is that of the manager before, and the module holds it.
pub record IsUndone (m m' : Manager) : Type 0 where
  pub epoch : live_epoch m' ≡ live_epoch m
  pub held : LoadedModule
  pub kmod : m'.kmod ≡ some held
  pub holds : Holds (live_epoch m') held

-- The second request for the tables puts those of the live epoch back.
restored-Holds :
    (e next : PolicyEpoch) (k k1 : LoadedModule) (call : Outcome)
    → Holds e k
    → kmod_set_bypass call next k ≡ ok k1
    → Holds e (restored k1 (kmod_set_bypass Outcome.done e k1))
unfolding kmod_set_bypass
restored-Holds e next k k1 call h b = record {
  uids =
      rw (set_bypass-done (bypass_of e) k1 h.fits, (set_bypass-ok call (bypass_of next) k k1 b).0)
        h.uids;
  bypass = rw (set_bypass-done (bypass_of e) k1 h.fits) refl;
  fits = h.fits;
}

module _ (calls : Calls) (desired : DesiredPolicy) (e : Error) (m : Manager) (k : LoadedModule)
    (h : Holds (live_epoch m) k) (r : calls.restore ≡ Outcome.done) where
  unchanged :
      (noted m' : Manager)
      → live_epoch noted ≡ live_epoch m
      → noted.kmod ≡ some k
      → m' ≡ noted
      → IsUndone m m'
  unchanged noted m' same loaded eq = record {
    epoch = rw eq same;
    held = k;
    kmod = rw eq loaded;
    holds = rw (eq, same) h;
  }

  after_uids-IsUndone :
      (own : SelfSelection) (next : PolicyEpoch) (noted m' : Manager) (k1 : LoadedModule)
      (u : Result LoadedModule)
      → live_epoch noted ≡ live_epoch m
      → kmod_set_bypass calls.set_bypass next k ≡ ok k1
      → after_uids calls desired own (live_epoch noted) next noted k1 u ≡ (err e, m')
      → IsUndone m m'
  after_uids-IsUndone own next noted m' k1 (ok k2) same b eq = ground arith
  after_uids-IsUndone own next noted m' k1 (err e') same b eq =
      let now : m' ≡ record noted {
        kmod = some (restored k1 (kmod_set_bypass calls.restore (live_epoch noted) k1));
      } =
        λ i. (sym eq i).1 in
      let epoch : live_epoch m' ≡ live_epoch m = rw (now, ← same) (unfold live_epoch in refl) in
      record {
        epoch = epoch;
        held = restored k1 (kmod_set_bypass Outcome.done (live_epoch m) k1);
        kmod = rw (now, r, same) refl;
        holds = rw epoch (restored-Holds (live_epoch m) next k k1 calls.set_bypass h b);
      }

  after_bypass-IsUndone :
      (own : SelfSelection) (next : PolicyEpoch) (noted m' : Manager) (b : Result LoadedModule)
      → live_epoch noted ≡ live_epoch m
      → noted.kmod ≡ some k
      → kmod_set_bypass calls.set_bypass next k ≡ b
      → after_bypass calls desired own (live_epoch noted) next noted b ≡ (err e, m')
      → IsUndone m m'
  after_bypass-IsUndone own next noted m' (err e') same loaded b eq =
      unchanged noted m' same loaded (λ i. (sym eq i).1)
  after_bypass-IsUndone own next noted m' (ok k1) same loaded b eq =
      after_uids-IsUndone own next noted m' k1 (set_uids calls.set_uids (keys next.selected) k1)
        same b eq

  publish-IsUndone :
      (own : SelfSelection) (next : PolicyEpoch) (noted m' : Manager) (loaded : Option LoadedModule)
      → live_epoch noted ≡ live_epoch m
      → noted.kmod ≡ some k
      → loaded ≡ some k
      → publish calls desired own (live_epoch noted) next noted loaded ≡ (err e, m')
      → IsUndone m m'
  publish-IsUndone own next noted m' none same held l eq = ground arith
  publish-IsUndone own next noted m' (some k0) same held l eq =
      let found : k0 ≡ k = ground arith in
      after_bypass-IsUndone own next noted m' (kmod_set_bypass calls.set_bypass next k) same held
        refl (rw found at eq)

  bounded-IsUndone :
      (own : SelfSelection) (next : PolicyEpoch) (noted m' : Manager) (over : Bool)
      → live_epoch noted ≡ live_epoch m
      → noted.kmod ≡ some k
      → (if over
          then (err capacity_uid_policy, noted)
          else publish calls desired own (live_epoch noted) next noted noted.kmod)
        ≡ (err e, m')
      → IsUndone m m'
  bounded-IsUndone own next noted m' true same held eq =
      unchanged noted m' same held (λ i. (sym eq i).1)
  bounded-IsUndone own next noted m' false same held eq =
      publish-IsUndone own next noted m' noted.kmod same held held eq

  with_addresses-IsUndone :
      (found : Result SelfSelection × Manager) (m' : Manager)
      → live_epoch found.1 ≡ live_epoch m
      → found.1.kmod ≡ some k
      → with_addresses calls desired found ≡ (err e, m')
      → IsUndone m m'
  with_addresses-IsUndone (err e', noted) m' same held eq =
      unchanged noted m' same held (λ i. (sym eq i).1)
  with_addresses-IsUndone (ok own, noted) m' same held eq =
      bounded-IsUndone own _ noted m' _ same held eq

  with_snapshot-IsUndone :
      (call : Outcome) (m' : Manager)
      → m.kmod ≡ some k
      → with_snapshot calls desired m call ≡ (err e, m')
      → IsUndone m m'
  with_snapshot-IsUndone (Outcome.errno n) m' held eq = unchanged m m' refl held (λ i. (sym eq i).1)
  with_snapshot-IsUndone Outcome.done m' held eq =
      with_addresses-IsUndone (desired_self_addresses calls.addresses m) m'
        (unfold desired_self_addresses live_epoch in refl) (unfold desired_self_addresses in held)
        eq

  checked-IsUndone :
      (bypassed over_uids over_prefixes : Bool) (counted m' : Manager)
      → m.kmod ≡ some k
      → (if bypassed
          then (ok tt, counted)
          else if over_uids
          then (err capacity_selected, m)
          else if over_prefixes
          then (err capacity_bypass, m)
          else with_snapshot calls desired m calls.snapshot)
        ≡ (err e, m')
      → IsUndone m m'
  checked-IsUndone true uids over counted m' held eq = ground arith
  checked-IsUndone false true over counted m' held eq = unchanged m m' refl held (λ i. (sym eq i).1)
  checked-IsUndone false false true counted m' held eq =
      unchanged m m' refl held (λ i. (sym eq i).1)
  checked-IsUndone false false false counted m' held eq =
      with_snapshot-IsUndone calls.snapshot m' held eq

  -- `apply_policy` that fails leaves the policy in force: where the module holds the live epoch and
  -- the request that restores its tables succeeds, every error leaves the live epoch as it was, and
  -- the module still holds it.
  pub apply_policy-IsUndone :
      (m' : Manager) → m.kmod ≡ some k → apply_policy calls desired m ≡ (err e, m') → IsUndone m m'
  unfolding apply_policy
  apply_policy-IsUndone m' held eq = checked-IsUndone _ _ _ _ m' held eq
