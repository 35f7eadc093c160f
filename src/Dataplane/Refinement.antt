-- ===== src/Dataplane/Refinement.antt =====
-- crates/fluxd/src/dataplane/platform.rs: `apply_policy` refines `policy_epoch::committed`.
use flux_rs.Base.{ℕ, ◌≡◌, refl, sym, false, Option, none, some, List, [], ◌∷◌, arith}
use flux_rs.Collections.Ord.{nat_ord}
use flux_rs.Collections.BTreeMap.{BTreeMap, BTreeSet, IsSorted}
use flux_rs.Collections.BTreeMap.Laws.{IsSorted-insert}
use flux_rs.Cidr.{Cidr, LpmKey, of_octets}
use flux_rs.Policy.Epoch.{PolicyEpoch, BypassTag, cidr_ord, committed}
use flux_rs.Policy.Commit.{IsOrdered, committed-uids, committed-IsOrdered}
use flux_rs.Dataplane.{
  Outcome, Result, ok, err, LoadedModule, set_uids, DesiredPolicy, Manager, uid_selected,
  uid_draining,
}
use flux_rs.Dataplane.Addresses.{SelfSelection, desired_self_addresses}
use flux_rs.Dataplane.Epochs.{
  lpm_to_cidr, collect_prefixes, collect_addresses, live_epoch, desired_epoch, keys, bypass_of,
  kmod_set_bypass,
}
use flux_rs.Dataplane.Holding.{Fits, Holds, set_uids-ok, set_bypass-ok}
use flux_rs.Dataplane.UidModes.{
  IsDisjoint, IsSorted-uids_of_mode, uid_modes-selected, uid_modes-draining,
}
use flux_rs.Dataplane.Transactions.{
  Calls, apply_policy, adopt, publish, with_addresses, with_snapshot, after_bypass, after_uids,
}

IsSorted-collect_prefixes :
    (w : ℕ) (m : BTreeMap LpmKey BypassTag) (out : BTreeMap Cidr BypassTag)
    → IsSorted out
    → IsSorted (collect_prefixes w m out)
unfolding collect_prefixes
IsSorted-collect_prefixes w [] out s = s
IsSorted-collect_prefixes w ((key, tag) ∷ m) out s =
    IsSorted-collect_prefixes w m _ (IsSorted-insert (lpm_to_cidr w key) tag out s)

IsSorted-collect_addresses :
    (a : BTreeSet (List ℕ)) (out : BTreeSet ℕ) → IsSorted out → IsSorted (collect_addresses a out)
unfolding collect_addresses
IsSorted-collect_addresses [] out s = s
IsSorted-collect_addresses ((bytes, u) ∷ a) out s =
    IsSorted-collect_addresses a _ (IsSorted-insert (of_octets 0 bytes) tt out s)

-- The live epoch of any manager is ordered: its collections are built by insertion.
pub live_epoch-IsOrdered : (m : Manager) → IsOrdered (live_epoch m)
unfolding live_epoch
live_epoch-IsOrdered m = record {
  selected = IsSorted-uids_of_mode uid_selected m.uid_modes [] tt;
  draining = IsSorted-uids_of_mode uid_draining m.uid_modes [] tt;
  bypass_v4 = IsSorted-collect_prefixes 32 m.bypass_v4 [] tt;
  bypass_v6 = IsSorted-collect_prefixes 128 m.bypass_v6 [] tt;
  self_v4 = IsSorted-collect_addresses m.self_v4 [] tt;
  self_v6 = IsSorted-collect_addresses m.self_v6 [] tt;
}

desired_epoch-IsOrdered :
    (desired : DesiredPolicy) (v4 v6 : BTreeSet (List ℕ))
    → IsSorted desired.selected_uids
    → IsOrdered (desired_epoch desired v4 v6)
unfolding desired_epoch
desired_epoch-IsOrdered desired v4 v6 s = record {
  selected = s;
  draining = tt;
  bypass_v4 = IsSorted-collect_prefixes 32 desired.bypass_v4 [] tt;
  bypass_v6 = IsSorted-collect_prefixes 128 desired.bypass_v6 [] tt;
  self_v4 = IsSorted-collect_addresses v4 [] tt;
  self_v6 = IsSorted-collect_addresses v6 [] tt;
}

committed-IsDisjoint :
    (from desired : PolicyEpoch) → IsOrdered from → IsDisjoint (committed from desired)
committed-IsDisjoint from desired h k selected =
    let (same, drains) = committed-uids from desired k h in ground (arith, same, drains, selected)

-- What a recorded policy reads back as.
live_epoch-adopt :
    (calls : Calls) (desired : DesiredPolicy) (own : SelfSelection) (k : LoadedModule) (m : Manager)
    → IsSorted desired.selected_uids
    → let next = committed (live_epoch m) (desired_epoch desired own.v4 own.v6) in
      live_epoch (adopt calls desired own (live_epoch m) next k m) ≡ next
live_epoch-adopt calls desired own k m s =
    let wanted = desired_epoch desired own.v4 own.v6 in
    let next = committed (live_epoch m) wanted in
    let ordered =
      committed-IsOrdered (live_epoch m) wanted (live_epoch-IsOrdered m)
        (desired_epoch-IsOrdered desired own.v4 own.v6 s) in
    let selected =
      uid_modes-selected next ordered.selected
        (committed-IsDisjoint (live_epoch m) wanted (live_epoch-IsOrdered m)) in
    let draining = uid_modes-draining next ordered.draining in
    unfold live_epoch adopt desired_epoch committed in
    (λ i. record {
      cidr_mode = wanted.cidr_mode;
      selected = selected i;
      draining = draining i;
      bypass_v4 = wanted.bypass_v4;
      bypass_v6 = wanted.bypass_v6;
      self_v4 = wanted.self_v4;
      self_v6 = wanted.self_v6;
    })

-- A transaction that succeeds has chosen the device's own addresses, its live epoch is the commit of
-- the desired one, and the module holds that epoch.
pub record IsCommit (calls : Calls) (desired : DesiredPolicy) (m m' : Manager) : Type 0 where
  pub own : SelfSelection
  pub chosen : (desired_self_addresses calls.addresses m).0 ≡ ok own
  pub epoch : live_epoch m' ≡ committed (live_epoch m) (desired_epoch desired own.v4 own.v6)
  pub held : LoadedModule
  pub kmod : m'.kmod ≡ some held
  pub holds : Holds (live_epoch m') held

module _ (calls : Calls) (desired : DesiredPolicy) (s : IsSorted desired.selected_uids) where
  abbrev IsChosen : SelfSelection → Manager → Type 0
  IsChosen own m = (desired_self_addresses calls.addresses m).0 ≡ ok own

  abbrev next_epoch : SelfSelection → Manager → PolicyEpoch
  next_epoch own m = committed (live_epoch m) (desired_epoch desired own.v4 own.v6)

  adopted :
      (own : SelfSelection) (k k1 k2 : LoadedModule) (m noted m' : Manager)
      → IsChosen own m
      → live_epoch noted ≡ live_epoch m
      → k1 ≡ record k { bypass = some (bypass_of (next_epoch own noted)) }
      → Fits (bypass_of (next_epoch own noted))
      → k2 ≡ record k1 { uids = keys (next_epoch own noted).selected }
      → m' ≡ adopt calls desired own (live_epoch noted) (next_epoch own noted) k2 noted
      → IsCommit calls desired m m'
  adopted own k k1 k2 m noted m' c same b f u eq =
      let epoch : live_epoch m' ≡ next_epoch own noted =
        rw eq (live_epoch-adopt calls desired own k2 noted s) in
      record {
        own = own;
        chosen = c;
        epoch = rw (epoch, same) refl;
        held = k2;
        kmod = rw eq (unfold adopt in refl);
        holds = record {
          uids = rw (epoch, u) refl;
          bypass = rw (epoch, u, b) refl;
          fits = rw epoch f;
        };
      }

  after_uids-IsCommit :
      (own : SelfSelection) (k k1 : LoadedModule) (m noted m' : Manager) (r : Result LoadedModule)
      → IsChosen own m
      → live_epoch noted ≡ live_epoch m
      → k1 ≡ record k { bypass = some (bypass_of (next_epoch own noted)) }
      → Fits (bypass_of (next_epoch own noted))
      → set_uids calls.set_uids (keys (next_epoch own noted).selected) k1 ≡ r
      → after_uids calls desired own (live_epoch noted) (next_epoch own noted) noted k1 r
        ≡ (ok tt, m')
      → IsCommit calls desired m m'
  after_uids-IsCommit own k k1 m noted m' (err e) c same b f u h = ground arith
  after_uids-IsCommit own k k1 m noted m' (ok k2) c same b f u h =
      adopted own k k1 k2 m noted m' c same b f (set_uids-ok calls.set_uids _ k1 k2 u)
        (λ i. (sym h i).1)

  after_bypass-IsCommit :
      (own : SelfSelection) (k : LoadedModule) (m noted m' : Manager) (r : Result LoadedModule)
      → IsChosen own m
      → live_epoch noted ≡ live_epoch m
      → kmod_set_bypass calls.set_bypass (next_epoch own noted) k ≡ r
      → after_bypass calls desired own (live_epoch noted) (next_epoch own noted) noted r
        ≡ (ok tt, m')
      → IsCommit calls desired m m'
  after_bypass-IsCommit own k m noted m' (err e) c same b h = ground arith
  after_bypass-IsCommit own k m noted m' (ok k1) c same b h =
      let (eq, fits) =
        set_bypass-ok calls.set_bypass (bypass_of (next_epoch own noted)) k k1
          (unfold kmod_set_bypass in b) in
      after_uids-IsCommit own k k1 m noted m' _ c same eq fits refl h

  publish-IsCommit :
      (own : SelfSelection) (k : Option LoadedModule) (m noted m' : Manager)
      → IsChosen own m
      → live_epoch noted ≡ live_epoch m
      → publish calls desired own (live_epoch noted) (next_epoch own noted) noted k ≡ (ok tt, m')
      → IsCommit calls desired m m'
  publish-IsCommit own none m noted m' c same h = ground arith
  publish-IsCommit own (some k) m noted m' c same h =
      after_bypass-IsCommit own k m noted m' _ c same refl h

  with_addresses-IsCommit :
      (r : Result SelfSelection × Manager) (m m' : Manager)
      → (desired_self_addresses calls.addresses m).0 ≡ r.0
      → live_epoch r.1 ≡ live_epoch m
      → with_addresses calls desired r ≡ (ok tt, m')
      → IsCommit calls desired m m'
  with_addresses-IsCommit (err e, noted) m m' c same h = ground arith
  with_addresses-IsCommit (ok own, noted) m m' c same h =
      publish-IsCommit own noted.kmod m noted m' c same (ground arith)

  with_snapshot-IsCommit :
      (call : Outcome) (m m' : Manager)
      → with_snapshot calls desired m call ≡ (ok tt, m')
      → IsCommit calls desired m m'
  with_snapshot-IsCommit (Outcome.errno e) m m' h = ground arith
  with_snapshot-IsCommit Outcome.done m m' h =
      with_addresses-IsCommit (desired_self_addresses calls.addresses m) m m' refl
        (unfold desired_self_addresses live_epoch in refl) h

  -- `apply_policy` refines the commit of epochs: where it returns `Ok` outside the test mode, the
  -- device's own addresses were chosen, the live epoch has become the commit of the desired epoch on
  -- the one before, and the kernel module holds exactly the UIDs and the tables of the new live epoch.
  pub apply_policy-IsCommit :
      (m m' : Manager)
      → m.test_bypass ≡ false
      → apply_policy calls desired m ≡ (ok tt, m')
      → IsCommit calls desired m m'
  apply_policy-IsCommit m m' live h =
      with_snapshot-IsCommit calls.snapshot m m' (unfold apply_policy in ground arith)
