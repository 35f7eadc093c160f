-- ===== src/Dataplane/Holding.antt =====
-- crates/fluxd/src/dataplane/kmod.rs: what the kernel module holds after each request to it.
use flux_rs.Base.{ℕ, ◌≤◌, ◌≡◌, some, List, length, arith}
use flux_rs.Policy.Epoch.{PolicyEpoch}
use flux_rs.Dataplane.{Outcome, ok, Bypass, LoadedModule, set_uids, set_bypass, lpm_max, self_max}
use flux_rs.Dataplane.Epochs.{keys, bypass_of}

-- The tables are within the bounds of the module.
pub record Fits (b : Bypass) : Type 0 where
  pub v4 : length b.v4 ≤ lpm_max
  pub v6 : length b.v6 ≤ lpm_max
  pub self4 : length b.self4 ≤ self_max
  pub self6 : length b.self6 ≤ self_max

-- The module holds the epoch: its UIDs are the selected ones and its tables those of the epoch.
pub record Holds (e : PolicyEpoch) (k : LoadedModule) : Type 0 where
  pub uids : k.uids ≡ keys e.selected
  pub bypass : k.bypass ≡ some (bypass_of e)
  pub fits : Fits (bypass_of e)

pub set_uids-ok :
    (call : Outcome) (uids : List ℕ) (k k' : LoadedModule)
    → set_uids call uids k ≡ ok k'
    → k' ≡ record k { uids = uids }
unfolding set_uids
set_uids-ok Outcome.done uids k k' h = ground arith
set_uids-ok (Outcome.errno e) uids k k' h = ground arith

set_bypass-Fits :
    (call : Outcome) (b : Bypass) (k k' : LoadedModule) → set_bypass call b k ≡ ok k' → Fits b
unfolding set_bypass
set_bypass-Fits call b k k' h = record {
  v4 = ground arith;
  v6 = ground arith;
  self4 = ground arith;
  self6 = ground arith;
}

set_bypass-stores :
    (call : Outcome) (b : Bypass) (k k' : LoadedModule)
    → set_bypass call b k ≡ ok k'
    → k' ≡ record k { bypass = some b }
unfolding set_bypass
set_bypass-stores Outcome.done b k k' h = ground arith
set_bypass-stores (Outcome.errno e) b k k' h = ground arith

pub set_bypass-ok :
    (call : Outcome) (b : Bypass) (k k' : LoadedModule)
    → set_bypass call b k ≡ ok k'
    → (k' ≡ record k { bypass = some b }) × Fits b
set_bypass-ok call b k k' h = (set_bypass-stores call b k k' h, set_bypass-Fits call b k k' h)

-- Tables within the bounds are taken where the request itself succeeds.
pub set_bypass-done :
    (b : Bypass) (k : LoadedModule)
    → Fits b
    → set_bypass Outcome.done b k ≡ ok (record k { bypass = some b })
unfolding set_bypass
set_bypass-done b k f = ground (arith, f.v4, f.v6, f.self4, f.self6)
