-- ===== src/Engine/Supervised.antt =====
-- crates/fluxd/src/reactor.rs: at most one engine process runs, and the reactor holds it.
pub mod Ends
pub mod Steps
pub mod Activation
pub mod Handling
pub mod Cancelling
pub mod Convergence
pub mod Reachable
use flux_rs.Base.{
  ℕ, Bool, true, false, not, ◌&&◌, Option, none, some, List, [], ◌∷◌, ◌++◌, ◌≡◌, refl,
  if◌then◌else◌,
}
use flux_rs.Engine.{EngineChild, EngineTransaction, checking, waiting, stopping}
use flux_rs.Engine.Machine.{Machine, is_some}

abbrev pub engine_pids : Option EngineChild → List ℕ
engine_pids none = []
engine_pids (some child) = child.pid ∷ []

abbrev pub transaction_pids : Option EngineTransaction → List ℕ
transaction_pids (some (waiting child role deadline backoff)) = child.pid ∷ []
transaction_pids (some (stopping child next deadline kill_sent)) = child.pid ∷ []
transaction_pids t = []

abbrev pub holds_child : Option EngineTransaction → Bool
holds_child none = false
holds_child (some (checking plan deadline disposition)) = false
holds_child (some t) = true

abbrev pub is_waiting : Option EngineTransaction → Bool
is_waiting (some (waiting child role deadline backoff)) = true
is_waiting t = false

-- The processes are the child of the engine or of the transaction, never of both; an activation has an
-- engine and no transaction; a transaction has its timer; only one that waits has a probe.
pub record IsSupervised (m : Machine) : Type 0 where
  pub counted : m.processes ≡ engine_pids m.engine ++ transaction_pids m.transaction
  pub alone : (is_some m.engine && holds_child m.transaction) ≡ false
  pub assigned : (is_some m.activation_role && is_some m.transaction) ≡ false
  pub owned : (is_some m.activation_role && not (is_some m.engine)) ≡ false
  pub armed : (is_some m.transaction && not (is_some m.engine_timer)) ≡ false
  pub probing : (m.diag_probe && not (is_waiting m.transaction)) ≡ false

-- A machine whose transaction is over: only its engine runs.
pub record IsIdle (m : Machine) : Type 0 where
  pub counted : m.processes ≡ engine_pids m.engine
  pub unassigned : m.activation_role ≡ none
  pub quiet : m.diag_probe ≡ false

-- A machine from which a child was taken: no other runs.
pub record Holds (pid : ℕ) (m : Machine) : Type 0 where
  pub taken : m.engine ≡ none
  pub unassigned : m.activation_role ≡ none
  pub counted : m.processes ≡ pid ∷ []

-- A machine with no transaction, whose engine may be in activation.
pub record IsResting (m : Machine) : Type 0 where
  pub counted : m.processes ≡ engine_pids m.engine
  pub untouched : m.transaction ≡ none
  pub quiet : m.diag_probe ≡ false
  pub owned : (is_some m.activation_role && not (is_some m.engine)) ≡ false

pub choose-IsSupervised :
    (b : Bool) (x y : Machine)
    → (b ≡ true → IsSupervised x)
    → (b ≡ false → IsSupervised y)
    → IsSupervised (if b then x else y)
choose-IsSupervised true x y hx hy = hx refl
choose-IsSupervised false x y hx hy = hy refl

-- A machine that differs only in fields that no process depends on.
pub carry-IsSupervised :
    (m m' : Machine)
    → m'.engine ≡ m.engine
    → m'.transaction ≡ m.transaction
    → m'.activation_role ≡ m.activation_role
    → m'.diag_probe ≡ m.diag_probe
    → m'.engine_timer ≡ m.engine_timer
    → m'.processes ≡ m.processes
    → IsSupervised m
    → IsSupervised m'
carry-IsSupervised m m' e t r d k p h = record {
  counted = rw (p, e, t) h.counted;
  alone = rw (e, t) h.alone;
  assigned = rw (r, t) h.assigned;
  owned = rw (r, e) h.owned;
  armed = rw (t, k) h.armed;
  probing = rw (d, t) h.probing;
}
