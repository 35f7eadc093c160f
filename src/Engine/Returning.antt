-- ===== src/Engine/Returning.antt =====
-- crates/fluxd/src/reactor.rs: what a candidate that fails and the generation before it go through.
pub mod Restarting
pub mod Probing
pub mod Serving
use flux_rs.Base.{
  ℕ, ◌+◌, ◌<◌, Bool, true, false, not, ◌&&◌, ◌||◌, Option, none, some, List, [], ◌∷◌, ◌≡◌, refl,
  arith, leb, if◌then◌else◌,
}
use flux_rs.Engine.{
  EngineParams, EngineChild, EngineError, io, OldGeneration, SwitchPlan, WaitRole, candidate,
  recovery, StopNext, recover, EngineTransaction, waiting, stopping, ready_deadline, Readiness,
  verify_listener_inodes,
}
use flux_rs.Engine.Machine.{
  LastError, of_engine, Machine, Answers, Spawned, started, ProbeAnswer, answered, AttachmentAnswer,
  complete, terminate, remove_file, discard_generation, is_some, run_queued_convergence,
  resume_queued_subscription_work,
}
use flux_rs.Engine.Recovering.{
  wait_for_child, begin_candidate_failure, complete_stopped, new_child, recover_old,
  without_candidate, with_process,
}
use flux_rs.Engine.Stopping.{begin_stop}
use flux_rs.Engine.Activating.{
  promote_ready_child, start_phase6_attachment, finish_phase6_activation,
}
use flux_rs.Engine.Waiting.{
  park_waiting, advance_waiting, unless_over, by_identity, start_probe, handle_sock_diag,
  by_readiness, by_answer,
}
use flux_rs.Engine.Handlers.{handle_transaction_pidfd, handle_engine_timer}
use flux_rs.Engine.Supervised.{IsSupervised, IsIdle, Holds}
use flux_rs.Engine.Supervised.Steps.{stopping-Holds}

-- The exit of the candidate, after which the old generation's process starts.
pub record Restarts (old : OldGeneration) (pid : ℕ) (a : Answers) : Type 0 where
  pub exited : a.exited ≡ true
  pub spawned : a.spawn old.effective ≡ started pid
  pub registered : a.registered pid ≡ true

-- What the timer finds: the process is the engine, in time, and the probe goes out.
pub record Probes (deadline : ℕ) (a : Answers) : Type 0 where
  pub alive : a.exited ≡ false
  pub in_time : a.now < deadline
  pub identified : a.identity ≡ some true
  pub sent : a.probe_started ≡ true

-- All sockets are the child's, and every call of the activation succeeds.
pub record Activates (deadline : ℕ) (inodes : List (Option ℕ)) (a : Answers) : Type 0 where
  pub alive : a.exited ≡ false
  pub in_time : a.now < deadline
  pub answers : a.probe ≡ answered inodes
  pub owned : verify_listener_inodes a.owns inodes ≡ Readiness.ready 4
  pub retagged : a.retagged ≡ true
  pub prepared : a.prepared ≡ true
  pub attached : a.attachment ≡ complete
  pub interface_ready : a.interface_ready ≡ true
  pub published : a.published ≡ true

-- A machine that waits for the old generation, in whatever else it differs.
pub record Waits (child : EngineChild) (e : EngineError) (deadline backoff : ℕ) (m : Machine)
    : Type 0 where
  pub waits : m.transaction ≡ some (waiting child (recovery e) deadline backoff)
  pub alone : m.engine ≡ none
  pub unassigned : m.activation_role ≡ none
  pub going : m.engine_cancel_requested ≡ false
  pub counted : m.processes ≡ child.pid ∷ []

abbrev pub Probed : EngineChild → EngineError → ℕ → ℕ → Machine → Type 0
Probed child e deadline backoff m = Waits child e deadline backoff m × (m.diag_probe ≡ true)

-- The old generation serves again: its child is the engine, its generation committed, and the
-- candidate's failure is what is shown.
pub record Returned (params : EngineParams) (pid : ℕ) (e : EngineError) (m : Machine) : Type 0 where
  pub child : EngineChild
  pub serving : m.engine ≡ some child
  pub same : child.params ≡ params
  pub verified : child.sockets_verified ≡ 4
  pub idle : m.transaction ≡ none
  pub committed : m.activation_role ≡ none
  pub generation : m.generations.committed ≡ params.generation
  pub shown : m.last_error ≡ some (of_engine e)
  pub active : m.active ≡ true
  pub counted : m.processes ≡ pid ∷ []

-- `rw` by a field's value would also rewrite the record that holds it.
pub otherwise :
    (P : Machine → Type 0) (b : Bool) (x y : Machine) → b ≡ false → P y → P (if b then x else y)
otherwise P true x y e h = cc
otherwise P false x y e h = h

pub chosen :
    (P : Machine → Type 0) (b : Bool) (x y : Machine) → b ≡ true → P x → P (if b then x else y)
chosen P true x y e h = h
chosen P false x y e h = cc
