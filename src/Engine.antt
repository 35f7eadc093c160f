-- ===== src/Engine.antt =====
-- crates/fluxd/src/engine.rs: the supervised engine process, why an operation on it fails, and the
-- transaction that replaces it. The children are the handlers of reactor.rs that advance it.
pub mod Machine
pub mod Stopping
pub mod Recovering
pub mod Activating
pub mod Waiting
pub mod Handlers
pub mod Converging
pub mod Supervised
pub mod Settling
pub mod Switching
pub mod Returning
mod Witnesses
use flux_rs.Base.{
  ℕ, ◌+◌, ◌==◌, Bool, true, false, ◌&&◌, if◌then◌else◌, Option, none, some, List, [], ◌∷◌,
}
use flux_rs.Base.Text.{Text}

pub record EngineParams : Type 0 where
  pub generation : ℕ
  pub port_v4 : ℕ
  pub port_v6 : ℕ

-- A path of a generation's file is the generation.
pub record EngineChild : Type 0 where
  pub pid : ℕ
  pub params : EngineParams
  pub effective : ℕ
  pub spawned_at : ℕ
  pub sockets_verified : ℕ

pub data EngineError : Type 0 where
  binary_missing config_invalid write_effective check_failed spawn_failed : EngineError
  exited socket_owner_mismatch io : EngineError
  not_ready : ℕ → EngineError

pub record OldGeneration : Type 0 where
  pub params : EngineParams
  pub effective : ℕ

-- `user` is the generated configuration as it is written out.
pub record SwitchPlan : Type 0 where
  pub generation : ℕ
  pub params : EngineParams
  pub candidate : ℕ
  pub user : Text
  pub old : Option OldGeneration

pub data CheckDisposition : Type 0 where
  normal timed_out cancelled supervision_failed : CheckDisposition

pub data WaitRole : Type 0 where
  candidate : SwitchPlan → WaitRole
  recovery : EngineError → WaitRole

pub data StopNext : Type 0 where
  start_candidate : SwitchPlan → StopNext
  recover : SwitchPlan → EngineError → StopNext
  finish_recovery_failure : EngineError → EngineError → StopNext
  cancelled : StopNext

-- Instants and durations are milliseconds. The check process is one number, its output left out.
pub data EngineTransaction : Type 0 where
  checking : SwitchPlan → ℕ → CheckDisposition → EngineTransaction
  waiting : EngineChild → WaitRole → ℕ → ℕ → EngineTransaction
  stopping : EngineChild → StopNext → ℕ → Bool → EngineTransaction

abbrev pub check_deadline : ℕ
check_deadline = 15_000

abbrev pub ready_deadline : ℕ
ready_deadline = 5_000

abbrev pub terminate_grace : ℕ
terminate_grace = 3_000

-- The owner of an inode that was found: `none` where reading the process's descriptors fails.
abbrev pub Owns : Type 0
Owns = ℕ → Option Bool

pub data Readiness : Type 0 where
  pending ready : ℕ → Readiness
  refused : EngineError → Readiness

abbrev pub count_owned : Owns → Bool → ℕ → List (Option ℕ) → Readiness
count_owned owns all_present verified [] =
    if all_present && verified == 4 then Readiness.ready verified else Readiness.pending verified
count_owned owns all_present verified (none ∷ inodes) = count_owned owns false verified inodes
count_owned owns all_present verified (some inode ∷ inodes) = elim (owns inode) [
  | none ↦ Readiness.refused io
  | some false ↦ Readiness.refused socket_owner_mismatch
  | some true ↦ count_owned owns all_present (verified + 1) inodes
]

unfoldable pub verify_listener_inodes : Owns → List (Option ℕ) → Readiness
verify_listener_inodes owns inodes = count_owned owns true 0 inodes

-- Whether a failed cold start is tried again without a change of the configuration.
unfoldable pub is_retryable : EngineError → Bool
is_retryable binary_missing = false
is_retryable config_invalid = false
is_retryable check_failed = false
is_retryable _ = true
