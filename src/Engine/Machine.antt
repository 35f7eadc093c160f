-- ===== src/Engine/Machine.antt =====
-- crates/fluxd/src/reactor.rs: the fields that the engine's transactions read and write, with the
-- processes that run and the generation files that exist.
use flux_rs.Base.{
  ℕ, ◌+◌, Bool, true, false, not, ◌&&◌, ◌||◌, ◌==◌, if◌then◌else◌, Option, none, some, List, [],
  ◌∷◌,
}
use flux_rs.Base.Text.{Text}
use flux_rs.Runtime.Generations.{Generations}
use flux_rs.Supervisor.{backoff_steps, at_most_last}
use flux_rs.Engine.{EngineChild, EngineError, WaitRole, EngineTransaction, Owns}

pub data LastError : Type 0 where
  of_engine : EngineError → LastError
  engine_exited engine_stop_failed engine_io_error dataplane_error : LastError

-- A response that waits for a generation; `none` is not yet bound to one.
pub record Machine : Type 0 where
  pub engine : Option EngineChild
  pub transaction : Option EngineTransaction
  pub activation_role : Option WaitRole
  pub diag_probe : Bool
  pub engine_cancel_requested : Bool
  pub shutdown_requested : Bool
  pub disabled : Bool
  pub generations : Generations
  pub current_engine_user : Option Text
  pub last_error : Option LastError
  pub crash_count : ℕ
  pub engine_timer : Option ℕ
  pub backoff : Option ℕ
  pub pending : Option (Option ℕ)
  pub reconfigure_queued : Bool
  pub fetch_queued : Bool
  pub changes_queued : Bool
  -- A convergence is called at the end of the handler.
  pub convergence_due : Bool
  pub active : Bool
  -- The engine processes that were spawned and not reaped, and the generation files.
  pub processes : List ℕ
  pub files : List ℕ

pub data Spawned : Type 0 where
  started : ℕ → Spawned
  failed : EngineError → Spawned

pub data ProbeAnswer : Type 0 where
  wait : ProbeAnswer
  answered : List (Option ℕ) → ProbeAnswer
  retryable broken : ProbeAnswer

pub data CheckAnswer : Type 0 where
  live : CheckAnswer
  ended : Option EngineError → CheckAnswer
  unsupervised : EngineError → CheckAnswer

pub data AttachmentAnswer : Type 0 where
  waits complete broken : AttachmentAnswer

-- What the calls of one handler return. A handler takes no time of its own.
pub record Answers : Type 0 where
  pub now : ℕ
  pub exited : Bool
  pub dies : Bool
  pub spawn : ℕ → Spawned
  pub registered : ℕ → Bool
  pub retagged : Bool
  pub identity : Option Bool
  pub probe_started : Bool
  pub probe : ProbeAnswer
  pub owns : Owns
  pub check : CheckAnswer
  pub frozen : Bool
  pub inactive : Bool
  pub prepared : Bool
  pub attachment : AttachmentAnswer
  pub interface_ready : Bool
  pub cached : Bool
  pub published : Bool
  pub in_order : Bool

abbrev pub arm_timer : ℕ → Machine → Machine
arm_timer delay m = record m { engine_timer = some delay }

abbrev pub disarm_timer : Machine → Machine
disarm_timer m = record m { engine_timer = none }

abbrev pub without : ℕ → List ℕ → List ℕ
without n [] = []
without n (k ∷ ks) = if k == n then without n ks else k ∷ without n ks

abbrev pub remove_file : ℕ → Machine → Machine
remove_file path m = record m { files = without path m.files }

-- `engine::terminate` without grace: a process that has exited is reaped; another is killed, and reaped
-- where that is confirmed.
abbrev pub terminate : Answers → EngineChild → Machine → Machine
terminate a child m =
    if a.exited || a.dies then record m { processes = without child.pid m.processes } else m

abbrev pub drop_diag_probe : Machine → Machine
drop_diag_probe m = record m { diag_probe = false }

abbrev pub is_some {ℓ} : {A : Type ℓ} → Option A → Bool
is_some none = false
is_some (some a) = true

abbrev pub convergence_busy : Machine → Bool
convergence_busy m = is_some m.transaction || is_some m.activation_role

abbrev pub schedule_backoff : ℕ → Machine → Machine
schedule_backoff seconds m = record m { backoff = some seconds }

abbrev pub cancel_backoff : Machine → Machine
cancel_backoff m = record m { backoff = none }

-- The crash count is taken not to leave its type.
abbrev pub retry_later : Machine → Machine
retry_later m = record m {
  crash_count = m.crash_count + 1;
  backoff = some (at_most_last backoff_steps m.crash_count);
}

abbrev pub bound_to : ℕ → Option (Option ℕ) → Bool
bound_to generation (some (some g)) = g == generation
bound_to generation p = false

abbrev pub discard_generation : ℕ → Machine → Machine
discard_generation generation m = record m {
  pending = if bound_to generation m.pending then none else m.pending;
}

abbrev pub record_dataplane_error : Machine → Machine
record_dataplane_error m = record m { last_error = some dataplane_error }

abbrev pub resume_queued_subscription_work : Machine → Machine
resume_queued_subscription_work m =
    if convergence_busy m
    then m
    else if m.reconfigure_queued
    then record m { reconfigure_queued = false; fetch_queued = false; changes_queued = true }
    else record m { fetch_queued = false }

abbrev pub run_queued_convergence : Machine → Machine
run_queued_convergence m =
    if not m.shutdown_requested && not m.disabled && m.changes_queued
    then record m { convergence_due = true }
    else m
