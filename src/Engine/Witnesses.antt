-- ===== src/Engine/Witnesses.antt =====
-- Tests of the engine's supervision, and its theorems at concrete inputs.
use flux_rs.Base.{
  ℕ, ◌+◌, ◌≤◌, ◌⊎◌, true, false, none, some, [], ◌∷◌, ◌≡◌, refl, length, List, Option, arith,
}
use flux_rs.Runtime.Generations.{allocate}
use flux_rs.Engine.{
  EngineParams, EngineChild, EngineError, io, OldGeneration, SwitchPlan, CheckDisposition, StopNext,
  stopping, verify_listener_inodes,
}
use flux_rs.Engine.Machine.{Machine, Spawned, ProbeAnswer, CheckAnswer, AttachmentAnswer, Answers}
use flux_rs.Engine.Stopping.{cancel_engine_work}
use flux_rs.Engine.Waiting.{handle_sock_diag}
use flux_rs.Engine.Handlers.{
  Start, start_generation_check, handle_check_exit, handle_engine_timer, handle_transaction_pidfd,
  complete_check,
}
use flux_rs.Engine.Converging.{converge_engine, converge_last}
use flux_rs.Engine.Supervised.{IsSupervised}
use flux_rs.Engine.Supervised.Reachable.{fresh, Steps, Step, here, next, Steps-IsSupervised}
use flux_rs.Engine.Settling.{IsOver, IsSettled, settle, cancel_engine_work-settles}
use flux_rs.Engine.Switching.{Keeps, complete_check-Keeps}
use flux_rs.Engine.Returning.{Returned}
use flux_rs.Engine.Returning.Serving.{failed_candidate-Returned}

abbrev inodes : List (Option ℕ)
inodes = some 11 ∷ some 12 ∷ some 13 ∷ some 14 ∷ []

-- Every call succeeds, and the child is alive.
abbrev alive : Answers
alive = record {
  now = 1_000;
  exited = false;
  dies = true;
  spawn = λ path. Spawned.started (100 + path);
  registered = λ pid. true;
  retagged = true;
  identity = some true;
  probe_started = true;
  probe = ProbeAnswer.answered inodes;
  owns = λ inode. some true;
  check = CheckAnswer.ended none;
  frozen = true;
  inactive = true;
  prepared = true;
  attachment = AttachmentAnswer.complete;
  interface_ready = true;
  cached = true;
  published = true;
  in_order = true;
}

abbrev gone : Answers
gone = record alive { exited = true }

abbrev unhindered : Start
unhindered = record {
  port_v4 = 40_001;
  port_v6 = 40_002;
  unprepared = none;
  unwritten = none;
  unspawned = none;
  watched = true;
  policy_present = true;
}

abbrev params_of : ℕ → EngineParams
params_of generation = record { generation = generation; port_v4 = 40_001; port_v6 = 40_002 }

abbrev child_of : ℕ → EngineChild
child_of generation = record {
  pid = 100 + generation;
  params = params_of generation;
  effective = generation;
  spawned_at = 0;
  sockets_verified = 0;
}

abbrev old : OldGeneration
old = record { params = params_of 1; effective = 1 }

abbrev plan : SwitchPlan
plan = record {
  generation = 2;
  params = params_of 2;
  candidate = 2;
  user = b'{' ∷ b'}' ∷ [];
  old = some old;
}

abbrev checking_first : Machine
checking_first =
    start_generation_check alive unhindered (b'{' ∷ b'}' ∷ []) 1
      (record (fresh false) { generations = record { next = 2; committed = 0 } })

first_steps : Steps (fresh false) (handle_check_exit alive checking_first)
unfolding converge_engine allocate start_generation_check
first_steps =
    next (next here (Step.convergence alive unhindered false (some (b'{' ∷ b'}' ∷ [])) refl))
      (Step.check_exit alive checking_first)

Steps-IsSupervised_example :
    IsSupervised (handle_check_exit alive checking_first)
    × (length (handle_check_exit alive checking_first).processes ≤ 1)
Steps-IsSupervised_example = Steps-IsSupervised first_steps

-- The candidate of the second generation failed and is being stopped.
abbrev failing : Machine
failing = record (fresh false) {
  transaction = some (stopping (child_of 2) (StopNext.recover plan io) 4_000 false);
  engine_timer = some 3_000;
  generations = record { next = 3; committed = 1 };
  processes = 102 ∷ [];
  files = 1 ∷ 2 ∷ [];
}

failing-IsSupervised : IsSupervised failing
failing-IsSupervised = record {
  counted = refl;
  alone = refl;
  assigned = refl;
  owned = refl;
  armed = refl;
  probing = refl;
}

gone-IsOver : IsOver gone
gone-IsOver = record { exited = refl; result = none; checked = refl }

cancel_engine_work-settles_example :
    IsSettled (settle gone (cancel_engine_work alive failing))
    ⊎ ((converge_last gone unhindered false none (settle gone (cancel_engine_work alive failing))
          ≡ some (settle gone (cancel_engine_work alive failing)))
        × IsSettled (settle gone (settle gone (cancel_engine_work alive failing))))
cancel_engine_work-settles_example =
    cancel_engine_work-settles alive gone gone unhindered false none failing failing-IsSupervised
      refl gone-IsOver gone-IsOver

failed_candidate-Returned_example :
    Returned
      (params_of 1)
      101
      io
      (handle_sock_diag alive (handle_engine_timer alive (handle_transaction_pidfd gone failing)))
unfolding verify_listener_inodes
failed_candidate-Returned_example =
    failed_candidate-Returned gone alive alive io inodes failing failing-IsSupervised refl refl refl
      (record { exited = refl; spawned = refl; registered = refl })
      (record { alive = refl; in_time = omega arith; identified = refl; sent = refl })
      (record {
        alive = refl;
        in_time = omega arith;
        answers = refl;
        owned = refl;
        retagged = refl;
        prepared = refl;
        attached = refl;
        interface_ready = refl;
        published = refl;
      })

abbrev serving : Machine
serving = record (fresh false) {
  engine = some (child_of 1);
  generations = record { next = 3; committed = 1 };
  active = true;
  processes = 101 ∷ [];
  files = 1 ∷ 2 ∷ [];
}

complete_check-Keeps_example :
    Keeps
      ((◌≡◌ {A = Option EngineError} none none) × (true ≡ true))
      serving
      (complete_check alive plan CheckDisposition.normal none serving)
complete_check-Keeps_example = complete_check-Keeps alive plan (child_of 1) none serving refl refl
