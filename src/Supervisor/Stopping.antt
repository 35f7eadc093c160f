-- ===== src/Supervisor/Stopping.antt =====
-- crates/fluxd/src/supervisor.rs: what a request to stop does while the reactor runs.
use flux_rs.Base.{ℕ, ◌≡◌, refl, true, false, Option, none, some, List, [], ◌∷◌, ◌++◌, All}
use flux_rs.Supervisor.{
  ReactorOutcome, conservative_exit_code, WaitMacros, Event, Reap, Kill, alive, reaped, unreapable,
  sent, sigchld, sigterm, sighup, unexpected, wait_failed, deadline, decode_wait_status, force_stop,
  wait_for_reactor, ended, Round, run, run_round, decide_reactor_outcome,
}

-- An event that leaves the reactor running: a SIGCHLD of a live child, a reload, another signal.
abbrev pub IsQuiet : Event → Type 0
IsQuiet (sigchld alive) = Unit
IsQuiet (sigchld r) = ⊥
IsQuiet sighup = Unit
IsQuiet unexpected = Unit
IsQuiet e = ⊥

-- The same, or one more request to stop.
abbrev pub IsPatient : Event → Type 0
IsPatient (sigterm until reap kill last) = Unit
IsPatient e = IsQuiet e

wait_for_reactor-quiet :
    (libc : WaitMacros) (before after : List Event)
    → All IsQuiet before
    → wait_for_reactor libc false none (before ++ after) ≡ wait_for_reactor libc false none after
unfolding wait_for_reactor
wait_for_reactor-quiet libc [] after h = refl
wait_for_reactor-quiet libc (sigchld alive ∷ es) after h = wait_for_reactor-quiet libc es after h.1
wait_for_reactor-quiet libc (sighup ∷ es) after h = wait_for_reactor-quiet libc es after h.1
wait_for_reactor-quiet libc (unexpected ∷ es) after h = wait_for_reactor-quiet libc es after h.1
wait_for_reactor-quiet libc (sigchld (reaped s) ∷ es) after h = absurd h.0
wait_for_reactor-quiet libc (sigchld unreapable ∷ es) after h = absurd h.0
wait_for_reactor-quiet libc (sigterm u r k l ∷ es) after h = absurd h.0
wait_for_reactor-quiet libc (wait_failed ∷ es) after h = absurd h.0
wait_for_reactor-quiet libc (deadline r k l ∷ es) after h = absurd h.0

wait_for_reactor-patient :
    (libc : WaitMacros) (until : ℕ) (before after : List Event)
    → All IsPatient before
    → wait_for_reactor libc true (some until) (before ++ after)
      ≡ wait_for_reactor libc true (some until) after
unfolding wait_for_reactor
wait_for_reactor-patient libc until [] after h = refl
wait_for_reactor-patient libc until (sigchld alive ∷ es) after h =
    wait_for_reactor-patient libc until es after h.1
wait_for_reactor-patient libc until (sighup ∷ es) after h =
    wait_for_reactor-patient libc until es after h.1
wait_for_reactor-patient libc until (unexpected ∷ es) after h =
    wait_for_reactor-patient libc until es after h.1
wait_for_reactor-patient libc until (sigterm u r k l ∷ es) after h =
    wait_for_reactor-patient libc until es after h.1
wait_for_reactor-patient libc until (sigchld (reaped s) ∷ es) after h = absurd h.0
wait_for_reactor-patient libc until (sigchld unreapable ∷ es) after h = absurd h.0
wait_for_reactor-patient libc until (wait_failed ∷ es) after h = absurd h.0
wait_for_reactor-patient libc until (deadline r k l ∷ es) after h = absurd h.0

-- The way a reactor ends once a stop was requested: it is reaped on a SIGCHLD, or at the deadline
-- before or after a SIGKILL.
pub data Ends (status : ℕ) : Event → Type 0 where
  by_itself : Ends status (sigchld (reaped status))
  at_deadline : (kill : Kill) (last : Option ℕ) → Ends status (deadline (reaped status) kill last)
  killed : Ends status (deadline alive sent (some status))

wait_for_reactor-Ends :
    (libc : WaitMacros) (until status : ℕ) (outcome : ReactorOutcome) (e : Event)
    (after : List Event)
    → Ends status e
    → decode_wait_status libc status ≡ some outcome
    → wait_for_reactor libc true (some until) (e ∷ after) ≡ ended outcome true
unfolding wait_for_reactor force_stop
wait_for_reactor-Ends libc until status outcome e after by_itself k = rw k
wait_for_reactor-Ends libc until status outcome e after (at_deadline kill last) k = rw k
wait_for_reactor-Ends libc until status outcome e after killed k = rw k

-- A request to stop while the reactor runs is final: once the reactor ends, by itself or at the
-- deadline, and its wait status can be decoded, `run` returns its exit code, 1 for a signal, and
-- restarts nothing, whatever further rounds the script has.
pub run-stop :
    (libc : WaitMacros) (count until status : ℕ) (outcome : ReactorOutcome)
    (before patient after : List Event) (reap : Reap) (kill : Kill) (last : Option ℕ) (e : Event)
    (r : Round) (rs : List Round)
    → r.spawned ≡ true
    → r.events ≡ before ++ (sigterm (some until) reap kill last ∷ patient ++ (e ∷ after))
    → All IsQuiet before
    → All IsPatient patient
    → Ends status e
    → decode_wait_status libc status ≡ some outcome
    → run libc count (r ∷ rs) ≡ record { delays = []; code = some (conservative_exit_code outcome) }
unfolding run run_round wait_for_reactor decide_reactor_outcome
run-stop libc count until status outcome before patient after reap kill last e r rs hs he hq hp h
      k =
    rw (
      hs,
      he,
      wait_for_reactor-quiet libc before
          (sigterm (some until) reap kill last ∷ patient ++ (e ∷ after)) hq,
      wait_for_reactor-patient libc until patient (e ∷ after) hp,
      wait_for_reactor-Ends libc until status outcome e after h k,
    )
