-- ===== src/Supervisor/Backoff.antt =====
-- crates/fluxd/src/supervisor.rs: when the reactor is restarted, and after how long.
use flux_rs.Base.{
  ℕ, u64_max, ◌+◌, zero, suc, ◌≤◌, ◌<◌, ◌≡◌, ◌≢◌, ◌↔◌, refl, Bool, true, false, none, List, [], ◌∷◌,
  length, All, arith,
}
use flux_rs.Supervisor.{
  ReactorOutcome, exited, signaled, Decision, exit, do_not_restart, restart, WaitMacros,
  decide_reactor_outcome, at_most_last, backoff_steps, backoff_reset_after, Round, run, run_round,
  wait_backoff, wait_for_reactor, Waited, ended, pending, failed, Next, restarted, returned,
  unfinished, waiting, stop, broken, again, act, after_wait, after_backoff, follow, BackoffAction,
}

abbrev pub IsCrash : ReactorOutcome → Type 0
IsCrash (exited code) = code ≢ 0 × code ≢ 3
IsCrash (signaled n) = Unit

abbrev pub is_restart : Decision → Bool
is_restart (exit code) = false
is_restart (do_not_restart code) = false
is_restart (restart after count) = true

-- A reactor is restarted exactly when no stop was requested and it crashed: any exit code but success
-- and the held lock, or a signal.
pub decide_restart_iff :
    (outcome : ReactorOutcome) (stopping : Bool) (ran_for crash_count : ℕ)
    → is_restart (decide_reactor_outcome outcome stopping ran_for crash_count) ≡ true
      ↔ (stopping ≡ false × IsCrash outcome)
unfolding decide_reactor_outcome
decide_restart_iff outcome true ran_for crash_count = ground arith
decide_restart_iff (exited code) false ran_for crash_count = ground arith
decide_restart_iff (signaled code) false ran_for crash_count = ground arith

-- The seconds before the restart after a crash that follows `n` others.
abbrev pub delay_after : ℕ → ℕ
delay_after zero = 1
delay_after (suc zero) = 2
delay_after (suc (suc zero)) = 4
delay_after (suc (suc (suc zero))) = 8
delay_after (suc (suc (suc (suc n)))) = 30

at_most_last-backoff_steps : (n : ℕ) → at_most_last backoff_steps n ≡ delay_after n
at_most_last-backoff_steps zero = refl
at_most_last-backoff_steps (suc zero) = refl
at_most_last-backoff_steps (suc (suc zero)) = refl
at_most_last-backoff_steps (suc (suc (suc zero))) = refl
at_most_last-backoff_steps (suc (suc (suc (suc n)))) = refl

at_most_last-bounds : (n : ℕ) → 1 ≤ at_most_last backoff_steps n × at_most_last backoff_steps n ≤ 30
at_most_last-bounds zero = (omega arith, omega arith)
at_most_last-bounds (suc zero) = (omega arith, omega arith)
at_most_last-bounds (suc (suc zero)) = (omega arith, omega arith)
at_most_last-bounds (suc (suc (suc zero))) = (omega arith, omega arith)
at_most_last-bounds (suc (suc (suc (suc n)))) = (omega arith, omega arith)

-- The delays of `n` crashes in a row, the first after `count` others.
abbrev pub delays_from : ℕ → ℕ → List ℕ
delays_from count zero = []
delays_from count (suc n) = delay_after count ∷ delays_from (suc count) n

decide-soon :
    (outcome : ReactorOutcome) (ran_for count : ℕ)
    → IsCrash outcome
    → ran_for < backoff_reset_after
    → count < u64_max
    → decide_reactor_outcome outcome false ran_for count ≡ restart (delay_after count) (suc count)
unfolding decide_reactor_outcome
decide-soon (exited code) ran_for count h k small = ground (arith, at_most_last-backoff_steps count)
decide-soon (signaled code) ran_for count h k small =
    ground (arith, at_most_last-backoff_steps count)

-- A round whose reactor starts, crashes within a minute, and whose delay runs out.
pub record CrashesSoon (libc : WaitMacros) (r : Round) : Type 0 where
  pub outcome : ReactorOutcome
  pub starts : r.spawned ≡ true
  pub crashes : wait_for_reactor libc false none r.events ≡ ended outcome false
  pub unwell : IsCrash outcome
  pub soon : r.ran_for < backoff_reset_after
  pub waits : wait_backoff r.representable r.backoff ≡ again

run_round-soon :
    (libc : WaitMacros) (count : ℕ) (r : Round)
    → CrashesSoon libc r
    → count < u64_max
    → run_round libc count r ≡ restarted (delay_after count) (suc count)
unfolding run_round
run_round-soon libc count r h small =
    rw (h.starts, h.crashes, decide-soon h.outcome r.ran_for count h.unwell h.soon small, h.waits)

-- While the reactor keeps crashing within a minute, and the crash count stays in its type, the
-- supervisor keeps restarting it: 1, 2, 4 and 8 seconds after the first four crashes, and 30 seconds
-- after each further one. It may start after `count` crashes.
pub run-delays :
    (libc : WaitMacros) (count : ℕ) (rs : List Round)
    → All (CrashesSoon libc) rs
    → count + length rs ≤ u64_max
    → run libc count rs ≡ record { delays = delays_from count (length rs); code = none }
unfolding run
run-delays libc count [] h small = refl
run-delays libc count (r ∷ rs) h small = rw (
  run_round-soon libc count r h.0 (omega arith),
  run-delays libc (suc count) rs h.1 (omega arith),
)

abbrev IsPolite : Next → Type 0
IsPolite unfinished = Unit
IsPolite (returned code) = Unit
IsPolite (restarted delay count) = 1 ≤ delay × delay ≤ 30

abbrev IsMeasured : Decision → Type 0
IsMeasured (exit code) = Unit
IsMeasured (do_not_restart code) = Unit
IsMeasured (restart delay count) = 1 ≤ delay × delay ≤ 30

decide-IsMeasured :
    (outcome : ReactorOutcome) (stopping : Bool) (ran_for count : ℕ)
    → IsMeasured (decide_reactor_outcome outcome stopping ran_for count)
unfolding decide_reactor_outcome
decide-IsMeasured outcome true ran_for count = tt
decide-IsMeasured (exited code) false ran_for count =
    ground (arith, at_most_last-bounds count, at_most_last-bounds 0)
decide-IsMeasured (signaled code) false ran_for count =
    ground (arith, at_most_last-bounds count, at_most_last-bounds 0)

act-IsPolite : (r : Round) (d : Decision) → IsMeasured d → IsPolite (act r d)
act-IsPolite r (exit code) h = tt
act-IsPolite r (do_not_restart code) h = tt
act-IsPolite r (restart delay count) h = polite (wait_backoff r.representable r.backoff)
  where
    polite : (a : BackoffAction) → IsPolite (after_backoff delay count a)
    polite waiting = tt
    polite again = h
    polite stop = tt
    polite broken = tt

after_wait-IsPolite : (r : Round) (count : ℕ) (w : Waited) → IsPolite (after_wait r count w)
after_wait-IsPolite r count pending = tt
after_wait-IsPolite r count failed = tt
after_wait-IsPolite r count (ended outcome stopping) =
    act-IsPolite r (decide_reactor_outcome outcome stopping r.ran_for count)
      (decide-IsMeasured outcome stopping r.ran_for count)

run_round-IsPolite : (libc : WaitMacros) (count : ℕ) (r : Round) → IsPolite (run_round libc count r)
unfolding run_round
run_round-IsPolite libc count r = ground (
  arith,
  after_wait-IsPolite r count (wait_for_reactor libc false none r.events),
  act-IsPolite r (decide_reactor_outcome (exited 1) false 0 count)
      (decide-IsMeasured (exited 1) false 0 count),
)

-- Whatever the reactor does, every restart waits between 1 and 30 seconds.
pub run_bounds :
    (libc : WaitMacros) (count : ℕ) (rs : List Round)
    → All (λ delay. 1 ≤ delay × delay ≤ 30) (run libc count rs).delays
unfolding run
run_bounds libc count [] = tt
run_bounds libc count (r ∷ rs) =
    followed (run_round libc count r) (run_round-IsPolite libc count r) (λ c. run_bounds libc c rs)
  where
    followed :
        (n : Next)
        → IsPolite n
        → ((c : ℕ) → All (λ delay. 1 ≤ delay × delay ≤ 30) (run libc c rs).delays)
        → All (λ delay. 1 ≤ delay × delay ≤ 30) (follow (λ c. run libc c rs) n).delays
    followed unfinished h k = tt
    followed (returned code) h k = tt
    followed (restarted delay c) h k = (h, k c)
