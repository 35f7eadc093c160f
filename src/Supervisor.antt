-- ===== src/Supervisor.antt =====
-- crates/fluxd/src/supervisor.rs: the process supervisor, over scripts of what the system calls
-- return. Times are in milliseconds; `none` is an `io::Error`.
pub mod Backoff
pub mod Stopping
mod Witnesses
use flux_rs.Base.{
  ℕ, zero, suc, ◌+◌, ◌*◌, ◌%◌, ◌≤◌, Bool, true, false, not, ◌==◌, leb, saturating_add, u64_max,
  if◌then◌else◌, Option, none, some, List, [], ◌∷◌,
}

abbrev pub lock_held_exit_code : ℕ
lock_held_exit_code = 3

abbrev pub backoff_steps : List ℕ
backoff_steps = 1 ∷ 2 ∷ 4 ∷ 8 ∷ 30 ∷ []

abbrev pub backoff_reset_after : ℕ
backoff_reset_after = 60 * 1000

-- `steps[i.min(steps.len() - 1)]`, on the empty list `0` (an index panic).
abbrev pub at_most_last : List ℕ → ℕ → ℕ
at_most_last [] i = 0
at_most_last (s ∷ []) i = s
at_most_last (s ∷ t ∷ ss) zero = s
at_most_last (s ∷ t ∷ ss) (suc i) = at_most_last (t ∷ ss) i

pub data ReactorOutcome : Type 0 where
  exited signaled : ℕ → ReactorOutcome

abbrev pub conservative_exit_code : ReactorOutcome → ℕ
conservative_exit_code (exited code) = code
conservative_exit_code (signaled signal) = 1

pub data Decision : Type 0 where
  exit do_not_restart : ℕ → Decision
  restart : ℕ → ℕ → Decision

-- The delay, and the next crash count, a 64-bit `usize`.
abbrev pub back_off : ℕ → ℕ → Decision
back_off ran_for crash_count =
    let crash_count = if leb backoff_reset_after ran_for then 0 else crash_count in
    restart (at_most_last backoff_steps crash_count) (saturating_add u64_max crash_count 1)

unfoldable pub decide_reactor_outcome : ReactorOutcome → Bool → ℕ → ℕ → Decision
decide_reactor_outcome outcome true ran_for crash_count =
    do_not_restart (conservative_exit_code outcome)
decide_reactor_outcome (exited code) false ran_for crash_count =
    if code == 0
    then exit 0
    else if code == lock_held_exit_code
    then do_not_restart lock_held_exit_code
    else back_off ran_for crash_count
decide_reactor_outcome (signaled signal) false ran_for crash_count = back_off ran_for crash_count

-- The macros of libc on a wait status.
pub record WaitMacros : Type 0 where
  pub wifexited : ℕ → Bool
  pub wexitstatus : ℕ → ℕ
  pub wifsignaled : ℕ → Bool
  pub wtermsig : ℕ → ℕ

unfoldable pub decode_wait_status : WaitMacros → ℕ → Option ReactorOutcome
decode_wait_status libc status =
    if libc.wifexited status
    then some (exited (libc.wexitstatus status % 256))
    else if libc.wifsignaled status
    then some (signaled (libc.wtermsig status))
    else none

-- What `waitpid` without blocking returns: the child runs, its status, or an error.
pub data Reap : Type 0 where
  alive unreapable : Reap
  reaped : ℕ → Reap

-- What `kill` returns; `gone` is ESRCH.
pub data Kill : Type 0 where
  sent gone refused : Kill

-- One return of `wait_signal` or `wait_signal_until`, with the system calls its handler makes: the
-- reap of a SIGCHLD, whether the stop deadline is representable, and at a deadline the reap, the
-- SIGKILL and the blocking reap of `force_stop`.
pub data Event : Type 0 where
  sigchld : Reap → Event
  sigterm : Option ℕ → Reap → Kill → Option ℕ → Event
  sighup unexpected wait_failed : Event
  deadline : Reap → Kill → Option ℕ → Event

unfoldable pub force_stop : WaitMacros → Reap → Kill → Option ℕ → Option ReactorOutcome
unfolding decode_wait_status
force_stop libc (reaped status) kill last = decode_wait_status libc status
force_stop libc unreapable kill last = none
force_stop libc alive refused last = none
force_stop libc alive sent (some status) = decode_wait_status libc status
force_stop libc alive gone (some status) = decode_wait_status libc status
force_stop libc alive sent none = none
force_stop libc alive gone none = none

-- `pending` is the loop still waiting at the end of the script.
pub data Waited : Type 0 where
  pending failed : Waited
  ended : ReactorOutcome → Bool → Waited

abbrev pub ended_with : Option ReactorOutcome → Bool → Waited
ended_with none stopping = failed
ended_with (some outcome) stopping = ended outcome stopping

-- The loop of `wait_for_reactor`: its `stopping`, and its `stop_deadline`.
unfoldable pub wait_for_reactor : WaitMacros → Bool → Option ℕ → List Event → Waited
unfolding force_stop decode_wait_status
wait_for_reactor libc stopping stop_deadline [] = pending
wait_for_reactor libc stopping stop_deadline (sigchld (reaped status) ∷ es) =
    ended_with (decode_wait_status libc status) stopping
wait_for_reactor libc stopping stop_deadline (sigchld alive ∷ es) =
    wait_for_reactor libc stopping stop_deadline es
wait_for_reactor libc stopping stop_deadline (sigchld unreapable ∷ es) = failed
wait_for_reactor libc true stop_deadline (sigterm until reap kill last ∷ es) =
    wait_for_reactor libc true stop_deadline es
wait_for_reactor libc false stop_deadline (sigterm none reap kill last ∷ es) =
    ended_with (force_stop libc reap kill last) true
wait_for_reactor libc false stop_deadline (sigterm (some until) reap kill last ∷ es) =
    wait_for_reactor libc true (some until) es
wait_for_reactor libc stopping stop_deadline (sighup ∷ es) =
    wait_for_reactor libc stopping stop_deadline es
wait_for_reactor libc stopping stop_deadline (unexpected ∷ es) =
    wait_for_reactor libc stopping stop_deadline es
wait_for_reactor libc stopping stop_deadline (wait_failed ∷ es) = failed
wait_for_reactor libc stopping none (deadline reap kill last ∷ es) =
    wait_for_reactor libc stopping none es
wait_for_reactor libc stopping (some until) (deadline reap kill last ∷ es) =
    ended_with (force_stop libc reap kill last) true

-- A return of `wait_signal_until` during the backoff.
pub data BackoffEvent : Type 0 where
  elapsed stop_signal ignored_signal backoff_failed : BackoffEvent

pub data BackoffAction : Type 0 where
  waiting again stop broken : BackoffAction

unfoldable pub wait_backoff : Bool → List BackoffEvent → BackoffAction
wait_backoff false es = broken
wait_backoff true [] = waiting
wait_backoff true (elapsed ∷ es) = again
wait_backoff true (stop_signal ∷ es) = stop
wait_backoff true (ignored_signal ∷ es) = wait_backoff true es
wait_backoff true (backoff_failed ∷ es) = broken

-- One round of the loop of `run`: whether the spawn succeeds, what the wait returns, the uptime, and
-- the backoff with whether its deadline is representable.
pub record Round : Type 0 where
  pub spawned : Bool
  pub events : List Event
  pub ran_for : ℕ
  pub representable : Bool
  pub backoff : List BackoffEvent

-- `unfinished` is the script's end inside the round.
pub data Next : Type 0 where
  unfinished : Next
  returned : ℕ → Next
  restarted : ℕ → ℕ → Next

abbrev pub after_backoff : ℕ → ℕ → BackoffAction → Next
after_backoff after next_crash_count waiting = unfinished
after_backoff after next_crash_count again = restarted after next_crash_count
after_backoff after next_crash_count stop = returned 0
after_backoff after next_crash_count broken = returned 1

abbrev pub act : Round → Decision → Next
act r (exit code) = returned code
act r (do_not_restart code) = returned code
act r (restart after next_crash_count) =
    after_backoff after next_crash_count (wait_backoff r.representable r.backoff)

abbrev pub after_wait : Round → ℕ → Waited → Next
after_wait r crash_count pending = unfinished
after_wait r crash_count failed = returned 1
after_wait r crash_count (ended outcome stopping) =
    act r (decide_reactor_outcome outcome stopping r.ran_for crash_count)

unfoldable pub run_round : WaitMacros → ℕ → Round → Next
run_round libc crash_count r =
    if r.spawned
    then after_wait r crash_count (wait_for_reactor libc false none r.events)
    else act r (decide_reactor_outcome (exited 1) false 0 crash_count)

-- The delays of the restarts so far, and the exit code once `run` returned.
pub record Trace : Type 0 where
  pub delays : List ℕ
  pub code : Option ℕ

abbrev pub prepend : ℕ → Trace → Trace
prepend delay t = record { delays = delay ∷ t.delays; code = t.code }

abbrev follow : (ℕ → Trace) → Next → Trace
follow run_on unfinished = record { delays = []; code = none }
follow run_on (returned code) = record { delays = []; code = some code }
follow run_on (restarted delay next_crash_count) = prepend delay (run_on next_crash_count)

unfoldable pub run : WaitMacros → ℕ → List Round → Trace
run libc crash_count [] = record { delays = []; code = none }
run libc crash_count (r ∷ rs) = follow (λ count. run libc count rs) (run_round libc crash_count r)
