-- ===== src/Supervisor/Witnesses.antt =====
-- Concrete runs of the supervisor.
use flux_rs.Base.{◌≡◌, ◌==◌, ◌%◌, ◌/◌, refl, true, not, none, some, [], ◌∷◌, arith}
use flux_rs.Supervisor.{
  signaled, WaitMacros, reaped, alive, sent, sigchld, sigterm, sighup, deadline, elapsed,
  ignored_signal, Round, run, decode_wait_status, wait_for_reactor, wait_backoff,
}
use flux_rs.Supervisor.Backoff.{run-delays, CrashesSoon}
use flux_rs.Supervisor.Stopping.{run-stop, killed}

abbrev linux : WaitMacros
linux = record {
  wifexited = λ s. s % 128 == 0;
  wexitstatus = λ s. s / 256 % 256;
  wifsignaled = λ s. not (s % 128 == 0);
  wtermsig = λ s. s % 128;
}

abbrev segfault : Round
segfault = record {
  spawned = true;
  events = sighup ∷ sigchld (reaped 11) ∷ [];
  ran_for = 1500;
  representable = true;
  backoff = ignored_signal ∷ elapsed ∷ [];
}

abbrev stubborn : Round
stubborn = record {
  spawned = true;
  events =
      sighup
      ∷ sigterm (some 11500) alive sent none
      ∷ sigchld alive
      ∷ deadline alive sent (some 9)
      ∷ [];
  ran_for = 1500;
  representable = true;
  backoff = [];
}

run-delays_example :
    run linux 3 (segfault ∷ segfault ∷ []) ≡ record { delays = 8 ∷ 30 ∷ []; code = none }
unfolding wait_for_reactor wait_backoff decode_wait_status
run-delays_example = run-delays linux 3 (segfault ∷ segfault ∷ []) (soon, (soon, tt)) (omega arith)
  where
    soon : CrashesSoon linux segfault
    soon = record {
      outcome = signaled 11;
      starts = refl;
      crashes = refl;
      unwell = tt;
      soon = omega arith;
      waits = refl;
    }

run-stop_example : run linux 2 (stubborn ∷ segfault ∷ []) ≡ record { delays = []; code = some 1 }
unfolding decode_wait_status
run-stop_example =
    run-stop linux 2 11500 9 (signaled 9) (sighup ∷ []) (sigchld alive ∷ []) [] alive sent none
      (deadline alive sent (some 9)) stubborn (segfault ∷ []) refl refl (tt, tt) (tt, tt) killed
      refl
