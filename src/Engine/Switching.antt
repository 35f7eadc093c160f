-- ===== src/Engine/Switching.antt =====
-- crates/fluxd/src/reactor.rs: when a running engine gives way to a candidate.
use flux_rs.Base.{
  Bool, true, false, not, ◌||◌, if◌then◌else◌, Option, none, some, ◌≡◌, ◌↔◌, refl, arith,
}
use flux_rs.Engine.{EngineChild, EngineError, io, SwitchPlan, CheckDisposition}
use flux_rs.Engine.Machine.{Machine, Answers, is_some, remove_file}
use flux_rs.Engine.Stopping.{begin_stop, finish_cancelled, finish_transaction_error}
use flux_rs.Engine.Handlers.{switch, complete_check}

-- What a check's end makes of a running engine.
pub record Keeps (stops : Type 0) (m m' : Machine) : Type 0 where
  pub gives_way : (m'.engine ≡ none) ↔ stops
  pub frozen : (is_some m'.engine || not m'.active) ≡ true
  pub running : m'.processes ≡ m.processes
  pub uncommitted : m'.generations ≡ m.generations

failed-Keeps :
    (e : EngineError) (child : EngineChild) (m : Machine)
    → m.engine ≡ some child
    → ((finish_transaction_error e none m).engine ≡ some child)
      × ((finish_transaction_error e none m).processes ≡ m.processes)
      × ((finish_transaction_error e none m).generations ≡ m.generations)
unfolding finish_transaction_error
failed-Keeps e child m h = (ground arith, ground arith, ground arith)

switch-Keeps :
    (a : Answers) (plan : SwitchPlan) (child : EngineChild) (frozen : Bool) (m : Machine)
    → m.engine ≡ some child
    → a.frozen ≡ frozen
    → Keeps (frozen ≡ true) m (switch a plan (some child) m)
unfolding begin_stop
switch-Keeps a plan child true m h f =
    rw (f, switch)
      (record {
        gives_way = (λ _. refl, λ _. refl);
        frozen = refl;
        running = refl;
        uncommitted = refl;
      })
switch-Keeps a plan child false m h f =
    let (same, running, uncommitted) = failed-Keeps io child (remove_file plan.candidate m) h in
    rw (f, switch)
      (record {
        gives_way = (λ n. cc, λ p. cc);
        frozen = ground arith;
        running = running;
        uncommitted = uncommitted;
      })

-- The end of a check that was neither cancelled nor cut off, while an engine runs: the engine gives way
-- exactly when the candidate passed and the capture could be frozen; then the capture is inactive. In no
-- case is a process started or reaped, or a generation committed, by it.
pub complete_check-Keeps :
    (a : Answers) (plan : SwitchPlan) (child : EngineChild) (result : Option EngineError)
    (m : Machine)
    → m.engine ≡ some child
    → m.engine_cancel_requested ≡ false
    → Keeps
        ((result ≡ none) × (a.frozen ≡ true))
        m
        (complete_check a plan CheckDisposition.normal result m)
unfolding complete_check begin_stop
complete_check-Keeps a plan child (some e) m h c =
    let (same, running, uncommitted) =
      failed-Keeps e child (remove_file plan.candidate (record m { engine_timer = none })) h in
    record {
      gives_way = (λ n. cc, λ p. cc);
      frozen = ground arith;
      running = running;
      uncommitted = uncommitted;
    }
complete_check-Keeps a plan child none m h c = by_engine m.engine_cancel_requested m.engine refl h c
  where
    by_engine :
        (cancelled : Bool) (engine : Option EngineChild)
        → m.engine ≡ engine
        → engine ≡ some child
        → cancelled ≡ false
        → Keeps (◌≡◌ {A = Option EngineError} none none × (a.frozen ≡ true)) m (
            if cancelled
            then finish_cancelled a (remove_file plan.candidate (record m { engine_timer = none }))
            else switch a plan engine (record m { engine_timer = none }))
    by_engine true engine same e c = cc
    by_engine false none same e c = cc
    by_engine false (some c') same e c =
        let kept = switch-Keeps a plan c' a.frozen (record m { engine_timer = none }) same refl in
        record {
          gives_way = (λ n. (refl, kept.gives_way.0 n), λ p. kept.gives_way.1 p.1);
          frozen = kept.frozen;
          running = kept.running;
          uncommitted = kept.uncommitted;
        }
