-- ===== src/Engine/Supervised/Convergence.antt =====
-- crates/fluxd/src/reactor.rs: a convergence keeps the engine supervised.
use flux_rs.Base.{
  ℕ, Bool, true, false, not, ◌||◌, if◌then◌else◌, Option, none, some, ◌∷◌, ◌≡◌, refl, arith,
}
use flux_rs.Base.Text.{Text}
use flux_rs.Runtime.Generations.{Generations, allocate}
use flux_rs.Engine.{EngineChild, EngineError, SwitchPlan}
use flux_rs.Engine.Machine.{Machine, Answers, is_some, convergence_busy, remove_file}
use flux_rs.Engine.Handlers.{
  Start, begin_check, spawn_check, write_effective, prepare_check, start_generation_check,
}
use flux_rs.Engine.Converging.{
  attach_engine, keep_engine, start_transaction, replace_engine, differs, converge_engine,
}
use flux_rs.Engine.Supervised.{IsSupervised, IsIdle, IsResting, choose-IsSupervised}
use flux_rs.Engine.Supervised.Ends.{finish_transaction_error-IsSupervised}
use flux_rs.Engine.Supervised.Activation.{
  start_phase6_attachment-IsSupervised, IsResting-IsSupervised,
}

begin_check-IsSupervised :
    (a : Answers) (s : Start) (plan : SwitchPlan) (m : Machine)
    → IsIdle m
    → IsSupervised (begin_check a s plan m)
begin_check-IsSupervised a s plan m h =
    choose-IsSupervised s.watched _ _ (λ _. ground arith) (λ _. ground arith)

spawn_check-IsSupervised :
    (a : Answers) (s : Start) (plan : SwitchPlan) (e : Option EngineError) (m : Machine)
    → IsIdle m
    → IsSupervised (spawn_check a s plan e m)
spawn_check-IsSupervised a s plan (some e) m h =
    finish_transaction_error-IsSupervised e none (remove_file plan.candidate m) (ground arith)
spawn_check-IsSupervised a s plan none m h = begin_check-IsSupervised a s plan m h

write_effective-IsSupervised :
    (a : Answers) (s : Start) (plan : SwitchPlan) (e : Option EngineError) (m : Machine)
    → IsIdle m
    → IsSupervised (write_effective a s plan e m)
write_effective-IsSupervised a s plan (some e) m h =
    finish_transaction_error-IsSupervised e none m h
write_effective-IsSupervised a s plan none m h =
    spawn_check-IsSupervised a s plan s.unspawned (record m { files = plan.candidate ∷ m.files })
      (ground arith)

prepare_check-IsSupervised :
    (a : Answers) (s : Start) (plan : SwitchPlan) (e : Option EngineError) (m : Machine)
    → IsIdle m
    → IsSupervised (prepare_check a s plan e m)
prepare_check-IsSupervised a s plan (some e) m h = finish_transaction_error-IsSupervised e none m h
prepare_check-IsSupervised a s plan none m h = write_effective-IsSupervised a s plan s.unwritten m h

start_generation_check-IsSupervised :
    (a : Answers) (s : Start) (user : Text) (generation : ℕ) (m : Machine)
    → IsIdle m
    → IsSupervised (start_generation_check a s user generation m)
unfolding start_generation_check
start_generation_check-IsSupervised a s user generation m h =
    prepare_check-IsSupervised a s _ s.unprepared _
      (record { counted = h.counted; unassigned = h.unassigned; quiet = h.quiet })

-- Where the daemon has not panicked.
abbrev pub AllSome : (Machine → Type 0) → Option Machine → Type 0
AllSome P none = Unit {0}
AllSome P (some m) = P m

resting : (m : Machine) → IsSupervised m → is_some m.activation_role ≡ true → IsResting m
resting m h r = ground arith

idle :
    (m : Machine) → IsSupervised m → convergence_busy m ≡ false → IsIdle m × (m.transaction ≡ none)
idle m h b = (ground arith, ground arith)

attach_engine-IsSupervised :
    (a : Answers) (child : Option EngineChild) (m : Machine)
    → IsResting m
    → IsSupervised (attach_engine a child m)
attach_engine-IsSupervised a none m h = IsResting-IsSupervised m h
attach_engine-IsSupervised a (some child) m h = start_phase6_attachment-IsSupervised a m h

kept-IsResting :
    (a : Answers) (user : Option Text) (pending : Option (Option ℕ)) (m : Machine)
    → m.pending ≡ pending
    → IsIdle m
    → m.transaction ≡ none
    → IsResting (keep_engine a user m)
kept-IsResting a none pending m e h t = ground arith
kept-IsResting a (some user) none m e h t = rw (e, keep_engine) (ground arith)
kept-IsResting a (some user) (some none) m e h t = rw (e, keep_engine) (ground arith)
kept-IsResting a (some user) (some (some g)) m e h t = rw (e, keep_engine) (ground arith)

start_transaction-IsSupervised :
    (a : Answers) (s : Start) (user : Text) (m : Machine) (o : Option (Generations × ℕ))
    → IsIdle m
    → AllSome IsSupervised (start_transaction a s user m o)
start_transaction-IsSupervised a s user m none h = tt
start_transaction-IsSupervised a s user m (some (g, generation)) h =
    start_generation_check-IsSupervised a s user generation _
      (record { counted = h.counted; unassigned = h.unassigned; quiet = h.quiet })

choose-AllSome :
    (b : Bool) (x y : Option Machine)
    → (b ≡ true → AllSome IsSupervised x)
    → (b ≡ false → AllSome IsSupervised y)
    → AllSome IsSupervised (if b then x else y)
choose-AllSome true x y hx hy = hx refl
choose-AllSome false x y hx hy = hy refl

replace_engine-IsSupervised :
    (a : Answers) (s : Start) (user : Option Text) (m : Machine)
    → IsIdle m
    → m.transaction ≡ none
    → AllSome IsSupervised (replace_engine a s user m)
replace_engine-IsSupervised a s none m h t =
    choose-IsSupervised (is_some m.engine) _ m
      (λ _.
        attach_engine-IsSupervised a m.engine (keep_engine a none m)
          (kept-IsResting a none m.pending m refl h t))
      (λ _. IsResting-IsSupervised m (ground arith))
replace_engine-IsSupervised a s (some user) m h t =
    choose-AllSome (not (is_some m.engine) || differs m.current_engine_user user) _ _
      (λ _. start_transaction-IsSupervised a s user m (allocate m.generations) h)
      (λ _.
        attach_engine-IsSupervised a m.engine (keep_engine a (some user) m)
          (kept-IsResting a (some user) m.pending m refl h t))

-- The convergence's end, on every path.
pub converge_engine-IsSupervised :
    (a : Answers) (s : Start) (requeued : Bool) (user : Option Text) (m : Machine)
    → IsSupervised m
    → AllSome IsSupervised (converge_engine a s requeued user m)
unfolding converge_engine
converge_engine-IsSupervised a s requeued user m h =
    choose-AllSome (is_some m.activation_role) _ _
      (λ r. attach_engine-IsSupervised a m.engine m (resting m h r))
      (λ _.
        choose-AllSome (convergence_busy m) _ _ (λ _. h)
          (λ b.
            replace_engine-IsSupervised a s user
              (record m { changes_queued = requeued; convergence_due = false })
              (ground (arith, (idle m h b).0)) (idle m h b).1))
