-- ===== src/Engine/Converging.antt =====
-- crates/fluxd/src/reactor.rs: the end of `converge`, which resumes an activation, keeps the engine, or
-- starts a transaction for the configuration that was generated.
use flux_rs.Base.{ℕ, Bool, true, false, not, ◌&&◌, ◌||◌, if◌then◌else◌, Option, none, some}
use flux_rs.Base.Text.{Text, text_eq}
use flux_rs.Runtime.Generations.{Generations, allocate}
use flux_rs.Engine.{EngineChild}
use flux_rs.Engine.Machine.{Machine, Answers, is_some, convergence_busy, cancel_backoff}
use flux_rs.Engine.Activating.{start_phase6_attachment}
use flux_rs.Engine.Handlers.{Start, start_generation_check}

abbrev pub attach_engine : Answers → Option EngineChild → Machine → Machine
attach_engine a none m = m
attach_engine a (some child) m = start_phase6_attachment a m

abbrev pub differs : Option Text → Text → Bool
differs none user = true
differs (some current) user = not (text_eq current user)

-- Responses that no generation waits for are accepted with the configuration that stays.
abbrev pub keep_engine : Answers → Option Text → Machine → Machine
keep_engine a none m = record m { pending = none }
keep_engine a (some user) m = accept a m.pending m
  where
    accept : Answers → Option (Option ℕ) → Machine → Machine
    accept a (some none) m = record m {
      pending = none;
      last_error = if a.cached && a.in_order then none else m.last_error;
    }
    accept a pending m = record m { last_error = if a.in_order then none else m.last_error }

-- `none` is the panic of a counter that overflows.
abbrev pub start_transaction :
    Answers → Start → Text → Machine → Option (Generations × ℕ) → Option Machine
start_transaction a s user m none = none
start_transaction a s user m (some (g, generation)) =
    some
      (start_generation_check a s user generation (cancel_backoff (record m { generations = g })))

abbrev pub replace_engine : Answers → Start → Option Text → Machine → Option Machine
replace_engine a s none m =
    some (if is_some m.engine then attach_engine a m.engine (keep_engine a none m) else m)
replace_engine a s (some user) m =
    if not (is_some m.engine) || differs m.current_engine_user user
    then start_transaction a s user m (allocate m.generations)
    else some (attach_engine a m.engine (keep_engine a (some user) m))

-- `requeued`: the policy is to be tried again.
unfoldable pub converge_engine : Answers → Start → Bool → Option Text → Machine → Option Machine
converge_engine a s requeued user m =
    if is_some m.activation_role
    then some (attach_engine a m.engine m)
    else if convergence_busy m
    then some m
    else replace_engine a s user (record m { changes_queued = requeued; convergence_due = false })

-- What the end of a handler comes to: the convergence that the handler calls last, where it calls one.
-- Nothing of the handler follows it but the answers to the connections.
abbrev pub converge_last : Answers → Start → Bool → Option Text → Machine → Option Machine
converge_last a s requeued user m =
    let converged = converge_engine a s requeued user (record m { convergence_due = false }) in
    if m.convergence_due then converged else some m
