-- ===== src/Runtime/Halted.antt =====
-- crates/flux-core/src/runtime.rs: a planner that was switched off stays off until it is enabled again.
use flux_rs.Base.{
  ℕ, false, ◌≡◌, ◌≢◌, ◌⊎◌, List, [], ◌∷◌, All, All-append, arith, u64_max, saturating_add,
}
use flux_rs.Runtime.{Phase, Stimulus, CommandKind}
use flux_rs.Runtime.Phase.{disabled, stopping}
use flux_rs.Runtime.Stimulus.{enable, disable, stop, sigterm, status}
use flux_rs.Runtime.Table.{step}
use flux_rs.Runtime.Plan.{Command, Model, assign_ids, plan, run, needs_converge}

abbrev pub IsHalted : Phase → Type 0
IsHalted p = (p ≡ disabled) ⊎ (p ≡ stopping)

abbrev pub SwitchesOff : Stimulus → Type 0
SwitchesOff s = (s ≡ disable) ⊎ (s ≡ stop) ⊎ (s ≡ sigterm)

abbrev pub IsQuiet : CommandKind → Type 0
IsQuiet k = needs_converge k ≡ false

step-IsHalted :
    (p : Phase) (s : Stimulus)
    → IsHalted p
    → s ≢ enable
    → IsHalted (step p s).phase × All IsQuiet (step p s).commands
unfolding step needs_converge
step-IsHalted p status h ne = ground arith
step-IsHalted p s h ne = ground arith

step-SwitchesOff :
    (p : Phase) (s : Stimulus)
    → SwitchesOff s
    → IsHalted (step p s).phase × All IsQuiet (step p s).commands
unfolding step needs_converge
step-SwitchesOff p status h = ground arith
step-SwitchesOff p s h = ground arith

abbrev pub QuietCommands : List Command → Type 0
QuietCommands = All (λ c. IsQuiet c.kind)

assign_ids-QuietCommands :
    (next : ℕ) (ks : List CommandKind) → All IsQuiet ks → QuietCommands (assign_ids next ks).1
unfolding assign_ids
assign_ids-QuietCommands next [] h = tt
assign_ids-QuietCommands next (k ∷ ks) h =
    (h.0, assign_ids-QuietCommands (saturating_add u64_max next 1) ks h.1)

plan-quiet :
    (m : Model) (s : Stimulus)
    → IsHalted (step m.phase s).phase × All IsQuiet (step m.phase s).commands
    → IsHalted (plan m s).0.phase × QuietCommands (plan m s).1
unfolding plan
plan-quiet m s h = (h.0, assign_ids-QuietCommands m.next_id _ h.1)

run-quiet :
    (m : Model) (ss : List Stimulus)
    → IsHalted m.phase
    → All (λ s. s ≢ enable) ss
    → IsHalted (run m ss).0.phase × QuietCommands (run m ss).1
unfolding run
run-quiet m [] h off = (h, tt)
run-quiet m (s ∷ ss) h off =
    let (m', now) = plan m s in
    let (halted, quiet) = plan-quiet m s (step-IsHalted m.phase s h off.0) in
    let (last, later) = run-quiet m' ss halted off.1 in
    (last, All-append (λ c. IsQuiet c.kind) now (run m' ss).1 quiet later)

-- From any phase, after a disable, stop or SIGTERM and until the next enable, the planner by
-- itself is disabled or stopping, and none of the commands planned by then runs the convergence executor.
pub switched_off-quiet :
    (m : Model) (s : Stimulus) (ss : List Stimulus)
    → SwitchesOff s
    → All (λ t. t ≢ enable) ss
    → IsHalted (run m (s ∷ ss)).0.phase × QuietCommands (run m (s ∷ ss)).1
unfolding run
switched_off-quiet m s ss off rest =
    let (m', now) = plan m s in
    let (halted, quiet) = plan-quiet m s (step-SwitchesOff m.phase s off) in
    let (last, later) = run-quiet m' ss halted rest in
    (last, All-append (λ c. IsQuiet c.kind) now (run m' ss).1 quiet later)
