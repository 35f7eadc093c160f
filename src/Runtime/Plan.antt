-- ===== src/Runtime/Plan.antt =====
-- crates/flux-core/src/runtime.rs: `Model`, `plan` and the predicates on commands, and the
-- planner by itself over a sequence of stimuli.
use flux_rs.Base.{ℕ, Bool, true, false, ◌||◌, List, [], ◌∷◌, ◌++◌, u64_max, saturating_add}
use flux_rs.Runtime.{Phase, Stimulus, CommandKind}
use flux_rs.Runtime.CommandKind.{
  attempt_activation, publish_inactive, policy_transaction, engine_candidate_switch,
  reevaluate_admission, admit_and_attach, exclude_interface, update_self_addresses,
  reattach_capture_locally, full_redump, regenerate_then_switch, reparse_then_policy,
  run_pending_convergence, retry_activation,
}
use flux_rs.Runtime.Table.{step}

pub record Command : Type 0 where
  pub id : ℕ
  pub kind : CommandKind

pub record Model : Type 0 where
  pub phase : Phase
  pub next_id : ℕ

abbrev pub new : Phase → Model
new p = record { phase = p; next_id = 1 }

-- The closure of `plan` over the commands: each takes `next_id`, which then grows, saturating.
unfoldable pub assign_ids : ℕ → List CommandKind → ℕ × List Command
assign_ids next [] = (next, [])
assign_ids next (k ∷ ks) =
    let (next', cs) = assign_ids (saturating_add u64_max next 1) ks in
    (next', record { id = next; kind = k } ∷ cs)

unfoldable pub plan : Model → Stimulus → Model × List Command
unfolding assign_ids
plan model stimulus =
    let stepped = step model.phase stimulus in
    let (next, commands) = assign_ids model.next_id stepped.commands in
    (record { phase = stepped.phase; next_id = next }, commands)

-- The planner by itself: each phase is the one that it planned, and every command is collected. The
-- reactor overwrites the phase with the observed one after it has executed a step's commands.
unfoldable pub run : Model → List Stimulus → Model × List Command
unfolding plan
run model [] = (model, [])
run model (s ∷ ss) =
    let (model', commands) = plan model s in
    let (last, more) = run model' ss in (last, commands ++ more)

abbrev pub is_publish_inactive : CommandKind → Bool
is_publish_inactive publish_inactive = true
is_publish_inactive k = false

abbrev pub freezes_capture : List CommandKind → Bool
freezes_capture [] = false
freezes_capture (k ∷ ks) = is_publish_inactive k || freezes_capture ks

unfoldable pub needs_converge : CommandKind → Bool
needs_converge attempt_activation = true
needs_converge policy_transaction = true
needs_converge engine_candidate_switch = true
needs_converge reevaluate_admission = true
needs_converge admit_and_attach = true
needs_converge exclude_interface = true
needs_converge update_self_addresses = true
needs_converge reattach_capture_locally = true
needs_converge full_redump = true
needs_converge regenerate_then_switch = true
needs_converge reparse_then_policy = true
needs_converge run_pending_convergence = true
needs_converge retry_activation = true
needs_converge k = false
