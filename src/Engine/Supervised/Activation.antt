-- ===== src/Engine/Supervised/Activation.antt =====
-- crates/fluxd/src/reactor.rs: the activation keeps the engine supervised.
use flux_rs.Base.{
  Bool, true, false, not, ◌&&◌, ◌||◌, if◌then◌else◌, Option, none, some, ◌≡◌, refl, sym, arith,
}
use flux_rs.Runtime.Generations.{commit}
use flux_rs.Engine.{
  EngineChild, EngineError, io, WaitRole, candidate, recovery, StopNext, recover, OldGeneration,
}
use flux_rs.Engine.Machine.{
  Machine, Answers, AttachmentAnswer, waits, complete, broken, is_some, bound_to,
  record_dataplane_error, run_queued_convergence, resume_queued_subscription_work, convergence_busy,
}
use flux_rs.Engine.Stopping.{remove_old}
use flux_rs.Engine.Activating.{
  next_of, stop_or_finish, fail_role, fail_phase6_activation, committed_role, commit_child,
  publish_active, with_pending, finish_phase6_activation, attached, start_phase6_attachment,
  promote_ready_child, verified, handle_tc_verify,
}
use flux_rs.Engine.Supervised.{
  IsSupervised, Holds, IsResting, engine_pids, choose-IsSupervised, carry-IsSupervised,
}
use flux_rs.Engine.Supervised.Ends.{begin_stop-IsSupervised, finish_transaction_error-IsSupervised}

pub IsResting-IsSupervised : (m : Machine) → IsResting m → IsSupervised m
IsResting-IsSupervised m h = ground arith

stop_or_finish-IsSupervised :
    (a : Answers) (next : StopNext) (e : EngineError) (child : Option EngineChild) (m : Machine)
    → child ≡ m.engine
    → m.processes ≡ engine_pids child
    → m.activation_role ≡ none
    → m.diag_probe ≡ false
    → IsSupervised (stop_or_finish a next e child m)
stop_or_finish-IsSupervised a next e none m same h n q =
    finish_transaction_error-IsSupervised e none m (ground arith)
stop_or_finish-IsSupervised a next e (some child) m same h n q =
    begin_stop-IsSupervised a child next (record m { engine = none }) (ground arith)

fail_role-IsSupervised :
    (a : Answers) (role : Option WaitRole) (m : Machine)
    → IsResting m
    → IsSupervised (fail_role a role m)
fail_role-IsSupervised a none m h =
    choose-IsSupervised a.frozen _ _ (λ _. IsResting-IsSupervised _ (ground arith))
      (λ _. IsResting-IsSupervised m h)
fail_role-IsSupervised a (some role) m h =
    stop_or_finish-IsSupervised a (next_of role io) io m.engine
      (record m { activation_role = none }) refl h.counted refl h.quiet

pub fail_phase6_activation-IsSupervised :
    (a : Answers) (m : Machine) → IsResting m → IsSupervised (fail_phase6_activation a m)
unfolding fail_phase6_activation
fail_phase6_activation-IsSupervised a m h =
    fail_role-IsSupervised a m.activation_role (record_dataplane_error m) (ground arith)

remove_old-IsResting :
    (old : Option OldGeneration) (m : Machine) → IsResting m → IsResting (remove_old old m)
remove_old-IsResting none m h = h
remove_old-IsResting (some old) m h = ground arith

committed_role-IsResting :
    (role : Option WaitRole) (m : Machine) → IsResting m → IsResting (committed_role role m)
committed_role-IsResting none m h = h
committed_role-IsResting (some (candidate plan)) m h =
    remove_old-IsResting plan.old
      (record m { current_engine_user = some plan.user; last_error = none }) (ground arith)
committed_role-IsResting (some (recovery e)) m h = ground arith

queued-IsSupervised :
    (m : Machine)
    → IsResting m
    → IsSupervised (run_queued_convergence (resume_queued_subscription_work m))
queued-IsSupervised m h = ground arith

commit_child-IsSupervised :
    (a : Answers) (child : Option EngineChild) (m : Machine)
    → IsResting m
    → IsSupervised (commit_child a child m)
commit_child-IsSupervised a none m h = fail_phase6_activation-IsSupervised a m h
commit_child-IsSupervised a (some child) m h =
    let m' = record m {
      generations = commit m.generations child.params.generation;
      activation_role = none;
    } in
    let rested = committed_role-IsResting m.activation_role m' (ground arith) in
    queued-IsSupervised
      (record (committed_role m.activation_role m') { engine_cancel_requested = false })
      (ground (arith, rested))

publish_active-IsSupervised :
    (a : Answers) (m : Machine) → IsResting m → IsSupervised (publish_active a m)
publish_active-IsSupervised a m h =
    choose-IsSupervised a.published _ _
      (λ _. commit_child-IsSupervised a m.engine (record m { active = true }) (ground arith))
      (λ _. fail_phase6_activation-IsSupervised a m h)

with_pending-IsSupervised :
    (a : Answers) (role : Option WaitRole) (m : Machine)
    → IsResting m
    → IsSupervised (with_pending a role m)
with_pending-IsSupervised a none m h = publish_active-IsSupervised a m h
with_pending-IsSupervised a (some (recovery e)) m h = publish_active-IsSupervised a m h
with_pending-IsSupervised a (some (candidate plan)) m h =
    let taken = record m {
      pending = if bound_to plan.generation m.pending then none else m.pending;
    } in
    choose-IsSupervised (bound_to plan.generation m.pending && not a.cached) _ _
      (λ _.
        stop_or_finish-IsSupervised a (recover plan io) io m.engine
          (record taken { activation_role = none }) refl h.counted refl h.quiet)
      (λ _.
        publish_active-IsSupervised a taken (record {
          counted = h.counted;
          untouched = h.untouched;
          quiet = h.quiet;
          owned = h.owned;
        }))

pub finish_phase6_activation-IsSupervised :
    (a : Answers) (m : Machine) → IsResting m → IsSupervised (finish_phase6_activation a m)
unfolding finish_phase6_activation
finish_phase6_activation-IsSupervised a m h = with_pending-IsSupervised a m.activation_role m h

attached-IsSupervised :
    (a : Answers) (activating : Bool) (answer : AttachmentAnswer) (m : Machine)
    → IsResting m
    → IsSupervised (attached a activating answer m)
attached-IsSupervised a activating waits m h = IsResting-IsSupervised m h
attached-IsSupervised a activating complete m h =
    choose-IsSupervised (a.interface_ready && (activating || not m.active)) _ _
      (λ _. finish_phase6_activation-IsSupervised a m h) (λ _. IsResting-IsSupervised m h)
attached-IsSupervised a activating broken m h =
    choose-IsSupervised (activating || not m.active) _ _
      (λ _. fail_phase6_activation-IsSupervised a m h)
      (λ _. IsResting-IsSupervised (record_dataplane_error m) (ground arith))

pub start_phase6_attachment-IsSupervised :
    (a : Answers) (m : Machine) → IsResting m → IsSupervised (start_phase6_attachment a m)
unfolding start_phase6_attachment
start_phase6_attachment-IsSupervised a m h =
    choose-IsSupervised (is_some m.activation_role || not m.active) _ _
      (λ _.
        choose-IsSupervised a.prepared _ _
          (λ _.
            attached-IsSupervised a true a.attachment (record m { active = false }) (ground arith))
          (λ _. fail_phase6_activation-IsSupervised a m h))
      (λ _. attached-IsSupervised a false a.attachment m h)

pub promote_ready_child-IsSupervised :
    (a : Answers) (child : EngineChild) (role : WaitRole) (m : Machine)
    → Holds child.pid m
    → m.transaction ≡ none
    → IsSupervised (promote_ready_child a child role m)
unfolding promote_ready_child
promote_ready_child-IsSupervised a child role m h t =
    choose-IsSupervised a.retagged _ _
      (λ _.
        start_phase6_attachment-IsSupervised a
          (record m {
            diag_probe = false;
            engine_timer = none;
            engine = some child;
            activation_role = some role;
            engine_cancel_requested = false;
          })
          (ground arith))
      (λ _.
        begin_stop-IsSupervised a child (next_of role io) (record m { diag_probe = false })
          (ground arith))

-- Whatever transaction stands, an activation leaves it where the engine has no role to play in it.
resting :
    {role : WaitRole} (m : Machine) → IsSupervised m → m.activation_role ≡ some role → IsResting m
resting m h r = ground arith

keep_queued : (m : Machine) → IsSupervised m → IsSupervised (run_queued_convergence m)
keep_queued m h =
    choose-IsSupervised _ _ _ (λ _. carry-IsSupervised m _ refl refl refl refl refl refl h) (λ _. h)

keep_resumed : (m : Machine) → IsSupervised m → IsSupervised (resume_queued_subscription_work m)
keep_resumed m h =
    choose-IsSupervised (convergence_busy m) _ _ (λ _. h)
      (λ _.
        choose-IsSupervised m.reconfigure_queued _ _
          (λ _. carry-IsSupervised m _ refl refl refl refl refl refl h)
          (λ _. carry-IsSupervised m _ refl refl refl refl refl refl h))

keep_inactive :
    (a : Answers) (m : Machine)
    → m.activation_role ≡ none
    → IsSupervised m
    → IsSupervised (fail_phase6_activation a m)
unfolding fail_phase6_activation
keep_inactive a m r h =
    rw (r, fail_role)
      (choose-IsSupervised a.frozen _ _
        (λ _. carry-IsSupervised m _ refl refl (sym r) refl refl refl h)
        (λ _. carry-IsSupervised m _ refl refl (sym r) refl refl refl h))

keep_role :
    (a : Answers) (child : Option EngineChild) (m : Machine)
    → m.activation_role ≡ none
    → IsSupervised m
    → IsSupervised (commit_child a child m)
keep_role a none m r h = keep_inactive a m r h
keep_role a (some child) m r h =
    rw (r, committed_role)
      (keep_queued _ (keep_resumed _ (carry-IsSupervised m _ refl refl (sym r) refl refl refl h)))

keep_finished :
    (a : Answers) (role : Option WaitRole) (m : Machine)
    → m.activation_role ≡ role
    → IsSupervised m
    → IsSupervised (with_pending a role m)
keep_finished a none m r h =
    choose-IsSupervised a.published _ _
      (λ _.
        keep_role a m.engine (record m { active = true }) r
          (carry-IsSupervised m _ refl refl refl refl refl refl h))
      (λ _. keep_inactive a m r h)
keep_finished a (some role) m r h = with_pending-IsSupervised a (some role) m (resting m h r)

keep_failed :
    (a : Answers) (role : Option WaitRole) (m : Machine)
    → m.activation_role ≡ role
    → IsSupervised m
    → IsSupervised (fail_phase6_activation a m)
keep_failed a none m r h = keep_inactive a m r h
keep_failed a (some role) m r h = fail_phase6_activation-IsSupervised a m (resting m h r)

verified-IsSupervised :
    (a : Answers) (answer : AttachmentAnswer) (m : Machine)
    → IsSupervised m
    → IsSupervised (verified a answer m)
unfolding finish_phase6_activation
verified-IsSupervised a waits m h = h
verified-IsSupervised a complete m h =
    choose-IsSupervised a.interface_ready _ _
      (λ _.
        keep_queued _
          (choose-IsSupervised _ _ _ (λ _. keep_finished a m.activation_role m refl h) (λ _. h)))
      (λ _. h)
verified-IsSupervised a broken m h =
    choose-IsSupervised (is_some m.activation_role || not m.active) _ (record_dataplane_error m)
      (λ _. keep_failed a m.activation_role m refl h)
      (λ _. carry-IsSupervised m _ refl refl refl refl refl refl h)

pub handle_tc_verify-IsSupervised :
    (a : Answers) (m : Machine) → IsSupervised m → IsSupervised (handle_tc_verify a m)
unfolding handle_tc_verify
handle_tc_verify-IsSupervised a m h = verified-IsSupervised a a.attachment m h
