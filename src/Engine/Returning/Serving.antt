-- ===== src/Engine/Returning/Serving.antt =====
-- crates/fluxd/src/reactor.rs: the old generation is activated again.
use flux_rs.Base.{
  ℕ, ◌+◌, Bool, true, false, ◌&&◌, Option, none, some, List, [], ◌∷◌, ◌≡◌, refl, arith, leb,
}
use flux_rs.Engine.{
  EngineParams, EngineChild, EngineError, OldGeneration, SwitchPlan, recovery, recover, stopping,
  ready_deadline,
}
use flux_rs.Engine.Machine.{
  Machine, Answers, answered, run_queued_convergence, resume_queued_subscription_work,
}
use flux_rs.Engine.Recovering.{new_child}
use flux_rs.Engine.Activating.{
  promote_ready_child, start_phase6_attachment, finish_phase6_activation,
}
use flux_rs.Engine.Waiting.{handle_sock_diag}
use flux_rs.Engine.Handlers.{handle_transaction_pidfd, handle_engine_timer}
use flux_rs.Engine.Supervised.{IsSupervised}
use flux_rs.Engine.Returning.{Restarts, Probes, Activates, Probed, Returned, otherwise, chosen}
use flux_rs.Engine.Returning.Restarting.{stopped}
use flux_rs.Engine.Returning.Probing.{probed}

queued :
    (params : EngineParams) (pid : ℕ) (e : EngineError) (m : Machine)
    → Returned params pid e m
    → Returned params pid e (run_queued_convergence (resume_queued_subscription_work m))
queued params pid e m r = record {
  child = r.child;
  serving = ground (arith, r.serving);
  same = r.same;
  verified = r.verified;
  idle = ground (arith, r.idle);
  committed = ground (arith, r.committed);
  generation = ground (arith, r.generation);
  shown = ground (arith, r.shown);
  active = ground (arith, r.active);
  counted = ground (arith, r.counted);
}

promoted :
    (child : EngineChild) (e : EngineError) (deadline : ℕ) (inodes : List (Option ℕ)) (a : Answers)
    (m : Machine)
    → Activates deadline inodes a
    → child.sockets_verified ≡ 4
    → m.transaction ≡ none
    → m.processes ≡ child.pid ∷ []
    → Returned child.params child.pid e (promote_ready_child a child (recovery e) m)
unfolding promote_ready_child start_phase6_attachment finish_phase6_activation
promoted child e deadline inodes a m s v t k =
    let P = Returned child.params child.pid e in
    chosen P a.retagged _ _ s.retagged (
      chosen P a.prepared _ _ s.prepared (
        rw s.attached (
          chosen P (a.interface_ready && true) _ _ (ground (arith, s.interface_ready)) (
            chosen P a.published _ _ s.published (
              queued child.params child.pid e _ (record {
                child = child;
                serving = refl;
                same = refl;
                verified = v;
                idle = t;
                committed = refl;
                generation = refl;
                shown = refl;
                active = refl;
                counted = k;
              }))))))

pub activated :
    (child : EngineChild) (e : EngineError) (deadline backoff : ℕ) (inodes : List (Option ℕ))
    (a : Answers) (m : Machine)
    → Activates deadline inodes a
    → Probed child e deadline backoff m
    → Returned child.params child.pid e (handle_sock_diag a m)
unfolding handle_sock_diag
activated child e deadline backoff inodes a m s p =
    let P = Returned child.params child.pid e in
    chosen P m.diag_probe _ _ p.1 (
      rw p.0.waits (
        otherwise P m.engine_cancel_requested _ _ p.0.going (
          otherwise P a.exited _ _ s.alive (
            otherwise P (leb deadline a.now) _ _ (ground (arith, s.in_time)) (
              rw (s.answers, s.owned)
                (promoted (record child { sockets_verified = 4 }) e deadline inodes
                  (record a { probe = answered inodes })
                  (record m { diag_probe = false; transaction = none })
                  (record {
                    alive = s.alive;
                    in_time = s.in_time;
                    answers = refl;
                    owned = s.owned;
                    retagged = s.retagged;
                    prepared = s.prepared;
                    attached = s.attached;
                    interface_ready = s.interface_ready;
                    published = s.published;
                  })
                  refl refl p.0.counted))))))

-- A candidate that failed, with whatever error, and is being stopped, and that has a generation before
-- it: once it exits and the old generation's process starts, answers its probe in time and is activated,
-- the engine is a child with the old parameters whose four sockets were verified, it is the only process,
-- its generation is committed, the data plane is active, no transaction is left, and the candidate's
-- error is the one that is shown.
pub failed_candidate-Returned :
    {child : EngineChild} {plan : SwitchPlan} {old : OldGeneration} {pid deadline : ℕ}
    {kill_sent : Bool} (a b c : Answers) (e : EngineError) (inodes : List (Option ℕ)) (m : Machine)
    → IsSupervised m
    → m.transaction ≡ some (stopping child (recover plan e) deadline kill_sent)
    → m.engine_cancel_requested ≡ false
    → plan.old ≡ some old
    → Restarts old pid a
    → Probes (a.now + ready_deadline) b
    → Activates (a.now + ready_deadline) inodes c
    → Returned old.params pid e
        (handle_sock_diag c (handle_engine_timer b (handle_transaction_pidfd a m)))
failed_candidate-Returned {old} {pid} a b c e inodes m h t n o r p s =
    let child = new_child a pid old.params old.effective in
    let deadline = a.now + ready_deadline in
    activated child e deadline 10 inodes c _ s
      (probed child e deadline 10 b _ p (stopped a e m r h t o n))
