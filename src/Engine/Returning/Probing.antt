-- ===== src/Engine/Returning/Probing.antt =====
-- crates/fluxd/src/reactor.rs: the sockets of the old generation are asked for.
use flux_rs.Base.{ℕ, Bool, true, false, none, some, [], ◌∷◌, ◌≡◌, refl, arith, leb, if◌then◌else◌}
use flux_rs.Engine.{EngineChild, EngineError, io, recovery, StopNext}
use flux_rs.Engine.Machine.{Machine, Answers}
use flux_rs.Engine.Stopping.{begin_stop}
use flux_rs.Engine.Waiting.{park_waiting, advance_waiting, start_probe}
use flux_rs.Engine.Handlers.{handle_engine_timer}
use flux_rs.Engine.Returning.{Probes, Waits, Probed, otherwise}

parked :
    (child : EngineChild) (e : EngineError) (deadline backoff : ℕ) (a : Answers) (m : Machine)
    → m.engine ≡ none
    → m.activation_role ≡ none
    → m.engine_cancel_requested ≡ false
    → m.processes ≡ child.pid ∷ []
    → m.diag_probe ≡ true
    → Probed child e deadline backoff (park_waiting a child (recovery e) deadline backoff m)
unfolding park_waiting
parked child e deadline backoff a m n u c k q =
    (record { waits = refl; alone = n; unassigned = u; going = c; counted = k }, q)

sent :
    (child : EngineChild) (e : EngineError) (deadline backoff : ℕ) (a : Answers) (m : Machine)
    → a.probe_started ≡ true
    → m.engine ≡ none
    → m.activation_role ≡ none
    → m.engine_cancel_requested ≡ false
    → m.processes ≡ child.pid ∷ []
    → Probed child e deadline backoff (start_probe a child (recovery e) deadline backoff m)
unfolding park_waiting
sent child e deadline backoff a m s n u c k = by_probe m.diag_probe refl
  where
    go_out : Machine
    go_out = park_waiting a child (recovery e) deadline backoff (record m { diag_probe = true })

    by_probe :
        (b : Bool)
        → m.diag_probe ≡ b
        → Probed child e deadline backoff (
            if b
            then park_waiting a child (recovery e) deadline backoff m
            else if a.probe_started
            then go_out
            else begin_stop a child (StopNext.finish_recovery_failure e io) m)
    by_probe true q = parked child e deadline backoff a m n u c k q
    by_probe false q =
        rw s (parked child e deadline backoff a (record m { diag_probe = true }) n u c k refl)

-- The old generation's child is probed at the next expiry.
pub probed :
    (child : EngineChild) (e : EngineError) (deadline backoff : ℕ) (a : Answers) (m : Machine)
    → Probes deadline a
    → Waits child e deadline backoff m
    → Probed child e deadline backoff (handle_engine_timer a m)
unfolding handle_engine_timer advance_waiting
probed child e deadline backoff a m p w =
    let P = Probed child e deadline backoff in
    rw w.waits (
      otherwise P m.engine_cancel_requested _ _ w.going (
        otherwise P a.exited _ _ p.alive (
          otherwise P (leb deadline a.now) _ _ (ground (arith, p.in_time)) (
            rw p.identified (
              sent child e deadline backoff (record a { identity = some true })
                (record m { transaction = none }) p.sent w.alone w.unassigned w.going w.counted)))))
