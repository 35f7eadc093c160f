-- ===== src/Engine/Supervised/Steps.antt =====
-- crates/fluxd/src/reactor.rs: the handlers keep the engine supervised.
use flux_rs.Base.{ℕ, Bool, true, false, leb, Option, none, some, ◌≡◌, refl, arith}
use flux_rs.Engine.{
  EngineChild, EngineError, io, exited, not_ready, SwitchPlan, CheckDisposition, WaitRole,
  candidate, recovery, StopNext, EngineTransaction, checking, waiting, stopping, Readiness,
  verify_listener_inodes,
}
use flux_rs.Engine.Machine.{Machine, Answers, ProbeAnswer, terminate}
use flux_rs.Engine.Stopping.{cleanup_cancelled_wait_role}
use flux_rs.Engine.Activating.{next_of}
use flux_rs.Engine.Waiting.{
  park_waiting, rearm_waiting, after_exit, finish_waiting_exit, start_probe, by_identity,
  unless_over, advance_waiting, by_readiness, by_answer, probed, handle_sock_diag,
}
use flux_rs.Engine.Supervised.{IsSupervised, IsIdle, Holds, choose-IsSupervised}
use flux_rs.Engine.Supervised.Ends.{
  begin_stop-IsSupervised, finish_transaction_error-IsSupervised,
  begin_candidate_failure-IsSupervised, terminate-IsIdle, cleanup_cancelled_wait_role-Holds,
}
use flux_rs.Engine.Supervised.Activation.{promote_ready_child-IsSupervised}

park_waiting-IsSupervised :
    (a : Answers) (child : EngineChild) (role : WaitRole) (deadline backoff : ℕ) (m : Machine)
    → Holds child.pid m
    → IsSupervised (park_waiting a child role deadline backoff m)
unfolding park_waiting
park_waiting-IsSupervised a child role deadline backoff m h = ground arith

rearm_waiting-IsSupervised :
    (a : Answers) (child : EngineChild) (role : WaitRole) (deadline backoff : ℕ) (m : Machine)
    → Holds child.pid m
    → IsSupervised (rearm_waiting a child role deadline backoff m)
unfolding rearm_waiting
rearm_waiting-IsSupervised a child role deadline backoff m h = ground arith

after_exit-IsSupervised :
    (a : Answers) (role : WaitRole) (e : EngineError) (m : Machine)
    → IsIdle m
    → m.engine ≡ none
    → IsSupervised (after_exit a role e m)
after_exit-IsSupervised a (candidate plan) e m h n =
    begin_candidate_failure-IsSupervised a plan e m h n
after_exit-IsSupervised a (recovery c) e m h n =
    finish_transaction_error-IsSupervised c (some e) m h

finish_waiting_exit-IsSupervised :
    (a : Answers) (child : EngineChild) (role : WaitRole) (m : Machine)
    → a.exited ≡ true
    → Holds child.pid m
    → IsSupervised (finish_waiting_exit a child role m)
unfolding finish_waiting_exit
finish_waiting_exit-IsSupervised a child role m e h =
    let m' = record m { diag_probe = false } in
    let reaped = terminate-IsIdle a child m' (ground arith) (ground arith) refl in
    after_exit-IsSupervised a role exited (terminate a child m') reaped.0 reaped.1

unless_over-IsSupervised :
    (a : Answers) (child : EngineChild) (role : WaitRole) (deadline : ℕ) (m go_on : Machine)
    → Holds child.pid m
    → IsSupervised go_on
    → IsSupervised (unless_over a child role deadline m go_on)
unless_over-IsSupervised a child role deadline m go_on h g =
    choose-IsSupervised m.engine_cancel_requested _ _
      (λ _.
        begin_stop-IsSupervised a child StopNext.cancelled (cleanup_cancelled_wait_role role m)
          (cleanup_cancelled_wait_role-Holds child.pid role m h))
      (λ _.
        choose-IsSupervised a.exited _ _ (λ e. finish_waiting_exit-IsSupervised a child role m e h)
          (λ _.
            choose-IsSupervised (leb deadline a.now) _ _
              (λ _.
                begin_stop-IsSupervised a child (next_of role (not_ready child.sockets_verified)) m
                  h)
              (λ _. g)))

start_probe-IsSupervised :
    (a : Answers) (child : EngineChild) (role : WaitRole) (deadline backoff : ℕ) (m : Machine)
    → Holds child.pid m
    → IsSupervised (start_probe a child role deadline backoff m)
start_probe-IsSupervised a child role deadline backoff m h =
    choose-IsSupervised m.diag_probe _ _
      (λ _. park_waiting-IsSupervised a child role deadline backoff m h)
      (λ _.
        choose-IsSupervised a.probe_started _ _
          (λ _.
            park_waiting-IsSupervised a child role deadline backoff (record m { diag_probe = true })
              (ground arith))
          (λ _. begin_stop-IsSupervised a child (next_of role io) m h))

by_identity-IsSupervised :
    (a : Answers) (child : EngineChild) (role : WaitRole) (deadline backoff : ℕ) (m : Machine)
    (identity : Option Bool)
    → Holds child.pid m
    → IsSupervised (by_identity a child role deadline backoff m identity)
by_identity-IsSupervised a child role deadline backoff m none h =
    begin_stop-IsSupervised a child (next_of role io) m h
by_identity-IsSupervised a child role deadline backoff m (some false) h =
    rearm_waiting-IsSupervised a child role deadline backoff (record m { diag_probe = false })
      (ground arith)
by_identity-IsSupervised a child role deadline backoff m (some true) h =
    start_probe-IsSupervised a child role deadline backoff m h

pub advance_waiting-IsSupervised :
    (a : Answers) (child : EngineChild) (role : WaitRole) (deadline backoff : ℕ) (m : Machine)
    → Holds child.pid m
    → IsSupervised (advance_waiting a child role deadline backoff m)
unfolding advance_waiting
advance_waiting-IsSupervised a child role deadline backoff m h =
    unless_over-IsSupervised a child role deadline m _ h
      (by_identity-IsSupervised a child role deadline backoff m a.identity h)

by_readiness-IsSupervised :
    (a : Answers) (child : EngineChild) (role : WaitRole) (deadline backoff : ℕ) (m : Machine)
    (r : Readiness)
    → Holds child.pid m
    → m.transaction ≡ none
    → IsSupervised (by_readiness a child role deadline backoff m r)
by_readiness-IsSupervised a child role deadline backoff m (Readiness.ready n) h t =
    promote_ready_child-IsSupervised a (record child { sockets_verified = n }) role m h t
by_readiness-IsSupervised a child role deadline backoff m (Readiness.pending n) h t =
    rearm_waiting-IsSupervised a (record child { sockets_verified = n }) role deadline backoff m h
by_readiness-IsSupervised a child role deadline backoff m (Readiness.refused e) h t =
    begin_stop-IsSupervised a child (next_of role e) m h

by_answer-IsSupervised :
    (a : Answers) (child : EngineChild) (role : WaitRole) (deadline backoff : ℕ) (m : Machine)
    (answer : ProbeAnswer)
    → Holds child.pid m
    → m.transaction ≡ none
    → IsSupervised (by_answer a child role deadline backoff m answer)
by_answer-IsSupervised a child role deadline backoff m ProbeAnswer.wait h t =
    park_waiting-IsSupervised a child role deadline backoff (record m { diag_probe = true })
      (ground arith)
by_answer-IsSupervised a child role deadline backoff m (ProbeAnswer.answered inodes) h t =
    by_readiness-IsSupervised a child role deadline backoff m (verify_listener_inodes a.owns inodes)
      h t
by_answer-IsSupervised a child role deadline backoff m ProbeAnswer.retryable h t =
    rearm_waiting-IsSupervised a child role deadline backoff m h
by_answer-IsSupervised a child role deadline backoff m ProbeAnswer.broken h t =
    begin_stop-IsSupervised a child (next_of role io) m h

-- What a supervised machine holds where a transaction of each kind stands.
pub waiting-Holds :
    {child : EngineChild} {role : WaitRole} {deadline backoff : ℕ} (m : Machine)
    → IsSupervised m
    → m.transaction ≡ some (waiting child role deadline backoff)
    → Holds child.pid m
waiting-Holds m h t = ground arith

pub stopping-Holds :
    {child : EngineChild} {next : StopNext} {deadline : ℕ} {kill_sent : Bool} (m : Machine)
    → IsSupervised m
    → m.transaction ≡ some (stopping child next deadline kill_sent)
    → Holds child.pid m × (m.diag_probe ≡ false)
stopping-Holds m h t = (ground arith, ground arith)

pub checking-IsIdle :
    {plan : SwitchPlan} {deadline : ℕ} {disposition : CheckDisposition} (m : Machine)
    → IsSupervised m
    → m.transaction ≡ some (checking plan deadline disposition)
    → IsIdle m
checking-IsIdle m h t = ground arith

-- A probe stands only while a child is awaited, so no transaction is lost with one.
probed-IsSupervised :
    (a : Answers) (t : Option EngineTransaction) (m : Machine)
    → t ≡ m.transaction
    → IsSupervised m
    → m.diag_probe ≡ true
    → IsSupervised (probed a t (record m { diag_probe = false; transaction = none }))
probed-IsSupervised a none m e h q = ground arith
probed-IsSupervised a (some (checking plan deadline disposition)) m e h q = ground arith
probed-IsSupervised a (some (stopping child next deadline kill_sent)) m e h q = ground arith
probed-IsSupervised a (some (waiting child role deadline backoff)) m e h q =
    let m' = record m { diag_probe = false; transaction = none } in
    let held : Holds child.pid m' = ground arith in
    unless_over-IsSupervised a child role deadline m' _ held
      (by_answer-IsSupervised a child role deadline backoff m' a.probe held refl)

pub handle_sock_diag-IsSupervised :
    (a : Answers) (m : Machine) → IsSupervised m → IsSupervised (handle_sock_diag a m)
unfolding handle_sock_diag
handle_sock_diag-IsSupervised a m h =
    choose-IsSupervised m.diag_probe _ _ (λ q. probed-IsSupervised a m.transaction m refl h q)
      (λ _. h)
