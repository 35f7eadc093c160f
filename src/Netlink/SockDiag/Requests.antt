-- ===== src/Netlink/SockDiag/Requests.antt =====
-- crates/fluxd/src/netlink/sock_diag.rs: the requests of `destroy_tcp_for_uids`.
use flux_rs.Base.{ℕ, zero, suc, ◌+◌, List, [], ◌∷◌}
use flux_rs.Netlink.{Error, Result, ok, err, stuck}
use flux_rs.Netlink.SockDiag.{sock_destroy_max, DiagTcp, wanted_uids, FamilyDump, collect_targets}

pub record DestroyReport : Type 0 where
  pub destroyed : ℕ
  pub already_gone : ℕ

-- What the kernel answers to a request; `gone` is ESRCH, ENOENT or ENODEV.
pub data Answer : Type 0 where
  acked gone : Answer
  refused : Error → Answer

-- One more request, before those that follow it.
abbrev pub sent :
    Answer
    → DiagTcp
    → (after_ack after_gone : Result DestroyReport × List DiagTcp)
    → Result DestroyReport × List DiagTcp
sent acked d after_ack after_gone = (after_ack.0, d ∷ after_ack.1)
sent gone d after_ack after_gone = (after_gone.0, d ∷ after_gone.1)
sent (refused e) d after_ack after_gone = (err e, d ∷ [])

-- The requests in turn, with the sockets for which one was sent.
unfoldable pub destroy_each :
    (DiagTcp → Answer) → List DiagTcp → DestroyReport → Result DestroyReport × List DiagTcp
destroy_each answer [] report = (ok report, [])
destroy_each answer (d ∷ ds) report =
    sent (answer d) d (destroy_each answer ds (record report { destroyed = report.destroyed + 1 }))
      (destroy_each answer ds (record report { already_gone = report.already_gone + 1 }))

abbrev pub take_targets : ℕ → List DiagTcp → List DiagTcp
take_targets zero ds = []
take_targets (suc n) [] = []
take_targets (suc n) (d ∷ ds) = d ∷ take_targets n ds

abbrev pub no_report : DestroyReport
no_report = record { destroyed = 0; already_gone = 0 }

abbrev pub destroy_targets :
    (DiagTcp → Answer)
    → Result (Unit {0})
    → Result (List DiagTcp)
    → Result DestroyReport × List DiagTcp
destroy_targets answer opened stuck = (stuck, [])
destroy_targets answer opened (err e) = (err e, [])
destroy_targets answer stuck (ok ds) = (stuck, [])
destroy_targets answer (err e) (ok ds) = (err e, [])
destroy_targets answer (ok u) (ok ds) =
    destroy_each answer (take_targets sock_destroy_max ds) no_report

abbrev pub with_wanted :
    (DiagTcp → Answer)
    → FamilyDump
    → FamilyDump
    → Result (Unit {0})
    → List ℕ
    → Result DestroyReport × List DiagTcp
with_wanted answer v4 v6 opened [] = (ok no_report, [])
with_wanted answer v4 v6 opened (u ∷ us) =
    destroy_targets answer opened (collect_targets (u ∷ us) v4 v6)

unfoldable pub destroy_tcp_for_uids :
    (DiagTcp → Answer)
    → FamilyDump
    → FamilyDump
    → Result (Unit {0})
    → List ℕ
    → Result DestroyReport × List DiagTcp
unfolding collect_targets destroy_each
destroy_tcp_for_uids answer v4 v6 opened uids = with_wanted answer v4 v6 opened (wanted_uids uids)
