-- ===== src/Netlink/SockDiag/Destroying.antt =====
-- crates/fluxd/src/netlink/sock_diag.rs: which sockets `destroy_tcp_for_uids` destroys.
use flux_rs.Base.{
  ℕ, zero, suc, ◌+◌, ◌≤◌, ◌≡◌, refl, sym, Bool, true, false, not, ◌&&◌, ◌==◌, if◌then◌else◌, Option,
  none, some, List, [], ◌∷◌, ◌++◌, length, All, arith,
}
use flux_rs.Netlink.{RawMessage, Result, ok, err, stuck}
use flux_rs.Netlink.SockDiag.{
  DiagTcp, parse_diag_tcp, tcp_is_live_client, contains_uid, overflowuid, wanted_uids, is_target,
  add_target, targets_of, FamilyDump, dump_tcp_family, is_no_entry, after_dump, add_dump,
  collect_targets, sock_destroy_max,
}
use flux_rs.Netlink.SockDiag.Requests.{
  DestroyReport, Answer, acked, gone, refused, sent, destroy_each, take_targets, no_report,
  destroy_targets, with_wanted, destroy_tcp_for_uids,
}

-- A live connection of one of the UIDs, which is neither root nor the overflow UID.
abbrev pub is_targeted : List ℕ → DiagTcp → Bool
is_targeted uids d =
    contains_uid d.uid uids
    && not (d.uid == 0)
    && not (d.uid == overflowuid)
    && tcp_is_live_client d.state

abbrev pub AreTargeted : List ℕ → List DiagTcp → Type 0
AreTargeted uids = All (λ d. is_targeted uids d ≡ true)

contains_uid-wanted_uids :
    (uid : ℕ) (uids : List ℕ)
    → contains_uid uid (wanted_uids uids)
      ≡ (contains_uid uid uids && not (uid == 0) && not (uid == overflowuid))
contains_uid-wanted_uids uid [] = refl
contains_uid-wanted_uids uid (u ∷ us) = ground (arith, contains_uid-wanted_uids uid us)

is_target_lem : (uids : List ℕ) (d : DiagTcp) → is_target (wanted_uids uids) d ≡ is_targeted uids d
is_target_lem uids d = ground (arith, contains_uid-wanted_uids d.uid uids)

add_target-AreTargeted :
    (uids : List ℕ) (o : Option DiagTcp) (ds : List DiagTcp)
    → AreTargeted uids ds
    → AreTargeted uids (add_target (wanted_uids uids) o ds)
add_target-AreTargeted uids none ds h = h
add_target-AreTargeted uids (some d) ds h =
    by_target (is_target (wanted_uids uids) d) (is_target_lem uids d)
  where
    by_target : (b : Bool) → b ≡ is_targeted uids d → AreTargeted uids (if b then d ∷ ds else ds)
    by_target true eq = (sym eq, h)
    by_target false eq = h

targets_of-AreTargeted :
    (uids : List ℕ) (ms : List RawMessage) → AreTargeted uids (targets_of (wanted_uids uids) ms)
targets_of-AreTargeted uids [] = tt
targets_of-AreTargeted uids (m ∷ ms) =
    add_target-AreTargeted uids (parse_diag_tcp m.payload) (targets_of (wanted_uids uids) ms)
      (targets_of-AreTargeted uids ms)

append-AreTargeted :
    (uids : List ℕ) (ds es : List DiagTcp)
    → AreTargeted uids ds
    → AreTargeted uids es
    → AreTargeted uids (ds ++ es)
append-AreTargeted uids [] es h k = k
append-AreTargeted uids (d ∷ ds) es h k = (h.0, append-AreTargeted uids ds es h.1 k)

-- The targets of a result.
abbrev WithTargets : List ℕ → Result (List DiagTcp) → Type 0
WithTargets uids stuck = Unit {0}
WithTargets uids (err e) = Unit {0}
WithTargets uids (ok ds) = AreTargeted uids ds

after_dump-WithTargets :
    (uids : List ℕ) (ds : List DiagTcp) (r : Result (List DiagTcp))
    → AreTargeted uids ds
    → WithTargets uids r
    → WithTargets uids (after_dump ds r)
after_dump-WithTargets uids ds stuck h k = tt
after_dump-WithTargets uids ds (err e) h k = tt
after_dump-WithTargets uids ds (ok es) h k = append-AreTargeted uids ds es h k

add_dump-WithTargets :
    (uids : List ℕ) (dump : Result (List RawMessage)) (r : Result (List DiagTcp))
    → WithTargets uids r
    → WithTargets uids (add_dump (wanted_uids uids) dump r)
add_dump-WithTargets uids stuck r h = tt
add_dump-WithTargets uids (err e) r h = by_entry (is_no_entry e)
  where
    by_entry : (b : Bool) → WithTargets uids (if b then r else err e)
    by_entry true = h
    by_entry false = tt
add_dump-WithTargets uids (ok items) r h =
    after_dump-WithTargets uids (targets_of (wanted_uids uids) items) r
      (targets_of-AreTargeted uids items) h

take_targets_lem :
    (uids : List ℕ) (n : ℕ) (ds : List DiagTcp)
    → AreTargeted uids ds
    → AreTargeted uids (take_targets n ds) × (length (take_targets n ds) ≤ n)
take_targets_lem uids zero ds h = (tt, omega arith)
take_targets_lem uids (suc n) [] h = (tt, omega arith)
take_targets_lem uids (suc n) (d ∷ ds) h =
    let (ok_rest, le) = take_targets_lem uids n ds h.1 in ((h.0, ok_rest), omega arith)

-- The requests sent are for a part of the sockets, and a report counts them.
abbrev Counts : ℕ → DestroyReport → Result DestroyReport → Type 0
Counts n from stuck = Unit {0}
Counts n from (err e) = Unit {0}
Counts n from (ok r) = r.destroyed + r.already_gone ≡ n + (from.destroyed + from.already_gone)

-- What a destruction promises: only targets, at most 4096, each counted in a report.
pub record IsDestruction (uids : List ℕ) (r : Result DestroyReport × List DiagTcp) : Type 0 where
  pub targeted : AreTargeted uids r.1
  pub bound : length r.1 ≤ sock_destroy_max
  pub counted : Counts (length r.1) no_report r.0

one_more :
    (n : ℕ) (from next : DestroyReport) (r : Result DestroyReport)
    → next.destroyed + next.already_gone ≡ suc (from.destroyed + from.already_gone)
    → Counts n next r
    → Counts (suc n) from r
one_more n from next stuck eq h = tt
one_more n from next (err e) eq h = tt
one_more n from next (ok r) eq h = omega arith

-- The same, for the requests from some count on.
record IsRun (uids : List ℕ) (n : ℕ) (from : DestroyReport)
    (r : Result DestroyReport × List DiagTcp) : Type 0 where
  targeted : AreTargeted uids r.1
  bound : length r.1 ≤ n
  counted : Counts (length r.1) from r.0

sent-IsRun :
    (uids : List ℕ) (n : ℕ) (from : DestroyReport) (a : Answer) (d : DiagTcp)
    (r q : Result DestroyReport × List DiagTcp)
    → is_targeted uids d ≡ true
    → IsRun uids n (record from { destroyed = from.destroyed + 1 }) r
    → IsRun uids n (record from { already_gone = from.already_gone + 1 }) q
    → IsRun uids (suc n) from (sent a d r q)
sent-IsRun uids n from acked d r q h s t = record {
  targeted = (h, s.targeted);
  bound = ground (arith, s.bound);
  counted = one_more (length r.1) from _ r.0 (omega arith) s.counted;
}
sent-IsRun uids n from gone d r q h s t = record {
  targeted = (h, t.targeted);
  bound = ground (arith, t.bound);
  counted = one_more (length q.1) from _ q.0 (omega arith) t.counted;
}
sent-IsRun uids n from (refused e) d r q h s t = record {
  targeted = (h, tt);
  bound = omega arith;
  counted = tt;
}

destroy_each-IsRun :
    (uids : List ℕ) (answer : DiagTcp → Answer) (ds : List DiagTcp) (from : DestroyReport)
    → AreTargeted uids ds
    → IsRun uids (length ds) from (destroy_each answer ds from)
unfolding destroy_each
destroy_each-IsRun uids answer [] from h = record {
  targeted = tt;
  bound = omega arith;
  counted = omega arith;
}
destroy_each-IsRun uids answer (d ∷ ds) from h =
    sent-IsRun uids (length ds) from (answer d) d _ _ h.0 (destroy_each-IsRun uids answer ds _ h.1)
      (destroy_each-IsRun uids answer ds _ h.1)

nothing-IsDestruction :
    (uids : List ℕ) (r : Result DestroyReport) → Counts 0 no_report r → IsDestruction uids (r, [])
nothing-IsDestruction uids r h = record { targeted = tt; bound = omega arith; counted = h }

destroy_targets-IsDestruction :
    (uids : List ℕ) (answer : DiagTcp → Answer) (opened : Result (Unit {0}))
    (found : Result (List DiagTcp))
    → WithTargets uids found
    → IsDestruction uids (destroy_targets answer opened found)
destroy_targets-IsDestruction uids answer opened stuck h = nothing-IsDestruction uids stuck tt
destroy_targets-IsDestruction uids answer opened (err e) h = nothing-IsDestruction uids (err e) tt
destroy_targets-IsDestruction uids answer stuck (ok ds) h = nothing-IsDestruction uids stuck tt
destroy_targets-IsDestruction uids answer (err e) (ok ds) h = nothing-IsDestruction uids (err e) tt
destroy_targets-IsDestruction uids answer (ok u) (ok ds) h =
    let (targets, le) = take_targets_lem uids sock_destroy_max ds h in
    let run = destroy_each-IsRun uids answer (take_targets sock_destroy_max ds) no_report targets in
    record { targeted = run.targeted; bound = ground (arith, run.bound, le); counted = run.counted }

with_wanted-IsDestruction :
    (uids : List ℕ) (answer : DiagTcp → Answer) (v4 v6 : FamilyDump) (opened : Result (Unit {0}))
    (wanted : List ℕ)
    → WithTargets uids (collect_targets wanted v4 v6)
    → IsDestruction uids (with_wanted answer v4 v6 opened wanted)
with_wanted-IsDestruction uids answer v4 v6 opened [] h =
    nothing-IsDestruction uids (ok no_report) refl
with_wanted-IsDestruction uids answer v4 v6 opened (u ∷ us) h =
    destroy_targets-IsDestruction uids answer opened (collect_targets (u ∷ us) v4 v6) h

-- Whatever the dumps show and the kernel answers, `destroy_tcp_for_uids` sends a request only for live
-- connections of the UIDs given, never for those of root or of the overflow UID, at most 4096 of
-- them, and a report counts every request.
pub destroy_tcp_for_uids-IsDestruction :
    (answer : DiagTcp → Answer) (v4 v6 : FamilyDump) (opened : Result (Unit {0})) (uids : List ℕ)
    → IsDestruction uids (destroy_tcp_for_uids answer v4 v6 opened uids)
unfolding destroy_tcp_for_uids
destroy_tcp_for_uids-IsDestruction answer v4 v6 opened uids =
    with_wanted-IsDestruction uids answer v4 v6 opened (wanted_uids uids) (
      unfold collect_targets in
      add_dump-WithTargets uids (dump_tcp_family v4)
        (add_dump (wanted_uids uids) (dump_tcp_family v6) (ok []))
        (add_dump-WithTargets uids (dump_tcp_family v6) (ok []) tt))
