-- ===== src/Netlink/SockDiag/Incomplete.antt =====
-- crates/fluxd/src/netlink/sock_diag.rs: an incomplete dump destroys nothing.
use flux_rs.Base.{ℕ, ◌≡◌, ◌⊎◌, inl, inr, refl, Bool, true, false, List, [], ◌∷◌, arith}
use flux_rs.Netlink.{RawMessage, Error, Result, ok, err, stuck}
use flux_rs.Netlink.SockDiag.{
  DiagTcp, wanted_uids, FamilyDump, dump_tcp_family, is_no_entry, add_dump, collect_targets,
}
use flux_rs.Netlink.SockDiag.Requests.{Answer, destroy_targets, with_wanted, destroy_tcp_for_uids}

-- A dump that fails, other than for a missing family, destroys nothing.
abbrev pub IsIncomplete : FamilyDump → Type 0
IsIncomplete f = (e : Error) × (dump_tcp_family f ≡ err e) × (is_no_entry e ≡ false)

abbrev pub is_ok {ℓ} : {A : Type ℓ} → Result A → Bool
is_ok stuck = false
is_ok (err e) = false
is_ok (ok a) = true

nothing_targeted :
    (answer : DiagTcp → Answer) (opened : Result (Unit {0})) (found : Result (List DiagTcp))
    → is_ok found ≡ false
    → (destroy_targets answer opened found).1 ≡ []
nothing_targeted answer opened stuck h = refl
nothing_targeted answer opened (err e) h = refl
nothing_targeted answer opened (ok ds) h = ground (arith, h)

nothing_sent :
    (answer : DiagTcp → Answer) (v4 v6 : FamilyDump) (opened : Result (Unit {0})) (wanted : List ℕ)
    → is_ok (collect_targets wanted v4 v6) ≡ false
    → (with_wanted answer v4 v6 opened wanted).1 ≡ []
nothing_sent answer v4 v6 opened [] h = refl
nothing_sent answer v4 v6 opened (u ∷ us) h =
    nothing_targeted answer opened (collect_targets (u ∷ us) v4 v6) h

failed_dump :
    (wanted : List ℕ) (dump : Result (List RawMessage)) (later : Result (List DiagTcp)) (e : Error)
    → dump ≡ err e
    → is_no_entry e ≡ false
    → is_ok (add_dump wanted dump later) ≡ false
failed_dump wanted stuck later e h n = refl
failed_dump wanted (err e') later e h n = ground (arith, h, n)
failed_dump wanted (ok items) later e h n = ground (arith, h)

failed_later :
    (wanted : List ℕ) (dump : Result (List RawMessage)) (later : Result (List DiagTcp))
    → is_ok later ≡ false
    → is_ok (add_dump wanted dump later) ≡ false
failed_later wanted stuck later h = refl
failed_later wanted (err e) later h = ground (arith, h)
failed_later wanted (ok items) stuck h = refl
failed_later wanted (ok items) (err e) h = refl
failed_later wanted (ok items) (ok ds) h = h

-- `destroy_tcp_for_uids` destroys nothing where the dump of one family fails, other than because the
-- kernel does not have the family, whatever the dump of the other one shows.
pub destroy_tcp_for_uids-nothing :
    (answer : DiagTcp → Answer) (v4 v6 : FamilyDump) (opened : Result (Unit {0})) (uids : List ℕ)
    → IsIncomplete v4 ⊎ IsIncomplete v6
    → (destroy_tcp_for_uids answer v4 v6 opened uids).1 ≡ []
unfolding destroy_tcp_for_uids collect_targets
destroy_tcp_for_uids-nothing answer v4 v6 opened uids (inl (e, failed, kept)) =
    nothing_sent answer v4 v6 opened (wanted_uids uids)
      (failed_dump (wanted_uids uids) (dump_tcp_family v4) _ e failed kept)
destroy_tcp_for_uids-nothing answer v4 v6 opened uids (inr (e, failed, kept)) =
    nothing_sent answer v4 v6 opened (wanted_uids uids) (
      failed_later (wanted_uids uids) (dump_tcp_family v4) _
        (failed_dump (wanted_uids uids) (dump_tcp_family v6) (ok []) e failed kept))
