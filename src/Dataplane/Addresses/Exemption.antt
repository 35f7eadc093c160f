-- ===== src/Dataplane/Addresses/Exemption.antt =====
-- crates/fluxd/src/dataplane/platform.rs: `desired_self_addresses` against the addresses of the dump.
use Prim.Native.Nat.{bit_and}
use flux_rs.Base.{
  ℕ, ◌≤◌, ◌≡◌, refl, Bool, true, false, not, ◌&&◌, ◌||◌, ◌==◌, Option, none, some, List, [], ◌∷◌,
  length, arith, if◌then◌else◌,
}
use flux_rs.Collections.Ord.{is_eq}
use flux_rs.Collections.TextOrd.{text_ord}
use flux_rs.Collections.BTreeMap.{BTreeSet, get, contains, contains_key, IsSorted}
use flux_rs.Collections.BTreeMap.Laws.{get-insert, IsSorted-insert}
use flux_rs.Dataplane.{Result, ok, err, Manager}
use flux_rs.Dataplane.Addresses.{
  Address, Candidates, unusable_flags, af_inet, af_inet6, is_privacy_address, is_special_v4,
  is_special_v6, and_privacy, note_address, add_candidate, candidates, self_addr_max, SelfSelection,
  both_families, desired_self_addresses,
}
use flux_rs.Dataplane.Addresses.Selection.{
  is_stable, IsSelection, select_self_addresses-IsSelection,
}

abbrev is_usable : Address → Bool
is_usable a = bit_and a.flags unusable_flags == 0

abbrev is_usable_v4 : Address → Bool
is_usable_v4 a =
    is_usable a && (a.family == af_inet) && (length a.bytes == 4) && not (is_special_v4 a.bytes)

abbrev is_usable_v6 : Address → Bool
is_usable_v6 a =
    is_usable a && (a.family == af_inet6) && (length a.bytes == 16) && not (is_special_v6 a.bytes)

-- Some address of the dump has these bytes and passes the test.
abbrev some_address : (Address → Bool) → List ℕ → List Address → Bool
some_address p bytes [] = false
some_address p bytes (a ∷ found) =
    (p a && is_eq (text_ord.cmp bytes a.bytes)) || some_address p bytes found

abbrev is_stable_v6 : Address → Bool
is_stable_v6 a = is_usable_v6 a && not (is_privacy_address a.family a.flags)

get-note_address :
    (k a : List ℕ) (p : Bool) (c : Candidates)
    → get k (note_address a p c)
      ≡ (if is_eq (text_ord.cmp k a) then some (and_privacy (get k c) p) else get k c)
get-note_address k a p c =
    ground (arith, text_ord.cmp_eq k a, get-insert k a (and_privacy (get a c) p) c)

add_candidate-v4 :
    (k : List ℕ) (a : Address) (c : Candidates × Candidates)
    → get k (add_candidate a c).0
      ≡ (if is_usable_v4 a && is_eq (text_ord.cmp k a.bytes) then some false else get k c.0)
unfolding add_candidate
add_candidate-v4 k a (v4, v6) = ground (arith, get-note_address k a.bytes false v4)

-- One address is a stable candidate afterwards if it was, or if this is one.
add_candidate-v6 :
    (k : List ℕ) (a : Address) (c : Candidates × Candidates)
    → (is_stable (get k (add_candidate a c).1)
        ≡ ((is_stable_v6 a && is_eq (text_ord.cmp k a.bytes)) || is_stable (get k c.1)))
      × (contains_key k (add_candidate a c).1
          ≡ ((is_usable_v6 a && is_eq (text_ord.cmp k a.bytes)) || contains_key k c.1))
unfolding add_candidate
add_candidate-v6 k a (v4, v6) = (
  ground (arith, get-note_address k a.bytes (is_privacy_address a.family a.flags) v6),
  ground (arith, get-note_address k a.bytes (is_privacy_address a.family a.flags) v6),
)

candidates-v4 :
    (k : List ℕ) (found : List Address) (c : Candidates × Candidates)
    → get k (candidates found c).0
      ≡ (if some_address is_usable_v4 k found then some false else get k c.0)
unfolding candidates
candidates-v4 k [] c = refl
candidates-v4 k (a ∷ found) c =
    ground (arith, candidates-v4 k found (add_candidate a c), add_candidate-v4 k a c)

candidates-v6 :
    (k : List ℕ) (found : List Address) (c : Candidates × Candidates)
    → (is_stable (get k (candidates found c).1)
        ≡ (some_address is_stable_v6 k found || is_stable (get k c.1)))
      × (contains_key k (candidates found c).1
          ≡ (some_address is_usable_v6 k found || contains_key k c.1))
unfolding candidates
candidates-v6 k [] c = (refl, refl)
candidates-v6 k (a ∷ found) c =
    let (stable, known) = candidates-v6 k found (add_candidate a c) in
    let (stable_a, known_a) = add_candidate-v6 k a c in
    (ground (arith, stable, stable_a), ground (arith, known, known_a))

abbrev AreSorted : Candidates × Candidates → Type 0
AreSorted c = IsSorted c.0 × IsSorted c.1

add_candidate-AreSorted :
    (a : Address) (c : Candidates × Candidates) → AreSorted c → AreSorted (add_candidate a c)
unfolding add_candidate
add_candidate-AreSorted a (v4, v6) (s4, s6) = ground (
  arith,
  IsSorted-insert a.bytes (and_privacy (get a.bytes v4) false) v4 s4,
  IsSorted-insert a.bytes (and_privacy (get a.bytes v6) (is_privacy_address a.family a.flags)) v6
      s6,
)

candidates-AreSorted :
    (found : List Address) (c : Candidates × Candidates)
    → AreSorted c
    → AreSorted (candidates found c)
unfolding candidates
candidates-AreSorted [] c s = s
candidates-AreSorted (a ∷ found) c s =
    candidates-AreSorted found (add_candidate a c) (add_candidate-AreSorted a c s)

-- The addresses kept, against those of the dump.
pub record IsExempt (found : List Address) (own : SelfSelection) : Type 0 where
  pub v4 : (k : List ℕ) → contains k own.v4 ≡ some_address is_usable_v4 k found
  pub v6_stable : (k : List ℕ) → some_address is_stable_v6 k found ≡ true → contains k own.v6 ≡ true
  pub v6_only : (k : List ℕ) → contains k own.v6 ≡ true → some_address is_usable_v6 k found ≡ true
  pub v6_whole :
      (k : List ℕ) → own.truncated ≡ false → contains k own.v6 ≡ some_address is_usable_v6 k found
  pub bounds : (length own.v4 ≤ self_addr_max) × (length own.v6 ≤ self_addr_max)

stable_get : (o : Option Bool) → is_stable o ≡ true → o ≡ some false
stable_get none h = ground arith
stable_get (some p) h = ground arith

exempt :
    (found : List Address) (s4 s6 : BTreeSet (List ℕ)) (t4 t6 : Bool)
    → IsSelection (candidates found ([], [])).0 self_addr_max s4 t4
    → IsSelection (candidates found ([], [])).1 self_addr_max s6 t6
    → IsExempt found (record { v4 = s4; v6 = s6; truncated = t4 || t6 })
exempt found s4 s6 t4 t6 h4 h6 = record {
  v4 = λ k. unfold get in ground (arith, candidates-v4 k found ([], []), h4.stable k, h4.only k);
  v6_stable = λ k stable. h6.stable k (
      stable_get (get k (candidates found ([], [])).1)
        (ground (arith, (candidates-v6 k found ([], [])).0)));
  v6_only = λ k kept. unfold get in ground (arith, (candidates-v6 k found ([], [])).1, h6.only k);
  v6_whole = λ k cut. unfold get in ground (arith, (candidates-v6 k found ([], [])).1, h6.whole k);
  bounds = (h4.bound, h6.bound);
}

both_families-IsExempt :
    (found : List Address) (r4 r6 : Result (BTreeSet (List ℕ) × Bool)) (own : SelfSelection)
    → ((s : BTreeSet (List ℕ)) (t : Bool)
        → r4 ≡ ok (s, t)
        → IsSelection (candidates found ([], [])).0 self_addr_max s t)
    → ((s : BTreeSet (List ℕ)) (t : Bool)
        → r6 ≡ ok (s, t)
        → IsSelection (candidates found ([], [])).1 self_addr_max s t)
    → both_families r4 r6 ≡ ok own
    → IsExempt found own
both_families-IsExempt found (err e) r6 own h4 h6 eq = ground arith
both_families-IsExempt found (ok r) (err e) own h4 h6 eq = ground arith
both_families-IsExempt found (ok (s4, t4)) (ok (s6, t6)) own h4 h6 eq =
    let same : own ≡ record { v4 = s4; v6 = s6; truncated = t4 || t6 } = ground arith in
    rw same (exempt found s4 s6 t4 t6 (h4 s4 t4 refl) (h6 s6 t6 refl))

-- Where `desired_self_addresses` succeeds, the IPv4 addresses kept are exactly the usable ones of the
-- dump, every IPv6 address that the dump shows once as usable and not private is kept, only usable
-- ones are, all of them unless the selection was truncated, and each family within 256 addresses.
pub desired_self_addresses-IsExempt :
    (found : List Address) (m : Manager) (own : SelfSelection)
    → (desired_self_addresses found m).0 ≡ ok own
    → IsExempt found own
unfolding desired_self_addresses
desired_self_addresses-IsExempt found m own h =
    let sorted = candidates-AreSorted found ([], []) (tt, tt) in
    both_families-IsExempt found _ _ own
      (select_self_addresses-IsSelection (candidates found ([], [])).0 _ sorted.0 self_addr_max)
      (select_self_addresses-IsSelection (candidates found ([], [])).1 _ sorted.1 self_addr_max) h
