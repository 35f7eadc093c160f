-- ===== src/Dataplane/Addresses.antt =====
-- crates/fluxd/src/dataplane/platform.rs: the device's own addresses that are never captured.
pub mod Selection
pub mod Exemption
use Prim.Native.Nat.{bit_and}
use flux_rs.Base.{
  ℕ, zero, suc, ◌+◌, ◌-◌, Bool, true, false, not, ◌&&◌, ◌||◌, ltb, leb, ◌==◌, if◌then◌else◌, Option,
  none, some, List, [], ◌∷◌, length, saturating_add, u64_max,
}
use flux_rs.Base.Text.{all}
use flux_rs.Collections.TextOrd.{text_ord}
use flux_rs.Collections.BTreeMap.{BTreeMap, BTreeSet, get, insert, retain, contains_key, add}
use flux_rs.Dataplane.{Result, ok, err, capacity_self_addr, Manager}

-- `netlink::Address`.
pub record Address : Type 0 where
  pub ifindex : ℕ
  pub family : ℕ
  pub prefix_len : ℕ
  pub scope : ℕ
  pub flags : ℕ
  pub bytes : List ℕ

abbrev pub af_inet : ℕ
af_inet = 2

abbrev pub af_inet6 : ℕ
af_inet6 = 10

-- `IFA_F_TENTATIVE | IFA_F_DADFAILED`, and `IFA_F_SECONDARY_TEMPORARY | IFA_F_STABLE_PRIVACY`.
abbrev pub unusable_flags : ℕ
unusable_flags = 0x48

abbrev pub privacy_flags : ℕ
privacy_flags = 0x801

unfoldable pub is_privacy_address : ℕ → ℕ → Bool
is_privacy_address family flags = (family == af_inet6) && not (bit_and flags privacy_flags == 0)

abbrev pub first : List ℕ → ℕ
first [] = 0
first (b ∷ bs) = b

-- `is_unspecified() || is_multicast()` of the two address types.
abbrev pub is_special_v4 : List ℕ → Bool
is_special_v4 bytes = all (λ b. b == 0) bytes || (leb 224 (first bytes) && leb (first bytes) 239)

abbrev pub is_special_v6 : List ℕ → Bool
is_special_v6 bytes = all (λ b. b == 0) bytes || (first bytes == 255)

-- `entry(bytes).and_modify(|existing| *existing &= privacy).or_insert(privacy)`; a v4 address is
-- never a privacy address.
abbrev pub and_privacy : Option Bool → Bool → Bool
and_privacy none privacy = privacy
and_privacy (some existing) privacy = existing && privacy

abbrev pub Candidates : Type 0
Candidates = BTreeMap (List ℕ) Bool

abbrev pub note_address : List ℕ → Bool → Candidates → Candidates
note_address bytes privacy c = insert bytes (and_privacy (get bytes c) privacy) c

-- The body of the loop over the addresses of the snapshot.
unfoldable pub add_candidate : Address → Candidates × Candidates → Candidates × Candidates
unfolding is_privacy_address
add_candidate a (v4, v6) =
    if not (bit_and a.flags unusable_flags == 0)
    then (v4, v6)
    else if (a.family == af_inet) && (length a.bytes == 4)
    then (if is_special_v4 a.bytes then (v4, v6) else (note_address a.bytes false v4, v6))
    else if (a.family == af_inet6) && (length a.bytes == 16)
    then (if is_special_v6 a.bytes
        then (v4, v6)
        else (v4, note_address a.bytes (is_privacy_address a.family a.flags) v6))
    else (v4, v6)

unfoldable pub candidates : List Address → Candidates × Candidates → Candidates × Candidates
unfolding add_candidate
candidates [] found = found
candidates (a ∷ rest) found = candidates rest (add_candidate a found)

-- The addresses not seen before get the next ticks, in key order.
unfoldable pub see_new : Candidates → BTreeMap (List ℕ) ℕ × ℕ → BTreeMap (List ℕ) ℕ × ℕ
see_new [] (seen, tick) = (seen, tick)
see_new ((a, p) ∷ c) (seen, tick) =
    let next = saturating_add u64_max tick 1 in
    see_new c (if contains_key a seen then (seen, tick) else (insert a next seen, next))

unfoldable pub stable_of : Candidates → BTreeSet (List ℕ) → BTreeSet (List ℕ)
stable_of [] out = out
stable_of ((a, privacy) ∷ c) out = stable_of c (if privacy then out else add a out)

abbrev pub seen_at : Option ℕ → ℕ
seen_at none = 0
seen_at (some tick) = tick

-- The privacy addresses, in key order, with the tick at which each was first seen.
abbrev pub privacy_of : BTreeMap (List ℕ) ℕ → Candidates → List (ℕ × List ℕ)
privacy_of seen [] = []
privacy_of seen ((a, privacy) ∷ c) =
    if privacy then (seen_at (get a seen), a) ∷ privacy_of seen c else privacy_of seen c

-- `sort_unstable` by the reversed tick and then the address: a later tick first, and the address
-- order, in which the list comes, kept among equal ones.
abbrev pub insert_newest : ℕ × List ℕ → List (ℕ × List ℕ) → List (ℕ × List ℕ)
insert_newest e [] = e ∷ []
insert_newest e (f ∷ fs) = if ltb e.0 f.0 then f ∷ insert_newest e fs else e ∷ f ∷ fs

abbrev pub newest_first : List (ℕ × List ℕ) → List (ℕ × List ℕ)
newest_first [] = []
newest_first (e ∷ es) = insert_newest e (newest_first es)

-- `selected.extend(privacy.take(available))`.
unfoldable pub add_first : ℕ → List (ℕ × List ℕ) → BTreeSet (List ℕ) → BTreeSet (List ℕ)
add_first zero es out = out
add_first (suc n) [] out = out
add_first (suc n) ((tick, a) ∷ es) out = add_first n es (add a out)

unfoldable pub select_self_addresses :
    Candidates → BTreeMap (List ℕ) ℕ → ℕ → Result (BTreeSet (List ℕ) × Bool)
unfolding stable_of add_first
select_self_addresses c seen capacity =
    let stable = stable_of c [] in
    let privacy = newest_first (privacy_of seen c) in
    let available = capacity - length stable in
    if ltb capacity (length stable)
    then err capacity_self_addr
    else ok (add_first available privacy stable, ltb available (length privacy))

pub record SelfSelection : Type 0 where
  pub v4 : BTreeSet (List ℕ)
  pub v6 : BTreeSet (List ℕ)
  pub truncated : Bool

abbrev pub self_addr_max : ℕ
self_addr_max = 256

-- What the manager remembers of the candidates: when each address was first seen.
unfoldable pub note_seen : Candidates → Candidates → Manager → Manager
unfolding see_new
note_seen v4 v6 m =
    let after_v4 = see_new v4 (retain (λ a. contains_key a v4) m.address_seen_v4, m.address_tick) in
    let after_v6 = see_new v6 (retain (λ a. contains_key a v6) m.address_seen_v6, after_v4.1) in
    record m {
      address_seen_v4 = after_v4.0;
      address_seen_v6 = after_v6.0;
      address_tick = after_v6.1;
    }

abbrev pub both_families :
    Result (BTreeSet (List ℕ) × Bool) → Result (BTreeSet (List ℕ) × Bool) → Result SelfSelection
both_families (err e) r = err e
both_families (ok v4) (err e) = err e
both_families (ok (v4, cut_v4)) (ok (v6, cut_v6)) =
    ok (record { v4 = v4; v6 = v6; truncated = cut_v4 || cut_v6 })

unfoldable pub desired_self_addresses : List Address → Manager → Result SelfSelection × Manager
unfolding candidates note_seen select_self_addresses
desired_self_addresses found m =
    let c = candidates found ([], []) in
    let noted = note_seen c.0 c.1 m in
    (
      both_families (select_self_addresses c.0 noted.address_seen_v4 self_addr_max)
          (select_self_addresses c.1 noted.address_seen_v6 self_addr_max),
      noted,
    )
