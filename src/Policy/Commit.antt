-- ===== src/Policy/Commit.antt =====
-- What a commit does to the UIDs, and that the add-then-subtract order ends where it does.
use flux_rs.Base.{
  ℕ, ◌≡◌, refl, Bool, true, not, ◌&&◌, ◌||◌, Option, none, some, List, [], ◌∷◌, if◌then◌else◌, All,
  arith,
}
use flux_rs.Collections.Ord.{Ord, nat_ord}
use flux_rs.Collections.BTreeMap.{
  BTreeMap, BTreeSet, get, contains, contains_key, is_some, IsSorted, extend, difference,
  remove_all, retain,
}
use flux_rs.Collections.BTreeMap.Laws.{
  get-retain, get-extend, get-remove_all, IsSorted-retain, IsSorted-extend, IsSorted-remove_all,
  BTreeMap_ext,
}
use flux_rs.Policy.Epoch.{PolicyEpoch, cidr_ord, committed}
use flux_rs.Policy.Windows.{
  add_then_subtract_windows, select_all, add_prefixes, add_self, set_mode, drain_all,
}

-- Every collection of an epoch is in key order, as `BTreeSet` and `BTreeMap` keep it.
pub record IsOrdered (e : PolicyEpoch) : Type 0 where
  pub selected : IsSorted e.selected
  pub draining : IsSorted e.draining
  pub bypass_v4 : IsSorted e.bypass_v4
  pub bypass_v6 : IsSorted e.bypass_v6
  pub self_v4 : IsSorted e.self_v4
  pub self_v6 : IsSorted e.self_v6

-- A member of a set is found with the unit: a lookup is decided by membership.
get_of_contains : (k : ℕ) (s : BTreeSet ℕ) → get k s ≡ (if contains k s then some tt else none)
get_of_contains k s = go (get k s)
  where
    go : (o : Option (Unit {0})) → o ≡ (if is_some o then some tt else none)
    go none = refl
    go (some tt) = refl

-- After a commit exactly the desired UIDs are selected, and a UID drains exactly when it is not
-- desired and was selected or draining before: no UID is forgotten, and none is in both sets.
pub committed-uids :
    (from desired : PolicyEpoch) (uid : ℕ)
    → IsOrdered from
    → (contains uid (committed from desired).selected ≡ contains uid desired.selected)
      × (contains uid (committed from desired).draining ≡ (
          not (contains uid desired.selected)
          && (contains uid from.draining || contains uid from.selected)))
unfolding committed
committed-uids from desired uid h = (refl, draining)
  where
    draining : contains uid (committed from desired).draining ≡ (
        not (contains uid desired.selected)
        && (contains uid from.draining || contains uid from.selected))
    draining = ground (
      arith,
      get-remove_all uid (extend from.draining (difference from.selected desired.selected))
          desired.selected,
      get-extend uid from.draining (difference from.selected desired.selected)
          (IsSorted-retain (λ k. not (contains k desired.selected)) from.selected h.selected),
      get-retain uid (λ k. not (contains k desired.selected)) from.selected,
    )

-- The loops over UIDs, as operations on the two sets.
pub select_all_lem :
    (s : BTreeSet ℕ) (live : PolicyEpoch)
    → select_all s live
      ≡ record live { selected = extend live.selected s; draining = remove_all live.draining s }
unfolding select_all extend remove_all
select_all_lem [] live = refl
select_all_lem ((uid, tt) ∷ s) live = select_all_lem s _

drain_all_lem :
    (s : BTreeSet ℕ) (live : PolicyEpoch)
    → drain_all s live
      ≡ record live { selected = remove_all live.selected s; draining = extend live.draining s }
unfolding drain_all extend remove_all
drain_all_lem [] live = refl
drain_all_lem ((uid, tt) ∷ s) live = drain_all_lem s _

-- Adding the desired entries and then dropping the keys that are not desired leaves the desired map.
module _ {ℓ} {K : Type ℓ} {V : Type 0} ⦃o : Ord K⦄ where
  retain-extend :
      (from desired : BTreeMap K V)
      → IsSorted from
      → IsSorted desired
      → retain (λ k. contains_key k desired) (extend from desired) ≡ desired
  retain-extend from desired s t =
      BTreeMap_ext (retain (λ k. contains_key k desired) (extend from desired)) desired
        (IsSorted-retain _ (extend from desired) (IsSorted-extend from desired s)) t
        (λ k. ground (
          arith,
          get-retain k (λ j. contains_key j desired) (extend from desired),
          get-extend k from desired t,
        ))

module _ (f d : BTreeSet ℕ) (sf : IsSorted f) (sd : IsSorted d) where
  abbrev both : BTreeSet ℕ
  both = extend f d

  sboth : IsSorted both
  sboth = IsSorted-extend f d sf

  get_removed :
      (k : ℕ) → get k (difference both d) ≡ (if not (contains k d) then get k both else none)
  get_removed k = get-retain k (λ j. not (contains j d)) both

  -- The selected set after the add and drain loops.
  selected_final : remove_all both (difference both d) ≡ d
  selected_final =
      BTreeMap_ext (remove_all both (difference both d)) d
        (IsSorted-remove_all both (difference both d) sboth) sd
        (λ k.
          ground
            (arith, get-remove_all k both (difference both d), get_removed k, get-extend k f d sd))

  -- The draining set after them is that of the commit.
  draining_final :
      (dr : BTreeSet ℕ)
      → IsSorted dr
      → extend (remove_all dr d) (difference both d) ≡ remove_all (extend dr (difference f d)) d
  draining_final dr sdr =
      BTreeMap_ext (extend (remove_all dr d) (difference both d))
        (remove_all (extend dr (difference f d)) d)
        (IsSorted-extend (remove_all dr d) (difference both d) (IsSorted-remove_all dr d sdr))
        (IsSorted-remove_all (extend dr (difference f d)) d
          (IsSorted-extend dr (difference f d) sdr))
        (λ k. ground (
          arith,
          get-extend k (remove_all dr d) (difference both d) (IsSorted-retain _ both sboth),
          get-remove_all k dr d,
          get_removed k,
          get-extend k f d sd,
          get-remove_all k (extend dr (difference f d)) d,
          get-extend k dr (difference f d) (IsSorted-retain _ f sf),
          get-retain k (λ j. not (contains j d)) f,
        ))

abbrev pub last {ℓ} : {A : Type ℓ} → A → List A → A
last x [] = x
last x (y ∷ ys) = last y ys

-- The live epoch after the four phases that only add, its two UID sets in closed form.
abbrev grown : PolicyEpoch → PolicyEpoch → PolicyEpoch
grown from desired =
    let uids : PolicyEpoch = record from {
      selected = extend from.selected desired.selected;
      draining = remove_all from.draining desired.selected;
    } in
    set_mode desired (add_self desired (add_prefixes desired uids))

-- The last window of the add-then-subtract order is the epoch that the commit publishes at once.
pub add_then_subtract-committed :
    (from desired : PolicyEpoch)
    → IsOrdered from
    → IsOrdered desired
    → last from (add_then_subtract_windows from desired) ≡ committed from desired
unfolding add_then_subtract_windows committed
add_then_subtract-committed from desired hf hd =
    rw
      (
        select_all_lem desired.selected from,
        drain_all_lem (difference union desired.selected) (grown from desired),
      )
      (λ i. record {
        cidr_mode = desired.cidr_mode;
        selected = selected_final from.selected desired.selected hf.selected hd.selected i;
        draining =
            draining_final from.selected desired.selected hf.selected hd.selected from.draining
              hf.draining i;
        bypass_v4 = retain-extend from.bypass_v4 desired.bypass_v4 hf.bypass_v4 hd.bypass_v4 i;
        bypass_v6 = retain-extend from.bypass_v6 desired.bypass_v6 hf.bypass_v6 hd.bypass_v6 i;
        self_v4 = retain-extend from.self_v4 desired.self_v4 hf.self_v4 hd.self_v4 i;
        self_v6 = retain-extend from.self_v6 desired.self_v6 hf.self_v6 hd.self_v6 i;
      })
  where
    union : BTreeSet ℕ
    union = extend from.selected desired.selected

-- A UID that the data plane still has to know: selected, or draining until the next boot.
abbrev pub is_known : ℕ → PolicyEpoch → Bool
is_known uid e = contains uid e.selected || contains uid e.draining

-- The policies committed one after the other within a boot.
unfoldable pub commit_all : PolicyEpoch → List PolicyEpoch → PolicyEpoch
commit_all e [] = e
commit_all e (d ∷ ds) = commit_all (committed e d) ds

pub committed-IsOrdered :
    (from desired : PolicyEpoch)
    → IsOrdered from
    → IsOrdered desired
    → IsOrdered (committed from desired)
unfolding committed
committed-IsOrdered from desired hf hd = record {
  selected = hd.selected;
  draining =
      IsSorted-remove_all (extend from.draining (difference from.selected desired.selected))
        desired.selected
        (IsSorted-extend from.draining (difference from.selected desired.selected) hf.draining);
  bypass_v4 = hd.bypass_v4;
  bypass_v6 = hd.bypass_v6;
  self_v4 = hd.self_v4;
  self_v6 = hd.self_v6;
}

-- However many policies are committed, a UID that was known stays selected or draining, and
-- afterwards it is not both.
pub commit_all-keeps :
    (e d : PolicyEpoch) (ds : List PolicyEpoch) (uid : ℕ)
    → IsOrdered e
    → All IsOrdered (d ∷ ds)
    → is_known uid e ≡ true
    → contains uid (commit_all e (d ∷ ds)).draining
      ≡ not (contains uid (commit_all e (d ∷ ds)).selected)
unfolding commit_all
commit_all-keeps e d [] uid h hs known =
    let (same, drains) = committed-uids e d uid h in ground (arith, same, drains, known)
commit_all-keeps e d (d' ∷ ds) uid h hs known =
    let (same, drains) = committed-uids e d uid h in
    commit_all-keeps (committed e d) d' ds uid (committed-IsOrdered e d h hs.0) hs.1
      (ground (arith, same, drains, known))
