-- ===== src/Dataplane/UidModes.antt =====
-- crates/fluxd/src/dataplane/platform.rs: `uid_modes` is a faithful table of the two UID sets.
use flux_rs.Base.{
  ℕ, ◌≡◌, refl, Bool, true, false, ◌==◌, Option, none, some, [], ◌∷◌, arith, if◌then◌else◌,
}
use flux_rs.Collections.Ord.{nat_ord}
use flux_rs.Collections.BTreeMap.{BTreeMap, BTreeSet, get, contains, insert, is_some, IsSorted, add}
use flux_rs.Collections.BTreeMap.Laws.{get-insert, IsSorted-insert, get-IsAbove, BTreeMap_ext}
use flux_rs.Policy.Epoch.{PolicyEpoch}
use flux_rs.Dataplane.{uid_selected, uid_draining}
use flux_rs.Dataplane.Epochs.{uids_of_mode, insert_all, uid_modes_from_epoch}

abbrev has_mode : ℕ → Option ℕ → Bool
has_mode mode none = false
has_mode mode (some m) = m == mode

pub get-uids_of_mode :
    (k mode : ℕ) (modes : BTreeMap ℕ ℕ) (out : BTreeSet ℕ)
    → IsSorted modes
    → get k (uids_of_mode mode modes out)
      ≡ (if has_mode mode (get k modes) then some tt else get k out)
unfolding uids_of_mode get
get-uids_of_mode k mode [] out s = refl
get-uids_of_mode k mode ((uid, m) ∷ modes) out s = ground (
  arith,
  nat_ord.cmp_eq k uid,
  get-uids_of_mode k mode modes out s.1,
  get-uids_of_mode k mode modes (add uid out) s.1,
  get-insert k uid tt out,
  get-IsAbove uid modes s.0,
)

pub IsSorted-uids_of_mode :
    (mode : ℕ) (modes : BTreeMap ℕ ℕ) (out : BTreeSet ℕ)
    → IsSorted out
    → IsSorted (uids_of_mode mode modes out)
unfolding uids_of_mode
IsSorted-uids_of_mode mode [] out s = s
IsSorted-uids_of_mode mode ((uid, m) ∷ modes) out s = ground (
  arith,
  IsSorted-uids_of_mode mode modes out s,
  IsSorted-uids_of_mode mode modes (add uid out) (IsSorted-insert uid tt out s),
)

get-insert_all :
    (k mode : ℕ) (s : BTreeSet ℕ) (out : BTreeMap ℕ ℕ)
    → get k (insert_all mode s out) ≡ (if contains k s then some mode else get k out)
unfolding insert_all get
get-insert_all k mode [] out = refl
get-insert_all k mode ((uid, u) ∷ s) out = ground (
  arith,
  nat_ord.cmp_eq k uid,
  get-insert_all k mode s (insert uid mode out),
  get-insert k uid mode out,
)

IsSorted-insert_all :
    (mode : ℕ) (s : BTreeSet ℕ) (out : BTreeMap ℕ ℕ)
    → IsSorted out
    → IsSorted (insert_all mode s out)
unfolding insert_all
IsSorted-insert_all mode [] out h = h
IsSorted-insert_all mode ((uid, u) ∷ s) out h =
    IsSorted-insert_all mode s (insert uid mode out) (IsSorted-insert uid mode out h)

pub IsSorted-uid_modes : (e : PolicyEpoch) → IsSorted (uid_modes_from_epoch e)
unfolding uid_modes_from_epoch
IsSorted-uid_modes e =
    IsSorted-insert_all uid_draining e.draining (insert_all uid_selected e.selected [])
      (IsSorted-insert_all uid_selected e.selected [] tt)

get-uid_modes :
    (k : ℕ) (e : PolicyEpoch)
    → get k (uid_modes_from_epoch e) ≡ (
        if contains k e.draining
        then some uid_draining
        else if contains k e.selected
        then some uid_selected
        else none)
unfolding uid_modes_from_epoch get
get-uid_modes k e = ground (
  arith,
  get-insert_all k uid_draining e.draining (insert_all uid_selected e.selected []),
  get-insert_all k uid_selected e.selected [],
)

unit_get : (o : Option (Unit {0})) → o ≡ (if is_some o then some tt else none)
unit_get none = refl
unit_get (some tt) = refl

-- No UID of the epoch is both selected and draining.
abbrev pub IsDisjoint : PolicyEpoch → Type 0
IsDisjoint e = (k : ℕ) → contains k e.selected ≡ true → contains k e.draining ≡ false

pub uid_modes-selected :
    (e : PolicyEpoch)
    → IsSorted e.selected
    → IsDisjoint e
    → uids_of_mode uid_selected (uid_modes_from_epoch e) [] ≡ e.selected
uid_modes-selected e s apart =
    BTreeMap_ext (uids_of_mode uid_selected (uid_modes_from_epoch e) []) e.selected
      (IsSorted-uids_of_mode uid_selected (uid_modes_from_epoch e) [] tt) s
      (λ k.
        unfold get in
        ground (
          arith,
          get-uids_of_mode k uid_selected (uid_modes_from_epoch e) [] (IsSorted-uid_modes e),
          get-uid_modes k e,
          unit_get (get k e.selected),
          apart k,
        ))

pub uid_modes-draining :
    (e : PolicyEpoch)
    → IsSorted e.draining
    → uids_of_mode uid_draining (uid_modes_from_epoch e) [] ≡ e.draining
uid_modes-draining e s =
    BTreeMap_ext (uids_of_mode uid_draining (uid_modes_from_epoch e) []) e.draining
      (IsSorted-uids_of_mode uid_draining (uid_modes_from_epoch e) [] tt) s
      (λ k.
        unfold get in
        ground (
          arith,
          get-uids_of_mode k uid_draining (uid_modes_from_epoch e) [] (IsSorted-uid_modes e),
          get-uid_modes k e,
          unit_get (get k e.draining),
        ))
