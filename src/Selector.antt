-- ===== src/Selector.antt =====
-- crates/flux-core/src/selector.rs: application selectors, Android UIDs, and packages.list.
pub mod Uids
pub mod Packages
mod Witnesses
use Prim.Native.Nat.Ordering.{lt, eq, gt}
use flux_rs.Base.{
  ℕ, zero, suc, ◌+◌, ◌*◌, ◌/◌, ◌%◌, Bool, true, false, not, ◌||◌, ◌&&◌, ltb, leb, ◌==◌,
  if◌then◌else◌, Option, none, some, List, [], ◌∷◌,
}
use flux_rs.Base.Text.{
  Text, is_empty, text_eq, contains_char, split_once, split_whitespace, lines, trim, parse_u32,
}
use flux_rs.Collections.TextOrd.{text_compare, text_ord}
use flux_rs.Collections.Ord.{nat_ord}
use flux_rs.Collections.BTreeMap.{BTreeMap, get, insert}

abbrev pub app_id_min : ℕ
app_id_min = 10000

abbrev pub app_id_max : ℕ
app_id_max = 19999

abbrev pub user_id_stride : ℕ
user_id_stride = 100000

abbrev pub user_id_max : ℕ
user_id_max = 999

pub data SelectorError : Type 0 where
  malformed unknown_package : Text → SelectorError
  user_id_out_of_range app_id_out_of_range : ℕ → SelectorError

pub data Result {ℓ} (A : Type ℓ) : Type ℓ where
  ok : A → Result A
  err : SelectorError → Result A

pub record Selection : Type 0 where
  pub user_id : ℕ
  pub package_name : Text
  pub uid : ℕ

pub record AppSelector : Type 0 where
  pub user_id : ℕ
  pub package_name : Text

abbrev pub checked_selector : Text → ℕ → Text → Result AppSelector
checked_selector text user_id package_name =
    if is_empty package_name || contains_char 58 package_name
    then err (malformed text)
    else if ltb user_id_max user_id
    then err (user_id_out_of_range user_id)
    else ok (record { user_id = user_id; package_name = package_name })

abbrev pub with_user : Text → Option ℕ → Text → Result AppSelector
with_user text none package_name = err (malformed text)
with_user text (some user_id) package_name = checked_selector text user_id package_name

abbrev pub of_pieces : Text → Text → Option (Text × Text) → Result AppSelector
of_pieces text trimmed none = checked_selector text 0 trimmed
of_pieces text trimmed (some (user, package_name)) = with_user text (parse_u32 user) package_name

unfoldable pub parse_selector : Text → Result AppSelector
parse_selector text =
    let trimmed = trim text in
    if is_empty trimmed
    then err (malformed text)
    else of_pieces text trimmed (split_once (58 ∷ []) trimmed)

-- The product does not overflow a `u32`: the user id is at most 999.
unfoldable pub compose_uid : ℕ → ℕ → Result ℕ
compose_uid user_id app_id =
    if ltb user_id_max user_id
    then err (user_id_out_of_range user_id)
    else if (app_id == 0) || leb user_id_stride app_id
    then err (app_id_out_of_range app_id)
    else ok ((user_id * user_id_stride + app_id) % 4294967296)

unfoldable pub is_system_app_id : ℕ → Bool
is_system_app_id app_id = not (leb app_id_min app_id && leb app_id app_id_max)

unfoldable pub decompose_uid : ℕ → ℕ × ℕ
decompose_uid uid = (uid / user_id_stride, uid % user_id_stride)

pub record PackageIndex : Type 0 where
  pub by_package : BTreeMap Text ℕ
  pub by_app_id : BTreeMap ℕ (List Text)

abbrev pub bucket_of : Option (List Text) → List Text
bucket_of none = []
bucket_of (some bucket) = bucket

abbrev pub has_package : Text → List Text → Bool
has_package package_name [] = false
has_package package_name (p ∷ ps) = text_eq p package_name || has_package package_name ps

abbrev pub push_back : List Text → Text → List Text
push_back [] p = p ∷ []
push_back (q ∷ qs) p = q ∷ push_back qs p

abbrev pub push_new : List Text → Text → List Text
push_new bucket package_name =
    if has_package package_name bucket then bucket else push_back bucket package_name

-- A line with a package name and a numeric UID.
abbrev pub record_package : PackageIndex → Text → ℕ → PackageIndex
record_package index package_name uid =
    let app_id = uid % user_id_stride in
    record {
      by_package = insert package_name app_id index.by_package;
      by_app_id =
          insert app_id (push_new (bucket_of (get app_id index.by_app_id)) package_name)
            index.by_app_id;
    }

abbrev pub record_if : PackageIndex → Text → Option ℕ → PackageIndex
record_if index package_name none = index
record_if index package_name (some uid) = record_package index package_name uid

-- The loop's body on the fields of a line.
unfoldable pub parse_line : PackageIndex → List Text → PackageIndex
parse_line index [] = index
parse_line index (package_name ∷ []) = index
parse_line index (package_name ∷ uid ∷ fields) = record_if index package_name (parse_u32 uid)

unfoldable pub parse_lines : PackageIndex → List Text → PackageIndex
unfolding parse_line
parse_lines index [] = index
parse_lines index (line ∷ ls) = parse_lines (parse_line index (split_whitespace line)) ls

-- `sort` of a bucket, by insertion.
abbrev pub insert_sorted : Text → List Text → List Text
insert_sorted p [] = p ∷ []
insert_sorted p (q ∷ qs) =
    let later = insert_sorted p qs in elim (text_compare p q) [ gt ↦ q ∷ later | _ ↦ p ∷ q ∷ qs ]

abbrev pub sort : List Text → List Text
sort [] = []
sort (p ∷ ps) = insert_sorted p (sort ps)

abbrev pub sort_buckets : BTreeMap ℕ (List Text) → BTreeMap ℕ (List Text)
sort_buckets [] = []
sort_buckets ((app_id, bucket) ∷ m) = (app_id, sort bucket) ∷ sort_buckets m

unfoldable pub parse_index : Text → PackageIndex
unfolding parse_lines
parse_index text =
    let index = parse_lines (record { by_package = []; by_app_id = [] }) (lines text) in
    record { by_package = index.by_package; by_app_id = sort_buckets index.by_app_id }

unfoldable pub app_id_of : PackageIndex → Text → Option ℕ
app_id_of index package_name = get package_name index.by_package

unfoldable pub shared_with : PackageIndex → ℕ → List Text
shared_with index app_id = bucket_of (get app_id index.by_app_id)

abbrev pub application_keys : BTreeMap ℕ (List Text) → List ℕ
application_keys [] = []
application_keys ((app_id, bucket) ∷ m) =
    if leb app_id_min app_id && leb app_id app_id_max
    then app_id ∷ application_keys m
    else application_keys m

unfoldable pub application_ids : PackageIndex → List ℕ
application_ids index = application_keys index.by_app_id

abbrev pub selected : AppSelector → Result ℕ → Result Selection
selected s (err e) = err e
selected s (ok uid) = ok (record { user_id = s.user_id; package_name = s.package_name; uid = uid })

abbrev pub resolve_app : AppSelector → Option ℕ → Result Selection
resolve_app s none = err (unknown_package s.package_name)
resolve_app s (some app_id) = selected s (compose_uid s.user_id app_id)

unfoldable pub resolve : PackageIndex → AppSelector → Result Selection
unfolding app_id_of
resolve index s = resolve_app s (app_id_of index s.package_name)
