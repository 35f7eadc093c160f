-- ===== src/Selector/Packages.antt =====
-- crates/flux-core/src/selector.rs: what the index of packages.list says, and what a selector resolves to.
use flux_rs.Base.{
  ℕ, ◌%◌, ◌≡◌, refl, sym, ap, ◌∙◌, true, ◌||◌, if◌then◌else◌, Option, none, some, List, [], ◌∷◌,
  arith,
}
use flux_rs.Base.Text.{Text, text_eq, text_eq_iff, parse_u32, split_whitespace, lines}
use flux_rs.Collections.Ord.{nat_ord, is_eq, compare-eq}
use flux_rs.Collections.TextOrd.{text_ord, text_compare, text_compare-eq}
use flux_rs.Collections.BTreeMap.{BTreeMap, get}
use flux_rs.Collections.BTreeMap.Laws.{get-insert}
use flux_rs.Selector.{
  Result, ok, err, PackageIndex, AppSelector, Selection, bucket_of, has_package, push_back,
  push_new, record_package, record_if, parse_line, parse_lines, insert_sorted, sort, sort_buckets,
  parse_index, app_id_of, shared_with, resolve, resolve_app, selected, compose_uid, decompose_uid,
  user_id_stride,
}
use flux_rs.Selector.Uids.{decompose_uid-compose_uid}

has_package-push_back :
    (p q : Text) (ps : List Text)
    → has_package p (push_back ps q) ≡ (has_package p ps || text_eq q p)
has_package-push_back p q [] = ground arith
has_package-push_back p q (r ∷ ps) = ground (arith, has_package-push_back p q ps)

has_package-push_new :
    (p q : Text) (ps : List Text)
    → has_package p (push_new ps q) ≡ (has_package p ps || text_eq q p)
has_package-push_new p q ps =
    ground (arith, has_package-push_back p q ps, text_eq_iff q p, text_eq_iff p q)

has_package-insert_sorted :
    (p q : Text) (ps : List Text)
    → has_package p (insert_sorted q ps) ≡ (text_eq q p || has_package p ps)
has_package-insert_sorted p q [] = ground arith
has_package-insert_sorted p q (r ∷ ps) = ground (arith, has_package-insert_sorted p q ps)

has_package-sort : (p : Text) (ps : List Text) → has_package p (sort ps) ≡ has_package p ps
has_package-sort p [] = refl
has_package-sort p (q ∷ ps) =
    has_package-insert_sorted p q (sort ps) ∙ ap (λ b. text_eq q p || b) (has_package-sort p ps)

get-sort_buckets :
    (a : ℕ) (m : BTreeMap ℕ (List Text))
    → bucket_of (get a (sort_buckets m)) ≡ sort (bucket_of (get a m))
unfolding get
get-sort_buckets a [] = refl
get-sort_buckets a ((b, bucket) ∷ m) = ground (arith, get-sort_buckets a m)

-- Every package is in the bucket of its application id.
abbrev pub IsListed : PackageIndex → Type 0
IsListed index =
    (p : Text) (a : ℕ)
    → get p index.by_package ≡ some a
    → has_package p (bucket_of (get a index.by_app_id)) ≡ true

record_package-IsListed :
    (index : PackageIndex) (q : Text) (uid : ℕ)
    → IsListed index
    → IsListed (record_package index q uid)
record_package-IsListed index q uid listed p a h =
    let app_id = uid % user_id_stride in
    let old = bucket_of (get app_id index.by_app_id) in
    let known : (if is_eq (text_compare p q) then some app_id else get p index.by_package)
        ≡ some a =
      sym (get-insert p q app_id index.by_package) ∙ h in
    rw (get-insert a app_id (push_new old q) index.by_app_id) (
      ground (
        arith,
        known,
        has_package-push_new p q old,
        text_compare-eq p q,
        text_eq_iff q p,
        compare-eq a app_id,
        listed p a,
      ))

parse_line-IsListed :
    (index : PackageIndex) (fields : List Text)
    → IsListed index
    → IsListed (parse_line index fields)
unfolding parse_line
parse_line-IsListed index [] listed = listed
parse_line-IsListed index (q ∷ []) listed = listed
parse_line-IsListed index (q ∷ uid ∷ fields) listed = recorded (parse_u32 uid)
  where
    recorded : (u : Option ℕ) → IsListed (record_if index q u)
    recorded none = listed
    recorded (some u) = record_package-IsListed index q u listed

parse_lines-IsListed :
    (index : PackageIndex) (ls : List Text) → IsListed index → IsListed (parse_lines index ls)
unfolding parse_lines
parse_lines-IsListed index [] listed = listed
parse_lines-IsListed index (line ∷ ls) listed =
    parse_lines-IsListed (parse_line index (split_whitespace line)) ls
      (parse_line-IsListed index (split_whitespace line) listed)

unlisted : IsListed (record { by_package = []; by_app_id = [] })
unfolding get
unlisted p a h = ground arith

-- Whatever packages.list holds, a package with an application id is listed among those that share it.
pub shared_with-parse_index :
    (text p : Text) (a : ℕ)
    → app_id_of (parse_index text) p ≡ some a
    → has_package p (shared_with (parse_index text) a) ≡ true
unfolding parse_index app_id_of shared_with
shared_with-parse_index text p a h =
    let start : PackageIndex = record { by_package = []; by_app_id = [] } in
    let index = parse_lines start (lines text) in
    let listed = parse_lines-IsListed start (lines text) unlisted p a h in
    rw (get-sort_buckets a index.by_app_id, has_package-sort p (bucket_of (get a index.by_app_id)))
      listed

selected-uid :
    (s : AppSelector) (r : Result ℕ) (sel : Selection) → selected s r ≡ ok sel → r ≡ ok sel.uid
selected-uid s (ok uid) sel h = ground arith
selected-uid s (err e) sel h = ground arith

-- A selector that resolves gives the UID of its user and of the application id of its package.
pub decompose_uid-resolve :
    (index : PackageIndex) (s : AppSelector) (sel : Selection) (app_id : ℕ)
    → app_id_of index s.package_name ≡ some app_id
    → resolve index s ≡ ok sel
    → decompose_uid sel.uid ≡ (s.user_id, app_id)
unfolding resolve
decompose_uid-resolve index s sel app_id known h =
    let chosen : selected s (compose_uid s.user_id app_id) ≡ ok sel =
      sym (ap (resolve_app s) known) ∙ h in
    (decompose_uid-compose_uid s.user_id app_id sel.uid
      (selected-uid s (compose_uid s.user_id app_id) sel chosen)).0
