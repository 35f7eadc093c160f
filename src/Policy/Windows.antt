-- ===== src/Policy/Windows.antt =====
-- crates/flux-core/src/policy_epoch.rs: the epochs that are visible while a policy is replaced,
-- under the epoch commit and under the add-then-subtract order.
use flux_rs.Base.{ℕ, ◌+◌, ◌-◌, List, [], ◌∷◌, leb, if◌then◌else◌}
use flux_rs.Collections.Ord.{nat_ord}
use flux_rs.Collections.BTreeMap.{
  BTreeSet, add, remove, contains, contains_key, difference, extend, retain,
}
use flux_rs.Policy.Epoch.{PolicyEpoch, cidr_ord, committed}

abbrev pub epoch_commit_windows : PolicyEpoch → PolicyEpoch → List PolicyEpoch
epoch_commit_windows from desired = from ∷ committed from desired ∷ []

-- The loop over `desired.selected`.
unfoldable pub select_all : BTreeSet ℕ → PolicyEpoch → PolicyEpoch
select_all [] live = live
select_all ((uid, u) ∷ s) live =
    select_all s
      (record live { selected = add uid live.selected; draining = remove uid live.draining })

-- The two loops over the desired prefixes.
abbrev pub add_prefixes : PolicyEpoch → PolicyEpoch → PolicyEpoch
add_prefixes desired live = record live {
  bypass_v4 = extend live.bypass_v4 desired.bypass_v4;
  bypass_v6 = extend live.bypass_v6 desired.bypass_v6;
}

abbrev pub add_self : PolicyEpoch → PolicyEpoch → PolicyEpoch
add_self desired live = record live {
  self_v4 = extend live.self_v4 desired.self_v4;
  self_v6 = extend live.self_v6 desired.self_v6;
}

abbrev pub set_mode : PolicyEpoch → PolicyEpoch → PolicyEpoch
set_mode desired live = record live { cidr_mode = desired.cidr_mode }

-- The loop over the UIDs to remove.
unfoldable pub drain_all : BTreeSet ℕ → PolicyEpoch → PolicyEpoch
drain_all [] live = live
drain_all ((uid, u) ∷ s) live =
    drain_all s
      (record live { selected = remove uid live.selected; draining = add uid live.draining })

abbrev pub drain_removed : PolicyEpoch → PolicyEpoch → PolicyEpoch
drain_removed desired live = drain_all (difference live.selected desired.selected) live

abbrev pub delete_stale : PolicyEpoch → PolicyEpoch → PolicyEpoch
delete_stale desired live = record live {
  bypass_v4 = retain (λ cidr. contains_key cidr desired.bypass_v4) live.bypass_v4;
  bypass_v6 = retain (λ cidr. contains_key cidr desired.bypass_v6) live.bypass_v6;
  self_v4 = retain (λ addr. contains addr desired.self_v4) live.self_v4;
  self_v6 = retain (λ addr. contains addr desired.self_v6) live.self_v6;
}

unfoldable pub add_then_subtract_windows : PolicyEpoch → PolicyEpoch → List PolicyEpoch
add_then_subtract_windows from desired =
    let uids = select_all desired.selected from in
    let prefixes = add_prefixes desired uids in
    let selves = add_self desired prefixes in
    let mode = set_mode desired selves in
    let drained = drain_removed desired mode in
    from ∷ uids ∷ prefixes ∷ selves ∷ mode ∷ drained ∷ delete_stale desired drained ∷ []

-- `old_n + new_n - shared` and `max(old_n, new_n)`.
abbrev pub add_then_subtract_peak_lpm : ℕ → ℕ → ℕ → ℕ
add_then_subtract_peak_lpm old_n new_n shared = old_n + new_n - shared

abbrev pub epoch_peak_live_lpm : ℕ → ℕ → ℕ
epoch_peak_live_lpm old_n new_n = if leb old_n new_n then new_n else old_n
