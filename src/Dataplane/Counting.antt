-- ===== src/Dataplane/Counting.antt =====
-- crates/fluxd/src/dataplane/platform.rs: the counts of a policy, for the status and the control.
use flux_rs.Base.{ℕ, suc, ◌+◌, ◌==◌, if◌then◌else◌, [], ◌∷◌, length}
use flux_rs.Collections.BTreeMap.{BTreeMap}
use flux_rs.Dataplane.{Manager, PolicyCounts, Control, uid_selected, uid_draining}

abbrev pub count_mode : ℕ → BTreeMap ℕ ℕ → ℕ
count_mode mode [] = 0
count_mode mode ((uid, m) ∷ modes) =
    if m == mode then suc (count_mode mode modes) else count_mode mode modes

-- The counts are below 2 ^ 32: the tables are bounded by the policy's capacities.
unfoldable pub policy_counts : Manager → PolicyCounts
policy_counts m = record {
  apps_mode = m.apps_mode;
  cidr_mode = m.cidr_mode;
  interfaces_mode = m.interfaces_mode;
  selected = count_mode uid_selected m.uid_modes;
  draining = count_mode uid_draining m.uid_modes;
  bypass_v4 = length m.bypass_v4;
  bypass_v6 = length m.bypass_v6;
  self_addresses = length m.self_v4 + length m.self_v6;
}

-- The four counts of a control, from the policy in force.
abbrev pub with_counts : PolicyCounts → Control → Control
with_counts counts control = record control {
  selected_count = counts.selected;
  draining_count = counts.draining;
  bypass_v4_count = counts.bypass_v4;
  bypass_v6_count = counts.bypass_v6;
}
