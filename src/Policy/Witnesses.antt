-- ===== src/Policy/Witnesses.antt =====
-- Tests of the policy epochs, and their theorems at concrete inputs.
use flux_rs.Base.{◌≡◌, ◌↔◌, refl, not, some, [], ◌∷◌}
use flux_rs.Collections.BTreeMap.{BTreeMap, contains, get}
use flux_rs.Collections.Ord.{nat_ord}
use flux_rs.Cidr.{Cidr}
use flux_rs.Policy.Epoch.{
  PolicyEpoch, BypassTag, policy, reserved, blacklist, direct, captured, v4, cidr_ord, new,
  prefix_in, lpm, bypass_direct, observe_new_flow, committed,
}
use flux_rs.Policy.Windows.{add_then_subtract_windows}
use flux_rs.Policy.LongestPrefix.{IsLongest, lpm-IsLongest}
use flux_rs.Policy.Commit.{
  IsOrdered, last, add_then_subtract-committed, commit_all, commit_all-keeps,
}
use flux_rs.Policy.ThirdStates.{second, new_uid-third_state}

-- 8.8.8.0/24 and 8.0.0.0/8.
abbrev dns_net : Cidr
dns_net = record { addr = 0x0808_0800; prefix_len = 24 }

abbrev eight : Cidr
eight = record { addr = 0x0800_0000; prefix_len = 8 }

abbrev nets : BTreeMap Cidr BypassTag
nets = (eight, reserved) ∷ (dns_net, policy) ∷ []

abbrev old : PolicyEpoch
old = record (new blacklist) { selected = (10456, tt) ∷ [] }

abbrev desired : PolicyEpoch
desired = record (new blacklist) { selected = (10123, tt) ∷ []; bypass_v4 = (dns_net, policy) ∷ [] }

longest_wins : lpm 32 nets 0x0808_0808 ≡ some policy
unfolding lpm prefix_in
longest_wins = refl

lpm-IsLongest_example :
    (lpm 32 nets 0x0808_0808 ≡ some policy)
    ↔ ((c : Cidr) × (get c nets ≡ some policy) × IsLongest 32 0x0808_0808 nets c)
lpm-IsLongest_example = lpm-IsLongest 32 0x0808_0808 nets policy ((refl, tt), (tt, tt))

old-IsOrdered : IsOrdered old
old-IsOrdered = record {
  selected = (tt, tt);
  draining = tt;
  bypass_v4 = tt;
  bypass_v6 = tt;
  self_v4 = tt;
  self_v6 = tt;
}

desired-IsOrdered : IsOrdered desired
desired-IsOrdered = record {
  selected = (tt, tt);
  draining = tt;
  bypass_v4 = (tt, tt);
  bypass_v6 = tt;
  self_v4 = tt;
  self_v6 = tt;
}

add_then_subtract-committed_example :
    last old (add_then_subtract_windows old desired) ≡ committed old desired
add_then_subtract-committed_example =
    add_then_subtract-committed old desired old-IsOrdered desired-IsOrdered

commit_all-keeps_example :
    contains 10456 (commit_all old (desired ∷ old ∷ [])).draining
    ≡ not (contains 10456 (commit_all old (desired ∷ old ∷ [])).selected)
unfolding get
commit_all-keeps_example =
    commit_all-keeps old desired (old ∷ []) 10456 old-IsOrdered
      (desired-IsOrdered, (old-IsOrdered, tt)) refl

new_uid-third_state_example :
    (observe_new_flow old 10123 (v4 0x0808_0808) ≡ direct)
    × (observe_new_flow (committed old desired) 10123 (v4 0x0808_0808) ≡ direct)
    × (observe_new_flow (second old (add_then_subtract_windows old desired)) 10123 (v4 0x0808_0808)
        ≡ captured)
new_uid-third_state_example =
    new_uid-third_state old desired 10123 (v4 0x0808_0808) desired-IsOrdered (unfold get in refl)
      (unfold get in refl) (unfold bypass_direct lpm prefix_in get in refl)
      (unfold bypass_direct lpm prefix_in get in refl)
