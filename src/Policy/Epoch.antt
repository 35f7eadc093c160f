-- ===== src/Policy/Epoch.antt =====
-- crates/flux-core/src/policy_epoch.rs: `PolicyEpoch`, the longest-prefix match and
-- `observe_new_flow`. As in the prefixes, both address families are one definition over the width.
use Prim.Native.Nat.{bit_and, Ordering}
use Prim.Native.Nat.Ordering.{lt, eq, gt}
use flux_rs.Base.{
  ℕ, ◌-◌, ◌≡◌, ◌↔◌, Bool, true, false, not, ◌&&◌, Option, none, some, [], ◌∷◌, ltb, ◌==◌,
  if◌then◌else◌, arith,
}
use flux_rs.Collections.Ord.{Ord, nat_ord, reverse}
use flux_rs.Collections.BTreeMap.{BTreeMap, BTreeSet, contains, extend, difference, remove_all}
use flux_rs.Cidr.{Cidr, max_word, shl}

pub data BypassTag : Type 0 where
  reserved policy : BypassTag

pub data CidrMode : Type 0 where
  blacklist whitelist : CidrMode

pub data DecisionMode : Type 0 where
  direct captured : DecisionMode

pub data Dest : Type 0 where
  v4 v6 : ℕ → Dest

-- `derive(Ord)` on the prefixes: the address, then the length.
abbrev pub lex : Ordering → Ordering → Ordering
lex eq second = second
lex lt second = lt
lex gt second = gt

abbrev pub cidr_cmp : Cidr → Cidr → Ordering
cidr_cmp a b = lex (nat_ord.cmp a.addr b.addr) (nat_ord.cmp a.prefix_len b.prefix_len)

pub cidr_cmp-eq : (a b : Cidr) → (cidr_cmp a b ≡ eq) ↔ (a ≡ b)
cidr_cmp-eq a b = ground arith

pub cidr_cmp-reverse : (a b : Cidr) → cidr_cmp b a ≡ reverse (cidr_cmp a b)
cidr_cmp-reverse a b = ground arith

pub cidr_cmp_trans : (a b c : Cidr) → cidr_cmp a b ≡ lt → cidr_cmp b c ≡ lt → cidr_cmp a c ≡ lt
cidr_cmp_trans a b c = ground arith

instance abbrev pub cidr_ord : Ord Cidr
cidr_ord = record {
  cmp = cidr_cmp;
  cmp_eq = cidr_cmp-eq;
  cmp_reverse = cidr_cmp-reverse;
  cmp_trans = cidr_cmp_trans;
}

pub record PolicyEpoch : Type 0 where
  pub cidr_mode : CidrMode
  pub selected : BTreeSet ℕ
  pub draining : BTreeSet ℕ
  pub bypass_v4 : BTreeMap Cidr BypassTag
  pub bypass_v6 : BTreeMap Cidr BypassTag
  pub self_v4 : BTreeSet ℕ
  pub self_v6 : BTreeSet ℕ

abbrev pub new : CidrMode → PolicyEpoch
new mode = record {
  cidr_mode = mode;
  selected = [];
  draining = [];
  bypass_v4 = [];
  bypass_v6 = [];
  self_v4 = [];
  self_v6 = [];
}

-- This file's own `mask32` and `mask128`.
unfoldable pub epoch_mask : ℕ → ℕ → ℕ
epoch_mask w prefix_len = if prefix_len == 0 then 0 else shl w (max_word w) (w - prefix_len)

-- `v4_in` and `v6_in`.
unfoldable pub prefix_in : ℕ → Cidr → ℕ → Bool
unfolding epoch_mask
prefix_in w cidr addr = bit_and addr (epoch_mask w cidr.prefix_len) == cidr.addr

abbrev pub is_longer : ℕ → Option (ℕ × BypassTag) → Bool
is_longer len none = true
is_longer len (some (best, tag)) = ltb best len

-- The loop of `lpm_v4` and `lpm_v6` over the entries, with `best` so far.
unfoldable pub lpm_loop :
    ℕ → ℕ → BTreeMap Cidr BypassTag → Option (ℕ × BypassTag) → Option (ℕ × BypassTag)
lpm_loop w addr [] best = best
lpm_loop w addr ((cidr, tag) ∷ m) best = lpm_loop w addr m (
    if prefix_in w cidr addr && is_longer cidr.prefix_len best
    then some (cidr.prefix_len, tag)
    else best)

abbrev pub tag_of : Option (ℕ × BypassTag) → Option BypassTag
tag_of none = none
tag_of (some (len, tag)) = some tag

unfoldable pub lpm : ℕ → BTreeMap Cidr BypassTag → ℕ → Option BypassTag
unfolding lpm_loop
lpm w m addr = tag_of (lpm_loop w addr m none)

abbrev pub lpm_v4 : BTreeMap Cidr BypassTag → ℕ → Option BypassTag
lpm_v4 = lpm 32

abbrev pub lpm_v6 : BTreeMap Cidr BypassTag → ℕ → Option BypassTag
lpm_v6 = lpm 128

-- What a match means for a new flow, by the direction of the policy entries.
abbrev pub hit_is_direct : CidrMode → Option BypassTag → Bool
hit_is_direct mode (some reserved) = true
hit_is_direct blacklist (some policy) = true
hit_is_direct whitelist (some policy) = false
hit_is_direct blacklist none = false
hit_is_direct whitelist none = true

unfoldable pub bypass_direct : PolicyEpoch → Dest → Bool
bypass_direct e (v4 addr) =
    if contains addr e.self_v4 then true else hit_is_direct e.cidr_mode (lpm_v4 e.bypass_v4 addr)
bypass_direct e (v6 addr) =
    if contains addr e.self_v6 then true else hit_is_direct e.cidr_mode (lpm_v6 e.bypass_v6 addr)

unfoldable pub observe_new_flow : PolicyEpoch → ℕ → Dest → DecisionMode
observe_new_flow e uid dest =
    if not (contains uid e.selected)
    then direct
    else if bypass_direct e dest
    then direct
    else captured

-- The epoch after a commit: the desired one, with the UIDs that left `selected` draining.
unfoldable pub committed : PolicyEpoch → PolicyEpoch → PolicyEpoch
committed from desired =
    let left = extend from.draining (difference from.selected desired.selected) in
    record {
      cidr_mode = desired.cidr_mode;
      selected = desired.selected;
      draining = remove_all left desired.selected;
      bypass_v4 = desired.bypass_v4;
      bypass_v6 = desired.bypass_v6;
      self_v4 = desired.self_v4;
      self_v6 = desired.self_v6;
    }
