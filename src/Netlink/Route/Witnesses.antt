-- ===== src/Netlink/Route/Witnesses.antt =====
-- A filter of the capture as a dump shows it, a rule and a route.
use flux_rs.Base.{◌≡◌, refl, true, false, some, List, [], ◌∷◌, ℕ, Bool, All, arith}
use flux_rs.Netlink.{ok}
use flux_rs.Netlink.Bytes.{drop, align4}
use flux_rs.Netlink.Attrs.{Attr, attrs, attrs_from, read_u32, read_cstr}
use flux_rs.Netlink.Route.{parse_rule, rule}
use flux_rs.Netlink.Route.Links.{positive_index}
use flux_rs.Netlink.Route.Filters.{Filter, FilterIdentity, parse_filter, matches}
use flux_rs.Netlink.Route.Ownership.{AreDistinct, IsFilterAttr, parse_filter-matches}
use flux_rs.Netlink.Route.Roundtrip.{wanted_rule, parse_rule-rule}

abbrev any : List ℕ → Bool
any text = true

abbrev lo : List ℕ
lo = b'l' ∷ b'o' ∷ []

abbrev tag : List ℕ
tag = 1 ∷ 2 ∷ 3 ∷ 4 ∷ 5 ∷ 6 ∷ 7 ∷ 8 ∷ []

-- Interface 2, handle 1, TC_H_EGRESS, preference 2, ETH_P_ALL; then the kind "bpf" and the options.
abbrev filter_message : List ℕ
filter_message =
    0 ∷ 0 ∷ 0 ∷ 0 ∷ 2 ∷ 0 ∷ 0 ∷ 0 ∷ 1 ∷ 0 ∷ 0 ∷ 0 ∷ 243 ∷ 255 ∷ 255 ∷ 255 ∷ 0 ∷ 3 ∷ 2 ∷ 0 ∷ 8 ∷ 0
    ∷ 1 ∷ 0 ∷ b'b' ∷ b'p' ∷ b'f' ∷ 0 ∷ 48 ∷ 0 ∷ 2 ∷ 128 ∷ 8 ∷ 0 ∷ 8 ∷ 0 ∷ 1 ∷ 0 ∷ 0 ∷ 0 ∷ 8 ∷ 0 ∷ 9
    ∷ 0 ∷ 0 ∷ 0 ∷ 0 ∷ 0 ∷ 12 ∷ 0 ∷ 10 ∷ 0 ∷ 1 ∷ 2 ∷ 3 ∷ 4 ∷ 5 ∷ 6 ∷ 7 ∷ 8 ∷ 8 ∷ 0 ∷ 11 ∷ 0 ∷ 42 ∷ 0
    ∷ 0 ∷ 0 ∷ 7 ∷ 0 ∷ 7 ∷ 0 ∷ b'l' ∷ b'o' ∷ 0 ∷ 0 ∷ []

abbrev own : Filter
own = record {
  ifindex = 2;
  handle = 1;
  parent = 0xfffffff3;
  priority = 2;
  protocol = 3;
  parts = record {
    chain = 0;
    kind = some (b'b' ∷ b'p' ∷ b'f' ∷ []);
    direct_action = true;
    bpf_flags = some 1;
    prog_id = some 42;
    prog_tag = some tag;
    prog_name = some lo;
    flags_gen = some 0;
    unknown_attrs = false;
    duplicate_attrs = false;
  };
}

abbrev identity : FilterIdentity
identity = record {
  ifindex = 2;
  parent = 0xfffffff3;
  handle = 1;
  chain = 0;
  priority = 2;
  protocol = 3;
  prog_id = 42;
  prog_tag = tag;
  prog_name = lo;
  flags_gen = 0;
}

filter_message-read : parse_filter any filter_message ≡ ok own
unfolding parse_filter read_u32 read_cstr positive_index attrs attrs_from align4
filter_message-read = refl

own-matches : matches identity own ≡ true
unfolding matches
own-matches = refl

parse_filter-matches_example :
    (more : List Attr) × (attrs (drop 20 filter_message) ≡ ok more)
    × AreDistinct [] more
    × All IsFilterAttr more
parse_filter-matches_example =
    parse_filter-matches any filter_message own identity filter_message-read own-matches

parse_rule-rule_example :
    parse_rule any (drop 16 (rule 7 32 true 10 100 2022 lo).bytes) ≡ ok (wanted_rule 10 100 2022 lo)
parse_rule-rule_example =
    parse_rule-rule any 7 32 10 100 2022 true lo (omega arith) (omega arith) (omega arith) refl refl
