-- ===== src/Netlink/Route/Roundtrip.antt =====
-- crates/fluxd/src/netlink/route.rs: the routes and rules that are requested are read as what they are.
use flux_rs.Base.{
  ℕ, ◌+◌, ◌*◌, ◌^◌, ◌<◌, ◌≡◌, refl, sym, ap, ◌∙◌, Bool, true, false, none, some, List, [], ◌∷◌,
  ◌++◌, length, length-append, All, arith,
}
use flux_rs.Netlink.{ok}
use flux_rs.Netlink.Bytes.{drop, le32, word32-le32}
use flux_rs.Netlink.Attrs.{
  MessageBuilder, new, attr_u32, attr_cstr, Attr, attrs, read_u32, read_cstr, split_nul,
  contains_zero,
}
use flux_rs.Netlink.Attrs.Roundtrip.{IsPlain, encode_all, attr_all-bytes, attrs-attr_all}
use flux_rs.Netlink.Route.{
  request_flags, for_each, Route, parse_route, route_attr, local_route, local_route_body, Rule,
  parse_rule, rule_attr, rule, rule_body,
}

attrs-encode_all :
    (more : List Attr)
    → All IsPlain more
    → 2 ^ 16 * length more < 2 ^ 63
    → attrs (encode_all more) ≡ ok more
attrs-encode_all more h m =
    let b : MessageBuilder = record { bytes = []; nested = [] } in
    ap attrs (sym (attr_all-bytes b more h refl (omega arith)))
    ∙ attrs-attr_all b more h refl (omega arith)

read_u32-le32 :
    (kind v : ℕ)
    → v < 2 ^ 32
    → read_u32 (record { kind = kind; nested = false; payload = le32 v }) ≡ ok v
unfolding read_u32
read_u32-le32 kind v h = ap ok (word32-le32 v h)

split_nul-append : (text : List ℕ) → split_nul (text ++ 0 ∷ []) ≡ some text
split_nul-append [] = refl
split_nul-append (x ∷ []) = refl
split_nul-append (x ∷ y ∷ ys) = rw (split_nul-append (y ∷ ys)) refl

read_cstr-append :
    (is_utf8 : List ℕ → Bool) (kind : ℕ) (text : List ℕ)
    → contains_zero text ≡ false
    → is_utf8 text ≡ true
    → read_cstr is_utf8 (record { kind = kind; nested = false; payload = text ++ 0 ∷ [] }) ≡ ok text
unfolding read_cstr
read_cstr-append is_utf8 kind text z u = rw (split_nul-append text, z, u) refl

-- The local route that `local_route` requests.
abbrev pub wanted_route : ℕ → ℕ → ℕ → ℕ → Route
wanted_route family table protocol lo_ifindex = record {
  family = family;
  dst_len = 0;
  table = table;
  protocol = protocol;
  scope = 254;
  kind = 2;
  oif = some lo_ifindex;
  has_dst = false;
  metric = none;
  preference = none;
  extra_attrs = false;
  extra_attr_kinds = [];
}

abbrev route_attrs : ℕ → ℕ → List Attr
route_attrs table lo_ifindex =
    record { kind = 15; nested = false; payload = le32 table }
    ∷ record { kind = 4; nested = false; payload = le32 lo_ifindex }
    ∷ []

u32-IsPlain :
    (kind v : ℕ)
    → kind < 2 ^ 14
    → IsPlain (record { kind = kind; nested = false; payload = le32 v })
u32-IsPlain kind v h = record { low = h; flat = refl; short = omega arith }

route_body-read :
    (family protocol : ℕ) (rest : List ℕ) (more : List Attr)
    → attrs rest ≡ ok more
    → parse_route (local_route_body family protocol ++ rest)
      ≡ for_each route_attr [] more (record (wanted_route family 0 protocol 0) { oif = none })
unfolding parse_route
route_body-read family protocol rest more h = rw h refl

route_attrs-read :
    (family table protocol lo_ifindex : ℕ)
    → table < 2 ^ 32
    → lo_ifindex < 2 ^ 32
    → for_each route_attr []
        (route_attrs table lo_ifindex)
        (record (wanted_route family 0 protocol 0) { oif = none })
      ≡ ok (wanted_route family table protocol lo_ifindex)
route_attrs-read family table protocol lo_ifindex t l =
    rw (read_u32-le32 15 table t, read_u32-le32 4 lo_ifindex l) refl

-- The payload of the request that adds or deletes a local route, read as a route of a dump, is that
-- route: with its family, protocol, table and interface, and with no attribute beyond the contract.
pub parse_route-local_route :
    (seq kind family table protocol lo_ifindex : ℕ) (create : Bool)
    → table < 2 ^ 32
    → lo_ifindex < 2 ^ 32
    → parse_route (drop 16 (local_route seq kind create family table protocol lo_ifindex).bytes)
      ≡ ok (wanted_route family table protocol lo_ifindex)
unfolding parse_route local_route new attr_u32
parse_route-local_route seq kind family table protocol lo_ifindex create t l =
    let b = new kind (request_flags create) seq (local_route_body family protocol) in
    let more = route_attrs table lo_ifindex in
    let plain : All IsPlain more =
      (u32-IsPlain 15 table (omega arith), (u32-IsPlain 4 lo_ifindex (omega arith), tt)) in
    ap (λ bytes. parse_route (drop 16 bytes)) (attr_all-bytes b more plain refl (omega arith))
    ∙ (route_body-read family protocol (encode_all more) more
          (attrs-encode_all more plain (omega arith))
        ∙ route_attrs-read family table protocol lo_ifindex t l)

-- The rule that `rule` requests.
abbrev pub wanted_rule : ℕ → ℕ → ℕ → List ℕ → Rule
wanted_rule family priority table iif = record {
  family = family;
  dst_len = 0;
  src_len = 0;
  table = table;
  action = 1;
  priority = some priority;
  iif_name = some iif;
  suppress_prefix_len = none;
  protocol = none;
  extra_attrs = false;
  extra_attr_kinds = [];
}

abbrev rule_attrs : ℕ → ℕ → List ℕ → List Attr
rule_attrs priority table iif =
    record { kind = 6; nested = false; payload = le32 priority }
    ∷ record { kind = 15; nested = false; payload = le32 table }
    ∷ record { kind = 3; nested = false; payload = iif ++ 0 ∷ [] }
    ∷ []

abbrev bare_rule : ℕ → Rule
bare_rule family = record (wanted_rule family 0 0 []) { priority = none; iif_name = none }

rule_body-read :
    (is_utf8 : List ℕ → Bool) (family : ℕ) (rest : List ℕ) (more : List Attr)
    → attrs rest ≡ ok more
    → parse_rule is_utf8 (rule_body family ++ rest)
      ≡ for_each (rule_attr is_utf8) [] more (bare_rule family)
unfolding parse_rule
rule_body-read is_utf8 family rest more h = rw h refl

rule_attrs-read :
    (is_utf8 : List ℕ → Bool) (family priority table : ℕ) (iif : List ℕ)
    → priority < 2 ^ 32
    → table < 2 ^ 32
    → contains_zero iif ≡ false
    → is_utf8 iif ≡ true
    → for_each (rule_attr is_utf8) [] (rule_attrs priority table iif) (bare_rule family)
      ≡ ok (wanted_rule family priority table iif)
rule_attrs-read is_utf8 family priority table iif p t z u =
    rw (read_u32-le32 6 priority p, read_u32-le32 15 table t, read_cstr-append is_utf8 3 iif z u)
      refl

-- The payload of the request that adds or deletes a rule, read as a rule of a dump, is that rule: with
-- its family, priority, table and interface, whose name is UTF-8 without a zero and fits 16 bits with its
-- header, and with no attribute beyond the contract.
pub parse_rule-rule :
    (is_utf8 : List ℕ → Bool) (seq kind family priority table : ℕ) (create : Bool) (iif : List ℕ)
    → priority < 2 ^ 32
    → table < 2 ^ 32
    → 5 + length iif < 2 ^ 16
    → contains_zero iif ≡ false
    → is_utf8 iif ≡ true
    → parse_rule is_utf8 (drop 16 (rule seq kind create family priority table iif).bytes)
      ≡ ok (wanted_rule family priority table iif)
unfolding parse_rule rule new attr_u32 attr_cstr
parse_rule-rule is_utf8 seq kind family priority table create iif p t n z u =
    let b = new kind (request_flags create) seq (rule_body family) in
    let more = rule_attrs priority table iif in
    let plain : All IsPlain more = (
      u32-IsPlain 6 priority (omega arith),
      (
        u32-IsPlain 15 table (omega arith),
        (
          record {
            low = omega arith;
            flat = refl;
            short = omega (arith, length-append iif (0 ∷ []));
          },
          tt,
        ),
      ),
    ) in
    ap (λ bytes. parse_rule is_utf8 (drop 16 bytes))
      (attr_all-bytes b more plain refl (omega arith))
    ∙ (rule_body-read is_utf8 family (encode_all more) more
          (attrs-encode_all more plain (omega arith))
        ∙ rule_attrs-read is_utf8 family priority table iif p t z u)
