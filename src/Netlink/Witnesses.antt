-- ===== src/Netlink/Witnesses.antt =====
-- Concrete messages and datagrams.
use flux_rs.Base.{◌≡◌, ◌↔◌, refl, true, false, some, [], ◌∷◌, ◌++◌, length, arith}
use flux_rs.Netlink.{RawMessage, ok}
use flux_rs.Netlink.Bytes.{drop, align4}
use flux_rs.Netlink.Attrs.{Attr, MessageBuilder, new, attrs, finish}
use flux_rs.Netlink.Attrs.Roundtrip.{IsPlain, attr_all, encode_all, attrs-attr_all}
use flux_rs.Netlink.Datagram.{parse_datagram}
use flux_rs.Netlink.Datagram.Roundtrip.{encode_message, parse_datagram-finish}
use flux_rs.Netlink.Dump.{complete, feed_dump}
use flux_rs.Netlink.Dump.Completion.{IsComplete, feed_dump-complete_iff}
use flux_rs.Netlink.Socket.{RequestSocket}

abbrev link : RawMessage
link = record { kind = 16; flags = 2; seq = 7; pid = 0; payload = 1 ∷ 2 ∷ 3 ∷ 4 ∷ [] }

abbrev stray : RawMessage
stray = record { kind = 16; flags = 2; seq = 6; pid = 90; payload = [] }

abbrev last : RawMessage
last = record { kind = 3; flags = 2; seq = 7; pid = 0; payload = 0 ∷ 0 ∷ 0 ∷ 0 ∷ [] }

-- IFLA_IFNAME "lo" and IFLA_MTU 1500.
abbrev name : Attr
name = record { kind = 3; nested = false; payload = 108 ∷ 111 ∷ 0 ∷ [] }

abbrev mtu : Attr
mtu = record { kind = 4; nested = false; payload = 220 ∷ 5 ∷ 0 ∷ 0 ∷ [] }

name-IsPlain : IsPlain name
name-IsPlain = record { low = omega arith; flat = refl; short = omega arith }

mtu-IsPlain : IsPlain mtu
mtu-IsPlain = record { low = omega arith; flat = refl; short = omega arith }

feed_dump-complete_iff_example :
    (feed_dump [] (link ∷ last ∷ []) false ≡ ok (complete (link ∷ [])))
    ↔ ((false ≡ false) × IsComplete [] (link ∷ last ∷ []) (link ∷ []))
feed_dump-complete_iff_example = feed_dump-complete_iff [] (link ∷ last ∷ []) (link ∷ []) false

abbrev request : MessageBuilder
request = record { bytes = 0 ∷ 0 ∷ 0 ∷ 0 ∷ []; nested = [] }

attrs-attr_all_example :
    attrs (drop (length request.bytes) (attr_all request (name ∷ mtu ∷ [])).bytes)
    ≡ ok (name ∷ mtu ∷ [])
attrs-attr_all_example =
    attrs-attr_all request (name ∷ mtu ∷ []) (name-IsPlain, (mtu-IsPlain, tt)) refl (omega arith)

parse_datagram-finish_example :
    (finish (attr_all (new 18 5 7 (1 ∷ 2 ∷ 3 ∷ 4 ∷ [])) (mtu ∷ []))
      ≡ some (encode_message 18 5 7 ((1 ∷ 2 ∷ 3 ∷ 4 ∷ []) ++ encode_all (mtu ∷ []))))
    × (parse_datagram (encode_message 18 5 7 ((1 ∷ 2 ∷ 3 ∷ 4 ∷ []) ++ encode_all (mtu ∷ [])))
        ≡ ok (
            record {
              kind = 18;
              flags = 5;
              seq = 7;
              pid = 0;
              payload = (1 ∷ 2 ∷ 3 ∷ 4 ∷ []) ++ encode_all (mtu ∷ []);
            }
            ∷ []))
unfolding align4
parse_datagram-finish_example =
    parse_datagram-finish 18 5 7 (1 ∷ 2 ∷ 3 ∷ 4 ∷ []) (mtu ∷ []) (omega arith) (omega arith)
      (omega arith) (mtu-IsPlain, tt) refl (omega arith) (omega arith)

abbrev socket : RequestSocket
socket = record { port_id = 41; seq = 7; nonblocking = true; pending = [] }
