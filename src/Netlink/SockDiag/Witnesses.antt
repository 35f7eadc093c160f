-- ===== src/Netlink/SockDiag/Witnesses.antt =====
-- Tests of the socket diagnostics, and their theorems at concrete inputs.
use flux_rs.Base.{◌≡◌, refl, inl, [], ◌∷◌, ◌++◌}
use flux_rs.Netlink.{RawMessage, dump_interrupted, ok, err}
use flux_rs.Netlink.Bytes.{zeros}
use flux_rs.Netlink.Dump.{feed_dump, feed_messages, parse_done_status, finish_dump}
use flux_rs.Snapshot.{try_from_parts}
use flux_rs.Netlink.SockDiag.{
  FamilyDump, received, poll_failed, dump_tcp_family, collect_dump, collect_targets, parse_diag_tcp,
}
use flux_rs.Netlink.SockDiag.Requests.{acked, destroy_tcp_for_uids, destroy_each}
use flux_rs.Netlink.SockDiag.Destroying.{IsDestruction, destroy_tcp_for_uids-IsDestruction}
use flux_rs.Netlink.SockDiag.Incomplete.{destroy_tcp_for_uids-nothing}

-- An established IPv4 connection of the UID 258, and the end of its dump.
abbrev connection : RawMessage
connection = record {
  kind = 20;
  flags = 2;
  seq = 1;
  pid = 0;
  payload = 2 ∷ 1 ∷ zeros 62 ++ (2 ∷ 1 ∷ 0 ∷ 0 ∷ zeros 4);
}

abbrev end_of_dump : RawMessage
end_of_dump = record { kind = 3; flags = 2; seq = 1; pid = 0; payload = zeros 4 }

abbrev one_socket : FamilyDump
one_socket = record { opened = ok tt; polls = received (ok (connection ∷ end_of_dump ∷ [])) ∷ [] }

abbrev interrupted : FamilyDump
interrupted = record { opened = ok tt; polls = poll_failed dump_interrupted ∷ [] }

abbrev no_sockets : FamilyDump
no_sockets = record { opened = ok tt; polls = received (ok (end_of_dump ∷ [])) ∷ [] }

one_destroyed :
    (destroy_tcp_for_uids (λ d. acked) one_socket no_sockets (ok tt) (258 ∷ 0 ∷ [])).0
    ≡ ok (record { destroyed = 1; already_gone = 0 })
unfolding destroy_tcp_for_uids collect_targets dump_tcp_family collect_dump feed_dump feed_messages
    finish_dump parse_done_status destroy_each parse_diag_tcp try_from_parts
one_destroyed = refl

destroy_tcp_for_uids-IsDestruction_example :
    IsDestruction
      (258 ∷ 0 ∷ [])
      (destroy_tcp_for_uids (λ d. acked) one_socket no_sockets (ok tt) (258 ∷ 0 ∷ []))
destroy_tcp_for_uids-IsDestruction_example =
    destroy_tcp_for_uids-IsDestruction (λ d. acked) one_socket no_sockets (ok tt) (258 ∷ 0 ∷ [])

interrupted_lem : dump_tcp_family interrupted ≡ err dump_interrupted
unfolding dump_tcp_family collect_dump
interrupted_lem = refl

destroy_tcp_for_uids-nothing_example :
    (destroy_tcp_for_uids (λ d. acked) interrupted one_socket (ok tt) (258 ∷ [])).1 ≡ []
destroy_tcp_for_uids-nothing_example =
    destroy_tcp_for_uids-nothing (λ d. acked) interrupted one_socket (ok tt) (258 ∷ [])
      (inl (dump_interrupted, interrupted_lem, refl))
