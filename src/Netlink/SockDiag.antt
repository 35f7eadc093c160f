-- ===== src/Netlink/SockDiag.antt =====
-- crates/fluxd/src/netlink/sock_diag.rs: the sockets that a dump shows, and the destruction of the
-- connections of given UIDs.
pub mod Requests
pub mod Destroying
pub mod Incomplete
mod Witnesses
use flux_rs.Base.{
  ℕ, zero, suc, ◌+◌, ◌*◌, ◌^◌, Bool, true, false, not, ◌&&◌, ◌||◌, ltb, leb, ◌==◌, if◌then◌else◌,
  Option, none, some, List, [], ◌∷◌, ◌++◌, length,
}
use flux_rs.Base.Text.{text_eq}
use flux_rs.Netlink.{RawMessage, Error, Result, ok, err, stuck, os_error, incomplete_dump}
use flux_rs.Netlink.Bytes.{take, drop, word32}
use flux_rs.Netlink.Dump.{DumpFeed, need_more, complete, feed_dump}

abbrev pub inet_diag_msg_min_len : ℕ
inet_diag_msg_min_len = 72

abbrev pub overflowuid : ℕ
overflowuid = 65534

abbrev pub sock_destroy_max : ℕ
sock_destroy_max = 4096

abbrev pub find_inode_datagrams : ℕ
find_inode_datagrams = 64

abbrev pub tcp_listen : ℕ
tcp_listen = 10

abbrev pub ipproto_tcp : ℕ
ipproto_tcp = 6

-- The byte at a position, and the number of four bytes there, in the target's order.
abbrev pub first_byte : List ℕ → ℕ
first_byte [] = 0
first_byte (b ∷ bs) = b

abbrev pub first_word : List ℕ → ℕ
first_word (a ∷ b ∷ c ∷ d ∷ bs) = word32 a b c d
first_word bs = 0

abbrev pub byte_at : ℕ → List ℕ → ℕ
byte_at n bytes = first_byte (drop n bytes)

abbrev pub word_at : ℕ → List ℕ → ℕ
word_at n bytes = first_word (drop n bytes)

pub record DiagTcp : Type 0 where
  pub family : ℕ
  pub state : ℕ
  pub sockid : List ℕ
  pub uid : ℕ

unfoldable pub parse_diag_tcp : List ℕ → Option DiagTcp
parse_diag_tcp payload =
    if ltb (length payload) inet_diag_msg_min_len
    then none
    else some (record {
      family = byte_at 0 payload;
      state = byte_at 1 payload;
      sockid = take 48 (drop 4 payload);
      uid = word_at 64 payload;
    })

-- Established, SYN sent and received, FIN wait 1 and 2, close wait, last ACK, closing.
abbrev pub tcp_is_live_client : ℕ → Bool
tcp_is_live_client state =
    (state == 1)
    || (state == 2)
    || (state == 3)
    || (state == 4)
    || (state == 5)
    || (state == 8)
    || (state == 9)
    || (state == 11)

abbrev pub contains_uid : ℕ → List ℕ → Bool
contains_uid uid [] = false
contains_uid uid (u ∷ us) = (uid == u) || contains_uid uid us

-- Neither root nor the overflow UID is ever a target.
abbrev pub wanted_uids : List ℕ → List ℕ
wanted_uids [] = []
wanted_uids (u ∷ us) =
    if not (u == 0) && not (u == overflowuid) then u ∷ wanted_uids us else wanted_uids us

abbrev pub is_target : List ℕ → DiagTcp → Bool
is_target wanted d = contains_uid d.uid wanted && tcp_is_live_client d.state

abbrev pub add_target : List ℕ → Option DiagTcp → List DiagTcp → List DiagTcp
add_target wanted none ds = ds
add_target wanted (some d) ds = if is_target wanted d then d ∷ ds else ds

abbrev pub targets_of : List ℕ → List RawMessage → List DiagTcp
targets_of wanted [] = []
targets_of wanted (m ∷ ms) = add_target wanted (parse_diag_tcp m.payload) (targets_of wanted ms)

-- What one turn of the loop of `dump_tcp_family` sees; a script ends where the deadline passes.
pub data Poll : Type 0 where
  would_block : Poll
  poll_failed : Error → Poll
  received : Result (List RawMessage) → Poll

abbrev pub dump_turn :
    Result DumpFeed → (List RawMessage → Result (List RawMessage)) → Result (List RawMessage)
dump_turn stuck next = stuck
dump_turn (err e) next = err e
dump_turn (ok (need_more items)) next = next items
dump_turn (ok (complete items)) next = ok items

abbrev pub feed_received : List RawMessage → Result (List RawMessage) → Result DumpFeed
feed_received collected stuck = stuck
feed_received collected (err e) = err e
feed_received collected (ok ms) = feed_dump collected ms false

-- The loop, for a number of datagrams.
unfoldable pub collect_dump : ℕ → List RawMessage → List Poll → Result (List RawMessage)
unfolding feed_dump
collect_dump zero collected polls = err incomplete_dump
collect_dump (suc n) collected [] = err incomplete_dump
collect_dump (suc n) collected (would_block ∷ polls) = collect_dump n collected polls
collect_dump (suc n) collected (poll_failed e ∷ polls) = err e
collect_dump (suc n) collected (received r ∷ polls) =
    dump_turn (feed_received collected r) (λ items. collect_dump n items polls)

-- `dump_tcp_family`: what opening and sending returns, and the script of its loop.
pub record FamilyDump : Type 0 where
  pub opened : Result (Unit {0})
  pub polls : List Poll

abbrev pub after_open : Result (Unit {0}) → List Poll → Result (List RawMessage)
after_open stuck polls = stuck
after_open (err e) polls = err e
after_open (ok u) polls = collect_dump find_inode_datagrams [] polls

unfoldable pub dump_tcp_family : FamilyDump → Result (List RawMessage)
unfolding collect_dump
dump_tcp_family f = after_open f.opened f.polls

abbrev pub enoent : ℕ
enoent = 2

abbrev pub is_no_entry : Error → Bool
is_no_entry (os_error e) = e == enoent
is_no_entry e = false

-- The targets of the dumps in turn; a family that is not there is skipped.
abbrev pub after_dump : List DiagTcp → Result (List DiagTcp) → Result (List DiagTcp)
after_dump ds stuck = stuck
after_dump ds (err e) = err e
after_dump ds (ok es) = ok (ds ++ es)

abbrev pub add_dump :
    List ℕ → Result (List RawMessage) → Result (List DiagTcp) → Result (List DiagTcp)
add_dump wanted stuck later = stuck
add_dump wanted (err e) later = if is_no_entry e then later else err e
add_dump wanted (ok items) later = after_dump (targets_of wanted items) later

unfoldable pub collect_targets : List ℕ → FamilyDump → FamilyDump → Result (List DiagTcp)
unfolding dump_tcp_family parse_diag_tcp
collect_targets wanted v4 v6 =
    add_dump wanted (dump_tcp_family v4) (add_dump wanted (dump_tcp_family v6) (ok []))
