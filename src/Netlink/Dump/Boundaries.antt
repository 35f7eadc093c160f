-- ===== src/Netlink/Dump/Boundaries.antt =====
-- crates/fluxd/src/netlink/wire.rs: a dump does not depend on how its messages fill datagrams.
use flux_rs.Base.{false, List}
use flux_rs.Netlink.{RawMessage, Result, ok}
use flux_rs.Netlink.Dump.{DumpFeed, need_more, complete, feed_dump}

-- Feeds the next datagram to a dump that is not complete.
abbrev pub resume : List RawMessage → DumpFeed → Result DumpFeed
resume ms (need_more items) = feed_dump items ms false
resume ms (complete items) = ok (complete items)
