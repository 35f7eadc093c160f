-- ===== src/Lib.antt =====
-- Flux-rs: transparent per-app proxying for rooted Android. The library models the decision logic
-- of the daemon and of its core crate; system calls are scripts of what they return, and the BPF
-- programs, the kernel module and configuration files are not part of it.
--
-- Base: numbers, lists, Boolean tests, machine words, masks. Collections: Rust's ordered maps and
-- sets as lists in key order, with their laws.
--
-- Cidr (crates/flux-core/src/cidr.rs): canonical prefixes. The IPv4 and IPv6 types, which the source
-- writes out twice, are one record over the width of an address, 32 or 128 bits; an address is the
-- number that `u32::from` and `u128::from` give. `HostBitsSet` carries the address and length whose
-- text the source carries. `parse` and the fixed bypass lists are not modelled.
--
-- Policy (crates/flux-core/src/policy_epoch.rs, with the tags of abi.rs): `PolicyEpoch`, the
-- longest-prefix match and `observe_new_flow` (Epoch), the visible epochs of both commit protocols
-- (Windows), and proofs about them. Prefix lengths above the width, on which the source's shift
-- would overflow, are kept out by `IsCanonical`, as its constructors do.
--
-- Runtime (crates/flux-core/src/runtime.rs): the lifecycle. Table is `step`, one function for each
-- group of stimuli; Plan is `plan`, with `run` over a sequence of stimuli; View is
-- `Phase::observe` and `project`; Generations the owner of engine generations. Freeze is
-- about the steps that publish the inactive control leaf. `run` is the planner by itself: the reactor
-- overwrites the phase with the observed one after it has executed a step's commands.
--
-- Snapshot (crates/flux-core/src/snapshot.rs): the evidence that a kernel dump is complete.
--
-- Netlink (crates/fluxd/src/netlink/wire.rs): Attrs is `MessageBuilder` and `attrs`, Datagram
-- `parse_datagram`, Dump the assembly of a dump (`feed_dump`, `finish_dump`), Socket the requests of
-- `RequestSocket` over the script of what `recvmsg` returns. Bytes are numbers below 256, words are
-- little-endian as on the supported targets, and a `usize` has 64 bits. The parsers' loops run on
-- fuel, one round for each byte: a round takes at least 4 bytes of attributes or 16 of a datagram.
--
-- Netlink.Route (crates/fluxd/src/netlink/route.rs) reads routes, rules, links, addresses, queueing
-- disciplines and filters out of the messages of a dump, and writes the requests of routes and rules.
-- Whether bytes are UTF-8 is the parameter `is_utf8`. The set of kinds seen is a list, a field that two
-- branches fill is a field of the loop's state, and an `i32` is given as its bits. The requests of links
-- and filters, and the sockets, are not modelled.
--
-- Netlink.SockDiag (crates/fluxd/src/netlink/sock_diag.rs) is `destroy_tcp_for_uids`: a request and
-- the kernel's answer to it are one step, and the script of a dump ends where its deadline passes. The
-- readiness probe is not modelled.
--
-- Subscription (crates/flux-core/src/subscription.rs): `refine` and `assemble_nodes`. A compiled
-- expression is a function on texts, and the parsing of a response is a parameter. The parsers of
-- JSON, base64 and URIs, and fetching are not modelled.
--
-- Supervisor (crates/fluxd/src/supervisor.rs): `run` and what it calls, over scripts of what the
-- system calls return; a script's end is the program still waiting. libc's macros on a wait status
-- are the parameter `WaitMacros`.
--
-- Ringbuf (crates/fluxd/src/bpf/ringbuf.rs): `drain_faults` over the ring's memory, on fuel: one
-- round for each published byte, of which a record takes at least eight.
--
-- Dataplane (crates/fluxd/src/dataplane/platform.rs, kmod.rs): the `Manager` as it serves the kernel
-- module. Epochs are the live and the desired policy as epochs of Policy, and the module's tables;
-- Addresses the choice of the device's own addresses from a dump; Transactions is `apply_policy`;
-- Lifecycle the convergence and the publication of a control. A system call is an argument, what it
-- returns; a request to the module that fails leaves its tables as they were. The fields of an ABI
-- control that never change, sysctls and texts of errors are left out. Attachment
-- (dataplane/attachment.rs) is the verification of the admitted interfaces, each within three windows
-- of a timer, and the choice of a filter's preference; what `start_verification` returns for an
-- interface is an argument. Not modelled: the admission of interfaces, the records and the cleanup of
-- filters, kernel events, and the loading of the BPF object.
--
-- Reactor (crates/fluxd/src/reactor.rs): what the reactor observes of itself, its report and error
-- tokens, and the calls that running a step makes, in their order; the calls are named, and a call
-- that fails is only logged by the source. The loop itself is not modelled.
--
-- Engine (crates/fluxd/src/reactor.rs, engine.rs): the transaction that replaces the engine process,
-- with the handlers that advance it. Machine is the part of the reactor that they read and write, with
-- the processes that run and the generation files; Stopping, Recovering, Activating and Waiting are its
-- methods, Handlers those that the event loop calls, Converging the end of `converge`. A handler takes
-- no time, and what its calls return is its `Answers`; a convergence that a handler calls last is
-- marked due, and `converge_last` makes it. A generation's file is named by its number, the four flags of queued changes are
-- one, and texts of errors, logging, the control connections and the fetching of subscriptions are left
-- out, as is what `converge` reads before its end.
--
-- Version, Selector and Ssid (crates/flux-core/src/version.rs, selector.rs, ssid.rs): version codes
-- and version texts; application selectors, Android UIDs and the index of packages.list; the pause
-- by connected networks. Base.Text holds what they use of Rust's `str`, on code points.
--
-- GkiLine (crates/flux-core/src/gki_line.rs): the generation of a kernel release, the name of its module
-- file, and the file that is picked. Decimal writes the ten digits that a u32 has at most; the names are
-- ordered by code points, as their bytes are. PacketBounds (crates/flux-core/src/parse_bounds.rs) is the
-- length arithmetic of the packet parser, in 32 bits.
--
-- Watch (crates/fluxd/src/watch.rs): `classify`, `parse_inotify` and `drain` over what the reads return.
-- The replacement of bytes that are not UTF-8 is the parameter `lossy`. The loop runs on fuel, one round
-- for each byte, and a round takes at least 16. Opening the watches is not modelled.
--
-- Counters of type u64 are natural numbers with the bound written out: `saturating_add` is the
-- minimum with `u64::MAX`, and an overflow that panics is `none`.
pub mod Base
pub mod Collections
pub mod Cidr
pub mod Netlink
pub mod Policy
pub mod Runtime
pub mod Snapshot
pub mod Supervisor
pub mod GkiLine
pub mod PacketBounds
pub mod Watch
pub mod Version
pub mod Selector
pub mod Ssid
pub mod Ringbuf
pub mod Dataplane
pub mod Engine
pub mod Subscription
pub mod Reactor
