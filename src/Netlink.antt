-- ===== src/Netlink.antt =====
-- crates/fluxd/src/netlink/wire.rs: netlink messages and attributes as bytes. Numbers are in the
-- native byte order of the supported target, which is little-endian.
pub mod Bytes
pub mod Fuel
pub mod Attrs
pub mod Datagram
pub mod Socket
pub mod Dump
pub mod SockDiag
pub mod Route
mod Witnesses
use flux_rs.Base.{ℕ, List}

-- The source's error texts and kinds, by name.
pub data Error : Type 0 where
  short_payload : Error
  truncated_attr_header invalid_attr_length truncated_attr_padding : Error
  wrong_attr_size not_nul_terminated embedded_nul not_utf8 : Error
  truncated_msg_header invalid_msg_length truncated_msg_padding : Error
  short_ack : Error
  os_error : ℕ → Error
  unexpected_port no_response : Error
  route_preference_size rule_protocol_size : Error
  link_without_name address_without_bytes invalid_interface_index : Error
  overrun dump_interrupted dump_truncated incomplete_dump : Error

-- `stuck` is no value of the program: a parser's fuel ran out.
pub data Result {ℓ} (A : Type ℓ) : Type ℓ where
  stuck : Result A
  ok : A → Result A
  err : Error → Result A

-- The `?` of Rust, with what follows it.
infixl 5 ◌⟫◌
abbrev pub ◌⟫◌ {ℓ κ} : {A : Type ℓ} {B : Type κ} → Result A → (A → Result B) → Result B
stuck ⟫ next = stuck
err problem ⟫ next = err problem
ok value ⟫ next = next value

pub record RawMessage : Type 0 where
  pub kind : ℕ
  pub flags : ℕ
  pub seq : ℕ
  pub pid : ℕ
  pub payload : List ℕ
