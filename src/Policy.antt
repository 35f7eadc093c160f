-- ===== src/Policy.antt =====
-- crates/flux-core/src/policy_epoch.rs: one observable policy, the flows it captures, and the two
-- protocols that replace it. The tags and modes are those of crates/flux-core/src/abi.rs.
pub mod Epoch
pub mod Windows
pub mod Match
pub mod LongestPrefix
pub mod Commit
pub mod ThirdStates
mod Witnesses
