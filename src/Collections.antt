-- ===== src/Collections.antt =====
-- Rust's ordered collections, as the code uses them: `Ord`, `BTreeMap` and `BTreeSet`.
pub mod Ord
pub mod BTreeMap
pub mod TextOrd
