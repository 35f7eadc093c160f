-- ===== src/Selector/Uids.antt =====
-- crates/flux-core/src/selector.rs: UIDs composed of a user and an application, and taken apart.
use flux_rs.Base.{ℕ, ◌/◌, ◌%◌, ◌^◌, ◌≤◌, ◌<◌, ◌≡◌, ◌≢◌, ◌↔◌, arith}
use flux_rs.Selector.{ok, compose_uid, decompose_uid, user_id_max, user_id_stride}

-- A composed UID comes apart into the user and the application it was composed of, fits 31 bits, and
-- is of no user's root.
pub decompose_uid-compose_uid :
    (user_id app_id uid : ℕ)
    → compose_uid user_id app_id ≡ ok uid
    → (decompose_uid uid ≡ (user_id, app_id)) × (uid < 2 ^ 31) × (uid % user_id_stride ≢ 0)
unfolding compose_uid decompose_uid
decompose_uid-compose_uid user_id app_id uid h = ground arith

-- Composition accepts exactly the parts that a UID of an accepted user comes apart into, root aside.
pub compose_uid-decompose_uid :
    (uid : ℕ)
    → uid < 2 ^ 32
    → (compose_uid (decompose_uid uid).0 (decompose_uid uid).1 ≡ ok uid)
      ↔ ((uid / user_id_stride ≤ user_id_max) × (uid % user_id_stride ≢ 0))
unfolding compose_uid decompose_uid
compose_uid-decompose_uid uid h = ground arith
