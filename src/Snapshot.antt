-- ===== src/Snapshot.antt =====
-- crates/flux-core/src/snapshot.rs: evidence that a kernel dump is complete, and the switch file.
use flux_rs.Base.{ℕ, Bool, true, false, not, ◌||◌, ◌==◌, if◌then◌else◌}

pub record IncompleteDump : Type 0 where
  pub interrupted : Bool
  pub truncated : Bool
  pub overrun : Bool
  pub done_status : ℕ

pub data Result {ℓ} (A : Type ℓ) : Type ℓ where
  ok : A → Result A
  err : IncompleteDump → Result A

-- `TrustedSnapshot<T>`: only `try_from_parts` makes one in the source. `done_status` is an `i32` as
-- its bit pattern.
pub record TrustedSnapshot (T : Type 0) : Type 0 where
  pub inner : T

unfoldable pub try_from_parts :
    {T : Type 0} → T → Bool → Bool → Bool → ℕ → Result (TrustedSnapshot T)
try_from_parts value interrupted truncated overrun done_status =
    if interrupted || truncated || overrun || not (done_status == 0)
    then err (record {
      interrupted = interrupted;
      truncated = truncated;
      overrun = overrun;
      done_status = done_status;
    })
    else ok (record { inner = value })

pub data Presence : Type 0 where
  present absent unreadable : Presence

abbrev pub capture_permitted : Presence → Bool
capture_permitted absent = true
capture_permitted p = false
