-- ===== src/Ringbuf.antt =====
-- crates/fluxd/src/bpf/ringbuf.rs: draining the fault ring, over its memory.
pub mod Draining
mod Witnesses
use Prim.Native.Nat.{bit_and}
use flux_rs.Base.{
  ℕ, zero, suc, ◌+◌, ◌-◌, ◌*◌, ◌^◌, ◌%◌, Bool, true, false, not, ◌||◌, ◌==◌, ltb, leb,
  if◌then◌else◌, Option, none, some, List, [], ◌∷◌, ◌++◌, u64_max, checked_add,
}

abbrev pub header_bytes : ℕ
header_bytes = 8

abbrev pub busy_bit : ℕ
busy_bit = 2 ^ 31

abbrev pub discard_bit : ℕ
discard_bit = 2 ^ 30

-- `!(BUSY_BIT | DISCARD_BIT)` on a `u32`.
abbrev pub length_mask : ℕ
length_mask = 2 ^ 30 - 1

-- `size_of::<FaultEvent>()`.
abbrev pub fault_event_size : ℕ
fault_event_size = 32

pub data Error : Type 0 where
  length_overflow aligned_overflow exceeds_range unexpected_size position_overflow : Error

pub data Result {ℓ} (A : Type ℓ) : Type ℓ where
  stuck : Result A
  ok : A → Result A
  err : Error → Result A

abbrev aligned : Option ℕ → Result ℕ
aligned none = err aligned_overflow
aligned (some sum) = ok (bit_and sum (2 ^ 64 - 8))

unfoldable pub align8 : ℕ → Result ℕ
align8 value = aligned (checked_add u64_max value 7)

-- The consumer's view: the length word at an offset, and the event behind a header, as the doubly
-- mapped data gives them during one drain.
pub record Ring (E : Type 0) : Type 0 where
  pub capacity : ℕ
  pub consumer : ℕ
  pub producer : ℕ
  pub raw_len : ℕ → ℕ
  pub event : ℕ → E

abbrev pub bind {ℓ κ} : {A : Type ℓ} {B : Type κ} → Result A → (A → Result B) → Result B
bind stuck f = stuck
bind (err problem) f = err problem
bind (ok a) f = f a

abbrev header_and_payload : Option ℕ → Result ℕ
header_and_payload none = err length_overflow
header_and_payload (some len) = align8 len

abbrev pub record_len : ℕ → Result ℕ
record_len payload_len = header_and_payload (checked_add u64_max header_bytes payload_len)

abbrev pub advanced : Option ℕ → Result ℕ
advanced none = err position_overflow
advanced (some position) = ok position

-- The events and the position of the record at `consumer`, of `len` bytes. The sum of the
-- guard wraps, as it does in a release build.
unfoldable pub drain_record : {E : Type 0} → Ring E → ℕ → List E → ℕ → ℕ → Result (List E × ℕ)
drain_record ring consumer events raw len =
    let offset = bit_and consumer (ring.capacity - 1) in
    let next = advanced (checked_add u64_max consumer len) in
    if ltb ring.capacity len || ltb ring.producer ((consumer + len) % 2 ^ 64)
    then err exceeds_range
    else if bit_and raw discard_bit == 0
    then (if bit_and raw length_mask == fault_event_size
        then bind next (λ position. ok (events ++ (ring.event offset ∷ []), position))
        else err unexpected_size)
    else bind next (λ position. ok (events, position))

-- The loop of `drain_faults`; `fuel` bounds its rounds.
unfoldable pub drain_from : {E : Type 0} → ℕ → Ring E → ℕ → List E → Result (List E × ℕ)
drain_from zero ring consumer events =
    if ltb consumer ring.producer then stuck else ok (events, consumer)
drain_from (suc fuel) ring consumer events =
    let raw = ring.raw_len (bit_and consumer (ring.capacity - 1)) in
    let drained =
      bind (record_len (bit_and raw length_mask)) (drain_record ring consumer events raw) in
    let later = bind drained (λ next. drain_from fuel ring next.1 next.0) in
    if ltb consumer ring.producer
    then (if bit_and raw busy_bit == 0 then later else ok (events, consumer))
    else ok (events, consumer)

-- The events, and the position that is stored. A record takes at least eight bytes, so one round for
-- each published byte is enough.
unfoldable pub drain_faults : {E : Type 0} → Ring E → Result (List E × ℕ)
unfolding drain_from
drain_faults ring = drain_from (ring.producer - ring.consumer) ring ring.consumer []
