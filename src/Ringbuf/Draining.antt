-- ===== src/Ringbuf/Draining.antt =====
-- crates/fluxd/src/bpf/ringbuf.rs: draining ends, and stays inside what is published.
use Prim.Native.Nat.{bit_and}
use flux_rs.Base.{
  ℕ, zero, suc, ◌+◌, ◌-◌, ◌*◌, ◌/◌, ◌^◌, ◌≤◌, ◌<◌, ◌≡◌, ◌≢◌, refl, Bool, true, false, ◌==◌, ltb,
  if◌then◌else◌, List, [], arith,
}
use flux_rs.Base.Bits.{bit_and-low, bit_and-shifted}
use flux_rs.Ringbuf.{
  Ring, Result, stuck, ok, err, align8, record_len, drain_record, drain_from, drain_faults,
  length_mask, busy_bit, bind,
}

-- A record's length is its header and payload, rounded up to eight bytes.
record_len_lem : (n : ℕ) → n < 2 ^ 30 → record_len n ≡ ok ((n + 15) / 8 * 8)
unfolding align8
record_len_lem n h =
    ground (arith, bit_and-shifted 3 (8 + n + 7) (2 ^ 61 - 1), bit_and-low 61 ((8 + n + 7) / 8))

-- A record that is read moves the position forward, by eight bytes or more, and not past the producer.
drain_record-bounds :
    {E : Type 0} (ring : Ring E) (consumer : ℕ) (events : List E) (raw len : ℕ) (next : List E × ℕ)
    → drain_record ring consumer events raw len ≡ ok next
    → (next.1 ≡ consumer + len) × (next.1 ≤ ring.producer)
unfolding drain_record
drain_record-bounds ring consumer events raw len next h = ground arith

drain_record-fine :
    {E : Type 0} (ring : Ring E) (consumer : ℕ) (events : List E) (raw len : ℕ)
    → drain_record ring consumer events raw len ≢ stuck
unfolding drain_record
drain_record-fine ring consumer events raw len e = ground arith

record_len-masked :
    (raw : ℕ) → (len : ℕ) × (8 ≤ len) × (record_len (bit_and raw length_mask) ≡ ok len)
record_len-masked raw =
    let n = bit_and raw length_mask in
    let low : n < 2 ^ 30 = omega (arith, bit_and-low 30 raw) in
    ((n + 15) / 8 * 8, omega arith, record_len_lem n low)

-- What a drain from `consumer` may give: an error, or a position from `consumer` to the producer.
abbrev pub IsWithin : {E : Type 0} → Ring E → ℕ → Result (List E × ℕ) → Type 0
IsWithin ring consumer stuck = ⊥
IsWithin ring consumer (ok next) = (consumer ≤ next.1) × (next.1 ≤ ring.producer)
IsWithin ring consumer (err problem) = Unit

IsWithin-later :
    {E : Type 0} (ring : Ring E) (consumer position : ℕ) (r : Result (List E × ℕ))
    → consumer ≤ position
    → IsWithin ring position r
    → IsWithin ring consumer r
IsWithin-later ring consumer position stuck h w = w
IsWithin-later ring consumer position (err problem) h w = tt
IsWithin-later ring consumer position (ok next) h w = (omega (arith, w.0), w.1)

IsWithin-bind :
    {E : Type 0} (ring : Ring E) (consumer : ℕ) (r : Result (List E × ℕ))
    (f : List E × ℕ → Result (List E × ℕ))
    → r ≢ stuck
    → ((next : List E × ℕ) → r ≡ ok next → IsWithin ring consumer (f next))
    → IsWithin ring consumer (bind r f)
IsWithin-bind ring consumer stuck f h k = absurd (h refl)
IsWithin-bind ring consumer (err problem) f h k = tt
IsWithin-bind ring consumer (ok next) f h k = k next refl

pick :
    {E : Type 0} (ring : Ring E) (consumer : ℕ) (more ready : Bool) (a b r : Result (List E × ℕ))
    → IsWithin ring consumer a
    → IsWithin ring consumer b
    → (more ≡ true → IsWithin ring consumer r)
    → IsWithin ring consumer (if more then (if ready then r else a) else b)
pick ring consumer true true a b r ha hb hr = hr refl
pick ring consumer true false a b r ha hb hr = ha
pick ring consumer false ready a b r ha hb hr = hb

drain_from-IsWithin :
    {E : Type 0} (fuel : ℕ) (ring : Ring E) (consumer : ℕ) (events : List E)
    → consumer ≤ ring.producer
    → ring.producer - consumer ≤ fuel
    → IsWithin ring consumer (drain_from fuel ring consumer events)
unfolding drain_from
drain_from-IsWithin zero ring consumer events h k =
    let finished : ltb consumer ring.producer ≡ false = ground arith in rw finished (omega arith, h)
drain_from-IsWithin (suc fuel) ring consumer events h k =
    let raw = ring.raw_len (bit_and consumer (ring.capacity - 1)) in
    let len = record_len-masked raw in
    pick ring consumer (ltb consumer ring.producer) (bit_and raw busy_bit == 0)
      (ok (events, consumer)) (ok (events, consumer)) _ (omega arith, h) (omega arith, h)
      (λ more. rw len.2 (
        IsWithin-bind ring consumer (drain_record ring consumer events raw len.0)
          (λ next. drain_from fuel ring next.1 next.0)
          (drain_record-fine ring consumer events raw len.0)
          (λ next drained.
            let b = drain_record-bounds ring consumer events raw len.0 next drained in
            IsWithin-later ring consumer next.1 (drain_from fuel ring next.1 next.0)
              (omega (arith, b.0))
              (drain_from-IsWithin fuel ring next.1 next.0 b.1 (omega (arith, b.0, len.1))))))

-- Draining a ring ends, and gives an error or a position between the consumer's and the producer's.
pub drain_faults-IsWithin :
    {E : Type 0} (ring : Ring E)
    → ring.consumer ≤ ring.producer
    → IsWithin ring ring.consumer (drain_faults ring)
unfolding drain_faults
drain_faults-IsWithin ring h =
    drain_from-IsWithin (ring.producer - ring.consumer) ring ring.consumer [] h (omega arith)
