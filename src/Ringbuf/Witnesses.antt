-- ===== src/Ringbuf/Witnesses.antt =====
-- A concrete ring.
use flux_rs.Base.{ℕ, ◌==◌, ◌≡◌, refl, [], ◌∷◌, if◌then◌else◌, arith}
use flux_rs.Ringbuf.{Ring, ok, drain_faults, drain_record, align8}
use flux_rs.Ringbuf.Draining.{IsWithin, drain_faults-IsWithin}

-- One event of 32 bytes at the start.
abbrev one_fault : Ring ℕ
one_fault = record {
  capacity = 4096;
  consumer = 4096;
  producer = 4136;
  raw_len = λ offset. if offset == 0 then 32 else 0;
  event = λ offset. 7;
}

drained : drain_faults one_fault ≡ ok (7 ∷ [], 4136)
unfolding drain_faults drain_record align8
drained = refl

drain_faults-IsWithin_example : IsWithin one_fault 4096 (drain_faults one_fault)
drain_faults-IsWithin_example = drain_faults-IsWithin one_fault (omega arith)
