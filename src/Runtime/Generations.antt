-- ===== src/Runtime/Generations.antt =====
-- crates/flux-core/src/runtime.rs: `Generations`, the owner of engine generation numbers.
use flux_rs.Base.{ℕ, suc, ◌+◌, ◌≤◌, ◌<◌, ◌≡◌, ◌↔◌, ◌⊎◌, inl, inr, Bool, true, false, not, ◌&&◌}
use flux_rs.Base.{
  Option, none, some, List, [], ◌∷◌, arith, ap, ◌==◌, u64_max, checked_add, length, count_up,
}

pub record Generations : Type 0 where
  pub next : ℕ
  pub committed : ℕ

abbrev pub new : Generations
new = record { next = 1; committed = 0 }

-- `none` is the panic of `expect` when the counter would overflow.
unfoldable pub allocate : Generations → Option (Generations × ℕ)
allocate g = elim (checked_add u64_max g.next 1) [
  | none ↦ none
  | some n ↦ some (record g { next = n }, g.next)
]

abbrev pub commit : Generations → ℕ → Generations
commit g id = record g { committed = id }

abbrev pub same_generation : Option ℕ → ℕ → Bool
same_generation none g = false
same_generation (some c) g = c == g

unfoldable pub fault_is_current : Generations → ℕ → Option ℕ → Bool
fault_is_current g event_generation child_generation =
    not (g.committed == 0)
    && event_generation == g.committed
    && same_generation child_generation g.committed

-- A committed generation was allocated before.
pub record IsOwned (g : Generations) : Type 0 where
  pub behind : g.committed < g.next
  pub fits : g.next ≤ u64_max

-- The operations of the owner, in the order in which the daemon makes them.
pub data Op : Type 0 where
  allocating : Op
  committing : ℕ → Op

abbrev then_ids : ℕ → Option (Generations × List ℕ) → Option (Generations × List ℕ)
then_ids id none = none
then_ids id (some (last, ids)) = some (last, id ∷ ids)

then_ids-eq-some :
    (id : ℕ) (o : Option (Generations × List ℕ)) (last : Generations) (ids : List ℕ)
    → then_ids id o ≡ some (last, ids)
    → (rest : List ℕ) × (o ≡ some (last, rest)) × (ids ≡ id ∷ rest)
then_ids-eq-some id none last ids h = cc
then_ids-eq-some id (some (g, rest)) last ids h = (rest, cc, cc)

-- The owner after the operations, and the generations allocated; `none` if the counter overflowed.
unfoldable pub run_ops : Generations → List Op → Option (Generations × List ℕ)
run_ops g [] = some (g, [])
run_ops g (allocating ∷ ops) = elim (allocate g) [
  | none ↦ none
  | some (g', id) ↦ then_ids id (run_ops g' ops)
]
run_ops g (committing id ∷ ops) = run_ops (commit g id) ops

allocate_cases :
    (g : Generations)
    → (allocate g ≡ none)
      ⊎ ((allocate g ≡ some (record g { next = suc g.next }, g.next)) × (suc g.next ≤ u64_max))
unfolding allocate
allocate_cases g = ground arith

-- However allocations and commits interleave, the generations allocated are consecutive numbers
-- from the owner's next one on, so that none is used twice, and the counter ends behind them.
pub run_ops-ids :
    (g last : Generations) (ops : List Op) (ids : List ℕ)
    → run_ops g ops ≡ some (last, ids)
    → (ids ≡ count_up (length ids) g.next) × (last.next ≡ g.next + length ids)
unfolding run_ops
run_ops-ids g last [] ids h = ground arith
run_ops-ids g last (committing id ∷ ops) ids h = run_ops-ids (commit g id) last ops ids h
run_ops-ids g last (allocating ∷ ops) ids h = elim (allocate_cases g) [
  | inl full ↦ cc (rw (full, run_ops) at h)
  | inr (fresh, fits) ↦
      let g' : Generations = record g { next = suc g.next } in
      let (rest, run, split) =
        then_ids-eq-some g.next (run_ops g' ops) last ids (rw (fresh, run_ops) at h) in
      let (numbers, counter) = run_ops-ids g' last ops rest run in
      (
        rw split (ap (λ t. g.next ∷ t) numbers),
        omega (arith, counter, ap (λ (t : List ℕ). length t) split),
      )
]

-- Once a newly allocated generation is committed, a fault event that names the generation committed
-- before it is not current, whichever generation the live child carries; one that names the new
-- generation is current exactly when the live child carries it.
pub commit-supersedes :
    (g g' : Generations) (id : ℕ) (child : Option ℕ)
    → IsOwned g
    → allocate g ≡ some (g', id)
    → (fault_is_current (commit g' id) g.committed child ≡ false)
      × ((fault_is_current (commit g' id) id child ≡ true) ↔ (child ≡ some id))
      × IsOwned (commit g' id)
unfolding allocate fault_is_current
commit-supersedes g g' id child own h = ground arith
