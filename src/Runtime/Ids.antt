-- ===== src/Runtime/Ids.antt =====
-- The command identities of one boot.
use flux_rs.Base.{
  ℕ, suc, ◌+◌, ◌≤◌, ◌≡◌, refl, List, [], ◌∷◌, map, length, length-append, count_up, count_up-append,
  u64_max, saturating_add, arith,
}
use flux_rs.Runtime.{Stimulus, CommandKind}
use flux_rs.Runtime.Plan.{Command, Model, assign_ids, plan, run}
use mathlib.Core.List.{map-append}

abbrev pub ids : List Command → List ℕ
ids = map (λ c. c.id)

-- The identities that `n` commands take from `next` on, and the counter after them.
abbrev Numbered : ℕ → ℕ × List Command → Type 0
Numbered next r = (ids r.1 ≡ count_up (length r.1) next) × (r.0 ≡ next + length r.1)

assign_ids-Numbered :
    (next : ℕ) (ks : List CommandKind)
    → next + length (assign_ids next ks).1 ≤ u64_max
    → Numbered next (assign_ids next ks)
unfolding assign_ids
assign_ids-Numbered next [] h = (refl, omega arith)
assign_ids-Numbered next (k ∷ ks) h =
    let below : saturating_add u64_max next 1 ≡ suc next = omega arith in
    let (numbers, counter) = assign_ids-Numbered (saturating_add u64_max next 1) ks (omega arith) in
    (cc (below, numbers), omega (arith, below, counter))

plan-ids :
    (m : Model) (s : Stimulus)
    → m.next_id + length (plan m s).1 ≤ u64_max
    → (ids (plan m s).1 ≡ count_up (length (plan m s).1) m.next_id)
      × ((plan m s).0.next_id ≡ m.next_id + length (plan m s).1)
unfolding plan
plan-ids m s h = assign_ids-Numbered m.next_id _ h

-- Over every sequence of stimuli the commands are numbered consecutively from the planner's
-- `next_id`, and the counter ends behind the last of them, as long as it stays below `u64::MAX`.
pub run-ids :
    (m : Model) (ss : List Stimulus)
    → m.next_id + length (run m ss).1 ≤ u64_max
    → (ids (run m ss).1 ≡ count_up (length (run m ss).1) m.next_id)
      × ((run m ss).0.next_id ≡ m.next_id + length (run m ss).1)
unfolding run
run-ids m [] h = (refl, omega arith)
run-ids m (s ∷ ss) h =
    let (m', now) = plan m s in
    let (last, later) = run m' ss in
    let total = length-append now later in
    let (a, b) = plan-ids m s (omega (arith, total)) in
    let (c, d) = run-ids m' ss (omega (arith, total, b)) in
    (
      rw (map-append (λ c. c.id) now later, total, count_up-append, a, c, b),
      omega (arith, total, b, d),
    )
