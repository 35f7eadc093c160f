-- ===== src/Netlink/Dump/Completion.antt =====
-- crates/fluxd/src/netlink/wire.rs: the dumps that are complete, and their items.
use flux_rs.Base.{
  ◌≡◌, ◌≢◌, ◌<◌, ◌↔◌, ◌⊎◌, inl, inr, refl, sym, ap, ◌∙◌, Bool, true, false, ◌||◌, List, [], ◌∷◌,
  ◌++◌, All, Bool-cases, ◌==◌, ltb, if◌then◌else◌, arith,
}
use mathlib.Core.List.{append_assoc, append-nil}
use flux_rs.Snapshot.{try_from_parts}
use flux_rs.Netlink.{RawMessage, Result, ok, err, stuck, ◌⟫◌}
use flux_rs.Netlink.Dump.{
  DumpFeed, complete, completed, feed_messages, feed_dump, finish_dump, parse_ack, is_interrupted,
  any_interrupted, parse_done_status,
}

abbrev pub IsData : RawMessage → Type 0
IsData m = (m.kind ≡ 0) ⊎ (4 < m.kind)

-- A message that does not stop a dump: NOOP, an acknowledgement of success, or data without the
-- interruption flag.
abbrev pub IsHarmless : RawMessage → Type 0
IsHarmless m =
    (m.kind ≡ 1)
    ⊎ (((m.kind ≡ 2) × (parse_ack m.payload ≡ ok tt)) ⊎ (IsData m × (is_interrupted m ≡ false)))

-- The data messages, in order.
abbrev pub data_of : List RawMessage → List RawMessage
data_of [] = []
data_of (m ∷ ms) = if (m.kind == 0) || ltb 4 m.kind then m ∷ data_of ms else data_of ms

-- The messages of a complete dump: harmless ones, and then DONE with status 0.
pub record IsComplete (items ms r : List RawMessage) : Type 0 where
  pub before : List RawMessage
  pub done : RawMessage
  pub after : List RawMessage
  pub shape : ms ≡ before ++ (done ∷ after)
  pub harmless : All IsHarmless before
  pub last : done.kind ≡ 3
  pub success : parse_done_status done.payload ≡ 0
  pub consistent : is_interrupted done ≡ false
  pub clean : any_interrupted items ≡ false
  pub collected : r ≡ items ++ data_of before

finish_dump_iff :
    (items r : List RawMessage) (done : RawMessage)
    → (finish_dump items done false ≡ ok r) ↔ (
        (parse_done_status done.payload ≡ 0)
        × (is_interrupted done ≡ false)
        × (any_interrupted items ≡ false)
        × (items ≡ r))
unfolding finish_dump try_from_parts
finish_dump_iff items r done = ground arith

completed_iff :
    (x : Result (List RawMessage)) (r : List RawMessage)
    → (completed x ≡ ok (complete r)) ↔ (x ≡ ok r)
completed_iff (ok a) r = ground arith
completed_iff (err e) r = ground arith
completed_iff stuck r = ground arith

acked_iff :
    (x : Result (Unit {0})) (later : Result DumpFeed) (r : List RawMessage)
    → ((x ⟫ λ u. later) ≡ ok (complete r)) ↔ ((x ≡ ok tt) × (later ≡ ok (complete r)))
acked_iff (ok tt) later r = ground arith
acked_iff (err e) later r = ground arith
acked_iff stuck later r = ground arith

-- One step of a dump to its completion: the end, a message passed over, or an item.
abbrev Progress : List RawMessage → List RawMessage → List RawMessage → RawMessage → Type 0
Progress items ms r m =
    ((m.kind ≡ 3) × (finish_dump items m false ≡ ok r))
    ⊎ ((IsHarmless m
          × (((m.kind == 0) || ltb 4 m.kind) ≡ false)
          × (feed_messages items ms ≡ ok (complete r)))
        ⊎ (IsHarmless m
            × (((m.kind == 0) || ltb 4 m.kind) ≡ true)
            × (feed_messages (items ++ (m ∷ [])) ms ≡ ok (complete r))))

feed_messages_step :
    (items ms r : List RawMessage) (m : RawMessage)
    → (feed_messages items (m ∷ ms) ≡ ok (complete r)) ↔ Progress items ms r m
unfolding feed_messages
feed_messages_step items ms r m = ground (
  arith,
  completed_iff (finish_dump items m false) r,
  acked_iff (parse_ack m.payload) (feed_messages items ms) r,
)

any_interrupted-append :
    (ms ns : List RawMessage)
    → any_interrupted (ms ++ ns) ≡ (any_interrupted ms || any_interrupted ns)
any_interrupted-append [] ns = refl
any_interrupted-append (m ∷ ms) ns = ground (arith, any_interrupted-append ms ns)

data_of_skip :
    (m : RawMessage) (ms : List RawMessage)
    → ((m.kind == 0) || ltb 4 m.kind) ≡ false
    → data_of (m ∷ ms) ≡ data_of ms
data_of_skip m ms h = rw h

data_of_keep :
    (items : List RawMessage) (m : RawMessage) (ms : List RawMessage)
    → ((m.kind == 0) || ltb 4 m.kind) ≡ true
    → (items ++ (m ∷ [])) ++ data_of ms ≡ items ++ data_of (m ∷ ms)
data_of_keep items m ms h = rw h (append_assoc items (m ∷ []) (data_of ms))

IsComplete-later :
    (items ms r : List RawMessage) (m : RawMessage)
    → IsHarmless m
    → ((m.kind == 0) || ltb 4 m.kind) ≡ false
    → IsComplete items ms r
    → IsComplete items (m ∷ ms) r
IsComplete-later items ms r m harmless kind c = record {
  before = m ∷ c.before;
  done = c.done;
  after = c.after;
  shape = ap (λ t. m ∷ t) c.shape;
  harmless = (harmless, c.harmless);
  last = c.last;
  success = c.success;
  consistent = c.consistent;
  clean = c.clean;
  collected = c.collected ∙ ap (λ t. items ++ t) (sym (data_of_skip m c.before kind));
}

IsComplete-kept :
    (items ms r : List RawMessage) (m : RawMessage)
    → IsHarmless m
    → ((m.kind == 0) || ltb 4 m.kind) ≡ true
    → IsComplete (items ++ (m ∷ [])) ms r
    → IsComplete items (m ∷ ms) r
IsComplete-kept items ms r m harmless kind c = record {
  before = m ∷ c.before;
  done = c.done;
  after = c.after;
  shape = ap (λ t. m ∷ t) c.shape;
  harmless = (harmless, c.harmless);
  last = c.last;
  success = c.success;
  consistent = c.consistent;
  clean = ground (arith, any_interrupted-append items (m ∷ []), c.clean);
  collected = c.collected ∙ data_of_keep items m c.before kind;
}

unfinished : (items r : List RawMessage) → feed_messages items [] ≢ ok (complete r)
unfolding feed_messages
unfinished items r e = ground arith

progressed :
    (items ms r : List RawMessage) (m : RawMessage)
    → ((more : List RawMessage) → feed_messages more ms ≡ ok (complete r) → IsComplete more ms r)
    → Progress items ms r m
    → IsComplete items (m ∷ ms) r
progressed items ms r m later (inl (last, finished)) =
    let f = (finish_dump_iff items r m).0 finished in
    record {
      before = [];
      done = m;
      after = ms;
      shape = refl;
      harmless = tt;
      last = last;
      success = f.0;
      consistent = f.1;
      clean = f.2;
      collected = sym f.3 ∙ sym (append-nil items);
    }
progressed items ms r m later (inr (inl (harmless, kind, fed))) =
    IsComplete-later items ms r m harmless kind (later items fed)
progressed items ms r m later (inr (inr (harmless, kind, fed))) =
    IsComplete-kept items ms r m harmless kind (later (items ++ (m ∷ [])) fed)

complete-IsComplete :
    (items ms r : List RawMessage)
    → feed_messages items ms ≡ ok (complete r)
    → IsComplete items ms r
complete-IsComplete items [] r h = absurd (unfinished items r h)
complete-IsComplete items (m ∷ ms) r h =
    progressed items ms r m (λ more. complete-IsComplete more ms r)
      ((feed_messages_step items ms r m).0 h)

harmless_clean :
    (items : List RawMessage) (m : RawMessage)
    → IsHarmless m
    → ((m.kind == 0) || ltb 4 m.kind) ≡ true
    → any_interrupted items ≡ false
    → any_interrupted (items ++ (m ∷ [])) ≡ false
harmless_clean items m harmless kind clean =
    any_interrupted-append items (m ∷ []) ∙ rw (clean, quiet harmless)
  where
    quiet : IsHarmless m → is_interrupted m ≡ false
    quiet (inl noop) = ground arith
    quiet (inr (inl ack)) = ground arith
    quiet (inr (inr data_message)) = data_message.1

advances :
    (items before ms : List RawMessage) (m : RawMessage)
    → IsHarmless m
    → any_interrupted items ≡ false
    → ((more : List RawMessage)
        → any_interrupted more ≡ false
        → feed_messages more ms ≡ ok (complete (more ++ data_of before)))
    → (((m.kind == 0) || ltb 4 m.kind) ≡ true) ⊎ (((m.kind == 0) || ltb 4 m.kind) ≡ false)
    → Progress items ms (items ++ data_of (m ∷ before)) m
advances items before ms m harmless clean fed (inl kind) = inr (
    inr (
      harmless,
      kind,
      fed (items ++ (m ∷ [])) (harmless_clean items m harmless kind clean)
          ∙ ap (λ t. ok (complete t)) (data_of_keep items m before kind),
    ))
advances items before ms m harmless clean fed (inr kind) = inr (
    inl (
      harmless,
      kind,
      fed items clean ∙ ap (λ t. ok (complete (items ++ t))) (sym (data_of_skip m before kind)),
    ))

complete-after :
    (items before after : List RawMessage) (done : RawMessage)
    → All IsHarmless before
    → done.kind ≡ 3
    → parse_done_status done.payload ≡ 0
    → is_interrupted done ≡ false
    → any_interrupted items ≡ false
    → feed_messages items (before ++ (done ∷ after)) ≡ ok (complete (items ++ data_of before))
complete-after items [] after done harmless last success consistent clean =
    (feed_messages_step items after (items ++ []) done).1 (
      inl (
        last,
        (finish_dump_iff items (items ++ []) done).1
            (success, consistent, clean, sym (append-nil items)),
      ))
complete-after items (m ∷ before) after done harmless last success consistent clean =
    (feed_messages_step items (before ++ (done ∷ after)) (items ++ data_of (m ∷ before)) m).1 (
      advances items before (before ++ (done ∷ after)) m harmless.0 clean
        (λ more calm. complete-after more before after done harmless.1 last success consistent calm)
        (Bool-cases ((m.kind == 0) || ltb 4 m.kind)))

-- A dump is complete exactly when nothing was truncated, every message up to a DONE of status 0 is
-- harmless, and neither that DONE nor an item from before has the interruption flag; its result is
-- the items from before and then the data messages in order.
pub feed_dump-complete_iff :
    (items ms r : List RawMessage) (truncated : Bool)
    → (feed_dump items ms truncated ≡ ok (complete r))
      ↔ ((truncated ≡ false) × IsComplete items ms r)
unfolding feed_dump
feed_dump-complete_iff items ms r true = ground arith
feed_dump-complete_iff items ms r false =
    ((λ h. (refl, complete-IsComplete items ms r h)), (λ c. built c.1))
  where
    built : IsComplete items ms r → feed_messages items ms ≡ ok (complete r)
    built c =
        ap (feed_messages items) c.shape
        ∙ (complete-after items c.before c.after c.done c.harmless c.last c.success c.consistent
              c.clean
            ∙ ap (λ t. ok (complete t)) (sym c.collected))
