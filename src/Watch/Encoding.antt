-- ===== src/Watch/Encoding.antt =====
-- crates/fluxd/src/watch.rs: every event that the kernel queues is acted on, in its order.
use flux_rs.Base.{
  ℕ, zero, suc, ◌^◌, ◌<◌, ◌≤◌, ◌≡◌, refl, ap, false, ltb, Option, none, some, List, [], ◌∷◌, ◌++◌,
  length, length-append, Bool-cases, inl, inr, lt→ltb, All, arith,
}
use flux_rs.Base.Text.{Text}
use flux_rs.Version.{and_then}
use flux_rs.Netlink.Bytes.{drop, zeros, take-append, drop-append, le32, word32-le32, length-drop}
use flux_rs.Netlink.Attrs.{contains_zero}
use flux_rs.Watch.{
  WatchEvent, WatchAction, WatchSet, classify, before_nul, word_of, event_at, put, parse_events,
  parse_inotify, note, actions_of, drain,
}

-- `struct inotify_event`, whose name is padded with zeros.
pub record RawEvent : Type 0 where
  pub wd : ℕ
  pub mask : ℕ
  pub cookie : ℕ
  pub name : List ℕ
  pub padding : ℕ

abbrev pub padded_name : RawEvent → List ℕ
padded_name e = e.name ++ zeros e.padding

abbrev pub queue_bytes : List RawEvent → List ℕ
queue_bytes [] = []
queue_bytes (e ∷ events) =
    le32 e.wd
    ++ (le32 e.mask
        ++ (le32 e.cookie
            ++ (le32 (length (padded_name e)) ++ (padded_name e ++ queue_bytes events))))

abbrev pub IsRawEvent : RawEvent → Type 0
IsRawEvent e =
    (e.wd < 2 ^ 32)
    × (e.mask < 2 ^ 32)
    × (length (padded_name e) < 2 ^ 32)
    × (contains_zero e.name ≡ false)

abbrev pub event_of : (List ℕ → Text) → RawEvent → WatchEvent
event_of lossy e = record { wd = e.wd; mask = e.mask; name = lossy e.name }

abbrev pub events_of : (List ℕ → Text) → List RawEvent → List WatchEvent
events_of lossy [] = []
events_of lossy (e ∷ events) = event_of lossy e ∷ events_of lossy events

before_nul-zeros :
    (name : List ℕ) (n : ℕ) → contains_zero name ≡ false → before_nul (name ++ zeros n) ≡ name
before_nul-zeros [] zero h = refl
before_nul-zeros [] (suc n) h = refl
before_nul-zeros (b ∷ name) n h = ground (arith, before_nul-zeros name n)

not_short :
    (e : RawEvent) (events : List RawEvent) → ltb (length (queue_bytes (e ∷ events))) 16 ≡ false
not_short e events = ground arith

parse_events-queue_bytes :
    (lossy : List ℕ → Text) (fuel : ℕ) (events : List RawEvent)
    → All IsRawEvent events
    → length (queue_bytes events) ≤ fuel
    → parse_events lossy fuel (queue_bytes events) ≡ some (events_of lossy events)
unfolding parse_events
parse_events-queue_bytes lossy zero [] h m = refl
parse_events-queue_bytes lossy (suc fuel) [] h m = refl
parse_events-queue_bytes lossy zero (e ∷ events) h m = absurd (omega arith)
parse_events-queue_bytes lossy (suc fuel) (e ∷ events) ((w, k, l, n), h) m =
    let more = queue_bytes events in
    rw
      (
        not_short e events,
        word32-le32 (length (padded_name e)) l,
        word32-le32 e.wd w,
        word32-le32 e.mask k,
        take-append (padded_name e) more,
        drop-append (padded_name e) more,
        before_nul-zeros e.name e.padding n,
        parse_events-queue_bytes lossy fuel events h
            (omega (arith, length-append (padded_name e) more)),
      )
      refl

parse_inotify-queue_bytes :
    (lossy : List ℕ → Text) (events : List RawEvent)
    → All IsRawEvent events
    → parse_inotify lossy (queue_bytes events) ≡ some (events_of lossy events)
unfolding parse_inotify
parse_inotify-queue_bytes lossy events h =
    parse_events-queue_bytes lossy (length (queue_bytes events)) events h (omega arith)

round_total :
    (later : Option (List WatchEvent)) (event : WatchEvent)
    → (events : List WatchEvent) × (later ≡ some events)
    → (events : List WatchEvent) × (and_then later (put event) ≡ some events)
round_total later event (events, e) = (event ∷ events, rw e refl)

parse_events_total :
    (lossy : List ℕ → Text) (fuel : ℕ) (buf : List ℕ)
    → length buf ≤ fuel
    → (events : List WatchEvent) × (parse_events lossy fuel buf ≡ some events)
unfolding parse_events
parse_events_total lossy zero buf m = ([], rw (lt→ltb (length buf) 16 (omega arith)) refl)
parse_events_total lossy (suc fuel) buf m =
    let rest = drop (word_of (drop 12 buf)) (drop 16 buf) in
    elim (Bool-cases (ltb (length buf) 16)) [
      | inl short ↦ ([], rw short refl)
      | inr long ↦
          let (events, e) = round_total (parse_events lossy fuel rest) (event_at lossy buf) (
            parse_events_total lossy fuel rest (
              omega
                (arith, length-drop (word_of (drop 12 buf)) (drop 16 buf), length-drop 16 buf))) in
          (events, rw long e)
    ]

-- One round for each byte is enough for every buffer, also for one that holds no whole event.
pub parse_inotify_total :
    (lossy : List ℕ → Text) (buf : List ℕ)
    → (events : List WatchEvent) × (parse_inotify lossy buf ≡ some events)
unfolding parse_inotify
parse_inotify_total lossy buf = parse_events_total lossy (length buf) buf (omega arith)

-- The events that are read at once.
abbrev pub IsBatch : List RawEvent → Type 0
IsBatch batch = All IsRawEvent batch × (1 ≤ length batch)

abbrev pub reads_of : List (List RawEvent) → List (List ℕ)
reads_of [] = []
reads_of (batch ∷ batches) = queue_bytes batch ∷ reads_of batches

abbrev pub queue : List (List RawEvent) → List RawEvent
queue [] = []
queue (batch ∷ batches) = batch ++ queue batches

actions_of-append :
    (set : WatchSet) (lossy : List ℕ → Text) (a b : List RawEvent)
    → actions_of set (events_of lossy (a ++ b))
      ≡ actions_of set (events_of lossy a) ++ actions_of set (events_of lossy b)
actions_of-append set lossy [] b = refl
actions_of-append set lossy (e ∷ a) b =
    noted (classify set (event_of lossy e)) (actions_of set (events_of lossy a))
      (actions_of set (events_of lossy b)) (actions_of-append set lossy a b)
  where
    noted :
        (o : Option WatchAction) (x y : List WatchAction) {z : List WatchAction}
        → z ≡ x ++ y
        → note o z ≡ note o x ++ y
    noted none x y h = h
    noted (some action) x y h = ap (λ t. action ∷ t) h

-- However the reads divide the queue of the kernel, `drain` gives the action of each event that has one,
-- in the order of the queue.
pub drain-reads_of :
    (lossy : List ℕ → Text) (set : WatchSet) (batches : List (List RawEvent))
    → All IsBatch batches
    → drain lossy set (reads_of batches) ≡ some (actions_of set (events_of lossy (queue batches)))
unfolding drain
drain-reads_of lossy set [] h = refl
drain-reads_of lossy set ([] ∷ batches) ((_, m), h) = absurd (omega arith)
drain-reads_of lossy set ((e ∷ events) ∷ batches) ((all, _), h) =
    let now = e ∷ events in
    rw
      (
        parse_inotify-queue_bytes lossy now all,
        drain-reads_of lossy set batches h,
        actions_of-append set lossy now (queue batches),
      )
      refl
