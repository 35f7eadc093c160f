-- ===== src/Watch/Witnesses.antt =====
-- The disable file appears, a file of config/ changes; then packages.list is written.
use flux_rs.Base.{◌≡◌, refl, some, List, [], ◌∷◌, ℕ, arith}
use flux_rs.Base.Text.{Text}
use flux_rs.Watch.{
  WatchSet, classify, parse_events, parse_inotify, actions_of, drain, disable_name, packages_name,
  switch, config, policy,
}
use flux_rs.Watch.Encoding.{RawEvent, events_of, queue, reads_of, drain-reads_of}

abbrev set : WatchSet
set = record { module_wd = 1; config_wd = 2; packages_wd = some 3 }

abbrev ascii : List ℕ → Text
ascii bytes = bytes

abbrev appeared : RawEvent
appeared = record { wd = 1; mask = 0x100; cookie = 0; name = disable_name; padding = 9 }

abbrev written : RawEvent
written = record { wd = 2; mask = 0x8; cookie = 0; name = b'a' ∷ []; padding = 15 }

abbrev packages : RawEvent
packages = record { wd = 3; mask = 0x80; cookie = 5; name = packages_name; padding = 3 }

abbrev batches : List (List RawEvent)
batches = (appeared ∷ written ∷ []) ∷ (packages ∷ []) ∷ []

drained : drain ascii set (reads_of batches) ≡ some (switch ∷ config ∷ policy ∷ [])
unfolding drain parse_inotify parse_events classify
drained = refl

drain-reads_of_example :
    drain ascii set (reads_of batches) ≡ some (actions_of set (events_of ascii (queue batches)))
drain-reads_of_example = drain-reads_of ascii set batches (
  (
    (
      (omega arith, omega arith, omega arith, refl),
      ((omega arith, omega arith, omega arith, refl), tt),
    ),
    omega arith,
  ),
  ((((omega arith, omega arith, omega arith, refl), tt), omega arith), tt),
)
