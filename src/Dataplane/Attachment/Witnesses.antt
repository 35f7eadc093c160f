-- ===== src/Dataplane/Attachment/Witnesses.antt =====
-- Tests of the attachment, and its theorems at concrete inputs.
use flux_rs.Base.{◌≡◌, refl, some, none, List, [], ◌∷◌}
use flux_rs.Dataplane.{Outcome}
use flux_rs.Dataplane.Witnesses.{manager}
use flux_rs.Dataplane.Attachment.{
  IfaceStatus, admitted, Attaching, value, started, Call, AdvanceCalls, start_next_verification,
}
use flux_rs.Dataplane.Attachment.Deciding.{
  IsConclusive, advance_all, IsDecided, start_next_verification-IsDecided,
}
use flux_rs.Dataplane.Attachment.Preference.{Link, Filter, select_pref, find_free}

-- "wlan0" with an L2 entry.
abbrev wlan0 : IfaceStatus
wlan0 = record {
  name = 119 ∷ 108 ∷ 97 ∷ 110 ∷ 48 ∷ [];
  ifindex = 3;
  entry = some (102 ∷ 108 ∷ 120 ∷ []);
  status = admitted;
  reason = none;
  reachable = none;
}

abbrev before : Attaching
before = record { manager = manager; ifaces = wlan0 ∷ []; attachment = none }

-- No traffic at all, in every window.
abbrev silent : AdvanceCalls
silent = record {
  tx = value 7;
  counter = value 0;
  detach = Call.done;
  attach = Call.done;
  order = Call.done;
  undo = Call.done;
  start = λ iface. started 2 0 7;
  publish = Outcome.done;
}

silent-IsConclusive : IsConclusive silent
silent-IsConclusive = record { count = 0; counter = refl; detach = refl }

start_next_verification-IsDecided_example : IsDecided (
    advance_all
      (silent ∷ silent ∷ silent ∷ [])
      (start_next_verification silent (wlan0 ∷ []) before).1)
start_next_verification-IsDecided_example =
    start_next_verification-IsDecided silent (wlan0 ∷ []) before (silent ∷ silent ∷ silent ∷ [])
      (silent-IsConclusive, (silent-IsConclusive, (silent-IsConclusive, tt))) refl

-- "v4-rmnet" with a filter "clatd" at 4, and one more at 2.
abbrev clat_link : Link
clat_link = record { name = 118 ∷ 52 ∷ 45 ∷ 114 ∷ 109 ∷ 110 ∷ 101 ∷ 116 ∷ [] }

abbrev filters : List Filter
filters =
    record { chain = 0; priority = 4; prog_name = some (99 ∷ 108 ∷ 97 ∷ 116 ∷ 100 ∷ []) }
    ∷ record { chain = 0; priority = 2; prog_name = none }
    ∷ []

clat_slot : select_pref clat_link filters ≡ some 3
unfolding select_pref find_free
clat_slot = refl
