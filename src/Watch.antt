-- ===== src/Watch.antt =====
-- crates/fluxd/src/watch.rs: events of inotify, and the actions they stand for.
pub mod Encoding
mod Witnesses
use Prim.Native.Nat.{bit_and}
use flux_rs.Base.{
  ℕ, zero, suc, ◌+◌, Bool, true, false, not, ◌&&◌, ◌==◌, ltb, if◌then◌else◌, Option, none, some,
  List, [], ◌∷◌, ◌++◌, length,
}
use flux_rs.Base.Text.{Text, is_empty, text_eq}
use flux_rs.Version.{and_then}
use flux_rs.Netlink.Bytes.{take, drop, word32}

pub record WatchEvent : Type 0 where
  pub wd : ℕ
  pub mask : ℕ
  pub name : Text

pub data WatchAction : Type 0 where
  switch : WatchAction
  config : WatchAction
  policy : WatchAction
  rebuild : WatchAction
  overflow : WatchAction

-- IN_Q_OVERFLOW.
abbrev pub in_q_overflow : ℕ
in_q_overflow = 0x4000

-- IN_DELETE_SELF, IN_MOVE_SELF and IN_IGNORED.
abbrev pub in_replaced : ℕ
in_replaced = 0x400 + 0x800 + 0x8000

abbrev pub disable_name : Text
disable_name = b'd' ∷ b'i' ∷ b's' ∷ b'a' ∷ b'b' ∷ b'l' ∷ b'e' ∷ []

abbrev pub config_name : Text
config_name = b'c' ∷ b'o' ∷ b'n' ∷ b'f' ∷ b'i' ∷ b'g' ∷ []

-- "packages.list".
abbrev pub packages_name : Text
packages_name =
    b'p' ∷ b'a' ∷ b'c' ∷ b'k' ∷ b'a' ∷ b'g' ∷ b'e' ∷ b's' ∷ b'.' ∷ b'l' ∷ b'i' ∷ b's' ∷ b't' ∷ []

-- The watch descriptors.
pub record WatchSet : Type 0 where
  pub module_wd : ℕ
  pub config_wd : ℕ
  pub packages_wd : Option ℕ

abbrev pub is_wd : Option ℕ → ℕ → Bool
is_wd none wd = false
is_wd (some packages) wd = packages == wd

abbrev pub in_module : Text → Option WatchAction
in_module name =
    if text_eq name disable_name
    then some switch
    else if text_eq name config_name
    then some rebuild
    else none

unfoldable pub classify : WatchSet → WatchEvent → Option WatchAction
classify set event =
    if not (bit_and event.mask in_q_overflow == 0)
    then some overflow
    else if not (bit_and event.mask in_replaced == 0)
    then some rebuild
    else if event.wd == set.module_wd
    then in_module event.name
    else if event.wd == set.config_wd && not (is_empty event.name)
    then some config
    else if is_wd set.packages_wd event.wd && text_eq event.name packages_name
    then some policy
    else none

-- `split(|b| *b == 0).next()`.
abbrev pub before_nul : List ℕ → List ℕ
before_nul [] = []
before_nul (b ∷ bytes) = let rest = before_nul bytes in if b == 0 then [] else b ∷ rest

abbrev pub put : WatchEvent → List WatchEvent → Option (List WatchEvent)
put event events = some (event ∷ events)

-- `u32::from_ne_bytes` of four bytes; the guard of the loop leaves no shorter slice.
abbrev pub word_of : List ℕ → ℕ
word_of (a ∷ b ∷ c ∷ d ∷ rest) = word32 a b c d
word_of bytes = 0

abbrev pub event_at : (List ℕ → Text) → List ℕ → WatchEvent
event_at lossy buf = record {
  wd = word_of buf;
  mask = word_of (drop 4 buf);
  name = lossy (before_nul (take (word_of (drop 12 buf)) (drop 16 buf)));
}

-- The loop of `parse_inotify` on what is left of the buffer. `lossy` is `String::from_utf8_lossy`, and
-- `none` means that `fuel` rounds are not enough.
unfoldable pub parse_events : (List ℕ → Text) → ℕ → List ℕ → Option (List WatchEvent)
parse_events lossy zero buf = if ltb (length buf) 16 then some [] else none
parse_events lossy (suc fuel) buf =
    let later = parse_events lossy fuel (drop (word_of (drop 12 buf)) (drop 16 buf)) in
    if ltb (length buf) 16 then some [] else and_then later (put (event_at lossy buf))

-- A round takes at least 16 bytes, so one round for each byte is enough.
unfoldable pub parse_inotify : (List ℕ → Text) → List ℕ → Option (List WatchEvent)
unfolding parse_events
parse_inotify lossy buf = parse_events lossy (length buf) buf

abbrev pub note : Option WatchAction → List WatchAction → List WatchAction
note none actions = actions
note (some action) actions = action ∷ actions

abbrev pub actions_of : WatchSet → List WatchEvent → List WatchAction
actions_of set [] = []
actions_of set (event ∷ events) = note (classify set event) (actions_of set events)

abbrev pub joined : List WatchAction → List WatchAction → Option (List WatchAction)
joined now more = some (now ++ more)

-- `drain` over what the reads return: an empty read or an error ends the loop.
unfoldable pub drain : (List ℕ → Text) → WatchSet → List (List ℕ) → Option (List WatchAction)
unfolding parse_inotify classify
drain lossy set [] = some []
drain lossy set ([] ∷ reads) = some []
drain lossy set ((b ∷ buf) ∷ reads) =
    let more = drain lossy set reads in
    and_then (parse_inotify lossy (b ∷ buf))
      (λ events. and_then more (joined (actions_of set events)))
