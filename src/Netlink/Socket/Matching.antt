-- ===== src/Netlink/Socket/Matching.antt =====
-- crates/fluxd/src/netlink/wire.rs: which messages of a datagram answer a request.
use flux_rs.Base.{
  ℕ, ◌≡◌, ◌≢◌, ◌⊎◌, refl, sym, ap, ◌∙◌, Bool, true, false, if◌then◌else◌, List, [], ◌∷◌, ◌++◌, All,
  arith,
}
use mathlib.Core.List.{append_assoc, append-nil}
use flux_rs.Netlink.{RawMessage, ok}
use flux_rs.Netlink.Socket.{RequestSocket, with_pending, split_seq, match_messages}

-- An answer comes from the kernel, or from the socket's own port.
abbrev pub IsPeer : ℕ → RequestSocket → RawMessage → Type 0
IsPeer seq s m = (m.seq ≢ seq) ⊎ ((m.pid ≡ 0) ⊎ (m.pid ≡ s.port_id))

abbrev pub keep_others : RequestSocket → List RawMessage → RequestSocket
keep_others s others = if s.nonblocking then with_pending s (s.pending ++ others) else s

if_same : {A : Type 0} (b : Bool) (x y : A) → x ≡ y → (if b then x else y) ≡ y
if_same true x y h = h
if_same false x y h = refl

if_true : {A : Type 0} (b : Bool) (x y : A) → b ≡ true → (if b then x else y) ≡ x
if_true true x y h = refl
if_true false x y h = ground arith

keep_others_none : (s : RequestSocket) → keep_others s [] ≡ s
keep_others_none s =
    if_same s.nonblocking (with_pending s (s.pending ++ [])) s
      (ap (with_pending s) (append-nil s.pending))

keep_others_kept :
    (s : RequestSocket) (m : RawMessage) (others : List RawMessage)
    → s.nonblocking ≡ true
    → keep_others (with_pending s (s.pending ++ (m ∷ []))) others ≡ keep_others s (m ∷ others)
keep_others_kept s m others h =
    if_true s.nonblocking _ _ h
    ∙ (ap (with_pending s) (append_assoc s.pending (m ∷ []) others)
        ∙ sym (if_true s.nonblocking (with_pending s (s.pending ++ (m ∷ others))) s h))

keep_others_dropped :
    (s : RequestSocket) (others : List RawMessage)
    → s.nonblocking ≡ false
    → keep_others s others ≡ s
keep_others_dropped s others h = rw h

-- When every answer comes from a peer, the batch is accepted: the messages of the sequence number are
-- returned in order, and a nonblocking socket keeps all the others, in order, after its pending ones.
pub match_messages-split_seq :
    (seq : ℕ) (s : RequestSocket) (matching ms : List RawMessage)
    → All (IsPeer seq s) ms
    → match_messages seq s matching ms
      ≡ (ok (matching ++ (split_seq seq ms).0), keep_others s (split_seq seq ms).1)
unfolding match_messages split_seq
match_messages-split_seq seq s matching [] h =
    λ i. (ok (sym (append-nil matching) i), sym (keep_others_none s) i)
match_messages-split_seq seq s matching (m ∷ ms) h =
    let others = (split_seq seq ms).1 in
    ground (
      arith,
      h.0,
      match_messages-split_seq seq s matching ms h.1,
      match_messages-split_seq seq (with_pending s (s.pending ++ (m ∷ []))) matching ms h.1,
      match_messages-split_seq seq s (matching ++ (m ∷ [])) ms h.1,
      append_assoc matching (m ∷ []) (split_seq seq ms).0,
      keep_others_kept s m others,
      keep_others_dropped s others,
      keep_others_dropped s (m ∷ others),
    )

-- A batch that is accepted has no answer from another port.
pub match_messages_peers :
    (seq : ℕ) (s : RequestSocket) (matching ms out : List RawMessage)
    → (match_messages seq s matching ms).0 ≡ ok out
    → All (IsPeer seq s) ms
unfolding match_messages
match_messages_peers seq s matching [] out h = tt
match_messages_peers seq s matching (m ∷ ms) out h = ground (
  arith,
  match_messages_peers seq s matching ms out,
  match_messages_peers seq (with_pending s (s.pending ++ (m ∷ []))) matching ms out,
  match_messages_peers seq s (matching ++ (m ∷ [])) ms out,
)
