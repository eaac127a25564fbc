-- ===== src/Network/Moves.antt =====
-- What each step of two endpoints of src/arc_reliable.c does to the account of their messages.
use mathlib.Core.Path.{subst₂}
use arc_protocol.Prelude.{zero, suc}
use arc_protocol.Prelude.{◌==◌}
use arc_protocol.Prelude.{suc}
use arc_protocol.Prelude.{
  ℕ, ◌+◌, ◌≡◌, ◌<◌, ◌^◌, refl, sym, ap, ◌∙◌, inl, inr, arith, Option-cases, ==_iff,
}
use arc_protocol.Prelude.{true, false, some, List, [], ◌∷◌, ◌++◌, get_elem?, set}
use mathlib.Core.Path.{subst}
use arc_protocol.Memory.{u16}
use arc_protocol.Protocol.{Frame}
use arc_protocol.Reliable.{
  Pending, pending_to_frame, pending_find, pending_matches, clear_pending, is_ack_frame, ack_frame,
  tick_loop, seen_contains, source_session_changed, seen_entry,
}
use arc_protocol.Reliable.Slots.{find_index-some}
use arc_protocol.Reliable.Invariant.{clear_pending-none, clear_pending-some}
use arc_protocol.Network.{System, reported, In, All, IsDistinct}
use arc_protocol.Network.Traffic.{In-append, In-left, All-append, IsQueued}
use arc_protocol.Network.Invariant.{Inv, All-In, All-map}
use arc_protocol.Network.Ledger.{
  IsHeard, IsAnswer, IsSettled, Ledger, IsHeard-In, IsAnswer-append, IsSettled-append,
  IsWaiting-set, IsWaiting-stored, IsDistinct-unique, seen_contains-stored, tick_loop-IsWaiting,
}

-- A send that is accepted.
pub Ledger-originate :
    (s : System) (i : ℕ) (old p : Pending)
    → Ledger s
    → get_elem? s.sender.pending i ≡ some old
    → old.in_use ≡ false
    → p.in_use ≡ true
    → p.seq ≡ s.sender.next_seq
    → is_ack_frame (pending_to_frame p s.sender.my_addr) ≡ false
    → Ledger (record s {
      sender = record s.sender {
        next_seq = u16 (s.sender.next_seq + 1);
        pending = set s.sender.pending i p;
      };
      network = pending_to_frame p s.sender.my_addr ∷ s.network;
      accepted = pending_to_frame p s.sender.my_addr ∷ s.accepted;
    })
unfolding pending_to_frame
Ledger-originate s i old p l at free taken seq not_ack =
    let addr = s.sender.my_addr in
    let moved : (f : Frame)
        → IsSettled addr s.delivered s.failed s.sender.pending f
        → IsSettled addr s.delivered s.failed (set s.sender.pending i p) f =
      (λ f k. elim k [
        | inl m ↦ inl m
        | inr (inl m) ↦ inr (inl m)
        | inr (inr w) ↦ elim (IsWaiting-set addr f s.sender.pending i old p w at) [
          | inl kept ↦ inr (inr kept)
          | inr (u, e) ↦ absurd (let clash : true ≡ false = sym u ∙ free in cc)
        ]
      ]) in
    record {
      seq_word = omega arith;
      words = (rw seq l.seq_word, l.words);
      answers = (inl not_ack, l.answers);
      learnt = l.learnt;
      settled = (
        inr (inr (IsWaiting-stored addr s.sender.pending i old p at taken)),
        All-map moved s.accepted l.settled,
      );
    }

-- The sender changes, and sends what is no acknowledgement.
pub Ledger-sender :
    (s : System) (n : ℕ) (ps : List Pending) (more fails : List Frame)
    → Ledger s
    → n < 2 ^ 16
    → All (λ f. is_ack_frame f ≡ false) more
    → All (IsSettled s.sender.my_addr s.delivered fails ps) s.accepted
    → Ledger (record s {
      sender = record s.sender { next_seq = n; pending = ps };
      network = more ++ s.network;
      failed = fails;
    })
Ledger-sender s n ps more fails l small plain settled = record {
  seq_word = small;
  words = l.words;
  answers =
      All-append (IsAnswer s.delivered) more s.network (All-map (λ f e. inl e) more plain)
        l.answers;
  learnt = l.learnt;
  settled = settled;
}

-- A frame that comes again.
pub Ledger-repeat :
    (s : System) (f : Frame) (n : ℕ)
    → Ledger s
    → In f s.accepted
    → seen_contains s.receiver.seen s.sender.my_addr s.sender.session f.seq ≡ true
    → Ledger (record s {
      receiver = record s.receiver {
        next_seq = n;
        sources = (source_session_changed s.receiver.sources f.src f.session).1;
      };
      network = ack_frame s.receiver f ∷ s.network;
    })
unfolding ack_frame
Ledger-repeat s f n l m known = record {
  seq_word = l.seq_word;
  words = l.words;
  answers = (
    inr (f.seq, All-In (λ f. f.seq < 2 ^ 16) f s.accepted l.words m, refl, l.learnt f.seq known),
    l.answers,
  );
  learnt = l.learnt;
  settled = l.settled;
}

-- A frame that is new.
pub Ledger-fresh :
    (s : System) (f : Frame) (n i : ℕ)
    → Ledger s
    → In f s.accepted
    → f.src ≡ s.sender.my_addr
    → f.session ≡ s.sender.session
    → Ledger (record s {
      receiver = record s.receiver {
        next_seq = n;
        sources = (source_session_changed s.receiver.sources f.src f.session).1;
        seen = set s.receiver.seen i (seen_entry f.src f.session f.seq);
      };
      network = ack_frame s.receiver f ∷ s.network;
      delivered = f ∷ s.delivered;
    })
unfolding ack_frame
Ledger-fresh s f n i l m from session =
    let addr = s.sender.my_addr in
    let ses = s.sender.session in
    record {
      seq_word = l.seq_word;
      words = l.words;
      answers = (
        inr (f.seq, All-In (λ f. f.seq < 2 ^ 16) f s.accepted l.words m, refl, inl refl),
        All-map (IsAnswer-append (f ∷ []) s.delivered) s.network l.answers,
      );
      learnt = λ seq h.
          let h' : seen_contains (set s.receiver.seen i (seen_entry addr ses f.seq)) addr ses seq
              ≡ true =
            subst₂
              (λ (a b : ℕ).
                seen_contains (set s.receiver.seen i (seen_entry a b f.seq)) addr ses seq ≡ true)
              from session h in
          elim (seen_contains-stored s.receiver.seen i addr ses f.seq seq h') [
            | inl k ↦ inr (l.learnt seq k)
            | inr e ↦ inl e
          ];
      settled =
          All-map (IsSettled-append addr (f ∷ []) s.delivered s.failed s.sender.pending) s.accepted
            l.settled;
    }

IsQueued-get :
    (addr : ℕ) (fs : List Frame) (ps : List Pending) (i : ℕ) (p : Pending)
    → IsQueued addr fs ps
    → get_elem? ps i ≡ some p
    → p.in_use ≡ true
    → In (pending_to_frame p addr) fs
IsQueued-get addr fs [] i p q at u = ground (arith, at)
IsQueued-get addr fs (x ∷ xs) zero p (q, qs) at u =
    let same : x ≡ p = ground (arith, at) in
    subst (λ (t : Pending). In (pending_to_frame t addr) fs) same
      (q (ap (λ (t : Pending). t.in_use) same ∙ u))
IsQueued-get addr fs (x ∷ xs) (suc i) p (q, qs) at u = IsQueued-get addr fs xs i p qs at u

-- An entry is cleared for a number that was heard: its frame was delivered.
pub cleared-IsSettled :
    (s : System) (dst n : ℕ)
    → Inv s
    → Ledger s
    → IsDistinct s.accepted
    → IsHeard n s.delivered
    → All
        (IsSettled s.sender.my_addr s.delivered s.failed
          (clear_pending s.sender.pending dst s.sender.session n))
        s.accepted
unfolding pending_to_frame
cleared-IsSettled s dst n v l distinct heard =
    let r = s.sender in
    let addr = r.my_addr in
    elim (Option-cases (pending_find r.pending dst r.session n)) [
      | inl e ↦ rw (clear_pending-none r.pending dst r.session n e) l.settled
      | inr (i, e) ↦
          let (p, at, holds) = find_index-some (pending_matches dst r.session n) r.pending i e in
          let (d, m, same) = IsHeard-In n s.delivered heard in
          let used : p.in_use ≡ true = ground (arith, holds) in
          let number : (p.seq == n) ≡ true = ground (arith, holds) in
          let held = IsQueued-get addr s.accepted r.pending i p v.queued at used in
          let accepted = All-In (λ f. In f s.accepted) d s.delivered v.genuine m in
          let it : d ≡ pending_to_frame p addr =
            IsDistinct-unique s.accepted d (pending_to_frame p addr) distinct accepted held
              (same ∙ sym ((==_iff p.seq n).0 number)) in
          let cleared : Pending = record p { in_use = false } in
          let moved : (f : Frame)
              → IsSettled addr s.delivered s.failed r.pending f
              → IsSettled addr s.delivered s.failed (set r.pending i cleared) f =
            (λ f k. elim k [
              | inl a ↦ inl a
              | inr (inl a) ↦ inr (inl a)
              | inr (inr w) ↦ elim (IsWaiting-set addr f r.pending i p cleared w at) [
                | inl kept ↦ inr (inr kept)
                | inr (u, this) ↦ inl (subst (λ (g : Frame). In g s.delivered) (it ∙ this) m)
              ]
            ]) in
          rw (clear_pending-some r.pending dst r.session n i p e at)
            (All-map moved s.accepted l.settled)
    ]

pub ticked-IsSettled :
    (s : System) (now_ms : ℕ)
    → Inv s
    → Ledger s
    → let o = tick_loop s.sender now_ms s.sender.pending in
      All (IsSettled s.sender.my_addr s.delivered (reported o.1 ++ s.failed) o.0) s.accepted
ticked-IsSettled s now_ms v l =
    let r = s.sender in
    let o = tick_loop r now_ms r.pending in
    All-map {P = IsSettled r.my_addr s.delivered s.failed r.pending}
      {Q = IsSettled r.my_addr s.delivered (reported o.1 ++ s.failed) o.0}
      (λ f k. elim k [
        | inl m ↦ inl m
        | inr (inl m) ↦ inr (inl (In-append f (reported o.1) s.failed m))
        | inr (inr w) ↦
            elim (tick_loop-IsWaiting r v.sender_sends v.sender_fails now_ms f r.pending w) [
              | inl m ↦ inr (inl (In-left f (reported o.1) s.failed m))
              | inr kept ↦ inr (inr kept)
            ]
      ])
      s.accepted l.settled
