-- ===== src/Network/Settled.antt =====
-- The account of the messages between two endpoints of src/arc_reliable.c at the end of a run on
-- the network.
use arc_protocol.Network.{here, later, start, endpoint, Reach}
use arc_protocol.Reliable.{init}
use arc_protocol.Prelude.{ℕ, ◌+◌, ◌≡◌, ◌≢◌, ◌<◌, ◌≤◌, ◌^◌, sym, ◌∙◌, inl, inr, arith}
use arc_protocol.Prelude.{true, false, List, [], ◌∷◌, ◌++◌, length}
use arc_protocol.Memory.{u16}
use arc_protocol.Protocol.{Frame}
use arc_protocol.Reliable.{
  pending_to_frame, clear_pending, take_seq, tick_loop, seen_contains, init,
}
use arc_protocol.Reliable.Exchange.{not_ack-sent}
use arc_protocol.Network.{
  System, Step, originate, refuse, retry, arrive, answer, sent, reported, endpoint, start, Reach,
  here, later, All, IsDistinct,
}
use arc_protocol.Network.Traffic.{tick_loop-sent}
use arc_protocol.Network.Invariant.{Inv, IsTraffic, IsMessage, All-In, All-map, All-get}
use arc_protocol.Network.Effects.{
  arrived-message, arrived-foreign, answered-foreign, answered-ack, originated, refused, retried,
}
use arc_protocol.Network.Steps.{Step-Inv}
use arc_protocol.Network.Once.{Step-accepted, start-Inv}
use arc_protocol.Network.Ledger.{IsAnswer, IsSettled, Ledger}
use arc_protocol.Network.Moves.{
  Ledger-originate, Ledger-sender, Ledger-repeat, Ledger-fresh, cleared-IsSettled, ticked-IsSettled,
}

Step-Ledger :
    (s t : System)
    → Inv s
    → Ledger s
    → length s.accepted ≤ 16
    → IsDistinct s.accepted
    → Step s t
    → Ledger t
unfolding take_seq pending_to_frame
Step-Ledger s t v l room distinct
      (originate family type flags payload len now_ms n a calls not_ack h) =
    originated Ledger s family type flags payload len now_ms n a calls v h
      (λ i old p at free taken seq fam ty dst session fl.
        Ledger-originate s i old p l at free taken seq
          (not_ack-sent (pending_to_frame p s.sender.my_addr) (rw (fam, ty) not_ack)))
Step-Ledger s t v l room distinct
      (refuse dst family type flags reliable payload len now_ms x a calls h) =
    refused Ledger s dst family type flags reliable payload len now_ms x a calls h l (
      Ledger-sender s (u16 (s.sender.next_seq + 1)) s.sender.pending [] s.failed l (omega arith) tt
        l.settled)
Step-Ledger s t v l room distinct (retry now_ms a calls h) =
    let r = s.sender in
    let o = tick_loop r now_ms r.pending in
    let again =
      (tick_loop-sent r v.sender_sends v.sender_fails s.accepted now_ms r.pending v.queued).0 in
    let plain =
      All-map
        (λ f m.
          (All-In (IsMessage r.my_addr s.receiver.my_addr r.session) f s.accepted v.messages m).3)
        (sent o.1) again in
    retried Ledger s now_ms a calls h (
      Ledger-sender s r.next_seq o.0 (sent o.1) (reported o.1 ++ s.failed) l l.seq_word plain
        (ticked-IsSettled s now_ms v l))
Step-Ledger s t v l room distinct (arrive i f x b calls at h) =
    elim (All-get (IsTraffic s.sender.my_addr s.accepted) s.network i f v.traffic at) [
      | inl m ↦
          let (from, to, session, not_ack, rel) =
            All-In (IsMessage s.sender.my_addr s.receiver.my_addr s.sender.session) f s.accepted
              v.messages m in
          arrived-message Ledger s f x b calls v room m h
            (λ known. Ledger-repeat s f ((take_seq s.receiver).next_seq) l m known)
            (λ j e new at free.
              Ledger-fresh s f ((take_seq s.receiver).next_seq) j l m from session)
      | inr (back, is_ack) ↦ arrived-foreign Ledger s f x b calls v back h l
    ]
Step-Ledger s t v l room distinct (answer i f x a calls at h) =
    elim (All-get (IsTraffic s.sender.my_addr s.accepted) s.network i f v.traffic at) [
      | inl m ↦ answered-foreign Ledger s f x a calls v m h l
      | inr (back, is_ack) ↦
          let r = s.sender in
          answered-ack Ledger s f x a calls back is_ack h l (λ seq named.
            elim (All-get (IsAnswer s.delivered) s.network i f l.answers at) [
              | inl plain ↦ absurd (let clash : true ≡ false = sym is_ack ∙ plain in cc)
              | inr (n, small, body, heard) ↦ rw (named n small body) (
                  Ledger-sender s r.next_seq (clear_pending r.pending f.src r.session n) [] s.failed
                    l l.seq_word tt (cleared-IsSettled s f.src n v l distinct heard))
            ])
    ]

-- What was accepted before is the tail of what was accepted later.
IsDistinct-tail : (more fs : List Frame) → IsDistinct (more ++ fs) → IsDistinct fs
IsDistinct-tail [] fs d = d
IsDistinct-tail (f ∷ more) fs d = IsDistinct-tail more fs d.1

Step-IsDistinct : (s t : System) → Step s t → IsDistinct t.accepted → IsDistinct s.accepted
Step-IsDistinct s t (originate family type flags payload len now_ms n a calls not_ack h) d =
    IsDistinct-tail (sent calls) s.accepted d
Step-IsDistinct s t (refuse dst family type flags reliable payload len now_ms x a calls h) d = d
Step-IsDistinct s t (retry now_ms a calls h) d = d
Step-IsDistinct s t (arrive i f x b calls at h) d = d
Step-IsDistinct s t (answer i f x a calls at h) d = d

Reach-Ledger :
    (s t : System)
    → Inv s
    → Ledger s
    → Reach s t
    → length t.accepted ≤ 16
    → IsDistinct t.accepted
    → Inv t × Ledger t
Reach-Ledger s t v l here room distinct = (v, l)
Reach-Ledger s t v l (later {t = u} reach step) room distinct =
    let before : length u.accepted ≤ 16 = omega (arith, room, Step-accepted u t step) in
    let earlier = Step-IsDistinct u t step distinct in
    let (w, k) = Reach-Ledger s u v l reach before earlier in
    (Step-Inv u t w before step, Step-Ledger u t w k before earlier step)

start-Ledger :
    (x y x_session x_timeout x_retries x_seq y_session y_timeout y_retries y_seq : ℕ)
    → x_seq < 2 ^ 16
    → Ledger (
        start
          (endpoint x x_session x_timeout x_retries x_seq)
          (endpoint y y_session y_timeout y_retries y_seq))
unfolding init seen_contains
start-Ledger x y x_session x_timeout x_retries x_seq y_session y_timeout y_retries y_seq small =
    record {
      seq_word = small;
      words = tt;
      answers = tt;
      learnt = λ seq h. absurd (cc);
      settled = tt;
    }

-- Two endpoints with different addresses start after `arc_reliable_init`, with all callbacks, the
-- first sequence number of the sender one of 16 bits. It sends reliable messages to the other, no
-- acknowledgements among them, some sends giving an error, and runs its timer; the network loses,
-- repeats and reorders frames at will. In every state reached by such steps in which at most 16
-- messages have been accepted, all with different sequence numbers, each of them was delivered to
-- the receiver's application, or was reported to the sender's as failed, or waits in the sender's
-- table: none is lost in silence.
pub accepted_accounted :
    (x y x_session x_timeout x_retries x_seq y_session y_timeout y_retries y_seq : ℕ) (t : System)
    → x ≢ y
    → x_seq < 2 ^ 16
    → Reach
        (start
          (endpoint x x_session x_timeout x_retries x_seq)
          (endpoint y y_session y_timeout y_retries y_seq))
        t
    → length t.accepted ≤ 16
    → IsDistinct t.accepted
    → All (IsSettled t.sender.my_addr t.delivered t.failed t.sender.pending) t.accepted
accepted_accounted x y x_session x_timeout x_retries x_seq y_session y_timeout y_retries y_seq t
      apart small reach room distinct =
    (Reach-Ledger _ t
      (start-Inv x y x_session x_timeout x_retries x_seq y_session y_timeout y_retries y_seq apart)
      (start-Ledger x y x_session x_timeout x_retries x_seq y_session y_timeout y_retries y_seq
        small)
      reach room distinct).1.settled
