-- ===== src/Network/Steps.antt =====
-- The invariant of two endpoints of src/arc_reliable.c on the network, from step to step.
use arc_protocol.Prelude.{◌+◌}
use arc_protocol.Memory.{u16}
use arc_protocol.Prelude.{◌≤◌, refl, inl, inr}
use arc_protocol.Prelude.{[], ◌++◌, length}
use arc_protocol.Reliable.{take_seq, pending_to_frame, ack_frame}
use arc_protocol.Reliable.{tick_loop, clear_pending}
use arc_protocol.Reliable.Exchange.{reliable_set, not_ack-sent, ack_frame-IsAck}
use arc_protocol.Network.{sent, System, Step, originate, retry, arrive, answer}
use arc_protocol.Network.Traffic.{tick_loop-sent, IsQueued-clear_pending}
use arc_protocol.Network.Invariant.{
  Inv, IsTraffic, IsMessage, All-In, All-get, Inv-originate, Inv-sender, Inv-repeat,
}
use arc_protocol.Network.Fresh.{Inv-fresh}
use arc_protocol.Network.{reported, refuse}
use arc_protocol.Network.Effects.{
  arrived-message, arrived-foreign, answered-foreign, answered-ack, originated, refused, retried,
}

pub Step-Inv : (s t : System) → Inv s → length s.accepted ≤ 16 → Step s t → Inv t
unfolding take_seq ack_frame pending_to_frame
Step-Inv s t v room (originate family type flags payload len now_ms n a calls not_ack h) =
    originated Inv s family type flags payload len now_ms n a calls v h
      (λ i old p at free taken seq fam ty dst session fl.
        Inv-originate s i p (u16 (s.sender.next_seq + 1)) v (
          refl,
          dst,
          session,
          not_ack-sent (pending_to_frame p s.sender.my_addr) (rw (fam, ty) not_ack),
          rw fl (reliable_set flags),
        ))
Step-Inv s t v room (refuse dst family type flags reliable payload len now_ms x a calls h) =
    refused Inv s dst family type flags reliable payload len now_ms x a calls h v
      (Inv-sender s (u16 (s.sender.next_seq + 1)) s.sender.pending [] s.failed v v.queued tt)
Step-Inv s t v room (retry now_ms a calls h) =
    let r = s.sender in
    let o = tick_loop r now_ms r.pending in
    let (again, queued) =
      tick_loop-sent r v.sender_sends v.sender_fails s.accepted now_ms r.pending v.queued in
    retried Inv s now_ms a calls h
      (Inv-sender s r.next_seq o.0 (sent o.1) (reported o.1 ++ s.failed) v queued again)
Step-Inv s t v room (arrive i f x b calls at h) =
    elim (All-get (IsTraffic s.sender.my_addr s.accepted) s.network i f v.traffic at) [
      | inl m ↦
          let (from, to, session, not_ack, rel) =
            All-In (IsMessage s.sender.my_addr s.receiver.my_addr s.sender.session) f s.accepted
              v.messages m in
          let back = ack_frame s.receiver f in
          let is_ack = ack_frame-IsAck s.receiver f in
          arrived-message Inv s f x b calls v room m h
            (λ known.
              Inv-repeat s f back ((take_seq s.receiver).next_seq) v from session from is_ack)
            (λ j e new at free.
              Inv-fresh s f back ((take_seq s.receiver).next_seq) j e v m from session new from
                is_ack at free)
      | inr (back, is_ack) ↦ arrived-foreign Inv s f x b calls v back h v
    ]
Step-Inv s t v room (answer i f x a calls at h) =
    elim (All-get (IsTraffic s.sender.my_addr s.accepted) s.network i f v.traffic at) [
      | inl m ↦ answered-foreign Inv s f x a calls v m h v
      | inr (back, is_ack) ↦
          let r = s.sender in
          answered-ack Inv s f x a calls back is_ack h v (λ seq named.
            Inv-sender s r.next_seq (clear_pending r.pending f.src r.session seq) [] s.failed v
              (IsQueued-clear_pending r.my_addr s.accepted r.pending f.src r.session seq v.queued)
              tt)
    ]
