-- ===== src/Reliable/Exchange.antt =====
-- Two endpoints of src/arc_reliable.c and one reliable message: the send at the one, the receive
-- at the other, and the acknowledgement on its way back.
use arc_protocol.Reliable.Slots.{get-set}
use arc_protocol.Prelude.{ℕ, ◌+◌, ◌<◌, ◌≤◌, ◌==◌, ◌&&◌, not, true, false, Bool-cases}
use arc_protocol.Prelude.{none, [], ◌++◌, set, Option-cases, bit_and, bit_or, ==_refl}
use arc_protocol.Prelude.{◌≡◌, refl, inl, inr, arith}
use arc_protocol.Prelude.Bits.{bit_and_bit, bit_or_step}
use arc_protocol.Memory.{Bytes, Ptr, done}
use arc_protocol.Protocol.{Frame, ok, flag_reliable, family_netmgmt, netmgmt_ack}
use arc_protocol.Router.{call_of}
use arc_protocol.Reliable.{
  Pending, Reliable, delivered, ack, pending_alloc, pending_find, pending_matches, pending_count,
}
use arc_protocol.Reliable.{
  seen_contains, staged, pending_to_frame, is_ack_frame, take_seq, ack_frame,
}
use arc_protocol.Reliable.{
  send, receive, note_source, note_seen, source_session_changed, emit_frame,
}
use arc_protocol.Reliable.Slots.{
  find_index-some, find_index-set, get_elem?-lt, pending_count-set, pending_count-full,
}
use arc_protocol.Reliable.Invariant.{IsValid, IsBuffered-get, Covers, copy_payload-done}
use arc_protocol.Reliable.Send.{IsSentFrame, send_slot, staged-IsSentFrame}
use arc_protocol.Reliable.Receive.{receive_found}
use arc_protocol.Reliable.Branches.{receive-fresh}
use arc_protocol.Reliable.History.{seen_drop_source-absent}

reliable_odd : (flags : ℕ) → bit_and (bit_or flags flag_reliable) flag_reliable ≡ 1
reliable_odd flags = omega (arith, bit_and_bit 0 (bit_or flags 1), bit_or_step flags 1)

pub reliable_set : (flags : ℕ) → (bit_and (bit_or flags flag_reliable) flag_reliable == 0) ≡ false
reliable_set flags = rw (reliable_odd flags) refl

pub not_ack-sent :
    (f : Frame)
    → (f.family == family_netmgmt && f.type == netmgmt_ack) ≡ false
    → is_ack_frame f ≡ false
unfolding is_ack_frame
not_ack-sent f h = ground (arith, h)

slot-matches :
    (dst session seq : ℕ) (p : Pending)
    → p.in_use ≡ true
    → p.dst ≡ dst
    → p.session ≡ session
    → p.seq ≡ seq
    → pending_matches dst session seq p ≡ true
slot-matches dst session seq p u a b c =
    rw (u, a, b, c, ==_refl dst, ==_refl session, ==_refl seq) refl

module _ {Fn User : Type 0} where
  noted-absent :
      (r : Reliable Fn User) (f : Frame)
      → seen_contains r.seen f.src f.session f.seq ≡ false
      → seen_contains ((note_source r f).seen) f.src f.session f.seq ≡ false
  unfolding note_source
  noted-absent r f h = elim (Bool-cases ((source_session_changed r.sources f.src f.session).0)) [
    | inl e ↦ rw e (seen_drop_source-absent r.seen f.src f.src f.session f.seq h)
    | inr e ↦ rw e h
  ]

  pub ack_frame-IsAck : (r : Reliable Fn User) (f : Frame) → is_ack_frame (ack_frame r f) ≡ true
  unfolding is_ack_frame ack_frame
  ack_frame-IsAck r f = refl

  -- A reliable message of at most 64 bytes, not of the acknowledgement's type, from a valid
  -- endpoint `a` to endpoint `b`, which has not seen its sequence number, when `a` has a free
  -- entry and nothing else is outstanding under that number: `a` sends a frame `f` with the
  -- message, `b` acknowledges it by a frame `g` and delivers it, and when `g` gets to `a`, just as
  -- many entries are pending as before the send.
  pub exchange :
      (a b : Reliable Fn User) (family type flags : ℕ) (payload : Ptr Bytes) (len now_ms : ℕ)
      → IsValid a
      → len ≤ 64
      → Covers payload len
      → pending_count a.pending < 8
      → (family == family_netmgmt && type == netmgmt_ack) ≡ false
      → pending_find a.pending b.my_addr a.session a.next_seq ≡ none
      → seen_contains b.seen a.my_addr a.session a.next_seq ≡ false
      → (a' : Reliable Fn User) × (a'' : Reliable Fn User) × (b' : Reliable Fn User) × (f : Frame)
        × (g : Frame) × (send a b.my_addr family type flags true payload len now_ms
            ≡ done (ok a.next_seq, (a', call_of a.send_fn a.user f)))
        × IsSentFrame a b.my_addr family type (bit_or flags flag_reliable) payload len f
        × (receive b f
            ≡ done (delivered, (b', call_of b.send_fn b.user g ++ call_of b.deliver_fn b.user f)))
        × (pending_count a'.pending ≡ pending_count a.pending + 1)
        × (receive a' g ≡ done (ack, (a'', [])))
        × (pending_count a''.pending ≡ pending_count a.pending)
  unfolding emit_frame take_seq pending_to_frame ack_frame
  exchange a b family type flags payload len now_ms v h c room not_ack unsent unseen =
      elim (Option-cases (pending_alloc a.pending)) [
        | inl e ↦ absurd (omega (arith, pending_count-full a.pending e, v.pending_length, room))
        | inr (i, e) ↦
            let (old, at, free) = find_index-some (λ (p : Pending). not p.in_use) a.pending i e in
            let (out, copied, full, body) =
              copy_payload-done old.payload payload len
                (IsBuffered-get a.pending i old v.buffers at) h c in
            let slot =
              staged (take_seq a) out b.my_addr family type (bit_or flags flag_reliable) a.next_seq
                len now_ms in
            let f = pending_to_frame slot a.my_addr in
            let g = ack_frame b f in
            let a' : Reliable Fn User = record (take_seq a) { pending = set a.pending i slot } in
            let counted = pending_count-set a.pending i old slot at in
            let parked : pending_count (set a.pending i slot) ≡ pending_count a.pending + 1 =
              ground (arith, counted, free) in
            let found =
              find_index-set (pending_matches b.my_addr a.session a.next_seq) a.pending i slot
                (get_elem?-lt a.pending i old at) unsent
                (slot-matches b.my_addr a.session a.next_seq slot refl refl refl refl) in
            let stored = get-set a.pending i slot (get_elem?-lt a.pending i old at) in
            let (acked, less) =
              receive_found a' g a.next_seq i slot refl (ack_frame-IsAck b f) refl refl v.seq_bound
                found stored in
            (
              a',
              record a' { pending = set a'.pending i (record slot { in_use = false }) },
              note_seen (take_seq (note_source b f)) f,
              f,
              g,
              send_slot a b.my_addr family type flags payload len now_ms i old out h c e at copied,
              staged-IsSentFrame a out b.my_addr family type (bit_or flags flag_reliable) payload
                  len now_ms h c body,
              receive-fresh b f refl (not_ack-sent f not_ack) (reliable_set flags)
                  (noted-absent b f unseen),
              parked,
              acked,
              omega (arith, less, parked),
            )
      ]
