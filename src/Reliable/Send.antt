-- ===== src/Reliable/Send.antt =====
-- Originating a frame: `arc_reliable_send` of src/arc_reliable.c, reliable or not.
use arc_protocol.Prelude.{ℕ, suc, zero, if◌then◌else◌, ◌+◌, ◌<◌, ◌≤◌, ◌&&◌, not, true, false}
use arc_protocol.Prelude.{none, some, [], length, get_elem?, set, take, Option-cases, bit_or}
use arc_protocol.Prelude.{◌≡◌, refl, sym, ◌∙◌, inl, inr, arith, ltb-true, ltb-false, ltb}
use arc_protocol.Memory.{Bytes, Ptr, done, is_null, u8}
use arc_protocol.Protocol.{Frame, ok, err, err_buffer, flag_reliable}
use arc_protocol.Router.{call_of}
use arc_protocol.Reliable.{Pending, Reliable, pending_alloc, pending_count, staged, fill_slot}
use arc_protocol.Reliable.{copy_payload, pending_to_frame, emit_frame, take_seq, send, zero_pending}
use arc_protocol.Reliable.Slots.{
  find_index-some, pending_count-set, pending_count-full, length-set, pending_count-bound,
}
use arc_protocol.Reliable.Invariant.{
  IsValid, IsBuffered-get, IsBuffered-set, Covers, meant, copy_payload-done,
}

Covers-checks :
    (payload : Ptr Bytes) (len : ℕ) → Covers payload len → (is_null payload && ltb 0 len) ≡ false
Covers-checks none len c = rw c refl
Covers-checks (some bytes) len c = refl

nonempty-payload :
    (out : Bytes) (len : ℕ)
    → ltb 0 (u8 len) ≡ true
    → (if ltb 0 (u8 len) then some out else none) ≡ some out
nonempty-payload out len e = rw e refl

meant_nothing : (payload : Ptr Bytes) → meant payload 0 ≡ []
meant_nothing none = refl
meant_nothing (some bytes) = refl

meant-staged :
    (out : Bytes) (payload : Ptr Bytes) (len : ℕ)
    → len ≤ 64
    → take len out ≡ meant payload len
    → meant (if ltb 0 (u8 len) then some out else none) len ≡ meant payload len
meant-staged out payload zero h e = sym (meant_nothing payload)
meant-staged out payload (suc k) h e =
    rw (nonempty-payload out (suc k) (ltb-true 0 (u8 (suc k)) (omega (arith, h)))) e

module _ {Fn User : Type 0} where
  pub fill_slot-done :
      (r : Reliable Fn User) (old out : Bytes) (dst family type flags seq : ℕ) (payload : Ptr Bytes)
      (len now_ms : ℕ)
      → copy_payload old payload len ≡ done out
      → fill_slot r old dst family type flags seq payload len now_ms
        ≡ done (staged r out dst family type flags seq len now_ms)
  unfolding fill_slot
  fill_slot-done r old out dst family type flags seq payload len now_ms e = rw e refl

  -- A reliable send that finds slot `i` free.
  pub send_slot :
      (r : Reliable Fn User) (dst family type flags : ℕ) (payload : Ptr Bytes) (len now_ms i : ℕ)
      (old : Pending) (out : Bytes)
      → len ≤ 64
      → Covers payload len
      → pending_alloc r.pending ≡ some i
      → get_elem? r.pending i ≡ some old
      → copy_payload old.payload payload len ≡ done out
      → let slot =
          staged
            (take_seq r)
            out
            dst
            family
            type
            (bit_or flags flag_reliable)
            r.next_seq
            len
            now_ms in
        send r dst family type flags true payload len now_ms
        ≡ done (
          ok r.next_seq,
          (record (take_seq r) { pending = set r.pending i slot }, emit_frame (take_seq r) slot),
        )
  unfolding send
  send_slot r dst family type flags payload len now_ms i old out h c e at copied = ground (
    arith,
    e,
    at,
    Covers-checks payload len c,
    ltb-false 64 len h,
    fill_slot-done (take_seq r) old.payload out dst family type (bit_or flags flag_reliable)
        r.next_seq payload len now_ms copied,
  )

  pub take_seq-IsValid : (r : Reliable Fn User) → IsValid r → IsValid (take_seq r)
  unfolding take_seq
  take_seq-IsValid r v = record {
    pending_length = v.pending_length;
    buffers = v.buffers;
    seen_length = v.seen_length;
    next_victim = v.next_victim;
    sources_length = v.sources_length;
    seq_bound = omega arith;
  }

  parked-IsValid :
      (r : Reliable Fn User) (i : ℕ) (slot : Pending)
      → IsValid r
      → length slot.payload ≡ 64
      → IsValid (record (take_seq r) { pending = set r.pending i slot })
  unfolding take_seq
  parked-IsValid r i slot v e = record {
    pending_length = length-set r.pending i slot ∙ v.pending_length;
    buffers = IsBuffered-set r.pending i slot v.buffers e;
    seen_length = v.seen_length;
    next_victim = v.next_victim;
    sources_length = v.sources_length;
    seq_bound = omega arith;
  }

  -- The frame of the contract: what a send with these arguments puts on the network.
  abbrev pub IsSentFrame :
      Reliable Fn User → (dst family type flags : ℕ) → Ptr Bytes → (len : ℕ) → Frame → Type 0
  IsSentFrame r dst family type flags payload len f =
      (f.src ≡ r.my_addr)
      × (f.dst ≡ dst)
      × (f.flags ≡ flags)
      × (f.session ≡ r.session)
      × (f.seq ≡ r.next_seq)
      × (f.family ≡ family)
      × (f.type ≡ type)
      × (f.payload_len ≡ len)
      × (meant f.payload len ≡ meant payload len)

  pub staged-IsSentFrame :
      (r : Reliable Fn User) (out : Bytes) (dst family type flags : ℕ) (payload : Ptr Bytes)
      (len now_ms : ℕ)
      → len ≤ 64
      → Covers payload len
      → take len out ≡ meant payload len
      → IsSentFrame r dst family type flags payload len (
          pending_to_frame
            (staged (take_seq r) out dst family type flags r.next_seq len now_ms)
            r.my_addr)
  unfolding take_seq pending_to_frame
  staged-IsSentFrame r out dst family type flags payload len now_ms h c e =
      (refl, refl, refl, refl, refl, refl, refl, omega (arith, h), meant-staged out payload len h e)

  -- On a valid endpoint with a free entry, a send that asks for an acknowledgement, of a payload
  -- of at most 64 bytes that the caller's memory holds: one more entry is pending, a frame with
  -- the message and the reliable flag goes out once, and the endpoint stays valid.
  pub send_parks :
      (r : Reliable Fn User) (dst family type flags : ℕ) (payload : Ptr Bytes) (len now_ms : ℕ)
      → IsValid r
      → len ≤ 64
      → Covers payload len
      → pending_count r.pending < 8
      → (r' : Reliable Fn User) × (f : Frame) × (send r dst family type flags true payload len
            now_ms
          ≡ done (ok r.next_seq, (r', call_of r.send_fn r.user f)))
        × IsSentFrame r dst family type (bit_or flags flag_reliable) payload len f
        × (pending_count r'.pending ≡ pending_count r.pending + 1)
        × IsValid r'
  unfolding emit_frame take_seq
  send_parks r dst family type flags payload len now_ms v h c room =
      elim (Option-cases (pending_alloc r.pending)) [
        | inl e ↦ absurd (omega (arith, pending_count-full r.pending e, v.pending_length, room))
        | inr (i, e) ↦
            let (old, at, free) = find_index-some (λ (p : Pending). not p.in_use) r.pending i e in
            let (out, copied, full, body) =
              copy_payload-done old.payload payload len
                (IsBuffered-get r.pending i old v.buffers at) h c in
            let slot =
              staged (take_seq r) out dst family type (bit_or flags flag_reliable) r.next_seq len
                now_ms in
            let counted = pending_count-set r.pending i old slot at in
            (
              record (take_seq r) { pending = set r.pending i slot },
              pending_to_frame slot r.my_addr,
              send_slot r dst family type flags payload len now_ms i old out h c e at copied,
              staged-IsSentFrame r out dst family type (bit_or flags flag_reliable) payload len
                  now_ms h c body,
              ground (arith, counted, free),
              parked-IsValid r i slot v full,
            )
      ]

  -- On a valid endpoint with all eight entries in use, a send that asks for an acknowledgement, of
  -- a payload of at most 64 bytes that the caller's memory holds, is refused with
  -- `ARC_ERR_BUFFER`: nothing goes out, only a sequence number is used up, and the endpoint stays
  -- valid.
  pub send_full :
      (r : Reliable Fn User) (dst family type flags : ℕ) (payload : Ptr Bytes) (len now_ms : ℕ)
      → IsValid r
      → len ≤ 64
      → Covers payload len
      → pending_count r.pending ≡ 8
      → (send r dst family type flags true payload len now_ms
          ≡ done (err err_buffer, (take_seq r, [])))
        × IsValid (take_seq r)
  unfolding send
  send_full r dst family type flags payload len now_ms v h c full =
      elim (Option-cases (pending_alloc r.pending)) [
        | inl e ↦ (
          ground (arith, e, Covers-checks payload len c, ltb-false 64 len h),
          take_seq-IsValid r v,
        )
        | inr (i, e) ↦
            let (old, at, free) = find_index-some (λ (p : Pending). not p.in_use) r.pending i e in
            let counted = pending_count-set r.pending i old (record old { in_use = true }) at in
            let bound = pending_count-bound (set r.pending i (record old { in_use = true })) in
            absurd (
              ground (
                arith,
                counted,
                free,
                bound,
                full,
                v.pending_length,
                length-set r.pending i (record old { in_use = true }),
              ))
      ]

  -- On a valid endpoint, a send without acknowledgement, of a payload of at most 64 bytes that the
  -- caller's memory holds: a frame with the message goes out once, only the sequence number
  -- changes, and the endpoint stays valid.
  pub send_unreliable :
      (r : Reliable Fn User) (dst family type flags : ℕ) (payload : Ptr Bytes) (len now_ms : ℕ)
      → IsValid r
      → len ≤ 64
      → Covers payload len
      → (f : Frame) × (send r dst family type flags false payload len now_ms
          ≡ done (ok r.next_seq, (take_seq r, call_of r.send_fn r.user f)))
        × IsSentFrame r dst family type flags payload len f
        × IsValid (take_seq r)
  unfolding send emit_frame take_seq
  send_unreliable r dst family type flags payload len now_ms v h c =
      let (out, copied, full, body) = copy_payload-done zero_pending.payload payload len refl h c in
      (
        pending_to_frame (staged (take_seq r) out dst family type flags r.next_seq len now_ms)
            r.my_addr,
        ground (
          arith,
          Covers-checks payload len c,
          ltb-false 64 len h,
          fill_slot-done (take_seq r) zero_pending.payload out dst family type flags r.next_seq
              payload len now_ms copied,
        ),
        staged-IsSentFrame r out dst family type flags payload len now_ms h c body,
        take_seq-IsValid r v,
      )
