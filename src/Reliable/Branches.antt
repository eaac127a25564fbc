-- ===== src/Reliable/Branches.antt =====
-- The branches of `arc_reliable_receive` of src/arc_reliable.c, one at a time.
use arc_protocol.Prelude.{ℕ, ◌<◌, ◌≤◌, ◌^◌, ◌/◌, ◌==◌, Bool, true, false, Bool-cases}
use arc_protocol.Prelude.{
  some, List, [], ◌∷◌, ◌++◌, length, Option-cases, bit_and, ==_iff, if◌then◌else◌,
}
use arc_protocol.Prelude.{◌≡◌, refl, ap, ◌∙◌, inl, inr, arith}
use arc_protocol.Memory.{Bytes, Ptr, done, load}
use mathlib.Core.Path.{subst}
use arc_protocol.Memory.{u8}
use arc_protocol.Prelude.Bits.{bit_and_byte}
use arc_protocol.Frame.Parse.{join16-lem}
use arc_protocol.Protocol.{Frame, flag_reliable}
use arc_protocol.Frame.{join16}
use arc_protocol.Router.{call_of}
use arc_protocol.Reliable.{Seen, Reliable, ignored, delivered, duplicate, ack}
use arc_protocol.Reliable.{seen_contains, seen_drop_source}
use arc_protocol.Reliable.{source_session_changed, is_ack_frame, take_seq, ack_frame}
use arc_protocol.Reliable.{
  clear_pending, receive_ack, note_source, note_seen, receive_reliable, receive,
}
use arc_protocol.Reliable.Invariant.{IsValid, Covers, clear_pending-keeps, length-seen_add}
use arc_protocol.Reliable.Invariant.{length-seen_drop_source, length-source_session_changed}

pub join16-be16 : (v : ℕ) → v < 2 ^ 16 → join16 (u8 (v / 2 ^ 8)) (u8 (bit_and v 0xff)) ≡ v
join16-be16 v h = omega (
  arith,
  bit_and_byte v,
  join16-lem (u8 (v / 2 ^ 8)) (u8 (bit_and v 0xff)) (omega arith) (omega arith),
)

pub two_bytes :
    (bytes : Bytes)
    → 2 ≤ length bytes
    → (hi : ℕ) × (lo : ℕ) × (rest : Bytes) × (bytes ≡ hi ∷ lo ∷ rest)
two_bytes [] h = absurd (omega arith)
two_bytes (hi ∷ []) h = absurd (omega arith)
two_bytes (hi ∷ lo ∷ rest) h = (hi, lo, rest, refl)

Covers-some :
    (p : Ptr Bytes) (n : ℕ) (bytes : Bytes) → p ≡ some bytes → Covers p n → n ≤ length bytes
Covers-some p n bytes e c = subst (λ q. Covers q n) e c

length-dropped :
    (changed : Bool) (ss : List Seen) (src : ℕ)
    → length (if changed then seen_drop_source ss src else ss) ≡ length ss
length-dropped true ss src = length-seen_drop_source ss src
length-dropped false ss src = refl

module _ {Fn User : Type 0} where
  pub note_source-IsValid :
      (r : Reliable Fn User) (f : Frame) → IsValid r → IsValid (note_source r f)
  unfolding note_source
  note_source-IsValid r f v = record {
    pending_length = v.pending_length;
    buffers = v.buffers;
    seen_length =
        length-dropped (source_session_changed r.sources f.src f.session).0 r.seen f.src
        ∙ v.seen_length;
    next_victim = v.next_victim;
    sources_length = length-source_session_changed r.sources f.src f.session ∙ v.sources_length;
    seq_bound = v.seq_bound;
  }

  pub note_seen-IsValid : (r : Reliable Fn User) (f : Frame) → IsValid r → IsValid (note_seen r f)
  unfolding note_seen
  note_seen-IsValid r f v =
      let (kept, next) =
        length-seen_add r.seen r.seen_next_idx f.src f.session f.seq v.next_victim in
      record {
        pending_length = v.pending_length;
        buffers = v.buffers;
        seen_length = kept ∙ v.seen_length;
        next_victim = next;
        sources_length = v.sources_length;
        seq_bound = v.seq_bound;
      }

  cleared-IsValid :
      (r : Reliable Fn User) (dst session seq : ℕ)
      → IsValid r
      → IsValid (record r { pending = clear_pending r.pending dst session seq })
  cleared-IsValid r dst session seq v =
      let (l, b) = clear_pending-keeps r.pending dst session seq v.buffers in
      record {
        pending_length = l ∙ v.pending_length;
        buffers = b;
        seen_length = v.seen_length;
        next_victim = v.next_victim;
        sources_length = v.sources_length;
        seq_bound = v.seq_bound;
      }

  -- The branches of a reliable frame.
  pub receive-again :
      (r : Reliable Fn User) (f : Frame)
      → f.dst ≡ r.my_addr
      → is_ack_frame f ≡ false
      → (bit_and f.flags flag_reliable == 0) ≡ false
      → seen_contains ((note_source r f).seen) f.src f.session f.seq ≡ true
      → receive r f
        ≡ done (duplicate, (take_seq (note_source r f), call_of r.send_fn r.user (ack_frame r f)))
  unfolding receive receive_reliable note_source take_seq ack_frame
  receive-again r f to_me not_ack rel known = ground (arith, to_me, not_ack, rel, known)

  pub receive-fresh :
      (r : Reliable Fn User) (f : Frame)
      → f.dst ≡ r.my_addr
      → is_ack_frame f ≡ false
      → (bit_and f.flags flag_reliable == 0) ≡ false
      → seen_contains ((note_source r f).seen) f.src f.session f.seq ≡ false
      → receive r f
        ≡ done (
          delivered,
          (
            note_seen (take_seq (note_source r f)) f,
            call_of r.send_fn r.user (ack_frame r f) ++ call_of r.deliver_fn r.user f,
          ),
        )
  unfolding receive receive_reliable note_source take_seq ack_frame note_seen
  receive-fresh r f to_me not_ack rel new = ground (arith, to_me, not_ack, rel, new)

  pub receive_ack-done :
      (r : Reliable Fn User) (f : Frame) (hi lo : ℕ) (rest : Bytes)
      → f.payload ≡ some (hi ∷ lo ∷ rest)
      → f.payload_len ≡ 2
      → receive_ack r f
        ≡ done (record r { pending = clear_pending r.pending f.src r.session (join16 hi lo) })
  unfolding receive_ack load
  receive_ack-done r f hi lo rest e n = rw (e, n) refl

  pub receive_ack-IsValid :
      (r : Reliable Fn User) (f : Frame)
      → IsValid r
      → Covers f.payload f.payload_len
      → (r' : Reliable Fn User) × (receive_ack r f ≡ done r') × IsValid r'
  unfolding receive_ack
  receive_ack-IsValid r f v c = elim (Bool-cases (f.payload_len == 2)) [
    | inr e ↦ (r, rw e refl, v)
    | inl e ↦ elim (Option-cases f.payload) [
      | inl none_there ↦ (r, rw (e, none_there) refl, v)
      | inr (bytes, there) ↦
          let n : f.payload_len ≡ 2 = (==_iff f.payload_len 2).0 e in
          let (hi, lo, rest, two) =
            two_bytes bytes (omega (arith, n, Covers-some f.payload f.payload_len bytes there c)) in
          (
            record r { pending = clear_pending r.pending f.src r.session (join16 hi lo) },
            receive_ack-done r f hi lo rest (there ∙ ap some two) n,
            cleared-IsValid r f.src r.session (join16 hi lo) v,
          )
    ]
  ]

  -- A frame for another address is ignored.
  pub receive-foreign :
      (r : Reliable Fn User) (f : Frame)
      → (f.dst == r.my_addr) ≡ false
      → receive r f ≡ done (ignored, (r, []))
  unfolding receive
  receive-foreign r f e = rw e refl

  pub receive-ack_frame :
      (r r' : Reliable Fn User) (f : Frame)
      → f.dst ≡ r.my_addr
      → is_ack_frame f ≡ true
      → receive_ack r f ≡ done r'
      → receive r f ≡ done (ack, (r', []))
  unfolding receive
  receive-ack_frame r r' f to_me is_ack e = ground (arith, to_me, is_ack, e)

  pub receive-plain :
      (r : Reliable Fn User) (f : Frame)
      → f.dst ≡ r.my_addr
      → is_ack_frame f ≡ false
      → (bit_and f.flags flag_reliable == 0) ≡ true
      → receive r f ≡ done (delivered, (r, call_of r.deliver_fn r.user f))
  unfolding receive
  receive-plain r f to_me not_ack plain = ground (arith, to_me, not_ack, plain)
