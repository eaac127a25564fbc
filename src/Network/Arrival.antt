-- ===== src/Network/Arrival.antt =====
-- One arrival at an endpoint of src/arc_reliable.c on the network: what it changes while the
-- duplicate filter has room, and what an acknowledgement changes.
use arc_protocol.Prelude.{◌/◌, ◌^◌, bit_and}
use arc_protocol.Memory.{Bytes, u8}
use arc_protocol.Frame.{be16}
use arc_protocol.Reliable.Branches.{join16-be16}
use mathlib.Core.Path.{subst}
use arc_protocol.Prelude.{
  ℕ, ◌≡◌, ◌<◌, ◌==◌, ◌||◌, refl, sym, ap, ◌∙◌, ◌⊎◌, inl, inr, arith, not, Bool-cases, Option-cases,
}
use arc_protocol.Prelude.{true, false, some, [], get_elem?, set, length}
use arc_protocol.Memory.{Run, done, fault, is_null, load}
use arc_protocol.Protocol.{Frame}
use arc_protocol.Frame.{join16}
use arc_protocol.Reliable.{Seen, Rx, ack, receive, receive_ack, clear_pending, is_ack_frame}
use arc_protocol.Reliable.{note_source, note_seen, source_session_changed, seen_entry}
use arc_protocol.Reliable.Slots.{find_index-some}
use arc_protocol.Reliable.Invariant.{seen_add-free}
use arc_protocol.Reliable.Branches.{receive-ack_frame}
use arc_protocol.Network.{Endpoint, Calls}
use arc_protocol.Network.Traffic.{Run-cases}
use arc_protocol.Network.History.{used, used_room}

-- The parts of an outcome are determined.
abbrev endpoint_of : Run (Rx × (Endpoint × Calls)) → Endpoint → Endpoint
endpoint_of (done (x, (r, cs))) d = r
endpoint_of fault d = d

abbrev calls_of : Run (Rx × (Endpoint × Calls)) → Calls
calls_of (done (x, (r, cs))) = cs
calls_of fault = []

pub same_outcome :
    (r a b : Endpoint) (f : Frame) (x y : Rx) (cs ds : Calls)
    → receive r f ≡ done (x, (a, cs))
    → receive r f ≡ done (y, (b, ds))
    → (a ≡ b) × (cs ≡ ds)
same_outcome r a b f x y cs ds p q = (
  ap (λ (o : Run (Rx × (Endpoint × Calls))). endpoint_of o r) (sym p ∙ q),
  ap (λ (o : Run (Rx × (Endpoint × Calls))). calls_of o) (sym p ∙ q),
)

-- The number that an acknowledgement's two bytes stand for.
acked_number :
    (p : Bytes) (hi lo n : ℕ)
    → n < 2 ^ 16
    → load p 0 ≡ done hi
    → load p 1 ≡ done lo
    → p ≡ be16 n
    → join16 hi lo ≡ n
unfolding load
acked_number p hi lo n small l m e =
    let high : done (u8 (n / 2 ^ 8)) ≡ done hi = ap (λ (b : Bytes). load b 0) (sym e) ∙ l in
    let low : done (u8 (bit_and n 0xff)) ≡ done lo = ap (λ (b : Bytes). load b 1) (sym e) ∙ m in
    let high' : u8 (n / 2 ^ 8) ≡ hi = ground (arith, high) in
    let low' : u8 (bit_and n 0xff) ≡ lo = ground (arith, low) in
    rw (sym high', sym low') (join16-be16 n small)

-- An acknowledgement clears the entry of the number that it names, or changes nothing.
abbrev pub IsCleared : Endpoint → Frame → Endpoint → Type 0
IsCleared r f r' =
    (r' ≡ r)
    ⊎ ((seq : ℕ) × ((n : ℕ) → n < 2 ^ 16 → f.payload ≡ some (be16 n) → seq ≡ n)
        × (r' ≡ record r { pending = clear_pending r.pending f.src r.session seq }))

receive_ack-IsCleared : (r r' : Endpoint) (f : Frame) → receive_ack r f ≡ done r' → IsCleared r f r'
unfolding receive_ack
receive_ack-IsCleared r r' f h = elim (Bool-cases (not (f.payload_len == 2) || is_null f.payload)) [
  | inl e ↦ inl (ground (arith, e, h))
  | inr e ↦ elim (Option-cases f.payload) [
    | inl g ↦ absurd (ground (arith, e, g))
    | inr (p, g) ↦ elim (Run-cases (load p 0)) [
      | inl l ↦ absurd (ground (arith, e, g, l, h))
      | inr (hi, l) ↦ elim (Run-cases (load p 1)) [
        | inl m ↦ absurd (ground (arith, e, g, l, m, h))
        | inr (lo, m) ↦ inr (
          join16 hi lo,
          (λ n small q.
              let both : some p ≡ some (be16 n) = sym g ∙ q in
              acked_number p hi lo n small l m (ground (arith, both))),
          ground (arith, e, g, l, m, h),
        )
      ]
    ]
  ]
]

pub receive-IsCleared :
    (r r' : Endpoint) (f : Frame) (x : Rx) (cs : Calls)
    → f.dst ≡ r.my_addr
    → is_ack_frame f ≡ true
    → receive r f ≡ done (x, (r', cs))
    → (cs ≡ []) × IsCleared r f r'
unfolding receive
receive-IsCleared r r' f x cs to_me is_ack h = elim (Run-cases (receive_ack r f)) [
  | inl e ↦ absurd (ground (arith, to_me, is_ack, e, h))
  | inr (s, e) ↦
      let (a, c) = same_outcome r r' s f x ack cs [] h (receive-ack_frame r s f to_me is_ack e) in
      (c, subst (IsCleared r f) (sym a) (receive_ack-IsCleared r s f e))
]

-- A source whose session stays leaves the history alone.
pub note_source-same :
    (r : Endpoint) (f : Frame)
    → (source_session_changed r.sources f.src f.session).0 ≡ false
    → note_source r f ≡ record r { sources = (source_session_changed r.sources f.src f.session).1 }
unfolding note_source
note_source-same r f e = rw e refl

-- While an entry is free, a new frame takes it.
pub note_seen-room :
    (r : Endpoint) (f : Frame)
    → used r.seen < length r.seen
    → (i : ℕ) × (s : Seen) × (get_elem? r.seen i ≡ some s)
      × (s.in_use ≡ false)
      × (note_seen r f ≡ record r { seen = set r.seen i (seen_entry f.src f.session f.seq) })
unfolding note_seen
note_seen-room r f h =
    let (i, e) = used_room r.seen h in
    let (s, at, free) = find_index-some (λ (s : Seen). not s.in_use) r.seen i e in
    (
      i,
      s,
      at,
      ground (arith, free),
      rw (seen_add-free r.seen r.seen_next_idx f.src f.session f.seq i e) refl,
    )
