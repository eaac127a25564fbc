-- ===== src/Reliable/Receive.antt =====
-- Receiving a frame: `arc_reliable_receive` of src/arc_reliable.c, with its duplicates and
-- acknowledgements.
use arc_protocol.Prelude.{ℕ, ◌+◌, ◌<◌, ◌^◌, ◌/◌, ◌==◌, true, false, Bool-cases}
use arc_protocol.Prelude.{some, List, [], ◌++◌, get_elem?, set, bit_and, ==_iff}
use arc_protocol.Prelude.{◌≡◌, sym, ap, ◌∙◌, inl, inr, arith}
use arc_protocol.Memory.{Run, done, fault}
use mathlib.Core.Path.{subst}
use arc_protocol.Memory.{u8}
use arc_protocol.Protocol.{Frame, flag_reliable}
use arc_protocol.Frame.{be16}
use arc_protocol.Router.{Call, call_of}
use arc_protocol.Reliable.{Pending, Reliable, Rx, ignored, delivered, duplicate, ack}
use arc_protocol.Reliable.{pending_find, pending_matches, pending_count, seen_contains}
use arc_protocol.Reliable.{is_ack_frame, take_seq, ack_frame}
use arc_protocol.Reliable.{clear_pending, note_source, note_seen, receive}
use arc_protocol.Reliable.Slots.{find_index-some, pending_count-set}
use arc_protocol.Reliable.Send.{take_seq-IsValid}
use arc_protocol.Reliable.Invariant.{IsValid, Covers, clear_pending-some}
use arc_protocol.Reliable.History.{noted-unchanged, seen_contains-seen_add}
use arc_protocol.Reliable.Branches.{
  join16-be16, note_source-IsValid, note_seen-IsValid, receive-again, receive-fresh,
  receive_ack-done, receive_ack-IsValid, receive-foreign, receive-ack_frame, receive-plain,
}

module _ {Fn User : Type 0} where
  noted-seen :
      (r : Reliable Fn User) (f g : Frame)
      → IsValid r
      → g.src ≡ f.src
      → g.session ≡ f.session
      → g.seq ≡ f.seq
      → seen_contains
          ((note_source (note_seen (take_seq (note_source r f)) f) g).seen)
          g.src
          g.session
          g.seq
        ≡ true
  unfolding note_source note_seen take_seq
  noted-seen r f g v a b c =
      rw (a, b, c, noted-unchanged r.sources f.src f.session)
        (seen_contains-seen_add (note_source r f).seen r.seen_next_idx f.src f.session f.seq
          (omega (arith, (note_source-IsValid r f v).seen_length, v.next_victim)))

  -- A receive on a valid endpoint, from a frame whose payload is as long as it says, returns, and
  -- the endpoint is still valid.
  pub receive-IsValid :
      (r : Reliable Fn User) (f : Frame)
      → IsValid r
      → Covers f.payload f.payload_len
      → (x : Rx) × (r' : Reliable Fn User) × (calls : List (Call Fn User)) × (receive r f
          ≡ done (x, (r', calls)))
        × IsValid r'
  receive-IsValid r f v c = elim (Bool-cases (f.dst == r.my_addr)) [
    | inr e ↦ (ignored, r, [], receive-foreign r f e, v)
    | inl e ↦
        let to_me : f.dst ≡ r.my_addr = (==_iff f.dst r.my_addr).0 e in
        elim (Bool-cases (is_ack_frame f)) [
          | inl is_ack ↦
              let (r', step, valid) = receive_ack-IsValid r f v c in
              (ack, r', [], receive-ack_frame r r' f to_me is_ack step, valid)
          | inr not_ack ↦ elim (Bool-cases (bit_and f.flags flag_reliable == 0)) [
            | inl plain ↦ (
              delivered,
              r,
              call_of r.deliver_fn r.user f,
              receive-plain r f to_me not_ack plain,
              v,
            )
            | inr rel ↦
                let noted = take_seq-IsValid (note_source r f) (note_source-IsValid r f v) in
                elim (Bool-cases (seen_contains ((note_source r f).seen) f.src f.session f.seq)) [
                  | inl known ↦ (
                    duplicate,
                    take_seq (note_source r f),
                    call_of r.send_fn r.user (ack_frame r f),
                    receive-again r f to_me not_ack rel known,
                    noted,
                  )
                  | inr new ↦ (
                    delivered,
                    note_seen (take_seq (note_source r f)) f,
                    call_of r.send_fn r.user (ack_frame r f) ++ call_of r.deliver_fn r.user f,
                    receive-fresh r f to_me not_ack rel new,
                    note_seen-IsValid (take_seq (note_source r f)) f noted,
                  )
                ]
          ]
        ]
  ]

  noted-known :
      (r : Reliable Fn User) (f g : Frame)
      → g.src ≡ f.src
      → g.session ≡ f.session
      → g.seq ≡ f.seq
      → seen_contains ((note_source r f).seen) f.src f.session f.seq ≡ true
      → seen_contains ((note_source (take_seq (note_source r f)) g).seen) g.src g.session g.seq
        ≡ true
  unfolding note_source take_seq
  noted-known r f g a b c known = rw (a, b, c, noted-unchanged r.sources f.src f.session) known

  -- The endpoint of an outcome; `r` where there is none.
  endpoint_of :
      Run (Rx × (Reliable Fn User × List (Call Fn User))) → Reliable Fn User → Reliable Fn User
  endpoint_of (done (x, (r', calls))) r = r'
  endpoint_of fault r = r

  same_endpoint :
      (r r' s : Reliable Fn User) (f : Frame) (x y : Rx) (calls more : List (Call Fn User))
      → receive r f ≡ done (x, (r', calls))
      → receive r f ≡ done (y, (s, more))
      → r' ≡ s
  unfolding endpoint_of
  same_endpoint r r' s f x y calls more p q =
      ap (λ (o : Run (Rx × (Reliable Fn User × List (Call Fn User)))). endpoint_of o r) (sym p ∙ q)

  -- What `receive_twice` says of the endpoint in between.
  IsRepeat : Reliable Fn User → Frame → Reliable Fn User → Type 0
  IsRepeat r g r' =
      (r'' : Reliable Fn User) × (receive r' g
        ≡ done (duplicate, (r'', call_of r.send_fn r.user (ack_frame r' g))))

  -- A valid endpoint has just taken a reliable frame to it that is no acknowledgement, whether it
  -- was delivered or known already: when a reliable frame of the same source, session and sequence
  -- number, no acknowledgement either, comes next, it is acknowledged again and is not delivered.
  pub receive_twice :
      (r r' : Reliable Fn User) (f g : Frame) (x : Rx) (calls : List (Call Fn User))
      → IsValid r
      → f.dst ≡ r.my_addr
      → is_ack_frame f ≡ false
      → (bit_and f.flags flag_reliable == 0) ≡ false
      → receive r f ≡ done (x, (r', calls))
      → g.dst ≡ f.dst
      → g.src ≡ f.src
      → g.session ≡ f.session
      → g.seq ≡ f.seq
      → is_ack_frame g ≡ false
      → (bit_and g.flags flag_reliable == 0) ≡ false
      → (r'' : Reliable Fn User) × (receive r' g
          ≡ done (duplicate, (r'', call_of r.send_fn r.user (ack_frame r' g))))
  unfolding IsRepeat take_seq note_source note_seen
  receive_twice r r' f g x calls v to_me not_ack rel step same_dst a b c not_ack' rel' =
      elim (Bool-cases (seen_contains ((note_source r f).seen) f.src f.session f.seq)) [
        | inl known ↦
            let s = take_seq (note_source r f) in
            let e =
              same_endpoint r r' s f x duplicate calls (call_of r.send_fn r.user (ack_frame r f))
                step (receive-again r f to_me not_ack rel known) in
            subst (IsRepeat r g) (sym e) (
              take_seq (note_source s g),
              receive-again s g (same_dst ∙ to_me) not_ack' rel' (noted-known r f g a b c known),
            )
        | inr new ↦
            let s = note_seen (take_seq (note_source r f)) f in
            let e =
              same_endpoint r r' s f x delivered calls
                (call_of r.send_fn r.user (ack_frame r f) ++ call_of r.deliver_fn r.user f) step
                (receive-fresh r f to_me not_ack rel new) in
            subst (IsRepeat r g) (sym e) (
              take_seq (note_source s g),
              receive-again s g (same_dst ∙ to_me) not_ack' rel' (noted-seen r f g v a b c),
            )
      ]

  -- An acknowledgement whose sequence number the search finds frees that entry.
  pub receive_found :
      (r : Reliable Fn User) (f : Frame) (seq i : ℕ) (p : Pending)
      → f.dst ≡ r.my_addr
      → is_ack_frame f ≡ true
      → f.payload ≡ some (be16 seq)
      → f.payload_len ≡ 2
      → seq < 2 ^ 16
      → pending_find r.pending f.src r.session seq ≡ some i
      → get_elem? r.pending i ≡ some p
      → (receive r f
          ≡ done (ack, (record r { pending = set r.pending i (record p { in_use = false }) }, [])))
        × (pending_count (set r.pending i (record p { in_use = false })) + 1
            ≡ pending_count r.pending)
  receive_found r f seq i p to_me is_ack body n bound found at =
      let (q, there, matches) =
        find_index-some (pending_matches f.src r.session seq) r.pending i found in
      let same : q ≡ p = ground (arith, there, at) in
      let cleared = clear_pending-some r.pending f.src r.session seq i p found at in
      let joined =
        ap (λ k. record r { pending = clear_pending r.pending f.src r.session k })
          (join16-be16 seq bound)
        ∙ ap (λ (ps : List Pending). record r { pending = ps }) cleared in
      let counted = pending_count-set r.pending i p (record p { in_use = false }) at in
      let waits : p.in_use ≡ true =
        ap (λ (t : Pending). t.in_use) (sym same) ∙ ground (arith, matches) in
      (
        receive-ack_frame r (record r { pending = set r.pending i (record p { in_use = false }) }) f
            to_me is_ack
            (receive_ack-done r f (u8 (seq / 2 ^ 8)) (u8 (bit_and seq 0xff)) [] body n
              ∙ ap done joined),
        ground (arith, counted, waits),
      )
