-- ===== src/Reliable/Receipt.antt =====
-- What an acknowledgement does to the pending table: `arc_reliable_receive` with its
-- `pending_find`, of src/arc_reliable.c, beside a description of the entry that is waiting.
use arc_protocol.Prelude.{ℕ, suc, ◌+◌, ◌<◌, ◌^◌, ◌/◌, true, false, Bool-cases, ◌⊎◌}
use arc_protocol.Prelude.{none, some, List, [], ◌∷◌, get_elem?, set, take, bit_and}
use arc_protocol.Prelude.{◌≡◌, refl, ap, ◌∙◌, inl, inr, arith}
use arc_protocol.Memory.{u8, done}
use arc_protocol.Protocol.{Frame}
use arc_protocol.Frame.{be16}
use arc_protocol.Reliable.{Pending, Reliable, ack, pending_find, pending_matches, pending_count}
use arc_protocol.Reliable.{find_index, is_ack_frame, clear_pending, receive}
use arc_protocol.Reliable.Slots.{find_index-head, find_index-tail}
use arc_protocol.Reliable.Invariant.{clear_pending-none}
use arc_protocol.Reliable.Branches.{join16-be16, receive-ack_frame, receive_ack-done}
use arc_protocol.Reliable.Receive.{receive_found}

-- The entry of a message that `dst` has not acknowledged.
abbrev pub IsFor : (dst session seq : ℕ) → Pending → Type 0
IsFor dst session seq p = (p.in_use ≡ true) × (p.dst ≡ dst) × (p.session ≡ session) × (p.seq ≡ seq)

abbrev pub NoneFor : (dst session seq : ℕ) → List Pending → Type 0
NoneFor dst session seq [] = Unit
NoneFor dst session seq (p ∷ ps) = (¬ (IsFor dst session seq p)) × NoneFor dst session seq ps

pending_matches-IsFor :
    (dst session seq : ℕ) (p : Pending)
    → pending_matches dst session seq p ≡ true
    → IsFor dst session seq p
pending_matches-IsFor dst session seq p e =
    (ground (arith, e), ground (arith, e), ground (arith, e), ground (arith, e))

pending_matches-IsOther :
    (dst session seq : ℕ) (p : Pending)
    → pending_matches dst session seq p ≡ false
    → ¬ (IsFor dst session seq p)
pending_matches-IsOther dst session seq p e = λ (a, b, c, d). ground (arith, e, a, b, c, d)

-- The search finds no entry where none is waiting, or else the first that is.
pending_find-cases :
    (ps : List Pending) (dst session seq : ℕ)
    → ((pending_find ps dst session seq ≡ none) × NoneFor dst session seq ps)
      ⊎ ((i : ℕ) × (p : Pending) × (pending_find ps dst session seq ≡ some i)
          × (get_elem? ps i ≡ some p)
          × IsFor dst session seq p
          × NoneFor dst session seq (take i ps))
unfolding find_index
pending_find-cases [] dst session seq = inl (refl, tt)
pending_find-cases (q ∷ qs) dst session seq =
    elim (Bool-cases (pending_matches dst session seq q)) [
      | inl e ↦ inr (
        0,
        q,
        find_index-head (pending_matches dst session seq) q qs e,
        refl,
        pending_matches-IsFor dst session seq q e,
        tt,
      )
      | inr e ↦
          let skip = find_index-tail (pending_matches dst session seq) q qs e in
          let other = pending_matches-IsOther dst session seq q e in
          elim (pending_find-cases qs dst session seq) [
            | inl (absent, others) ↦ inl (ground (arith, skip, absent), (other, others))
            | inr (i, p, found, at, is_for, before) ↦
                inr (suc i, p, ground (arith, skip, found), at, is_for, (other, before))
          ]
    ]

module _ {Fn User : Type 0} where
  -- An acknowledgement to this node with a two-byte payload that names a sequence number returns
  -- and calls nothing. Where no message that the sender has yet to acknowledge has this endpoint's
  -- session and that number, nothing changes; else the first such entry of the table is freed, so
  -- one less is pending, and nothing else changes.
  pub receive_acknowledged :
      (r : Reliable Fn User) (f : Frame) (seq : ℕ)
      → f.dst ≡ r.my_addr
      → is_ack_frame f ≡ true
      → f.payload ≡ some (be16 seq)
      → f.payload_len ≡ 2
      → seq < 2 ^ 16
      → (NoneFor f.src r.session seq r.pending × (receive r f ≡ done (ack, (r, []))))
        ⊎ ((i : ℕ) × (p : Pending) × (get_elem? r.pending i ≡ some p)
            × IsFor f.src r.session seq p
            × NoneFor f.src r.session seq (take i r.pending)
            × (receive r f
                ≡ done (
                  ack,
                  (record r { pending = set r.pending i (record p { in_use = false }) }, []),
                ))
            × (pending_count (set r.pending i (record p { in_use = false })) + 1
                ≡ pending_count r.pending))
  receive_acknowledged r f seq to_me is_ack body n bound =
      elim (pending_find-cases r.pending f.src r.session seq) [
        | inl (absent, others) ↦
            let kept =
              ap (λ k. record r { pending = clear_pending r.pending f.src r.session k })
                (join16-be16 seq bound)
              ∙ ap (λ (ps : List Pending). record r { pending = ps })
                  (clear_pending-none r.pending f.src r.session seq absent) in
            inl (
              others,
              receive-ack_frame r r f to_me is_ack (
                  receive_ack-done r f (u8 (seq / 2 ^ 8)) (u8 (bit_and seq 0xff)) [] body n
                  ∙ ap done kept),
            )
        | inr (i, p, found, at, is_for, before) ↦
            let (freed, less) = receive_found r f seq i p to_me is_ack body n bound found at in
            inr (i, p, at, is_for, before, freed, less)
      ]
