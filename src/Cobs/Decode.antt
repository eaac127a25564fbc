-- ===== src/Cobs/Decode.antt =====
-- `arc_cobs_decode` of src/arc_protocol.c on stuffed bytes.
use arc_protocol.Prelude.{
  ℕ, zero, suc, ◌+◌, ◌-◌, ◌==◌, ◌≤◌, ◌<◌, ◌≡◌, refl, arith, if◌then◌else◌, [], ◌∷◌, ◌++◌,
}
use arc_protocol.Prelude.{
  length, length-append, append_assoc, append-nil, inl, inr, ap, ap₂, sym, ◌∙◌,
}
use mathlib.Core.Path.{subst₂}
use arc_protocol.Prelude.{some, false, true, not, ◌&&◌, ltb, ltb-false, leb, lt_or_le}
use arc_protocol.Prelude.{drop-length-append}
use arc_protocol.Memory.{Bytes, done, ◌>>=◌, write}
use arc_protocol.Memory.Laws.{write-append, read-append, load-append, Room, split-Room, nonempty}
use arc_protocol.Protocol.{ok, err_buffer}
use arc_protocol.Cobs.{more, stop, decode_step, decode_loop, cobs_decode}
use arc_protocol.Cobs.Stuff.{stuff, stuff-nil, stuff-zero, stuff-more, stuff-full, length-stuff-le}

-- A round whose checks pass has copied its run; what is left is the question of the zero.
decode_step-copied :
    (capacity : ℕ) (run left o old room : Bytes)
    → length o + length run ≤ capacity
    → length old ≡ length run
    → decode_step capacity (suc (length run)) (run ++ left) (o ++ (old ++ room)) (length o) ≡ (
        if not (suc (length run) == 0xff) && ltb 0 (length left)
        then (if leb capacity (length o + length run)
            then done (stop err_buffer (o ++ (run ++ room)))
            else (write (o ++ (run ++ room)) (length o + length run) (0 ∷ []) >>= λ zeroed.
                done (more left zeroed (length o + length run + 1))))
        else done (more left (o ++ (run ++ room)) (length o + length run)))
unfolding decode_step
decode_step-copied capacity run left o old room fits e = rw (
  suc-ne-zero (length run),
  suc-sub-one (length run),
  ltb-false (length (run ++ left)) (length run) (omega (arith, length-append run left)),
  ltb-false capacity (length o + length run) fits,
  read-append [] run left 0 (length run) refl refl,
  drop-length-append run left (length run) refl,
  write-append o old room run (length o) refl e,
)
  where
    suc-ne-zero : (n : ℕ) → (suc n == 0) ≡ false
    suc-ne-zero n = ground arith

    suc-sub-one : (n : ℕ) → suc n - 1 ≡ n
    suc-sub-one n = omega arith

-- At the end of the input, or behind a full run, no zero is put.
decode_step-plain :
    (capacity : ℕ) (run left o old room : Bytes)
    → length o + length run ≤ capacity
    → length old ≡ length run
    → (not (suc (length run) == 0xff) && ltb 0 (length left)) ≡ false
    → decode_step capacity (suc (length run)) (run ++ left) (o ++ (old ++ room)) (length o)
      ≡ done (more left (o ++ (run ++ room)) (length o + length run))
decode_step-plain capacity run left o old room fits e no_zero =
    decode_step-copied capacity run left o old room fits e ∙ rw no_zero

decode_step-zero :
    (capacity : ℕ) (run : Bytes) (l : ℕ) (left o old : Bytes) (z : ℕ) (room : Bytes)
    → length o + length run < capacity
    → length old ≡ length run
    → length run ≤ 253
    → decode_step capacity
        (suc (length run))
        (run ++ (l ∷ left))
        (o ++ (old ++ (z ∷ room)))
        (length o)
      ≡ done (more (l ∷ left) (o ++ (run ++ (0 ∷ room))) (length o + length run + 1))
decode_step-zero capacity run l left o old z room fits e short =
    decode_step-copied capacity run (l ∷ left) o old (z ∷ room) (omega arith) e
    ∙ rw (zero_wanted, has_room, zero_written)
  where
    zero_wanted : (not (suc (length run) == 0xff) && ltb 0 (length (l ∷ left))) ≡ true
    zero_wanted = ground arith

    has_room : leb capacity (length o + length run) ≡ false
    has_room = ground arith

    zero_written :
        write (o ++ (run ++ (z ∷ room))) (length o + length run) (0 ∷ [])
        ≡ done (o ++ (run ++ (0 ∷ room)))
    zero_written =
        ap (λ (m : Bytes). write m (length o + length run) (0 ∷ []))
          (sym (append_assoc o run (z ∷ room)))
        ∙ write-append (o ++ run) (z ∷ []) room (0 ∷ []) (length o + length run)
            (omega (arith, length-append o run)) refl
        ∙ ap done (append_assoc o run (0 ∷ room))

-- Decoding `encoded` onto the output `o` makes it `whole`.
abbrev Decodes : ℕ → ℕ → Bytes → Bytes → Bytes → Bytes → Type 0
Decodes capacity fuel encoded o room whole =
    (tail : Bytes) × (decode_loop capacity fuel encoded (o ++ room) (length o)
      ≡ done (ok (length whole), some (whole ++ tail)))

-- A round that ends in `more`, and the loop behind it.
decode_loop-more :
    (capacity fuel code : ℕ) (rest o room left o' room' whole : Bytes)
    → decode_step capacity code rest (o ++ room) (length o)
      ≡ done (more left (o' ++ room') (length o'))
    → Decodes capacity fuel left o' room' whole
    → Decodes capacity (suc fuel) (code ∷ rest) o room whole
unfolding decode_loop
decode_loop-more capacity fuel code rest o room left o' room' whole step (tail, h) =
    (tail, rw step h)

decode_loop-nil :
    (o room : Bytes) (capacity fuel : ℕ) → 0 < fuel → Decodes capacity fuel [] o room o
unfolding decode_loop
decode_loop-nil o room capacity zero h = absurd (omega arith)
decode_loop-nil o room capacity (suc fuel) h = (room, refl)

-- A run without a zero behind it, in any room that holds it.
Decodes-plain :
    (capacity fuel : ℕ) (run left o room whole : Bytes)
    → length o + length run ≤ capacity
    → length run ≤ length room
    → (not (suc (length run) == 0xff) && ltb 0 (length left)) ≡ false
    → ((room' : Bytes)
        → length room ≡ length run + length room'
        → Decodes capacity fuel left (o ++ run) room' whole)
    → Decodes capacity (suc fuel) (suc (length run) ∷ (run ++ left)) o room whole
Decodes-plain capacity fuel run left o room whole fits holds no_zero rest =
    decode_loop-more capacity fuel (suc (length run)) (run ++ left) o room left (o ++ run) at.back
      whole step
      (rest at.back (
        omega
          (arith, ap (length {A = ℕ}) at.whole, length-append at.front at.back, at.front_length)))
  where
    at : Room (length run) room
    at = split-Room (length run) room holds

    step :
        decode_step capacity (suc (length run)) (run ++ left) (o ++ room) (length o)
        ≡ done (more left ((o ++ run) ++ at.back) (length (o ++ run)))
    step =
        ap
          (λ (m : Bytes). decode_step capacity (suc (length run)) (run ++ left) (o ++ m) (length o))
          at.whole
        ∙ decode_step-plain capacity run left o at.front at.back fits at.front_length no_zero
        ∙ ap₂ (λ (m : Bytes) (k : ℕ). done (more left m k)) (sym (append_assoc o run at.back))
            (sym (length-append o run))

Decodes-zero :
    (capacity fuel : ℕ) (run left o room whole : Bytes)
    → length o + length run < capacity
    → length run < length room
    → length run ≤ 253
    → 0 < length left
    → ((room' : Bytes)
        → length room ≡ length run + 1 + length room'
        → Decodes capacity fuel left (o ++ (run ++ (0 ∷ []))) room' whole)
    → Decodes capacity (suc fuel) (suc (length run) ∷ (run ++ left)) o room whole
Decodes-zero capacity fuel run left o room whole fits holds short some_left rest =
    let at = split-Room (length run) room (omega arith) in
    let (z, back, e) = nonempty at.back (
      omega
        (arith, ap (length {A = ℕ}) at.whole, length-append at.front at.back, at.front_length)) in
    let (l, ls, g) = nonempty left some_left in
    decode_loop-more capacity fuel (suc (length run)) (run ++ left) o room left
      (o ++ (run ++ (0 ∷ []))) back whole
      (ap₂ (λ (m n : Bytes). decode_step capacity (suc (length run)) (run ++ n) (o ++ m) (length o))
          (at.whole ∙ ap (λ (m : Bytes). at.front ++ m) e) g
        ∙ decode_step-zero capacity run l ls o at.front z back fits at.front_length short
        ∙ ap₂ (λ (n m : Bytes). done (more n m (length o + length run + 1))) (sym g)
            (sym (
              append_assoc o (run ++ (0 ∷ [])) back
              ∙ ap (λ (m : Bytes). o ++ m) (append_assoc run (0 ∷ []) back)))
        ∙ ap (λ (k : ℕ). done (more left ((o ++ (run ++ (0 ∷ []))) ++ back) k))
            (omega (arith, length-append o (run ++ (0 ∷ [])), length-append run (0 ∷ []))))
      (rest back (
        omega (
          arith,
          ap (length {A = ℕ}) at.whole,
          length-append at.front at.back,
          at.front_length,
          ap (length {A = ℕ}) e,
        )))

last_zero : (run : Bytes) → (not (suc (length run) == 0xff) && ltb 0 (length {A = ℕ} [])) ≡ false
last_zero run = ground arith

full_zero :
    (run left : Bytes)
    → length run ≡ 254
    → (not (suc (length run) == 0xff) && ltb 0 (length left)) ≡ false
full_zero run left e = ground arith

Decodes-cong :
    (capacity fuel : ℕ) (o room : Bytes) {d e v w : Bytes}
    → d ≡ e
    → v ≡ w
    → Decodes capacity fuel d o room v
    → Decodes capacity fuel e o room w
Decodes-cong capacity fuel o room p q h =
    subst₂ (λ (e w : Bytes). Decodes capacity fuel e o room w) p q h

-- The loop decodes every encoding, whatever run it has open, with fuel above its length.
decode_loop-stuff :
    (xs run o room : Bytes) (capacity fuel : ℕ)
    → length run ≤ 253
    → length o + length run + length xs ≤ capacity
    → length run + length xs ≤ length room
    → length (stuff run xs) < fuel
    → Decodes capacity fuel (stuff run xs) o room (o ++ (run ++ xs))
decode_loop-stuff xs run o room capacity zero h c r f = absurd (omega arith)
decode_loop-stuff [] run o room capacity (suc fuel) h c r f =
    Decodes-cong capacity (suc fuel) o room
      (ap (λ (m : Bytes). suc (length run) ∷ m) (append-nil run) ∙ sym (stuff-nil run))
      (ap (λ (m : Bytes). o ++ m) (sym (append-nil run)))
      (Decodes-plain capacity fuel run [] o room (o ++ run) (omega arith) (omega arith)
        (last_zero run)
        (λ room' e.
          decode_loop-nil (o ++ run) room' capacity fuel
            (omega (arith, ap (length {A = ℕ}) (stuff-nil run)))))
decode_loop-stuff (zero ∷ xs) run o room capacity (suc fuel) h c r f =
    Decodes-cong capacity (suc fuel) o room (sym (stuff-zero xs run))
      (append_assoc o (run ++ (0 ∷ [])) xs
        ∙ ap (λ (m : Bytes). o ++ m) (append_assoc run (0 ∷ []) xs))
      (Decodes-zero capacity fuel run (stuff [] xs) o room ((o ++ (run ++ (0 ∷ []))) ++ xs)
        (omega arith) (omega arith) h (omega (arith, length-stuff-le xs []))
        (λ room' e.
          decode_loop-stuff xs [] (o ++ (run ++ (0 ∷ []))) room' capacity fuel (omega arith)
            (omega (arith, length-append o (run ++ (0 ∷ [])), length-append run (0 ∷ [])))
            (omega arith)
            (omega
              (arith, ap (length {A = ℕ}) (stuff-zero xs run), length-append run (stuff [] xs)))))
decode_loop-stuff (suc x ∷ xs) run o room capacity (suc fuel) h c r f =
    elim (lt_or_le (length run) 253) [
      | inl below ↦
          Decodes-cong capacity (suc fuel) o room (sym (stuff-more x xs run below))
            (ap (λ (m : Bytes). o ++ m) (append_assoc run (suc x ∷ []) xs))
            (decode_loop-stuff xs (run ++ (suc x ∷ [])) o room capacity (suc fuel)
              (omega (arith, length-append run (suc x ∷ [])))
              (omega (arith, length-append run (suc x ∷ [])))
              (omega (arith, length-append run (suc x ∷ [])))
              (omega (arith, ap (length {A = ℕ}) (stuff-more x xs run below))))
      | inr limit ↦
          Decodes-cong capacity (suc fuel) o room
            (ap (λ (k : ℕ). k ∷ ((run ++ (suc x ∷ [])) ++ stuff [] xs))
                (omega (arith, length-append run (suc x ∷ [])))
              ∙ sym (stuff-full x xs run (omega arith)))
            (append_assoc o (run ++ (suc x ∷ [])) xs
              ∙ ap (λ (m : Bytes). o ++ m) (append_assoc run (suc x ∷ []) xs))
            (Decodes-plain capacity fuel (run ++ (suc x ∷ [])) (stuff [] xs) o room
              ((o ++ (run ++ (suc x ∷ []))) ++ xs) (omega (arith, length-append run (suc x ∷ [])))
              (omega (arith, length-append run (suc x ∷ [])))
              (full_zero (run ++ (suc x ∷ [])) (stuff [] xs)
                (omega (arith, length-append run (suc x ∷ []))))
              (λ room' e.
                decode_loop-stuff xs [] (o ++ (run ++ (suc x ∷ []))) room' capacity fuel
                  (omega arith)
                  (omega
                    (arith, length-append o (run ++ (suc x ∷ [])), length-append run (suc x ∷ [])))
                  (omega (arith, length-append run (suc x ∷ [])))
                  (omega (
                    arith,
                    ap (length {A = ℕ}) (stuff-full x xs run (omega arith)),
                    length-append (run ++ (suc x ∷ [])) (stuff [] xs),
                  ))))
    ]

-- The whole decoder on an encoding and its delimiter, with anything behind.
pub cobs_decode-stuff :
    (xs extra out : Bytes) (capacity : ℕ)
    → length xs ≤ capacity
    → capacity ≤ length out
    → (tail : Bytes) × (cobs_decode
          (some (stuff [] xs ++ (0 ∷ extra)))
          (length (stuff [] xs) + 1)
          (some out)
          capacity
        ≡ done (ok (length xs), some (xs ++ tail)))
unfolding cobs_decode
cobs_decode-stuff xs extra out capacity c r =
    let (tail, h) =
      decode_loop-stuff xs [] [] out capacity (length (stuff [] xs) + 1) (omega arith) (omega arith)
        (omega arith) (omega arith) in
    (
      tail,
      rw
          (
            ltb-false (length (stuff [] xs) + 1) 2 (omega (arith, length-stuff-le xs [])),
            add-sub-one (length (stuff [] xs)),
            load-append (stuff [] xs) 0 extra (length (stuff [] xs)) refl,
            read-append [] (stuff [] xs) (0 ∷ extra) 0 (length (stuff [] xs)) refl refl,
          )
          h,
    )
  where
    add-sub-one : (n : ℕ) → n + 1 - 1 ≡ n
    add-sub-one n = omega arith
