-- ===== src/Messages/FcVideo/Overlay.antt =====
-- The overlay text of src/arc_messages_fc_video.c, sent with a NUL behind it.
use arc_protocol.Prelude.{
  ℕ, ◌+◌, ◌-◌, ◌≤◌, ◌==◌, ◌||◌, ◌&&◌, not, ltb, ltb-false, ltb-true, if◌then◌else◌, arith, refl,
  ◌≡◌, ◌∙◌, ap, ap₂, sym, false,
}
use arc_protocol.Prelude.{
  some, [], ◌∷◌, ◌++◌, length, drop, length-append, length-drop, append_assoc,
}
use arc_protocol.Memory.{Bytes, Ptr, Run, done, ◌>>=◌, is_null, deref, load, read, write}
use arc_protocol.Memory.Laws.{write-append, read-append, load-append, nonempty}
use arc_protocol.Protocol.{
  Result, ok, err, err_bad_arg, err_too_long, err_buffer, err_bad_length, max_payload_size,
}

-- `if (text_len > 0) memcpy(out, text, text_len)`
unfoldable pub store_text : Bytes → Ptr Bytes → ℕ → Run Bytes
store_text buf text len =
    if ltb 0 len then (do p ← deref text; bytes ← read p 0 len; write buf 0 bytes) else done buf

unfoldable pub set_overlay_encode : Ptr Bytes → ℕ → Ptr Bytes → ℕ → Run (Result ℕ × Ptr Bytes)
set_overlay_encode text text_len out out_capacity =
    if is_null out || (is_null text && ltb 0 text_len)
    then done (err err_bad_arg, out)
    else if ltb max_payload_size (text_len + 1)
    then done (err err_too_long, out)
    else if ltb out_capacity (text_len + 1)
    then done (err err_buffer, out)
    else (do
      buf ← deref out
      copied ← store_text buf text text_len
      stored ← write copied text_len (0 ∷ [])
      done (ok (text_len + 1), some stored))

unfoldable pub set_overlay_decode : Ptr Bytes → ℕ → Ptr Bytes → ℕ → Run (Result ℕ × Ptr Bytes)
set_overlay_decode input len out out_capacity =
    if is_null input || is_null out
    then done (err err_bad_arg, out)
    else if len == 0
    then done (err err_bad_length, out)
    else (do
      buf ← deref input
      last ← load buf (len - 1)
      if not (last == 0)
          then done (err err_bad_length, out)
          else if ltb out_capacity len
          then done (err err_buffer, out)
          else (do
            target ← deref out
            bytes ← read buf 0 len
            copied ← write target 0 bytes
            done (ok (len - 1), some copied)))

store_text-write :
    (xs extra buf : Bytes)
    → length xs ≤ length buf
    → store_text buf (some (xs ++ extra)) (length xs) ≡ done (xs ++ drop (length xs) buf)
unfolding store_text write
store_text-write [] extra buf h = refl
store_text-write (x ∷ xs) extra buf h =
    rw
      (
        ltb-true 0 (length (x ∷ xs)) (omega arith),
        read-append [] (x ∷ xs) extra 0 (length (x ∷ xs)) refl refl,
      )
      (ground (arith, h))

write-front :
    (buf bs : Bytes) → length bs ≤ length buf → write buf 0 bs ≡ done (bs ++ drop (length bs) buf)
unfolding write
write-front buf bs h = ground (arith, h)

overlay_encoded :
    (xs extra buf rest : Bytes) (z capacity : ℕ)
    → length xs + 1 ≤ 241
    → length xs + 1 ≤ capacity
    → capacity ≤ length buf
    → drop (length xs) buf ≡ z ∷ rest
    → set_overlay_encode (some (xs ++ extra)) (length xs) (some buf) capacity
      ≡ done (ok (length xs + 1), some (xs ++ (0 ∷ rest)))
unfolding set_overlay_encode
overlay_encoded xs extra buf rest z capacity short fits holds e =
    rw
      (
        ltb-false 241 (length xs + 1) short,
        ltb-false capacity (length xs + 1) fits,
        store_text-write xs extra buf (omega arith),
        e,
        write-append xs (z ∷ []) rest (0 ∷ []) (length xs) refl refl,
      )
      refl

overlay_read : (xs rest : Bytes) → read (xs ++ (0 ∷ rest)) 0 (length xs + 1) ≡ done (xs ++ (0 ∷ []))
overlay_read xs rest =
    ap (λ (m : Bytes). read m 0 (length xs + 1)) (sym (append_assoc xs (0 ∷ []) rest))
    ∙ read-append [] (xs ++ (0 ∷ [])) rest 0 (length xs + 1) refl
        (omega (arith, length-append xs (0 ∷ [])))

overlay_decoded :
    (xs rest back : Bytes) (room : ℕ)
    → length xs + 1 ≤ room
    → room ≤ length back
    → set_overlay_decode (some (xs ++ (0 ∷ rest))) (length xs + 1) (some back) room
      ≡ done (ok (length xs), some (xs ++ (0 ∷ drop (length (xs ++ (0 ∷ []))) back)))
unfolding set_overlay_decode
overlay_decoded xs rest back room wide has =
    let filled = write-front back (xs ++ (0 ∷ [])) (omega (arith, length-append xs (0 ∷ []))) in
    let joined = append_assoc xs (0 ∷ []) (drop (length (xs ++ (0 ∷ []))) back) in
    let back_one : length xs + 1 - 1 ≡ length xs = omega arith in
    let some_text : (length xs + 1 == 0) ≡ false = ground arith in
    rw
      (
        some_text,
        load-append xs 0 rest (length xs + 1 - 1) back_one,
        ltb-false room (length xs + 1) wide,
        overlay_read xs rest,
        filled,
      )
      (ap₂ (λ (n : ℕ) (m : Bytes). done (ok n, some m)) back_one joined)

-- A text of at most 240 bytes comes back from its encoding with the NUL behind it, between buffers
-- that have room for both.
pub set_overlay_decode-set_overlay_encode :
    (xs extra buf back : Bytes) (capacity room : ℕ)
    → length xs + 1 ≤ 241
    → length xs + 1 ≤ capacity
    → capacity ≤ length buf
    → length xs + 1 ≤ room
    → room ≤ length back
    → (out : Bytes) × (tail : Bytes) × (set_overlay_encode
          (some (xs ++ extra))
          (length xs)
          (some buf)
          capacity
        ≡ done (ok (length xs + 1), some out))
      × (set_overlay_decode (some out) (length xs + 1) (some back) room
          ≡ done (ok (length xs), some (xs ++ (0 ∷ tail))))
set_overlay_decode-set_overlay_encode xs extra buf back capacity room short fits holds wide has =
    let (z, rest, e) =
      nonempty (drop (length xs) buf) (omega (arith, length-drop (length xs) buf)) in
    (
      xs ++ (0 ∷ rest),
      drop (length (xs ++ (0 ∷ []))) back,
      overlay_encoded xs extra buf rest z capacity short fits holds e,
      overlay_decoded xs rest back room wide has,
    )
