-- ===== src/Cobs.antt =====
-- Consistent overhead byte stuffing: `arc_cobs_encode` and `arc_cobs_decode` of
-- src/arc_protocol.c. Input and output do not overlap.
pub mod Stuff
pub mod Encode
pub mod Decode
pub mod RoundTrip
pub mod Overrun
pub mod Safety
use arc_protocol.Prelude.{ℕ, zero, suc, ◌+◌, ◌-◌, ◌==◌, ◌&&◌, ◌||◌, not, ltb, leb, if◌then◌else◌}
use arc_protocol.Prelude.{some, none, List, [], ◌∷◌, length, take, drop}
use arc_protocol.Memory.{Bytes, Ptr, Run, done, fault, ◌>>=◌, is_null, deref, load, read, write, u8}
use arc_protocol.Protocol.{Error, Result, ok, err, err_buffer, err_bad_cobs, err_bad_arg}

-- The variables of the encoder's loop: where the next code goes, where the next byte goes, and the
-- running distance.
pub record Encoder : Type 0 where
  pub buf : Bytes
  pub code_idx : ℕ
  pub out_idx : ℕ
  pub code : ℕ

-- `out[code_idx] = code; code_idx = out_idx++; code = 1;`
unfoldable pub close_run : Encoder → Run Encoder
close_run s = do
  b ← write s.buf s.code_idx (s.code ∷ [])
  done (record { buf = b; code_idx = s.out_idx; out_idx = s.out_idx + 1; code = 1 })

-- One round: the body of the `for` loop for the input byte `x`.
unfoldable pub encode_step : ℕ → Encoder → Run Encoder
unfolding close_run
encode_step x s = if x == 0 then close_run s else (do
  b ← write s.buf s.out_idx (x ∷ [])
  let next = record s { buf = b; out_idx = s.out_idx + 1; code = u8 (s.code + 1) }
  if next.code == 0xff then close_run next else done next)

unfoldable pub encode_loop : Bytes → Encoder → Run Encoder
encode_loop [] s = done s
encode_loop (x ∷ xs) s = encode_step x s >>= encode_loop xs

-- The stores behind the loop: the last code and the delimiter. Also the number of bytes written.
unfoldable pub encode_finish : Encoder → Run (Bytes × ℕ)
encode_finish s = do
  coded ← write s.buf s.code_idx (s.code ∷ [])
  ended ← write coded s.out_idx (0 ∷ [])
  done (ended, s.out_idx + 1)

-- The input: `in` may be NULL only with `len` 0.
abbrev pub input_bytes : Ptr Bytes → ℕ → Run Bytes
input_bytes none len = done []
input_bytes (some bytes) len = read bytes 0 len

unfoldable pub cobs_encode :
    Ptr Bytes → (len : ℕ) → Ptr Bytes → (capacity : ℕ) → Run (Result ℕ × Ptr Bytes)
cobs_encode input len out capacity =
    if is_null out || (is_null input && ltb 0 len)
    then done (err err_bad_arg, out)
    else if ltb capacity (len + 2)
    then done (err err_buffer, out)
    else (do
      bytes ← input_bytes input len
      buf ← deref out
      s ← encode_loop bytes (record { buf = buf; code_idx = 0; out_idx = 1; code = 1 })
      (ended, n) ← encode_finish s
      done (ok n, some ended))

-- After one round of the decoder: the encoded bytes left, the output and its index; or an error.
pub data Progress : Type 0 where
  more : Bytes → Bytes → ℕ → Progress
  stop : Error → Bytes → Progress

-- One round of the `while` loop. `rest` is `in[in_idx .. encoded_end)` behind the code byte.
unfoldable pub decode_step : (capacity code : ℕ) → Bytes → Bytes → ℕ → Run Progress
decode_step capacity code rest buf out_idx =
    if code == 0
    then done (stop err_bad_cobs buf)
    else if ltb (length rest) (code - 1)
    then done (stop err_bad_cobs buf)
    else if ltb capacity (out_idx + (code - 1))
    then done (stop err_buffer buf)
    else (do
      bytes ← read rest 0 (code - 1)
      copied ← write buf out_idx bytes
      let left = drop (code - 1) rest
      if not (code == 0xff) && ltb 0 (length left)
          then (if leb capacity (out_idx + (code - 1)) then done (stop err_buffer copied) else (do
            zeroed ← write copied (out_idx + (code - 1)) (0 ∷ [])
            done (more left zeroed (out_idx + (code - 1) + 1))))
          else done (more left copied (out_idx + (code - 1))))

-- The loop with fuel; running out of it is a `fault`.
unfoldable pub decode_loop : (capacity fuel : ℕ) → Bytes → Bytes → ℕ → Run (Result ℕ × Ptr Bytes)
decode_loop capacity zero rest buf out_idx = fault
decode_loop capacity (suc fuel) [] buf out_idx = done (ok out_idx, some buf)
decode_loop capacity (suc fuel) (code ∷ rest) buf out_idx =
    decode_step capacity code rest buf out_idx >>= λ p. elim p [
      | more rest' buf' out_idx' ↦ decode_loop capacity fuel rest' buf' out_idx'
      | stop e buf' ↦ done (err e, some buf')
    ]

unfoldable pub cobs_decode :
    Ptr Bytes → (len : ℕ) → Ptr Bytes → (capacity : ℕ) → Run (Result ℕ × Ptr Bytes)
cobs_decode input len out capacity =
    if is_null input || is_null out
    then done (err err_bad_arg, out)
    else if ltb len 2
    then done (err err_bad_cobs, out)
    else (do
      bytes ← deref input
      buf ← deref out
      last ← load bytes (len - 1)
      encoded ← read bytes 0 (len - 1)
      if not (last == 0)
          then done (err err_bad_cobs, out)
          else decode_loop capacity len encoded buf 0)
