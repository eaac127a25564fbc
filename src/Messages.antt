-- ===== src/Messages.antt =====
-- The payload encoders and decoders of src/arc_messages_*.c: what they share. An encoder checks
-- its pointers and the capacity and stores the fields in order; a decoder checks its pointers and
-- the length and reads them back. Signed 8-bit fields are integers.
pub mod Laws
pub mod Cursor
pub mod Text
pub mod Netmgmt
pub mod Radio
pub mod Video
pub mod Power
pub mod FcCoord
pub mod FcVideo
use arc_protocol.Prelude.{ℕ, ◌+◌, ◌-◌, ◌*◌, ◌/◌, ◌%◌, ◌^◌, ◌==◌, ◌||◌, not, ltb, if◌then◌else◌}
use arc_protocol.Prelude.{Bool, none, some, [], ◌∷◌, ◌++◌, bit_and, bit_or}
use arc_protocol.Prelude.Int.{ℤ, pos, negsuc}
use arc_protocol.Memory.{Bytes, Ptr, Run, done, ◌>>=◌, is_null, deref, load, write, u8, u32}
use arc_protocol.Protocol.{Result, ok, err, err_bad_arg, err_buffer, err_bad_length}

-- `(uint8_t)((v >> 24) & 0xFF)` and so on.
abbrev pub be32 : ℕ → Bytes
be32 v =
    u8 (bit_and (v / 2 ^ 24) 0xff)
    ∷ u8 (bit_and (v / 2 ^ 16) 0xff)
    ∷ u8 (bit_and (v / 2 ^ 8) 0xff)
    ∷ u8 (bit_and v 0xff)
    ∷ []

-- `(uint8_t)((v >> 8) & 0xFF)`, then `(uint8_t)(v & 0xFF)`.
abbrev pub half : ℕ → Bytes
half v = u8 (bit_and (v / 2 ^ 8) 0xff) ∷ u8 (bit_and v 0xff) ∷ []

-- `((uint32_t)a << 24) | ((uint32_t)b << 16) | ((uint32_t)c << 8) | ((uint32_t)d)`
abbrev pub join32 : (a b c d : ℕ) → ℕ
join32 a b c d = u32 (bit_or (bit_or (bit_or (a * 2 ^ 24) (b * 2 ^ 16)) (c * 2 ^ 8)) d)

-- `(uint8_t)x` for an `int8_t`.
abbrev pub of_int8 : ℤ → ℕ
of_int8 (pos n) = n % 256
of_int8 (negsuc n) = 255 - n % 256

-- `(int8_t)b` for a `uint8_t`.
abbrev pub to_int8 : ℕ → ℤ
to_int8 b = if ltb b 128 then pos b else negsuc (255 - b)

-- `(uint16_t)x` for an `int16_t`, and back.
abbrev pub of_int16 : ℤ → ℕ
of_int16 (pos n) = n % 2 ^ 16
of_int16 (negsuc n) = 65535 - n % 2 ^ 16

abbrev pub to_int16 : ℕ → ℤ
to_int16 v = if ltb v (2 ^ 15) then pos v else negsuc (65535 - v)

-- `(uint32_t)x` for an `int32_t`, and back.
abbrev pub of_int32 : ℤ → ℕ
of_int32 (pos n) = n % 2 ^ 32
of_int32 (negsuc n) = 4294967295 - n % 2 ^ 32

abbrev pub to_int32 : ℕ → ℤ
to_int32 v = if ltb v (2 ^ 31) then pos v else negsuc (4294967295 - v)

-- An encoder of a fixed size; `fields` are the bytes that it stores, from `out[0]` on.
unfoldable pub encode {ℓ} :
    {A : Type ℓ}
    → (fields : A → Bytes) → (size : ℕ) → Ptr A
    → Ptr Bytes
    → (capacity : ℕ) → Run (Result ℕ × Ptr Bytes)
encode fields size msg out out_capacity =
    if is_null msg || is_null out
    then done (err err_bad_arg, out)
    else if ltb out_capacity size
    then done (err err_buffer, out)
    else (do
      m ← deref msg
      buf ← deref out
      stored ← write buf 0 (fields m)
      done (ok size, some stored))

-- A decoder of a fixed size; `parse` reads the fields.
unfoldable pub decode {ℓ} :
    {A : Type ℓ}
    → (parse : Bytes → Run A) → (size : ℕ) → Ptr Bytes
    → (len : ℕ) → Ptr A
    → Run (Result (Unit {0}) × Ptr A)
decode parse size input len msg =
    if is_null input || is_null msg
    then done (err err_bad_arg, msg)
    else if not (len == size)
    then done (err err_bad_length, msg)
    else (do buf ← deref input; m ← parse buf; done (ok tt, some m))
