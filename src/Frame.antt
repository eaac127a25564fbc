-- ===== src/Frame.antt =====
-- Building and parsing frames: `arc_frame_build`, `arc_frame_parse`, `arc_frame_build_ack` and
-- `arc_frame_set_flag` of src/arc_protocol.c. A function that writes through a pointer returns
-- its result beside what the pointer leads to afterwards.
pub mod Wire
pub mod Build
pub mod Parse
pub mod Accept
pub mod Outcome
pub mod Detect
pub mod Flag
use arc_protocol.Prelude.{ℕ, ◌+◌, ◌-◌, ◌*◌, ◌/◌, ◌^◌, ◌==◌, ◌&&◌, ◌||◌, not, ltb, if◌then◌else◌}
use arc_protocol.Prelude.{bit_and, bit_or, some, none, [], ◌∷◌}
use arc_protocol.Memory.{Bytes, Ptr, Run, done, ◌>>=◌, is_null, deref, load, read, write, u8, u16}
use arc_protocol.Crc.{crc16}
use arc_protocol.Protocol.{Frame, Error, Result, ok, err, err_buffer, err_too_short, err_too_long}
use arc_protocol.Protocol.{
  err_bad_length, err_bad_crc, err_bad_arg, header_size, crc_size, overhead,
}
use arc_protocol.Protocol.{max_frame_size, max_payload_size, flag_ack, family_netmgmt, netmgmt_ack}

-- A 16-bit value as the two bytes that the code stores: high, then low.
abbrev pub be16 : ℕ → Bytes
be16 v = u8 (v / 2 ^ 8) ∷ u8 (bit_and v 0xff) ∷ []

-- `(hi << 8) | lo`
abbrev pub join16 : ℕ → ℕ → ℕ
join16 hi lo = u16 (bit_or (hi * 2 ^ 8) lo)

-- The CRC of `buf[0 .. region)`, stored behind that region.
unfoldable pub store_crc : Bytes → ℕ → Run Bytes
store_crc buf region = do
  crc ← crc16 buf region
  high ← write buf region (u8 (crc / 2 ^ 8) ∷ [])
  write high (region + 1) (u8 (bit_and crc 0xff) ∷ [])

-- `if (payload_len > 0 && payload != NULL) memcpy(...)`
unfoldable pub store_payload : Bytes → Ptr Bytes → ℕ → Run Bytes
store_payload buf payload len =
    if ltb 0 len && not (is_null payload)
    then (do p ← deref payload; bytes ← read p 0 len; write buf header_size bytes)
    else done buf

-- The stores of `arc_frame_build` once its checks have passed; `total` is `ARC_OVERHEAD + len`.
unfoldable pub frame_fill :
    Bytes
    → (src dst flags session seq family type : ℕ) → Ptr Bytes
    → (len total : ℕ) → Run (Result ℕ × Ptr Bytes)
frame_fill out src dst flags session seq family type payload len total = do
  headed ← write out 0 (
      u8 (total - 1)
      ∷ src
      ∷ dst
      ∷ flags
      ∷ session
      ∷ u8 (seq / 2 ^ 8)
      ∷ u8 (bit_and seq 0xff)
      ∷ family
      ∷ type
      ∷ [])
  filled ← store_payload headed payload len
  stored ← store_crc filled (header_size + len)
  done (ok total, some stored)

unfoldable pub frame_build :
    Ptr Bytes
    → (out_capacity : ℕ) → (src dst flags session seq family type : ℕ) → Ptr Bytes
    → (payload_len : ℕ) → Run (Result ℕ × Ptr Bytes)
frame_build out out_capacity src dst flags session seq family type payload payload_len =
    if is_null out || (is_null payload && ltb 0 payload_len)
    then done (err err_bad_arg, out)
    else if ltb max_payload_size payload_len
    then done (err err_too_long, out)
    else if ltb out_capacity (overhead + payload_len)
    then done (err err_buffer, out)
    else (deref out >>= λ buf.
        frame_fill buf src dst flags session seq family type payload payload_len
          (overhead + payload_len))

-- The frame that `arc_frame_parse` fills in from its input.
unfoldable pub frame_fields : Bytes → ℕ → Run Frame
frame_fields buf payload_len = do
  src ← load buf 1
  dst ← load buf 2
  flags ← load buf 3
  session ← load buf 4
  seq_hi ← load buf 5
  seq_lo ← load buf 6
  family ← load buf 7
  type ← load buf 8
  payload ←
      if ltb 0 payload_len
      then (read buf header_size payload_len >>= λ p. done (some p))
      else done none
  done (record {
    src = src;
    dst = dst;
    flags = flags;
    session = session;
    seq = join16 seq_hi seq_lo;
    family = family;
    type = type;
    payload = payload;
    payload_len = u8 payload_len;
  })

-- The CRC check over `LEN` through the end of the payload, and the fields if it passes.
unfoldable pub frame_check : Bytes → ℕ → Frame → Run (Result (Unit {0}) × Ptr Frame)
frame_check buf payload_len old = do
  expected ← crc16 buf (header_size + payload_len)
  hi ← load buf (header_size + payload_len)
  lo ← load buf (header_size + payload_len + 1)
  if expected == join16 hi lo
      then (frame_fields buf payload_len >>= λ f. done (ok tt, some f))
      else done (err err_bad_crc, some old)

-- `frame` points to what the caller had there before.
unfoldable pub frame_parse : Ptr Bytes → ℕ → Ptr Frame → Run (Result (Unit {0}) × Ptr Frame)
frame_parse input len frame =
    if is_null input || is_null frame
    then done (err err_bad_arg, frame)
    else if ltb len overhead
    then done (err err_too_short, frame)
    else if ltb max_frame_size len
    then done (err err_too_long, frame)
    else (do
      buf ← deref input
      old ← deref frame
      declared_len ← load buf 0
      if not (declared_len + 1 == len)
          then done (err err_bad_length, frame)
          else if ltb max_payload_size (len - overhead)
          then done (err err_too_long, frame)
          else frame_check buf (len - overhead) old)

unfoldable pub frame_build_ack :
    Ptr Bytes → ℕ → Ptr Frame → (my_session my_seq : ℕ) → Run (Result ℕ × Ptr Bytes)
frame_build_ack out out_capacity none my_session my_seq = done (err err_bad_arg, out)
frame_build_ack out out_capacity (some original) my_session my_seq =
    frame_build out out_capacity original.dst original.src flag_ack my_session my_seq family_netmgmt
      netmgmt_ack (some (be16 original.seq)) 2

-- The flag byte is rewritten and the CRC computed anew over what the buffer then holds.
unfoldable pub frame_set_flag : Ptr Bytes → ℕ → ℕ → Run (Result (Unit {0}) × Ptr Bytes)
frame_set_flag frame len flag =
    if is_null frame
    then done (err err_bad_arg, frame)
    else if ltb len overhead
    then done (err err_too_short, frame)
    else if ltb max_frame_size len
    then done (err err_too_long, frame)
    else (do
      buf ← deref frame
      declared_len ← load buf 0
      if not (declared_len + 1 == len) then done (err err_bad_length, frame) else (do
        flags ← load buf 3
        flagged ← write buf 3 (u8 (bit_or flags flag) ∷ [])
        stored ← store_crc flagged (len - crc_size)
        done (ok tt, some stored)))
