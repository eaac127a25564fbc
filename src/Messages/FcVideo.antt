-- ===== src/Messages/FcVideo.antt =====
-- The fixed-size FC_VIDEO payloads of src/arc_messages_fc_video.h and src/arc_messages_fc_video.c.
pub mod Layouts
pub mod Overlay
pub mod Report
use arc_protocol.Prelude.{ℕ, ◌<◌, ◌≤◌, ◌^◌, some, [], ◌∷◌, ◌++◌, length, drop}
use arc_protocol.Prelude.{◌≡◌, refl, ap, arith}
use arc_protocol.Prelude.Int.{ℤ}
use arc_protocol.Memory.{Bytes, Ptr, Run, done, ◌>>=◌, load}
use arc_protocol.Protocol.{Result, ok}
use arc_protocol.Frame.{join16}
use arc_protocol.Messages.{
  be32, half, join32, of_int8, to_int8, of_int16, to_int16, of_int32, to_int32, encode, decode,
}
use arc_protocol.Messages.Laws.{join16-half, join32-be32, IsInt8, to_int8-of_int8, encode-decode}
use arc_protocol.Messages.Laws.{IsInt16, to_int16-of_int16, IsInt32, to_int32-of_int32}

pub record SetLayout : Type 0 where
  pub layout_id : ℕ

abbrev pub set_layout_size : ℕ
set_layout_size = 1

abbrev pub set_layout_fields : SetLayout → Bytes
set_layout_fields m = (m.layout_id ∷ [])

unfoldable pub set_layout_parse : Bytes → Run SetLayout
set_layout_parse buf = do layout_id ← load buf 0; done (record { layout_id = layout_id })

unfoldable pub set_layout_encode : Ptr SetLayout → Ptr Bytes → ℕ → Run (Result ℕ × Ptr Bytes)
set_layout_encode = encode set_layout_fields set_layout_size

unfoldable pub set_layout_decode :
    Ptr Bytes → ℕ → Ptr SetLayout → Run (Result (Unit {0}) × Ptr SetLayout)
set_layout_decode = decode set_layout_parse set_layout_size

-- A layout command comes back from
-- its encoding, in any buffer that has its 1 byte.
pub set_layout_decode-set_layout_encode :
    (m old : SetLayout) (buf : Bytes) (capacity : ℕ)
    → 1 ≤ capacity
    → capacity ≤ length buf
    → (out : Bytes) × (set_layout_encode (some m) (some buf) capacity ≡ done (ok 1, some out))
      × (set_layout_decode (some out) 1 (some old) ≡ done (ok tt, some m))
unfolding set_layout_encode set_layout_decode set_layout_parse load
set_layout_decode-set_layout_encode m old buf capacity h room =
    encode-decode set_layout_fields set_layout_parse 1 capacity m old buf refl h room (λ rest. refl)

pub record SetSource : Type 0 where
  pub slot_id : ℕ
  pub sender_addr : ℕ

abbrev pub set_source_size : ℕ
set_source_size = 2

abbrev pub set_source_fields : SetSource → Bytes
set_source_fields m = (m.slot_id ∷ m.sender_addr ∷ [])

unfoldable pub set_source_parse : Bytes → Run SetSource
set_source_parse buf = do
  slot_id ← load buf 0
  sender_addr ← load buf 1
  done (record { slot_id = slot_id; sender_addr = sender_addr })

unfoldable pub set_source_encode : Ptr SetSource → Ptr Bytes → ℕ → Run (Result ℕ × Ptr Bytes)
set_source_encode = encode set_source_fields set_source_size

unfoldable pub set_source_decode :
    Ptr Bytes → ℕ → Ptr SetSource → Run (Result (Unit {0}) × Ptr SetSource)
set_source_decode = decode set_source_parse set_source_size

-- A source command comes back from
-- its encoding, in any buffer that has its 2 bytes.
pub set_source_decode-set_source_encode :
    (m old : SetSource) (buf : Bytes) (capacity : ℕ)
    → 2 ≤ capacity
    → capacity ≤ length buf
    → (out : Bytes) × (set_source_encode (some m) (some buf) capacity ≡ done (ok 2, some out))
      × (set_source_decode (some out) 2 (some old) ≡ done (ok tt, some m))
unfolding set_source_encode set_source_decode set_source_parse load
set_source_decode-set_source_encode m old buf capacity h room =
    encode-decode set_source_fields set_source_parse 2 capacity m old buf refl h room (λ rest. refl)
