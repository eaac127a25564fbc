-- ===== src/Frame/Wire.antt =====
-- An abstract description of the wire format of src/arc_protocol.h: a packet is its fields with a
-- payload, and `wire` is the byte string that stands for it.
use arc_protocol.Prelude.{
  ℕ, ◌+◌, ◌/◌, ◌%◌, ◌^◌, ◌≤◌, ◌<◌, ◌≡◌, arith, [], ◌∷◌, ◌++◌, length, none, some,
}
use arc_protocol.Prelude.{length-append}
use arc_protocol.Memory.{Bytes, IsBytes, Ptr}
use arc_protocol.Memory.Laws.{IsBytes-append}
use arc_protocol.Crc.{crc_loop}
use arc_protocol.Protocol.{Frame, max_payload_size}

pub record Packet : Type 0 where
  pub src : ℕ
  pub dst : ℕ
  pub flags : ℕ
  pub session : ℕ
  pub seq : ℕ
  pub family : ℕ
  pub type : ℕ
  pub payload : Bytes

-- Every field has its width and the payload fits.
pub record IsPacket (p : Packet) : Type 0 where
  pub src_byte : p.src < 256
  pub dst_byte : p.dst < 256
  pub flags_byte : p.flags < 256
  pub session_byte : p.session < 256
  pub seq_word : p.seq < 2 ^ 16
  pub family_byte : p.family < 256
  pub type_byte : p.type < 256
  pub payload_bytes : IsBytes p.payload
  pub payload_fits : length p.payload ≤ max_payload_size

-- LEN counts everything that follows it.
abbrev pub header : Packet → Bytes
header p =
    (length p.payload + 10)
    ∷ p.src
    ∷ p.dst
    ∷ p.flags
    ∷ p.session
    ∷ (p.seq / 256)
    ∷ (p.seq % 256)
    ∷ p.family
    ∷ p.type
    ∷ []

abbrev pub body : Packet → Bytes
body p = header p ++ p.payload

unfoldable pub body_crc : Packet → ℕ
body_crc p = crc_loop 0xffff (body p)

abbrev pub trailer : ℕ → Bytes
trailer crc = (crc / 256) ∷ (crc % 256) ∷ []

abbrev pub wire : Packet → Bytes
wire p = header p ++ (p.payload ++ trailer (body_crc p))

abbrev pub payload_ptr : Bytes → Ptr Bytes
payload_ptr [] = none
payload_ptr (b ∷ bs) = some (b ∷ bs)

-- The decoded frame of a packet.
abbrev pub frame_of : Packet → Frame
frame_of p = record {
  src = p.src;
  dst = p.dst;
  flags = p.flags;
  session = p.session;
  seq = p.seq;
  family = p.family;
  type = p.type;
  payload = payload_ptr p.payload;
  payload_len = length p.payload;
}

pub length-wire : (p : Packet) → length (wire p) ≡ length p.payload + 11
length-wire p = omega (arith, length-append p.payload (trailer (body_crc p)))

pub body-IsBytes : (p : Packet) → IsPacket p → IsBytes (body p)
body-IsBytes p v = IsBytes-append (header p) p.payload (omega arith) v.payload_bytes
