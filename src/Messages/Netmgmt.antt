-- ===== src/Messages/Netmgmt.antt =====
-- The NETMGMT payloads: src/arc_messages_netmgmt.h and src/arc_messages_netmgmt.c.
use arc_protocol.Prelude.{ℕ, ◌<◌, ◌≤◌, ◌^◌, some, [], ◌∷◌, ◌++◌, length}
use arc_protocol.Prelude.{◌≡◌, refl, ap}
use arc_protocol.Memory.{Bytes, Ptr, Run, done, ◌>>=◌, load}
use arc_protocol.Protocol.{Result, ok}
use arc_protocol.Frame.{join16}
use arc_protocol.Messages.{be32, half, join32, encode, decode}
use arc_protocol.Messages.Laws.{join16-half, join32-be32, encode-decode}

pub record Ack : Type 0 where
  pub seq : ℕ

pub record Beacon : Type 0 where
  pub hop_index : ℕ
  pub frame_count : ℕ
  pub flags : ℕ

abbrev pub ack_size : ℕ
ack_size = 2

abbrev pub beacon_size : ℕ
beacon_size = 6

abbrev pub ack_fields : Ack → Bytes
ack_fields m = half m.seq

unfoldable pub ack_parse : Bytes → Run Ack
ack_parse buf = do hi ← load buf 0; lo ← load buf 1; done (record { seq = join16 hi lo })

unfoldable pub ack_encode : Ptr Ack → Ptr Bytes → ℕ → Run (Result ℕ × Ptr Bytes)
ack_encode = encode ack_fields ack_size

unfoldable pub ack_decode : Ptr Bytes → ℕ → Ptr Ack → Run (Result (Unit {0}) × Ptr Ack)
ack_decode = decode ack_parse ack_size

abbrev pub beacon_fields : Beacon → Bytes
beacon_fields m = be32 m.hop_index ++ (m.frame_count ∷ m.flags ∷ [])

unfoldable pub beacon_parse : Bytes → Run Beacon
beacon_parse buf = do
  a ← load buf 0
  b ← load buf 1
  c ← load buf 2
  d ← load buf 3
  frame_count ← load buf 4
  flags ← load buf 5
  done (record { hop_index = join32 a b c d; frame_count = frame_count; flags = flags })

unfoldable pub beacon_encode : Ptr Beacon → Ptr Bytes → ℕ → Run (Result ℕ × Ptr Bytes)
beacon_encode = encode beacon_fields beacon_size

unfoldable pub beacon_decode : Ptr Bytes → ℕ → Ptr Beacon → Run (Result (Unit {0}) × Ptr Beacon)
beacon_decode = decode beacon_parse beacon_size

-- An acknowledgement's payload comes back from its encoding, in any buffer that has its two bytes.
pub ack_decode-ack_encode :
    (m old : Ack) (buf : Bytes) (capacity : ℕ)
    → m.seq < 2 ^ 16
    → 2 ≤ capacity
    → capacity ≤ length buf
    → (out : Bytes) × (ack_encode (some m) (some buf) capacity ≡ done (ok 2, some out))
      × (ack_decode (some out) 2 (some old) ≡ done (ok tt, some m))
unfolding ack_encode ack_decode ack_parse load
ack_decode-ack_encode m old buf capacity s h room =
    encode-decode ack_fields ack_parse 2 capacity m old buf refl h room
      (λ rest. ap (λ (v : ℕ). done (record { seq = v })) (join16-half m.seq s))

-- A beacon comes back from its encoding, in any buffer that has its six bytes.
pub beacon_decode-beacon_encode :
    (m old : Beacon) (buf : Bytes) (capacity : ℕ)
    → m.hop_index < 2 ^ 32
    → 6 ≤ capacity
    → capacity ≤ length buf
    → (out : Bytes) × (beacon_encode (some m) (some buf) capacity ≡ done (ok 6, some out))
      × (beacon_decode (some out) 6 (some old) ≡ done (ok tt, some m))
unfolding beacon_encode beacon_decode beacon_parse load
beacon_decode-beacon_encode m old buf capacity s h room =
    encode-decode beacon_fields beacon_parse 6 capacity m old buf refl h room (λ rest.
      ap (λ (v : ℕ). done (record { hop_index = v; frame_count = m.frame_count; flags = m.flags }))
        (join32-be32 m.hop_index s))
