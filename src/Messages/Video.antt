-- ===== src/Messages/Video.antt =====
-- The VIDEO payloads: src/arc_messages_video.h and src/arc_messages_video.c.
pub mod Info
use arc_protocol.Prelude.{ℕ, ◌<◌, ◌≤◌, ◌^◌, some, ◌∷◌, ◌++◌, length}
use arc_protocol.Prelude.{◌≡◌, refl}
use arc_protocol.Prelude.Int.{ℤ}
use arc_protocol.Memory.{Bytes, Ptr, Run, done, ◌>>=◌, load}
use arc_protocol.Protocol.{Result, ok}
use arc_protocol.Frame.{join16}
use arc_protocol.Messages.{be32, half, join32, of_int8, to_int8, encode, decode}
use arc_protocol.Messages.Laws.{join16-half, join32-be32, IsInt8, to_int8-of_int8, encode-decode}

pub record SetBitrate : Type 0 where
  pub bitrate_bps : ℕ

abbrev pub set_bitrate_size : ℕ
set_bitrate_size = 4

abbrev pub set_bitrate_fields : SetBitrate → Bytes
set_bitrate_fields m = be32 m.bitrate_bps

unfoldable pub set_bitrate_parse : Bytes → Run SetBitrate
set_bitrate_parse buf = do
  bitrate_bps_0 ← load buf 0
  bitrate_bps_1 ← load buf 1
  bitrate_bps_2 ← load buf 2
  bitrate_bps_3 ← load buf 3
  done (record { bitrate_bps = join32 bitrate_bps_0 bitrate_bps_1 bitrate_bps_2 bitrate_bps_3 })

unfoldable pub set_bitrate_encode : Ptr SetBitrate → Ptr Bytes → ℕ → Run (Result ℕ × Ptr Bytes)
set_bitrate_encode = encode set_bitrate_fields set_bitrate_size

unfoldable pub set_bitrate_decode :
    Ptr Bytes → ℕ → Ptr SetBitrate → Run (Result (Unit {0}) × Ptr SetBitrate)
set_bitrate_decode = decode set_bitrate_parse set_bitrate_size

-- A bit rate command whose 32-bit fields are in range comes back from its encoding, in any buffer that has its 4 bytes.
pub set_bitrate_decode-set_bitrate_encode :
    (m old : SetBitrate) (buf : Bytes) (capacity : ℕ)
    → m.bitrate_bps < 2 ^ 32
    → 4 ≤ capacity
    → capacity ≤ length buf
    → (out : Bytes) × (set_bitrate_encode (some m) (some buf) capacity ≡ done (ok 4, some out))
      × (set_bitrate_decode (some out) 4 (some old) ≡ done (ok tt, some m))
unfolding set_bitrate_encode set_bitrate_decode set_bitrate_parse load
set_bitrate_decode-set_bitrate_encode m old buf capacity bitrate_bps_ok h room =
    encode-decode set_bitrate_fields set_bitrate_parse 4 capacity m old buf refl h room
      (λ rest. rw (join32-be32 m.bitrate_bps bitrate_bps_ok) refl)

pub record VideoStatus : Type 0 where
  pub state : ℕ
  pub cpu_temp_c : ℕ
  pub cpu_load_pct : ℕ
  pub free_disk_mb : ℕ
  pub rssi_dbm : ℤ
  pub tx_frames : ℕ
  pub dropped_frames : ℕ

abbrev pub video_status_size : ℕ
video_status_size = 10

abbrev pub video_status_fields : VideoStatus → Bytes
video_status_fields m =
    m.state
    ∷ m.cpu_temp_c
    ∷ m.cpu_load_pct
    ∷ (half m.free_disk_mb ++ (of_int8 m.rssi_dbm ∷ (half m.tx_frames ++ (half m.dropped_frames))))

unfoldable pub video_status_parse : Bytes → Run VideoStatus
video_status_parse buf = do
  state ← load buf 0
  cpu_temp_c ← load buf 1
  cpu_load_pct ← load buf 2
  free_disk_mb_0 ← load buf 3
  free_disk_mb_1 ← load buf 4
  rssi_dbm_byte ← load buf 5
  tx_frames_0 ← load buf 6
  tx_frames_1 ← load buf 7
  dropped_frames_0 ← load buf 8
  dropped_frames_1 ← load buf 9
  done (record {
    state = state;
    cpu_temp_c = cpu_temp_c;
    cpu_load_pct = cpu_load_pct;
    free_disk_mb = join16 free_disk_mb_0 free_disk_mb_1;
    rssi_dbm = to_int8 rssi_dbm_byte;
    tx_frames = join16 tx_frames_0 tx_frames_1;
    dropped_frames = join16 dropped_frames_0 dropped_frames_1;
  })

unfoldable pub video_status_encode : Ptr VideoStatus → Ptr Bytes → ℕ → Run (Result ℕ × Ptr Bytes)
video_status_encode = encode video_status_fields video_status_size

unfoldable pub video_status_decode :
    Ptr Bytes → ℕ → Ptr VideoStatus → Run (Result (Unit {0}) × Ptr VideoStatus)
video_status_decode = decode video_status_parse video_status_size

-- A status report whose 16-bit and signed 8-bit fields are in range comes back from its encoding, in any buffer that has its 10 bytes.
pub video_status_decode-video_status_encode :
    (m old : VideoStatus) (buf : Bytes) (capacity : ℕ)
    → m.free_disk_mb < 2 ^ 16
    → IsInt8 m.rssi_dbm
    → m.tx_frames < 2 ^ 16
    → m.dropped_frames < 2 ^ 16
    → 10 ≤ capacity
    → capacity ≤ length buf
    → (out : Bytes) × (video_status_encode (some m) (some buf) capacity ≡ done (ok 10, some out))
      × (video_status_decode (some out) 10 (some old) ≡ done (ok tt, some m))
unfolding video_status_encode video_status_decode video_status_parse load
video_status_decode-video_status_encode m old buf capacity free_disk_mb_ok rssi_dbm_ok tx_frames_ok
      dropped_frames_ok h room =
    encode-decode video_status_fields video_status_parse 10 capacity m old buf refl h room (λ rest.
      rw
        (
          join16-half m.free_disk_mb free_disk_mb_ok,
          to_int8-of_int8 m.rssi_dbm rssi_dbm_ok,
          join16-half m.tx_frames tx_frames_ok,
          join16-half m.dropped_frames dropped_frames_ok,
        )
        refl)
