-- ===== src/Messages/Radio.antt =====
-- The RADIO payloads: src/arc_messages_radio.h and src/arc_messages_radio.c.
use arc_protocol.Prelude.{ℕ, ◌<◌, ◌≤◌, ◌^◌, some, [], ◌∷◌, ◌++◌, length}
use arc_protocol.Prelude.{◌≡◌, refl}
use arc_protocol.Prelude.Int.{ℤ}
use arc_protocol.Memory.{Bytes, Ptr, Run, done, ◌>>=◌, load}
use arc_protocol.Protocol.{Result, ok}
use arc_protocol.Frame.{join16}
use arc_protocol.Messages.{be32, half, join32, of_int8, to_int8, encode, decode}
use arc_protocol.Messages.Laws.{join16-half, join32-be32, IsInt8, to_int8-of_int8, encode-decode}

pub record SetFrequency : Type 0 where
  pub frequency_hz : ℕ

abbrev pub set_frequency_size : ℕ
set_frequency_size = 4

abbrev pub set_frequency_fields : SetFrequency → Bytes
set_frequency_fields m = be32 m.frequency_hz

unfoldable pub set_frequency_parse : Bytes → Run SetFrequency
set_frequency_parse buf = do
  frequency_hz_0 ← load buf 0
  frequency_hz_1 ← load buf 1
  frequency_hz_2 ← load buf 2
  frequency_hz_3 ← load buf 3
  done
      (record { frequency_hz = join32 frequency_hz_0 frequency_hz_1 frequency_hz_2 frequency_hz_3 })

unfoldable pub set_frequency_encode : Ptr SetFrequency → Ptr Bytes → ℕ → Run (Result ℕ × Ptr Bytes)
set_frequency_encode = encode set_frequency_fields set_frequency_size

unfoldable pub set_frequency_decode :
    Ptr Bytes → ℕ → Ptr SetFrequency → Run (Result (Unit {0}) × Ptr SetFrequency)
set_frequency_decode = decode set_frequency_parse set_frequency_size

-- A frequency command whose 32-bit fields are in range comes back from its encoding, in any buffer that has its 4 bytes.
pub set_frequency_decode-set_frequency_encode :
    (m old : SetFrequency) (buf : Bytes) (capacity : ℕ)
    → m.frequency_hz < 2 ^ 32
    → 4 ≤ capacity
    → capacity ≤ length buf
    → (out : Bytes) × (set_frequency_encode (some m) (some buf) capacity ≡ done (ok 4, some out))
      × (set_frequency_decode (some out) 4 (some old) ≡ done (ok tt, some m))
unfolding set_frequency_encode set_frequency_decode set_frequency_parse load
set_frequency_decode-set_frequency_encode m old buf capacity frequency_hz_ok h room =
    encode-decode set_frequency_fields set_frequency_parse 4 capacity m old buf refl h room
      (λ rest. rw (join32-be32 m.frequency_hz frequency_hz_ok) refl)

pub record SetTxPower : Type 0 where
  pub tx_power_dbm : ℤ

abbrev pub set_tx_power_size : ℕ
set_tx_power_size = 1

abbrev pub set_tx_power_fields : SetTxPower → Bytes
set_tx_power_fields m = of_int8 m.tx_power_dbm ∷ []

unfoldable pub set_tx_power_parse : Bytes → Run SetTxPower
set_tx_power_parse buf = do
  tx_power_dbm_byte ← load buf 0
  done (record { tx_power_dbm = to_int8 tx_power_dbm_byte })

unfoldable pub set_tx_power_encode : Ptr SetTxPower → Ptr Bytes → ℕ → Run (Result ℕ × Ptr Bytes)
set_tx_power_encode = encode set_tx_power_fields set_tx_power_size

unfoldable pub set_tx_power_decode :
    Ptr Bytes → ℕ → Ptr SetTxPower → Run (Result (Unit {0}) × Ptr SetTxPower)
set_tx_power_decode = decode set_tx_power_parse set_tx_power_size

-- A power command whose signed 8-bit fields are in range comes back from its encoding, in any buffer that has its 1 byte.
pub set_tx_power_decode-set_tx_power_encode :
    (m old : SetTxPower) (buf : Bytes) (capacity : ℕ)
    → IsInt8 m.tx_power_dbm
    → 1 ≤ capacity
    → capacity ≤ length buf
    → (out : Bytes) × (set_tx_power_encode (some m) (some buf) capacity ≡ done (ok 1, some out))
      × (set_tx_power_decode (some out) 1 (some old) ≡ done (ok tt, some m))
unfolding set_tx_power_encode set_tx_power_decode set_tx_power_parse load
set_tx_power_decode-set_tx_power_encode m old buf capacity tx_power_dbm_ok h room =
    encode-decode set_tx_power_fields set_tx_power_parse 1 capacity m old buf refl h room
      (λ rest. rw (to_int8-of_int8 m.tx_power_dbm tx_power_dbm_ok) refl)

pub record SetPhyProfile : Type 0 where
  pub profile_id : ℕ

abbrev pub set_phy_profile_size : ℕ
set_phy_profile_size = 1

abbrev pub set_phy_profile_fields : SetPhyProfile → Bytes
set_phy_profile_fields m = m.profile_id ∷ []

unfoldable pub set_phy_profile_parse : Bytes → Run SetPhyProfile
set_phy_profile_parse buf = do profile_id ← load buf 0; done (record { profile_id = profile_id })

unfoldable pub set_phy_profile_encode :
    Ptr SetPhyProfile → Ptr Bytes → ℕ → Run (Result ℕ × Ptr Bytes)
set_phy_profile_encode = encode set_phy_profile_fields set_phy_profile_size

unfoldable pub set_phy_profile_decode :
    Ptr Bytes → ℕ → Ptr SetPhyProfile → Run (Result (Unit {0}) × Ptr SetPhyProfile)
set_phy_profile_decode = decode set_phy_profile_parse set_phy_profile_size

-- A profile command comes back from its encoding, in any buffer that has its 1 byte.
pub set_phy_profile_decode-set_phy_profile_encode :
    (m old : SetPhyProfile) (buf : Bytes) (capacity : ℕ)
    → 1 ≤ capacity
    → capacity ≤ length buf
    → (out : Bytes) × (set_phy_profile_encode (some m) (some buf) capacity ≡ done (ok 1, some out))
      × (set_phy_profile_decode (some out) 1 (some old) ≡ done (ok tt, some m))
unfolding set_phy_profile_encode set_phy_profile_decode set_phy_profile_parse load
set_phy_profile_decode-set_phy_profile_encode m old buf capacity h room =
    encode-decode set_phy_profile_fields set_phy_profile_parse 1 capacity m old buf refl h room
      (λ rest. refl)

pub record RadioStatus : Type 0 where
  pub frequency_hz : ℕ
  pub tx_power_dbm : ℤ
  pub rssi_dbm : ℤ
  pub snr_db : ℤ
  pub error_flags : ℕ
  pub packets_rx : ℕ
  pub packets_tx : ℕ

abbrev pub status_report_size : ℕ
status_report_size = 12

abbrev pub status_report_fields : RadioStatus → Bytes
status_report_fields m =
    be32 m.frequency_hz
    ++ (of_int8 m.tx_power_dbm
        ∷ of_int8 m.rssi_dbm
        ∷ of_int8 m.snr_db
        ∷ m.error_flags
        ∷ (half m.packets_rx ++ (half m.packets_tx)))

unfoldable pub status_report_parse : Bytes → Run RadioStatus
status_report_parse buf = do
  frequency_hz_0 ← load buf 0
  frequency_hz_1 ← load buf 1
  frequency_hz_2 ← load buf 2
  frequency_hz_3 ← load buf 3
  tx_power_dbm_byte ← load buf 4
  rssi_dbm_byte ← load buf 5
  snr_db_byte ← load buf 6
  error_flags ← load buf 7
  packets_rx_0 ← load buf 8
  packets_rx_1 ← load buf 9
  packets_tx_0 ← load buf 10
  packets_tx_1 ← load buf 11
  done (record {
    frequency_hz = join32 frequency_hz_0 frequency_hz_1 frequency_hz_2 frequency_hz_3;
    tx_power_dbm = to_int8 tx_power_dbm_byte;
    rssi_dbm = to_int8 rssi_dbm_byte;
    snr_db = to_int8 snr_db_byte;
    error_flags = error_flags;
    packets_rx = join16 packets_rx_0 packets_rx_1;
    packets_tx = join16 packets_tx_0 packets_tx_1;
  })

unfoldable pub status_report_encode : Ptr RadioStatus → Ptr Bytes → ℕ → Run (Result ℕ × Ptr Bytes)
status_report_encode = encode status_report_fields status_report_size

unfoldable pub status_report_decode :
    Ptr Bytes → ℕ → Ptr RadioStatus → Run (Result (Unit {0}) × Ptr RadioStatus)
status_report_decode = decode status_report_parse status_report_size

-- A status report whose 32-bit, signed 8-bit and 16-bit fields are in range comes back from its encoding, in any buffer that has its 12 bytes.
pub status_report_decode-status_report_encode :
    (m old : RadioStatus) (buf : Bytes) (capacity : ℕ)
    → m.frequency_hz < 2 ^ 32
    → IsInt8 m.tx_power_dbm
    → IsInt8 m.rssi_dbm
    → IsInt8 m.snr_db
    → m.packets_rx < 2 ^ 16
    → m.packets_tx < 2 ^ 16
    → 12 ≤ capacity
    → capacity ≤ length buf
    → (out : Bytes) × (status_report_encode (some m) (some buf) capacity ≡ done (ok 12, some out))
      × (status_report_decode (some out) 12 (some old) ≡ done (ok tt, some m))
unfolding status_report_encode status_report_decode status_report_parse load
status_report_decode-status_report_encode m old buf capacity frequency_hz_ok tx_power_dbm_ok
      rssi_dbm_ok snr_db_ok packets_rx_ok packets_tx_ok h room =
    encode-decode status_report_fields status_report_parse 12 capacity m old buf refl h room
      (λ rest.
        rw
          (
            join32-be32 m.frequency_hz frequency_hz_ok,
            to_int8-of_int8 m.tx_power_dbm tx_power_dbm_ok,
            to_int8-of_int8 m.rssi_dbm rssi_dbm_ok,
            to_int8-of_int8 m.snr_db snr_db_ok,
            join16-half m.packets_rx packets_rx_ok,
            join16-half m.packets_tx packets_tx_ok,
          )
          refl)
