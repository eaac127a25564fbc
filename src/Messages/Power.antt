-- ===== src/Messages/Power.antt =====
-- The POWER payloads: src/arc_messages_power.h and src/arc_messages_power.c.
pub mod Report
use arc_protocol.Prelude.{ltb, ◌==◌, ◌||◌, ◌&&◌, not, if◌then◌else◌}
use arc_protocol.Prelude.{drop, arith}
use arc_protocol.Memory.{is_null, deref, write}
use arc_protocol.Protocol.{err, err_bad_arg, err_buffer}
use arc_protocol.Prelude.{ℕ, ◌<◌, ◌≤◌, ◌^◌, some, [], ◌∷◌, ◌++◌, length}
use arc_protocol.Prelude.{◌≡◌, refl}
use arc_protocol.Memory.{Bytes, Ptr, Run, done, ◌>>=◌, load}
use arc_protocol.Protocol.{Result, ok}
use arc_protocol.Frame.{join16}
use arc_protocol.Messages.{half, encode, decode}
use arc_protocol.Messages.Laws.{join16-half, encode-decode}

pub record SetOutputMask : Type 0 where
  pub enable_mask : ℕ
  pub state_mask : ℕ

abbrev pub set_output_mask_size : ℕ
set_output_mask_size = 2

abbrev pub set_output_mask_fields : SetOutputMask → Bytes
set_output_mask_fields m = m.enable_mask ∷ m.state_mask ∷ []

unfoldable pub set_output_mask_parse : Bytes → Run SetOutputMask
set_output_mask_parse buf = do
  enable_mask ← load buf 0
  state_mask ← load buf 1
  done (record { enable_mask = enable_mask; state_mask = state_mask })

unfoldable pub set_output_mask_encode :
    Ptr SetOutputMask → Ptr Bytes → ℕ → Run (Result ℕ × Ptr Bytes)
set_output_mask_encode = encode set_output_mask_fields set_output_mask_size

unfoldable pub set_output_mask_decode :
    Ptr Bytes → ℕ → Ptr SetOutputMask → Run (Result (Unit {0}) × Ptr SetOutputMask)
set_output_mask_decode = decode set_output_mask_parse set_output_mask_size

-- A mask command comes back from its encoding, in any buffer that has its 2 bytes.
pub set_output_mask_decode-set_output_mask_encode :
    (m old : SetOutputMask) (buf : Bytes) (capacity : ℕ)
    → 2 ≤ capacity
    → capacity ≤ length buf
    → (out : Bytes) × (set_output_mask_encode (some m) (some buf) capacity ≡ done (ok 2, some out))
      × (set_output_mask_decode (some out) 2 (some old) ≡ done (ok tt, some m))
unfolding set_output_mask_encode set_output_mask_decode set_output_mask_parse load
set_output_mask_decode-set_output_mask_encode m old buf capacity h room =
    encode-decode set_output_mask_fields set_output_mask_parse 2 capacity m old buf refl h room
      (λ rest. refl)

pub record BoardTelemetry : Type 0 where
  pub output_on_mask : ℕ
  pub output_fault_mask : ℕ
  pub battery_voltage_mv : ℕ
  pub charge_status : ℕ
  pub charge_voltage_mv : ℕ

abbrev pub board_telemetry_size : ℕ
board_telemetry_size = 7

abbrev pub board_telemetry_fields : BoardTelemetry → Bytes
board_telemetry_fields m =
    m.output_on_mask
    ∷ m.output_fault_mask
    ∷ (half m.battery_voltage_mv ++ (m.charge_status ∷ (half m.charge_voltage_mv)))

unfoldable pub board_telemetry_parse : Bytes → Run BoardTelemetry
board_telemetry_parse buf = do
  output_on_mask ← load buf 0
  output_fault_mask ← load buf 1
  battery_voltage_mv_0 ← load buf 2
  battery_voltage_mv_1 ← load buf 3
  charge_status ← load buf 4
  charge_voltage_mv_0 ← load buf 5
  charge_voltage_mv_1 ← load buf 6
  done (record {
    output_on_mask = output_on_mask;
    output_fault_mask = output_fault_mask;
    battery_voltage_mv = join16 battery_voltage_mv_0 battery_voltage_mv_1;
    charge_status = charge_status;
    charge_voltage_mv = join16 charge_voltage_mv_0 charge_voltage_mv_1;
  })

unfoldable pub board_telemetry_encode :
    Ptr BoardTelemetry → Ptr Bytes → ℕ → Run (Result ℕ × Ptr Bytes)
board_telemetry_encode = encode board_telemetry_fields board_telemetry_size

unfoldable pub board_telemetry_decode :
    Ptr Bytes → ℕ → Ptr BoardTelemetry → Run (Result (Unit {0}) × Ptr BoardTelemetry)
board_telemetry_decode = decode board_telemetry_parse board_telemetry_size

-- A telemetry report whose 16-bit fields are in range comes back from its encoding, in any buffer that has its 7 bytes.
pub board_telemetry_decode-board_telemetry_encode :
    (m old : BoardTelemetry) (buf : Bytes) (capacity : ℕ)
    → m.battery_voltage_mv < 2 ^ 16
    → m.charge_voltage_mv < 2 ^ 16
    → 7 ≤ capacity
    → capacity ≤ length buf
    → (out : Bytes) × (board_telemetry_encode (some m) (some buf) capacity ≡ done (ok 7, some out))
      × (board_telemetry_decode (some out) 7 (some old) ≡ done (ok tt, some m))
unfolding board_telemetry_encode board_telemetry_decode board_telemetry_parse load
board_telemetry_decode-board_telemetry_encode m old buf capacity battery_voltage_mv_ok
      charge_voltage_mv_ok h room =
    encode-decode board_telemetry_fields board_telemetry_parse 7 capacity m old buf refl h room
      (λ rest.
        rw
          (
            join16-half m.battery_voltage_mv battery_voltage_mv_ok,
            join16-half m.charge_voltage_mv charge_voltage_mv_ok,
          )
          refl)

pub record SetOutput : Type 0 where
  pub channel : ℕ
  pub state : ℕ

abbrev pub set_output_size : ℕ
set_output_size = 2

abbrev pub set_output_parse : Bytes → Run SetOutput
set_output_parse buf = do
  channel ← load buf 0
  state ← load buf 1
  done (record { channel = channel; state = state })

-- The encoder accepts the states OFF and ON only, after its other checks.
unfoldable pub set_output_encode : Ptr SetOutput → Ptr Bytes → ℕ → Run (Result ℕ × Ptr Bytes)
set_output_encode msg out out_capacity =
    if is_null msg || is_null out
    then done (err err_bad_arg, out)
    else if ltb out_capacity set_output_size
    then done (err err_buffer, out)
    else (do
      m ← deref msg
      if not (m.state == 0x00) && not (m.state == 0x01) then done (err err_bad_arg, out) else (do
        buf ← deref out
        stored ← write buf 0 (m.channel ∷ m.state ∷ [])
        done (ok set_output_size, some stored)))

unfoldable pub set_output_decode :
    Ptr Bytes → ℕ → Ptr SetOutput → Run (Result (Unit {0}) × Ptr SetOutput)
set_output_decode = decode set_output_parse set_output_size

-- An output command comes back from its encoding if its state is OFF or ON, in any buffer that has
-- its two bytes.
pub set_output_decode-set_output_encode :
    (m old : SetOutput) (buf : Bytes) (capacity : ℕ)
    → m.state ≤ 1
    → 2 ≤ capacity
    → capacity ≤ length buf
    → (out : Bytes) × (set_output_encode (some m) (some buf) capacity ≡ done (ok 2, some out))
      × (set_output_decode (some out) 2 (some old) ≡ done (ok tt, some m))
unfolding set_output_encode set_output_decode decode load write
set_output_decode-set_output_encode m old buf capacity s h room =
    (m.channel ∷ m.state ∷ drop 2 buf, ground arith, refl)

-- An output command with any other state is refused, and the buffer stays as it was.
pub set_output_encode_refuses :
    (m : SetOutput) (buf : Bytes) (capacity : ℕ)
    → 1 < m.state
    → 2 ≤ capacity
    → set_output_encode (some m) (some buf) capacity ≡ done (err err_bad_arg, some buf)
unfolding set_output_encode
set_output_encode_refuses m buf capacity s h = ground arith
