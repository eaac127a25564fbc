-- ===== src/Messages/FcCoord/Payload.antt =====
-- The payload telemetry of the FC_COORD payloads: src/arc_messages_fc_coord.h and
-- src/arc_messages_fc_coord.c.
use arc_protocol.Prelude.{ℕ, ◌<◌, ◌≤◌, ◌^◌, some, [], ◌∷◌, ◌++◌, length}
use arc_protocol.Prelude.{◌≡◌, refl}
use arc_protocol.Prelude.Int.{ℤ}
use arc_protocol.Memory.{Bytes, Ptr, Run, done, ◌>>=◌, load}
use arc_protocol.Protocol.{Result, ok}
use arc_protocol.Frame.{join16}
use arc_protocol.Messages.{
  be32, half, join32, of_int16, to_int16, of_int32, to_int32, encode, decode,
}
use arc_protocol.Messages.Laws.{join16-half, join32-be32, encode-decode}
use arc_protocol.Messages.Laws.{IsInt16, to_int16-of_int16, IsInt32, to_int32-of_int32}

pub record PayloadTelemetry : Type 0 where
  pub time_ms : ℕ
  pub stage : ℕ
  pub accel_x_mg : ℤ
  pub accel_y_mg : ℤ
  pub accel_z_mg : ℤ
  pub vel_x_cms : ℤ
  pub vel_y_cms : ℤ
  pub vel_z_cms : ℤ
  pub temp_cdeg : ℤ
  pub voltage_mv : ℕ
  pub roll_cdeg : ℤ
  pub pitch_cdeg : ℤ
  pub yaw_cdeg : ℤ
  pub motor_x_um : ℤ
  pub motor_y_um : ℤ
  pub percent_complete : ℕ

abbrev pub payload_telemetry_size : ℕ
payload_telemetry_size = 36

abbrev pub payload_telemetry_fields : PayloadTelemetry → Bytes
payload_telemetry_fields m =
    be32 m.time_ms
    ++ ((m.stage ∷ [])
        ++ (half (of_int16 m.accel_x_mg)
            ++ (half (of_int16 m.accel_y_mg)
                ++ (half (of_int16 m.accel_z_mg)
                    ++ (half (of_int16 m.vel_x_cms)
                        ++ (half (of_int16 m.vel_y_cms)
                            ++ (half (of_int16 m.vel_z_cms)
                                ++ (half (of_int16 m.temp_cdeg)
                                    ++ (half m.voltage_mv
                                        ++ (half (of_int16 m.roll_cdeg)
                                            ++ (half (of_int16 m.pitch_cdeg)
                                                ++ (half (of_int16 m.yaw_cdeg)
                                                    ++ (be32 (of_int32 m.motor_x_um)
                                                        ++ (be32 (of_int32 m.motor_y_um)
                                                            ++ (m.percent_complete
                                                            ∷ [])))))))))))))))

unfoldable pub payload_telemetry_parse : Bytes → Run PayloadTelemetry
payload_telemetry_parse buf = do
  time_ms_0 ← load buf 0
  time_ms_1 ← load buf 1
  time_ms_2 ← load buf 2
  time_ms_3 ← load buf 3
  stage ← load buf 4
  accel_x_mg_0 ← load buf 5
  accel_x_mg_1 ← load buf 6
  accel_y_mg_0 ← load buf 7
  accel_y_mg_1 ← load buf 8
  accel_z_mg_0 ← load buf 9
  accel_z_mg_1 ← load buf 10
  vel_x_cms_0 ← load buf 11
  vel_x_cms_1 ← load buf 12
  vel_y_cms_0 ← load buf 13
  vel_y_cms_1 ← load buf 14
  vel_z_cms_0 ← load buf 15
  vel_z_cms_1 ← load buf 16
  temp_cdeg_0 ← load buf 17
  temp_cdeg_1 ← load buf 18
  voltage_mv_0 ← load buf 19
  voltage_mv_1 ← load buf 20
  roll_cdeg_0 ← load buf 21
  roll_cdeg_1 ← load buf 22
  pitch_cdeg_0 ← load buf 23
  pitch_cdeg_1 ← load buf 24
  yaw_cdeg_0 ← load buf 25
  yaw_cdeg_1 ← load buf 26
  motor_x_um_0 ← load buf 27
  motor_x_um_1 ← load buf 28
  motor_x_um_2 ← load buf 29
  motor_x_um_3 ← load buf 30
  motor_y_um_0 ← load buf 31
  motor_y_um_1 ← load buf 32
  motor_y_um_2 ← load buf 33
  motor_y_um_3 ← load buf 34
  percent_complete ← load buf 35
  done (record {
    time_ms = join32 time_ms_0 time_ms_1 time_ms_2 time_ms_3;
    stage = stage;
    accel_x_mg = to_int16 (join16 accel_x_mg_0 accel_x_mg_1);
    accel_y_mg = to_int16 (join16 accel_y_mg_0 accel_y_mg_1);
    accel_z_mg = to_int16 (join16 accel_z_mg_0 accel_z_mg_1);
    vel_x_cms = to_int16 (join16 vel_x_cms_0 vel_x_cms_1);
    vel_y_cms = to_int16 (join16 vel_y_cms_0 vel_y_cms_1);
    vel_z_cms = to_int16 (join16 vel_z_cms_0 vel_z_cms_1);
    temp_cdeg = to_int16 (join16 temp_cdeg_0 temp_cdeg_1);
    voltage_mv = join16 voltage_mv_0 voltage_mv_1;
    roll_cdeg = to_int16 (join16 roll_cdeg_0 roll_cdeg_1);
    pitch_cdeg = to_int16 (join16 pitch_cdeg_0 pitch_cdeg_1);
    yaw_cdeg = to_int16 (join16 yaw_cdeg_0 yaw_cdeg_1);
    motor_x_um = to_int32 (join32 motor_x_um_0 motor_x_um_1 motor_x_um_2 motor_x_um_3);
    motor_y_um = to_int32 (join32 motor_y_um_0 motor_y_um_1 motor_y_um_2 motor_y_um_3);
    percent_complete = percent_complete;
  })

unfoldable pub payload_telemetry_encode :
    Ptr PayloadTelemetry → Ptr Bytes → ℕ → Run (Result ℕ × Ptr Bytes)
payload_telemetry_encode = encode payload_telemetry_fields payload_telemetry_size

unfoldable pub payload_telemetry_decode :
    Ptr Bytes → ℕ → Ptr PayloadTelemetry → Run (Result (Unit {0}) × Ptr PayloadTelemetry)
payload_telemetry_decode = decode payload_telemetry_parse payload_telemetry_size

-- The values that the fields' C types allow.
pub record PayloadTelemetryInRange (m : PayloadTelemetry) : Type 0 where
  pub time_ms_ok : m.time_ms < 2 ^ 32
  pub accel_x_mg_ok : IsInt16 m.accel_x_mg
  pub accel_y_mg_ok : IsInt16 m.accel_y_mg
  pub accel_z_mg_ok : IsInt16 m.accel_z_mg
  pub vel_x_cms_ok : IsInt16 m.vel_x_cms
  pub vel_y_cms_ok : IsInt16 m.vel_y_cms
  pub vel_z_cms_ok : IsInt16 m.vel_z_cms
  pub temp_cdeg_ok : IsInt16 m.temp_cdeg
  pub voltage_mv_ok : m.voltage_mv < 2 ^ 16
  pub roll_cdeg_ok : IsInt16 m.roll_cdeg
  pub pitch_cdeg_ok : IsInt16 m.pitch_cdeg
  pub yaw_cdeg_ok : IsInt16 m.yaw_cdeg
  pub motor_x_um_ok : IsInt32 m.motor_x_um
  pub motor_y_um_ok : IsInt32 m.motor_y_um

-- Payload telemetry whose 32-bit, signed 16-bit, 16-bit and signed 32-bit fields are in range comes back from
-- its encoding, in any buffer that has its 36 bytes.
pub payload_telemetry_decode-payload_telemetry_encode :
    (m old : PayloadTelemetry) (buf : Bytes) (capacity : ℕ)
    → PayloadTelemetryInRange m
    → 36 ≤ capacity
    → capacity ≤ length buf
    → (out : Bytes) × (payload_telemetry_encode (some m) (some buf) capacity
        ≡ done (ok 36, some out))
      × (payload_telemetry_decode (some out) 36 (some old) ≡ done (ok tt, some m))
unfolding payload_telemetry_encode payload_telemetry_decode payload_telemetry_parse load
payload_telemetry_decode-payload_telemetry_encode m old buf capacity v h room =
    encode-decode payload_telemetry_fields payload_telemetry_parse 36 capacity m old buf refl h room
      (λ rest.
        rw
          (
            join32-be32 m.time_ms v.time_ms_ok,
            to_int16-of_int16 m.accel_x_mg v.accel_x_mg_ok,
            to_int16-of_int16 m.accel_y_mg v.accel_y_mg_ok,
            to_int16-of_int16 m.accel_z_mg v.accel_z_mg_ok,
            to_int16-of_int16 m.vel_x_cms v.vel_x_cms_ok,
            to_int16-of_int16 m.vel_y_cms v.vel_y_cms_ok,
            to_int16-of_int16 m.vel_z_cms v.vel_z_cms_ok,
            to_int16-of_int16 m.temp_cdeg v.temp_cdeg_ok,
            join16-half m.voltage_mv v.voltage_mv_ok,
            to_int16-of_int16 m.roll_cdeg v.roll_cdeg_ok,
            to_int16-of_int16 m.pitch_cdeg v.pitch_cdeg_ok,
            to_int16-of_int16 m.yaw_cdeg v.yaw_cdeg_ok,
            to_int32-of_int32 m.motor_x_um v.motor_x_um_ok,
            to_int32-of_int32 m.motor_y_um v.motor_y_um_ok,
          )
          refl)
