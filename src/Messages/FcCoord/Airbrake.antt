-- ===== src/Messages/FcCoord/Airbrake.antt =====
-- The airbrake telemetry and command of the FC_COORD payloads: src/arc_messages_fc_coord.h and
-- src/arc_messages_fc_coord.c.
use arc_protocol.Prelude.{ℕ, ◌<◌, ◌≤◌, ◌^◌, some, [], ◌∷◌, ◌++◌, length}
use arc_protocol.Prelude.{◌≡◌, refl}
use arc_protocol.Prelude.Int.{ℤ}
use arc_protocol.Memory.{Bytes, Ptr, Run, done, ◌>>=◌, load}
use arc_protocol.Protocol.{Result, ok}
use arc_protocol.Frame.{join16}
use arc_protocol.Messages.{
  be32, half, join32, of_int16, to_int16, of_int32, to_int32, encode, decode,
}
use arc_protocol.Messages.Laws.{join16-half, join32-be32, encode-decode}
use arc_protocol.Messages.Laws.{IsInt16, to_int16-of_int16, IsInt32, to_int32-of_int32}

pub record AirbrakeTelemetry : Type 0 where
  pub time_ms : ℕ
  pub stage : ℕ
  pub accel_x_mg : ℤ
  pub accel_y_mg : ℤ
  pub accel_z_mg : ℤ
  pub vel_x_cms : ℤ
  pub vel_y_cms : ℤ
  pub vel_z_cms : ℤ
  pub temp_cdeg : ℤ
  pub voltage_mv : ℕ
  pub roll_cdeg : ℤ
  pub pitch_cdeg : ℤ
  pub yaw_cdeg : ℤ
  pub airbrake_angle_cdeg : ℤ
  pub predicted_apogee_cm : ℤ
  pub original_apogee_estimate_cm : ℤ
  pub blueraven_alt_cm : ℤ

abbrev pub airbrake_telemetry_size : ℕ
airbrake_telemetry_size = 41

abbrev pub airbrake_telemetry_fields : AirbrakeTelemetry → Bytes
airbrake_telemetry_fields m =
    be32 m.time_ms
    ++ ((m.stage ∷ [])
        ++ (half (of_int16 m.accel_x_mg)
            ++ (half (of_int16 m.accel_y_mg)
                ++ (half (of_int16 m.accel_z_mg)
                    ++ (half (of_int16 m.vel_x_cms)
                        ++ (half (of_int16 m.vel_y_cms)
                            ++ (half (of_int16 m.vel_z_cms)
                                ++ (half (of_int16 m.temp_cdeg)
                                    ++ (half m.voltage_mv
                                        ++ (half (of_int16 m.roll_cdeg)
                                            ++ (half (of_int16 m.pitch_cdeg)
                                                ++ (half (of_int16 m.yaw_cdeg)
                                                    ++ (half (of_int16 m.airbrake_angle_cdeg)
                                                        ++ (be32 (of_int32 m.predicted_apogee_cm)
                                                            ++ (be32
                                                            (of_int32 m.original_apogee_estimate_cm)
                                                            ++ (be32 (
                                                            of_int32
                                                            m.blueraven_alt_cm)))))))))))))))))

unfoldable pub airbrake_telemetry_parse : Bytes → Run AirbrakeTelemetry
airbrake_telemetry_parse buf = do
  time_ms_0 ← load buf 0
  time_ms_1 ← load buf 1
  time_ms_2 ← load buf 2
  time_ms_3 ← load buf 3
  stage ← load buf 4
  accel_x_mg_0 ← load buf 5
  accel_x_mg_1 ← load buf 6
  accel_y_mg_0 ← load buf 7
  accel_y_mg_1 ← load buf 8
  accel_z_mg_0 ← load buf 9
  accel_z_mg_1 ← load buf 10
  vel_x_cms_0 ← load buf 11
  vel_x_cms_1 ← load buf 12
  vel_y_cms_0 ← load buf 13
  vel_y_cms_1 ← load buf 14
  vel_z_cms_0 ← load buf 15
  vel_z_cms_1 ← load buf 16
  temp_cdeg_0 ← load buf 17
  temp_cdeg_1 ← load buf 18
  voltage_mv_0 ← load buf 19
  voltage_mv_1 ← load buf 20
  roll_cdeg_0 ← load buf 21
  roll_cdeg_1 ← load buf 22
  pitch_cdeg_0 ← load buf 23
  pitch_cdeg_1 ← load buf 24
  yaw_cdeg_0 ← load buf 25
  yaw_cdeg_1 ← load buf 26
  airbrake_angle_cdeg_0 ← load buf 27
  airbrake_angle_cdeg_1 ← load buf 28
  predicted_apogee_cm_0 ← load buf 29
  predicted_apogee_cm_1 ← load buf 30
  predicted_apogee_cm_2 ← load buf 31
  predicted_apogee_cm_3 ← load buf 32
  original_apogee_estimate_cm_0 ← load buf 33
  original_apogee_estimate_cm_1 ← load buf 34
  original_apogee_estimate_cm_2 ← load buf 35
  original_apogee_estimate_cm_3 ← load buf 36
  blueraven_alt_cm_0 ← load buf 37
  blueraven_alt_cm_1 ← load buf 38
  blueraven_alt_cm_2 ← load buf 39
  blueraven_alt_cm_3 ← load buf 40
  done (record {
    time_ms = join32 time_ms_0 time_ms_1 time_ms_2 time_ms_3;
    stage = stage;
    accel_x_mg = to_int16 (join16 accel_x_mg_0 accel_x_mg_1);
    accel_y_mg = to_int16 (join16 accel_y_mg_0 accel_y_mg_1);
    accel_z_mg = to_int16 (join16 accel_z_mg_0 accel_z_mg_1);
    vel_x_cms = to_int16 (join16 vel_x_cms_0 vel_x_cms_1);
    vel_y_cms = to_int16 (join16 vel_y_cms_0 vel_y_cms_1);
    vel_z_cms = to_int16 (join16 vel_z_cms_0 vel_z_cms_1);
    temp_cdeg = to_int16 (join16 temp_cdeg_0 temp_cdeg_1);
    voltage_mv = join16 voltage_mv_0 voltage_mv_1;
    roll_cdeg = to_int16 (join16 roll_cdeg_0 roll_cdeg_1);
    pitch_cdeg = to_int16 (join16 pitch_cdeg_0 pitch_cdeg_1);
    yaw_cdeg = to_int16 (join16 yaw_cdeg_0 yaw_cdeg_1);
    airbrake_angle_cdeg = to_int16 (join16 airbrake_angle_cdeg_0 airbrake_angle_cdeg_1);
    predicted_apogee_cm = to_int32 (
        join32 predicted_apogee_cm_0 predicted_apogee_cm_1 predicted_apogee_cm_2
          predicted_apogee_cm_3);
    original_apogee_estimate_cm = to_int32 (
        join32 original_apogee_estimate_cm_0 original_apogee_estimate_cm_1
          original_apogee_estimate_cm_2 original_apogee_estimate_cm_3);
    blueraven_alt_cm =
        to_int32
          (join32 blueraven_alt_cm_0 blueraven_alt_cm_1 blueraven_alt_cm_2 blueraven_alt_cm_3);
  })

unfoldable pub airbrake_telemetry_encode :
    Ptr AirbrakeTelemetry → Ptr Bytes → ℕ → Run (Result ℕ × Ptr Bytes)
airbrake_telemetry_encode = encode airbrake_telemetry_fields airbrake_telemetry_size

unfoldable pub airbrake_telemetry_decode :
    Ptr Bytes → ℕ → Ptr AirbrakeTelemetry → Run (Result (Unit {0}) × Ptr AirbrakeTelemetry)
airbrake_telemetry_decode = decode airbrake_telemetry_parse airbrake_telemetry_size

-- The values that the fields' C types allow.
pub record AirbrakeTelemetryInRange (m : AirbrakeTelemetry) : Type 0 where
  pub time_ms_ok : m.time_ms < 2 ^ 32
  pub accel_x_mg_ok : IsInt16 m.accel_x_mg
  pub accel_y_mg_ok : IsInt16 m.accel_y_mg
  pub accel_z_mg_ok : IsInt16 m.accel_z_mg
  pub vel_x_cms_ok : IsInt16 m.vel_x_cms
  pub vel_y_cms_ok : IsInt16 m.vel_y_cms
  pub vel_z_cms_ok : IsInt16 m.vel_z_cms
  pub temp_cdeg_ok : IsInt16 m.temp_cdeg
  pub voltage_mv_ok : m.voltage_mv < 2 ^ 16
  pub roll_cdeg_ok : IsInt16 m.roll_cdeg
  pub pitch_cdeg_ok : IsInt16 m.pitch_cdeg
  pub yaw_cdeg_ok : IsInt16 m.yaw_cdeg
  pub airbrake_angle_cdeg_ok : IsInt16 m.airbrake_angle_cdeg
  pub predicted_apogee_cm_ok : IsInt32 m.predicted_apogee_cm
  pub original_apogee_estimate_cm_ok : IsInt32 m.original_apogee_estimate_cm
  pub blueraven_alt_cm_ok : IsInt32 m.blueraven_alt_cm

-- Airbrake telemetry whose 32-bit, signed 16-bit, 16-bit and signed 32-bit fields are in range comes back from
-- its encoding, in any buffer that has its 41 bytes.
pub airbrake_telemetry_decode-airbrake_telemetry_encode :
    (m old : AirbrakeTelemetry) (buf : Bytes) (capacity : ℕ)
    → AirbrakeTelemetryInRange m
    → 41 ≤ capacity
    → capacity ≤ length buf
    → (out : Bytes) × (airbrake_telemetry_encode (some m) (some buf) capacity
        ≡ done (ok 41, some out))
      × (airbrake_telemetry_decode (some out) 41 (some old) ≡ done (ok tt, some m))
unfolding airbrake_telemetry_encode airbrake_telemetry_decode airbrake_telemetry_parse load
airbrake_telemetry_decode-airbrake_telemetry_encode m old buf capacity v h room =
    encode-decode airbrake_telemetry_fields airbrake_telemetry_parse 41 capacity m old buf refl h
      room
      (λ rest.
        rw
          (
            join32-be32 m.time_ms v.time_ms_ok,
            to_int16-of_int16 m.accel_x_mg v.accel_x_mg_ok,
            to_int16-of_int16 m.accel_y_mg v.accel_y_mg_ok,
            to_int16-of_int16 m.accel_z_mg v.accel_z_mg_ok,
            to_int16-of_int16 m.vel_x_cms v.vel_x_cms_ok,
            to_int16-of_int16 m.vel_y_cms v.vel_y_cms_ok,
            to_int16-of_int16 m.vel_z_cms v.vel_z_cms_ok,
            to_int16-of_int16 m.temp_cdeg v.temp_cdeg_ok,
            join16-half m.voltage_mv v.voltage_mv_ok,
            to_int16-of_int16 m.roll_cdeg v.roll_cdeg_ok,
            to_int16-of_int16 m.pitch_cdeg v.pitch_cdeg_ok,
            to_int16-of_int16 m.yaw_cdeg v.yaw_cdeg_ok,
            to_int16-of_int16 m.airbrake_angle_cdeg v.airbrake_angle_cdeg_ok,
            to_int32-of_int32 m.predicted_apogee_cm v.predicted_apogee_cm_ok,
            to_int32-of_int32 m.original_apogee_estimate_cm v.original_apogee_estimate_cm_ok,
            to_int32-of_int32 m.blueraven_alt_cm v.blueraven_alt_cm_ok,
          )
          refl)

pub record SetAirbrakeAngle : Type 0 where
  pub angle_cdeg : ℤ

abbrev pub set_airbrake_angle_size : ℕ
set_airbrake_angle_size = 2

abbrev pub set_airbrake_angle_fields : SetAirbrakeAngle → Bytes
set_airbrake_angle_fields m = half (of_int16 m.angle_cdeg)

unfoldable pub set_airbrake_angle_parse : Bytes → Run SetAirbrakeAngle
set_airbrake_angle_parse buf = do
  angle_cdeg_0 ← load buf 0
  angle_cdeg_1 ← load buf 1
  done (record { angle_cdeg = to_int16 (join16 angle_cdeg_0 angle_cdeg_1) })

unfoldable pub set_airbrake_angle_encode :
    Ptr SetAirbrakeAngle → Ptr Bytes → ℕ → Run (Result ℕ × Ptr Bytes)
set_airbrake_angle_encode = encode set_airbrake_angle_fields set_airbrake_angle_size

unfoldable pub set_airbrake_angle_decode :
    Ptr Bytes → ℕ → Ptr SetAirbrakeAngle → Run (Result (Unit {0}) × Ptr SetAirbrakeAngle)
set_airbrake_angle_decode = decode set_airbrake_angle_parse set_airbrake_angle_size

-- An airbrake command whose signed 16-bit fields are in range comes back from
-- its encoding, in any buffer that has its 2 bytes.
pub set_airbrake_angle_decode-set_airbrake_angle_encode :
    (m old : SetAirbrakeAngle) (buf : Bytes) (capacity : ℕ)
    → IsInt16 m.angle_cdeg
    → 2 ≤ capacity
    → capacity ≤ length buf
    → (out : Bytes) × (set_airbrake_angle_encode (some m) (some buf) capacity
        ≡ done (ok 2, some out))
      × (set_airbrake_angle_decode (some out) 2 (some old) ≡ done (ok tt, some m))
unfolding set_airbrake_angle_encode set_airbrake_angle_decode set_airbrake_angle_parse load
set_airbrake_angle_decode-set_airbrake_angle_encode m old buf capacity angle_cdeg_ok h room =
    encode-decode set_airbrake_angle_fields set_airbrake_angle_parse 2 capacity m old buf refl h
      room (λ rest. rw (to_int16-of_int16 m.angle_cdeg angle_cdeg_ok) refl)
