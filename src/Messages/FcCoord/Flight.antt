-- ===== src/Messages/FcCoord/Flight.antt =====
-- The flight telemetry of the FC_COORD payloads: src/arc_messages_fc_coord.h and
-- src/arc_messages_fc_coord.c.
use arc_protocol.Prelude.{ℕ, ◌<◌, ◌≤◌, ◌^◌, some, [], ◌∷◌, ◌++◌, length}
use arc_protocol.Prelude.{◌≡◌, refl}
use arc_protocol.Prelude.Int.{ℤ}
use arc_protocol.Memory.{Bytes, Ptr, Run, done, ◌>>=◌, load}
use arc_protocol.Protocol.{Result, ok}
use arc_protocol.Frame.{join16}
use arc_protocol.Messages.{
  be32, half, join32, of_int16, to_int16, of_int32, to_int32, encode, decode,
}
use arc_protocol.Messages.Laws.{join16-half, join32-be32, encode-decode}
use arc_protocol.Messages.Laws.{IsInt16, to_int16-of_int16, IsInt32, to_int32-of_int32}

pub record FlightTelemetry : Type 0 where
  pub time_ms : ℕ
  pub stage : ℕ
  pub accel_x_mg : ℤ
  pub accel_y_mg : ℤ
  pub accel_z_mg : ℤ
  pub vel_x_cms : ℤ
  pub vel_y_cms : ℤ
  pub vel_z_cms : ℤ
  pub lat_e7 : ℤ
  pub lon_e7 : ℤ
  pub alt_cm : ℤ
  pub temp_cdeg : ℤ
  pub voltage_mv : ℕ
  pub gps_fix_quality : ℕ
  pub roll_cdeg : ℤ
  pub pitch_cdeg : ℤ
  pub yaw_cdeg : ℤ

abbrev pub flight_telemetry_size : ℕ
flight_telemetry_size = 40

abbrev pub flight_telemetry_fields : FlightTelemetry → Bytes
flight_telemetry_fields m =
    be32 m.time_ms
    ++ ((m.stage ∷ [])
        ++ (half (of_int16 m.accel_x_mg)
            ++ (half (of_int16 m.accel_y_mg)
                ++ (half (of_int16 m.accel_z_mg)
                    ++ (half (of_int16 m.vel_x_cms)
                        ++ (half (of_int16 m.vel_y_cms)
                            ++ (half (of_int16 m.vel_z_cms)
                                ++ (be32 (of_int32 m.lat_e7)
                                    ++ (be32 (of_int32 m.lon_e7)
                                        ++ (be32 (of_int32 m.alt_cm)
                                            ++ (half (of_int16 m.temp_cdeg)
                                                ++ (half m.voltage_mv
                                                    ++ ((m.gps_fix_quality ∷ [])
                                                        ++ (half (of_int16 m.roll_cdeg)
                                                            ++ (half (of_int16 m.pitch_cdeg)
                                                            ++ (half
                                                            (of_int16 m.yaw_cdeg)))))))))))))))))

unfoldable pub flight_telemetry_parse : Bytes → Run FlightTelemetry
flight_telemetry_parse buf = do
  time_ms_0 ← load buf 0
  time_ms_1 ← load buf 1
  time_ms_2 ← load buf 2
  time_ms_3 ← load buf 3
  stage ← load buf 4
  accel_x_mg_0 ← load buf 5
  accel_x_mg_1 ← load buf 6
  accel_y_mg_0 ← load buf 7
  accel_y_mg_1 ← load buf 8
  accel_z_mg_0 ← load buf 9
  accel_z_mg_1 ← load buf 10
  vel_x_cms_0 ← load buf 11
  vel_x_cms_1 ← load buf 12
  vel_y_cms_0 ← load buf 13
  vel_y_cms_1 ← load buf 14
  vel_z_cms_0 ← load buf 15
  vel_z_cms_1 ← load buf 16
  lat_e7_0 ← load buf 17
  lat_e7_1 ← load buf 18
  lat_e7_2 ← load buf 19
  lat_e7_3 ← load buf 20
  lon_e7_0 ← load buf 21
  lon_e7_1 ← load buf 22
  lon_e7_2 ← load buf 23
  lon_e7_3 ← load buf 24
  alt_cm_0 ← load buf 25
  alt_cm_1 ← load buf 26
  alt_cm_2 ← load buf 27
  alt_cm_3 ← load buf 28
  temp_cdeg_0 ← load buf 29
  temp_cdeg_1 ← load buf 30
  voltage_mv_0 ← load buf 31
  voltage_mv_1 ← load buf 32
  gps_fix_quality ← load buf 33
  roll_cdeg_0 ← load buf 34
  roll_cdeg_1 ← load buf 35
  pitch_cdeg_0 ← load buf 36
  pitch_cdeg_1 ← load buf 37
  yaw_cdeg_0 ← load buf 38
  yaw_cdeg_1 ← load buf 39
  done (record {
    time_ms = join32 time_ms_0 time_ms_1 time_ms_2 time_ms_3;
    stage = stage;
    accel_x_mg = to_int16 (join16 accel_x_mg_0 accel_x_mg_1);
    accel_y_mg = to_int16 (join16 accel_y_mg_0 accel_y_mg_1);
    accel_z_mg = to_int16 (join16 accel_z_mg_0 accel_z_mg_1);
    vel_x_cms = to_int16 (join16 vel_x_cms_0 vel_x_cms_1);
    vel_y_cms = to_int16 (join16 vel_y_cms_0 vel_y_cms_1);
    vel_z_cms = to_int16 (join16 vel_z_cms_0 vel_z_cms_1);
    lat_e7 = to_int32 (join32 lat_e7_0 lat_e7_1 lat_e7_2 lat_e7_3);
    lon_e7 = to_int32 (join32 lon_e7_0 lon_e7_1 lon_e7_2 lon_e7_3);
    alt_cm = to_int32 (join32 alt_cm_0 alt_cm_1 alt_cm_2 alt_cm_3);
    temp_cdeg = to_int16 (join16 temp_cdeg_0 temp_cdeg_1);
    voltage_mv = join16 voltage_mv_0 voltage_mv_1;
    gps_fix_quality = gps_fix_quality;
    roll_cdeg = to_int16 (join16 roll_cdeg_0 roll_cdeg_1);
    pitch_cdeg = to_int16 (join16 pitch_cdeg_0 pitch_cdeg_1);
    yaw_cdeg = to_int16 (join16 yaw_cdeg_0 yaw_cdeg_1);
  })

unfoldable pub flight_telemetry_encode :
    Ptr FlightTelemetry → Ptr Bytes → ℕ → Run (Result ℕ × Ptr Bytes)
flight_telemetry_encode = encode flight_telemetry_fields flight_telemetry_size

unfoldable pub flight_telemetry_decode :
    Ptr Bytes → ℕ → Ptr FlightTelemetry → Run (Result (Unit {0}) × Ptr FlightTelemetry)
flight_telemetry_decode = decode flight_telemetry_parse flight_telemetry_size

-- The values that the fields' C types allow.
pub record FlightTelemetryInRange (m : FlightTelemetry) : Type 0 where
  pub time_ms_ok : m.time_ms < 2 ^ 32
  pub accel_x_mg_ok : IsInt16 m.accel_x_mg
  pub accel_y_mg_ok : IsInt16 m.accel_y_mg
  pub accel_z_mg_ok : IsInt16 m.accel_z_mg
  pub vel_x_cms_ok : IsInt16 m.vel_x_cms
  pub vel_y_cms_ok : IsInt16 m.vel_y_cms
  pub vel_z_cms_ok : IsInt16 m.vel_z_cms
  pub lat_e7_ok : IsInt32 m.lat_e7
  pub lon_e7_ok : IsInt32 m.lon_e7
  pub alt_cm_ok : IsInt32 m.alt_cm
  pub temp_cdeg_ok : IsInt16 m.temp_cdeg
  pub voltage_mv_ok : m.voltage_mv < 2 ^ 16
  pub roll_cdeg_ok : IsInt16 m.roll_cdeg
  pub pitch_cdeg_ok : IsInt16 m.pitch_cdeg
  pub yaw_cdeg_ok : IsInt16 m.yaw_cdeg

-- Flight telemetry whose 32-bit, signed 16-bit, signed 32-bit and 16-bit fields are in range comes back from
-- its encoding, in any buffer that has its 40 bytes.
pub flight_telemetry_decode-flight_telemetry_encode :
    (m old : FlightTelemetry) (buf : Bytes) (capacity : ℕ)
    → FlightTelemetryInRange m
    → 40 ≤ capacity
    → capacity ≤ length buf
    → (out : Bytes) × (flight_telemetry_encode (some m) (some buf) capacity
        ≡ done (ok 40, some out))
      × (flight_telemetry_decode (some out) 40 (some old) ≡ done (ok tt, some m))
unfolding flight_telemetry_encode flight_telemetry_decode flight_telemetry_parse load
flight_telemetry_decode-flight_telemetry_encode m old buf capacity v h room =
    encode-decode flight_telemetry_fields flight_telemetry_parse 40 capacity m old buf refl h room
      (λ rest.
        rw
          (
            join32-be32 m.time_ms v.time_ms_ok,
            to_int16-of_int16 m.accel_x_mg v.accel_x_mg_ok,
            to_int16-of_int16 m.accel_y_mg v.accel_y_mg_ok,
            to_int16-of_int16 m.accel_z_mg v.accel_z_mg_ok,
            to_int16-of_int16 m.vel_x_cms v.vel_x_cms_ok,
            to_int16-of_int16 m.vel_y_cms v.vel_y_cms_ok,
            to_int16-of_int16 m.vel_z_cms v.vel_z_cms_ok,
            to_int32-of_int32 m.lat_e7 v.lat_e7_ok,
            to_int32-of_int32 m.lon_e7 v.lon_e7_ok,
            to_int32-of_int32 m.alt_cm v.alt_cm_ok,
            to_int16-of_int16 m.temp_cdeg v.temp_cdeg_ok,
            join16-half m.voltage_mv v.voltage_mv_ok,
            to_int16-of_int16 m.roll_cdeg v.roll_cdeg_ok,
            to_int16-of_int16 m.pitch_cdeg v.pitch_cdeg_ok,
            to_int16-of_int16 m.yaw_cdeg v.yaw_cdeg_ok,
          )
          refl)
