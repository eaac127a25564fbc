-- ===== src/Tests/Payloads.antt =====
-- Instances for the payloads of fixed size of src/arc_messages_*.c.
use arc_protocol.Prelude.{◌≡◌, arith, some, replicate}
use arc_protocol.Prelude.Int.{negsuc}
use arc_protocol.Memory.{Bytes, done}
use arc_protocol.Protocol.{ok}
use arc_protocol.Messages.FcCoord.Flight.{
  FlightTelemetry, FlightTelemetryInRange, flight_telemetry_encode, flight_telemetry_decode,
  flight_telemetry_decode-flight_telemetry_encode,
}

abbrev room : Bytes
room = replicate 64 0

abbrev flight_telemetry : FlightTelemetry
flight_telemetry = record {
  time_ms = 3123456789;
  stage = 200;
  accel_x_mg = negsuc 299;
  accel_y_mg = negsuc 299;
  accel_z_mg = negsuc 299;
  vel_x_cms = negsuc 299;
  vel_y_cms = negsuc 299;
  vel_z_cms = negsuc 299;
  lat_e7 = negsuc 1234567;
  lon_e7 = negsuc 1234567;
  alt_cm = negsuc 1234567;
  temp_cdeg = negsuc 299;
  voltage_mv = 51234;
  gps_fix_quality = 200;
  roll_cdeg = negsuc 299;
  pitch_cdeg = negsuc 299;
  yaw_cdeg = negsuc 299;
}

flight_telemetry-InRange : FlightTelemetryInRange flight_telemetry
flight_telemetry-InRange = record {
  time_ms_ok = omega arith;
  accel_x_mg_ok = omega arith;
  accel_y_mg_ok = omega arith;
  accel_z_mg_ok = omega arith;
  vel_x_cms_ok = omega arith;
  vel_y_cms_ok = omega arith;
  vel_z_cms_ok = omega arith;
  lat_e7_ok = omega arith;
  lon_e7_ok = omega arith;
  alt_cm_ok = omega arith;
  temp_cdeg_ok = omega arith;
  voltage_mv_ok = omega arith;
  roll_cdeg_ok = omega arith;
  pitch_cdeg_ok = omega arith;
  yaw_cdeg_ok = omega arith;
}

flight_telemetry_decode-flight_telemetry_encode_example :
    (out : Bytes) × (flight_telemetry_encode (some flight_telemetry) (some room) 64
      ≡ done (ok 40, some out))
    × (flight_telemetry_decode (some out) 40 (some flight_telemetry)
        ≡ done (ok tt, some flight_telemetry))
flight_telemetry_decode-flight_telemetry_encode_example =
    flight_telemetry_decode-flight_telemetry_encode flight_telemetry flight_telemetry room 64
      flight_telemetry-InRange (omega arith) (omega arith)
