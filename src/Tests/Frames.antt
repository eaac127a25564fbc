-- ===== src/Tests/Frames.antt =====
-- Instances for the frame functions of src/arc_protocol.c on frames that are changed, answered or
-- corrupted.
use arc_protocol.Prelude.{
  ℕ, ◌≡◌, ◌≢◌, refl, arith, List, [], ◌∷◌, ◌++◌, length, some, none, replicate,
}
use arc_protocol.Memory.{Bytes, IsBytes, done, load, read}
use arc_protocol.Protocol.{Frame, Error, ok, err}
use arc_protocol.Crc.{crc_loop, crc_byte, crc_bits, crc_bit, crc16}
use arc_protocol.Crc.Register.{message_bits}
use arc_protocol.Frame.{frame_parse, frame_check, frame_fields, frame_set_flag, frame_build_ack}
use arc_protocol.Frame.Wire.{Packet, IsPacket, wire, frame_of}
use arc_protocol.Frame.Outcome.{IsOutcome, frame_parse-returns}
use arc_protocol.Frame.Detect.{frame_parse_burst}
use arc_protocol.Frame.Flag.{
  with_flag, ack_packet, IsRepaired, frame_set_flag-wire, frame_set_flag_repairs,
  frame_parse-frame_build_ack,
}

abbrev report : Packet
report = record {
  src = 16;
  dst = 32;
  flags = 0;
  session = 1;
  seq = 4660;
  family = 1;
  type = 2;
  payload = 7 ∷ 8 ∷ [];
}

report-IsPacket : IsPacket report
report-IsPacket = record {
  src_byte = omega arith;
  dst_byte = omega arith;
  flags_byte = omega arith;
  session_byte = omega arith;
  seq_word = omega arith;
  family_byte = omega arith;
  type_byte = omega arith;
  payload_bytes = (omega arith, (omega arith, tt));
  payload_fits = omega arith;
}

abbrev nothing : Frame
nothing = record {
  src = 0;
  dst = 0;
  flags = 0;
  session = 0;
  seq = 0;
  family = 0;
  type = 0;
  payload = none;
  payload_len = 0;
}

abbrev report_wire : Bytes
report_wire = 12 ∷ 16 ∷ 32 ∷ 0 ∷ 1 ∷ 18 ∷ 52 ∷ 1 ∷ 2 ∷ 7 ∷ 8 ∷ 184 ∷ 170 ∷ []

-- The same with the last bit of the CRC flipped.
abbrev broken_wire : Bytes
broken_wire = 12 ∷ 16 ∷ 32 ∷ 0 ∷ 1 ∷ 18 ∷ 52 ∷ 1 ∷ 2 ∷ 7 ∷ 8 ∷ 184 ∷ 171 ∷ []

frame_parse-returns_example : IsOutcome broken_wire 13 nothing
frame_parse-returns_example = frame_parse-returns broken_wire 13 nothing (omega arith)

report-accepted :
    frame_parse (some report_wire) (length report_wire) (some nothing)
    ≡ done (ok tt, some (frame_of report))
unfolding frame_parse frame_check frame_fields crc_loop crc_byte crc_bits crc_bit crc16 load read
report-accepted = refl

report_wire-IsBytes : IsBytes report_wire
report_wire-IsBytes = omega arith

broken_wire-IsBytes : IsBytes broken_wire
broken_wire-IsBytes = omega arith

-- What stands before the flipped bit.
abbrev bits_before : List ℕ
bits_before =
    message_bits (12 ∷ 16 ∷ 32 ∷ 0 ∷ 1 ∷ 18 ∷ 52 ∷ 1 ∷ 2 ∷ 7 ∷ 8 ∷ 184 ∷ [])
    ++ (1 ∷ 0 ∷ 1 ∷ 0 ∷ 1 ∷ 0 ∷ 1 ∷ [])

report_bits : message_bits report_wire ≡ bits_before ++ ((0 ∷ []) ++ [])
unfolding message_bits
report_bits = refl

broken_bits : message_bits broken_wire ≡ bits_before ++ ((1 ∷ []) ++ [])
unfolding message_bits
broken_bits = refl

zero_bit-differs : ◌≢◌ {A = List ℕ} (0 ∷ []) (1 ∷ [])
zero_bit-differs e = ground (arith, e)

frame_parse_burst_example :
    (e : Error) × (frame_parse (some broken_wire) (length broken_wire) (some nothing)
      ≡ done (err e, some nothing))
frame_parse_burst_example =
    frame_parse_burst report_wire broken_wire nothing (frame_of report) bits_before (0 ∷ [])
      (1 ∷ []) [] report_wire-IsBytes broken_wire-IsBytes report-accepted report_bits broken_bits
      refl (omega arith) (omega arith, tt) (omega arith, tt) tt zero_bit-differs

frame_set_flag-wire_example :
    frame_set_flag (some (wire report ++ (9 ∷ []))) (length (wire report)) 4
    ≡ done (ok tt, some (wire (with_flag report 4) ++ (9 ∷ [])))
frame_set_flag-wire_example = frame_set_flag-wire report (9 ∷ []) 4 report-IsPacket (omega arith)

frame_set_flag_repairs_example : IsRepaired broken_wire 13 4 nothing
frame_set_flag_repairs_example =
    frame_set_flag_repairs 12 (16 ∷ 32 ∷ 0 ∷ 1 ∷ 18 ∷ 52 ∷ 1 ∷ 2 ∷ 7 ∷ 8 ∷ 184 ∷ 171 ∷ []) 13 4
      nothing (omega arith) (omega arith) (omega arith) (omega arith)

frame_parse-frame_build_ack_example :
    (out : Bytes) × (frame_build_ack (some (replicate 13 0)) 13 (some (frame_of report)) 3 77
      ≡ done (ok 13, some out))
    × (frame_parse (some out) 13 (some nothing)
        ≡ done (ok tt, some (frame_of (ack_packet (frame_of report) 3 77))))
frame_parse-frame_build_ack_example =
    frame_parse-frame_build_ack (frame_of report) nothing 3 77 (replicate 13 0) 13 (omega arith)
      (omega arith) (omega arith) (omega arith) (omega arith) (omega arith)
