-- ===== src/Tests/Link.antt =====
-- Runs and instances for src/arc_protocol.c: CRC, frames and COBS.
use arc_protocol.Prelude.{ℕ, ◌≡◌, ◌≢◌, refl, arith, [], ◌∷◌, length, some, none, replicate, List}
use arc_protocol.Memory.{Bytes, IsBytes, done, fault, load, read}
use arc_protocol.Crc.{crc_loop, crc_byte, crc_bits, crc_bit, crc16}
use arc_protocol.Crc.Register.{message_bits, IsBits}
use arc_protocol.Crc.Lfsr.{lfsr, crc_loop-eq-lfsr}
use arc_protocol.Crc.Burst.{crc_loop_burst}
use arc_protocol.Protocol.{Frame, Result, ok}
use arc_protocol.Frame.{frame_build, frame_parse, frame_check, frame_fields}
use arc_protocol.Frame.Wire.{Packet, IsPacket, frame_of}
use arc_protocol.Frame.Accept.{frame_parse-frame_build, frame_parse_sound, IsWireOf}
use arc_protocol.Cobs.{cobs_encode, cobs_decode}
use arc_protocol.Cobs.Stuff.{stuff}
use arc_protocol.Cobs.RoundTrip.{cobs_decode-cobs_encode, link_delivers}
use arc_protocol.Cobs.Overrun.{cobs_encode_overruns}
use arc_protocol.Cobs.Safety.{cobs_decode-returns, IsBounded}

abbrev hello : Packet
hello = record {
  src = 16;
  dst = 32;
  flags = 0;
  session = 1;
  seq = 4660;
  family = 1;
  type = 2;
  payload = 7 ∷ 8 ∷ [];
}

hello-IsPacket : IsPacket hello
hello-IsPacket = record {
  src_byte = omega arith;
  dst_byte = omega arith;
  flags_byte = omega arith;
  session_byte = omega arith;
  seq_word = omega arith;
  family_byte = omega arith;
  type_byte = omega arith;
  payload_bytes = (omega arith, (omega arith, tt));
  payload_fits = omega arith;
}

abbrev hello_wire : Bytes
hello_wire = (12 ∷ 16 ∷ 32 ∷ 0 ∷ 1 ∷ 18 ∷ 52 ∷ 1 ∷ 2 ∷ 7 ∷ 8 ∷ 184 ∷ 170 ∷ [])

hello_wire-IsBytes : IsBytes hello_wire
hello_wire-IsBytes = (
  omega arith,
  (
    omega arith,
    (
      omega arith,
      (
        omega arith,
        (
          omega arith,
          (
            omega arith,
            (
              omega arith,
              (
                omega arith,
                (omega arith, (omega arith, (omega arith, (omega arith, (omega arith, tt))))),
              ),
            ),
          ),
        ),
      ),
    ),
  ),
)

abbrev blank : Frame
blank = record {
  src = 0;
  dst = 0;
  flags = 0;
  session = 0;
  seq = 0;
  family = 0;
  type = 0;
  payload = none;
  payload_len = 0;
}

hello-accepted : frame_parse (some hello_wire) 13 (some blank) ≡ done (ok tt, some (frame_of hello))
unfolding frame_parse frame_check frame_fields crc16 crc_loop crc_byte crc_bits crc_bit load read
hello-accepted = refl

frame_parse_sound_example : IsWireOf hello_wire (frame_of hello)
frame_parse_sound_example =
    frame_parse_sound hello_wire 13 blank (frame_of hello) hello_wire-IsBytes (omega arith)
      hello-accepted

abbrev raw : Bytes
raw = replicate 252 0

abbrev coded : Bytes
coded = replicate 254 0

frame_parse-frame_build_example :
    (out : Bytes) × (frame_build (some raw) 252 16 32 0 1 4660 1 2 (some (7 ∷ 8 ∷ [])) 2
      ≡ done (ok 13, some out))
    × (frame_parse (some out) 13 (some blank) ≡ done (ok tt, some (frame_of hello)))
frame_parse-frame_build_example =
    frame_parse-frame_build hello (some (7 ∷ 8 ∷ [])) raw 252 blank hello-IsPacket ([], refl)
      (omega arith) (omega arith)

link_delivers_example :
    (n : ℕ) × (k : ℕ) × (built : Bytes) × (sent : Bytes) × (received : Bytes) × (frame_build
        (some raw)
        252
        16
        32
        0
        1
        4660
        1
        2
        (some (7 ∷ 8 ∷ []))
        2
      ≡ done (ok n, some built))
    × (cobs_encode (some built) n (some coded) 254 ≡ done (ok k, some sent))
    × (cobs_decode (some sent) k (some raw) 252 ≡ done (ok n, some received))
    × (frame_parse (some received) n (some blank) ≡ done (ok tt, some (frame_of hello)))
link_delivers_example =
    link_delivers hello (some (7 ∷ 8 ∷ [])) raw coded raw blank hello-IsPacket ([], refl) refl refl
      refl

cobs_decode-cobs_encode_example :
    (n : ℕ) × (encoded : Bytes) × (tail : Bytes) × (cobs_encode
        (some (5 ∷ 0 ∷ 6 ∷ []))
        3
        (some (0 ∷ 0 ∷ 0 ∷ 0 ∷ 0 ∷ 0 ∷ []))
        6
      ≡ done (ok n, some encoded))
    × (cobs_decode (some encoded) n (some (0 ∷ 0 ∷ 0 ∷ 0 ∷ [])) 4
        ≡ done (ok 3, some (5 ∷ 0 ∷ 6 ∷ tail)))
cobs_decode-cobs_encode_example =
    cobs_decode-cobs_encode (5 ∷ 0 ∷ 6 ∷ []) [] (0 ∷ 0 ∷ 0 ∷ 0 ∷ 0 ∷ 0 ∷ []) (0 ∷ 0 ∷ 0 ∷ 0 ∷ []) 6
      4 (omega arith) (omega arith) (omega arith) (omega arith)

cobs_encode_overruns_example :
    cobs_encode (some (replicate 254 1)) 254 (some (replicate 256 0)) 256 ≡ fault
unfolding stuff
cobs_encode_overruns_example =
    cobs_encode_overruns (replicate 254 1) [] (replicate 256 0) 256 (omega arith) (omega arith)

cobs_decode-returns_example :
    (r : Result ℕ) × (b : Bytes) × (cobs_decode (some (3 ∷ 5 ∷ 0 ∷ [])) 3 (some (0 ∷ 0 ∷ [])) 2
      ≡ done (r, some b))
    × (length b ≡ 2)
    × IsBounded 2 3 r
cobs_decode-returns_example =
    cobs_decode-returns (3 ∷ 5 ∷ 0 ∷ []) (0 ∷ 0 ∷ []) 3 2 (omega arith) (omega arith)

crc_loop-eq-lfsr_example : crc_loop 0xffff (1 ∷ 2 ∷ []) ≡ lfsr 0xffff (message_bits (1 ∷ 2 ∷ []))
crc_loop-eq-lfsr_example =
    crc_loop-eq-lfsr (1 ∷ 2 ∷ []) 0xffff (omega arith) (omega arith, (omega arith, tt))

abbrev one_bit : List ℕ
one_bit = 0 ∷ 0 ∷ 0 ∷ 0 ∷ 0 ∷ 0 ∷ 0 ∷ 1 ∷ []

abbrev two_bits : List ℕ
two_bits = 0 ∷ 0 ∷ 0 ∷ 0 ∷ 0 ∷ 0 ∷ 1 ∷ 1 ∷ []

one_bit-IsBits : IsBits one_bit
one_bit-IsBits = omega arith

two_bits-IsBits : IsBits two_bits
two_bits-IsBits = omega arith

bits_differ : one_bit ≢ two_bits
bits_differ = λ e. ground (arith, e)

crc_loop_burst_example : crc_loop 0xffff (1 ∷ []) ≢ crc_loop 0xffff (3 ∷ [])
unfolding message_bits
crc_loop_burst_example =
    crc_loop_burst (1 ∷ []) (3 ∷ []) 0xffff [] one_bit two_bits [] (omega arith) (omega arith, tt)
      (omega arith, tt) refl refl refl (omega arith) one_bit-IsBits two_bits-IsBits tt bits_differ
