-- ===== src/Vectors.antt =====
-- The generator of test vectors, examples/gen_vectors.c: what it prints for a frame, as bytes. The
-- labels, the header fields and the hexadecimal digits are left out.
use arc_protocol.Prelude.{length-append}
use arc_protocol.Prelude.{append_assoc}
use arc_protocol.Prelude.{
  ℕ, zero, suc, ◌+◌, ◌≡◌, ◌∙◌, refl, sym, ap, arith, ltb, ltb-true, if◌then◌else◌,
}
use arc_protocol.Prelude.{none, some, List, [], ◌∷◌, ◌++◌, length, drop, bit_and, bit_or}
use arc_protocol.Memory.{Bytes, Ptr, Run, done, ◌>>=◌, deref, read, u8}
use arc_protocol.Memory.Laws.{read-append}
use arc_protocol.Protocol.{
  Error, Result, ok, err, max_frame_size, max_encoded_size, max_payload_size, flag_reliable,
  family_netmgmt,
}
use arc_protocol.Frame.{frame_build}
use arc_protocol.Frame.Wire.{Packet, IsPacket, wire, length-wire, payload_ptr}
use arc_protocol.Frame.Build.{Holds, frame_build-wire}
use arc_protocol.Cobs.{cobs_encode}
use arc_protocol.Cobs.Stuff.{stuff, length-stuff_short}
use arc_protocol.Cobs.Encode.{cobs_encode-stuff}

abbrev pub addr_ground : ℕ
addr_ground = 0x01

abbrev pub addr_fc_n : ℕ
addr_fc_n = 0x02

abbrev pub addr_fc_c : ℕ
addr_fc_c = 0x03

abbrev pub addr_fc_l : ℕ
addr_fc_l = 0x04

abbrev pub flag_urgent : ℕ
flag_urgent = 0x02

abbrev pub family_fc_coord : ℕ
family_fc_coord = 0x01

abbrev pub netmgmt_heartbeat : ℕ
netmgmt_heartbeat = 0x01

pub data Line : Type 0 where
  payload_line frame_line encoded_line : Bytes → Line
  build_failed encode_failed : Error → Line

-- The bytes that `print_hex` prints.
unfoldable pub print_hex : Ptr Bytes → ℕ → Run Bytes
print_hex ptr len = if ltb 0 len then (do p ← deref ptr; read p 0 len) else done []

-- The end of `emit_vector`, from the result of `arc_cobs_encode` on.
unfoldable pub emit_encoded : List Line → Result ℕ × Ptr Bytes → Run (List Line)
emit_encoded lines (err e, encoded) = done (lines ++ (encode_failed e ∷ []))
emit_encoded lines (ok m, encoded) = do
  bytes ← print_hex encoded m
  done (lines ++ (encoded_line bytes ∷ []))

-- The part from the result of `arc_frame_build` on; `encoded` is the array for the encoding.
unfoldable pub emit_built : List Line → Bytes → Result ℕ × Ptr Bytes → Run (List Line)
emit_built lines encoded (err e, frame) = done (lines ++ (build_failed e ∷ []))
emit_built lines encoded (ok n, frame) = do
  bytes ← print_hex frame n
  sent ← cobs_encode frame n (some encoded) max_encoded_size
  emit_encoded (lines ++ (frame_line bytes ∷ [])) sent

-- `frame` and `encoded` are the two arrays of the function, as they were.
unfoldable pub emit_vector :
    (frame encoded : Bytes)
    → (src dst flags session seq family type : ℕ) → Ptr Bytes
    → ℕ
    → Run (List Line)
emit_vector frame encoded src dst flags session seq family type payload payload_len = do
  bytes ← print_hex payload payload_len
  built ←
      frame_build (some frame) max_frame_size src dst flags session seq family type payload
        payload_len
  emit_built (payload_line bytes ∷ []) encoded built

-- `pl[i] = (uint8_t)(i & 0xFF)`, for `n` more of them.
abbrev pub ramp : ℕ → ℕ → Bytes
ramp i zero = []
ramp i (suc n) = u8 (bit_and i 0xff) ∷ ramp (i + 1) n

-- The arguments of the five calls of `main`.
abbrev pub empty_zero : Packet
empty_zero = record {
  src = 0;
  dst = 0;
  flags = 0;
  session = 0;
  seq = 0;
  family = 0;
  type = 0;
  payload = [];
}

abbrev pub heartbeat : Packet
heartbeat = record {
  src = addr_fc_c;
  dst = addr_fc_n;
  flags = 0;
  session = 1;
  seq = 42;
  family = family_netmgmt;
  type = netmgmt_heartbeat;
  payload = [];
}

abbrev pub small_command : Packet
small_command = record {
  src = addr_ground;
  dst = addr_fc_l;
  flags = flag_reliable;
  session = 5;
  seq = 0x1234;
  family = family_fc_coord;
  type = 0x42;
  payload = 0x10 ∷ 0x20 ∷ 0x30 ∷ [];
}

abbrev pub payload_with_zeros : Packet
payload_with_zeros = record {
  src = addr_fc_l;
  dst = addr_ground;
  flags = 0;
  session = 7;
  seq = 100;
  family = family_fc_coord;
  type = 0x01;
  payload = 0x00 ∷ 0xff ∷ 0x00 ∷ 0xaa ∷ 0x00 ∷ [];
}

abbrev pub max_payload : Packet
max_payload = record {
  src = addr_fc_n;
  dst = addr_ground;
  flags = bit_or flag_reliable flag_urgent;
  session = 255;
  seq = 0xffff;
  family = family_fc_coord;
  type = 0xff;
  payload = ramp 0 max_payload_size;
}

abbrev pub emit : (frame encoded : Bytes) → Packet → Run (List Line)
emit frame encoded p =
    emit_vector frame encoded p.src p.dst p.flags p.session p.seq p.family p.type
      (payload_ptr p.payload) (length p.payload)

-- The vectors that `main` prints.
unfoldable pub main : (frame encoded : Bytes) → Run (List (List Line))
main frame encoded = do
  first ← emit frame encoded empty_zero
  second ← emit frame encoded heartbeat
  third ← emit frame encoded small_command
  fourth ← emit frame encoded payload_with_zeros
  fifth ← emit frame encoded max_payload
  done (first ∷ second ∷ third ∷ fourth ∷ fifth ∷ [])

print_hex-append :
    (bs rest : Bytes) (n : ℕ) → n ≡ length bs → print_hex (some (bs ++ rest)) n ≡ done bs
unfolding print_hex
print_hex-append bs rest zero e = let at = read-append [] bs rest 0 0 refl e in rw (empty bs e) refl
  where
    empty : (cs : Bytes) → 0 ≡ length cs → cs ≡ []
    empty [] f = refl
    empty (c ∷ cs) f = absurd (omega (arith, f))
print_hex-append bs rest (suc n) e =
    rw (ltb-true 0 (suc n) (omega arith), read-append [] bs rest 0 (suc n) refl e) refl

print_hex-Holds :
    (ptr : Ptr Bytes) (bs : Bytes) → Holds ptr bs → print_hex ptr (length bs) ≡ done bs
unfolding print_hex
print_hex-Holds none bs e = rw e refl
print_hex-Holds (some mem) bs (extra, e) = rw e (print_hex-append bs extra (length bs) refl)

-- What is printed for a packet.
abbrev pub vector_lines : Packet → List Line
vector_lines p =
    payload_line p.payload ∷ frame_line (wire p) ∷ encoded_line (stuff [] (wire p) ++ (0 ∷ [])) ∷ []

-- For a packet whose fields have their widths and whose payload fits, the generator does not fail:
-- it prints the payload, the wire form, and the COBS encoding of that with its delimiter.
pub emit_vector_prints :
    (p : Packet) (ptr : Ptr Bytes) (frame encoded : Bytes)
    → IsPacket p
    → Holds ptr p.payload
    → length frame ≡ 252
    → length encoded ≡ 254
    → emit_vector frame encoded p.src p.dst p.flags p.session p.seq p.family p.type ptr
        (length p.payload)
      ≡ done (vector_lines p)
unfolding emit_vector emit_built emit_encoded
emit_vector_prints p ptr frame encoded v holds long room =
    let size = length-wire p in
    let fits = v.payload_fits in
    let n = length (wire p) in
    let code = stuff [] (wire p) in
    let built = frame_build-wire p ptr frame 252 v holds (omega arith) (omega arith) in
    let (behind, written, left) =
      cobs_encode-stuff (wire p) (drop n frame) encoded 254 (omega arith)
        (omega (arith, length-stuff_short (wire p) [] (omega arith))) in
    let shown : print_hex (some (code ++ (0 ∷ behind))) (length code + 1)
        ≡ done (code ++ (0 ∷ [])) =
      ap (λ (t : Bytes). print_hex (some t) (length code + 1))
        (sym (append_assoc code (0 ∷ []) behind))
      ∙ print_hex-append (code ++ (0 ∷ [])) behind (length code + 1)
          (omega (arith, length-append code (0 ∷ []))) in
    rw
      (
        print_hex-Holds ptr p.payload holds,
        built,
        print_hex-append (wire p) (drop n frame) n refl,
        written,
        shown,
      )
      refl
