-- ===== src/Frame/Detect.antt =====
-- `arc_frame_parse` of src/arc_protocol.c on a frame that was corrupted on the wire.
use arc_protocol.Prelude.{take-length}
use arc_protocol.Prelude.{
  ℕ, ◌+◌, ◌*◌, ◌/◌, ◌%◌, ◌^◌, ◌≤◌, ◌<◌, ◌≡◌, ◌≢◌, refl, sym, ap, ap₂, ◌∙◌, arith, inl, inr,
}
use arc_protocol.Prelude.{List, [], ◌∷◌, ◌++◌, length, some, append_assoc, bit_xor}
use arc_protocol.Prelude.Bits.{bit_xor_fields, bit_xor_self, bit_xor_zero}
use arc_protocol.Memory.{Bytes, IsBytes, done}
use arc_protocol.Crc.{crc_bits, crc_byte, crc_loop}
use arc_protocol.Crc.Step.{crc_bit_low}
use arc_protocol.Crc.Register.{IsBits, message_bits, crc_loop-lt}
use arc_protocol.Crc.Burst.{crc_loop_burst}
use arc_protocol.Protocol.{Frame, Error, ok, err}
use arc_protocol.Frame.{frame_parse}
use arc_protocol.Frame.Wire.{Packet, header, body, body_crc, trailer, wire}
use arc_protocol.Frame.Accept.{frame_parse_sound}
use arc_protocol.Frame.Outcome.{frame_parse-returns}

crc_loop-append : (xs ys : Bytes) (c : ℕ) → crc_loop c (xs ++ ys) ≡ crc_loop (crc_loop c xs) ys
unfolding crc_loop
crc_loop-append [] ys c = refl
crc_loop-append (x ∷ xs) ys c = crc_loop-append xs ys (crc_byte c x)

-- Eight rounds move a byte up.
crc_bits-byte : (b : ℕ) → b < 256 → crc_bits 8 b ≡ b * 2 ^ 8
unfolding crc_bits
crc_bits-byte b h =
    rw
      (
        crc_bit_low b (omega arith),
        crc_bit_low (b * 2) (omega arith),
        crc_bit_low (b * 2 * 2) (omega arith),
        crc_bit_low (b * 2 * 2 * 2) (omega arith),
        crc_bit_low (b * 2 * 2 * 2 * 2) (omega arith),
        crc_bit_low (b * 2 * 2 * 2 * 2 * 2) (omega arith),
        crc_bit_low (b * 2 * 2 * 2 * 2 * 2 * 2) (omega arith),
        crc_bit_low (b * 2 * 2 * 2 * 2 * 2 * 2 * 2) (omega arith),
      )
      (omega arith)

-- A byte that equals the register's high byte leaves the low byte, moved up.
crc_byte_high : (hi lo : ℕ) → hi < 256 → lo < 256 → crc_byte (hi * 256 + lo) hi ≡ lo * 256
unfolding crc_byte
crc_byte_high hi lo p q =
    let e = bit_xor_fields 8 hi hi lo 0 q (omega arith) in
    let s = bit_xor_self hi in
    let z = bit_xor_zero lo in
    let left : bit_xor (hi * 256 + lo) (hi * 2 ^ 8) ≡ lo =
      ap₂ bit_xor refl (omega arith) ∙ e ∙ omega (arith, s, z) in
    rw left (ap (crc_bits 8) (omega arith) ∙ crc_bits-byte lo q)

-- The last byte, when the register holds it as its high byte and nothing below.
crc_byte_last : (lo : ℕ) → lo < 256 → crc_byte (lo * 256) lo ≡ 0
crc_byte_last lo h =
    ap (λ (t : ℕ). crc_byte t lo) (omega arith) ∙ crc_byte_high lo 0 h (omega arith)

crc_loop_two : (c : ℕ) → c < 2 ^ 16 → crc_loop c (trailer c) ≡ 0
unfolding crc_loop
crc_loop_two c h =
    let split : c ≡ c / 256 * 256 + c % 256 = omega arith in
    let first = crc_byte_high (c / 256) (c % 256) (omega arith) (omega arith) in
    ap (λ (t : ℕ). crc_byte t (c % 256)) (ap (λ (t : ℕ). crc_byte t (c / 256)) split ∙ first)
    ∙ crc_byte_last (c % 256) (omega arith)

-- A message with its own CRC behind it brings the register to zero.
crc_loop-trailer : (bs : Bytes) → crc_loop 0xffff (bs ++ trailer (crc_loop 0xffff bs)) ≡ 0
crc_loop-trailer bs =
    crc_loop-append bs (trailer (crc_loop 0xffff bs)) 0xffff
    ∙ crc_loop_two (crc_loop 0xffff bs) (crc_loop-lt bs 0xffff (omega arith))

wire-zero : (p : Packet) → crc_loop 0xffff (wire p) ≡ 0
unfolding body_crc
wire-zero p =
    ap (crc_loop 0xffff) (sym (append_assoc (header p) p.payload (trailer (body_crc p))))
    ∙ crc_loop-trailer (body p)

accepted-zero :
    (xs : Bytes) (old f : Frame)
    → IsBytes xs
    → frame_parse (some xs) (length xs) (some old) ≡ done (ok tt, some f)
    → crc_loop 0xffff xs ≡ 0
accepted-zero xs old f b h =
    let w = frame_parse_sound xs (length xs) old f b (omega arith) h in
    ap (crc_loop 0xffff) (sym (take-length xs (length xs) refl) ∙ w.is_wire) ∙ wire-zero w.packet

-- A frame that `arc_frame_parse` accepts, corrupted in a window of at most 16 bits anywhere, the
-- length and the CRC included, is reported as an error, and the caller's frame is left as it was.
pub frame_parse_burst :
    (xs ys : Bytes) (old f : Frame) (before us vs after : List ℕ)
    → IsBytes xs
    → IsBytes ys
    → frame_parse (some xs) (length xs) (some old) ≡ done (ok tt, some f)
    → message_bits xs ≡ before ++ (us ++ after)
    → message_bits ys ≡ before ++ (vs ++ after)
    → length us ≡ length vs
    → length us ≤ 16
    → IsBits us
    → IsBits vs
    → IsBits after
    → us ≢ vs
    → (e : Error) × (frame_parse (some ys) (length ys) (some old) ≡ done (err e, some old))
frame_parse_burst xs ys old f before us vs after bx by accepted mx my same short iu iv ia differ =
    elim (frame_parse-returns ys (length ys) old (omega arith)) [
      | inr rejected ↦ rejected
      | inl (g, h) ↦ absurd (
          crc_loop_burst xs ys 0xffff before us vs after (omega arith) bx by mx my same short iu iv
            ia differ (accepted-zero xs old f bx accepted ∙ sym (accepted-zero ys old g by h)))
    ]
