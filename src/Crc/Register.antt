-- ===== src/Crc/Register.antt =====
-- The loop of `arc_crc16` as rounds on the message's bits, most significant bit first: `register`
-- uses the code's own round, one bit at a time.
use arc_protocol.Prelude.{
  ℕ, zero, suc, ◌+◌, ◌*◌, ◌/◌, ◌%◌, ◌^◌, ◌≤◌, ◌<◌, ◌≡◌, refl, arith, bit_xor,
}
use arc_protocol.Prelude.{List, [], ◌∷◌, ◌++◌, length, ap, sym, ◌∙◌}
use native.Mathlib.Nat.{pow-suc, one-le-pow}
use arc_protocol.Prelude.Bits.{
  bit_xor_zero, bit_xor_comm, bit_xor_assoc, bit_xor_fields, bit_xor-lt,
}
use arc_protocol.Memory.{Bytes, IsBytes, u16}
use arc_protocol.Crc.{crc_bit, crc_bits, crc_byte, crc_loop}
use arc_protocol.Crc.Step.{crc_bit-lt, crc_bits-lt, crc_bit-xor}

abbrev pub IsBits : List ℕ → Type 0
IsBits [] = Unit
IsBits (b ∷ bs) = (b < 2) × IsBits bs

-- The register after the bits: each is joined to the top bit before the round.
unfoldable pub register : ℕ → List ℕ → ℕ
register c [] = c
register c (b ∷ bs) = register (crc_bit (bit_xor c (b * 2 ^ 15))) bs

-- The bits of a byte, and of a message.
abbrev pub byte_bits : ℕ → List ℕ
byte_bits d =
    (d / 128)
    ∷ (d / 64 % 2)
    ∷ (d / 32 % 2)
    ∷ (d / 16 % 2)
    ∷ (d / 8 % 2)
    ∷ (d / 4 % 2)
    ∷ (d / 2 % 2)
    ∷ (d % 2)
    ∷ []

unfoldable pub message_bits : Bytes → List ℕ
message_bits [] = []
message_bits (d ∷ ds) = byte_bits d ++ message_bits ds

-- The bits as the top of a word of `width` bits.
unfoldable pub aligned : ℕ → List ℕ → ℕ
aligned width [] = 0
aligned zero (b ∷ bs) = 0
aligned (suc width) (b ∷ bs) = b * 2 ^ width + aligned width bs

bit-mul-le : (b t : ℕ) → b < 2 → b * t ≤ t
bit-mul-le b t h = grind arith

pub aligned-lt : (width : ℕ) (bs : List ℕ) → IsBits bs → aligned width bs < 2 ^ width
unfolding aligned
aligned-lt width [] h = one-le-pow width 2 (omega arith)
aligned-lt zero (b ∷ bs) h = omega arith
aligned-lt (suc width) (b ∷ bs) h =
    omega (arith, pow-suc 2 width, bit-mul-le b (2 ^ width) h.0, aligned-lt width bs h.1)

aligned-suc :
    (width : ℕ) (bs : List ℕ) → length bs ≤ width → aligned (suc width) bs ≡ aligned width bs * 2
unfolding aligned
aligned-suc width [] h = refl
aligned-suc zero (b ∷ bs) h = absurd (omega arith)
aligned-suc (suc width) (b ∷ bs) h =
    omega (arith, ap (λ (t : ℕ). b * t) (pow-suc 2 width), aligned-suc width bs (omega arith))

zero-bit_xor : (a : ℕ) → bit_xor 0 a ≡ a
zero-bit_xor a = bit_xor_comm 0 a ∙ bit_xor_zero a

pub top-bit_xor : (b a : ℕ) → a < 2 ^ 15 → bit_xor (b * 2 ^ 15) a ≡ b * 2 ^ 15 + a
top-bit_xor b a h =
    ground (arith, bit_xor_fields 15 b 0 0 a (omega arith) h, bit_xor_zero b, zero-bit_xor a)

-- Up to 16 bits are the same as so many rounds on the word that begins with them.
pub register-eq-crc_bits :
    (bs : List ℕ) (c : ℕ)
    → c < 2 ^ 16
    → IsBits bs
    → length bs ≤ 16
    → register c bs ≡ crc_bits (length bs) (bit_xor c (aligned 16 bs))
unfolding register crc_bits aligned
register-eq-crc_bits [] c p h l = sym (bit_xor_zero c)
register-eq-crc_bits (b ∷ bs) c p h l =
    register-eq-crc_bits bs (crc_bit (bit_xor c (b * 2 ^ 15))) (crc_bit-lt _) h.1 (omega arith)
    ∙ ap (crc_bits (length bs)) one_round
  where
    joined : bit_xor c (b * 2 ^ 15) < 2 ^ 16
    joined = bit_xor-lt 16 c (b * 2 ^ 15) p (omega arith)

    one_round :
        bit_xor (crc_bit (bit_xor c (b * 2 ^ 15))) (aligned 16 bs)
        ≡ crc_bit (bit_xor c (aligned 16 (b ∷ bs)))
    one_round =
        rw
          (
            aligned-suc 15 bs (omega arith),
            ← crc_bit-xor (bit_xor c (b * 2 ^ 15)) (aligned 15 bs) joined (aligned-lt 15 bs h.1),
            bit_xor_assoc c (b * 2 ^ 15) (aligned 15 bs),
          )
          (ap (λ (t : ℕ). crc_bit (bit_xor c t))
            (top-bit_xor b (aligned 15 bs) (aligned-lt 15 bs h.1)))

pub byte_bits-IsBits : (d : ℕ) → d < 256 → IsBits (byte_bits d)
byte_bits-IsBits d h = omega arith

aligned-byte_bits : (d : ℕ) → d < 256 → aligned 16 (byte_bits d) ≡ d * 2 ^ 8
unfolding aligned
aligned-byte_bits d h = omega arith

-- One byte of the outer loop is eight bits of the register.
pub crc_byte-eq-register :
    (c d : ℕ) → c < 2 ^ 16 → d < 256 → crc_byte c d ≡ register c (byte_bits d)
unfolding crc_byte
crc_byte-eq-register c d p h =
    ap (crc_bits 8) (omega (arith, bit_xor-lt 16 c (d * 2 ^ 8) p (omega arith)))
    ∙ ap (λ (t : ℕ). crc_bits 8 (bit_xor c t)) (sym (aligned-byte_bits d h))
    ∙ sym (register-eq-crc_bits (byte_bits d) c p (byte_bits-IsBits d h) (omega arith))

pub register-append : (c : ℕ) (xs ys : List ℕ) → register c (xs ++ ys) ≡ register (register c xs) ys
unfolding register
register-append c [] ys = refl
register-append c (x ∷ xs) ys = register-append (crc_bit (bit_xor c (x * 2 ^ 15))) xs ys

pub register-lt : (bs : List ℕ) (c : ℕ) → c < 2 ^ 16 → register c bs < 2 ^ 16
unfolding register
register-lt [] c p = p
register-lt (b ∷ bs) c p = register-lt bs (crc_bit (bit_xor c (b * 2 ^ 15))) (crc_bit-lt _)

pub crc_byte-lt : (c d : ℕ) → crc_byte c d < 2 ^ 16
unfolding crc_byte
crc_byte-lt c d = crc_bits-lt 8 (u16 (bit_xor c (d * 2 ^ 8))) (omega arith)

pub crc_loop-lt : (bytes : Bytes) (c : ℕ) → c < 2 ^ 16 → crc_loop c bytes < 2 ^ 16
unfolding crc_loop
crc_loop-lt [] c p = p
crc_loop-lt (d ∷ ds) c p = crc_loop-lt ds (crc_byte c d) (crc_byte-lt c d)

-- From a 16-bit starting value, the loop over bytes is so many rounds on the message's bits.
pub crc_loop-eq-register :
    (bytes : Bytes) (c : ℕ)
    → c < 2 ^ 16
    → IsBytes bytes
    → crc_loop c bytes ≡ register c (message_bits bytes)
unfolding crc_loop message_bits register
crc_loop-eq-register [] c p h = refl
crc_loop-eq-register (d ∷ ds) c p h =
    crc_loop-eq-register ds (crc_byte c d) (crc_byte-lt c d) h.1
    ∙ ap (λ (t : ℕ). register t (message_bits ds)) (crc_byte-eq-register c d p h.0)
    ∙ sym (register-append c (byte_bits d) (message_bits ds))
