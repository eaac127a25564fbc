-- ===== src/Crc/Step.antt =====
-- One round of the CRC loop of src/arc_protocol.c as arithmetic.
use arc_protocol.Prelude.{ℕ, zero, suc, ◌+◌, ◌-◌, ◌*◌, ◌^◌, ◌<◌, ◌≡◌, arith}
use arc_protocol.Prelude.{◌≢◌, ap, sym, ◌∙◌, ◌⊎◌, inl, inr, bit_xor, lt_or_le}
use arc_protocol.Prelude.Bits.{bit_and_bit, bit_xor_fields, bit_xor-lt, bit_xor_step}
use arc_protocol.Prelude.Bits.{bit_xor-injective, bit_xor_assoc, bit_xor_comm}
use arc_protocol.Crc.{crc_bit, crc_bits}

pub crc_bit-lt : (c : ℕ) → crc_bit c < 2 ^ 16
unfolding crc_bit
crc_bit-lt c = ground arith

-- With the top bit clear a round doubles.
pub crc_bit_low : (c : ℕ) → c < 2 ^ 15 → crc_bit c ≡ c * 2
unfolding crc_bit
crc_bit_low c h = ground (arith, bit_and_bit 15 c)

pub crc_bit_high : (r : ℕ) → r < 2 ^ 15 → crc_bit (2 ^ 15 + r) ≡ bit_xor (r * 2) 0x1021
unfolding crc_bit
crc_bit_high r h = ground (
  arith,
  bit_and_bit 15 (2 ^ 15 + r),
  bit_xor_fields 16 1 0 (r * 2) 0x1021 (omega arith) (omega arith),
  bit_xor-lt 16 (r * 2) 0x1021 (omega arith) (omega arith),
)

abbrev pub IsSplit : ℕ → Type 0
IsSplit c = (c < 2 ^ 15) ⊎ ((r : ℕ) × (r < 2 ^ 15) × (c ≡ 2 ^ 15 + r))

-- A word has its top bit clear, or is that bit and the rest.
pub word_halves : (c : ℕ) → c < 2 ^ 16 → IsSplit c
word_halves c h = elim (lt_or_le (2 ^ 15) (c + 1)) [
  | inl high ↦ inr (c - 2 ^ 15, omega arith, omega arith)
  | inr low ↦ inl (omega arith)
]

double_injective : (x y : ℕ) → x * 2 ≡ y * 2 → x ≡ y
double_injective x y e = omega arith

-- The polynomial is odd, so a round keeps the bit that it shifts out.
high-ne-low : (r s : ℕ) → bit_xor (r * 2) 0x1021 ≢ s * 2
high-ne-low r s e = omega (arith, bit_xor_step (r * 2) 0x1021)

crc_bit-injective_split : (x y : ℕ) → IsSplit x → IsSplit y → crc_bit x ≡ crc_bit y → x ≡ y
crc_bit-injective_split x y (inl p) (inl q) e = omega (arith, crc_bit_low x p, crc_bit_low y q)
crc_bit-injective_split x y (inl p) (inr (s, q, f)) e =
    absurd (high-ne-low s x (sym (crc_bit_high s q) ∙ ap crc_bit (sym f) ∙ sym e ∙ crc_bit_low x p))
crc_bit-injective_split x y (inr (r, p, d)) (inl q) e =
    absurd (high-ne-low r y (sym (crc_bit_high r p) ∙ ap crc_bit (sym d) ∙ e ∙ crc_bit_low y q))
crc_bit-injective_split x y (inr (r, p, d)) (inr (s, q, f)) e = omega (
  arith,
  double_injective r s (
      bit_xor-injective (r * 2) (s * 2) 0x1021
        (sym (crc_bit_high r p) ∙ ap crc_bit (sym d) ∙ e ∙ ap crc_bit f ∙ crc_bit_high s q)),
)

pub crc_bit-injective : (x y : ℕ) → x < 2 ^ 16 → y < 2 ^ 16 → crc_bit x ≡ crc_bit y → x ≡ y
crc_bit-injective x y p q e = crc_bit-injective_split x y (word_halves x p) (word_halves y q) e

pub crc_bits-lt : (n c : ℕ) → c < 2 ^ 16 → crc_bits n c < 2 ^ 16
unfolding crc_bits
crc_bits-lt zero c h = h
crc_bits-lt (suc n) c h = crc_bits-lt n (crc_bit c) (crc_bit-lt c)

pub crc_bits-injective : (n x y : ℕ) → x < 2 ^ 16 → y < 2 ^ 16 → crc_bits n x ≡ crc_bits n y → x ≡ y
unfolding crc_bits
crc_bits-injective zero x y p q e = e
crc_bits-injective (suc n) x y p q e =
    crc_bit-injective x y p q
      (crc_bits-injective n (crc_bit x) (crc_bit y) (crc_bit-lt x) (crc_bit-lt y) e)

bit_xor_double : (x y : ℕ) → bit_xor (x * 2) (y * 2) ≡ bit_xor x y * 2
bit_xor_double x y = ground (arith, bit_xor_step (x * 2) (y * 2))

bit_xor_right_comm : (x y z : ℕ) → bit_xor (bit_xor x y) z ≡ bit_xor (bit_xor x z) y
bit_xor_right_comm x y z =
    bit_xor_assoc x y z ∙ ap (λ (t : ℕ). bit_xor x t) (bit_xor_comm y z) ∙ sym (bit_xor_assoc x z y)

crc_bit-xor_split :
    (x y : ℕ) → IsSplit x → y < 2 ^ 15 → crc_bit (bit_xor x y) ≡ bit_xor (crc_bit x) (y * 2)
crc_bit-xor_split x y (inl p) q =
    rw (crc_bit_low (bit_xor x y) (bit_xor-lt 15 x y p q), crc_bit_low x p, bit_xor_double x y)
crc_bit-xor_split x y (inr (r, p, d)) q =
    rw
      (
        d,
        high_xor,
        crc_bit_high (bit_xor r y) (bit_xor-lt 15 r y p q),
        crc_bit_high r p,
        ← bit_xor_double r y,
      )
      (bit_xor_right_comm (r * 2) (y * 2) 0x1021)
  where
    high_xor : bit_xor (2 ^ 15 + r) y ≡ 2 ^ 15 + bit_xor r y
    high_xor = ground (arith, bit_xor_fields 15 1 0 r y p q)

-- What is joined below the top bit passes through a round by doubling.
pub crc_bit-xor :
    (x y : ℕ) → x < 2 ^ 16 → y < 2 ^ 15 → crc_bit (bit_xor x y) ≡ bit_xor (crc_bit x) (y * 2)
crc_bit-xor x y p q = crc_bit-xor_split x y (word_halves x p) q
