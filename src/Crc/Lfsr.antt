-- ===== src/Crc/Lfsr.antt =====
-- The loop of `arc_crc16` beside a shift register for the polynomial x^16 + x^12 + x^5 + 1, which
-- is described here without the loop's functions.
use arc_protocol.Prelude.{
  ℕ, zero, suc, ◌+◌, ◌*◌, ◌/◌, ◌%◌, ◌^◌, ◌<◌, ◌==◌, ◌≡◌, ◌∙◌, refl, ap, arith, bit_xor,
  if◌then◌else◌,
}
use arc_protocol.Prelude.{List, [], ◌∷◌, ◌++◌, inl, inr}
use arc_protocol.Prelude.Bits.{bit_xor_zero, bit_xor_comm, bit_xor_fields}
use arc_protocol.Memory.{Bytes, IsBytes}
use arc_protocol.Crc.{crc_bit, crc_loop}
use arc_protocol.Crc.Step.{crc_bit-lt, crc_bit_low, crc_bit_high, IsSplit, word_halves}
use arc_protocol.Crc.Register.{
  IsBits, byte_bits, byte_bits-IsBits, message_bits, register, crc_loop-eq-register, top-bit_xor,
}

-- A message bit goes in: the register shifts left, and where the bit that leaves it differs from
-- the message bit, the taps 12, 5 and 0 are flipped.
unfoldable pub feed : ℕ → ℕ → ℕ
feed c b = if c / 2 ^ 15 == b then c * 2 % 2 ^ 16 else bit_xor (c * 2 % 2 ^ 16) (2 ^ 12 + 2 ^ 5 + 1)

-- The register after all the bits.
unfoldable pub lfsr : ℕ → List ℕ → ℕ
lfsr c [] = c
lfsr c (b ∷ bs) = lfsr (feed c b) bs

crc_bit-eq-feed_split : (c b : ℕ) → IsSplit c → b < 2 → crc_bit (bit_xor c (b * 2 ^ 15)) ≡ feed c b
unfolding feed
crc_bit-eq-feed_split c zero (inl p) q = ground (arith, bit_xor_zero c, crc_bit_low c p)
crc_bit-eq-feed_split c (suc zero) (inl p) q =
    ap crc_bit (bit_xor_comm c (2 ^ 15) ∙ top-bit_xor 1 c p) ∙ crc_bit_high c p ∙ ground (arith, p)
crc_bit-eq-feed_split c (suc (suc b)) (inl p) q = absurd (omega arith)
crc_bit-eq-feed_split c zero (inr (r, p, e)) q =
    ap crc_bit (bit_xor_zero c ∙ e) ∙ crc_bit_high r p ∙ ground (arith, p, e)
crc_bit-eq-feed_split c (suc zero) (inr (r, p, e)) q =
    ap crc_bit (top_cleared) ∙ crc_bit_low r p ∙ ground (arith, p, e)
  where
    top_cleared : bit_xor c (1 * 2 ^ 15) ≡ r
    top_cleared = ground (arith, e, bit_xor_fields 15 1 1 r 0 p (omega arith), bit_xor_zero r)
crc_bit-eq-feed_split c (suc (suc b)) (inr (r, p, e)) q = absurd (omega arith)

crc_bit-eq-feed : (c b : ℕ) → c < 2 ^ 16 → b < 2 → crc_bit (bit_xor c (b * 2 ^ 15)) ≡ feed c b
crc_bit-eq-feed c b p q = crc_bit-eq-feed_split c b (word_halves c p) q

register-eq-lfsr : (bs : List ℕ) (c : ℕ) → c < 2 ^ 16 → IsBits bs → register c bs ≡ lfsr c bs
unfolding register lfsr
register-eq-lfsr [] c p h = refl
register-eq-lfsr (b ∷ bs) c p h =
    register-eq-lfsr bs (crc_bit (bit_xor c (b * 2 ^ 15))) (crc_bit-lt _) h.1
    ∙ ap (λ (t : ℕ). lfsr t bs) (crc_bit-eq-feed c b p h.0)

IsBits-append : (xs ys : List ℕ) → IsBits xs → IsBits ys → IsBits (xs ++ ys)
IsBits-append [] ys p q = q
IsBits-append (x ∷ xs) ys p q = (p.0, IsBits-append xs ys p.1 q)

message_bits-IsBits : (bytes : Bytes) → IsBytes bytes → IsBits (message_bits bytes)
unfolding message_bits
message_bits-IsBits [] h = tt
message_bits-IsBits (d ∷ ds) h =
    IsBits-append (byte_bits d) (message_bits ds) (byte_bits-IsBits d h.0)
      (message_bits-IsBits ds h.1)

-- From a 16-bit starting value, over bytes, the loop of the code leaves in `crc` what the shift
-- register with taps at 12, 5 and 0 holds after all the message's bits, most significant bit first.
pub crc_loop-eq-lfsr :
    (bytes : Bytes) (c : ℕ)
    → c < 2 ^ 16
    → IsBytes bytes
    → crc_loop c bytes ≡ lfsr c (message_bits bytes)
crc_loop-eq-lfsr bytes c p h =
    crc_loop-eq-register bytes c p h
    ∙ register-eq-lfsr (message_bits bytes) c p (message_bits-IsBits bytes h)
