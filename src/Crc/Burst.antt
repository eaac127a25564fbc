-- ===== src/Crc/Burst.antt =====
-- The CRC loop of src/arc_protocol.c on a message and on the same message with an error burst.
use arc_protocol.Prelude.{ℕ, zero, suc, ◌+◌, ◌*◌, ◌^◌, ◌≤◌, ◌<◌, ◌≡◌, ◌≢◌, refl, arith, bit_xor}
use arc_protocol.Prelude.{List, [], ◌∷◌, ◌++◌, length, ap, ap₂, sym, ◌∙◌}
use arc_protocol.Prelude.Bits.{bit_xor_comm, bit_xor-injective, bit_xor-lt}
use arc_protocol.Memory.{Bytes, IsBytes}
use arc_protocol.Crc.{crc_bit, crc_bits, crc_loop}
use arc_protocol.Crc.Step.{crc_bits-injective, crc_bit-lt, crc_bit-injective}
use arc_protocol.Crc.Register.{IsBits, register, message_bits, aligned, aligned-lt}
use arc_protocol.Crc.Register.{
  register-eq-crc_bits, register-append, register-lt, crc_loop-eq-register,
}

bit-eq : (b d t r s : ℕ) → b < 2 → d < 2 → r < t → s < t → b * t + r ≡ d * t + s → (b ≡ d) × (r ≡ s)
bit-eq zero zero t r s p q hr hs e = (refl, omega arith)
bit-eq zero (suc d) t r s p q hr hs e = absurd (grind arith)
bit-eq (suc b) zero t r s p q hr hs e = absurd (grind arith)
bit-eq (suc zero) (suc zero) t r s p q hr hs e = (refl, omega arith)
bit-eq (suc (suc b)) (suc d) t r s p q hr hs e = absurd (omega arith)
bit-eq (suc zero) (suc (suc d)) t r s p q hr hs e = absurd (omega arith)

aligned-injective :
    (width : ℕ) (us vs : List ℕ)
    → length us ≡ length vs
    → length us ≤ width
    → IsBits us
    → IsBits vs
    → aligned width us ≡ aligned width vs
    → us ≡ vs
aligned-injective width [] [] l w hu hv e = refl
aligned-injective width [] (v ∷ vs) l w hu hv e = absurd (omega arith)
aligned-injective width (u ∷ us) [] l w hu hv e = absurd (omega arith)
aligned-injective zero (u ∷ us) (v ∷ vs) l w hu hv e = absurd (omega arith)
aligned-injective (suc width) (u ∷ us) (v ∷ vs) l w hu hv e =
    ap₂ ◌∷◌ heads.0 (aligned-injective width us vs (omega arith) (omega arith) hu.1 hv.1 heads.1)
  where
    heads : (u ≡ v) × (aligned width us ≡ aligned width vs)
    heads =
        bit-eq u v (2 ^ width) (aligned width us) (aligned width vs) hu.0 hv.0
          (aligned-lt width us hu.1) (aligned-lt width vs hv.1) (unfold aligned in e)

-- From one state, different words of at most 16 bits lead to different states.
register-window :
    (us vs : List ℕ) (c : ℕ)
    → c < 2 ^ 16
    → length us ≡ length vs
    → length us ≤ 16
    → IsBits us
    → IsBits vs
    → register c us ≡ register c vs
    → us ≡ vs
register-window us vs c p l w hu hv e = aligned-injective 16 us vs l w hu hv words
  where
    rounds :
        crc_bits (length us) (bit_xor c (aligned 16 us))
        ≡ crc_bits (length us) (bit_xor c (aligned 16 vs))
    rounds =
        sym (register-eq-crc_bits us c p hu w)
        ∙ e
        ∙ register-eq-crc_bits vs c p hv (omega arith)
        ∙ ap (λ (n : ℕ). crc_bits n (bit_xor c (aligned 16 vs))) (sym l)

    states : bit_xor c (aligned 16 us) ≡ bit_xor c (aligned 16 vs)
    states =
        crc_bits-injective (length us) (bit_xor c (aligned 16 us)) (bit_xor c (aligned 16 vs))
          (bit_xor-lt 16 c (aligned 16 us) p (aligned-lt 16 us hu))
          (bit_xor-lt 16 c (aligned 16 vs) p (aligned-lt 16 vs hv)) rounds

    words : aligned 16 us ≡ aligned 16 vs
    words =
        bit_xor-injective (aligned 16 us) (aligned 16 vs) c
          (bit_xor_comm (aligned 16 us) c ∙ states ∙ bit_xor_comm c (aligned 16 vs))

-- Different states stay different over the same bits.
register-injective :
    (bs : List ℕ) (x y : ℕ)
    → x < 2 ^ 16
    → y < 2 ^ 16
    → IsBits bs
    → register x bs ≡ register y bs
    → x ≡ y
register-injective [] x y p q h e = unfold register in e
register-injective (b ∷ bs) x y p q h e = bit_xor-injective x y (b * 2 ^ 15) (
    crc_bit-injective (bit_xor x (b * 2 ^ 15)) (bit_xor y (b * 2 ^ 15))
      (bit_xor-lt 16 x (b * 2 ^ 15) p (omega arith)) (bit_xor-lt 16 y (b * 2 ^ 15) q (omega arith))
      (register-injective bs (crc_bit (bit_xor x (b * 2 ^ 15))) (crc_bit (bit_xor y (b * 2 ^ 15)))
        (crc_bit-lt _) (crc_bit-lt _) h.1 (unfold register in e)))

-- Two messages of bytes whose bits agree outside a window of at most 16 bits, and differ in it,
-- have different CRCs, from any 16-bit starting value.
pub crc_loop_burst :
    (xs ys : Bytes) (c : ℕ) (before us vs after : List ℕ)
    → c < 2 ^ 16
    → IsBytes xs
    → IsBytes ys
    → message_bits xs ≡ before ++ (us ++ after)
    → message_bits ys ≡ before ++ (vs ++ after)
    → length us ≡ length vs
    → length us ≤ 16
    → IsBits us
    → IsBits vs
    → IsBits after
    → us ≢ vs
    → crc_loop c xs ≢ crc_loop c ys
crc_loop_burst xs ys c before us vs after p hx hy ex ey l w hu hv ha ne e =
    ne (register-window us vs (register c before) start l w hu hv windows)
  where
    start : register c before < 2 ^ 16
    start = register-lt before c p

    in_parts :
        (zs ws : List ℕ)
        → IsBytes zs
        → message_bits zs ≡ before ++ (ws ++ after)
        → crc_loop c zs ≡ register (register (register c before) ws) after
    in_parts zs ws h f =
        crc_loop-eq-register zs c p h
        ∙ ap (register c) f
        ∙ register-append c before (ws ++ after)
        ∙ register-append (register c before) ws after

    windows : register (register c before) us ≡ register (register c before) vs
    windows =
        register-injective after (register (register c before) us) (register (register c before) vs)
          (register-lt us _ start) (register-lt vs _ start) ha
          (sym (in_parts xs us hx ex) ∙ e ∙ in_parts ys vs hy ey)
