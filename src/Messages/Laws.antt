-- ===== src/Messages/Laws.antt =====
-- Lemmas on the shared encoder and decoder of the payloads of src/arc_messages_*.c.
use arc_protocol.Prelude.{ℕ, ◌+◌, ◌-◌, ◌*◌, ◌/◌, ◌%◌, ◌^◌, ◌<◌, ◌≤◌, ltb-false, ==_refl}
use arc_protocol.Prelude.{some, ◌++◌, bit_and, bit_or, length, drop}
use arc_protocol.Prelude.{◌≡◌, refl, ap, ◌∙◌, arith, ltb-true}
use arc_protocol.Prelude.Bits.{bit_and_byte, bit_or-eq-add}
use arc_protocol.Prelude.Int.{ℤ, pos, negsuc}
use arc_protocol.Memory.{Bytes, Run, done, write, u8}
use arc_protocol.Protocol.{ok}
use arc_protocol.Frame.{join16}
use arc_protocol.Frame.Parse.{join16-lem}
use arc_protocol.Messages.{
  join32, of_int8, to_int8, of_int16, to_int16, of_int32, to_int32, encode, decode,
}

pub join16-half :
    (v : ℕ) → v < 2 ^ 16 → join16 (u8 (bit_and (v / 2 ^ 8) 0xff)) (u8 (bit_and v 0xff)) ≡ v
join16-half v h = omega (
  arith,
  bit_and_byte v,
  bit_and_byte (v / 2 ^ 8),
  join16-lem (u8 (bit_and (v / 2 ^ 8) 0xff)) (u8 (bit_and v 0xff)) (omega arith) (omega arith),
)

join32-lem :
    (a b c d : ℕ)
    → a < 256
    → b < 256
    → c < 256
    → d < 256
    → join32 a b c d ≡ a * 2 ^ 24 + b * 2 ^ 16 + c * 2 ^ 8 + d
join32-lem a b c d p q r s =
    let e = bit_or-eq-add 24 a (b * 2 ^ 16) (omega arith) in
    let f = bit_or-eq-add 16 (a * 2 ^ 8 + b) (c * 2 ^ 8) (omega arith) in
    let g = bit_or-eq-add 8 (a * 2 ^ 16 + b * 2 ^ 8 + c) d (omega arith) in
    let e' : bit_or (a * 2 ^ 24) (b * 2 ^ 16) ≡ (a * 2 ^ 8 + b) * 2 ^ 16 = omega (arith, e) in
    let f' : bit_or ((a * 2 ^ 8 + b) * 2 ^ 16) (c * 2 ^ 8) ≡ (a * 2 ^ 16 + b * 2 ^ 8 + c) * 2 ^ 8 =
      omega (arith, f) in
    rw (e', f', g) (omega arith)

pub join32-be32 :
    (v : ℕ)
    → v < 2 ^ 32
    → join32
        (u8 (bit_and (v / 2 ^ 24) 0xff))
        (u8 (bit_and (v / 2 ^ 16) 0xff))
        (u8 (bit_and (v / 2 ^ 8) 0xff))
        (u8 (bit_and v 0xff))
      ≡ v
join32-be32 v h =
    join32-lem (u8 (bit_and (v / 2 ^ 24) 0xff)) (u8 (bit_and (v / 2 ^ 16) 0xff))
      (u8 (bit_and (v / 2 ^ 8) 0xff)) (u8 (bit_and v 0xff)) (omega arith) (omega arith)
      (omega arith) (omega arith)
    ∙ omega (
      arith,
      bit_and_byte (v / 2 ^ 24),
      bit_and_byte (v / 2 ^ 16),
      bit_and_byte (v / 2 ^ 8),
      bit_and_byte v,
    )

-- The values of an `int8_t`.
abbrev pub IsInt8 : ℤ → Type 0
IsInt8 (pos n) = n < 128
IsInt8 (negsuc n) = n < 128

pub to_int8-of_int8 : (x : ℤ) → IsInt8 x → to_int8 (of_int8 x) ≡ x
to_int8-of_int8 (pos n) h = rw (ltb-true (n % 256) 128 (omega arith)) (ap pos (omega arith))
to_int8-of_int8 (negsuc n) h =
    rw (ltb-false (255 - n % 256) 128 (omega arith)) (ap negsuc (omega arith))

-- The values of an `int16_t`.
abbrev pub IsInt16 : ℤ → Type 0
IsInt16 (pos n) = n < 2 ^ 15
IsInt16 (negsuc n) = n < 2 ^ 15

-- The values of an `int32_t`.
abbrev pub IsInt32 : ℤ → Type 0
IsInt32 (pos n) = n < 2 ^ 31
IsInt32 (negsuc n) = n < 2 ^ 31

signed16 : (x : ℤ) → IsInt16 x → (to_int16 (of_int16 x) ≡ x) × (of_int16 x < 2 ^ 16)
signed16 (pos n) h =
    (rw (ltb-true (n % 2 ^ 16) (2 ^ 15) (omega arith)) (ap pos (omega arith)), omega arith)
signed16 (negsuc n) h = (
  rw (ltb-false (65535 - n % 2 ^ 16) (2 ^ 15) (omega arith)) (ap negsuc (omega arith)),
  omega arith,
)

signed32 : (x : ℤ) → IsInt32 x → (to_int32 (of_int32 x) ≡ x) × (of_int32 x < 2 ^ 32)
signed32 (pos n) h =
    (rw (ltb-true (n % 2 ^ 32) (2 ^ 31) (omega arith)) (ap pos (omega arith)), omega arith)
signed32 (negsuc n) h = (
  rw (ltb-false (4294967295 - n % 2 ^ 32) (2 ^ 31) (omega arith)) (ap negsuc (omega arith)),
  omega arith,
)

pub to_int16-of_int16 :
    (x : ℤ)
    → IsInt16 x
    → to_int16 (join16 (u8 (bit_and (of_int16 x / 2 ^ 8) 0xff)) (u8 (bit_and (of_int16 x) 0xff)))
      ≡ x
to_int16-of_int16 x h =
    let (e, small) = signed16 x h in ap to_int16 (join16-half (of_int16 x) small) ∙ e

pub to_int32-of_int32 :
    (x : ℤ)
    → IsInt32 x
    → to_int32 (
        join32
          (u8 (bit_and (of_int32 x / 2 ^ 24) 0xff))
          (u8 (bit_and (of_int32 x / 2 ^ 16) 0xff))
          (u8 (bit_and (of_int32 x / 2 ^ 8) 0xff))
          (u8 (bit_and (of_int32 x) 0xff)))
      ≡ x
to_int32-of_int32 x h =
    let (e, small) = signed32 x h in ap to_int32 (join32-be32 (of_int32 x) small) ∙ e

-- What an encoder that stores `fields m` and a decoder that reads `m` back do together.
pub encode-decode {ℓ} :
    {A : Type ℓ} (fields : A → Bytes) (parse : Bytes → Run A) (size capacity : ℕ) (m old : A)
    (buf : Bytes)
    → length (fields m) ≡ size
    → size ≤ capacity
    → capacity ≤ length buf
    → ((rest : Bytes) → parse (fields m ++ rest) ≡ done m)
    → (out : Bytes) × (encode fields size (some m) (some buf) capacity ≡ done (ok size, some out))
      × (decode parse size (some out) size (some old) ≡ done (ok tt, some m))
unfolding encode decode write
encode-decode fields parse size capacity m old buf e h room reads = (
  fields m ++ drop size buf,
  ground (arith, ltb-false capacity size h, e, room),
  rw (==_refl size, reads (drop size buf)) refl,
)
