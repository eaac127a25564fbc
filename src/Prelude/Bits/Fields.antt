-- ===== src/Prelude/Bits/Fields.antt =====
-- `|` of disjoint fields is a sum, `&` with low ones is a remainder; `|` stays in its width.
use Prim.Native.Nat.{ℕ, zero, suc, ◌+◌, ◌*◌, ◌/◌, ◌%◌, ◌^◌, ◌≤◌, ◌<◌, bit_and, bit_or}
use mathlib.Core.Path.{◌≡◌, refl, ap}
use native.Mathlib.Nat.{pow-suc, pow-succ', div-div-eq-div-mul}
use native.Mathlib.Omega.{arith}
use arc_protocol.Prelude.Bits.Step.{bit_and_step, bit_or_step}

-- The bound `n` counts the digits of `a`.
bit_or_nil : (n a : ℕ) → a ≤ n → bit_or a 0 ≡ a
bit_or_nil n zero h = refl
bit_or_nil zero (suc a) h = absurd (omega arith)
bit_or_nil (suc n) (suc a) h =
    omega (arith, bit_or_step (suc a) 0, bit_or_nil n (suc a / 2) (omega arith))

bit_and_nil : (n a : ℕ) → a ≤ n → bit_and a 0 ≡ 0
bit_and_nil n zero h = refl
bit_and_nil zero (suc a) h = absurd (omega arith)
bit_and_nil (suc n) (suc a) h =
    omega (arith, bit_and_step (suc a) 0, bit_and_nil n (suc a / 2) (omega arith))

pub bit_or-eq-add : (k hi lo : ℕ) → lo < 2 ^ k → bit_or (hi * 2 ^ k) lo ≡ hi * 2 ^ k + lo
bit_or-eq-add zero hi lo h = ground (arith, bit_or_nil hi hi)
bit_or-eq-add (suc k) hi lo h = ground (
  arith,
  pow-suc 2 k,
  ap (λ (t : ℕ). hi * t) (pow-suc 2 k),
  bit_or_step (hi * 2 ^ suc k) lo,
  bit_or-eq-add k hi (lo / 2) (omega (arith, pow-suc 2 k)),
)

pub bit_or_byte : (hi lo : ℕ) → lo < 256 → bit_or (hi * 256) lo ≡ hi * 256 + lo
bit_or_byte hi lo h = bit_or-eq-add 8 hi lo h

bit_or_unit : (b : ℕ) → b < 1 → bit_or 0 b ≡ 0
bit_or_unit zero h = refl
bit_or_unit (suc b) h = absurd (omega arith)

pub bit_or-lt : (k a b : ℕ) → a < 2 ^ k → b < 2 ^ k → bit_or a b < 2 ^ k
bit_or-lt zero zero b p q = omega (arith, bit_or_unit b q)
bit_or-lt zero (suc a) b p q = absurd (omega arith)
bit_or-lt (suc k) a b p q = omega (
  arith,
  pow-suc 2 k,
  bit_or_step a b,
  bit_or-lt k (a / 2) (b / 2) (omega (arith, pow-suc 2 k)) (omega (arith, pow-suc 2 k)),
)

-- A mask of the single bit `k`.
pub bit_and_bit : (k a : ℕ) → bit_and a (2 ^ k) ≡ a / 2 ^ k % 2 * 2 ^ k
bit_and_bit zero a = omega (arith, bit_and_step a 1, bit_and_nil (a / 2) (a / 2) (omega arith))
bit_and_bit (suc k) a = ground (
  arith,
  pow-suc 2 k,
  pow-succ' 2 k,
  bit_and_step a (2 ^ suc k),
  bit_and_bit k (a / 2),
  div-div-eq-div-mul a 2 (2 ^ k),
  ap (λ (t : ℕ). a / 2 / 2 ^ k % 2 * t) (pow-suc 2 k),
)

bit_and_three : (a : ℕ) → bit_and a 3 ≡ a % 4
bit_and_three a = omega (
  arith,
  bit_and_step a 3,
  bit_and_step (a / 2) 1,
  bit_and_nil (a / 2 / 2) (a / 2 / 2) (omega arith),
)

bit_and_fifteen : (a : ℕ) → bit_and a 15 ≡ a % 16
bit_and_fifteen a =
    omega (arith, bit_and_step a 15, bit_and_step (a / 2) 7, bit_and_three (a / 2 / 2))

bit_and_63 : (a : ℕ) → bit_and a 63 ≡ a % 64
bit_and_63 a =
    omega (arith, bit_and_step a 63, bit_and_step (a / 2) 31, bit_and_fifteen (a / 2 / 2))

pub bit_and_byte : (a : ℕ) → bit_and a 0xff ≡ a % 256
bit_and_byte a = omega (arith, bit_and_step a 255, bit_and_step (a / 2) 127, bit_and_63 (a / 2 / 2))
