-- ===== src/Prelude/Bits/Step.antt =====
-- Each operation by its lowest digit and the halves, with no fuel.
use Prim.Native.Nat.{ℕ, zero, suc, ◌+◌, ◌*◌, ◌/◌, ◌%◌, ◌≤◌, ◌<◌, min, max, bit_and, bit_or, bit_xor}
use Prim.Native.Nat.{digits, differ, bitwise, bit_and-bitwise, bit_or-bitwise, bit_xor-bitwise}
use mathlib.Core.Path.{◌≡◌, refl}
use native.Mathlib.Omega.{arith}

module _ (z : ℕ → ℕ) (f : ℕ → ℕ → ℕ) where
  -- The count of digits may be any bound of the first number.
  digits_count : (m n a b : ℕ) → a ≤ m → a ≤ n → digits z f m a b ≡ digits z f n a b
  digits_count zero zero zero b p q = refl
  digits_count zero (suc n) zero b p q = refl
  digits_count (suc m) zero zero b p q = refl
  digits_count (suc m) (suc n) zero b p q = refl
  digits_count zero n (suc a) b p q = absurd (omega arith)
  digits_count (suc m) zero (suc a) b p q = absurd (omega arith)
  digits_count (suc m) (suc n) (suc a) b p q =
      omega (arith, digits_count m n (suc a / 2) (b / 2) (omega arith) (omega arith))

  bitwise_step :
      ((b : ℕ) → z b ≡ z (b / 2) * 2 + f 0 (b % 2))
      → (a b : ℕ) → bitwise z f a b ≡ bitwise z f (a / 2) (b / 2) * 2 + f (a % 2) (b % 2)
  bitwise_step out zero b = out b
  bitwise_step out (suc a) b =
      omega (arith, digits_count a (suc a / 2) (suc a / 2) (b / 2) (omega arith) (omega arith))

differ-eq-mod : (x y : ℕ) → x < 2 → y < 2 → differ x y ≡ (x + y) % 2
differ-eq-mod zero y p q = omega arith
differ-eq-mod (suc x) zero p q = omega arith
differ-eq-mod (suc zero) (suc zero) p q = refl
differ-eq-mod (suc zero) (suc (suc y)) p q = absurd (omega arith)
differ-eq-mod (suc (suc x)) (suc y) p q = absurd (omega arith)

pub bit_and_step : (a b : ℕ) → bit_and a b ≡ bit_and (a / 2) (b / 2) * 2 + min (a % 2) (b % 2)
bit_and_step a b = simp bit_and-bitwise (bitwise_step (λ _. 0) min (λ b. omega arith) a b)

pub bit_or_step : (a b : ℕ) → bit_or a b ≡ bit_or (a / 2) (b / 2) * 2 + max (a % 2) (b % 2)
bit_or_step a b = simp bit_or-bitwise (bitwise_step (λ c. c) max (λ b. omega arith) a b)

bit_xor-differ : (a b : ℕ) → bit_xor a b ≡ bit_xor (a / 2) (b / 2) * 2 + differ (a % 2) (b % 2)
bit_xor-differ a b = simp bit_xor-bitwise (bitwise_step (λ c. c) differ (λ b. omega arith) a b)

pub bit_xor_step : (a b : ℕ) → bit_xor a b ≡ bit_xor (a / 2) (b / 2) * 2 + (a % 2 + b % 2) % 2
bit_xor_step a b =
    omega (arith, bit_xor-differ a b, differ-eq-mod (a % 2) (b % 2) (omega arith) (omega arith))
