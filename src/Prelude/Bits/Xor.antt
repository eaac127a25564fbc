-- ===== src/Prelude/Bits/Xor.antt =====
-- The group laws of `^` and its width.
use Prim.Native.Nat.{ℕ, zero, suc, ◌+◌, ◌*◌, ◌/◌, ◌^◌, ◌≤◌, ◌<◌, bit_xor}
use mathlib.Core.Path.{◌≡◌, refl, ap, ◌∙◌, sym}
use native.Mathlib.Nat.{pow-suc}
use native.Mathlib.Omega.{arith}
use arc_protocol.Prelude.Bits.Step.{bit_xor_step}

-- In each, `n` bounds the numbers, and so counts their digits.
xor_nil : (n a : ℕ) → a ≤ n → bit_xor a 0 ≡ a
xor_nil n zero h = refl
xor_nil zero (suc a) h = absurd (omega arith)
xor_nil (suc n) (suc a) h =
    omega (arith, bit_xor_step (suc a) 0, xor_nil n (suc a / 2) (omega arith))

xor_same : (n a : ℕ) → a ≤ n → bit_xor a a ≡ 0
xor_same n zero h = refl
xor_same zero (suc a) h = absurd (omega arith)
xor_same (suc n) (suc a) h =
    omega (arith, bit_xor_step (suc a) (suc a), xor_same n (suc a / 2) (omega arith))

xor_swap : (n a b : ℕ) → a ≤ n → b ≤ n → bit_xor a b ≡ bit_xor b a
xor_swap zero zero zero p q = refl
xor_swap zero (suc a) b p q = absurd (omega arith)
xor_swap zero zero (suc b) p q = absurd (omega arith)
xor_swap (suc n) a b p q = omega (
  arith,
  bit_xor_step a b,
  bit_xor_step b a,
  xor_swap n (a / 2) (b / 2) (omega arith) (omega arith),
)

xor_regroup :
    (n a b c : ℕ) → a ≤ n → b ≤ n → c ≤ n → bit_xor (bit_xor a b) c ≡ bit_xor a (bit_xor b c)
xor_regroup zero zero zero zero p q r = refl
xor_regroup zero (suc a) b c p q r = absurd (omega arith)
xor_regroup zero zero (suc b) c p q r = absurd (omega arith)
xor_regroup zero zero zero (suc c) p q r = absurd (omega arith)
xor_regroup (suc n) a b c p q r =
    regroup_step (half_xor a b) (half_xor b c)
      (xor_regroup n (a / 2) (b / 2) (c / 2) (omega arith) (omega arith) (omega arith))
  where
    half_xor : (x y : ℕ) → bit_xor x y / 2 ≡ bit_xor (x / 2) (y / 2)
    half_xor x y = omega (arith, bit_xor_step x y)

    regroup_step :
        bit_xor a b / 2 ≡ bit_xor (a / 2) (b / 2)
        → bit_xor b c / 2 ≡ bit_xor (b / 2) (c / 2)
        → bit_xor (bit_xor (a / 2) (b / 2)) (c / 2) ≡ bit_xor (a / 2) (bit_xor (b / 2) (c / 2))
        → bit_xor (bit_xor a b) c ≡ bit_xor a (bit_xor b c)
    regroup_step e f ih = omega (
      arith,
      bit_xor_step (bit_xor a b) c,
      bit_xor_step a (bit_xor b c),
      bit_xor_step a b,
      bit_xor_step b c,
      ap (λ (t : ℕ). bit_xor t (c / 2)) e,
      ap (λ (t : ℕ). bit_xor (a / 2) t) f,
    )

pub bit_xor_zero : (a : ℕ) → bit_xor a 0 ≡ a
bit_xor_zero a = xor_nil a a (omega arith)

pub bit_xor_self : (a : ℕ) → bit_xor a a ≡ 0
bit_xor_self a = xor_same a a (omega arith)

pub bit_xor_comm : (a b : ℕ) → bit_xor a b ≡ bit_xor b a
bit_xor_comm a b = xor_swap (a + b) a b (omega arith) (omega arith)

pub bit_xor_assoc : (a b c : ℕ) → bit_xor (bit_xor a b) c ≡ bit_xor a (bit_xor b c)
bit_xor_assoc a b c = xor_regroup (a + b + c) a b c (omega arith) (omega arith) (omega arith)

pub bit_xor_cancel : (a b : ℕ) → bit_xor (bit_xor a b) b ≡ a
bit_xor_cancel a b = rw (bit_xor_assoc a b b, bit_xor_self b) (bit_xor_zero a)

pub bit_xor-injective : (a b c : ℕ) → bit_xor a c ≡ bit_xor b c → a ≡ b
bit_xor-injective a b c e =
    sym (bit_xor_cancel a c) ∙ ap (λ (t : ℕ). bit_xor t c) e ∙ bit_xor_cancel b c

xor_unit : (b : ℕ) → b < 1 → bit_xor 0 b ≡ 0
xor_unit zero h = refl
xor_unit (suc b) h = absurd (omega arith)

pub bit_xor-lt : (k a b : ℕ) → a < 2 ^ k → b < 2 ^ k → bit_xor a b < 2 ^ k
bit_xor-lt zero zero b p q = omega (arith, xor_unit b q)
bit_xor-lt zero (suc a) b p q = absurd (omega arith)
bit_xor-lt (suc k) a b p q = omega (
  arith,
  pow-suc 2 k,
  bit_xor_step a b,
  bit_xor-lt k (a / 2) (b / 2) (omega (arith, pow-suc 2 k)) (omega (arith, pow-suc 2 k)),
)

-- `^` works on each field of a word by itself.
pub bit_xor_fields :
    (k a b r s : ℕ)
    → r < 2 ^ k
    → s < 2 ^ k
    → bit_xor (a * 2 ^ k + r) (b * 2 ^ k + s) ≡ bit_xor a b * 2 ^ k + bit_xor r s
bit_xor_fields zero a b zero zero p q = ground (arith, bit_xor_zero 0)
bit_xor_fields zero a b (suc r) s p q = absurd (omega arith)
bit_xor_fields zero a b zero (suc s) p q = absurd (omega arith)
bit_xor_fields (suc k) a b r s p q = ground (
  arith,
  pow-suc 2 k,
  ap (λ (t : ℕ). a * t) (pow-suc 2 k),
  ap (λ (t : ℕ). b * t) (pow-suc 2 k),
  ap (λ (t : ℕ). bit_xor a b * t) (pow-suc 2 k),
  bit_xor_step (a * 2 ^ suc k + r) (b * 2 ^ suc k + s),
  bit_xor_step r s,
  bit_xor_fields k a b (r / 2) (s / 2) (omega (arith, pow-suc 2 k)) (omega (arith, pow-suc 2 k)),
)
