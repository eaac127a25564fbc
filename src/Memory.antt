-- ===== src/Memory.antt =====
-- The C memory that the library's functions touch: byte buffers that the caller owns, read and
-- written by index, and pointer arguments that may be NULL. An access outside a buffer is `fault`,
-- which C leaves undefined, so a theorem with `done` on its right side says that there is none.
pub mod Laws
use arc_protocol.Prelude.{ℕ, ◌+◌, ◌≤◌, ◌<◌, leb, if◌then◌else◌, length, take, drop, get_elem?}
use arc_protocol.Prelude.{Bool, true, false, Option, none, some, List, [], ◌∷◌, ◌++◌}
use Prim.Native.Nat.{◌%◌, ◌^◌}

abbrev pub Bytes : Type 0
Bytes = List ℕ

-- Every element is a `uint8_t`.
abbrev pub IsBytes : Bytes → Type 0
IsBytes [] = Unit
IsBytes (b ∷ bs) = (b < 256) × IsBytes bs

-- Casts to the fixed widths.
abbrev pub u8 : ℕ → ℕ
u8 n = n % 2 ^ 8

abbrev pub u16 : ℕ → ℕ
u16 n = n % 2 ^ 16

abbrev pub u32 : ℕ → ℕ
u32 n = n % 2 ^ 32

pub data Run {ℓ} (A : Type ℓ) : Type ℓ where
  done : A → Run A
  fault : Run A

infixl 5 ◌>>=◌ ◌>>◌
abbrev pub ◌>>=◌ {ℓ κ} : {A : Type ℓ} {B : Type κ} → Run A → (A → Run B) → Run B
done a >>= k = k a
fault >>= k = fault

abbrev pub ◌>>◌ {ℓ κ} : {A : Type ℓ} {B : Type κ} → Run A → Run B → Run B
m >> k = m >>= λ _. k

-- A pointer argument: `none` is NULL, `some a` points to `a`.
abbrev pub Ptr {ℓ} : Type ℓ → Type ℓ
Ptr A = Option A

abbrev pub is_null {ℓ} : {A : Type ℓ} → Ptr A → Bool
is_null none = true
is_null (some a) = false

abbrev pub deref {ℓ} : {A : Type ℓ} → Ptr A → Run A
deref none = fault
deref (some a) = done a

-- `buf[i]`
unfoldable pub load : Bytes → ℕ → Run ℕ
load buf i = deref (get_elem? buf i)

-- The bytes `buf[i .. i + n)`, as `memcpy` reads them.
unfoldable pub read : Bytes → ℕ → ℕ → Run Bytes
read buf i n = if leb (i + n) (length buf) then done (take n (drop i buf)) else fault

-- Stores to `buf[i]`, `buf[i + 1]` and so on, in this order, or a `memcpy` to `buf + i`.
unfoldable pub write : Bytes → ℕ → Bytes → Run Bytes
write buf i bs =
    if leb (i + length bs) (length buf)
    then done (take i buf ++ (bs ++ drop (i + length bs) buf))
    else fault
