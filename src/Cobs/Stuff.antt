-- ===== src/Cobs/Stuff.antt =====
-- The encoding as a function on byte strings, with no buffer: `stuff run xs` encodes `xs` behind
-- the bytes `run` of a run that is still open.
use arc_protocol.Prelude.{
  ap, Bool-cases, inl, inr, ◌<◌, ℕ, refl, zero, suc, ◌+◌, ◌*◌, ◌==◌, ◌≤◌, ◌<◌, ◌≡◌, arith,
  if◌then◌else◌, [], ◌∷◌, ◌++◌,
}
use arc_protocol.Prelude.{length, length-append}
use arc_protocol.Memory.{Bytes}

unfoldable pub stuff : Bytes → Bytes → Bytes
stuff run [] = suc (length run) ∷ run
stuff run (zero ∷ xs) = suc (length run) ∷ (run ++ stuff [] xs)
stuff run (suc x ∷ xs) =
    let closed = 0xff ∷ ((run ++ (suc x ∷ [])) ++ stuff [] xs) in
    let open_run = stuff (run ++ (suc x ∷ [])) xs in
    if length run + 2 == 0xff then closed else open_run

-- The code byte and the run take their place in the encoding, and nothing is lost.
pub length-stuff-le : (xs run : Bytes) → length run + length xs + 1 ≤ length (stuff run xs)
unfolding stuff
length-stuff-le [] run = omega arith
length-stuff-le (zero ∷ xs) run =
    omega (arith, length-append run (stuff [] xs), length-stuff-le xs [])
length-stuff-le (suc x ∷ xs) run = ground (
  arith,
  length-append (run ++ (suc x ∷ [])) (stuff [] xs),
  length-append run (suc x ∷ []),
  length-stuff-le xs [],
  length-stuff-le xs (run ++ (suc x ∷ [])),
)

-- One byte of overhead, and one more for each 254 bytes.
pub length-stuff-bound :
    (xs run : Bytes)
    → length run ≤ 253
    → 254 * length (stuff run xs) ≤ 255 * (length run + length xs) + 254
unfolding stuff
length-stuff-bound [] run h = omega arith
length-stuff-bound (zero ∷ xs) run h =
    omega (arith, length-append run (stuff [] xs), length-stuff-bound xs [] (omega arith))
length-stuff-bound (suc x ∷ xs) run h = ground (
  arith,
  length-append (run ++ (suc x ∷ [])) (stuff [] xs),
  length-append run (suc x ∷ []),
  length-stuff-bound xs [] (omega arith),
  length-stuff-bound xs (run ++ (suc x ∷ [])),
)

-- Fewer than 254 bytes cost exactly one byte.
pub length-stuff_short :
    (xs run : Bytes)
    → length run + length xs < 254
    → length (stuff run xs) ≡ length run + length xs + 1
length-stuff_short xs run h =
    omega (arith, length-stuff-le xs run, length-stuff-bound xs run (omega arith))

pub stuff-full :
    (x : ℕ) (xs run : Bytes)
    → length run ≡ 253
    → stuff run (suc x ∷ xs) ≡ 0xff ∷ ((run ++ (suc x ∷ [])) ++ stuff [] xs)
unfolding stuff
stuff-full x xs run e = ground arith

pub stuff-more :
    (x : ℕ) (xs run : Bytes)
    → length run < 253
    → stuff run (suc x ∷ xs) ≡ stuff (run ++ (suc x ∷ [])) xs
unfolding stuff
stuff-more x xs run h = ground arith

pub stuff-zero : (xs run : Bytes) → stuff run (zero ∷ xs) ≡ suc (length run) ∷ (run ++ stuff [] xs)
unfolding stuff
stuff-zero xs run = refl

pub stuff-nil : (run : Bytes) → stuff run [] ≡ suc (length run) ∷ run
unfolding stuff
stuff-nil run = refl

-- No byte is the delimiter.
abbrev pub IsNonzero : Bytes → Type 0
IsNonzero [] = Unit
IsNonzero (b ∷ bs) = (0 < b) × IsNonzero bs

IsNonzero-append : (xs ys : Bytes) → IsNonzero xs → IsNonzero ys → IsNonzero (xs ++ ys)
IsNonzero-append [] ys p q = q
IsNonzero-append (x ∷ xs) ys p q = (p.0, IsNonzero-append xs ys p.1 q)

stuff-suc-IsNonzero :
    (x : ℕ) (xs run : Bytes)
    → IsNonzero run
    → IsNonzero (stuff [] xs)
    → IsNonzero (stuff (run ++ (suc x ∷ [])) xs)
    → IsNonzero (stuff run (suc x ∷ xs))
unfolding stuff
stuff-suc-IsNonzero x xs run h closed open_run = elim (Bool-cases (length run + 2 == 0xff)) [
  | inl full ↦ rw full (
    omega arith,
    IsNonzero-append (run ++ (suc x ∷ [])) (stuff [] xs)
        (IsNonzero-append run (suc x ∷ []) h (omega arith, tt)) closed,
  )
  | inr below ↦ rw below open_run
]

pub stuff-IsNonzero : (xs run : Bytes) → IsNonzero run → IsNonzero (stuff run xs)
stuff-IsNonzero [] run h = rw (stuff-nil run) (omega arith, h)
stuff-IsNonzero (zero ∷ xs) run h =
    rw (stuff-zero xs run)
      (omega arith, IsNonzero-append run (stuff [] xs) h (stuff-IsNonzero xs [] tt))
stuff-IsNonzero (suc x ∷ xs) run h = stuff-suc-IsNonzero x xs run h (stuff-IsNonzero xs [] tt) (
    stuff-IsNonzero xs (run ++ (suc x ∷ []))
      (IsNonzero-append run (suc x ∷ []) h (omega arith, tt)))

-- A run that is filled up costs a second byte.
pub length-stuff_full :
    (xs run : Bytes)
    → IsNonzero xs
    → length run + length xs ≡ 254
    → 0 < length xs
    → length (stuff run xs) ≡ 256
length-stuff_full [] run h e p = absurd (omega arith)
length-stuff_full (zero ∷ xs) run h e p = absurd (omega arith)
length-stuff_full (suc x ∷ []) run h e p = omega (
  arith,
  ap (length {A = ℕ}) (stuff-full x [] run (omega arith)),
  length-append (run ++ (suc x ∷ [])) (stuff [] []),
  length-append run (suc x ∷ []),
  ap (length {A = ℕ}) (stuff-nil []),
)
length-stuff_full (suc x ∷ y ∷ xs) run h e p = omega (
  arith,
  ap (length {A = ℕ}) (stuff-more x (y ∷ xs) run (omega arith)),
  length-stuff_full (y ∷ xs) (run ++ (suc x ∷ [])) h.1
      (omega (arith, length-append run (suc x ∷ []))) (omega arith),
)
