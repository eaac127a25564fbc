-- ===== src/Cobs/Safety.antt =====
-- `arc_cobs_decode` of src/arc_protocol.c on any input, well formed or not.
use arc_protocol.Prelude.{
  ℕ, zero, suc, ◌+◌, ◌-◌, ◌==◌, ◌≤◌, ◌<◌, ◌≡◌, refl, arith, [], ◌∷◌, ◌⊎◌, inl, inr,
}
use arc_protocol.Prelude.{length, some, lt_or_le, ltb, ltb-false, ltb-true, leb, not, ◌&&◌}
use arc_protocol.Prelude.{if◌then◌else◌, Bool-cases, take, drop, length-take_le, length-drop}
use arc_protocol.Memory.{Bytes, Run, done, ◌>>=◌, write}
use arc_protocol.Memory.Laws.{write-done, read-done, load-done}
use arc_protocol.Protocol.{Error, Result, ok, err, err_buffer, err_bad_cobs}
use arc_protocol.Cobs.{Progress, more, stop, decode_step, decode_loop, cobs_decode}

module _ (capacity size : ℕ) where
  -- The error is one of two, and the output is called too small only where it may be.
  abbrev IsDecodeError : ℕ → Error → Type 0
  IsDecodeError reach e = (e ≡ err_bad_cobs) ⊎ ((e ≡ err_buffer) × (capacity + 1 < reach))

  -- `reach` is the output index and the encoded bytes that are left.
  abbrev IsSafeStep : ℕ → ℕ → Progress → Type 0
  IsSafeStep reach left_before (stop e b) = (length b ≡ size) × IsDecodeError reach e
  IsSafeStep reach left_before (more left b out_idx) =
      (length b ≡ size)
      × (out_idx ≤ capacity)
      × (length left ≤ left_before)
      × (out_idx + length left ≤ reach)

  -- Behind the copy: the zero, if one is due.
  abbrev after_copy : ℕ → Bytes → ℕ → Bytes → Run Progress
  after_copy code left out_idx copied =
      if not (code == 0xff) && ltb 0 (length left)
      then (if leb capacity out_idx
          then done (stop err_buffer copied)
          else (write copied out_idx (0 ∷ []) >>= λ zeroed. done (more left zeroed (out_idx + 1))))
      else done (more left copied out_idx)

  after_copy-IsSafe :
      (code reach left_before : ℕ) (left copied : Bytes) (out_idx : ℕ)
      → capacity ≤ size
      → length copied ≡ size
      → out_idx ≤ capacity
      → length left ≤ left_before
      → out_idx + length left < reach
      → (p : Progress) × (after_copy code left out_idx copied ≡ done p)
        × IsSafeStep reach left_before p
  after_copy-IsSafe code reach left_before left copied out_idx c l o k r =
      elim (Bool-cases (not (code == 0xff) && ltb 0 (length left))) [
        | inr no_zero ↦ (more left copied out_idx, rw no_zero, (l, o, k, omega arith))
        | inl zero_due ↦ elim (Bool-cases (leb capacity out_idx)) [
          | inl small ↦ (
            stop err_buffer copied,
            rw (zero_due, small),
            (l, inr (refl, ground (arith, small, zero_due))),
          )
          | inr room ↦
              let in_range : out_idx < capacity = ground (arith, room) in
              let (zeroed, w, m) = write-done copied out_idx (0 ∷ []) (omega arith) in
              (
                more left zeroed (out_idx + 1),
                rw (zero_due, room, w),
                (omega arith, omega arith, k, omega arith),
              )
        ]
      ]

  decode_step-IsSafe :
      (code : ℕ) (rest buf : Bytes) (out_idx : ℕ)
      → capacity ≤ size
      → length buf ≡ size
      → (p : Progress) × (decode_step capacity code rest buf out_idx ≡ done p)
        × IsSafeStep (out_idx + suc (length rest)) (length rest) p
  unfolding decode_step
  decode_step-IsSafe code rest buf out_idx c l = elim (Bool-cases (code == 0)) [
    | inl e ↦ (stop err_bad_cobs buf, rw e, (l, inl refl))
    | inr e ↦ elim (Bool-cases (ltb (length rest) (code - 1))) [
      | inl f ↦ (stop err_bad_cobs buf, rw (e, f), (l, inl refl))
      | inr f ↦
          let short : code - 1 ≤ length rest = ground (arith, f) in
          elim (Bool-cases (ltb capacity (out_idx + (code - 1)))) [
            | inl g ↦ (stop err_buffer buf, rw (e, f, g), (l, inr (refl, ground (arith, g, e))))
            | inr g ↦
                let fits : out_idx + (code - 1) ≤ capacity = ground (arith, g) in
                let (copied, w, m) =
                  write-done buf out_idx (take (code - 1) rest)
                    (omega (arith, length-take_le (code - 1) rest short)) in
                let (p, q, safe) =
                  after_copy-IsSafe code (out_idx + suc (length rest)) (length rest)
                    (drop (code - 1) rest) copied (out_idx + (code - 1)) c (omega arith) fits
                    (omega (arith, length-drop (code - 1) rest))
                    (omega (arith, length-drop (code - 1) rest)) in
                (p, rw (e, f, g, read-done rest (code - 1) short, w) q, safe)
          ]
    ]
  ]

  -- What a call gives back: a result, and the output buffer at its old length.
  abbrev Returned : Type 0
  Returned = Result ℕ × Bytes

  abbrev IsSafeResult : ℕ → Result ℕ → Type 0
  IsSafeResult reach (ok n) = (n ≤ capacity) × (n ≤ reach)
  IsSafeResult reach (err e) = IsDecodeError reach e

  IsDecodeError-mono : (r q : ℕ) (e : Error) → r ≤ q → IsDecodeError r e → IsDecodeError q e
  IsDecodeError-mono r q e h (inl p) = inl p
  IsDecodeError-mono r q e h (inr (p, g)) = inr (p, omega arith)

  IsSafeResult-mono : (r q : ℕ) (x : Result ℕ) → r ≤ q → IsSafeResult r x → IsSafeResult q x
  IsSafeResult-mono r q (ok n) h s = (s.0, omega arith)
  IsSafeResult-mono r q (err e) h s = IsDecodeError-mono r q e h s

  abbrev LoopReturns : ℕ → Bytes → Bytes → ℕ → Type 0
  LoopReturns fuel rest buf out_idx =
      (r : Result ℕ) × (b : Bytes) × (decode_loop capacity fuel rest buf out_idx ≡ done (r, some b))
      × (length b ≡ size)
      × IsSafeResult (out_idx + length rest) r

  loop-stopped :
      (fuel code : ℕ) (rest buf : Bytes) (out_idx : ℕ) (e : Error) (b : Bytes)
      → decode_step capacity code rest buf out_idx ≡ done (stop e b)
      → IsSafeStep (out_idx + suc (length rest)) (length rest) (stop e b)
      → LoopReturns (suc fuel) (code ∷ rest) buf out_idx
  unfolding decode_loop
  loop-stopped fuel code rest buf out_idx e b step (l, d) = (err e, b, rw step, l, d)

  loop-more :
      (fuel code : ℕ) (rest buf : Bytes) (out_idx : ℕ) (left b : Bytes) (next : ℕ)
      → decode_step capacity code rest buf out_idx ≡ done (more left b next)
      → next + length left ≤ out_idx + suc (length rest)
      → LoopReturns fuel left b next
      → LoopReturns (suc fuel) (code ∷ rest) buf out_idx
  unfolding decode_loop
  loop-more fuel code rest buf out_idx left b next step h (r, out, e, l, s) = (
    r,
    out,
    rw step e,
    l,
    IsSafeResult-mono (next + length left) (out_idx + suc (length rest)) r h s,
  )

  -- With fuel above the bytes left the loop ends, and never leaves its buffers.
  decode_loop-returns :
      (fuel : ℕ) (rest buf : Bytes) (out_idx : ℕ)
      → capacity ≤ size
      → length buf ≡ size
      → out_idx ≤ capacity
      → length rest < fuel
      → LoopReturns fuel rest buf out_idx
  decode_loop-returns zero rest buf out_idx c l o f = absurd (omega arith)
  decode_loop-returns (suc fuel) [] buf out_idx c l o f =
      (ok out_idx, buf, unfold decode_loop in refl, l, (o, omega arith))
  decode_loop-returns (suc fuel) (code ∷ rest) buf out_idx c l o f =
      next (decode_step-IsSafe code rest buf out_idx c l)
        (λ left b i. decode_loop-returns fuel left b i c)
    where
      next :
          ((p : Progress) × (decode_step capacity code rest buf out_idx ≡ done p)
            × IsSafeStep (out_idx + suc (length rest)) (length rest) p)
          → ((left b : Bytes) (i : ℕ)
              → length b ≡ size
              → i ≤ capacity
              → length left < fuel
              → LoopReturns fuel left b i)
          → LoopReturns (suc fuel) (code ∷ rest) buf out_idx
      next (stop e b, step, safe) again = loop-stopped fuel code rest buf out_idx e b step safe
      next (more left b i, step, safe) again =
          loop-more fuel code rest buf out_idx left b i step safe.3
            (again left b i safe.0 safe.1 (omega arith))

-- A success is a length within the capacity; the error is `ARC_ERR_BAD_COBS` or
-- `ARC_ERR_BUFFER`, the second only with a capacity below `len - 2`.
abbrev pub IsBounded : ℕ → ℕ → Result ℕ → Type 0
IsBounded capacity len (ok n) = n ≤ capacity
IsBounded capacity len (err e) = (e ≡ err_bad_cobs) ⊎ ((e ≡ err_buffer) × (capacity + 2 < len))

IsBounded-of_safe :
    (capacity size len reach : ℕ) (r : Result ℕ)
    → reach + 1 ≤ len
    → IsSafeResult capacity size reach r
    → IsBounded capacity len r
IsBounded-of_safe capacity size len reach (ok n) h s = s.0
IsBounded-of_safe capacity size len reach (err e) h (inl p) = inl p
IsBounded-of_safe capacity size len reach (err e) h (inr (p, q)) = inr (p, omega arith)

-- On any input and any output at least as long as its capacity, `arc_cobs_decode` returns, reads
-- and writes nothing out of range, and keeps the output's length. A success gives a length within
-- the capacity; the error is `ARC_ERR_BAD_COBS` or `ARC_ERR_BUFFER`, and the second does not come
-- with the capacity that the header asks for, two bytes less than the input.
pub cobs_decode-returns :
    (input out : Bytes) (len capacity : ℕ)
    → len ≤ length input
    → capacity ≤ length out
    → (r : Result ℕ) × (b : Bytes) × (cobs_decode (some input) len (some out) capacity
        ≡ done (r, some b))
      × (length b ≡ length out)
      × IsBounded capacity len r
unfolding cobs_decode
cobs_decode-returns input out len capacity h c = elim (lt_or_le len 2) [
  | inl short ↦ (err err_bad_cobs, out, rw (ltb-true len 2 short), refl, inl refl)
  | inr long ↦
      let (last, at_end) = load-done input (len - 1) (omega arith) in
      let encoded = read-done input (len - 1) (omega arith) in
      elim (Bool-cases (last == 0)) [
        | inr e ↦
            (err err_bad_cobs, out, rw (ltb-false len 2 long, at_end, encoded, e), refl, inl refl)
        | inl e ↦
            let (r, b, run, l, safe) =
              decode_loop-returns capacity (length out) len (take (len - 1) input) out 0 c refl
                (omega arith) (omega (arith, length-take_le (len - 1) input (omega arith))) in
            (
              r,
              b,
              rw (ltb-false len 2 long, at_end, encoded, e) run,
              l,
              IsBounded-of_safe capacity (length out) len (0 + length (take (len - 1) input)) r
                  (omega (arith, length-take_le (len - 1) input (omega arith))) safe,
            )
      ]
]
