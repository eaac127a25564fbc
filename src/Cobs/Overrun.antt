-- ===== src/Cobs/Overrun.antt =====
-- `arc_cobs_encode` of src/arc_protocol.c with an output that is too small: its check of
-- `out_capacity` counts two bytes more than the input.
use arc_protocol.Prelude.{
  ℕ, zero, suc, ◌+◌, ◌==◌, ◌≤◌, ◌<◌, ◌≡◌, refl, arith, [], ◌∷◌, ◌++◌, ◌⊎◌, inl, inr,
}
use arc_protocol.Prelude.{
  length, length-append, some, ap, ◌∙◌, lt_or_le, true, false, ltb-false, sym,
}
use arc_protocol.Memory.{Bytes, Ptr, Run, done, fault, ◌>>=◌, u8}
use arc_protocol.Memory.Laws.{write-cases, write-fault, read-append, >>=_assoc}
use arc_protocol.Protocol.{Result, ok}
use arc_protocol.Cobs.{Encoder, close_run, encode_step, encode_loop, encode_finish, cobs_encode}
use arc_protocol.Cobs.Stuff.{
  IsNonzero, length-stuff_full, stuff, stuff-nil, stuff-zero, stuff-more, stuff-full,
}

abbrev closed : Encoder → Bytes → Encoder
closed s b = record { buf = b; code_idx = s.out_idx; out_idx = s.out_idx + 1; code = 1 }

abbrev grown : Encoder → Bytes → Encoder
grown s b = record s { buf = b; out_idx = s.out_idx + 1; code = u8 (s.code + 1) }

-- Closing a run faults, or moves on in a buffer of the same length.
close_run-cases :
    (s : Encoder)
    → (close_run s ≡ fault)
      ⊎ ((b : Bytes) × (close_run s ≡ done (closed s b)) × (length b ≡ length s.buf))
unfolding close_run
close_run-cases s = elim (write-cases s.buf s.code_idx (s.code ∷ [])) [
  | inl e ↦ inl (rw e)
  | inr (b, e, l) ↦ inr (b, rw e, l)
]

-- A byte that is not zero is stored, and may close its run.
step-cases :
    (x : ℕ) (s : Encoder)
    → (encode_step (suc x) s ≡ fault)
      ⊎ ((b : Bytes) × (length b ≡ length s.buf)
          × ((u8 (s.code + 1) == 0xff) ≡ true → encode_step (suc x) s ≡ close_run (grown s b))
          × ((u8 (s.code + 1) == 0xff) ≡ false → encode_step (suc x) s ≡ done (grown s b)))
unfolding encode_step
step-cases x s = elim (write-cases s.buf s.out_idx (suc x ∷ [])) [
  | inl e ↦ inl (rw (not_zero, e))
  | inr (b, e, l) ↦ inr (b, l, (λ t. rw (not_zero, e, t)), (λ t. rw (not_zero, e, t)))
]
  where
    not_zero : (suc x == 0) ≡ false
    not_zero = ground arith

abbrev Overruns : Bytes → Encoder → Type 0
Overruns xs s = (encode_loop xs s >>= encode_finish) ≡ fault

-- The run that is closed, and the rest behind it.
Overruns-closed :
    (b : ℕ) (xs : Bytes) (s t : Encoder)
    → encode_step b s ≡ close_run t
    → ((c : Bytes) → length c ≡ length t.buf → Overruns xs (closed t c))
    → Overruns (b ∷ xs) s
unfolding encode_loop
Overruns-closed b xs s t step rest = elim (close_run-cases t) [
  | inl e ↦ rw (step, e)
  | inr (c, e, l) ↦ rw (step, e) (rest c l)
]

finish_overruns : (s : Encoder) → length s.buf < s.out_idx + 1 → encode_finish s ≡ fault
unfolding encode_finish
finish_overruns s h = elim (write-cases s.buf s.code_idx (s.code ∷ [])) [
  | inl e ↦ rw e
  | inr (b, e, l) ↦ rw (e, write-fault b s.out_idx (0 ∷ []) (omega arith))
]

Overruns-open :
    (b : ℕ) (xs : Bytes) (s t : Encoder)
    → encode_step b s ≡ done t
    → Overruns xs t
    → Overruns (b ∷ xs) s
unfolding encode_loop
Overruns-open b xs s t step rest = rw step rest

-- The loop and the last stores fault wherever the encoding and its delimiter do not fit.
encode_loop-Overruns :
    (xs run : Bytes) (s : Encoder)
    → s.code ≡ 1 + length run
    → length run ≤ 253
    → length s.buf + length run < s.out_idx + length (stuff run xs)
    → Overruns xs s
encode_loop-Overruns [] run s c h over =
    unfold encode_loop in finish_overruns s (omega (arith, ap (length {A = ℕ}) (stuff-nil run)))
encode_loop-Overruns (zero ∷ xs) run s c h over =
    Overruns-closed 0 xs s s (unfold encode_step in refl) (λ b l.
      encode_loop-Overruns xs [] (closed s b) (omega arith) (omega arith)
        (omega (arith, ap (length {A = ℕ}) (stuff-zero xs run), length-append run (stuff [] xs))))
encode_loop-Overruns (suc x ∷ xs) run s c h over = elim (step-cases x s) [
  | inl e ↦ (unfold encode_loop in rw e)
  | inr (b, l, full, open_run) ↦ elim (lt_or_le (length run) 253) [
    | inl below ↦ Overruns-open (suc x) xs s (grown s b) (open_run (below_limit below)) (
        encode_loop-Overruns xs (run ++ (suc x ∷ [])) (grown s b)
          (omega (arith, length-append run (suc x ∷ [])))
          (omega (arith, length-append run (suc x ∷ [])))
          (omega (
            arith,
            length-append run (suc x ∷ []),
            ap (length {A = ℕ}) (stuff-more x xs run below),
          )))
    | inr limit ↦ Overruns-closed (suc x) xs s (grown s b) (full (at_limit limit)) (λ d m.
        encode_loop-Overruns xs [] (closed (grown s b) d) (omega arith) (omega arith) (
          omega (
            arith,
            ap (length {A = ℕ}) (stuff-full x xs run (omega arith)),
            length-append (run ++ (suc x ∷ [])) (stuff [] xs),
            length-append run (suc x ∷ []),
          )))
  ]
]
  where
    below_limit : length run < 253 → (u8 (s.code + 1) == 0xff) ≡ false
    below_limit below = ground arith

    at_limit : 253 ≤ length run → (u8 (s.code + 1) == 0xff) ≡ true
    at_limit limit = ground arith

-- `arc_cobs_encode` writes outside its output whenever its checks pass but the encoding and the
-- delimiter do not fit.
pub cobs_encode_overruns :
    (xs extra out : Bytes) (capacity : ℕ)
    → length xs + 2 ≤ capacity
    → length out < length (stuff [] xs) + 1
    → cobs_encode (some (xs ++ extra)) (length xs) (some out) capacity ≡ fault
unfolding cobs_encode
cobs_encode_overruns xs extra out capacity c over = rw (
  ltb-false capacity (length xs + 2) c,
  read-append [] xs extra 0 (length xs) refl refl,
  ← >>=_assoc (encode_loop xs start) encode_finish result,
  encode_loop-Overruns xs [] start refl (omega arith) (omega arith),
)
  where
    start : Encoder
    start = record { buf = out; code_idx = 0; out_idx = 1; code = 1 }

    result : Bytes × ℕ → Run (Result ℕ × Ptr Bytes)
    result p = done (ok p.1, some p.0)

-- With 254 bytes, none of them zero, and an output of the size that the header calls enough
-- (two bytes more), `arc_cobs_encode` passes its own check and writes one byte past the output.
pub cobs_encode_254 :
    (xs extra out : Bytes)
    → length xs ≡ 254
    → IsNonzero xs
    → length out ≡ 256
    → cobs_encode (some (xs ++ extra)) 254 (some out) 256 ≡ fault
cobs_encode_254 xs extra out e h l =
    ap (λ (n : ℕ). cobs_encode (some (xs ++ extra)) n (some out) 256) (sym e)
    ∙ cobs_encode_overruns xs extra out 256 (omega arith)
        (omega (arith, length-stuff_full xs [] h (omega arith) (omega arith)))
