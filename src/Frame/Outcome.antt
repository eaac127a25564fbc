-- ===== src/Frame/Outcome.antt =====
-- `arc_frame_parse` of src/arc_protocol.c on any input, well formed or not.
use arc_protocol.Prelude.{◌-◌}
use arc_protocol.Memory.{load}
use arc_protocol.Prelude.{ℕ, ◌+◌, ◌≤◌, ◌<◌, ◌==◌, ◌≡◌, ◌⊎◌, inl, inr, arith, refl, sym, ap, ◌∙◌}
use arc_protocol.Prelude.{
  ◌∷◌, ◌++◌, length, some, false, Bool-cases, lt_or_le, ltb-false, ltb-true, ==_iff,
}
use mathlib.Core.Path.{subst₂}
use arc_protocol.Memory.{Bytes, done}
use arc_protocol.Crc.{crc_loop}
use arc_protocol.Protocol.{
  Frame, Error, ok, err, err_too_short, err_too_long, err_bad_length, err_bad_crc,
}
use arc_protocol.Frame.{join16, frame_parse}
use arc_protocol.Frame.Build.{parts}
use arc_protocol.Frame.Parse.{head, fields, verdict, frame_parse-parts}
use arc_protocol.Frame.Accept.{nine}

-- The parser returns; it fills in a frame, or reports an error and leaves the caller's.
abbrev pub IsOutcome : Bytes → ℕ → Frame → Type 0
IsOutcome buf len old =
    ((f : Frame) × (frame_parse (some buf) len (some old) ≡ done (ok tt, some f)))
    ⊎ ((e : Error) × (frame_parse (some buf) len (some old) ≡ done (err e, some old)))

short-IsOutcome : (buf : Bytes) (len : ℕ) (old : Frame) → len < 11 → IsOutcome buf len old
unfolding frame_parse
short-IsOutcome buf len old h = inr (err_too_short, rw (ltb-true len 11 h) refl)

long-IsOutcome : (buf : Bytes) (len : ℕ) (old : Frame) → 252 < len → IsOutcome buf len old
unfolding frame_parse
long-IsOutcome buf len old h =
    inr (err_too_long, rw (ltb-false len 11 (omega arith), ltb-true 252 len h) refl)

declared-IsOutcome :
    (b : ℕ) (bs : Bytes) (len : ℕ) (old : Frame)
    → 11 ≤ len
    → len ≤ 252
    → (b + 1 == len) ≡ false
    → IsOutcome (b ∷ bs) len old
unfolding frame_parse load
declared-IsOutcome b bs len old lo hi e =
    inr (err_bad_length, rw (ltb-false len 11 lo, ltb-false 252 len hi, e) refl)

verdict_outcome :
    (crc sent : ℕ) (new old : Frame)
    → ((f : Frame) × (verdict crc sent new old ≡ done (ok tt, some f)))
      ⊎ ((e : Error) × (verdict crc sent new old ≡ done (err e, some old)))
verdict_outcome crc sent new old = elim (Bool-cases (crc == sent)) [
  | inl e ↦ inl (new, rw e refl)
  | inr e ↦ inr (err_bad_crc, rw e refl)
]

module _ (len src dst flags session seq_hi seq_lo family type : ℕ) (payload : Bytes) (hi lo : ℕ)
    (rest : Bytes) (old : Frame) where
  abbrev start : Bytes
  start = head len src dst flags session seq_hi seq_lo family type payload

  parts-IsOutcome :
      length payload ≤ 241
      → IsOutcome (start ++ (payload ++ (hi ∷ lo ∷ rest))) (length payload + 11) old
  parts-IsOutcome fits = elim (Bool-cases (len + 1 == length payload + 11)) [
    | inr e ↦ declared-IsOutcome len _ (length payload + 11) old (omega arith) (omega arith) e
    | inl e ↦
        rw
          (frame_parse-parts len src dst flags session seq_hi seq_lo family type payload hi lo rest
            old fits ((==_iff (len + 1) (length payload + 11)).0 e))
          (verdict_outcome (crc_loop 0xffff (start ++ payload)) (join16 hi lo)
            (fields len src dst flags session seq_hi seq_lo family type payload) old)
  ]

-- On any bytes, with a length within the buffer, `arc_frame_parse` returns and reads nothing out
-- of range. It fills in a frame, or reports an error and leaves the caller's frame as it was.
pub frame_parse-returns :
    (buf : Bytes) (len : ℕ) (old : Frame) → len ≤ length buf → IsOutcome buf len old
frame_parse-returns buf len old room = elim (lt_or_le len 11) [
  | inl short ↦ short-IsOutcome buf len old short
  | inr lo ↦ elim (lt_or_le 252 len) [
    | inl long ↦ long-IsOutcome buf len old long
    | inr hi ↦
        let at = parts (len - 11) buf (omega arith) in
        let n = nine at.head at.head_length in
        let whole =
          at.whole ∙ ap (λ (m : Bytes). m ++ (at.old ++ (at.h ∷ at.l ∷ at.rest))) n.whole in
        let size_eq : len ≡ length at.old + 11 = omega (arith, at.old_length) in
        subst₂ (λ (m : Bytes) (k : ℕ). IsOutcome m k old) (sym whole) (sym size_eq)
          (parts-IsOutcome n.len n.src n.dst n.flags n.session n.seq_hi n.seq_lo n.family n.type
            at.old at.h at.l at.rest old (omega (arith, at.old_length)))
  ]
]
