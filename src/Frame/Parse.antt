-- ===== src/Frame/Parse.antt =====
-- `arc_frame_parse` of src/arc_protocol.c, check by check, on a header, a payload and two bytes.
use arc_protocol.Prelude.{ℕ, ◌+◌, ◌-◌, ◌*◌, ◌/◌, ◌%◌, ◌^◌, ◌≤◌, ◌<◌, ◌≡◌, refl, arith, [], ◌∷◌}
use arc_protocol.Prelude.{length, none, some, ap, sym, ◌∙◌, append_assoc, length-append, ◌++◌}
use arc_protocol.Prelude.{ltb, ltb-true, ltb-false, ◌==◌}
use arc_protocol.Prelude.{==_refl, if◌then◌else◌}
use arc_protocol.Prelude.Bits.{bit_or_byte}
use arc_protocol.Memory.{Bytes, Ptr, Run, done, ◌>>=◌, read, load, u8}
use arc_protocol.Memory.Laws.{read-append, load-append}
use arc_protocol.Crc.{crc_loop}
use arc_protocol.Protocol.{Frame, Result, ok, err, err_bad_crc}
use arc_protocol.Frame.{join16, frame_fields, frame_check, frame_parse}
use arc_protocol.Frame.Wire.{payload_ptr}
use arc_protocol.Frame.Build.{crc16-append}

pub join16-lem : (hi lo : ℕ) → hi < 256 → lo < 256 → join16 hi lo ≡ hi * 256 + lo
join16-lem hi lo p q = omega (arith, bit_or_byte hi lo q)

pub join16_split : (v : ℕ) → v < 2 ^ 16 → join16 (v / 256) (v % 256) ≡ v
join16_split v h = omega (arith, join16-lem (v / 256) (v % 256) (omega arith) (omega arith))

-- The payload that the check and the fields read behind a nine-byte header.
payload_read :
    (head payload rest : Bytes)
    → length head ≡ 9
    → (if ltb 0 (length payload)
        then (read (head ++ (payload ++ rest)) 9 (length payload) >>= λ p. done (some p))
        else done none)
      ≡ done (payload_ptr payload)
payload_read head [] rest e = refl
payload_read head (b ∷ bs) rest e = rw (
  ltb-true 0 (length (b ∷ bs)) (omega arith),
  read-append head (b ∷ bs) rest 9 (length (b ∷ bs)) (sym e) refl,
)

-- What the comparison of the computed and the sent CRC leads to.
abbrev pub verdict : ℕ → ℕ → Frame → Frame → Run (Result (Unit {0}) × Ptr Frame)
verdict crc sent new old =
    if crc == sent then done (ok tt, some new) else done (err err_bad_crc, some old)

load_second :
    (bytes : Bytes) (h l : ℕ) (rest : Bytes) (n : ℕ)
    → n ≡ length bytes
    → load (bytes ++ (h ∷ l ∷ rest)) (n + 1) ≡ done l
load_second bytes h l rest n e =
    ap (λ (m : Bytes). load m (n + 1)) (sym (append_assoc bytes (h ∷ []) (l ∷ rest)))
    ∙ load-append (bytes ++ (h ∷ [])) l rest (n + 1) (omega (arith, length-append bytes (h ∷ [])))

-- What the parser makes of a header, a payload and two bytes behind it, whatever they are.
module _ (len src dst flags session seq_hi seq_lo family type : ℕ) (payload : Bytes) where
  abbrev pub head : Bytes
  head = len ∷ src ∷ dst ∷ flags ∷ session ∷ seq_hi ∷ seq_lo ∷ family ∷ type ∷ []

  abbrev pub fields : Frame
  fields = record {
    src = src;
    dst = dst;
    flags = flags;
    session = session;
    seq = join16 seq_hi seq_lo;
    family = family;
    type = type;
    payload = payload_ptr payload;
    payload_len = u8 (length payload);
  }

  frame_fields-parts :
      (rest : Bytes) → frame_fields (head ++ (payload ++ rest)) (length payload) ≡ done fields
  unfolding frame_fields load
  frame_fields-parts rest = rw (payload_read head payload rest refl)

  pub frame_check-parts :
      (hi lo : ℕ) (rest : Bytes) (old : Frame)
      → frame_check (head ++ (payload ++ (hi ∷ lo ∷ rest))) (length payload) old
        ≡ verdict (crc_loop 0xffff (head ++ payload)) (join16 hi lo) fields old
  unfolding frame_check
  frame_check-parts hi lo rest old = rw (
    crc16-append (head ++ payload) (hi ∷ lo ∷ rest) (9 + length payload) (omega arith),
    load-append (head ++ payload) hi (lo ∷ rest) (9 + length payload) (omega arith),
    load_second (head ++ payload) hi lo rest (9 + length payload) (omega arith),
    frame_fields-parts (hi ∷ lo ∷ rest),
  )

  -- Past the length checks, the whole parser.
  pub frame_parse-parts :
      (hi lo : ℕ) (rest : Bytes) (old : Frame)
      → length payload ≤ 241
      → len + 1 ≡ length payload + 11
      → frame_parse (some (head ++ (payload ++ (hi ∷ lo ∷ rest)))) (length payload + 11) (some old)
        ≡ verdict (crc_loop 0xffff (head ++ payload)) (join16 hi lo) fields old
  unfolding frame_parse load
  frame_parse-parts hi lo rest old fits e =
      rw
        (
          ltb-false (length payload + 11) 11 (omega arith),
          ltb-false 252 (length payload + 11) (omega arith),
          e,
          ==_refl (length payload + 11),
          back,
          ltb-false 241 (length payload) fits,
        )
        (frame_check-parts hi lo rest old)
    where
      back : length payload + 11 - 11 ≡ length payload
      back = omega arith
