-- ===== src/Cobs/Encode.antt =====
-- `arc_cobs_encode` of src/arc_protocol.c, round by round, beside `stuff`.
use arc_protocol.Prelude.{
  ℕ, zero, suc, ◌+◌, ◌==◌, ◌≤◌, ◌<◌, ◌≡◌, refl, arith, if◌then◌else◌, [], ◌∷◌, ◌++◌,
}
use arc_protocol.Prelude.{length, length-append, append_assoc, inl, inr, ap, sym, ◌∙◌}
use arc_protocol.Prelude.{some, false, true, ltb-false, lt_or_le}
use arc_protocol.Memory.{Bytes, Ptr, Run, done, ◌>>=◌, write, u8}
use arc_protocol.Memory.Laws.{write-append, read-append, >>=_assoc}
use arc_protocol.Protocol.{Result, ok}
use arc_protocol.Cobs.{Encoder, close_run, encode_step, encode_loop, encode_finish, cobs_encode}
use arc_protocol.Cobs.Stuff.{stuff, stuff-zero, stuff-more, stuff-full, length-stuff-le}

-- The encoder with `pre` finished, a hole for the next code, an open run, and unused room.
abbrev encoder : Bytes → ℕ → Bytes → Bytes → Encoder
encoder pre hole run room = record {
  buf = pre ++ (hole ∷ (run ++ room));
  code_idx = length pre;
  out_idx = length pre + 1 + length run;
  code = 1 + length run;
}

encoder_eq :
    {b b' : Bytes} {i i' o o' c c' : ℕ}
    → b ≡ b'
    → i ≡ i'
    → o ≡ o'
    → c ≡ c'
    → ◌≡◌ {A = Encoder}
        (record { buf = b; code_idx = i; out_idx = o; code = c })
        (record { buf = b'; code_idx = i'; out_idx = o'; code = c' })
encoder_eq p q r s = λ i. record { buf = p i; code_idx = q i; out_idx = r i; code = s i }

-- A store behind the open run.
write_room :
    (pre : Bytes) (hole : ℕ) (run : Bytes) (y x : ℕ) (room : Bytes)
    → write (pre ++ (hole ∷ (run ++ (y ∷ room)))) (length pre + 1 + length run) (x ∷ [])
      ≡ done (pre ++ (hole ∷ (run ++ (x ∷ room))))
write_room pre hole run y x room =
    ap (λ (m : Bytes). write m (length pre + 1 + length run) (x ∷ []))
      (sym (append_assoc pre (hole ∷ run) (y ∷ room)))
    ∙ write-append (pre ++ (hole ∷ run)) (y ∷ []) room (x ∷ []) (length pre + 1 + length run)
        (omega (arith, length-append pre (hole ∷ run))) refl
    ∙ ap done (append_assoc pre (hole ∷ run) (x ∷ room))

-- Closing a run of any code fills the hole, and the next byte of room becomes the hole.
close_run_lem :
    (pre : Bytes) (hole : ℕ) (run : Bytes) (y : ℕ) (room : Bytes) (code : ℕ)
    → close_run (record {
      buf = pre ++ (hole ∷ (run ++ (y ∷ room)));
      code_idx = length pre;
      out_idx = length pre + 1 + length run;
      code = code;
    })
      ≡ done (encoder (pre ++ (code ∷ run)) y [] room)
unfolding close_run
close_run_lem pre hole run y room code =
    rw (write-append pre (hole ∷ []) (run ++ (y ∷ room)) (code ∷ []) (length pre) refl refl) (
      ap done (
        encoder_eq (sym (append_assoc pre (code ∷ run) (y ∷ room)))
          (omega (arith, length-append pre (code ∷ run)))
          (omega (arith, length-append pre (code ∷ run))) refl))

step-zero :
    (pre : Bytes) (hole : ℕ) (run : Bytes) (y : ℕ) (room : Bytes)
    → encode_step 0 (encoder pre hole run (y ∷ room))
      ≡ done (encoder (pre ++ (suc (length run) ∷ run)) y [] room)
unfolding encode_step
step-zero pre hole run y room =
    ap
      (λ (c : ℕ). close_run (record {
        buf = pre ++ (hole ∷ (run ++ (y ∷ room)));
        code_idx = length pre;
        out_idx = length pre + 1 + length run;
        code = c;
      }))
      (omega arith)
    ∙ close_run_lem pre hole run y room (suc (length run))

-- The encoder after a byte that is not zero has been copied.
copied : Bytes → ℕ → Bytes → ℕ → Bytes → Encoder
copied pre hole run x room = record {
  buf = pre ++ (hole ∷ (run ++ (x ∷ room)));
  code_idx = length pre;
  out_idx = length pre + 1 + length run + 1;
  code = u8 (1 + length run + 1);
}

copied-eq :
    (pre : Bytes) (hole : ℕ) (run : Bytes) (x : ℕ) (room : Bytes)
    → length run ≤ 253
    → copied pre hole run x room ≡ encoder pre hole (run ++ (x ∷ [])) room
unfolding copied
copied-eq pre hole run x room h =
    encoder_eq (ap (λ (m : Bytes). pre ++ (hole ∷ m)) (sym (append_assoc run (x ∷ []) room))) refl
      (omega (arith, length-append run (x ∷ []))) (omega (arith, length-append run (x ∷ [])))

suc-ne-zero : (x : ℕ) → (suc x == 0) ≡ false
suc-ne-zero x = ground arith

step-copied :
    (pre : Bytes) (hole : ℕ) (run : Bytes) (y x : ℕ) (room : Bytes)
    → encode_step (suc x) (encoder pre hole run (y ∷ room)) ≡ (
        if u8 (1 + length run + 1) == 0xff
        then close_run (copied pre hole run (suc x) room)
        else done (copied pre hole run (suc x) room))
unfolding encode_step copied
step-copied pre hole run y x room = rw (suc-ne-zero x, write_room pre hole run y (suc x) room)

step-more :
    (pre : Bytes) (hole : ℕ) (run : Bytes) (y x : ℕ) (room : Bytes)
    → length run < 253
    → encode_step (suc x) (encoder pre hole run (y ∷ room))
      ≡ done (encoder pre hole (run ++ (suc x ∷ [])) room)
step-more pre hole run y x room h =
    step-copied pre hole run y x room
    ∙ rw below (ap done (copied-eq pre hole run (suc x) room (omega arith)))
  where
    below : (u8 (1 + length run + 1) == 0xff) ≡ false
    below = ground arith

step-full :
    (pre : Bytes) (hole : ℕ) (run : Bytes) (y z x : ℕ) (room : Bytes)
    → length run ≡ 253
    → encode_step (suc x) (encoder pre hole run (y ∷ z ∷ room))
      ≡ done (encoder (pre ++ (0xff ∷ (run ++ (suc x ∷ [])))) z [] room)
step-full pre hole run y z x room h =
    step-copied pre hole run y x (z ∷ room)
    ∙ closes
    ∙ ap
        (λ (c : ℕ). close_run (record {
          buf = pre ++ (hole ∷ ((run ++ (suc x ∷ [])) ++ (z ∷ room)));
          code_idx = length pre;
          out_idx = length pre + 1 + length (run ++ (suc x ∷ []));
          code = c;
        }))
        (omega (arith, length-append run (suc x ∷ [])))
    ∙ close_run_lem pre hole (run ++ (suc x ∷ [])) z room 0xff
  where
    at_limit : (u8 (1 + length run + 1) == 0xff) ≡ true
    at_limit = ground arith

    closes :
        (if u8 (1 + length run + 1) == 0xff
          then close_run (copied pre hole run (suc x) (z ∷ room))
          else done (copied pre hole run (suc x) (z ∷ room)))
        ≡ close_run (encoder pre hole (run ++ (suc x ∷ [])) (z ∷ room))
    closes = rw at_limit (ap close_run (copied-eq pre hole run (suc x) (z ∷ room) (omega arith)))

finish_lem :
    (pre : Bytes) (hole : ℕ) (run : Bytes) (y : ℕ) (room : Bytes)
    → encode_finish (encoder pre hole run (y ∷ room))
      ≡ done (pre ++ (suc (length run) ∷ (run ++ (0 ∷ room))), length pre + 1 + length run + 1)
unfolding encode_finish
finish_lem pre hole run y room =
    rw
      (
        write-append pre (hole ∷ []) (run ++ (y ∷ room)) ((1 + length run) ∷ []) (length pre) refl
            refl,
        write_room pre (1 + length run) run y 0 room,
      )
      (ap (λ (c : ℕ). done (pre ++ (c ∷ (run ++ (0 ∷ room))), length pre + 1 + length run + 1))
        (omega arith))

-- The room left behind the encoding; nothing is said of its bytes.
abbrev Encodes : Bytes → ℕ → Bytes → Bytes → Bytes → Type 0
Encodes pre hole run room xs =
    (tail : Bytes) × ((encode_loop xs (encoder pre hole run room) >>= encode_finish)
      ≡ done (pre ++ (stuff run xs ++ (0 ∷ tail)), length pre + length (stuff run xs) + 1))
    × (length tail + length (stuff run xs) ≡ length run + length room)

-- A round that closes a run, whatever its code, and the rest of the input behind it.
Encodes-closed :
    (pre : Bytes) (hole : ℕ) (run room : Bytes) (b : ℕ) (xs : Bytes) (c : ℕ) (run' : Bytes) (y : ℕ)
    (room' : Bytes)
    → encode_step b (encoder pre hole run room) ≡ done (encoder (pre ++ (c ∷ run')) y [] room')
    → stuff run (b ∷ xs) ≡ c ∷ (run' ++ stuff [] xs)
    → length run + length room ≡ length run' + 1 + length room'
    → Encodes (pre ++ (c ∷ run')) y [] room' xs
    → Encodes pre hole run room (b ∷ xs)
unfolding encode_loop
Encodes-closed pre hole run room b xs c run' y room' step shape sizes (tail, written, left) = (
  tail,
  ap (λ (r : Run Encoder). (r >>= encode_loop xs) >>= encode_finish) step ∙ written ∙ regroup,
  rw shape (omega (arith, length-append run' (stuff [] xs))),
)
  where
    bytes :
        (pre ++ (c ∷ run')) ++ (stuff [] xs ++ (0 ∷ tail))
        ≡ pre ++ (stuff run (b ∷ xs) ++ (0 ∷ tail))
    bytes =
        rw (shape, append_assoc run' (stuff [] xs) (0 ∷ tail))
          (append_assoc pre (c ∷ run') (stuff [] xs ++ (0 ∷ tail)))

    index :
        length (pre ++ (c ∷ run')) + length (stuff [] xs) + 1
        ≡ length pre + length (stuff run (b ∷ xs)) + 1
    index = rw shape (omega (arith, length-append pre (c ∷ run'), length-append run' (stuff [] xs)))

    regroup :
        ◌≡◌ {A = Run (Bytes × ℕ)}
          (done (
            (pre ++ (c ∷ run')) ++ (stuff [] xs ++ (0 ∷ tail)),
            length (pre ++ (c ∷ run')) + length (stuff [] xs) + 1,
          ))
          (done (
            pre ++ (stuff run (b ∷ xs) ++ (0 ∷ tail)),
            length pre + length (stuff run (b ∷ xs)) + 1,
          ))
    regroup = λ i. done (bytes i, index i)

-- A round that leaves the run open.
Encodes-open :
    (pre : Bytes) (hole : ℕ) (run room : Bytes) (b : ℕ) (xs run' room' : Bytes)
    → encode_step b (encoder pre hole run room) ≡ done (encoder pre hole run' room')
    → stuff run (b ∷ xs) ≡ stuff run' xs
    → length run + length room ≡ length run' + length room'
    → Encodes pre hole run' room' xs
    → Encodes pre hole run room (b ∷ xs)
unfolding encode_loop
Encodes-open pre hole run room b xs run' room' step shape sizes (tail, written, left) = (
  tail,
  ap (λ (r : Run Encoder). (r >>= encode_loop xs) >>= encode_finish) step
      ∙ written
      ∙ ap (λ (bs : Bytes). done (pre ++ (bs ++ (0 ∷ tail)), length pre + length bs + 1))
          (sym shape),
  rw shape (omega arith),
)

-- The round that fills a run up; `rest_encodes` is the statement for the rest of the input.
Encodes-full :
    (pre : Bytes) (hole : ℕ) (run : Bytes) (y : ℕ) (room : Bytes) (x : ℕ) (xs : Bytes)
    → length run ≡ 253
    → length (stuff run (suc x ∷ xs)) ≤ length run + length (y ∷ room)
    → ((pre' : Bytes) (hole' : ℕ) (room' : Bytes)
        → length (stuff [] xs) ≤ length room'
        → Encodes pre' hole' [] room' xs)
    → Encodes pre hole run (y ∷ room) (suc x ∷ xs)
Encodes-full pre hole run y [] x xs e fits rest_encodes = absurd (
    omega (
      arith,
      ap (length {A = ℕ}) (stuff-full x xs run e),
      length-stuff-le xs [],
      length-append (run ++ (suc x ∷ [])) (stuff [] xs),
      length-append run (suc x ∷ []),
    ))
Encodes-full pre hole run y (z ∷ room) x xs e fits rest_encodes =
    Encodes-closed pre hole run (y ∷ z ∷ room) (suc x) xs 0xff (run ++ (suc x ∷ [])) z room
      (step-full pre hole run y z x room e) (stuff-full x xs run e)
      (omega (arith, length-append run (suc x ∷ [])))
      (rest_encodes (pre ++ (0xff ∷ (run ++ (suc x ∷ [])))) z room (
        omega (
          arith,
          ap (length {A = ℕ}) (stuff-full x xs run e),
          length-append (run ++ (suc x ∷ [])) (stuff [] xs),
          length-append run (suc x ∷ []),
        )))

-- The loop and the last two stores write the encoding and the delimiter.
encode_loop-Encodes :
    (xs pre : Bytes) (hole : ℕ) (run room : Bytes)
    → length run ≤ 253
    → length (stuff run xs) ≤ length run + length room
    → Encodes pre hole run room xs
encode_loop-Encodes [] pre hole run [] h fits = absurd (unfold stuff in omega arith)
encode_loop-Encodes [] pre hole run (y ∷ room) h fits = (
  room,
  unfold encode_loop stuff in
      finish_lem pre hole run y room
      ∙ ap (λ (k : ℕ). done (pre ++ (suc (length run) ∷ (run ++ (0 ∷ room))), k)) (omega arith),
  unfold stuff in omega arith,
)
encode_loop-Encodes (zero ∷ xs) pre hole run [] h fits =
    absurd (omega (arith, length-stuff-le (zero ∷ xs) run))
encode_loop-Encodes (zero ∷ xs) pre hole run (y ∷ room) h fits =
    Encodes-closed pre hole run (y ∷ room) 0 xs (suc (length run)) run y room
      (step-zero pre hole run y room) (stuff-zero xs run) (omega arith)
      (encode_loop-Encodes xs (pre ++ (suc (length run) ∷ run)) y [] room (omega arith)
        (omega (arith, ap (length {A = ℕ}) (stuff-zero xs run), length-append run (stuff [] xs))))
encode_loop-Encodes (suc x ∷ xs) pre hole run [] h fits =
    absurd (omega (arith, length-stuff-le (suc x ∷ xs) run))
encode_loop-Encodes (suc x ∷ xs) pre hole run (y ∷ room) h fits = elim (lt_or_le (length run) 253) [
  | inl below ↦
      Encodes-open pre hole run (y ∷ room) (suc x) xs (run ++ (suc x ∷ [])) room
        (step-more pre hole run y x room below) (stuff-more x xs run below)
        (omega (arith, length-append run (suc x ∷ [])))
        (encode_loop-Encodes xs pre hole (run ++ (suc x ∷ [])) room
          (omega (arith, length-append run (suc x ∷ [])))
          (omega (
            arith,
            ap (length {A = ℕ}) (stuff-more x xs run below),
            length-append run (suc x ∷ []),
          )))
  | inr limit ↦
      Encodes-full pre hole run y room x xs (omega arith) fits (λ pre' hole' room' room_fits.
        encode_loop-Encodes xs pre' hole' [] room' (omega arith) (omega arith))
]

result : Bytes × ℕ → Run (Result ℕ × Ptr Bytes)
result p = done (ok p.1, some p.0)

-- `arc_cobs_encode` with its checks passed and an output that holds the encoding.
pub cobs_encode-stuff :
    (xs extra out : Bytes) (capacity : ℕ)
    → length xs + 2 ≤ capacity
    → length (stuff [] xs) + 1 ≤ length out
    → (tail : Bytes) × (cobs_encode (some (xs ++ extra)) (length xs) (some out) capacity
        ≡ done (ok (length (stuff [] xs) + 1), some (stuff [] xs ++ (0 ∷ tail))))
      × (length tail + length (stuff [] xs) + 1 ≡ length out)
unfolding cobs_encode result
cobs_encode-stuff xs extra [] capacity room fits = absurd (omega arith)
cobs_encode-stuff xs extra (y ∷ out) capacity room fits =
    let (tail, written, left) = encode_loop-Encodes xs [] y [] out (omega arith) (omega arith) in
    (
      tail,
      rw
          (
            ltb-false capacity (length xs + 2) room,
            read-append [] xs extra 0 (length xs) refl refl,
            ← >>=_assoc (encode_loop xs (encoder [] y [] out)) encode_finish result,
            written,
          )
          (ap (λ (n : ℕ). done (ok n, some (stuff [] xs ++ (0 ∷ tail)))) (omega arith)),
      omega arith,
    )
