-- ===== src/Messages/Text.antt =====
-- NUL-terminated names in the payloads of src/arc_messages_*.c: the loops that look for the NUL.
use arc_protocol.Prelude.{
  ℕ, zero, suc, ◌+◌, ◌≤◌, ◌<◌, ◌≡◌, ◌==◌, refl, sym, ap, ◌∙◌, arith, if◌then◌else◌,
}
use arc_protocol.Prelude.{
  Bool, true, false, [], ◌∷◌, ◌++◌, length, append_assoc, length-append, Bool-cases, inl, inr,
  ==_iff,
}
use arc_protocol.Memory.{Bytes, Run, done, fault, ◌>>=◌, load, read, write}
use arc_protocol.Memory.Laws.{read-append, write-done}
use arc_protocol.Messages.Cursor.{write-at}
use arc_protocol.Prelude.{take, drop, drop-drop, length-drop, length-take_le, leb-true}
use arc_protocol.Memory.Laws.{load-append, load-done}

-- `while (off < end && buf[off] != '\0') off++`, with `k` = `end - off`.
unfoldable pub scan : Bytes → ℕ → ℕ → Run ℕ
scan buf off zero = done off
scan buf off (suc k) = do
  x ← load buf off
  let rest = scan buf (off + 1) k in if x == 0 then done off else rest

-- `while (name[name_len] != '\0') name_len++`, from 0, in an array that begins with the given bytes.
unfoldable pub text_length : Bytes → Run ℕ
text_length [] = fault
text_length (x ∷ xs) =
    let rest = text_length xs in if x == 0 then done 0 else (do n ← rest; done (n + 1))

-- What stands before the first NUL, and whether there is one.
abbrev pub text_of : Bytes → Bytes
text_of [] = []
text_of (x ∷ xs) = if x == 0 then [] else x ∷ text_of xs

abbrev pub has_nul : Bytes → Bool
has_nul [] = false
has_nul (x ∷ xs) = if x == 0 then true else has_nul xs

-- A name as the library keeps it.
pub record Split (name : Bytes) : Type 0 where
  pub more : Bytes
  pub is_split : name ≡ text_of name ++ (0 ∷ more)

pub has_nul-Split : (name : Bytes) → has_nul name ≡ true → Split name
has_nul-Split [] h = absurd (ground (arith, h))
has_nul-Split (x ∷ xs) h = elim (Bool-cases (x == 0)) [
  | inl e ↦
      let zeroth : x ≡ 0 = (==_iff x 0).0 e in record { more = xs; is_split = rw (e, zeroth) refl }
  | inr e ↦
      let n = has_nul-Split xs (ground (arith, e, h)) in
      record { more = n.more; is_split = rw e (ap (λ (t : Bytes). x ∷ t) n.is_split) }
]

-- No NUL among them.
abbrev pub IsText : Bytes → Type 0
IsText [] = Unit
IsText (x ∷ xs) = ((x == 0) ≡ false) × IsText xs

pub text_of-IsText : (name : Bytes) → IsText (text_of name)
text_of-IsText [] = tt
text_of-IsText (x ∷ xs) = elim (Bool-cases (x == 0)) [
  | inl e ↦ rw e tt
  | inr e ↦ rw e (e, text_of-IsText xs)
]

pub text_length-lem :
    (text more : Bytes) → IsText text → text_length (text ++ (0 ∷ more)) ≡ done (length text)
unfolding text_length
text_length-lem [] more t = refl
text_length-lem (x ∷ xs) more (e, t) =
    let last : length xs + 1 ≡ suc (length xs) = omega arith in
    rw (e, text_length-lem xs more t, last) refl

pub scan-text :
    (pre text rest : Bytes) (k : ℕ)
    → IsText text
    → length text < k
    → scan (pre ++ (text ++ (0 ∷ rest))) (length pre) k ≡ done (length pre + length text)
unfolding scan
scan-text pre text rest zero t h = absurd (omega (arith, h))
scan-text pre [] rest (suc k) t h =
    let last : length pre ≡ length pre + 0 = omega arith in
    rw (load-append pre 0 rest (length pre) refl, ← last) refl
scan-text pre (x ∷ xs) rest (suc k) (e, t) h =
    let next : length pre + 1 ≡ length (pre ++ (x ∷ [])) =
      omega (arith, length-append pre (x ∷ [])) in
    let ih = scan-text (pre ++ (x ∷ [])) xs rest k t (omega (arith, h)) in
    let moved : scan (pre ++ (x ∷ (xs ++ (0 ∷ rest)))) (length pre + 1) k
        ≡ done (length (pre ++ (x ∷ [])) + length xs) =
      ap (λ (b : Bytes). scan b (length pre + 1) k)
        (sym (append_assoc pre (x ∷ []) (xs ++ (0 ∷ rest))))
      ∙ ap (λ (n : ℕ). scan ((pre ++ (x ∷ [])) ++ (xs ++ (0 ∷ rest))) n k) next
      ∙ ih in
    let last : length (pre ++ (x ∷ [])) + length xs ≡ length pre + suc (length xs) =
      omega (arith, length-append pre (x ∷ [])) in
    rw (load-append pre x (xs ++ (0 ∷ rest)) (length pre) refl, e, moved, last) refl

-- The search stays in the buffer and in its bounds.
pub scan-returns :
    (buf : Bytes) (off k : ℕ)
    → off + k ≤ length buf
    → (n : ℕ) × (scan buf off k ≡ done n) × (off ≤ n) × (n ≤ off + k)
unfolding scan
scan-returns buf off zero h = (off, refl, omega arith, omega arith)
scan-returns buf off (suc k) h =
    let (x, e) = load-done buf off (omega (arith, h)) in
    elim (Bool-cases (x == 0)) [
      | inl z ↦ (off, rw (e, z) refl, omega arith, omega arith)
      | inr z ↦
          let (n, f, low, high) = scan-returns buf (off + 1) k (omega (arith, h)) in
          (n, rw (e, z, f) refl, omega (arith, low), omega (arith, high))
    ]

-- The stores of a decoder to a name.
unfoldable pub keep_name : Bytes → Bytes → ℕ → ℕ → Run Bytes
keep_name name buf start name_len = do
  bytes ← read buf start name_len
  copied ← write name 0 bytes
  write copied name_len (0 ∷ [])

-- The name that a decoder leaves when it has been sent `text`.
pub keep_name-lem :
    (pre text rest name : Bytes)
    → length text < length name
    → keep_name name (pre ++ (text ++ (0 ∷ rest))) (length pre) (length text)
      ≡ done (text ++ (0 ∷ drop (length text + 1) name))
unfolding keep_name
keep_name-lem pre text rest name h =
    let first = read-append pre text (0 ∷ rest) (length pre) (length text) refl refl in
    let second = write-at [] name text (omega (arith, h)) in
    let third =
      write-at text (drop (length text) name) (0 ∷ [])
        (omega (arith, h, length-drop (length text) name)) in
    rw
      (
        first,
        second,
        third,
        append_assoc text (0 ∷ []) (drop 1 (drop (length text) name)),
        drop-drop 1 (length text) name,
      )
      refl

read-at : (buf : Bytes) (i n : ℕ) → i + n ≤ length buf → read buf i n ≡ done (take n (drop i buf))
unfolding read
read-at buf i n h = rw (leb-true (i + n) (length buf) h) refl

pub keep_name-returns :
    (name buf : Bytes) (start name_len : ℕ)
    → start + name_len ≤ length buf
    → name_len < length name
    → (out : Bytes) × (keep_name name buf start name_len ≡ done out) × (length out ≡ length name)
unfolding keep_name
keep_name-returns name buf start name_len h k =
    let bytes = take name_len (drop start buf) in
    let many = length-take_le name_len (drop start buf) (omega (arith, h, length-drop start buf)) in
    let (a, e, same) = write-done name 0 bytes (omega (arith, many, k)) in
    let (b, f, same') = write-done a name_len (0 ∷ []) (omega (arith, same, k)) in
    (b, rw (read-at buf start name_len h, e, f) refl, same' ∙ same)
