-- ===== src/Messages/Cursor.antt =====
-- Payloads of variable length in src/arc_messages_*.c: stores and loads at an offset that moves on,
-- and the loops over the elements of an array.
use arc_protocol.Prelude.{◌/◌}
use arc_protocol.Messages.{bit_and}
use arc_protocol.Memory.{u8}
use arc_protocol.Prelude.{◌^◌}
use arc_protocol.Prelude.{length-take_le}
use arc_protocol.Prelude.{append-nil}
use arc_protocol.Prelude.{take-append-drop}
use arc_protocol.Prelude.{ℕ, zero, suc, ◌+◌, ◌*◌, ◌≤◌, ◌<◌, ◌≡◌, refl, sym, ap, ◌∙◌, arith}
use arc_protocol.Prelude.{
  List, [], ◌∷◌, ◌++◌, length, take, drop, append_assoc, length-append, length-drop, drop-drop,
}
use arc_protocol.Memory.{Bytes, Run, done, fault, ◌>>=◌, load, write}
use arc_protocol.Memory.Laws.{write-append, load-append, load-done}
use arc_protocol.Frame.{join16}
use arc_protocol.Messages.{half}
use arc_protocol.Messages.Laws.{join16-half}

-- The buffer and `off`.
abbrev pub Cursor : Type 0
Cursor = Bytes × ℕ

-- `out[off++] = b` for each of the bytes.
unfoldable pub put : Bytes → Cursor → Run Cursor
put bs (buf, off) = do stored ← write buf off bs; done (stored, off + length bs)

-- `in[off++]`
unfoldable pub get : Bytes → ℕ → Run (ℕ × ℕ)
get buf off = do x ← load buf off; done (x, off + 1)

-- `((uint16_t)in[off] << 8) | (uint16_t)in[off + 1]`, then `off += 2`.
unfoldable pub get_half : Bytes → ℕ → Run (ℕ × ℕ)
get_half buf off = do hi ← load buf off; lo ← load buf (off + 1); done (join16 hi lo, off + 2)

module _ {A : Type 0} where
  -- A loop that stores the fields of the first `n` elements.
  unfoldable pub store_each : (A → Bytes) → List A → ℕ → Cursor → Run Cursor
  store_each fields xs zero c = done c
  store_each fields [] (suc n) c = fault
  store_each fields (x ∷ xs) (suc n) c = do c' ← put (fields x) c; store_each fields xs n c'

  -- A loop that loads the first `n` elements over those of an array.
  unfoldable pub load_each : (ℕ → Run (A × ℕ)) → List A → ℕ → ℕ → Run (List A × ℕ)
  load_each parse old zero off = done (old, off)
  load_each parse [] (suc n) off = fault
  load_each parse (x ∷ old) (suc n) off = do
    (a, next) ← parse off
    (rest, end) ← load_each parse old n next
    done (a ∷ rest, end)

-- What a step that stores `bs` does to a buffer.
abbrev pub IsPut : (Cursor → Run Cursor) → Bytes → Type 0
IsPut k bs =
    (pre rest : Bytes)
    → length bs ≤ length rest
    → k (pre ++ rest, length pre) ≡ done ((pre ++ bs) ++ drop (length bs) rest, length (pre ++ bs))

abbrev pub IsGet {ℓ} : {A : Type ℓ} → (Bytes → ℕ → Run (A × ℕ)) → Bytes → A → Type ℓ
IsGet parse bs a =
    (pre rest : Bytes) → parse (pre ++ (bs ++ rest)) (length pre) ≡ done (a, length (pre ++ bs))

pub write-at :
    (pre rest bs : Bytes)
    → length bs ≤ length rest
    → write (pre ++ rest) (length pre) bs ≡ done ((pre ++ bs) ++ drop (length bs) rest)
write-at pre rest bs h =
    ap (λ (t : Bytes). write (pre ++ t) (length pre) bs) (sym (take-append-drop (length bs) rest))
    ∙ write-append pre (take (length bs) rest) (drop (length bs) rest) bs (length pre) refl
        (length-take_le (length bs) rest h)
    ∙ ap (λ (t : Bytes). done t) (sym (append_assoc pre bs (drop (length bs) rest)))

pub put-IsPut : (bs : Bytes) → IsPut (put bs) bs
unfolding put
put-IsPut bs pre rest h = rw (write-at pre rest bs h, length-append pre bs) refl

pub then-IsPut :
    (k l : Cursor → Run Cursor) (bs cs : Bytes)
    → IsPut k bs
    → IsPut l cs
    → IsPut (λ c. k c >>= l) (bs ++ cs)
then-IsPut k l bs cs p q pre rest h =
    let first : length bs ≤ length rest = omega (arith, h, length-append bs cs) in
    let second : length cs ≤ length (drop (length bs) rest) =
      omega (arith, h, length-append bs cs, length-drop (length bs) rest) in
    let left : drop (length cs) (drop (length bs) rest) ≡ drop (length (bs ++ cs)) rest =
      drop-drop (length cs) (length bs) rest ∙ ap (λ k. drop k rest) (sym (length-append bs cs)) in
    rw
      (p pre rest first, q (pre ++ bs) (drop (length bs) rest) second, append_assoc pre bs cs, left)
      refl

pub done-IsPut : IsPut (λ c. done c) []
done-IsPut pre rest h = rw append-nil refl

-- The bytes of the first `n` elements.
abbrev pub all_fields : {A : Type 0} → (A → Bytes) → ℕ → List A → Bytes
all_fields fields zero xs = []
all_fields fields (suc n) [] = []
all_fields fields (suc n) (x ∷ xs) = fields x ++ all_fields fields n xs

-- The first `n` elements have a property.
abbrev pub AllFirst : {A : Type 0} → (A → Type 0) → ℕ → List A → Type 0
AllFirst P zero xs = Unit
AllFirst P (suc n) [] = Unit
AllFirst P (suc n) (x ∷ xs) = P x × AllFirst P n xs

module _ {A : Type 0} (fields : A → Bytes) where
  pub store_each-IsPut :
      (xs : List A) (n : ℕ)
      → n ≤ length xs
      → IsPut (store_each fields xs n) (all_fields fields n xs)
  unfolding store_each
  store_each-IsPut xs zero h = done-IsPut
  store_each-IsPut [] (suc n) h = absurd (omega (arith, h))
  store_each-IsPut (x ∷ xs) (suc n) h =
      then-IsPut (put (fields x)) (store_each fields xs n) (fields x) (all_fields fields n xs)
        (put-IsPut (fields x)) (store_each-IsPut xs n (omega (arith, h)))

  pub length-all_fields :
      (size : ℕ) (each : (x : A) → length (fields x) ≡ size) (n : ℕ) (xs : List A)
      → n ≤ length xs
      → length (all_fields fields n xs) ≡ n * size
  length-all_fields size each zero xs h = omega arith
  length-all_fields size each (suc n) [] h = absurd (omega (arith, h))
  length-all_fields size each (suc n) (x ∷ xs) h = omega (
    arith,
    each x,
    length-append (fields x) (all_fields fields n xs),
    length-all_fields size each n xs (omega (arith, h)),
  )

  pub load_each-IsGet :
      (parse : Bytes → ℕ → Run (A × ℕ)) (P : A → Type 0)
      → ((x : A) → P x → IsGet parse (fields x) x)
      → (xs old : List A) (n : ℕ) → n ≤ length xs
      → n ≤ length old
      → AllFirst P n xs
      → IsGet
          (λ buf. load_each (parse buf) old n)
          (all_fields fields n xs)
          (take n xs ++ drop n old)
  unfolding load_each
  load_each-IsGet parse P reads xs old zero h k v pre rest = rw (append-nil) refl
  load_each-IsGet parse P reads [] old (suc n) h k v pre rest = absurd (omega (arith, h))
  load_each-IsGet parse P reads (x ∷ xs) [] (suc n) h k v pre rest = absurd (omega (arith, k))
  load_each-IsGet parse P reads (x ∷ xs) (y ∷ old) (suc n) h k v pre rest =
      let more = all_fields fields n xs in
      let ih =
        load_each-IsGet parse P reads xs old n (omega (arith, h)) (omega (arith, k)) v.1
          (pre ++ fields x) rest in
      let whole = pre ++ ((fields x ++ more) ++ rest) in
      let near : whole ≡ pre ++ (fields x ++ (more ++ rest)) =
        ap (λ (t : Bytes). pre ++ t) (append_assoc (fields x) more rest) in
      let far : whole ≡ (pre ++ fields x) ++ (more ++ rest) =
        near ∙ sym (append_assoc pre (fields x) (more ++ rest)) in
      let here : parse whole (length pre) ≡ done (x, length (pre ++ fields x)) =
        ap (λ b. parse b (length pre)) near ∙ reads x v.0 pre (more ++ rest) in
      let there = ap (λ b. load_each (parse b) old n (length (pre ++ fields x))) far ∙ ih in
      rw (here, there, append_assoc pre (fields x) more) refl

-- A loop of loads stays in a buffer that has the bytes.
pub load_each-returns :
    {A : Type 0} (parse : ℕ → Run (A × ℕ)) (size total : ℕ)
    → ((off : ℕ) → off + size ≤ total → (a : A) × (parse off ≡ done (a, off + size)))
    → (old : List A) (n off : ℕ) → n ≤ length old
    → off + n * size ≤ total
    → (xs : List A) × (load_each parse old n off ≡ done (xs, off + n * size))
      × (length xs ≡ length old)
unfolding load_each
load_each-returns parse size total one old zero off h k =
    let e : off ≡ off + 0 * size = omega arith in (old, ap (λ (t : ℕ). done (old, t)) e, refl)
load_each-returns parse size total one [] (suc n) off h k = absurd (omega (arith, h))
load_each-returns parse size total one (y ∷ old) (suc n) off h k =
    let (a, e) = one off (omega (arith, k)) in
    let (xs, f, g) =
      load_each-returns parse size total one old n (off + size) (omega (arith, h))
        (omega (arith, k)) in
    let end : off + size + n * size ≡ off + suc n * size = omega arith in
    (a ∷ xs, rw (e, f, end) refl, ap suc g)

pub get-IsGet : (x : ℕ) → IsGet get (x ∷ []) x
unfolding get
get-IsGet x pre rest =
    rw (load-append pre x rest (length pre) refl, length-append pre (x ∷ [])) refl

pub get-returns :
    (buf : Bytes) (off : ℕ) → off < length buf → (x : ℕ) × (get buf off ≡ done (x, off + 1))
unfolding get
get-returns buf off h = let (x, e) = load-done buf off h in (x, rw e refl)

pub get_half-returns :
    (buf : Bytes) (off : ℕ)
    → off + 1 < length buf
    → (x : ℕ) × (get_half buf off ≡ done (x, off + 2))
unfolding get_half
get_half-returns buf off h =
    let (x, e) = load-done buf off (omega (arith, h)) in
    let (y, f) = load-done buf (off + 1) h in (join16 x y, rw (e, f) refl)

pub get_half-IsGet : (v : ℕ) → v < 2 ^ 16 → IsGet get_half (half v) v
unfolding get_half
get_half-IsGet v small pre rest =
    let hi = u8 (bit_and (v / 2 ^ 8) 0xff) in
    let lo = u8 (bit_and v 0xff) in
    let first = load-append pre hi (lo ∷ rest) (length pre) refl in
    let second : load (pre ++ (hi ∷ lo ∷ rest)) (length pre + 1) ≡ done lo =
      ap (λ (t : Bytes). load t (length pre + 1)) (sym (append_assoc pre (hi ∷ []) (lo ∷ rest)))
      ∙ load-append (pre ++ (hi ∷ [])) lo rest (length pre + 1)
          (omega (arith, length-append pre (hi ∷ []))) in
    rw (first, second, join16-half v small, length-append pre (half v)) refl

-- Two loads, one after the other.
pub then-IsGet {ℓ κ μ} :
    {A : Type ℓ} {B : Type κ} {C : Type μ} (p : Bytes → ℕ → Run (A × ℕ))
    (q : Bytes → ℕ → Run (B × ℕ)) (f : A → B → C) (bs cs : Bytes) (a : A) (b : B)
    → IsGet p bs a
    → IsGet q cs b
    → IsGet
        (λ buf off. p buf off >>= λ x. q buf x.1 >>= λ y. done (f x.0 y.0, y.1))
        (bs ++ cs)
        (f a b)
then-IsGet p q f bs cs a b reads_a reads_b pre rest =
    let whole = pre ++ ((bs ++ cs) ++ rest) in
    let near : whole ≡ pre ++ (bs ++ (cs ++ rest)) =
      ap (λ (t : Bytes). pre ++ t) (append_assoc bs cs rest) in
    let far : whole ≡ (pre ++ bs) ++ (cs ++ rest) = near ∙ sym (append_assoc pre bs (cs ++ rest)) in
    let here : p whole (length pre) ≡ done (a, length (pre ++ bs)) =
      ap (λ t. p t (length pre)) near ∙ reads_a pre (cs ++ rest) in
    let there : q whole (length (pre ++ bs)) ≡ done (b, length ((pre ++ bs) ++ cs)) =
      ap (λ t. q t (length (pre ++ bs))) far ∙ reads_b (pre ++ bs) rest in
    rw (here, there, append_assoc pre bs cs) refl

-- A load at an offset of a buffer that is known in parts.
pub IsGet-at {ℓ} :
    {A : Type ℓ} (p : Bytes → ℕ → Run (A × ℕ)) (bs : Bytes) (a : A) (pre rest whole : Bytes)
    (off : ℕ)
    → IsGet p bs a
    → whole ≡ pre ++ (bs ++ rest)
    → off ≡ length pre
    → p whole off ≡ done (a, off + length bs)
IsGet-at p bs a pre rest whole off reads e f = rw (e, f, reads pre rest, length-append pre bs) refl
