-- ===== src/Memory/Laws.antt =====
-- What a read or a write does to a buffer that is known to begin with certain parts.
use arc_protocol.Prelude.{ℕ, zero, suc, ◌+◌, ◌≡◌, refl, arith, length}
use arc_protocol.Prelude.{[], ◌∷◌, ◌++◌, some, leb-true, length-append, take-length-append}
use arc_protocol.Prelude.{drop-length-append, append_assoc, get_elem?}
use arc_protocol.Prelude.{
  ◌⊎◌, inl, inr, lt_or_le, length-drop, ◌≤◌, ◌<◌, take, drop, sym, take-append-drop, length-take_le,
}
use arc_protocol.Memory.{Bytes, IsBytes, Run, done, fault, ◌>>=◌, load, read, write}

-- A write over `old` replaces it by `new` and keeps what stands around it.
pub write-append :
    (pre old post new : Bytes) (i : ℕ)
    → i ≡ length pre
    → length old ≡ length new
    → write (pre ++ (old ++ post)) i new ≡ done (pre ++ (new ++ post))
unfolding write
write-append pre old post new i e f = rw (
  leb-true (i + length new) (length (pre ++ (old ++ post)))
      (omega (arith, length-append pre (old ++ post), length-append old post)),
  take-length-append pre (old ++ post) i e,
  ← append_assoc pre old post,
  drop-length-append (pre ++ old) post (i + length new) (omega (arith, length-append pre old)),
)

pub read-append :
    (pre mid post : Bytes) (i n : ℕ)
    → i ≡ length pre
    → n ≡ length mid
    → read (pre ++ (mid ++ post)) i n ≡ done mid
unfolding read
read-append pre mid post i n e f = rw (
  leb-true (i + n) (length (pre ++ (mid ++ post)))
      (omega (arith, length-append pre (mid ++ post), length-append mid post)),
  drop-length-append pre (mid ++ post) i e,
  take-length-append mid post n f,
)

pub get_elem?-append :
    (pre : Bytes) (x : ℕ) (post : Bytes) (i : ℕ)
    → i ≡ length pre
    → get_elem? (pre ++ (x ∷ post)) i ≡ some x
get_elem?-append [] x post zero e = refl
get_elem?-append [] x post (suc i) e = absurd (omega arith)
get_elem?-append (y ∷ pre) x post zero e = absurd (omega arith)
get_elem?-append (y ∷ pre) x post (suc i) e = get_elem?-append pre x post i (omega arith)

pub load-append :
    (pre : Bytes) (x : ℕ) (post : Bytes) (i : ℕ)
    → i ≡ length pre
    → load (pre ++ (x ∷ post)) i ≡ done x
unfolding load
load-append pre x post i e = rw (get_elem?-append pre x post i e)

pub IsBytes-append : (xs ys : Bytes) → IsBytes xs → IsBytes ys → IsBytes (xs ++ ys)
IsBytes-append [] ys p q = q
IsBytes-append (x ∷ xs) ys p q = (p.0, IsBytes-append xs ys p.1 q)

pub IsBytes-left : (xs ys : Bytes) → IsBytes (xs ++ ys) → IsBytes xs
IsBytes-left [] ys p = tt
IsBytes-left (x ∷ xs) ys p = (p.0, IsBytes-left xs ys p.1)

pub IsBytes-right : (xs ys : Bytes) → IsBytes (xs ++ ys) → IsBytes ys
IsBytes-right [] ys p = p
IsBytes-right (x ∷ xs) ys p = IsBytes-right xs ys p.1

pub >>=_assoc {ℓ κ μ} :
    {A : Type ℓ} {B : Type κ} {C : Type μ} (m : Run A) (f : A → Run B) (g : B → Run C)
    → ((m >>= f) >>= g) ≡ (m >>= λ a. f a >>= g)
>>=_assoc (done a) f g = refl
>>=_assoc fault f g = refl

-- A buffer with `n` bytes in front of the rest.
pub record Room (n : ℕ) (buf : Bytes) : Type 0 where
  pub front : Bytes
  pub back : Bytes
  pub front_length : length front ≡ n
  pub whole : buf ≡ front ++ back

pub split-Room : (n : ℕ) (buf : Bytes) → n ≤ length buf → Room n buf
split-Room n buf h = record {
  front = take n buf;
  back = drop n buf;
  front_length = length-take_le n buf h;
  whole = sym (take-append-drop n buf);
}

pub nonempty : (buf : Bytes) → 0 < length buf → (x : ℕ) × (xs : Bytes) × (buf ≡ x ∷ xs)
nonempty [] h = absurd (omega arith)
nonempty (x ∷ xs) h = (x, xs, refl)

-- A write in range succeeds and keeps the length; any other faults.
pub write-done :
    (buf : Bytes) (i : ℕ) (bs : Bytes)
    → i + length bs ≤ length buf
    → (out : Bytes) × (write buf i bs ≡ done out) × (length out ≡ length buf)
unfolding write
write-done buf i bs h = (
  take i buf ++ (bs ++ drop (i + length bs) buf),
  rw (leb-true (i + length bs) (length buf) h),
  omega (
    arith,
    length-append (take i buf) (bs ++ drop (i + length bs) buf),
    length-append bs (drop (i + length bs) buf),
    length-take_le i buf (omega arith),
    length-drop (i + length bs) buf,
  ),
)

pub write-fault :
    (buf : Bytes) (i : ℕ) (bs : Bytes) → length buf < i + length bs → write buf i bs ≡ fault
unfolding write
write-fault buf i bs h = ground arith

pub write-cases :
    (buf : Bytes) (i : ℕ) (bs : Bytes)
    → (write buf i bs ≡ fault)
      ⊎ ((out : Bytes) × (write buf i bs ≡ done out) × (length out ≡ length buf))
write-cases buf i bs = elim (lt_or_le (length buf) (i + length bs)) [
  | inl out ↦ inl (write-fault buf i bs out)
  | inr fits ↦ inr (write-done buf i bs fits)
]

pub load-done : (buf : Bytes) (i : ℕ) → i < length buf → (x : ℕ) × (load buf i ≡ done x)
unfolding load
load-done [] i h = absurd (omega arith)
load-done (x ∷ xs) zero h = (x, refl)
load-done (x ∷ xs) (suc i) h = load-done xs i (omega arith)

pub read-done : (buf : Bytes) (n : ℕ) → n ≤ length buf → read buf 0 n ≡ done (take n buf)
unfolding read
read-done buf n h = ground arith
