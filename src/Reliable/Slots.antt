-- ===== src/Reliable/Slots.antt =====
-- Lemmas on the endpoint's fixed tables: the searches of `pending_alloc`, `pending_find` and
-- `seen_add`, stores to a slot, and `arc_reliable_pending_count`, of src/arc_reliable.c.
use arc_protocol.Prelude.{
  ℕ, suc, zero, ◌+◌, ◌<◌, ◌≤◌, not, if◌then◌else◌, Bool, true, false, Bool-cases,
}
use arc_protocol.Prelude.{none, some, List, [], ◌∷◌, length, get_elem?, set, Option-cases}
use arc_protocol.Prelude.{◌≡◌, refl, ap, inl, inr, arith}
use arc_protocol.Reliable.{Pending, Seen, find_index, pending_count, seen_matches, seen_contains}
use mathlib.Core.Option

module _ {ℓ} {A : Type ℓ} where
  pub find_index-some :
      (p : A → Bool) (xs : List A) (i : ℕ)
      → find_index p xs ≡ some i
      → (x : A) × (get_elem? xs i ≡ some x) × (p x ≡ true)
  unfolding find_index
  find_index-some p [] i h = ground (arith, h)
  find_index-some p (x ∷ xs) i h = elim (Bool-cases (p x)) [
    | inl e ↦ (x, ground (arith, e, h), e)
    | inr e ↦ elim (Option-cases (find_index p xs)) [
      | inl none_found ↦ ground (arith, e, none_found, h)
      | inr (j, found) ↦
          let (y, at, holds) = find_index-some p xs j found in
          (y, ground (arith, e, found, h, at), holds)
    ]
  ]

  pub find_index-head :
      (p : A → Bool) (x : A) (xs : List A) → p x ≡ true → find_index p (x ∷ xs) ≡ some 0
  unfolding find_index
  find_index-head p x xs e = rw e refl

  pub find_index-tail :
      (p : A → Bool) (x : A) (xs : List A)
      → p x ≡ false
      → find_index p (x ∷ xs) ≡ Option.map suc (find_index p xs)
  unfolding find_index
  find_index-tail p x xs e = rw e refl

  pub length-set : (xs : List A) (i : ℕ) (x : A) → length (set xs i x) ≡ length xs
  length-set [] i x = refl
  length-set (y ∷ ys) zero x = refl
  length-set (y ∷ ys) (suc i) x = ground (arith, length-set ys i x)

  pub get-set : (xs : List A) (i : ℕ) (x : A) → i < length xs → get_elem? (set xs i x) i ≡ some x
  get-set [] i x h = ground arith
  get-set (y ∷ ys) zero x h = refl
  get-set (y ∷ ys) (suc i) x h = get-set ys i x (omega (arith, h))

  pub get_elem?-lt : (xs : List A) (i : ℕ) (x : A) → get_elem? xs i ≡ some x → i < length xs
  get_elem?-lt [] i x h = ground (arith, h)
  get_elem?-lt (y ∷ ys) zero x h = omega arith
  get_elem?-lt (y ∷ ys) (suc i) x h = let r = get_elem?-lt ys i x h in omega (arith, r)

  pub get_elem?-some : (xs : List A) (i : ℕ) → i < length xs → (x : A) × (get_elem? xs i ≡ some x)
  get_elem?-some [] i h = ground arith
  get_elem?-some (y ∷ ys) zero h = (y, refl)
  get_elem?-some (y ∷ ys) (suc i) h = get_elem?-some ys i (omega (arith, h))

  pub set-set : (xs : List A) (i : ℕ) (x y : A) → set (set xs i x) i y ≡ set xs i y
  set-set [] i x y = refl
  set-set (z ∷ zs) zero x y = refl
  set-set (z ∷ zs) (suc i) x y = ap (λ (t : List A). z ∷ t) (set-set zs i x y)

  -- A search for what only the new entry has finds it.
  pub find_index-set :
      (p : A → Bool) (xs : List A) (i : ℕ) (x : A)
      → i < length xs
      → find_index p xs ≡ none
      → p x ≡ true
      → find_index p (set xs i x) ≡ some i
  unfolding find_index
  find_index-set p [] i x h absent holds = ground arith
  find_index-set p (y ∷ ys) zero x h absent holds = rw holds refl
  find_index-set p (y ∷ ys) (suc i) x h absent holds = elim (Bool-cases (p y)) [
    | inl e ↦ ground (arith, e, absent)
    | inr e ↦ elim (Option-cases (find_index p ys)) [
      | inl f ↦ rw (e, find_index-set p ys i x (omega (arith, h)) f holds) refl
      | inr (j, f) ↦ ground (arith, e, f, absent)
    ]
  ]

-- 1 for an entry in use, else 0.
abbrev pub weight : Pending → ℕ
weight p = if p.in_use then 1 else 0

pub pending_count-set :
    (ps : List Pending) (i : ℕ) (p q : Pending)
    → get_elem? ps i ≡ some p
    → pending_count (set ps i q) + weight p ≡ pending_count ps + weight q
unfolding pending_count
pending_count-set [] i p q h = ground (arith, h)
pending_count-set (x ∷ xs) zero p q h = let e : x ≡ p = ground (arith, h) in rw e (omega arith)
pending_count-set (x ∷ xs) (suc i) p q h = let r = pending_count-set xs i p q h in omega (arith, r)

pub pending_count-full :
    (ps : List Pending)
    → find_index (λ (p : Pending). not p.in_use) ps ≡ none
    → pending_count ps ≡ length ps
unfolding find_index pending_count
pending_count-full [] h = refl
pending_count-full (p ∷ ps) h = elim (Bool-cases p.in_use) [
  | inl e ↦ elim (Option-cases (find_index (λ (q : Pending). not q.in_use) ps)) [
    | inl f ↦ ground (arith, e, pending_count-full ps f)
    | inr (j, f) ↦ ground (arith, e, f, h)
  ]
  | inr e ↦ ground (arith, e, h)
]

pub pending_count-bound : (ps : List Pending) → pending_count ps ≤ length ps
unfolding pending_count
pending_count-bound [] = omega arith
pending_count-bound (p ∷ ps) = ground (arith, pending_count-bound ps)

pub seen_contains-set :
    (ss : List Seen) (i src session seq : ℕ) (s : Seen)
    → i < length ss
    → seen_matches src session seq s ≡ true
    → seen_contains (set ss i s) src session seq ≡ true
unfolding seen_contains
seen_contains-set [] i src session seq s h m = ground arith
seen_contains-set (x ∷ xs) zero src session seq s h m = rw m refl
seen_contains-set (x ∷ xs) (suc i) src session seq s h m =
    let r = seen_contains-set xs i src session seq s (omega (arith, h)) m in
    elim (Bool-cases (seen_matches src session seq x)) [ inl e ↦ rw e refl | inr e ↦ rw e r ]
