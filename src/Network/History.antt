-- ===== src/Network/History.antt =====
-- The duplicate filter of src/arc_reliable.c while it has room: how many entries are in use, and
-- how many of the frames sent it does not know yet.
use mathlib.Core.Path.{subst}
use arc_protocol.Prelude.{ℕ, zero, suc, ◌+◌, ◌≤◌, ◌<◌, ◌≡◌, refl, inl, inr, arith, not, Bool-cases}
use arc_protocol.Prelude.{
  if◌then◌else◌, true, false, some, List, [], ◌∷◌, ◌++◌, length, get_elem?, set,
}
use arc_protocol.Protocol.{Frame}
use arc_protocol.Reliable.{Seen, find_index, seen_contains}
use arc_protocol.Network.{In}

unfoldable pub used : List Seen → ℕ
used [] = 0
used (s ∷ ss) = (if s.in_use then 1 else 0) + used ss

pub used_room :
    (ss : List Seen)
    → used ss < length ss
    → (i : ℕ) × (find_index (λ (s : Seen). not s.in_use) ss ≡ some i)
unfolding used find_index
used_room [] h = absurd (omega arith)
used_room (s ∷ ss) h = elim (Bool-cases s.in_use) [
  | inr e ↦ (0, rw e refl)
  | inl e ↦
      let (i, found) = used_room ss (ground (arith, e, h)) in (suc i, ground (arith, e, found))
]

pub used-set :
    (ss : List Seen) (i : ℕ) (s t : Seen)
    → get_elem? ss i ≡ some s
    → s.in_use ≡ false
    → t.in_use ≡ true
    → used (set ss i t) ≡ used ss + 1
unfolding used
used-set [] i s t at free taken = ground (arith, at)
used-set (x ∷ xs) zero s t at free taken = ground (arith, at, free, taken)
used-set (x ∷ xs) (suc i) s t at free taken = omega (arith, used-set xs i s t at free taken)

-- An entry put into a free slot hides nothing.
pub seen_contains-set_free :
    (ss : List Seen) (i : ℕ) (s t : Seen) (src session seq : ℕ)
    → get_elem? ss i ≡ some s
    → s.in_use ≡ false
    → seen_contains ss src session seq ≡ true
    → seen_contains (set ss i t) src session seq ≡ true
unfolding seen_contains
seen_contains-set_free [] i s t src session seq at free h = ground (arith, at)
seen_contains-set_free (x ∷ xs) zero s t src session seq at free h = ground (arith, at, free, h)
seen_contains-set_free (x ∷ xs) (suc i) s t src session seq at free h =
    ground (arith, h, seen_contains-set_free xs i s t src session seq at free)

-- How many of the frames the filter does not know.
unfoldable pub missing : ℕ → ℕ → List Seen → List Frame → ℕ
missing src session ss [] = 0
missing src session ss (f ∷ fs) =
    (if seen_contains ss src session f.seq then 0 else 1) + missing src session ss fs

pub missing-append :
    (src session : ℕ) (ss : List Seen) (fs gs : List Frame)
    → missing src session ss (fs ++ gs) ≤ length fs + missing src session ss gs
unfolding missing
missing-append src session ss [] gs = omega arith
missing-append src session ss (f ∷ fs) gs = ground (arith, missing-append src session ss fs gs)

module _ (src session : ℕ) (ss ts : List Seen)
    (keeps : (seq : ℕ)
      → seen_contains ss src session seq ≡ true
      → seen_contains ts src session seq ≡ true) where
  missing-le : (fs : List Frame) → missing src session ts fs ≤ missing src session ss fs
  unfolding missing
  missing-le [] = omega arith
  missing-le (f ∷ fs) = elim (Bool-cases (seen_contains ss src session f.seq)) [
    | inl e ↦ ground (arith, e, keeps f.seq e, missing-le fs)
    | inr e ↦ ground (arith, e, missing-le fs)
  ]

  -- One frame more is known.
  pub missing-lt :
      (f : Frame) (fs : List Frame)
      → In f fs
      → seen_contains ss src session f.seq ≡ false
      → seen_contains ts src session f.seq ≡ true
      → missing src session ts fs < missing src session ss fs
  unfolding missing
  missing-lt f [] m new known = absurd m
  missing-lt f (g ∷ gs) (inl e) new known =
      let new' : seen_contains ss src session g.seq ≡ false =
        subst (λ (h : Frame). seen_contains ss src session h.seq ≡ false) e new in
      let known' : seen_contains ts src session g.seq ≡ true =
        subst (λ (h : Frame). seen_contains ts src session h.seq ≡ true) e known in
      ground (arith, new', known', missing-le gs)
  missing-lt f (g ∷ gs) (inr m) new known = elim (Bool-cases (seen_contains ss src session g.seq)) [
    | inl e ↦ ground (arith, e, keeps g.seq e, missing-lt f gs m new known)
    | inr e ↦ ground (arith, e, missing-lt f gs m new known)
  ]

-- A frame that is not known counts.
pub missing_positive :
    (src session : ℕ) (ss : List Seen) (f : Frame) (fs : List Frame)
    → In f fs
    → seen_contains ss src session f.seq ≡ false
    → 0 < missing src session ss fs
unfolding missing
missing_positive src session ss f [] m new = absurd m
missing_positive src session ss f (g ∷ gs) (inl e) new =
    let new' : seen_contains ss src session g.seq ≡ false =
      subst (λ (h : Frame). seen_contains ss src session h.seq ≡ false) e new in
    ground (arith, new')
missing_positive src session ss f (g ∷ gs) (inr m) new =
    omega (arith, missing_positive src session ss f gs m new)
