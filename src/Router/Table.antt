-- ===== src/Router/Table.antt =====
-- The route table as a map: what `find_route` finds after a replacement or an allocation.
use arc_protocol.Prelude.{length, ◌∙◌, ℕ, ◌==◌, ◌&&◌, if◌then◌else◌, ◌≡◌, refl, arith, inl, inr}
use arc_protocol.Prelude.{none, some, List, [], ◌∷◌, true, false, Bool-cases}
use mathlib.Core.Path.{subst, sym}
use arc_protocol.Router.{Route, find_route, replace_route, alloc_route}

-- Inversions of the two loops.
replace-cons :
    (e : Route) (es out : List Route) (dst i : ℕ)
    → (e.in_use && e.dst == dst) ≡ false
    → replace_route (e ∷ es) dst i ≡ some out
    → (rest : List Route) × (replace_route es dst i ≡ some rest) × (out ≡ e ∷ rest)
unfolding replace_route
replace-cons e es out dst i g h = ground arith

alloc-cons :
    (e : Route) (es out : List Route) (dst i : ℕ)
    → e.in_use ≡ true
    → alloc_route (e ∷ es) dst i ≡ some out
    → (rest : List Route) × (alloc_route es dst i ≡ some rest) × (out ≡ e ∷ rest)
unfolding alloc_route
alloc-cons e es out dst i g h = ground arith

pub find-replace_route :
    (es out : List Route) (dst i d : ℕ)
    → replace_route es dst i ≡ some out
    → find_route out d ≡ (if d == dst then some i else find_route es d)
unfolding find_route replace_route
find-replace_route [] out dst i d h = ground arith
find-replace_route (e ∷ es) out dst i d h = elim (Bool-cases (e.in_use && e.dst == dst)) [
  | inl hit ↦ ground arith
  | inr miss ↦
      let (rest, p, q) = replace-cons e es out dst i miss h in
      ground (arith, find-replace_route es rest dst i d p)
]

-- A failed replacement means that the table has no entry for the destination.
pub find-none_of_replace :
    (es : List Route) (dst i : ℕ) → replace_route es dst i ≡ none → find_route es dst ≡ none
unfolding find_route replace_route
find-none_of_replace [] dst i h = refl
find-none_of_replace (e ∷ es) dst i h = ground (arith, find-none_of_replace es dst i)

pub find-alloc_route :
    (es out : List Route) (dst i d : ℕ)
    → find_route es dst ≡ none
    → alloc_route es dst i ≡ some out
    → find_route out d ≡ (if d == dst then some i else find_route es d)
unfolding find_route alloc_route
find-alloc_route [] out dst i d f h = ground arith
find-alloc_route (e ∷ es) out dst i d f h = elim (Bool-cases e.in_use) [
  | inr free ↦ ground arith
  | inl used ↦
      let (rest, p, q) = alloc-cons e es out dst i used h in
      ground (arith, find-alloc_route es rest dst i d (ground arith) p)
]

-- At most one entry in use for a destination.
abbrev pub Unique : List Route → Type 0
Unique [] = Unit
Unique (e ∷ es) = (e.in_use ≡ true → find_route es e.dst ≡ none) × Unique es

pub length-replace_route :
    (es out : List Route) (dst i : ℕ) → replace_route es dst i ≡ some out → length out ≡ length es
unfolding replace_route
length-replace_route [] out dst i h = ground arith
length-replace_route (e ∷ es) out dst i h = elim (Bool-cases (e.in_use && e.dst == dst)) [
  | inl hit ↦ ground arith
  | inr miss ↦
      let (rest, p, q) = replace-cons e es out dst i miss h in
      ground (arith, length-replace_route es rest dst i p)
]

pub length-alloc_route :
    (es out : List Route) (dst i : ℕ) → alloc_route es dst i ≡ some out → length out ≡ length es
unfolding alloc_route
length-alloc_route [] out dst i h = ground arith
length-alloc_route (e ∷ es) out dst i h = elim (Bool-cases e.in_use) [
  | inr free ↦ ground arith
  | inl used ↦
      let (rest, p, q) = alloc-cons e es out dst i used h in
      ground (arith, length-alloc_route es rest dst i p)
]

pub replace-Unique :
    (es out : List Route) (dst i : ℕ) → Unique es → replace_route es dst i ≡ some out → Unique out
replace-Unique [] out dst i u h = absurd (unfold replace_route in cc)
replace-Unique (e ∷ es) out dst i u h = elim (Bool-cases (e.in_use && e.dst == dst)) [
  | inl hit ↦ subst Unique (replaced hit) ((λ used. u.0 used), u.1)
  | inr miss ↦
      let (rest, p, q) = replace-cons e es out dst i miss h in
      subst Unique (sym q) (
        (λ used. find-replace_route es rest dst i e.dst p ∙ other miss used (u.0 used)),
        replace-Unique es rest dst i u.1 p,
      )
]
  where
    replaced : (e.in_use && e.dst == dst) ≡ true → record e { link_idx = i } ∷ es ≡ out
    replaced hit = unfold replace_route in ground (arith, h)

    other :
        (e.in_use && e.dst == dst) ≡ false
        → e.in_use ≡ true
        → find_route es e.dst ≡ none
        → (if e.dst == dst then some i else find_route es e.dst) ≡ none
    other miss used none_there = ground arith

pub alloc-Unique :
    (es out : List Route) (dst i : ℕ)
    → Unique es
    → find_route es dst ≡ none
    → alloc_route es dst i ≡ some out
    → Unique out
alloc-Unique [] out dst i u f h = absurd (unfold alloc_route in cc)
alloc-Unique (e ∷ es) out dst i u f h = elim (Bool-cases e.in_use) [
  | inr free ↦ subst Unique (taken free) ((λ used. tail_none free), u.1)
  | inl used ↦
      let (rest, p, q) = alloc-cons e es out dst i used h in
      subst Unique (sym q) (
        (λ _. find-alloc_route es rest dst i e.dst (tail_miss used) p ∙ other used (u.0 used)),
        alloc-Unique es rest dst i u.1 (tail_miss used) p,
      )
]
  where
    taken : e.in_use ≡ false → record { in_use = true; dst = dst; link_idx = i } ∷ es ≡ out
    taken free = unfold alloc_route in ground (arith, h)

    tail_none : e.in_use ≡ false → find_route es dst ≡ none
    tail_none free = unfold find_route in ground (arith, f)

    tail_miss : e.in_use ≡ true → find_route es dst ≡ none
    tail_miss used = unfold find_route in ground (arith, f)

    other :
        e.in_use ≡ true
        → find_route es e.dst ≡ none
        → (if e.dst == dst then some i else find_route es e.dst) ≡ none
    other used none_there = unfold find_route in ground (arith, f)
