-- ===== src/Reliable/History.antt =====
-- The history of received frames in src/arc_reliable.c: `source_session_changed`, `seen_add`,
-- `seen_contains` and `seen_drop_source` one after the other.
use arc_protocol.Prelude.{ℕ, suc, ◌<◌, ◌==◌, not, Bool, true, false, Bool-cases}
use arc_protocol.Prelude.{some, List, [], ◌∷◌, length, set, Option-cases, ==_refl}
use arc_protocol.Prelude.{◌≡◌, refl, inl, inr, arith}
use arc_protocol.Reliable.{Seen, Source, find_index}
use arc_protocol.Reliable.{seen_matches, seen_contains, seen_add, seen_drop_source}
use arc_protocol.Reliable.{source_of, source_entry, seen_entry, source_session_changed}
use arc_protocol.Reliable.Slots.{
  find_index-some, find_index-set, get_elem?-lt, get-set, seen_contains-set,
}
use arc_protocol.Reliable.Invariant.{seen_add-free, seen_add-full}
use arc_protocol.Reliable.Invariant.{changed-same, changed-other, changed-new, changed-full}

pub find_index-keep {ℓ} :
    {A : Type ℓ} (p : A → Bool) (xs : List A) (i : ℕ) (x : A)
    → find_index p xs ≡ some i
    → p x ≡ true
    → find_index p (set xs i x) ≡ some i
unfolding find_index
find_index-keep p [] i x h holds = ground (arith, h)
find_index-keep p (y ∷ ys) i x h holds = elim (Bool-cases (p y)) [
  | inl e ↦ let at : i ≡ 0 = ground (arith, e, h) in rw (at, holds) refl
  | inr e ↦ elim (Option-cases (find_index p ys)) [
    | inl f ↦ ground (arith, e, f, h)
    | inr (j, f) ↦
        let at : i ≡ suc j = ground (arith, e, f, h) in
        rw (at, e, find_index-keep p ys j x f holds) refl
  ]
]

-- The table that a source was just looked up in has that source's session, or no place for it.
pub noted-unchanged :
    (ts : List Source) (src session : ℕ)
    → (source_session_changed ((source_session_changed ts src session).1) src session).0 ≡ false
noted-unchanged ts src session = elim (Option-cases (find_index (source_of src) ts)) [
  | inl e ↦ elim (Option-cases (find_index (λ (s : Source). not s.in_use) ts)) [
    | inl f ↦ rw (changed-full ts src session e f, changed-full ts src session e f) refl
    | inr (i, f) ↦
        let (s, at, free) = find_index-some (λ (s : Source). not s.in_use) ts i f in
        let small = get_elem?-lt ts i s at in
        let entry = source_entry src session in
        rw
          (
            changed-new ts src session i e f,
            changed-same (set ts i entry) src session i entry
                (find_index-set (source_of src) ts i entry small e (==_refl src))
                (get-set ts i entry small) (==_refl session),
          )
          refl
  ]
  | inr (i, e) ↦
      let (s, at, holds) = find_index-some (source_of src) ts i e in
      elim (Bool-cases (s.session == session)) [
        | inl g ↦
            rw (changed-same ts src session i s e at g, changed-same ts src session i s e at g) refl
        | inr g ↦
            let other : Source = record s { session = session } in
            rw
              (
                changed-other ts src session i s e at g,
                changed-same (set ts i other) src session i other
                    (find_index-keep (source_of src) ts i other e holds)
                    (get-set ts i other (get_elem?-lt ts i s at)) (==_refl session),
              )
              refl
      ]
]

pub seen_entry-matches :
    (src session seq : ℕ) → seen_matches src session seq (seen_entry src session seq) ≡ true
seen_entry-matches src session seq = rw (==_refl src, ==_refl session, ==_refl seq) refl

-- What was just added is found.
pub seen_contains-seen_add :
    (ss : List Seen) (next src session seq : ℕ)
    → next < length ss
    → seen_contains ((seen_add ss next src session seq).0) src session seq ≡ true
seen_contains-seen_add ss next src session seq h =
    elim (Option-cases (find_index (λ (s : Seen). not s.in_use) ss)) [
      | inl e ↦ rw (seen_add-full ss next src session seq e) (
          seen_contains-set ss next src session seq (seen_entry src session seq) h
            (seen_entry-matches src session seq))
      | inr (i, e) ↦
          let (s, at, free) = find_index-some (λ (s : Seen). not s.in_use) ss i e in
          rw (seen_add-free ss next src session seq i e) (
            seen_contains-set ss i src session seq (seen_entry src session seq)
              (get_elem?-lt ss i s at) (seen_entry-matches src session seq))
    ]

-- Forgetting a source leaves nothing new in the history.
pub seen_drop_source-absent :
    (ss : List Seen) (dropped src session seq : ℕ)
    → seen_contains ss src session seq ≡ false
    → seen_contains (seen_drop_source ss dropped) src session seq ≡ false
unfolding seen_contains seen_drop_source
seen_drop_source-absent [] dropped src session seq h = refl
seen_drop_source-absent (s ∷ ss) dropped src session seq h =
    elim (Bool-cases (seen_matches src session seq s)) [
      | inl e ↦ ground (arith, e, h)
      | inr e ↦ ground (arith, e, h, seen_drop_source-absent ss dropped src session seq)
    ]
