-- ===== src/Reliable/Invariant.antt =====
-- The endpoint's invariant, of src/arc_reliable.c: the sizes of its tables and buffers, and the
-- bounds of the values that it indexes or counts with.
use arc_protocol.Prelude.{ℕ, suc, zero, ◌<◌, ◌≤◌, ◌^◌, false, not}
use arc_protocol.Prelude.{
  none, some, List, [], ◌∷◌, ◌++◌, length, get_elem?, set, take, drop, Option-cases,
}
use arc_protocol.Prelude.{◌≡◌, refl, sym, inl, inr, arith, length-append, length-take_le}
use arc_protocol.Prelude.{take-length-append, length-drop, ltb-true}
use arc_protocol.Memory.{Bytes, Ptr, done, write}
use arc_protocol.Memory.Laws.{read-done}
use arc_protocol.Reliable.{Pending, Seen, Source, Reliable, find_index, seen_drop_source, seen_add}
use arc_protocol.Reliable.{source_session_changed, source_of, copy_payload, clear_pending}
use arc_protocol.Reliable.{pending_find, pending_matches}
use arc_protocol.Reliable.{seen_entry, source_entry}
use arc_protocol.Prelude.{true, Bool-cases}
use arc_protocol.Prelude.{◌==◌, ◌%◌, ◌+◌}
use arc_protocol.Memory.{u8}
use arc_protocol.Reliable.Slots.{length-set, find_index-some}

-- Every entry's payload buffer has its 64 bytes.
abbrev pub IsBuffered : List Pending → Type 0
IsBuffered [] = Unit
IsBuffered (p ∷ ps) = (length p.payload ≡ 64) × IsBuffered ps

pub IsBuffered-get :
    (ps : List Pending) (i : ℕ) (p : Pending)
    → IsBuffered ps
    → get_elem? ps i ≡ some p
    → length p.payload ≡ 64
IsBuffered-get [] i p b e = ground (arith, e)
IsBuffered-get (q ∷ qs) zero p b e = let f : q ≡ p = ground (arith, e) in rw (sym f) (b.0)
IsBuffered-get (q ∷ qs) (suc i) p b e = IsBuffered-get qs i p b.1 e

pub IsBuffered-set :
    (ps : List Pending) (i : ℕ) (p : Pending)
    → IsBuffered ps
    → length p.payload ≡ 64
    → IsBuffered (set ps i p)
IsBuffered-set [] i p b e = tt
IsBuffered-set (q ∷ qs) zero p b e = (e, b.1)
IsBuffered-set (q ∷ qs) (suc i) p b e = (b.0, IsBuffered-set qs i p b.1 e)

pub record IsValid {Fn User : Type 0} (r : Reliable Fn User) : Type 0 where
  pub pending_length : length r.pending ≡ 8
  pub buffers : IsBuffered r.pending
  pub seen_length : length r.seen ≡ 16
  pub next_victim : r.seen_next_idx < 16
  pub sources_length : length r.sources ≡ 6
  pub seq_bound : r.next_seq < 2 ^ 16

-- The caller's payload has the bytes that its length promises.
abbrev pub Covers : Ptr Bytes → ℕ → Type 0
Covers none len = len ≡ 0
Covers (some bytes) len = len ≤ length bytes

-- The payload that a caller means: none for a NULL pointer.
abbrev pub meant : Ptr Bytes → ℕ → Bytes
meant none len = []
meant (some bytes) len = take len bytes

copy_payload-nothing : (buf : Bytes) (payload : Ptr Bytes) → copy_payload buf payload 0 ≡ done buf
unfolding copy_payload
copy_payload-nothing buf payload = refl

copy_payload-some :
    (buf bytes : Bytes) (len : ℕ)
    → length buf ≡ 64
    → len ≤ 64
    → len ≤ length bytes
    → 0 < len
    → copy_payload buf (some bytes) len ≡ done (take len bytes ++ drop len buf)
unfolding copy_payload write
copy_payload-some buf bytes len e h c p =
    rw (ltb-true 0 len p, read-done bytes len c, length-take_le len bytes c) (ground (arith, e, h))

-- The copy fits in the buffer, and the bytes that count are the caller's.
pub copy_payload-done :
    (buf : Bytes) (payload : Ptr Bytes) (len : ℕ)
    → length buf ≡ 64
    → len ≤ 64
    → Covers payload len
    → (out : Bytes) × (copy_payload buf payload len ≡ done out)
      × (length out ≡ 64)
      × (take len out ≡ meant payload len)
copy_payload-done buf none len e h c = (buf, rw c (copy_payload-nothing buf none), e, rw c refl)
copy_payload-done buf (some bytes) zero e h c =
    (buf, copy_payload-nothing buf (some bytes), e, refl)
copy_payload-done buf (some bytes) (suc k) e h c = (
  take (suc k) bytes ++ drop (suc k) buf,
  copy_payload-some buf bytes (suc k) e h c (omega arith),
  omega (
    arith,
    length-append (take (suc k) bytes) (drop (suc k) buf),
    length-take_le (suc k) bytes c,
    length-drop (suc k) buf,
    e,
    h,
  ),
  take-length-append (take (suc k) bytes) (drop (suc k) buf) (suc k)
      (omega (arith, length-take_le (suc k) bytes c)),
)

pub length-seen_drop_source :
    (ss : List Seen) (src : ℕ) → length (seen_drop_source ss src) ≡ length ss
unfolding seen_drop_source
length-seen_drop_source [] src = refl
length-seen_drop_source (s ∷ ss) src = omega (arith, length-seen_drop_source ss src)

-- The four ways of `source_session_changed`.
pub changed-same :
    (ts : List Source) (src session i : ℕ) (s : Source)
    → find_index (source_of src) ts ≡ some i
    → get_elem? ts i ≡ some s
    → (s.session == session) ≡ true
    → source_session_changed ts src session ≡ (false, ts)
unfolding source_session_changed
changed-same ts src session i s e f g = ground (arith, e, f, g)

pub changed-other :
    (ts : List Source) (src session i : ℕ) (s : Source)
    → find_index (source_of src) ts ≡ some i
    → get_elem? ts i ≡ some s
    → (s.session == session) ≡ false
    → source_session_changed ts src session ≡ (true, set ts i (record s { session = session }))
unfolding source_session_changed
changed-other ts src session i s e f g = ground (arith, e, f, g)

pub changed-new :
    (ts : List Source) (src session i : ℕ)
    → find_index (source_of src) ts ≡ none
    → find_index (λ (s : Source). not s.in_use) ts ≡ some i
    → source_session_changed ts src session ≡ (false, set ts i (source_entry src session))
unfolding source_session_changed
changed-new ts src session i e f = ground (arith, e, f)

pub changed-full :
    (ts : List Source) (src session : ℕ)
    → find_index (source_of src) ts ≡ none
    → find_index (λ (s : Source). not s.in_use) ts ≡ none
    → source_session_changed ts src session ≡ (false, ts)
unfolding source_session_changed
changed-full ts src session e f = ground (arith, e, f)

pub length-source_session_changed :
    (ts : List Source) (src session : ℕ)
    → length ((source_session_changed ts src session).1) ≡ length ts
length-source_session_changed ts src session = elim (Option-cases (find_index (source_of src) ts)) [
  | inl e ↦ elim (Option-cases (find_index (λ (s : Source). not s.in_use) ts)) [
    | inl f ↦ rw (changed-full ts src session e f) refl
    | inr (i, f) ↦
        rw (changed-new ts src session i e f) (length-set ts i (source_entry src session))
  ]
  | inr (i, e) ↦
      let (s, f, holds) = find_index-some (source_of src) ts i e in
      elim (Bool-cases (s.session == session)) [
        | inl g ↦ rw (changed-same ts src session i s e f g) refl
        | inr g ↦
            rw (changed-other ts src session i s e f g)
              (length-set ts i (record s { session = session }))
      ]
]

pub seen_add-free :
    (ss : List Seen) (next src session seq i : ℕ)
    → find_index (λ (s : Seen). not s.in_use) ss ≡ some i
    → seen_add ss next src session seq ≡ (set ss i (seen_entry src session seq), next)
unfolding seen_add
seen_add-free ss next src session seq i e = ground (arith, e)

pub seen_add-full :
    (ss : List Seen) (next src session seq : ℕ)
    → find_index (λ (s : Seen). not s.in_use) ss ≡ none
    → seen_add ss next src session seq
      ≡ (set ss next (seen_entry src session seq), u8 ((next + 1) % 16))
unfolding seen_add
seen_add-full ss next src session seq e = ground (arith, e)

pub length-seen_add :
    (ss : List Seen) (next src session seq : ℕ)
    → next < 16
    → (length ((seen_add ss next src session seq).0) ≡ length ss)
      × ((seen_add ss next src session seq).1 < 16)
length-seen_add ss next src session seq h =
    elim (Option-cases (find_index (λ (s : Seen). not s.in_use) ss)) [
      | inl e ↦
          rw (seen_add-full ss next src session seq e)
            (length-set ss next (seen_entry src session seq), omega arith)
      | inr (i, e) ↦
          rw (seen_add-free ss next src session seq i e)
            (length-set ss i (seen_entry src session seq), h)
    ]

pub clear_pending-none :
    (ps : List Pending) (dst session seq : ℕ)
    → pending_find ps dst session seq ≡ none
    → clear_pending ps dst session seq ≡ ps
unfolding clear_pending
clear_pending-none ps dst session seq e = ground (arith, e)

pub clear_pending-some :
    (ps : List Pending) (dst session seq i : ℕ) (p : Pending)
    → pending_find ps dst session seq ≡ some i
    → get_elem? ps i ≡ some p
    → clear_pending ps dst session seq ≡ set ps i (record p { in_use = false })
unfolding clear_pending
clear_pending-some ps dst session seq i p e at = ground (arith, e, at)

-- Clearing an acknowledged entry keeps the table's size and its buffers.
pub clear_pending-keeps :
    (ps : List Pending) (dst session seq : ℕ)
    → IsBuffered ps
    → (length (clear_pending ps dst session seq) ≡ length ps)
      × IsBuffered (clear_pending ps dst session seq)
clear_pending-keeps ps dst session seq b = elim (Option-cases (pending_find ps dst session seq)) [
  | inl e ↦ rw (clear_pending-none ps dst session seq e) (refl, b)
  | inr (i, e) ↦
      let (p, at, holds) = find_index-some (pending_matches dst session seq) ps i e in
      rw (clear_pending-some ps dst session seq i p e at) (
        length-set ps i (record p { in_use = false }),
        IsBuffered-set ps i (record p { in_use = false }) b (IsBuffered-get ps i p b at),
      )
]
