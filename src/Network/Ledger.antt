-- ===== src/Network/Ledger.antt =====
-- Where the messages that two endpoints of src/arc_reliable.c have accepted are: with the receiver's
-- application, reported as failed, or in the sender's table.
use arc_protocol.Prelude.{
  ℕ, zero, suc, ◌≡◌, ◌≢◌, ◌<◌, ◌^◌, ◌==◌, refl, sym, ap, ◌∙◌, ◌⊎◌, inl, inr, arith, Bool-cases,
  ==_iff,
}
use arc_protocol.Prelude.{true, false, some, List, [], ◌∷◌, ◌++◌, get_elem?, set}
use mathlib.Core.Path.{subst}
use arc_protocol.Protocol.{Frame}
use arc_protocol.Frame.{be16}
use arc_protocol.Reliable.{
  Pending, Seen, pending_to_frame, is_ack_frame, emit_frame, tick_entry, tick_loop, seen_contains,
  seen_matches, seen_entry,
}
use arc_protocol.Network.{
  on_send, on_fail, Endpoint, Calls, System, is_fail, reported, In, All, IsDistinct,
}
use arc_protocol.Network.Traffic.{In-append, In-left, tick_entry-cases}
use arc_protocol.Network.Invariant.{All-In}

-- One of the frames has the sequence number.
abbrev pub IsHeard : ℕ → List Frame → Type 0
IsHeard n [] = ⊥
IsHeard n (f ∷ fs) = (f.seq ≡ n) ⊎ IsHeard n fs

-- An entry in use holds the frame.
abbrev pub IsWaiting : ℕ → Frame → List Pending → Type 0
IsWaiting addr f [] = ⊥
IsWaiting addr f (p ∷ ps) =
    ((p.in_use ≡ true) × (pending_to_frame p addr ≡ f)) ⊎ IsWaiting addr f ps

-- An acknowledgement names a number that was heard.
abbrev pub IsAnswer : List Frame → Frame → Type 0
IsAnswer ds g =
    (is_ack_frame g ≡ false) ⊎ ((n : ℕ) × (n < 2 ^ 16) × (g.payload ≡ some (be16 n)) × IsHeard n ds)

-- What has become of an accepted frame.
abbrev pub IsSettled : ℕ → (delivered failed : List Frame) → List Pending → Frame → Type 0
IsSettled addr ds fails ps f = In f ds ⊎ (In f fails ⊎ IsWaiting addr f ps)

pub record Ledger (s : System) : Type 0 where
  pub seq_word : s.sender.next_seq < 2 ^ 16
  pub words : All (λ f. f.seq < 2 ^ 16) s.accepted
  pub answers : All (IsAnswer s.delivered) s.network
  pub learnt :
      (seq : ℕ)
      → seen_contains s.receiver.seen s.sender.my_addr s.sender.session seq ≡ true
      → IsHeard seq s.delivered
  pub settled : All (IsSettled s.sender.my_addr s.delivered s.failed s.sender.pending) s.accepted

pub IsHeard-In : (n : ℕ) (fs : List Frame) → IsHeard n fs → (f : Frame) × In f fs × (f.seq ≡ n)
IsHeard-In n [] h = absurd h
IsHeard-In n (f ∷ fs) (inl e) = (f, inl refl, e)
IsHeard-In n (f ∷ fs) (inr h) = let (g, m, e) = IsHeard-In n fs h in (g, inr m, e)

IsHeard-append : (n : ℕ) (more fs : List Frame) → IsHeard n fs → IsHeard n (more ++ fs)
IsHeard-append n [] fs h = h
IsHeard-append n (f ∷ more) fs h = inr (IsHeard-append n more fs h)

pub IsAnswer-append : (more ds : List Frame) (g : Frame) → IsAnswer ds g → IsAnswer (more ++ ds) g
IsAnswer-append more ds g (inl e) = inl e
IsAnswer-append more ds g (inr (n, small, body, h)) =
    inr (n, small, body, IsHeard-append n more ds h)

pub IsSettled-append :
    (addr : ℕ) (more ds fails : List Frame) (ps : List Pending) (f : Frame)
    → IsSettled addr ds fails ps f
    → IsSettled addr (more ++ ds) fails ps f
IsSettled-append addr more ds fails ps f (inl m) = inl (In-append f more ds m)
IsSettled-append addr more ds fails ps f (inr w) = inr w

-- Storing to an entry keeps what the others hold.
pub IsWaiting-set :
    (addr : ℕ) (f : Frame) (ps : List Pending) (i : ℕ) (p q : Pending)
    → IsWaiting addr f ps
    → get_elem? ps i ≡ some p
    → IsWaiting addr f (set ps i q) ⊎ ((p.in_use ≡ true) × (pending_to_frame p addr ≡ f))
IsWaiting-set addr f [] i p q w at = absurd w
IsWaiting-set addr f (x ∷ xs) zero p q (inl (u, e)) at =
    let same : x ≡ p = ground (arith, at) in
    inr (subst (λ (t : Pending). (t.in_use ≡ true) × (pending_to_frame t addr ≡ f)) same (u, e))
IsWaiting-set addr f (x ∷ xs) zero p q (inr w) at = inl (inr w)
IsWaiting-set addr f (x ∷ xs) (suc i) p q (inl h) at = inl (inl h)
IsWaiting-set addr f (x ∷ xs) (suc i) p q (inr w) at = elim (IsWaiting-set addr f xs i p q w at) [
  | inl kept ↦ inl (inr kept)
  | inr here ↦ inr here
]

pub IsWaiting-stored :
    (addr : ℕ) (ps : List Pending) (i : ℕ) (p q : Pending)
    → get_elem? ps i ≡ some p
    → q.in_use ≡ true
    → IsWaiting addr (pending_to_frame q addr) (set ps i q)
IsWaiting-stored addr [] i p q at u = ground (arith, at)
IsWaiting-stored addr (x ∷ xs) zero p q at u = inl (u, refl)
IsWaiting-stored addr (x ∷ xs) (suc i) p q at u = inr (IsWaiting-stored addr xs i p q at u)

-- Frames of which no two have the same number are determined by it.
pub IsDistinct-unique :
    (fs : List Frame) (f g : Frame) → IsDistinct fs → In f fs → In g fs → f.seq ≡ g.seq → f ≡ g
IsDistinct-unique [] f g d m n e = absurd m
IsDistinct-unique (x ∷ xs) f g d (inl a) (inl b) e = a ∙ sym b
IsDistinct-unique (x ∷ xs) f g (d, ds) (inl a) (inr n) e =
    absurd (All-In (λ h. x.seq ≢ h.seq) g xs d n (ap (λ (h : Frame). h.seq) (sym a) ∙ e))
IsDistinct-unique (x ∷ xs) f g (d, ds) (inr m) (inl b) e =
    absurd (All-In (λ h. x.seq ≢ h.seq) f xs d m (ap (λ (h : Frame). h.seq) (sym b) ∙ sym e))
IsDistinct-unique (x ∷ xs) f g (d, ds) (inr m) (inr n) e = IsDistinct-unique xs f g ds m n e

-- What the filter knows after an entry is stored it knew before, or it is that entry.
pub seen_contains-stored :
    (ss : List Seen) (i src session m n : ℕ)
    → seen_contains (set ss i (seen_entry src session m)) src session n ≡ true
    → (seen_contains ss src session n ≡ true) ⊎ (m ≡ n)
unfolding seen_contains
seen_contains-stored [] i src session m n h = inl h
seen_contains-stored (x ∷ xs) zero src session m n h = elim (Bool-cases (m == n)) [
  | inl e ↦ inr ((==_iff m n).0 e)
  | inr e ↦ inl (ground (arith, e, h))
]
seen_contains-stored (x ∷ xs) (suc i) src session m n h =
    elim (Bool-cases (seen_matches src session n x)) [
      | inl e ↦ inl (rw e refl)
      | inr e ↦ elim (seen_contains-stored xs i src session m n (ground (arith, e, h))) [
        | inl k ↦ inl (rw e k)
        | inr k ↦ inr k
      ]
    ]

reported-append : (cs ds : Calls) → reported (cs ++ ds) ≡ reported cs ++ reported ds
reported-append [] ds = refl
reported-append (c ∷ cs) ds = elim (Bool-cases (is_fail c.fn)) [
  | inl e ↦ rw e (ap (λ (t : List Frame). c.frame ∷ t) (reported-append cs ds))
  | inr e ↦ rw e (reported-append cs ds)
]

module _ (r : Endpoint) (sends : r.send_fn ≡ some on_send) (fails : r.fail_fn ≡ some on_fail)
    (now : ℕ) where
  -- After a tick of an entry in use its frame is reported, or the entry still holds it.
  abbrev IsKept : Frame → Pending × Calls → Type 0
  IsKept f (p, calls) =
      In f (reported calls) ⊎ ((p.in_use ≡ true) × (pending_to_frame p r.my_addr ≡ f))

  tick_entry-IsKept :
      (p : Pending) → p.in_use ≡ true → IsKept (pending_to_frame p r.my_addr) (tick_entry r now p)
  unfolding emit_frame pending_to_frame
  tick_entry-IsKept p u = elim (tick_entry-cases r now p) [
    | inl e ↦ rw e (inr (u, refl))
    | inr (inl e) ↦ rw (e, fails) (inl (inl refl))
    | inr (inr (v, again, deadline, e)) ↦ rw (e, sends) (inr (u, refl))
  ]

  -- A tick drops no frame without a report.
  pub tick_loop-IsWaiting :
      (f : Frame) (ps : List Pending)
      → IsWaiting r.my_addr f ps
      → In f (reported ((tick_loop r now ps).1)) ⊎ IsWaiting r.my_addr f ((tick_loop r now ps).0)
  unfolding tick_loop
  tick_loop-IsWaiting f [] w = absurd w
  tick_loop-IsWaiting f (p ∷ ps) (inl (u, e)) =
      let joined = sym (reported-append ((tick_entry r now p).1) ((tick_loop r now ps).1)) in
      elim (subst (λ (g : Frame). IsKept g (tick_entry r now p)) e (tick_entry-IsKept p u)) [
        | inl m ↦ inl (
            subst (In f) joined
              (In-left f (reported ((tick_entry r now p).1)) (reported ((tick_loop r now ps).1)) m))
        | inr k ↦ inr (inl k)
      ]
  tick_loop-IsWaiting f (p ∷ ps) (inr w) =
      let joined = sym (reported-append ((tick_entry r now p).1) ((tick_loop r now ps).1)) in
      elim (tick_loop-IsWaiting f ps w) [
        | inl m ↦ inl (
            subst (In f) joined (
              In-append f (reported ((tick_entry r now p).1)) (reported ((tick_loop r now ps).1))
                m))
        | inr k ↦ inr (inr k)
      ]
