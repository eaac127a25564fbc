-- ===== src/Network/Traffic.antt =====
-- What the operations of src/arc_reliable.c put on the network.
use arc_protocol.Prelude.{◌+◌, Bool, get_elem?}
use arc_protocol.Prelude.{
  ℕ, zero, suc, ◌≡◌, refl, sym, ap, ◌⊎◌, inl, inr, arith, not, ◌&&◌, ◌||◌, leb, ltb, Bool-cases,
  Option-cases,
}
use arc_protocol.Prelude.{true, false, some, List, [], ◌∷◌, ◌++◌, set, bit_or}
use mathlib.Core.Path.{subst}
use arc_protocol.Memory.{u8, u32}
use arc_protocol.Memory.{Bytes, Ptr, Run, done, fault, is_null}
use arc_protocol.Protocol.{Error, err, Frame, ok, flag_reliable}
use arc_protocol.Router.{Call, call_of}
use arc_protocol.Reliable.{
  zero_pending, Pending, Reliable, pending_alloc, staged, copy_payload, fill_slot, take_seq,
  emit_frame, send,
}
use arc_protocol.Reliable.{
  pending_to_frame, tick_entry, tick_loop, clear_pending, pending_find, pending_matches, early,
}
use arc_protocol.Reliable.Slots.{find_index-some}
use arc_protocol.Reliable.Invariant.{clear_pending-none, clear_pending-some}
use arc_protocol.Network.{Callback, on_send, on_fail, Endpoint, Calls, is_send, sent, In, All}

pub Run-cases {ℓ} : {A : Type ℓ} (m : Run A) → (m ≡ fault) ⊎ ((a : A) × (m ≡ done a))
Run-cases (done a) = inr (a, refl)
Run-cases fault = inl refl

module _ {Fn User : Type 0} where
  pub record Filled (r : Reliable Fn User) (dst family type flags len now_ms : ℕ)
      (a : Reliable Fn User) (calls : List (Call Fn User)) : Type 0 where
    pub i : ℕ
    pub out : Bytes
    pub old : Pending
    pub is_at : get_elem? r.pending i ≡ some old
    pub is_free : old.in_use ≡ false
    pub is_next : a ≡ record (take_seq r) {
      pending = set r.pending i (
          staged
            (take_seq r)
            out
            dst
            family
            type
            (bit_or flags flag_reliable)
            r.next_seq
            len
            now_ms);
    }
    pub is_sent :
        calls
        ≡ emit_frame (take_seq r) (
            staged
              (take_seq r)
              out
              dst
              family
              type
              (bit_or flags flag_reliable)
              r.next_seq
              len
              now_ms)

  -- A send that returns `ARC_OK` has filled a slot and sent the slot's frame.
  pub send-inv :
      (r : Reliable Fn User) (dst family type flags : ℕ) (payload : Ptr Bytes) (len now_ms n : ℕ)
      (a : Reliable Fn User) (calls : List (Call Fn User))
      → send r dst family type flags true payload len now_ms ≡ done (ok n, (a, calls))
      → Filled r dst family type flags len now_ms a calls
  unfolding send fill_slot
  send-inv r dst family type flags payload len now_ms n a calls h = elim (Bool-cases (ltb 64 len)) [
    | inl long ↦ absurd (ground (arith, long, h))
    | inr fits ↦ elim (Bool-cases (is_null payload && ltb 0 len)) [
      | inl bad ↦ absurd (ground (arith, fits, bad, h))
      | inr good ↦ elim (Option-cases (pending_alloc r.pending)) [
        | inl e ↦ absurd (ground (arith, fits, good, e, h))
        | inr (i, e) ↦
            let (old, at, free) = find_index-some (λ (p : Pending). not p.in_use) r.pending i e in
            elim (Run-cases (copy_payload old.payload payload len)) [
              | inl c ↦ absurd (ground (arith, fits, good, e, at, c, h))
              | inr (out, c) ↦ record {
                i = i;
                out = out;
                old = old;
                is_at = at;
                is_free = ground (arith, free);
                is_next = ground (arith, fits, good, e, at, c, h);
                is_sent = ground (arith, fits, good, e, at, c, h);
              }
            ]
      ]
    ]
  ]

pub In-append : (f : Frame) (fs gs : List Frame) → In f gs → In f (fs ++ gs)
In-append f [] gs m = m
In-append f (g ∷ fs) gs m = inr (In-append f fs gs m)

pub In-left : (f : Frame) (fs gs : List Frame) → In f fs → In f (fs ++ gs)
In-left f [] gs m = absurd m
In-left f (g ∷ fs) gs (inl e) = inl e
In-left f (g ∷ fs) gs (inr m) = inr (In-left f fs gs m)

-- Every entry in use holds one of the frames.
abbrev pub IsQueued : ℕ → List Frame → List Pending → Type 0
IsQueued addr fs [] = Unit
IsQueued addr fs (p ∷ ps) =
    (p.in_use ≡ true → In (pending_to_frame p addr) fs) × IsQueued addr fs ps

pub IsQueued-append :
    (addr : ℕ) (more fs : List Frame) (ps : List Pending)
    → IsQueued addr fs ps
    → IsQueued addr (more ++ fs) ps
IsQueued-append addr more fs [] q = tt
IsQueued-append addr more fs (p ∷ ps) (q, qs) =
    ((λ u. In-append (pending_to_frame p addr) more fs (q u)), IsQueued-append addr more fs ps qs)

pub IsQueued-set :
    (addr : ℕ) (fs : List Frame) (ps : List Pending) (i : ℕ) (p : Pending)
    → IsQueued addr fs ps
    → (p.in_use ≡ true → In (pending_to_frame p addr) fs)
    → IsQueued addr fs (set ps i p)
IsQueued-set addr fs [] i p q m = tt
IsQueued-set addr fs (x ∷ xs) zero p (q, qs) m = (m, qs)
IsQueued-set addr fs (x ∷ xs) (suc i) p (q, qs) m = (q, IsQueued-set addr fs xs i p qs m)

pub IsQueued-clear_pending :
    (addr : ℕ) (fs : List Frame) (ps : List Pending) (dst session seq : ℕ)
    → IsQueued addr fs ps
    → IsQueued addr fs (clear_pending ps dst session seq)
IsQueued-clear_pending addr fs ps dst session seq q =
    elim (Option-cases (pending_find ps dst session seq)) [
      | inl e ↦ rw (clear_pending-none ps dst session seq e) q
      | inr (i, e) ↦
          let (p, at, holds) = find_index-some (pending_matches dst session seq) ps i e in
          rw (clear_pending-some ps dst session seq i p e at)
            (IsQueued-set addr fs ps i (record p { in_use = false }) q (λ u. cc))
    ]

-- A frame that is handed to the network by a stored callback.
pub sent-call_of :
    (fn : Ptr Callback) (user : Ptr (Unit {0})) (f : Frame)
    → fn ≡ some on_send
    → sent (call_of fn user f) ≡ f ∷ []
sent-call_of fn user f e = rw e refl

-- The three things that a tick does to an entry.
pub tick_entry-cases :
    (r : Endpoint) (now : ℕ) (p : Pending)
    → (tick_entry r now p ≡ (p, []))
      ⊎ ((tick_entry r now p ≡ (
        record p { in_use = false },
        call_of r.fail_fn r.user (pending_to_frame p r.my_addr),
      ))
          ⊎ ((p.in_use ≡ true)
              × (again : ℕ) × (deadline : ℕ) × (tick_entry r now p
                  ≡ (record p { retries = again; deadline_ms = deadline }, emit_frame r p))))
unfolding tick_entry emit_frame pending_to_frame
tick_entry-cases r now p = elim (Bool-cases (not p.in_use || early now p.deadline_ms)) [
  | inl e ↦ inl (rw e refl)
  | inr e ↦ elim (Bool-cases (leb r.max_retries p.retries)) [
    | inl f ↦ inr (inl (rw (e, f) refl))
    | inr f ↦
        inr (inr (ground (arith, e), u8 (p.retries + 1), u32 (now + r.timeout_ms), rw (e, f) refl))
  ]
]

sent-append : (cs ds : Calls) → sent (cs ++ ds) ≡ sent cs ++ sent ds
sent-append [] ds = refl
sent-append (c ∷ cs) ds = elim (Bool-cases (is_send c.fn)) [
  | inl e ↦ rw e (ap (λ (t : List Frame). c.frame ∷ t) (sent-append cs ds))
  | inr e ↦ rw e (sent-append cs ds)
]

pub All-append : (P : Frame → Type 0) (fs gs : List Frame) → All P fs → All P gs → All P (fs ++ gs)
All-append P [] gs a b = b
All-append P (f ∷ fs) gs a b = (a.0, All-append P fs gs a.1 b)

module _ (r : Endpoint) (sends : r.send_fn ≡ some on_send) (fails : r.fail_fn ≡ some on_fail)
    (fs : List Frame) (now : ℕ) where
  -- A call of an entry sends one of the frames, and the entry still holds it.
  abbrev IsLoyal : Pending × Calls → Type 0
  IsLoyal (p, calls) =
      All (λ f. In f fs) (sent calls) × (p.in_use ≡ true → In (pending_to_frame p r.my_addr) fs)

  tick_entry-IsLoyal :
      (p : Pending)
      → (p.in_use ≡ true → In (pending_to_frame p r.my_addr) fs)
      → IsLoyal (tick_entry r now p)
  unfolding emit_frame pending_to_frame
  tick_entry-IsLoyal p q = elim (tick_entry-cases r now p) [
    | inl e ↦ rw e (tt, q)
    | inr (inl e) ↦ rw (e, fails) (tt, λ u. cc)
    | inr (inr (u, again, deadline, e)) ↦ rw (e, sends) ((q u, tt), q)
  ]

  -- A tick repeats frames only.
  pub tick_loop-sent :
      (ps : List Pending)
      → IsQueued r.my_addr fs ps
      → All (λ f. In f fs) (sent ((tick_loop r now ps).1))
        × IsQueued r.my_addr fs ((tick_loop r now ps).0)
  unfolding tick_loop
  tick_loop-sent [] q = (tt, tt)
  tick_loop-sent (p ∷ ps) (q, qs) =
      let (first, kept) = tick_entry-IsLoyal p q in
      let (rest, queued) = tick_loop-sent ps qs in
      (
        subst (All (λ f. In f fs))
            (sym (sent-append ((tick_entry r now p).1) ((tick_loop r now ps).1)))
            (All-append (λ f. In f fs) (sent ((tick_entry r now p).1))
              (sent ((tick_loop r now ps).1)) first rest),
        (kept, queued),
      )

-- A send that returns an error changes the sequence number at most, and calls nothing.
pub send-err :
    (r : Endpoint) (dst family type flags : ℕ) (reliable : Bool) (payload : Ptr Bytes)
    (len now_ms : ℕ) (x : Error) (a : Endpoint) (calls : Calls)
    → send r dst family type flags reliable payload len now_ms ≡ done (err x, (a, calls))
    → (calls ≡ []) × ((a ≡ r) ⊎ (a ≡ take_seq r))
unfolding send fill_slot
send-err r dst family type flags reliable payload len now_ms x a calls h =
    elim (Bool-cases (ltb 64 len)) [
      | inl long ↦ (ground (arith, long, h), inl (ground (arith, long, h)))
      | inr fits ↦ elim (Bool-cases (is_null payload && ltb 0 len)) [
        | inl bad ↦ (ground (arith, fits, bad, h), inl (ground (arith, fits, bad, h)))
        | inr good ↦ elim (Bool-cases reliable) [
          | inr plain ↦ elim (Run-cases (copy_payload zero_pending.payload payload len)) [
            | inl c ↦ absurd (ground (arith, fits, good, plain, c, h))
            | inr (out, c) ↦ absurd (ground (arith, fits, good, plain, c, h))
          ]
          | inl rel ↦ elim (Option-cases (pending_alloc r.pending)) [
            | inl e ↦
                (ground (arith, fits, good, rel, e, h), inr (ground (arith, fits, good, rel, e, h)))
            | inr (i, e) ↦
                let (old, at, free) =
                  find_index-some (λ (p : Pending). not p.in_use) r.pending i e in
                elim (Run-cases (copy_payload old.payload payload len)) [
                  | inl c ↦ absurd (ground (arith, fits, good, rel, e, at, c, h))
                  | inr (out, c) ↦ absurd (ground (arith, fits, good, rel, e, at, c, h))
                ]
          ]
        ]
      ]
    ]
