-- ===== src/Reliable/Outstanding.antt =====
-- A round of the timers, `arc_reliable_tick` of src/arc_reliable.c, beside a description of it on
-- the list of the messages outstanding, which has no slots.
use arc_protocol.Prelude.{ℕ, ◌+◌, ◌-◌, ◌<◌, ◌^◌, ◌%◌, not, ltb, if◌then◌else◌, Bool, true, false}
use arc_protocol.Prelude.{Bool-cases, List, [], ◌∷◌, ◌++◌, ◌≡◌, refl, ap, ◌∙◌, inl, inr, arith}
use arc_protocol.Memory.{u8, u32}
use arc_protocol.Router.{Call, call_of}
use arc_protocol.Reliable.{
  Pending, Reliable, early, pending_to_frame, emit_frame, tick_entry, tick_loop, tick,
}
use arc_protocol.Reliable.Invariant.{IsValid}
use arc_protocol.Reliable.Timer.{tick_entry-retries, tick-IsValid}

-- The entries in use, in the order of the table.
unfoldable pub outstanding : List Pending → List Pending
outstanding [] = []
outstanding (p ∷ ps) = if p.in_use then p ∷ outstanding ps else outstanding ps

-- On the 32-bit clock less than half a turn has passed since the deadline.
abbrev pub is_due : ℕ → ℕ → Bool
is_due now deadline = ltb ((now + 2 ^ 32 - deadline) % 2 ^ 32) (2 ^ 31)

-- What is outstanding after a round: a message that is not due stays as it is, one that is due
-- with retries left counts one more and gets a new deadline, and any other is given up.
unfoldable pub remaining : (now timeout max_retries : ℕ) → List Pending → List Pending
remaining now timeout max_retries [] = []
remaining now timeout max_retries (m ∷ ms) =
    let rest = remaining now timeout max_retries ms in
    if not (is_due now m.deadline_ms)
    then m ∷ rest
    else if ltb m.retries max_retries
    then record m { retries = m.retries + 1; deadline_ms = (now + timeout) % 2 ^ 32 } ∷ rest
    else rest

-- The calls of a round: each message that is due goes to the send callback while it has retries
-- left, and else to the fail callback.
unfoldable pub announced :
    {Fn User : Type 0} → Reliable Fn User → ℕ → List Pending → List (Call Fn User)
announced r now [] = []
announced r now (m ∷ ms) =
    let rest = announced r now ms in
    let frame = pending_to_frame m r.my_addr in
    if not (is_due now m.deadline_ms)
    then rest
    else if ltb m.retries r.max_retries
    then call_of r.send_fn r.user frame ++ rest
    else call_of r.fail_fn r.user frame ++ rest

early-eq-is_due : (now deadline : ℕ) → early now deadline ≡ not (is_due now deadline)
early-eq-is_due now deadline = ground arith

module _ {Fn User : Type 0} where
  tick_entry-rests :
      (r : Reliable Fn User) (now : ℕ) (p : Pending)
      → p.in_use ≡ false
      → tick_entry r now p ≡ (p, [])
  unfolding tick_entry
  tick_entry-rests r now p free = rw free refl

  tick_entry-waits :
      (r : Reliable Fn User) (now : ℕ) (p : Pending)
      → p.in_use ≡ true
      → is_due now p.deadline_ms ≡ false
      → tick_entry r now p ≡ (p, [])
  unfolding tick_entry
  tick_entry-waits r now p used e = rw (used, early-eq-is_due now p.deadline_ms, e) refl

  tick_entry-gives_up :
      (r : Reliable Fn User) (now : ℕ) (p : Pending)
      → p.in_use ≡ true
      → is_due now p.deadline_ms ≡ true
      → ltb p.retries r.max_retries ≡ false
      → tick_entry r now p
        ≡ (record p { in_use = false }, call_of r.fail_fn r.user (pending_to_frame p r.my_addr))
  unfolding tick_entry
  tick_entry-gives_up r now p used due spent =
      ground (arith, used, early-eq-is_due now p.deadline_ms, due, spent)

  tick_loop-outstanding :
      (r : Reliable Fn User) (now : ℕ) (ps : List Pending)
      → r.max_retries < 256
      → (outstanding ((tick_loop r now ps).0)
          ≡ remaining now r.timeout_ms r.max_retries (outstanding ps))
        × ((tick_loop r now ps).1 ≡ announced r now (outstanding ps))
  unfolding tick_loop outstanding remaining announced emit_frame pending_to_frame
  tick_loop-outstanding r now [] m = (refl, refl)
  tick_loop-outstanding r now (p ∷ ps) m =
      let (kept, told) = tick_loop-outstanding r now ps m in
      elim (Bool-cases p.in_use) [
        | inr free ↦ rw (tick_entry-rests r now p free, free) (kept, told)
        | inl used ↦ elim (Bool-cases (is_due now p.deadline_ms)) [
          | inr e ↦
              rw (tick_entry-waits r now p used e, used, e)
                (ap (λ (t : List Pending). record p { in_use = true } ∷ t) kept, told)
          | inl due ↦ elim (Bool-cases (ltb p.retries r.max_retries)) [
            | inr spent ↦
                rw (tick_entry-gives_up r now p used due spent, used, due, spent)
                  (
                    kept,
                    ap (λ t. call_of r.fail_fn r.user (pending_to_frame p r.my_addr) ++ t) told,
                  )
            | inl left ↦
                let again =
                  tick_entry-retries r now p used (early-eq-is_due now p.deadline_ms ∙ ap not due)
                    (ground (arith, left)) in
                let no_wrap : u8 (p.retries + 1) ≡ p.retries + 1 = ground (arith, left, m) in
                let again_entry : Pending = record p {
                  in_use = true;
                  retries = p.retries + 1;
                  deadline_ms = u32 (now + r.timeout_ms);
                } in
                rw (again, no_wrap, used, due, left)
                  (
                    ap (λ (t : List Pending). again_entry ∷ t) kept,
                    ap (λ t. call_of r.send_fn r.user (pending_to_frame p r.my_addr) ++ t) told,
                  )
          ]
        ]
      ]

  -- A round of the timers on a valid endpoint with at most 255 retries changes its pending table
  -- alone, and the endpoint stays valid. Of the messages outstanding one that is not due stays as it
  -- is, one that is due with retries left is sent again, with one retry more and a deadline one
  -- timeout from now, and one that is due without is reported as failed and is outstanding no more;
  -- nothing else is called, and the calls are in the order of the table.
  pub tick-outstanding :
      (r : Reliable Fn User) (now : ℕ)
      → IsValid r
      → r.max_retries < 256
      → (ps : List Pending) × (tick r now
          ≡ (record r { pending = ps }, announced r now (outstanding r.pending)))
        × IsValid (record r { pending = ps })
        × (outstanding ps ≡ remaining now r.timeout_ms r.max_retries (outstanding r.pending))
  unfolding tick
  tick-outstanding r now v m =
      let (kept, told) = tick_loop-outstanding r now r.pending m in
      (
        (tick_loop r now r.pending).0,
        ap (λ (t : List (Call Fn User)). (record r { pending = (tick_loop r now r.pending).0 }, t))
            told,
        (tick-IsValid r now v).0,
        kept,
      )
