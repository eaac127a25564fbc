-- ===== src/Reliable/Timer.antt =====
-- The timers: `arc_reliable_tick` of src/arc_reliable.c, the 32-bit clock that it compares with,
-- and what a run of ticks does to one entry.
use arc_protocol.Prelude.{ℕ, suc, zero, ◌+◌, ◌<◌, ◌≤◌, ◌^◌, ◌-◌, true, false, Bool-cases}
use arc_protocol.Prelude.{List, [], ◌∷◌, ◌++◌, length, append-nil, append_assoc, leb-true, lt_or_le}
use arc_protocol.Prelude.{◌≡◌, refl, sym, ap, ◌∙◌, inl, inr, arith, ◌↔◌}
use arc_protocol.Memory.{u8, u32}
use arc_protocol.Router.{Call, call_of}
use arc_protocol.Reliable.{
  Pending, Reliable, early, pending_to_frame, emit_frame, tick_entry, tick_loop, tick,
  pending_count,
}
use arc_protocol.Reliable.Slots.{weight}
use arc_protocol.Reliable.Invariant.{IsValid, IsBuffered}

-- The test of the tick is right across the clock's wrap-around: with a timeout and a wait below
-- 2^31 ms, an entry whose deadline was set at `start` is too early exactly when less than the
-- timeout has passed.
pub early_iff :
    (start timeout wait : ℕ)
    → start < 2 ^ 32
    → timeout < 2 ^ 31
    → wait < 2 ^ 31
    → (early (u32 (start + wait)) (u32 (start + timeout)) ≡ true) ↔ (wait < timeout)
early_iff start timeout wait s t w = (
  (λ h. elim (lt_or_le wait timeout) [ inl p ↦ p | inr p ↦ ground (arith, h, p, s, t, w) ]),
  (λ p.
      leb-true (2 ^ 31) (u32 (u32 (start + wait) + 2 ^ 32 - u32 (start + timeout)))
        (omega (arith, p, s, t, w))),
)

-- Every gap is a timeout or more, and less than half the clock's range.
abbrev pub IsLate : ℕ → List ℕ → Type 0
IsLate timeout [] = Unit
IsLate timeout (d ∷ ds) = ((timeout ≤ d) × (d < 2 ^ 31)) × IsLate timeout ds

-- A due test with the clock past the deadline.
late :
    (now timeout d : ℕ)
    → now < 2 ^ 32
    → timeout < 2 ^ 31
    → timeout ≤ d
    → d < 2 ^ 31
    → early (u32 (now + d)) (u32 (now + timeout)) ≡ false
late now timeout d n t le lt = elim (Bool-cases (early (u32 (now + d)) (u32 (now + timeout)))) [
  | inl e ↦ absurd (omega (arith, (early_iff now timeout d n t lt).0 e, le))
  | inr e ↦ e
]

module _ {Fn User : Type 0} where
  -- The ticks that come `gaps` after each other, the first of them after `now`, on one entry.
  pub after : Reliable Fn User → ℕ → List ℕ → Pending → Pending × List (Call Fn User)
  after r now [] p = (p, [])
  after r now (d ∷ ds) p =
      let (p', calls) = tick_entry r (u32 (now + d)) p in
      let (q, rest) = after r (u32 (now + d)) ds p' in (q, calls ++ rest)

  -- `k` times the same calls.
  pub copies : ℕ → List (Call Fn User) → List (Call Fn User)
  copies zero calls = []
  copies (suc k) calls = calls ++ copies k calls

  pub tick_entry-retries :
      (r : Reliable Fn User) (now : ℕ) (p : Pending)
      → p.in_use ≡ true
      → early now p.deadline_ms ≡ false
      → p.retries < r.max_retries
      → let again = record p {
        retries = u8 (p.retries + 1);
        deadline_ms = u32 (now + r.timeout_ms);
      } in
        tick_entry r now p ≡ (again, emit_frame r p)
  unfolding tick_entry emit_frame pending_to_frame
  tick_entry-retries r now p used due h = ground (arith, used, due, h)

  pub tick_entry-fails :
      (r : Reliable Fn User) (now : ℕ) (p : Pending)
      → p.in_use ≡ true
      → early now p.deadline_ms ≡ false
      → p.retries ≡ r.max_retries
      → tick_entry r now p
        ≡ (record p { in_use = false }, call_of r.fail_fn r.user (pending_to_frame p r.my_addr))
  unfolding tick_entry
  tick_entry-fails r now p used due h = ground (arith, used, due, h)

  -- An entry in use that is never acknowledged, with its deadline set at the 32-bit time `now`, a
  -- timeout below 2^31 ms and at most 255 retries, ticked each time after the timeout or more but
  -- less than 2^31 ms: with `k` retries left it is sent `k` more times, the same frame each time,
  -- then reported as failed once, and its slot is free.
  pub retries_then_fails :
      (r : Reliable Fn User) (k now d : ℕ) (ds : List ℕ) (p : Pending)
      → r.timeout_ms < 2 ^ 31
      → r.max_retries < 256
      → now < 2 ^ 32
      → p.in_use ≡ true
      → p.deadline_ms ≡ u32 (now + r.timeout_ms)
      → p.retries + k ≡ r.max_retries
      → length (d ∷ ds) ≡ k + 1
      → IsLate r.timeout_ms (d ∷ ds)
      → ((after r now (d ∷ ds) p).0.in_use ≡ false)
        × ((after r now (d ∷ ds) p).1
            ≡ copies k (emit_frame r p) ++ call_of r.fail_fn r.user (pending_to_frame p r.my_addr))
  unfolding after copies emit_frame pending_to_frame
  retries_then_fails r zero now d (e ∷ es) p t m n used set_at left count late_gaps =
      absurd (omega (arith, count))
  retries_then_fails r zero now d [] p t m n used set_at left count late_gaps =
      let due = late now r.timeout_ms d n t (late_gaps.0.0) (late_gaps.0.1) in
      rw (tick_entry-fails r (u32 (now + d)) p used (rw set_at due) (omega (arith, left)))
        (refl, append-nil (call_of r.fail_fn r.user (pending_to_frame p r.my_addr)))
  retries_then_fails r (suc k) now d [] p t m n used set_at left count late_gaps =
      absurd (omega (arith, count))
  retries_then_fails r (suc k) now d (e ∷ es) p t m n used set_at left count late_gaps =
      let due = late now r.timeout_ms d n t (late_gaps.0.0) (late_gaps.0.1) in
      let again : Pending = record p {
        retries = u8 (p.retries + 1);
        deadline_ms = u32 (u32 (now + d) + r.timeout_ms);
      } in
      let (freed, calls) =
        retries_then_fails r k (u32 (now + d)) e es again t m (omega arith) used refl
          (omega (arith, left, m)) (omega (arith, count)) (late_gaps.1) in
      rw (tick_entry-retries r (u32 (now + d)) p used (rw set_at due) (omega (arith, left))) (
        freed,
        ap (λ (t : List (Call Fn User)). emit_frame r p ++ t) calls
            ∙ sym (
                append_assoc (emit_frame r p) (copies k (emit_frame r p))
                  (call_of r.fail_fn r.user (pending_to_frame p r.my_addr))),
      )

  -- Entry by entry: all that a tick may change of an entry, and it takes up no slot.
  tick_entry-keeps :
      (r : Reliable Fn User) (now : ℕ) (p : Pending)
      → (length ((tick_entry r now p).0.payload) ≡ length p.payload)
        × (weight ((tick_entry r now p).0) ≤ weight p)
  unfolding tick_entry
  tick_entry-keeps r now p = ground arith

  tick_loop-keeps :
      (r : Reliable Fn User) (now : ℕ) (ps : List Pending)
      → IsBuffered ps
      → (length ((tick_loop r now ps).0) ≡ length ps)
        × IsBuffered ((tick_loop r now ps).0)
        × (pending_count ((tick_loop r now ps).0) ≤ pending_count ps)
  unfolding tick_loop pending_count
  tick_loop-keeps r now [] b = (refl, tt, omega arith)
  tick_loop-keeps r now (p ∷ ps) b =
      let (same_length, same_weight) = tick_entry-keeps r now p in
      let (l, c, w) = tick_loop-keeps r now ps b.1 in
      (omega (arith, l), (same_length ∙ b.0, c), omega (arith, same_weight, w))

  -- A tick keeps a valid endpoint valid, and does not raise the number of pending entries.
  pub tick-IsValid :
      (r : Reliable Fn User) (now : ℕ)
      → IsValid r
      → IsValid ((tick r now).0)
        × (pending_count ((tick r now).0.pending) ≤ pending_count r.pending)
  unfolding tick
  tick-IsValid r now v =
      let (l, c, w) = tick_loop-keeps r now r.pending v.buffers in
      (
        record {
          pending_length = l ∙ v.pending_length;
          buffers = c;
          seen_length = v.seen_length;
          next_victim = v.next_victim;
          sources_length = v.sources_length;
          seq_bound = v.seq_bound;
        },
        w,
      )
