-- ===== src/Reliable.antt =====
-- The reliable endpoint of src/arc_reliable.h and src/arc_reliable.c. The embedder's callbacks are
-- values of a type `Fn` that the endpoint only stores and calls; a call is an output, in the order
-- of the calls. Callbacks do not call the endpoint again. Times are `uint32_t` milliseconds.
pub mod Slots
pub mod Invariant
pub mod History
pub mod Send
pub mod Branches
pub mod Receive
pub mod Receipt
pub mod Timer
pub mod Outstanding
pub mod Exchange
use arc_protocol.Prelude.{ℕ, suc, ◌+◌, ◌-◌, ◌^◌, ◌%◌, ◌==◌, ◌&&◌, ◌||◌, not, ltb, leb}
use arc_protocol.Prelude.{if◌then◌else◌, Bool, true, false, bit_and, bit_or}
use arc_protocol.Prelude.{Option, none, some, List, [], ◌∷◌, ◌++◌, get_elem?, set}
use arc_protocol.Prelude.{replicate}
use arc_protocol.Memory.{Bytes, Ptr, Run, done, ◌>>=◌, is_null, deref, load, read, u8, u16, u32}
use arc_protocol.Memory.{write}
use arc_protocol.Protocol.{Frame, Result, ok, err, err_buffer, err_too_long, err_bad_arg}
use arc_protocol.Protocol.{flag_reliable, flag_ack, family_netmgmt, netmgmt_ack}
use arc_protocol.Frame.{be16, join16}
use arc_protocol.Router.{Call, call_of}
use mathlib.Core.Option

abbrev pub pending_max : ℕ
pending_max = 8

abbrev pub seen_max : ℕ
seen_max = 16

abbrev pub sources_max : ℕ
sources_max = 6

abbrev pub payload_max : ℕ
payload_max = 64

pub record Pending : Type 0 where
  pub in_use : Bool
  pub deadline_ms : ℕ
  pub retries : ℕ
  pub dst : ℕ
  pub flags : ℕ
  pub session : ℕ
  pub seq : ℕ
  pub family : ℕ
  pub type : ℕ
  pub payload_len : ℕ
  pub payload : Bytes

pub record Seen : Type 0 where
  pub in_use : Bool
  pub src : ℕ
  pub session : ℕ
  pub seq : ℕ

pub record Source : Type 0 where
  pub in_use : Bool
  pub src : ℕ
  pub session : ℕ

pub record Reliable (Fn User : Type 0) : Type 0 where
  pub my_addr : ℕ
  pub session : ℕ
  pub next_seq : ℕ
  pub timeout_ms : ℕ
  pub max_retries : ℕ
  pub send_fn : Ptr Fn
  pub deliver_fn : Ptr Fn
  pub fail_fn : Ptr Fn
  pub user : Ptr User
  pub pending : List Pending
  pub seen : List Seen
  pub seen_next_idx : ℕ
  pub sources : List Source

-- `arc_rx_result_t`
pub data Rx : Type 0 where
  ignored delivered duplicate ack : Rx

-- A `Pending` after `memset`.
abbrev pub zero_pending : Pending
zero_pending = record {
  in_use = false;
  deadline_ms = 0;
  retries = 0;
  dst = 0;
  flags = 0;
  session = 0;
  seq = 0;
  family = 0;
  type = 0;
  payload_len = 0;
  payload = replicate payload_max 0;
}

abbrev pub zero_seen : Seen
zero_seen = record { in_use = false; src = 0; session = 0; seq = 0 }

abbrev pub zero_source : Source
zero_source = record { in_use = false; src = 0; session = 0 }

-- The loops that return the first entry with a property, as its index.
unfoldable pub find_index {ℓ} : {A : Type ℓ} → (A → Bool) → List A → Option ℕ
find_index p [] = none
find_index p (x ∷ xs) = if p x then some 0 else Option.map suc (find_index p xs)

abbrev pub pending_alloc : List Pending → Option ℕ
pending_alloc ps = find_index (λ (p : Pending). not p.in_use) ps

-- The test of `pending_find`.
abbrev pub pending_matches : (dst session seq : ℕ) → Pending → Bool
pending_matches dst session seq p = p.in_use && p.dst == dst && p.session == session && p.seq == seq

abbrev pub pending_find : List Pending → (dst session seq : ℕ) → Option ℕ
pending_find ps dst session seq = find_index (pending_matches dst session seq) ps

unfoldable pub pending_count : List Pending → ℕ
pending_count [] = 0
pending_count (p ∷ ps) = (if p.in_use then 1 else 0) + pending_count ps

-- The test of `seen_contains`.
abbrev pub seen_matches : (src session seq : ℕ) → Seen → Bool
seen_matches src session seq s = s.in_use && s.src == src && s.session == session && s.seq == seq

unfoldable pub seen_contains : List Seen → (src session seq : ℕ) → Bool
seen_contains [] src session seq = false
seen_contains (s ∷ ss) src session seq =
    if seen_matches src session seq s then true else seen_contains ss src session seq

-- The entry that `seen_add` stores.
abbrev pub seen_entry : (src session seq : ℕ) → Seen
seen_entry src session seq = record { in_use = true; src = src; session = session; seq = seq }

-- `seen_add` gives the table and `seen_next_idx`. The code stores at `seen_next_idx` unchecked;
-- `set` past the table's end would leave it as it was, but `init` and `seen_add` set the index to
-- values below 16 only.
unfoldable pub seen_add : List Seen → ℕ → (src session seq : ℕ) → List Seen × ℕ
seen_add ss next src session seq = elim (find_index (λ (s : Seen). not s.in_use) ss) [
  | some i ↦ (set ss i (seen_entry src session seq), next)
  | none ↦ (set ss next (seen_entry src session seq), u8 ((next + 1) % seen_max))
]

unfoldable pub seen_drop_source : List Seen → ℕ → List Seen
seen_drop_source [] src = []
seen_drop_source (s ∷ ss) src =
    (if s.in_use && s.src == src then record s { in_use = false } else s) ∷ seen_drop_source ss src

-- The loop of `source_session_changed` stops at the entry in use for the source.
abbrev pub source_of : ℕ → Source → Bool
source_of src s = s.in_use && s.src == src

-- The entry of a source that is new.
abbrev pub source_entry : (src session : ℕ) → Source
source_entry src session = record { in_use = true; src = src; session = session }

-- The result and the table. Where no entry is the source's, the first free one is taken, if any.
unfoldable pub source_session_changed : List Source → (src session : ℕ) → Bool × List Source
source_session_changed ts src session = elim (find_index (source_of src) ts) [
  | some i ↦ elim (get_elem? ts i) [
    | some s ↦
        if s.session == session
        then (false, ts)
        else (true, set ts i (record s { session = session }))
    | none ↦ (false, ts)
  ]
  | none ↦ elim (find_index (λ (s : Source). not s.in_use) ts) [
    | some i ↦ (false, set ts i (source_entry src session))
    | none ↦ (false, ts)
  ]
]

unfoldable pub pending_to_frame : Pending → ℕ → Frame
pending_to_frame p my_addr = record {
  src = my_addr;
  dst = p.dst;
  flags = p.flags;
  session = p.session;
  seq = p.seq;
  family = p.family;
  type = p.type;
  payload = if ltb 0 p.payload_len then some p.payload else none;
  payload_len = p.payload_len;
}

unfoldable pub is_ack_frame : Frame → Bool
is_ack_frame frame =
    not (bit_and frame.flags flag_ack == 0)
    && frame.family == family_netmgmt
    && frame.type == netmgmt_ack

-- The `memcpy` into the slot's buffer, done when there is a payload.
unfoldable pub copy_payload : Bytes → Ptr Bytes → ℕ → Run Bytes
copy_payload buf payload len =
    if ltb 0 len then (do p ← deref payload; bytes ← read p 0 len; write buf 0 bytes) else done buf

-- `(int32_t)(now_ms - deadline_ms) < 0`
abbrev pub early : ℕ → ℕ → Bool
early now_ms deadline_ms = leb (2 ^ 31) (u32 (now_ms + 2 ^ 32 - deadline_ms))

-- `if (p != NULL) p->in_use = false`
unfoldable pub clear_pending : List Pending → (dst session seq : ℕ) → List Pending
clear_pending ps dst session seq = elim (pending_find ps dst session seq) [
  | none ↦ ps
  | some i ↦ elim (get_elem? ps i) [ some p ↦ set ps i (record p { in_use = false }) | none ↦ ps ]
]

module _ {Fn User : Type 0} where
  unfoldable pub init :
      (my_addr session timeout_ms max_retries first_seq : ℕ)
      → (send_fn deliver_fn fail_fn : Ptr Fn) → Ptr User
      → Reliable Fn User
  init my_addr session timeout_ms max_retries first_seq send_fn deliver_fn fail_fn user = record {
    my_addr = my_addr;
    session = session;
    next_seq = first_seq;
    timeout_ms = timeout_ms;
    max_retries = max_retries;
    send_fn = send_fn;
    deliver_fn = deliver_fn;
    fail_fn = fail_fn;
    user = user;
    pending = replicate pending_max zero_pending;
    seen = replicate seen_max zero_seen;
    seen_next_idx = 0;
    sources = replicate sources_max zero_source;
  }

  -- The endpoint after `take_seq`, whose result is the old `next_seq`.
  unfoldable pub take_seq : Reliable Fn User → Reliable Fn User
  take_seq r = record r { next_seq = u16 (r.next_seq + 1) }

  unfoldable pub emit_frame : Reliable Fn User → Pending → List (Call Fn User)
  emit_frame r p = call_of r.send_fn r.user (pending_to_frame p r.my_addr)

  -- The acknowledgement of `emit_ack`, which takes a sequence number of its own.
  unfoldable pub ack_frame : Reliable Fn User → Frame → Frame
  ack_frame r original = record {
    src = r.my_addr;
    dst = original.src;
    flags = flag_ack;
    session = r.session;
    seq = r.next_seq;
    family = family_netmgmt;
    type = netmgmt_ack;
    payload = some (be16 original.seq);
    payload_len = 2;
  }

  abbrev pub emit_ack : Reliable Fn User → Frame → Reliable Fn User × List (Call Fn User)
  emit_ack r original = (take_seq r, call_of r.send_fn r.user (ack_frame r original))

  -- The slot that `arc_reliable_send` fills in, with the payload in its buffer.
  abbrev pub staged :
      Reliable Fn User → Bytes → (dst family type flags seq len now_ms : ℕ) → Pending
  staged r bytes dst family type flags seq len now_ms = record {
    in_use = true;
    deadline_ms = u32 (now_ms + r.timeout_ms);
    retries = 0;
    dst = dst;
    flags = flags;
    session = r.session;
    seq = seq;
    family = family;
    type = type;
    payload_len = u8 len;
    payload = bytes;
  }

  -- `old` is the slot's buffer before.
  unfoldable pub fill_slot :
      Reliable Fn User
      → Bytes
      → (dst family type flags seq : ℕ) → Ptr Bytes
      → (len now_ms : ℕ) → Run Pending
  fill_slot r old dst family type flags seq payload len now_ms = do
    bytes ← copy_payload old payload len
    done (staged r bytes dst family type flags seq len now_ms)

  -- The value of `ok` is the sequence number, which the code stores in `*out_seq`.
  unfoldable pub send :
      Reliable Fn User
      → (dst family type flags : ℕ) → (reliable : Bool) → Ptr Bytes
      → (payload_len now_ms : ℕ) → Run (Result ℕ × (Reliable Fn User × List (Call Fn User)))
  send r dst family type flags reliable payload payload_len now_ms =
      if ltb payload_max payload_len
      then done (err err_too_long, (r, []))
      else if is_null payload && ltb 0 payload_len
      then done (err err_bad_arg, (r, []))
      else let seq = r.next_seq in
        let taken = take_seq r in
        if reliable
        then elim (pending_alloc r.pending) [
          | none ↦ done (err err_buffer, (taken, []))
          | some i ↦ (do
            old ← deref (get_elem? r.pending i)
            slot ←
                fill_slot taken old.payload dst family type (bit_or flags flag_reliable) seq payload
                  payload_len now_ms
            done (ok seq, (record taken { pending = set r.pending i slot }, emit_frame taken slot)))
        ]
        else (do
          slot ←
              fill_slot taken zero_pending.payload dst family type flags seq payload payload_len
                now_ms
          done (ok seq, (taken, emit_frame taken slot)))

  unfoldable pub receive_ack : Reliable Fn User → Frame → Run (Reliable Fn User)
  receive_ack r frame =
      if not (frame.payload_len == 2) || is_null frame.payload then done r else (do
        p ← deref frame.payload
        hi ← load p 0
        lo ← load p 1
        done (record r { pending = clear_pending r.pending frame.src r.session (join16 hi lo) }))

  -- The endpoint once the source's session is looked up and, if it changed, its history dropped.
  unfoldable pub note_source : Reliable Fn User → Frame → Reliable Fn User
  note_source r frame =
      let (changed, ts) = source_session_changed r.sources frame.src frame.session in
      record r {
        sources = ts;
        seen = if changed then seen_drop_source r.seen frame.src else r.seen;
      }

  unfoldable pub note_seen : Reliable Fn User → Frame → Reliable Fn User
  note_seen r frame =
      let (ss, next) = seen_add r.seen r.seen_next_idx frame.src frame.session frame.seq in
      record r { seen = ss; seen_next_idx = next }

  unfoldable pub receive_reliable :
      Reliable Fn User → Frame → Rx × (Reliable Fn User × List (Call Fn User))
  receive_reliable r frame =
      let noted = note_source r frame in
      let again = seen_contains noted.seen frame.src frame.session frame.seq in
      let (acked, calls) = emit_ack noted frame in
      if again
      then (duplicate, (acked, calls))
      else (delivered, (note_seen acked frame, calls ++ call_of r.deliver_fn r.user frame))

  unfoldable pub receive :
      Reliable Fn User → Frame → Run (Rx × (Reliable Fn User × List (Call Fn User)))
  receive r frame =
      if not (frame.dst == r.my_addr)
      then done (ignored, (r, []))
      else if is_ack_frame frame
      then (receive_ack r frame >>= λ r'. done (ack, (r', [])))
      else if not (bit_and frame.flags flag_reliable == 0)
      then done (receive_reliable r frame)
      else done (delivered, (r, call_of r.deliver_fn r.user frame))

  -- The body of the loop of `arc_reliable_tick`: the entry then, and the calls.
  unfoldable pub tick_entry : Reliable Fn User → ℕ → Pending → Pending × List (Call Fn User)
  tick_entry r now_ms p =
      if not p.in_use || early now_ms p.deadline_ms
      then (p, [])
      else if leb r.max_retries p.retries
      then (record p { in_use = false }, call_of r.fail_fn r.user (pending_to_frame p r.my_addr))
      else (let again : Pending = record p {
        retries = u8 (p.retries + 1);
        deadline_ms = u32 (now_ms + r.timeout_ms);
      } in
          (again, emit_frame r again))

  unfoldable pub tick_loop :
      Reliable Fn User → ℕ → List Pending → List Pending × List (Call Fn User)
  tick_loop r now_ms [] = ([], [])
  tick_loop r now_ms (p ∷ ps) =
      let (p', calls) = tick_entry r now_ms p in
      let (ps', rest) = tick_loop r now_ms ps in (p' ∷ ps', calls ++ rest)

  unfoldable pub tick : Reliable Fn User → ℕ → Reliable Fn User × List (Call Fn User)
  tick r now_ms =
      let (ps, calls) = tick_loop r now_ms r.pending in (record r { pending = ps }, calls)
