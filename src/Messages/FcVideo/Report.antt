-- ===== src/Messages/FcVideo/Report.antt =====
-- The status report of src/arc_messages_fc_video.c: two arrays of which the first elements are sent.
pub mod RoundTrip
pub mod Safety
use arc_protocol.Prelude.{suc}
use arc_protocol.Prelude.{
  ℕ, ◌+◌, ◌*◌, ◌<◌, ◌≤◌, ◌≡◌, ◌==◌, ◌||◌, not, ltb, refl, sym, ap, ◌∙◌, arith, if◌then◌else◌, zero,
  suc,
}
use arc_protocol.Prelude.{
  some, List, [], ◌∷◌, ◌++◌, length, take, drop, append_assoc, ltb-false, ltb-true, ==_refl, ==_iff,
  lt_or_le, Bool-cases, inl, inr, length-append,
}
use arc_protocol.Memory.{Bytes, Ptr, Run, done, ◌>>=◌, is_null, deref}
use arc_protocol.Protocol.{
  Result, ok, err, err_bad_arg, err_too_long, err_buffer, err_bad_length, max_payload_size,
}
use arc_protocol.Messages.Cursor.{
  Cursor, put, get, store_each, load_each, all_fields, AllFirst, IsPut, put-IsPut, then-IsPut,
  store_each-IsPut, length-all_fields, IsGet, IsGet-at, get-IsGet, then-IsGet, load_each-IsGet,
  load_each-returns, get-returns,
}

abbrev pub max_slots : ℕ
max_slots = 4

abbrev pub max_senders : ℕ
max_senders = 8

pub record SenderStatus : Type 0 where
  pub addr : ℕ
  pub flags : ℕ

pub record VideoReport : Type 0 where
  pub slot_count : ℕ
  pub slots : Bytes
  pub sender_count : ℕ
  pub senders : List SenderStatus

abbrev pub video_report_size : ℕ → ℕ → ℕ
video_report_size slot_count sender_count = 2 + slot_count + sender_count * 2

-- The byte that the first loop stores for a slot, and the two of the second for a sender.
abbrev pub slot_fields : ℕ → Bytes
slot_fields slot = slot ∷ []

abbrev pub sender_fields : SenderStatus → Bytes
sender_fields s = s.addr ∷ s.flags ∷ []

unfoldable pub video_report_store : VideoReport → Cursor → Run Cursor
video_report_store m c = do
  c ← put (m.slot_count ∷ []) c
  c ← store_each slot_fields m.slots m.slot_count c
  c ← put (m.sender_count ∷ []) c
  store_each sender_fields m.senders m.sender_count c

unfoldable pub video_report_encode : Ptr VideoReport → Ptr Bytes → ℕ → Run (Result ℕ × Ptr Bytes)
video_report_encode msg out out_capacity =
    if is_null msg || is_null out then done (err err_bad_arg, out) else (do
      m ← deref msg
      buf ← deref out
      let needed = video_report_size m.slot_count m.sender_count in
          if ltb max_slots m.slot_count
          then done (err err_bad_arg, out)
          else if ltb max_senders m.sender_count
          then done (err err_bad_arg, out)
          else if ltb max_payload_size needed
          then done (err err_too_long, out)
          else if ltb out_capacity needed
          then done (err err_buffer, out)
          else (do (stored, off) ← video_report_store m (buf, 0); done (ok off, some stored)))

-- What the second loop loads for a sender.
unfoldable pub sender_parse : Bytes → ℕ → Run (SenderStatus × ℕ)
sender_parse buf off = do
  addr ← get buf off
  flags ← get buf addr.1
  done (record { addr = addr.0; flags = flags.0 }, flags.1)

-- The decoder from the second count on, whose errors leave the slots in the message.
unfoldable pub senders_decode :
    Bytes → ℕ → VideoReport → ℕ → Run (Result (Unit {0}) × Ptr VideoReport)
senders_decode buf len msg off = do
  sender_count ← get buf off
  if ltb max_senders sender_count.0
      then done (err err_too_long, some msg)
      else if not (len == video_report_size msg.slot_count sender_count.0)
      then done (err err_bad_length, some msg)
      else (do
        senders ← load_each (sender_parse buf) msg.senders sender_count.0 sender_count.1
        done (ok tt, some (record msg { sender_count = sender_count.0; senders = senders.0 })))

unfoldable pub video_report_decode :
    Ptr Bytes → ℕ → Ptr VideoReport → Run (Result (Unit {0}) × Ptr VideoReport)
video_report_decode input len msg =
    if is_null input || is_null msg
    then done (err err_bad_arg, msg)
    else if ltb len 2
    then done (err err_bad_length, msg)
    else (do
      buf ← deref input
      old ← deref msg
      slot_count ← get buf 0
      if ltb max_slots slot_count.0
          then done (err err_too_long, msg)
          else if ltb len (1 + slot_count.0 + 1)
          then done (err err_bad_length, msg)
          else (do
            slots ← load_each (get buf) old.slots slot_count.0 slot_count.1
            senders_decode buf len (record old { slot_count = slot_count.0; slots = slots.0 })
                slots.1))
