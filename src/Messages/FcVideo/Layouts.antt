-- ===== src/Messages/FcVideo/Layouts.antt =====
-- The layouts report of src/arc_messages_fc_video.c: an array of names of which the first are sent,
-- each with its NUL.
pub mod RoundTrip
pub mod Safety
use arc_protocol.Prelude.{ℕ, zero, suc, ◌+◌, ◌-◌, ◌≡◌, ◌==◌, ◌||◌, not, ltb, leb, if◌then◌else◌}
use arc_protocol.Prelude.{some, List, [], ◌∷◌}
use arc_protocol.Memory.{Bytes, Ptr, Run, done, fault, ◌>>=◌, is_null, deref, load, read}
use arc_protocol.Protocol.{
  Result, ok, err, err_bad_arg, err_too_long, err_buffer, err_bad_length, max_payload_size,
}
use arc_protocol.Messages.Cursor.{Cursor, put}
use arc_protocol.Messages.Text.{scan, text_length, keep_name}

abbrev pub max_layouts : ℕ
max_layouts = 16

abbrev pub layout_name_cap : ℕ
layout_name_cap = 24

pub record LayoutsReport : Type 0 where
  pub count : ℕ
  pub names : List Bytes

-- The loop that adds up the size.
unfoldable pub names_needed : List Bytes → ℕ → ℕ → Run (Result ℕ)
names_needed names zero needed = done (ok needed)
names_needed [] (suc n) needed = fault
names_needed (name ∷ names) (suc n) needed = do
  name_len ← scan name 0 layout_name_cap
  let rest = names_needed names n (needed + (name_len + 1)) in
      if leb layout_name_cap name_len then done (err err_bad_arg) else rest

-- The loop that stores the names.
unfoldable pub store_names : List Bytes → ℕ → Cursor → Run Cursor
store_names names zero c = done c
store_names [] (suc n) c = fault
store_names (name ∷ names) (suc n) c = do
  name_len ← text_length name
  bytes ← read name 0 name_len
  c ← put bytes c
  c ← put (0 ∷ []) c
  store_names names n c

-- The encoder once the size is known.
unfoldable pub layouts_report_store :
    LayoutsReport → Result ℕ → Ptr Bytes → ℕ → Run (Result ℕ × Ptr Bytes)
layouts_report_store m (err e) out out_capacity = done (err e, out)
layouts_report_store m (ok needed) out out_capacity =
    if ltb max_payload_size needed
    then done (err err_too_long, out)
    else if ltb out_capacity needed
    then done (err err_buffer, out)
    else (do
      buf ← deref out
      c ← put (m.count ∷ []) (buf, 0)
      (stored, off) ← store_names m.names m.count c
      done (ok off, some stored))

unfoldable pub layouts_report_encode :
    Ptr LayoutsReport → Ptr Bytes → ℕ → Run (Result ℕ × Ptr Bytes)
layouts_report_encode msg out out_capacity =
    if is_null msg || is_null out then done (err err_bad_arg, out) else (do
      m ← deref msg
      if ltb max_layouts m.count then done (err err_bad_arg, out) else (do
        needed ← names_needed m.names m.count 1
        layouts_report_store m needed out out_capacity))

-- The loop that loads the names, from `off` on: `off` behind it, and the array of names, which an
-- error leaves with the names so far.
unfoldable pub load_names : Bytes → ℕ → List Bytes → ℕ → ℕ → Run (Result ℕ × List Bytes)
load_names buf len names zero off = done (ok off, names)
load_names buf len [] (suc n) off = fault
load_names buf len (name ∷ names) (suc n) off = do
  end ← scan buf off (len - off)
  if leb len end
      then done (err err_bad_length, name ∷ names)
      else if ltb layout_name_cap (end - off + 1)
      then done (err err_too_long, name ∷ names)
      else (do
        kept ← keep_name name buf off (end - off)
        (res, rest) ← load_names buf len names n (end + 1)
        done (res, kept ∷ rest))

-- The result at the end of the loop.
unfoldable pub names_result : Result ℕ → ℕ → Result (Unit {0})
names_result (err e) len = err e
names_result (ok off) len = if not (off == len) then err err_bad_length else ok tt

unfoldable pub layouts_report_decode :
    Ptr Bytes → ℕ → Ptr LayoutsReport → Run (Result (Unit {0}) × Ptr LayoutsReport)
layouts_report_decode input len msg =
    if is_null input || is_null msg
    then done (err err_bad_arg, msg)
    else if ltb len 1
    then done (err err_bad_length, msg)
    else (do
      buf ← deref input
      old ← deref msg
      count ← load buf 0
      if ltb max_layouts count then done (err err_too_long, msg) else (do
        (res, names) ← load_names buf len old.names count 1
        done (names_result res len, some (record { count = count; names = names }))))
