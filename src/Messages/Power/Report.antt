-- ===== src/Messages/Power/Report.antt =====
-- The status report of src/arc_messages_power.c: an array of channels of which the first are sent.
pub mod RoundTrip
pub mod Safety
use arc_protocol.Prelude.{==_iff}
use arc_protocol.Prelude.{Bool-cases}
use arc_protocol.Prelude.{inr}
use arc_protocol.Prelude.{ltb-true}
use arc_protocol.Prelude.{inl}
use arc_protocol.Prelude.{lt_or_le}
use arc_protocol.Prelude.{length-append}
use arc_protocol.Prelude.{
  ℕ, ◌+◌, ◌*◌, ◌<◌, ◌≤◌, ◌^◌, ◌≡◌, ◌==◌, ◌||◌, not, ltb, refl, sym, ap, ◌∙◌, arith, if◌then◌else◌,
}
use arc_protocol.Prelude.{
  some, List, [], ◌∷◌, ◌++◌, length, take, drop, append_assoc, ltb-false, ==_refl,
}
use arc_protocol.Prelude.Int.{ℤ}
use arc_protocol.Memory.Laws.{load-append, load-done}
use arc_protocol.Memory.{Bytes, Ptr, Run, done, ◌>>=◌, is_null, deref, load}
use arc_protocol.Protocol.{
  Result, ok, err, err_bad_arg, err_too_long, err_buffer, err_bad_length, max_payload_size,
}
use arc_protocol.Messages.{half, of_int8, to_int8}
use arc_protocol.Messages.Laws.{IsInt8, to_int8-of_int8}
use arc_protocol.Messages.Cursor.{
  Cursor, put, get, get_half, store_each, load_each, all_fields, AllFirst, IsPut, put-IsPut,
  then-IsPut, store_each-IsPut, length-all_fields, IsGet, IsGet-at, get-IsGet, get_half-IsGet,
  then-IsGet, load_each-IsGet, load_each-returns, get-returns, get_half-returns,
}

abbrev pub max_channels : ℕ
max_channels = 8

pub record ChannelStatus : Type 0 where
  pub state : ℕ
  pub current_ma : ℕ

pub record PowerReport : Type 0 where
  pub channel_count : ℕ
  pub channels : List ChannelStatus
  pub bus_voltage_mv : ℕ
  pub temp_c : ℤ

abbrev pub power_report_size : ℕ → ℕ
power_report_size channel_count = 1 + channel_count * 3 + 3

-- The three bytes that the loop stores for a channel.
abbrev pub channel_fields : ChannelStatus → Bytes
channel_fields c = c.state ∷ half c.current_ma

unfoldable pub power_report_store : PowerReport → Cursor → Run Cursor
power_report_store m c = do
  c ← put (m.channel_count ∷ []) c
  c ← store_each channel_fields m.channels m.channel_count c
  c ← put (half m.bus_voltage_mv) c
  put (of_int8 m.temp_c ∷ []) c

unfoldable pub power_report_encode : Ptr PowerReport → Ptr Bytes → ℕ → Run (Result ℕ × Ptr Bytes)
power_report_encode msg out out_capacity =
    if is_null msg || is_null out then done (err err_bad_arg, out) else (do
      m ← deref msg
      buf ← deref out
      if ltb max_channels m.channel_count
          then done (err err_bad_arg, out)
          else if ltb max_payload_size (power_report_size m.channel_count)
          then done (err err_too_long, out)
          else if ltb out_capacity (power_report_size m.channel_count)
          then done (err err_buffer, out)
          else (do (stored, off) ← power_report_store m (buf, 0); done (ok off, some stored)))

-- What the loop loads for a channel.
unfoldable pub channel_parse : Bytes → ℕ → Run (ChannelStatus × ℕ)
channel_parse buf off = do
  state ← get buf off
  current_ma ← get_half buf state.1
  done (record { state = state.0; current_ma = current_ma.0 }, current_ma.1)

-- The fields, over the channels of `old`.
unfoldable pub power_report_parse : Bytes → PowerReport → ℕ → Run PowerReport
power_report_parse buf old channel_count = do
  channels ← load_each (channel_parse buf) old.channels channel_count 1
  bus_voltage_mv ← get_half buf channels.1
  temp_c ← load buf bus_voltage_mv.1
  done (record {
    channel_count = channel_count;
    channels = channels.0;
    bus_voltage_mv = bus_voltage_mv.0;
    temp_c = to_int8 temp_c;
  })

unfoldable pub power_report_decode :
    Ptr Bytes → ℕ → Ptr PowerReport → Run (Result (Unit {0}) × Ptr PowerReport)
power_report_decode input len msg =
    if is_null input || is_null msg
    then done (err err_bad_arg, msg)
    else if ltb len 1
    then done (err err_bad_length, msg)
    else (do
      buf ← deref input
      old ← deref msg
      channel_count ← load buf 0
      if ltb max_channels channel_count
          then done (err err_too_long, msg)
          else if not (len == power_report_size channel_count)
          then done (err err_bad_length, msg)
          else (do m ← power_report_parse buf old channel_count; done (ok tt, some m)))
