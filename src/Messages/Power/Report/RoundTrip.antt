-- ===== src/Messages/Power/Report/RoundTrip.antt =====
-- The encoder and the decoder of the status report of src/arc_messages_power.c, one after the
-- other.
use arc_protocol.Prelude.{length-append}
use arc_protocol.Prelude.{ℕ, ◌+◌, ◌<◌, ◌≤◌, ◌^◌, ◌≡◌, refl, sym, ap, ◌∙◌, arith}
use arc_protocol.Prelude.{some, [], ◌∷◌, ◌++◌, length, take, drop, append_assoc, ltb-false, ==_refl}
use arc_protocol.Memory.Laws.{load-append}
use arc_protocol.Memory.{Bytes, done, ◌>>=◌, load}
use arc_protocol.Protocol.{ok}
use arc_protocol.Messages.{half, of_int8}
use arc_protocol.Messages.Laws.{IsInt8, to_int8-of_int8}
use arc_protocol.Messages.Cursor.{
  put, get, get_half, store_each, load_each, all_fields, AllFirst, IsPut, put-IsPut, then-IsPut,
  store_each-IsPut, length-all_fields, IsGet, IsGet-at, get-IsGet, get_half-IsGet, then-IsGet,
  load_each-IsGet,
}
use arc_protocol.Messages.Power.Report.{
  ChannelStatus, PowerReport, power_report_size, channel_fields, power_report_store,
  power_report_encode, channel_parse, power_report_parse, power_report_decode,
}

-- The bytes of a report.
abbrev pub power_report_bytes : PowerReport → Bytes
power_report_bytes m =
    m.channel_count
    ∷ (all_fields channel_fields m.channel_count m.channels
        ++ (half m.bus_voltage_mv ++ (of_int8 m.temp_c ∷ [])))

power_report_store-IsPut :
    (m : PowerReport)
    → m.channel_count ≤ length m.channels
    → IsPut (power_report_store m) (power_report_bytes m)
unfolding power_report_store
power_report_store-IsPut m h =
    let channels = all_fields channel_fields m.channel_count m.channels in
    let bus = half m.bus_voltage_mv in
    let temp = of_int8 m.temp_c ∷ [] in
    then-IsPut (put (m.channel_count ∷ []))
      (λ c. store_each channel_fields m.channels m.channel_count c >>= λ c.
        put bus c >>= λ c. put temp c)
      (m.channel_count ∷ []) (channels ++ (bus ++ temp)) (put-IsPut (m.channel_count ∷ []))
      (then-IsPut (store_each channel_fields m.channels m.channel_count)
        (λ c. put bus c >>= λ c. put temp c) channels (bus ++ temp)
        (store_each-IsPut channel_fields m.channels m.channel_count h)
        (then-IsPut (put bus) (put temp) bus temp (put-IsPut bus) (put-IsPut temp)))

length-power_report_bytes :
    (m : PowerReport)
    → m.channel_count ≤ length m.channels
    → length (power_report_bytes m) ≡ power_report_size m.channel_count
length-power_report_bytes m h = omega (
  arith,
  length-append (all_fields channel_fields m.channel_count m.channels)
      (half m.bus_voltage_mv ++ (of_int8 m.temp_c ∷ [])),
  length-all_fields channel_fields 3 (λ c. refl) m.channel_count m.channels h,
)

channel-IsGet :
    (c : ChannelStatus) → c.current_ma < 2 ^ 16 → IsGet channel_parse (channel_fields c) c
unfolding channel_parse
channel-IsGet c h =
    then-IsGet get get_half (λ state current_ma. record { state = state; current_ma = current_ma })
      (c.state ∷ []) (half c.current_ma) c.state c.current_ma (get-IsGet c.state)
      (get_half-IsGet c.current_ma h)

-- A report whose values fit their fields.
abbrev pub IsPowerReport : PowerReport → Type 0
IsPowerReport m =
    (m.channel_count ≤ 8)
    × (length m.channels ≡ 8)
    × AllFirst (λ c. c.current_ma < 2 ^ 16) m.channel_count m.channels
    × (m.bus_voltage_mv < 2 ^ 16)
    × IsInt8 m.temp_c

-- `old` with what a report sends put over it.
abbrev pub power_received : PowerReport → PowerReport → PowerReport
power_received m old = record m {
  channels = take m.channel_count m.channels ++ drop m.channel_count old.channels;
}

power_report_parsed :
    (m old : PowerReport) (rest : Bytes)
    → IsPowerReport m
    → length old.channels ≡ 8
    → power_report_parse (power_report_bytes m ++ rest) old m.channel_count
      ≡ done (power_received m old)
unfolding power_report_parse
power_report_parsed m old rest (few, eight, currents, bus_ok, temp_ok) room =
    let n = m.channel_count in
    let channels = all_fields channel_fields n m.channels in
    let bus = half m.bus_voltage_mv in
    let temp = of_int8 m.temp_c in
    let whole = power_report_bytes m ++ rest in
    let e1 : whole ≡ n ∷ (channels ++ (bus ++ (temp ∷ rest))) =
      ap (λ (t : Bytes). n ∷ t) (append_assoc channels (bus ++ (temp ∷ [])) rest) in
    let e2 : whole ≡ (n ∷ (channels ++ bus)) ++ (temp ∷ rest) =
      e1 ∙ ap (λ (t : Bytes). n ∷ t) (sym (append_assoc channels bus (temp ∷ rest))) in
    let first =
      IsGet-at (λ buf. load_each (channel_parse buf) old.channels n) channels
        (take n m.channels ++ drop n old.channels) (n ∷ []) (bus ++ (temp ∷ rest)) whole 1
        (load_each-IsGet channel_fields channel_parse (λ c. c.current_ma < 2 ^ 16) channel-IsGet
          m.channels old.channels n (omega (arith, few, eight)) (omega (arith, few, room)) currents)
        e1 refl in
    let second =
      IsGet-at get_half bus m.bus_voltage_mv (n ∷ channels) (temp ∷ rest) whole
        (1 + length channels) (get_half-IsGet m.bus_voltage_mv bus_ok) e1 (omega arith) in
    let third : load whole (1 + length channels + 2) ≡ done temp =
      ap (λ (t : Bytes). load t (1 + length channels + 2)) e2
      ∙ load-append (n ∷ (channels ++ bus)) temp rest (1 + length channels + 2)
          (omega (arith, length-append channels bus)) in
    rw (first, second, third, to_int8-of_int8 m.temp_c temp_ok) refl

-- A status report with at most 8 channels and values that fit their fields comes back from its
-- encoding, in any buffer that has its bytes; the channels that it does not send stay as they were
-- in the decoder's message.
pub power_report_decode-power_report_encode :
    (m old : PowerReport) (buf : Bytes) (capacity : ℕ)
    → IsPowerReport m
    → length old.channels ≡ 8
    → power_report_size m.channel_count ≤ capacity
    → capacity ≤ length buf
    → (out : Bytes) × (power_report_encode (some m) (some buf) capacity
        ≡ done (ok (power_report_size m.channel_count), some out))
      × (power_report_decode (some out) (power_report_size m.channel_count) (some old)
          ≡ done (ok tt, some (power_received m old)))
unfolding power_report_encode power_report_decode load
power_report_decode-power_report_encode m old buf capacity v room fits holds =
    let (few, eight, currents, bus_ok, temp_ok) = v in
    let n = m.channel_count in
    let bytes = power_report_bytes m in
    let size = length-power_report_bytes m (omega (arith, few, eight)) in
    let stored =
      power_report_store-IsPut m (omega (arith, few, eight)) [] buf
        (omega (arith, size, fits, holds)) in
    (
      bytes ++ drop (length bytes) buf,
      rw
          (
            ltb-false 8 n (omega (arith, few)),
            ltb-false 241 (power_report_size n) (omega (arith, few)),
            ltb-false capacity (power_report_size n) fits,
            stored,
            size,
          )
          refl,
      rw
          (
            ltb-false (power_report_size n) 1 (omega arith),
            ltb-false 8 n (omega (arith, few)),
            ==_refl (power_report_size n),
            power_report_parsed m old (drop (length bytes) buf) v room,
          )
          refl,
    )
