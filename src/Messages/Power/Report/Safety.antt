-- ===== src/Messages/Power/Report/Safety.antt =====
-- The decoder of the status report of src/arc_messages_power.c on any bytes.
use arc_protocol.Prelude.{==_iff}
use arc_protocol.Prelude.{Bool-cases}
use arc_protocol.Prelude.{inr}
use arc_protocol.Prelude.{ltb-true}
use arc_protocol.Prelude.{inl}
use arc_protocol.Prelude.{lt_or_le}
use arc_protocol.Prelude.{ℕ, ◌+◌, ◌*◌, ◌≤◌, ◌≡◌, ◌==◌, refl, ◌∙◌, arith}
use arc_protocol.Prelude.{some, length, ltb-false}
use arc_protocol.Memory.Laws.{load-done}
use arc_protocol.Memory.{Bytes, done}
use arc_protocol.Protocol.{Result, ok, err, err_too_long, err_bad_length}
use arc_protocol.Messages.{to_int8}
use arc_protocol.Messages.Cursor.{load_each-returns, get-returns, get_half-returns}
use arc_protocol.Messages.Power.Report.{
  ChannelStatus, PowerReport, power_report_size, channel_parse, power_report_parse,
  power_report_decode,
}

channel_parse-returns :
    (buf : Bytes) (off : ℕ)
    → off + 3 ≤ length buf
    → (c : ChannelStatus) × (channel_parse buf off ≡ done (c, off + 3))
unfolding channel_parse
channel_parse-returns buf off h =
    let (x, e) = get-returns buf off (omega (arith, h)) in
    let (y, f) = get_half-returns buf (off + 1) (omega (arith, h)) in
    let last : off + 1 + 2 ≡ off + 3 = omega arith in
    (record { state = x; current_ma = y }, rw (e, f, last) refl)

-- The decoder on any bytes at all, for a message with 8 channels: it returns, so it stays in the
-- bytes and in the array, and the message that it leaves has 8 channels still.
pub power_report_decode-returns :
    (old : PowerReport) (buf : Bytes) (len : ℕ)
    → length old.channels ≡ 8
    → len ≤ length buf
    → (res : Result (Unit {0})) × (m : PowerReport) × (power_report_decode (some buf) len (some old)
        ≡ done (res, some m))
      × (length m.channels ≡ 8)
unfolding power_report_decode power_report_parse
power_report_decode-returns old buf len room holds = elim (lt_or_le len 1) [
  | inl short ↦ (err err_bad_length, old, rw (ltb-true len 1 short) refl, room)
  | inr long ↦
      let (n, e) = load-done buf 0 (omega (arith, long, holds)) in
      elim (lt_or_le 8 n) [
        | inl many ↦
            (err err_too_long, old, rw (ltb-false len 1 long, e, ltb-true 8 n many) refl, room)
        | inr few ↦ elim (Bool-cases (len == power_report_size n)) [
          | inr f ↦ (
            err err_bad_length,
            old,
            rw (ltb-false len 1 long, e, ltb-false 8 n few, f) refl,
            room,
          )
          | inl f ↦
              let exact : len ≡ power_report_size n = (==_iff len (power_report_size n)).0 f in
              let (cs, g, kept) =
                load_each-returns (channel_parse buf) 3 (length buf) (channel_parse-returns buf)
                  old.channels n 1 (omega (arith, few, room)) (omega (arith, exact, holds)) in
              let (bus, h) = get_half-returns buf (1 + n * 3) (omega (arith, exact, holds)) in
              let (temp, t) = load-done buf (1 + n * 3 + 2) (omega (arith, exact, holds)) in
              (
                ok tt,
                record {
                  channel_count = n;
                  channels = cs;
                  bus_voltage_mv = bus;
                  temp_c = to_int8 temp;
                },
                rw (ltb-false len 1 long, e, ltb-false 8 n few, f, g, h, t) refl,
                kept ∙ room,
              )
        ]
      ]
]
