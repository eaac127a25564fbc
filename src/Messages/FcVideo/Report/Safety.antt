-- ===== src/Messages/FcVideo/Report/Safety.antt =====
-- The decoder of the status report of src/arc_messages_fc_video.c on any bytes.
use arc_protocol.Prelude.{ℕ, ◌+◌, ◌*◌, ◌<◌, ◌≤◌, ◌≡◌, ◌==◌, refl, ◌∙◌, arith}
use arc_protocol.Prelude.{some, length, ltb-false, ltb-true, ==_iff, lt_or_le, Bool-cases, inl, inr}
use arc_protocol.Memory.{Bytes, Ptr, Run, done}
use arc_protocol.Protocol.{Result, ok, err, err_too_long, err_bad_length}
use arc_protocol.Messages.Cursor.{get, load_each-returns, get-returns}
use arc_protocol.Messages.FcVideo.Report.{
  SenderStatus, VideoReport, video_report_size, sender_parse, senders_decode, video_report_decode,
}

sender_parse-returns :
    (buf : Bytes) (off : ℕ)
    → off + 2 ≤ length buf
    → (s : SenderStatus) × (sender_parse buf off ≡ done (s, off + 2))
unfolding sender_parse
sender_parse-returns buf off h =
    let (x, e) = get-returns buf off (omega (arith, h)) in
    let (y, f) = get-returns buf (off + 1) (omega (arith, h)) in
    let last : off + 1 + 1 ≡ off + 2 = omega arith in
    (record { addr = x; flags = y }, rw (e, f, last) refl)

-- A decoder has returned, and the arrays of the message have their lengths.
abbrev pub IsKept : Run (Result (Unit {0}) × Ptr VideoReport) → Type 0
IsKept o =
    (res : Result (Unit {0})) × (m : VideoReport) × (o ≡ done (res, some m))
    × (length m.slots ≡ 4)
    × (length m.senders ≡ 8)

senders_decode-returns :
    (buf : Bytes) (len off : ℕ) (msg : VideoReport)
    → length msg.slots ≡ 4
    → length msg.senders ≡ 8
    → off ≡ 1 + msg.slot_count
    → off < len
    → len ≤ length buf
    → IsKept (senders_decode buf len msg off)
unfolding senders_decode
senders_decode-returns buf len off msg four eight at inside holds =
    let (k, e) = get-returns buf off (omega (arith, inside, holds)) in
    elim (lt_or_le 8 k) [
      | inl many ↦ (err err_too_long, msg, rw (e, ltb-true 8 k many) refl, four, eight)
      | inr few ↦ elim (Bool-cases (len == video_report_size msg.slot_count k)) [
        | inr f ↦ (err err_bad_length, msg, rw (e, ltb-false 8 k few, f) refl, four, eight)
        | inl f ↦
            let exact : len ≡ video_report_size msg.slot_count k =
              (==_iff len (video_report_size msg.slot_count k)).0 f in
            let (ss, g, kept) =
              load_each-returns (sender_parse buf) 2 (length buf) (sender_parse-returns buf)
                msg.senders k (off + 1) (omega (arith, few, eight))
                (omega (arith, exact, holds, at)) in
            (
              ok tt,
              record msg { sender_count = k; senders = ss },
              rw (e, ltb-false 8 k few, f, g) refl,
              four,
              kept ∙ eight,
            )
      ]
    ]

-- The decoder on any bytes at all, for a message with 4 slots and 8 senders: it returns, so it
-- stays in the bytes and in the arrays, and the message that it leaves has as many still.
pub video_report_decode-returns :
    (old : VideoReport) (buf : Bytes) (len : ℕ)
    → length old.slots ≡ 4
    → length old.senders ≡ 8
    → len ≤ length buf
    → (res : Result (Unit {0})) × (m : VideoReport) × (video_report_decode (some buf) len (some old)
        ≡ done (res, some m))
      × (length m.slots ≡ 4)
      × (length m.senders ≡ 8)
unfolding video_report_decode
video_report_decode-returns old buf len four eight holds = elim (lt_or_le len 2) [
  | inl short ↦ (err err_bad_length, old, rw (ltb-true len 2 short) refl, four, eight)
  | inr long ↦
      let (n, e) = get-returns buf 0 (omega (arith, long, holds)) in
      elim (lt_or_le 4 n) [
        | inl many ↦ (
          err err_too_long,
          old,
          rw (ltb-false len 2 long, e, ltb-true 4 n many) refl,
          four,
          eight,
        )
        | inr few ↦ elim (lt_or_le len (1 + n + 1)) [
          | inl f ↦ (
            err err_bad_length,
            old,
            rw (ltb-false len 2 long, e, ltb-false 4 n few, ltb-true len (1 + n + 1) f) refl,
            four,
            eight,
          )
          | inr f ↦
              let (slots, g, kept) =
                load_each-returns (get buf) 1 (length buf)
                  (λ off h. get-returns buf off (omega (arith, h))) old.slots n 1
                  (omega (arith, few, four)) (omega (arith, f, holds)) in
              let (res, m, h, a, b) =
                senders_decode-returns buf len (1 + n * 1)
                  (record old { slot_count = n; slots = slots }) (kept ∙ four) eight (omega arith)
                  (omega (arith, f)) holds in
              (
                res,
                m,
                rw (ltb-false len 2 long, e, ltb-false 4 n few, ltb-false len (1 + n + 1) f, g) h,
                a,
                b,
              )
        ]
      ]
]
