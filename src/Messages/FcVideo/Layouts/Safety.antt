-- ===== src/Messages/FcVideo/Layouts/Safety.antt =====
-- The decoder of the layouts report of src/arc_messages_fc_video.c on any bytes.
use arc_protocol.Prelude.{ℕ, zero, suc, ◌+◌, ◌-◌, ◌≤◌, ◌≡◌, leb, refl, ap, ◌∙◌, arith, leb-true}
use arc_protocol.Prelude.{
  false, some, List, [], ◌∷◌, length, ltb-false, ltb-true, lt_or_le, inl, inr,
}
use arc_protocol.Memory.{Bytes, Run, done}
use arc_protocol.Memory.Laws.{load-done}
use arc_protocol.Protocol.{Result, err, ok, err_bad_length, err_too_long}
use arc_protocol.Messages.Text.{scan-returns, keep_name-returns}
use arc_protocol.Messages.FcVideo.Layouts.{
  LayoutsReport, load_names, names_result, layouts_report_decode,
}

-- Every name has 24 bytes.
abbrev pub IsNames : List Bytes → Type 0
IsNames [] = Unit
IsNames (name ∷ names) = (length name ≡ 24) × IsNames names

-- The loop has returned, and the array of names has its shape.
abbrev pub IsLoaded : ℕ → Run (Result ℕ × List Bytes) → Type 0
IsLoaded n o =
    (res : Result ℕ) × (names : List Bytes) × (o ≡ done (res, names))
    × IsNames names
    × (length names ≡ n)

load_names-returns :
    (buf : Bytes) (len : ℕ) (names : List Bytes) (n off : ℕ)
    → IsNames names
    → n ≤ length names
    → off ≤ len
    → len ≤ length buf
    → IsLoaded (length names) (load_names buf len names n off)
unfolding load_names
load_names-returns buf len names zero off v h inside holds = (ok off, names, refl, v, refl)
load_names-returns buf len [] (suc n) off v h inside holds = absurd (omega (arith, h))
load_names-returns buf len (x ∷ xs) (suc n) off (v, vs) h inside holds =
    let (end, e, low, high) = scan-returns buf off (len - off) (omega (arith, inside, holds)) in
    elim (lt_or_le end len) [
      | inr past ↦ (err err_bad_length, x ∷ xs, rw (e, leb-true len end past) refl, (v, vs), refl)
      | inl before ↦
          let under : leb len end ≡ false = ground (arith, before) in
          elim (lt_or_le 24 (end - off + 1)) [
            | inl much ↦ (
              err err_too_long,
              x ∷ xs,
              rw (e, under, ltb-true 24 (end - off + 1) much) refl,
              (v, vs),
              refl,
            )
            | inr fits ↦
                let (kept, f, same) =
                  keep_name-returns x buf off (end - off) (omega (arith, low, before, holds))
                    (omega (arith, fits, v)) in
                let (res, rest, g, ok_names, count) =
                  load_names-returns buf len xs n (end + 1) vs (omega (arith, h))
                    (omega (arith, before)) holds in
                (
                  res,
                  kept ∷ rest,
                  rw (e, under, ltb-false 24 (end - off + 1) fits, f, g) refl,
                  (same ∙ v, ok_names),
                  ap suc count,
                )
          ]
    ]

-- The decoder on any bytes at all, for a message with 16 names of 24 bytes: it returns, so it
-- stays in the bytes, in the array and in the names, and the message that it leaves has 16 names of
-- 24 bytes still.
pub layouts_report_decode-returns :
    (old : LayoutsReport) (buf : Bytes) (len : ℕ)
    → length old.names ≡ 16
    → IsNames old.names
    → len ≤ length buf
    → (res : Result (Unit {0})) × (m : LayoutsReport) × (layouts_report_decode
          (some buf)
          len
          (some old)
        ≡ done (res, some m))
      × IsNames m.names
      × (length m.names ≡ 16)
unfolding layouts_report_decode
layouts_report_decode-returns old buf len room v holds = elim (lt_or_le len 1) [
  | inl short ↦ (err err_bad_length, old, rw (ltb-true len 1 short) refl, v, room)
  | inr long ↦
      let (n, e) = load-done buf 0 (omega (arith, long, holds)) in
      elim (lt_or_le 16 n) [
        | inl many ↦
            (err err_too_long, old, rw (ltb-false len 1 long, e, ltb-true 16 n many) refl, v, room)
        | inr few ↦
            let (res, names, f, shaped, count) =
              load_names-returns buf len old.names n 1 v (omega (arith, few, room)) long holds in
            (
              names_result res len,
              record { count = n; names = names },
              rw (ltb-false len 1 long, e, ltb-false 16 n few, f) refl,
              shaped,
              count ∙ room,
            )
      ]
]
