-- ===== src/Messages/Video/Info.antt =====
-- The info report of src/arc_messages_video.c: a byte and a NUL-terminated name.
use arc_protocol.Prelude.{false}
use arc_protocol.Memory.Laws.{get_elem?-append}
use arc_protocol.Prelude.{
  ℕ, ◌+◌, ◌-◌, ◌≤◌, ◌<◌, ◌≡◌, ◌==◌, ◌||◌, not, ltb, leb, refl, ap, ◌∙◌, arith, if◌then◌else◌,
}
use arc_protocol.Prelude.{
  true, some, [], ◌∷◌, ◌++◌, length, drop, append_assoc, length-append, length-drop, drop-drop,
  ltb-false, ltb-true, lt_or_le, Bool-cases, inl, inr,
}
use arc_protocol.Memory.{Bytes, Ptr, Run, done, ◌>>=◌, is_null, deref, load, read, write}
use arc_protocol.Memory.Laws.{load-done, read-append}
use arc_protocol.Protocol.{
  Result, ok, err, err_bad_arg, err_too_long, err_buffer, err_bad_length, max_payload_size,
}
use arc_protocol.Messages.Cursor.{write-at}
use arc_protocol.Messages.Text.{
  keep_name, keep_name-lem, keep_name-returns, scan, scan-text, text_of, has_nul, has_nul-Split,
  text_of-IsText,
}

abbrev pub name_cap : ℕ
name_cap = 32

pub record InfoReport : Type 0 where
  pub paired_fc : ℕ
  pub name : Bytes

-- The stores of the encoder, once the name's length is known.
unfoldable pub info_report_store : InfoReport → Bytes → ℕ → Run Bytes
info_report_store m buf name_len = do
  paired ← write buf 0 (m.paired_fc ∷ [])
  bytes ← read m.name 0 name_len
  named ← write paired 1 bytes
  write named (1 + name_len) (0 ∷ [])

unfoldable pub info_report_encode : Ptr InfoReport → Ptr Bytes → ℕ → Run (Result ℕ × Ptr Bytes)
info_report_encode msg out out_capacity =
    if is_null msg || is_null out then done (err err_bad_arg, out) else (do
      m ← deref msg
      buf ← deref out
      name_len ← scan m.name 0 name_cap
      if leb name_cap name_len
          then done (err err_bad_arg, out)
          else if ltb max_payload_size (1 + name_len + 1)
          then done (err err_too_long, out)
          else if ltb out_capacity (1 + name_len + 1)
          then done (err err_buffer, out)
          else (do
            stored ← info_report_store m buf name_len
            done (ok (1 + name_len + 1), some stored)))

unfoldable pub info_report_decode :
    Ptr Bytes → ℕ → Ptr InfoReport → Run (Result (Unit {0}) × Ptr InfoReport)
info_report_decode input len msg =
    if is_null input || is_null msg
    then done (err err_bad_arg, msg)
    else if ltb len 2
    then done (err err_bad_length, msg)
    else (do
      buf ← deref input
      old ← deref msg
      last ← load buf (len - 1)
      if not (last == 0)
          then done (err err_bad_length, msg)
          else if ltb name_cap (len - 2 + 1)
          then done (err err_too_long, msg)
          else (do
            paired_fc ← load buf 0
            name ← keep_name old.name buf 1 (len - 2)
            done (ok tt, some (record { paired_fc = paired_fc; name = name }))))

info_report_store-lem :
    (m : InfoReport) (text more buf : Bytes)
    → m.name ≡ text ++ (0 ∷ more)
    → length text + 2 ≤ length buf
    → info_report_store m buf (length text)
      ≡ done (m.paired_fc ∷ (text ++ (0 ∷ drop (length text + 2) buf)))
unfolding info_report_store
info_report_store-lem m text more buf e h =
    let first = write-at [] buf (m.paired_fc ∷ []) (omega (arith, h)) in
    let behind = drop 1 buf in
    let second = write-at (m.paired_fc ∷ []) behind text (omega (arith, h, length-drop 1 buf)) in
    let at : 1 + length text ≡ length (m.paired_fc ∷ text) = omega arith in
    let third =
      write-at (m.paired_fc ∷ text) (drop (length text) behind) (0 ∷ [])
        (omega (arith, h, length-drop 1 buf, length-drop (length text) behind)) in
    let left : drop 1 (drop (length text) behind) ≡ drop (length text + 2) buf =
      drop-drop 1 (length text) behind
      ∙ drop-drop (length text + 1) 1 buf
      ∙ ap (λ k. drop k buf) (omega arith) in
    let copied : read m.name 0 (length text) ≡ done text =
      ap (λ n. read n 0 (length text)) e
      ∙ read-append [] text (0 ∷ more) 0 (length text) refl refl in
    rw
      (
        first,
        copied,
        second,
        at,
        third,
        left,
        append_assoc text (0 ∷ []) (drop (length text + 2) buf),
      )
      refl

-- An info report whose 32-byte name has a NUL comes back from its encoding, in any buffer that has
-- its bytes: the byte and the name up to the NUL; what stands behind the NUL in the decoder's name
-- stays as it was.
pub info_report_decode-info_report_encode :
    (m old : InfoReport) (buf : Bytes) (capacity : ℕ)
    → length m.name ≡ 32
    → has_nul m.name ≡ true
    → length old.name ≡ 32
    → length (text_of m.name) + 2 ≤ capacity
    → capacity ≤ length buf
    → (out : Bytes) × (info_report_encode (some m) (some buf) capacity
        ≡ done (ok (length (text_of m.name) + 2), some out))
      × (info_report_decode (some out) (length (text_of m.name) + 2) (some old)
          ≡ done (
            ok tt,
            some (record {
              paired_fc = m.paired_fc;
              name = text_of m.name ++ (0 ∷ drop (length (text_of m.name) + 1) old.name);
            }),
          ))
unfolding info_report_encode info_report_decode load
info_report_decode-info_report_encode m old buf capacity long nul old_long fits holds =
    let text = text_of m.name in
    let n = length text in
    let split = has_nul-Split m.name nul in
    let short : n < 32 = omega (
      arith,
      long,
      ap (λ (t : Bytes). length t) split.is_split,
      length-append text (0 ∷ split.more),
    ) in
    let zeroth : 0 + n ≡ n = omega arith in
    let found : scan m.name 0 32 ≡ done n =
      ap (λ (t : Bytes). scan t 0 32) split.is_split
      ∙ scan-text [] text split.more 32 (text_of-IsText m.name) short
      ∙ ap done zeroth in
    let stored =
      info_report_store-lem m text split.more buf split.is_split (omega (arith, fits, holds)) in
    let rest = drop (n + 2) buf in
    let under : leb 32 n ≡ false = ground (arith, short) in
    let needed : 1 + n + 1 ≡ n + 2 = omega arith in
    let last : n + 2 - 1 ≡ 1 + n = omega arith in
    let body : n + 2 - 2 ≡ n = omega arith in
    (
      m.paired_fc ∷ (text ++ (0 ∷ rest)),
      rw
          (
            found,
            under,
            needed,
            ltb-false 241 (n + 2) (omega (arith, short)),
            ltb-false capacity (n + 2) fits,
            stored,
          )
          refl,
      rw
          (
            ltb-false (n + 2) 2 (omega arith),
            last,
            get_elem?-append (m.paired_fc ∷ text) 0 rest (1 + n) (omega arith),
            body,
            ltb-false 32 (n + 1) (omega (arith, short)),
            keep_name-lem (m.paired_fc ∷ []) text rest old.name (omega (arith, short, old_long)),
          )
          refl,
    )

-- The decoder on any bytes at all, for a message with a 32-byte name: it returns, so it stays in
-- the bytes and in the name, and the name that it leaves has 32 bytes still.
pub info_report_decode-returns :
    (old : InfoReport) (buf : Bytes) (len : ℕ)
    → length old.name ≡ 32
    → len ≤ length buf
    → (res : Result (Unit {0})) × (m : InfoReport) × (info_report_decode (some buf) len (some old)
        ≡ done (res, some m))
      × (length m.name ≡ 32)
unfolding info_report_decode
info_report_decode-returns old buf len room holds = elim (lt_or_le len 2) [
  | inl short ↦ (err err_bad_length, old, rw (ltb-true len 2 short) refl, room)
  | inr long ↦
      let (z, e) = load-done buf (len - 1) (omega (arith, long, holds)) in
      elim (Bool-cases (z == 0)) [
        | inr f ↦ (err err_bad_length, old, rw (ltb-false len 2 long, e, f) refl, room)
        | inl f ↦ elim (lt_or_le 32 (len - 2 + 1)) [
          | inl much ↦ (
            err err_too_long,
            old,
            rw (ltb-false len 2 long, e, f, ltb-true 32 (len - 2 + 1) much) refl,
            room,
          )
          | inr fits ↦
              let (p, g) = load-done buf 0 (omega (arith, long, holds)) in
              let (name, h, kept) =
                keep_name-returns old.name buf 1 (len - 2) (omega (arith, long, holds))
                  (omega (arith, fits, room)) in
              (
                ok tt,
                record { paired_fc = p; name = name },
                rw (ltb-false len 2 long, e, f, ltb-false 32 (len - 2 + 1) fits, g, h) refl,
                kept ∙ room,
              )
        ]
      ]
]
