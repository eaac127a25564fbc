-- ===== src/Messages/FcVideo/Layouts/RoundTrip.antt =====
-- The encoder and the decoder of the layouts report of src/arc_messages_fc_video.c, one after the
-- other.
use arc_protocol.Memory.{Ptr}
use arc_protocol.Memory.Laws.{>>=_assoc}
use arc_protocol.Prelude.{ℕ, zero, suc, ◌+◌, ◌-◌, ◌≤◌, ◌<◌, ◌≡◌, leb, refl, sym, ap, ◌∙◌, arith}
use arc_protocol.Prelude.{
  true, false, some, List, [], ◌∷◌, ◌++◌, length, drop, append_assoc, append-nil, length-append,
  ltb-false, ==_refl,
}
use arc_protocol.Memory.{Bytes, done, ◌>>=◌, load, read}
use arc_protocol.Memory.Laws.{read-append}
use arc_protocol.Protocol.{Result, ok}
use arc_protocol.Messages.Cursor.{
  Cursor, put, IsPut, put-IsPut, then-IsPut, done-IsPut, all_fields, AllFirst,
}
use arc_protocol.Messages.Text.{
  scan, scan-text, text_length, text_length-lem, text_of, has_nul, has_nul-Split, text_of-IsText,
  keep_name, keep_name-lem,
}
use arc_protocol.Messages.FcVideo.Layouts.{
  LayoutsReport, names_needed, store_names, layouts_report_store, layouts_report_encode, load_names,
  names_result, layouts_report_decode,
}
use mathlib.Core.Path.{subst}

-- A name that fits, and what is sent of it.
abbrev pub IsLayoutName : Bytes → Type 0
IsLayoutName name = (has_nul name ≡ true) × (length name ≡ 24)

abbrev pub name_fields : Bytes → Bytes
name_fields name = text_of name ++ (0 ∷ [])

name_short : (name : Bytes) → IsLayoutName name → length (text_of name) < 24
name_short name (nul, long) =
    let split = has_nul-Split name nul in
    omega (
      arith,
      long,
      ap (λ (t : Bytes). length t) split.is_split,
      length-append (text_of name) (0 ∷ split.more),
    )

name_scanned : (name : Bytes) → IsLayoutName name → scan name 0 24 ≡ done (length (text_of name))
name_scanned name v =
    let split = has_nul-Split name v.0 in
    let zeroth : 0 + length (text_of name) ≡ length (text_of name) = omega arith in
    ap (λ (t : Bytes). scan t 0 24) split.is_split
    ∙ scan-text [] (text_of name) split.more 24 (text_of-IsText name) (name_short name v)
    ∙ ap done zeroth

names_needed-lem :
    (names : List Bytes) (n k : ℕ)
    → n ≤ length names
    → AllFirst IsLayoutName n names
    → names_needed names n k ≡ done (ok (k + length (all_fields name_fields n names)))
unfolding names_needed
names_needed-lem names zero k h v = let e : k ≡ k + 0 = omega arith in ap (λ t. done (ok t)) e
names_needed-lem [] (suc n) k h v = absurd (omega (arith, h))
names_needed-lem (name ∷ names) (suc n) k h (v, vs) =
    let short = name_short name v in
    let under : leb 24 (length (text_of name)) ≡ false = ground (arith, short) in
    let more = all_fields name_fields n names in
    let sum : k + (length (text_of name) + 1) + length more
        ≡ k + length (name_fields name ++ more) =
      omega (arith, length-append (name_fields name) more, length-append (text_of name) (0 ∷ [])) in
    rw
      (
        name_scanned name v,
        under,
        names_needed-lem names n (k + (length (text_of name) + 1)) (omega (arith, h)) vs,
        sum,
      )
      refl

store_names-IsPut :
    (names : List Bytes) (n : ℕ)
    → n ≤ length names
    → AllFirst IsLayoutName n names
    → IsPut (store_names names n) (all_fields name_fields n names)
unfolding store_names
store_names-IsPut names zero h v pre rest fits = done-IsPut pre rest fits
store_names-IsPut [] (suc n) h v pre rest fits = absurd (omega (arith, h))
store_names-IsPut (name ∷ names) (suc n) h (v, vs) pre rest fits =
    let text = text_of name in
    let more = all_fields name_fields n names in
    let split = has_nul-Split name v.0 in
    let measured : text_length name ≡ done (length text) =
      ap (λ (t : Bytes). text_length t) split.is_split
      ∙ text_length-lem text split.more (text_of-IsText name) in
    let copied : read name 0 (length text) ≡ done text =
      ap (λ (t : Bytes). read t 0 (length text)) split.is_split
      ∙ read-append [] text (0 ∷ split.more) 0 (length text) refl refl in
    let stores =
      λ (c : Cursor). put text c >>= λ c. put (0 ∷ []) c >>= λ c. store_names names n c in
    let put_all : IsPut stores (name_fields name ++ more) =
      subst (IsPut stores) (sym (append_assoc text (0 ∷ []) more)) (
        then-IsPut (put text) (λ c. put (0 ∷ []) c >>= λ c. store_names names n c) text (0 ∷ more)
          (put-IsPut text)
          (then-IsPut (put (0 ∷ [])) (store_names names n) (0 ∷ []) more (put-IsPut (0 ∷ []))
            (store_names-IsPut names n (omega (arith, h)) vs))) in
    rw (measured, copied) (put_all pre rest fits)

-- The first names, each put over the one of `old`.
abbrev pub names_received : ℕ → List Bytes → List Bytes → List Bytes
names_received zero names old = old
names_received (suc n) [] old = old
names_received (suc n) (x ∷ xs) [] = []
names_received (suc n) (x ∷ xs) (y ∷ ys) =
    (text_of x ++ (0 ∷ drop (length (text_of x) + 1) y)) ∷ names_received n xs ys

load_names-lem :
    (names old : List Bytes) (n len : ℕ) (pre rest : Bytes)
    → n ≤ length names
    → n ≤ length old
    → AllFirst IsLayoutName n names
    → AllFirst (λ (y : Bytes). length y ≡ 24) n old
    → length (pre ++ all_fields name_fields n names) ≤ len
    → load_names (pre ++ (all_fields name_fields n names ++ rest)) len old n (length pre)
      ≡ done (ok (length (pre ++ all_fields name_fields n names)), names_received n names old)
unfolding load_names
load_names-lem names old zero len pre rest h k v w fits = rw (append-nil) refl
load_names-lem [] old (suc n) len pre rest h k v w fits = absurd (omega (arith, h))
load_names-lem (x ∷ xs) [] (suc n) len pre rest h k v w fits = absurd (omega (arith, k))
load_names-lem (x ∷ xs) (y ∷ ys) (suc n) len pre rest h k (v, vs) (w, ws) fits =
    let text = text_of x in
    let m = length text in
    let more = all_fields name_fields n xs in
    let off = length pre in
    let whole = pre ++ ((name_fields x ++ more) ++ rest) in
    let short = name_short x v in
    let sizes : off + m + 1 + length more ≤ len = omega (
      arith,
      fits,
      length-append pre (name_fields x ++ more),
      length-append (name_fields x) more,
      length-append text (0 ∷ []),
    ) in
    let near : whole ≡ pre ++ (text ++ (0 ∷ (more ++ rest))) =
      ap (λ (t : Bytes). pre ++ t)
        (append_assoc (name_fields x) more rest ∙ append_assoc text (0 ∷ []) (more ++ rest)) in
    let far : whole ≡ (pre ++ name_fields x) ++ (more ++ rest) =
      ap (λ (t : Bytes). pre ++ t) (append_assoc (name_fields x) more rest)
      ∙ sym (append_assoc pre (name_fields x) (more ++ rest)) in
    let found : scan whole off (len - off) ≡ done (off + m) =
      ap (λ (t : Bytes). scan t off (len - off)) near
      ∙ scan-text pre text (more ++ rest) (len - off) (text_of-IsText x) (omega (arith, sizes)) in
    let inside : leb len (off + m) ≡ false = ground (arith, sizes) in
    let size : off + m - off ≡ m = omega arith in
    let kept : keep_name y whole off m ≡ done (text ++ (0 ∷ drop (m + 1) y)) =
      ap (λ (t : Bytes). keep_name y t off m) near
      ∙ keep_name-lem pre text (more ++ rest) y (omega (arith, short, w)) in
    let next : off + m + 1 ≡ length (pre ++ name_fields x) =
      omega (arith, length-append pre (name_fields x), length-append text (0 ∷ [])) in
    let ih : load_names whole len ys n (off + m + 1)
        ≡ done (ok (length ((pre ++ name_fields x) ++ more)), names_received n xs ys) =
      ap (λ (t : Bytes). load_names t len ys n (off + m + 1)) far
      ∙ ap (λ (t : ℕ). load_names ((pre ++ name_fields x) ++ (more ++ rest)) len ys n t) next
      ∙ load_names-lem xs ys n len (pre ++ name_fields x) rest (omega (arith, h)) (omega (arith, k))
          vs ws (omega (arith, sizes, next, length-append (pre ++ name_fields x) more)) in
    rw
      (
        found,
        inside,
        size,
        ltb-false 24 (m + 1) (omega (arith, short)),
        kept,
        ih,
        append_assoc pre (name_fields x) more,
      )
      refl

-- The bytes of a report.
abbrev pub layouts_report_bytes : LayoutsReport → Bytes
layouts_report_bytes m = m.count ∷ all_fields name_fields m.count m.names

-- A layouts report with at most 16 names, each with a NUL in its 24 bytes, comes back from its
-- encoding if that has at most 241 bytes, in any buffer that has them: the names up to their NULs.
-- What stands behind, and the names that are not sent, stay as they were in the decoder's message.
pub layouts_report_decode-layouts_report_encode :
    (m old : LayoutsReport) (buf : Bytes) (capacity : ℕ)
    → m.count ≤ 16
    → length m.names ≡ 16
    → AllFirst IsLayoutName m.count m.names
    → length old.names ≡ 16
    → AllFirst (λ (y : Bytes). length y ≡ 24) m.count old.names
    → length (layouts_report_bytes m) ≤ 241
    → length (layouts_report_bytes m) ≤ capacity
    → capacity ≤ length buf
    → (out : Bytes) × (layouts_report_encode (some m) (some buf) capacity
        ≡ done (ok (length (layouts_report_bytes m)), some out))
      × (layouts_report_decode (some out) (length (layouts_report_bytes m)) (some old)
          ≡ done (
            ok tt,
            some (record { count = m.count; names = names_received m.count m.names old.names }),
          ))
unfolding layouts_report_encode layouts_report_store layouts_report_decode names_result load
layouts_report_decode-layouts_report_encode m old buf capacity few all_names v old_names w small
      fits holds =
    let n = m.count in
    let names = all_fields name_fields n m.names in
    let bytes = layouts_report_bytes m in
    let size = length bytes in
    let rest = drop size buf in
    let measured : names_needed m.names n 1 ≡ done (ok size) =
      let e : 1 + length names ≡ size = omega arith in
      names_needed-lem m.names n 1 (omega (arith, few, all_names)) v ∙ ap (λ t. done (ok t)) e in
    let stored =
      then-IsPut (put (n ∷ [])) (store_names m.names n) (n ∷ []) names (put-IsPut (n ∷ []))
        (store_names-IsPut m.names n (omega (arith, few, all_names)) v) [] buf
        (omega (arith, fits, holds)) in
    let loaded =
      load_names-lem m.names old.names n size (n ∷ []) rest (omega (arith, few, all_names))
        (omega (arith, few, old_names)) v w (omega arith) in
    (
      bytes ++ rest,
      rw
          (
            ltb-false 16 n few,
            measured,
            ltb-false 241 size small,
            ltb-false capacity size fits,
            ← >>=_assoc {C = Result ℕ × Ptr Bytes} (put (n ∷ []) (buf, 0)) (store_names m.names n)
                (λ (c : Cursor). done (ok c.1, some c.0)),
            stored,
          )
          refl,
      rw (ltb-false size 1 (omega arith), ltb-false 16 n few, loaded, ==_refl size) refl,
    )
