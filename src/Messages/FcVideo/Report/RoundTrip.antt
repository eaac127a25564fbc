-- ===== src/Messages/FcVideo/Report/RoundTrip.antt =====
-- The encoder and the decoder of the status report of src/arc_messages_fc_video.c, one after the
-- other.
use arc_protocol.Prelude.{suc}
use arc_protocol.Prelude.{ℕ, ◌+◌, ◌≤◌, ◌≡◌, refl, sym, ap, ◌∙◌, arith, zero, suc}
use arc_protocol.Prelude.{
  some, List, [], ◌∷◌, ◌++◌, length, take, drop, append_assoc, ltb-false, ==_refl, length-append,
}
use arc_protocol.Memory.{Bytes, done, ◌>>=◌}
use arc_protocol.Protocol.{ok}
use arc_protocol.Messages.Cursor.{
  put, get, store_each, load_each, all_fields, AllFirst, IsPut, put-IsPut, then-IsPut,
  store_each-IsPut, length-all_fields, IsGet, IsGet-at, get-IsGet, then-IsGet, load_each-IsGet,
}
use arc_protocol.Messages.FcVideo.Report.{
  SenderStatus, VideoReport, video_report_size, slot_fields, sender_fields, video_report_store,
  video_report_encode, sender_parse, senders_decode, video_report_decode,
}

-- The bytes of a report.
abbrev pub video_report_bytes : VideoReport → Bytes
video_report_bytes m =
    m.slot_count
    ∷ (all_fields slot_fields m.slot_count m.slots
        ++ (m.sender_count ∷ all_fields sender_fields m.sender_count m.senders))

video_report_store-IsPut :
    (m : VideoReport)
    → m.slot_count ≤ length m.slots
    → m.sender_count ≤ length m.senders
    → IsPut (video_report_store m) (video_report_bytes m)
unfolding video_report_store
video_report_store-IsPut m h k =
    let slots = all_fields slot_fields m.slot_count m.slots in
    let senders = all_fields sender_fields m.sender_count m.senders in
    then-IsPut (put (m.slot_count ∷ []))
      (λ c. store_each slot_fields m.slots m.slot_count c >>= λ c.
        put (m.sender_count ∷ []) c >>= λ c. store_each sender_fields m.senders m.sender_count c)
      (m.slot_count ∷ []) (slots ++ (m.sender_count ∷ senders)) (put-IsPut (m.slot_count ∷ []))
      (then-IsPut (store_each slot_fields m.slots m.slot_count)
        (λ c.
          put (m.sender_count ∷ []) c >>= λ c. store_each sender_fields m.senders m.sender_count c)
        slots (m.sender_count ∷ senders) (store_each-IsPut slot_fields m.slots m.slot_count h)
        (then-IsPut (put (m.sender_count ∷ [])) (store_each sender_fields m.senders m.sender_count)
          (m.sender_count ∷ []) senders (put-IsPut (m.sender_count ∷ []))
          (store_each-IsPut sender_fields m.senders m.sender_count k)))

length-video_report_bytes :
    (m : VideoReport)
    → m.slot_count ≤ length m.slots
    → m.sender_count ≤ length m.senders
    → length (video_report_bytes m) ≡ video_report_size m.slot_count m.sender_count
length-video_report_bytes m h k = omega (
  arith,
  length-append (all_fields slot_fields m.slot_count m.slots)
      (m.sender_count ∷ all_fields sender_fields m.sender_count m.senders),
  length-all_fields slot_fields 1 (λ c. refl) m.slot_count m.slots h,
  length-all_fields sender_fields 2 (λ c. refl) m.sender_count m.senders k,
)

sender-IsGet : (s : SenderStatus) → Unit {0} → IsGet sender_parse (sender_fields s) s
unfolding sender_parse
sender-IsGet s u =
    then-IsGet get get (λ addr flags. record { addr = addr; flags = flags }) (s.addr ∷ [])
      (s.flags ∷ []) s.addr s.flags (get-IsGet s.addr) (get-IsGet s.flags)

AllFirst-Unit : {A : Type 0} (n : ℕ) (xs : List A) → AllFirst (λ x. Unit {0}) n xs
AllFirst-Unit zero xs = tt
AllFirst-Unit (suc n) [] = tt
AllFirst-Unit (suc n) (x ∷ xs) = (tt, AllFirst-Unit n xs)

-- A report with the arrays of the source, whose counts are in them.
abbrev pub IsVideoReport : VideoReport → Type 0
IsVideoReport m =
    (m.slot_count ≤ 4) × (m.sender_count ≤ 8) × (length m.slots ≡ 4) × (length m.senders ≡ 8)

-- `old` with what a report sends put over it.
abbrev pub video_received : VideoReport → VideoReport → VideoReport
video_received m old = record {
  slot_count = m.slot_count;
  slots = take m.slot_count m.slots ++ drop m.slot_count old.slots;
  sender_count = m.sender_count;
  senders = take m.sender_count m.senders ++ drop m.sender_count old.senders;
}

video_report_decoded :
    (m old : VideoReport) (rest : Bytes)
    → IsVideoReport m
    → length old.slots ≡ 4
    → length old.senders ≡ 8
    → video_report_decode
        (some (video_report_bytes m ++ rest))
        (video_report_size m.slot_count m.sender_count)
        (some old)
      ≡ done (ok tt, some (video_received m old))
unfolding video_report_decode senders_decode
video_report_decoded m old rest (few, some_few, four, eight) old_four old_eight =
    let n = m.slot_count in
    let k = m.sender_count in
    let slots = all_fields slot_fields n m.slots in
    let senders = all_fields sender_fields k m.senders in
    let whole = video_report_bytes m ++ rest in
    let size = video_report_size n k in
    let counted : length slots ≡ n =
      omega
        (arith, length-all_fields slot_fields 1 (λ c. refl) n m.slots (omega (arith, few, four))) in
    let e1 : whole ≡ n ∷ (slots ++ (k ∷ (senders ++ rest))) =
      ap (λ (t : Bytes). n ∷ t) (append_assoc slots (k ∷ senders) rest) in
    let e2 : whole ≡ (n ∷ (slots ++ (k ∷ []))) ++ (senders ++ rest) =
      e1 ∙ ap (λ (t : Bytes). n ∷ t) (sym (append_assoc slots (k ∷ []) (senders ++ rest))) in
    let zeroth =
      IsGet-at get (n ∷ []) n [] (slots ++ (k ∷ (senders ++ rest))) whole 0 (get-IsGet n) e1 refl in
    let first =
      IsGet-at (λ buf. load_each (get buf) old.slots n) slots (take n m.slots ++ drop n old.slots)
        (n ∷ []) (k ∷ (senders ++ rest)) whole 1
        (load_each-IsGet slot_fields get (λ x. Unit {0}) (λ x u. get-IsGet x) m.slots old.slots n
          (omega (arith, few, four)) (omega (arith, few, old_four)) (AllFirst-Unit n m.slots))
        e1 refl in
    let second =
      IsGet-at get (k ∷ []) k (n ∷ slots) (senders ++ rest) whole (1 + length slots) (get-IsGet k)
        e1 (omega arith) in
    let third =
      IsGet-at (λ buf. load_each (sender_parse buf) old.senders k) senders
        (take k m.senders ++ drop k old.senders) (n ∷ (slots ++ (k ∷ []))) rest whole
        (1 + length slots + 1)
        (load_each-IsGet sender_fields sender_parse (λ x. Unit {0}) sender-IsGet m.senders
          old.senders k (omega (arith, some_few, eight)) (omega (arith, some_few, old_eight))
          (AllFirst-Unit k m.senders))
        e2 (omega (arith, length-append slots (k ∷ []))) in
    rw
      (
        ltb-false size 2 (omega arith),
        zeroth,
        ltb-false 4 n few,
        ltb-false size (1 + n + 1) (omega arith),
        first,
        second,
        ltb-false 8 k some_few,
        ==_refl size,
        third,
      )
      refl

-- A status report with at most 4 slots and 8 senders comes back from its encoding, in any buffer
-- that has its bytes; the slots and senders that it does not send stay as they were in the
-- decoder's message.
pub video_report_decode-video_report_encode :
    (m old : VideoReport) (buf : Bytes) (capacity : ℕ)
    → IsVideoReport m
    → length old.slots ≡ 4
    → length old.senders ≡ 8
    → video_report_size m.slot_count m.sender_count ≤ capacity
    → capacity ≤ length buf
    → (out : Bytes) × (video_report_encode (some m) (some buf) capacity
        ≡ done (ok (video_report_size m.slot_count m.sender_count), some out))
      × (video_report_decode (some out) (video_report_size m.slot_count m.sender_count) (some old)
          ≡ done (ok tt, some (video_received m old)))
unfolding video_report_encode
video_report_decode-video_report_encode m old buf capacity v old_four old_eight fits holds =
    let (few, some_few, four, eight) = v in
    let bytes = video_report_bytes m in
    let needed = video_report_size m.slot_count m.sender_count in
    let size =
      length-video_report_bytes m (omega (arith, few, four)) (omega (arith, some_few, eight)) in
    let stored =
      video_report_store-IsPut m (omega (arith, few, four)) (omega (arith, some_few, eight)) [] buf
        (omega (arith, size, fits, holds)) in
    (
      bytes ++ drop (length bytes) buf,
      rw
          (
            ltb-false 4 m.slot_count few,
            ltb-false 8 m.sender_count some_few,
            ltb-false 241 needed (omega (arith, few, some_few)),
            ltb-false capacity needed fits,
            stored,
            size,
          )
          refl,
      video_report_decoded m old (drop (length bytes) buf) v old_four old_eight,
    )
