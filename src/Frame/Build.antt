-- ===== src/Frame/Build.antt =====
-- `arc_frame_build` of src/arc_protocol.c beside the wire form of a packet.
use arc_protocol.Prelude.{ℕ, ◌+◌, ◌-◌, ◌/◌, ◌%◌, ◌^◌, ◌≤◌, ◌<◌, ◌≡◌, refl, arith, [], ◌∷◌, ◌++◌}
use arc_protocol.Prelude.{
  ltb-false, ltb, ◌&&◌, false, ltb-true, bit_and, length, take, drop, none, some, ap, sym, ◌∙◌,
  append_assoc, length-append,
}
use arc_protocol.Prelude.{length-take_le, length-drop, take-append-drop, drop-drop}
use arc_protocol.Prelude.Bits.{bit_and_byte}
use arc_protocol.Memory.{Bytes, Ptr, is_null, done, write, u8}
use arc_protocol.Memory.Laws.{write-append, read-append}
use arc_protocol.Crc.{crc16, crc_loop}
use arc_protocol.Crc.Register.{crc_loop-lt}
use arc_protocol.Protocol.{ok}
use arc_protocol.Frame.{store_crc, store_payload, frame_fill, frame_build}
use arc_protocol.Frame.Wire.{Packet, IsPacket, header, body, body_crc, trailer, wire, length-wire}

pub crc16-append :
    (bytes rest : Bytes) (n : ℕ)
    → n ≡ length bytes
    → crc16 (bytes ++ rest) n ≡ done (crc_loop 0xffff bytes)
unfolding crc16
crc16-append bytes rest n e = rw (read-append [] bytes rest 0 n refl e)

write-second :
    (bytes : Bytes) (x l y : ℕ) (rest : Bytes) (n : ℕ)
    → n ≡ length bytes
    → write (bytes ++ (x ∷ l ∷ rest)) (n + 1) (y ∷ []) ≡ done (bytes ++ (x ∷ y ∷ rest))
write-second bytes x l y rest n e =
    ap (λ (m : Bytes). write m (n + 1) (y ∷ [])) (sym (append_assoc bytes (x ∷ []) (l ∷ rest)))
    ∙ write-append (bytes ++ (x ∷ [])) (l ∷ []) rest (y ∷ []) (n + 1)
        (omega (arith, length-append bytes (x ∷ []))) refl
    ∙ ap done (append_assoc bytes (x ∷ []) (y ∷ rest))

u8_high : (v : ℕ) → v < 2 ^ 16 → u8 (v / 2 ^ 8) ≡ v / 256
u8_high v h = omega arith

pub u8_low : (v : ℕ) → u8 (bit_and v 0xff) ≡ v % 256
u8_low v = omega (arith, bit_and_byte v)

-- The two stores put the CRC of what stands before them, and keep what stands behind.
pub store_crc-append :
    (bytes : Bytes) (h l : ℕ) (rest : Bytes) (n : ℕ)
    → n ≡ length bytes
    → store_crc (bytes ++ (h ∷ l ∷ rest)) n
      ≡ done (bytes ++ (trailer (crc_loop 0xffff bytes) ++ rest))
unfolding store_crc
store_crc-append bytes h l rest n e =
    rw
      (
        crc16-append bytes (h ∷ l ∷ rest) n e,
        u8_high (crc_loop 0xffff bytes) (crc_loop-lt bytes 0xffff (omega arith)),
        u8_low (crc_loop 0xffff bytes),
        write-append bytes (h ∷ []) (l ∷ rest) (crc_loop 0xffff bytes / 256 ∷ []) n e refl,
      )
      (write-second bytes (crc_loop 0xffff bytes / 256) l (crc_loop 0xffff bytes % 256) rest n e)

-- The pointer leads to memory that begins with the bytes; NULL serves for none.
abbrev pub Holds : Ptr Bytes → Bytes → Type 0
Holds none bs = bs ≡ []
Holds (some mem) bs = (extra : Bytes) × (mem ≡ bs ++ extra)

store_payload-append :
    (head old rest payload : Bytes) (ptr : Ptr Bytes)
    → length head ≡ 9
    → length old ≡ length payload
    → Holds ptr payload
    → store_payload (head ++ (old ++ rest)) ptr (length payload) ≡ done (head ++ (payload ++ rest))
unfolding store_payload
store_payload-append head [] rest [] none e f h = refl
store_payload-append head [] rest [] (some mem) e f h = refl
store_payload-append head [] rest (b ∷ bs) ptr e f h = absurd (omega arith)
store_payload-append head (o ∷ os) rest [] ptr e f h = absurd (omega arith)
store_payload-append head (o ∷ os) rest (b ∷ bs) none e f h = absurd (cc)
store_payload-append head (o ∷ os) rest (b ∷ bs) (some mem) e f (extra, g) =
    rw
      (
        ltb-true 0 (length (b ∷ bs)) (omega arith),
        g,
        read-append [] (b ∷ bs) extra 0 (length (b ∷ bs)) refl refl,
      )
      (write-append head (o ∷ os) rest (b ∷ bs) 9 (sym e) f)

-- Two bytes at the front of a long enough buffer.
two_bytes :
    (buf : Bytes) → 2 ≤ length buf → (h : ℕ) × (l : ℕ) × (rest : Bytes) × (buf ≡ h ∷ l ∷ rest)
two_bytes [] e = absurd (omega arith)
two_bytes (h ∷ []) e = absurd (omega arith)
two_bytes (h ∷ l ∷ rest) e = (h, l, rest, refl)

abbrev size : Packet → ℕ
size p = 11 + length p.payload

-- The nine header stores write the packet's header.
stored_header :
    (p : Packet)
    → IsPacket p
    → (u8 (size p - 1)
        ∷ p.src
        ∷ p.dst
        ∷ p.flags
        ∷ p.session
        ∷ u8 (p.seq / 2 ^ 8)
        ∷ u8 (bit_and p.seq 0xff)
        ∷ p.family
        ∷ p.type
        ∷ [])
      ≡ header p
stored_header p v = ground (arith, u8_low p.seq, u8_high p.seq)

-- Over a buffer in known parts.
frame_fill-parts :
    (p : Packet) (ptr : Ptr Bytes) (head old : Bytes) (h l : ℕ) (rest : Bytes)
    → IsPacket p
    → Holds ptr p.payload
    → length head ≡ 9
    → length old ≡ length p.payload
    → frame_fill
        (head ++ (old ++ (h ∷ l ∷ rest)))
        p.src
        p.dst
        p.flags
        p.session
        p.seq
        p.family
        p.type
        ptr
        (length p.payload)
        (size p)
      ≡ done (ok (size p), some (wire p ++ rest))
unfolding frame_fill body_crc
frame_fill-parts p ptr head old h l rest v holds e f = rw (
  stored_header p v,
  write-append [] head (old ++ (h ∷ l ∷ rest)) (header p) 0 refl e,
  store_payload-append (header p) old (h ∷ l ∷ rest) p.payload ptr refl f holds,
  store_crc-append (body p) h l rest (9 + length p.payload) (omega arith),
  append_assoc p.payload (trailer (body_crc p)) rest,
)

pub record Parts (n : ℕ) (buf : Bytes) : Type 0 where
  pub head : Bytes
  pub old : Bytes
  pub h : ℕ
  pub l : ℕ
  pub rest : Bytes
  pub head_length : length head ≡ 9
  pub old_length : length old ≡ n
  pub whole : buf ≡ head ++ (old ++ (h ∷ l ∷ rest))
  pub rest_eq : rest ≡ drop (11 + n) buf

-- Any buffer that is long enough falls into such parts.
pub parts : (n : ℕ) (buf : Bytes) → 11 + n ≤ length buf → Parts n buf
parts n buf room =
    let tail = drop n (drop 9 buf) in
    let (h, l, rest, e) =
      two_bytes (drop n (drop 9 buf))
        (omega (arith, length-drop n (drop 9 buf), length-drop 9 buf)) in
    record {
      head = take 9 buf;
      old = take n (drop 9 buf);
      h = h;
      l = l;
      rest = rest;
      head_length = length-take_le 9 buf (omega arith);
      old_length = length-take_le n (drop 9 buf) (omega (arith, length-drop 9 buf));
      whole =
          sym (take-append-drop 9 buf)
          ∙ ap (λ (m : Bytes). take 9 buf ++ m)
              (sym (take-append-drop n (drop 9 buf))
                ∙ ap (λ (m : Bytes). take n (drop 9 buf) ++ m) e);
      rest_eq =
          ap (drop 2) (sym e)
          ∙ ap (drop 2) (drop-drop n 9 buf)
          ∙ drop-drop 2 (9 + n) buf
          ∙ ap (λ (k : ℕ). drop k buf) (omega arith);
    }

pub frame_fill-wire :
    (p : Packet) (ptr : Ptr Bytes) (buf : Bytes)
    → IsPacket p
    → Holds ptr p.payload
    → size p ≤ length buf
    → frame_fill buf p.src p.dst p.flags p.session p.seq p.family p.type ptr
        (length p.payload)
        (size p)
      ≡ done (ok (size p), some (wire p ++ drop (size p) buf))
frame_fill-wire p ptr buf v holds room =
    ap
      (λ (b : Bytes).
        frame_fill b p.src p.dst p.flags p.session p.seq p.family p.type ptr (length p.payload)
          (size p))
      at.whole
    ∙ frame_fill-parts p ptr at.head at.old at.h at.l at.rest v holds at.head_length at.old_length
    ∙ ap (λ (r : Bytes). done (ok (size p), some (wire p ++ r))) at.rest_eq
  where
    at : Parts (length p.payload) buf
    at = parts (length p.payload) buf room

-- NULL comes only with no payload.
Holds-not-bad :
    (ptr : Ptr Bytes) (bs : Bytes) → Holds ptr bs → (is_null ptr && ltb 0 (length bs)) ≡ false
Holds-not-bad none bs e = rw e
Holds-not-bad (some mem) bs h = refl

-- With room for the packet, whose fields have their widths and whose payload fits,
-- `arc_frame_build` writes its wire form at the front of the buffer, keeps the bytes behind it,
-- and returns its length.
pub frame_build-wire :
    (p : Packet) (ptr : Ptr Bytes) (buf : Bytes) (capacity : ℕ)
    → IsPacket p
    → Holds ptr p.payload
    → length (wire p) ≤ capacity
    → capacity ≤ length buf
    → frame_build
        (some buf)
        capacity
        p.src
        p.dst
        p.flags
        p.session
        p.seq
        p.family
        p.type
        ptr
        (length p.payload)
      ≡ done (ok (length (wire p)), some (wire p ++ drop (length (wire p)) buf))
unfolding frame_build
frame_build-wire p ptr buf capacity v holds fits room =
    sized ∙ ap (λ (n : ℕ). done (ok n, some (wire p ++ drop n buf))) (sym wire_size)
  where
    wire_size : length (wire p) ≡ size p
    wire_size = omega (arith, length-wire p)

    sized :
        frame_build
          (some buf)
          capacity
          p.src
          p.dst
          p.flags
          p.session
          p.seq
          p.family
          p.type
          ptr
          (length p.payload)
        ≡ done (ok (size p), some (wire p ++ drop (size p) buf))
    sized =
        rw
          (
            Holds-not-bad ptr p.payload holds,
            ltb-false 241 (length p.payload) v.payload_fits,
            ltb-false capacity (size p) (omega (arith, wire_size)),
          )
          (frame_fill-wire p ptr buf v holds (omega (arith, wire_size)))
