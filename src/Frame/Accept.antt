-- ===== src/Frame/Accept.antt =====
-- The inputs that `arc_frame_parse` of src/arc_protocol.c accepts, `arc_frame_build`'s among them.
use arc_protocol.Prelude.{ℕ, ◌+◌, ◌-◌, ◌/◌, ◌%◌, ◌^◌, ◌≤◌, ◌<◌, ◌≡◌, refl, arith, [], ◌∷◌}
use arc_protocol.Prelude.{
  length, take, drop, some, ap, ap₂, sym, ◌∙◌, append_assoc, length-append, ◌++◌,
}
use arc_protocol.Prelude.{take-length-append}
use arc_protocol.Prelude.{==_refl}
use mathlib.Core.Path.{subst, subst₂}
use arc_protocol.Memory.{Bytes, IsBytes, Ptr, done, load}
use arc_protocol.Memory.Laws.{IsBytes-left, IsBytes-right}
use arc_protocol.Crc.{crc_loop}
use arc_protocol.Crc.Register.{crc_loop-lt}
use arc_protocol.Protocol.{Frame, ok}
use arc_protocol.Frame.{join16, frame_parse, frame_build}
use arc_protocol.Frame.Wire.{Packet, IsPacket, header, body, body_crc, trailer, wire, length-wire}
use arc_protocol.Frame.Wire.{frame_of}
use arc_protocol.Frame.Build.{Parts, parts, Holds, frame_build-wire}
use arc_protocol.Frame.Parse.{join16-lem, join16_split, head, fields, verdict, frame_parse-parts}

body_crc-lt : (p : Packet) → body_crc p < 2 ^ 16
unfolding body_crc
body_crc-lt p = crc_loop-lt (body p) 0xffff (omega arith)

-- The fields that the parser reads off a wire form are the packet's.
fields-wire :
    (p : Packet)
    → IsPacket p
    → fields
        (length p.payload + 10)
        p.src
        p.dst
        p.flags
        p.session
        (p.seq / 256)
        (p.seq % 256)
        p.family
        p.type
        p.payload
      ≡ frame_of p
fields-wire p v = ground (arith, join16-lem (p.seq / 256) (p.seq % 256))

-- The wire form of a packet, whose fields have their widths and whose payload fits, with anything
-- behind it, parses to the packet's frame.
pub frame_parse-wire :
    (p : Packet) (rest : Bytes) (old : Frame)
    → IsPacket p
    → frame_parse (some (wire p ++ rest)) (length (wire p)) (some old)
      ≡ done (ok tt, some (frame_of p))
unfolding body_crc
frame_parse-wire p rest old v =
    ap (λ (m : Bytes). frame_parse (some (header p ++ m)) (length (wire p)) (some old))
      (append_assoc p.payload (trailer (body_crc p)) rest)
    ∙ ap
        (λ (n : ℕ).
          frame_parse (some (header p ++ (p.payload ++ (trailer (body_crc p) ++ rest)))) n
            (some old))
        (length-wire p)
    ∙ frame_parse-parts (length p.payload + 10) p.src p.dst p.flags p.session (p.seq / 256)
        (p.seq % 256) p.family p.type p.payload (body_crc p / 256) (body_crc p % 256) rest old
        v.payload_fits (omega arith)
    ∙ rw (join16_split (body_crc p) (body_crc-lt p), ==_refl (body_crc p))
        (ap (λ (f : Frame). done (ok tt, some f)) (fields-wire p v))

-- What `arc_frame_build` leaves in a buffer with room for a packet, whose fields have their widths
-- and whose payload fits, `arc_frame_parse` reads back field by field.
pub frame_parse-frame_build :
    (p : Packet) (ptr : Ptr Bytes) (buf : Bytes) (capacity : ℕ) (old : Frame)
    → IsPacket p
    → Holds ptr p.payload
    → length (wire p) ≤ capacity
    → capacity ≤ length buf
    → (out : Bytes) × (frame_build
          (some buf)
          capacity
          p.src
          p.dst
          p.flags
          p.session
          p.seq
          p.family
          p.type
          ptr
          (length p.payload)
        ≡ done (ok (length p.payload + 11), some out))
      × (frame_parse (some out) (length p.payload + 11) (some old)
          ≡ done (ok tt, some (frame_of p)))
frame_parse-frame_build p ptr buf capacity old v holds fits room = (
  wire p ++ drop (length (wire p)) buf,
  frame_build-wire p ptr buf capacity v holds fits room
      ∙ ap (λ (n : ℕ). done (ok n, some (wire p ++ drop (length (wire p)) buf))) (length-wire p),
  ap (λ (n : ℕ). frame_parse (some (wire p ++ drop (length (wire p)) buf)) n (some old))
        (sym (length-wire p))
      ∙ frame_parse-wire p (drop (length (wire p)) buf) old v,
)

-- The length checks that an accepted input has passed.
accepted_length :
    (buf : Bytes) (len : ℕ) (old f : Frame)
    → frame_parse (some buf) len (some old) ≡ done (ok tt, some f)
    → (11 ≤ len) × (len ≤ 252)
unfolding frame_parse
accepted_length buf len old f h = ground arith

accepted_declared :
    (b : ℕ) (bs : Bytes) (len : ℕ) (old f : Frame)
    → frame_parse (some (b ∷ bs)) len (some old) ≡ done (ok tt, some f)
    → b + 1 ≡ len
unfolding frame_parse load
accepted_declared b bs len old f h = ground arith

pub record Nine (bytes : Bytes) : Type 0 where
  pub len : ℕ
  pub src : ℕ
  pub dst : ℕ
  pub flags : ℕ
  pub session : ℕ
  pub seq_hi : ℕ
  pub seq_lo : ℕ
  pub family : ℕ
  pub type : ℕ
  pub whole : bytes ≡ len ∷ src ∷ dst ∷ flags ∷ session ∷ seq_hi ∷ seq_lo ∷ family ∷ type ∷ []

pub nine : (bytes : Bytes) → length bytes ≡ 9 → Nine bytes
nine (a ∷ b ∷ c ∷ d ∷ e ∷ f ∷ g ∷ h ∷ i ∷ []) q = record {
  len = a;
  src = b;
  dst = c;
  flags = d;
  session = e;
  seq_hi = f;
  seq_lo = g;
  family = h;
  type = i;
  whole = refl;
}
nine _ q = absurd (omega arith)

-- The bytes are the wire form of a packet, and the frame has its fields.
pub record IsWireOf (bytes : Bytes) (f : Frame) : Type 0 where
  pub packet : Packet
  pub valid : IsPacket packet
  pub is_wire : bytes ≡ wire packet
  pub is_frame : f ≡ frame_of packet

-- The parser's last step, inverted.
check_passed :
    (crc sent : ℕ) (new old f : Frame)
    → verdict crc sent new old ≡ done (ok tt, some f)
    → (crc ≡ sent) × (new ≡ f)
check_passed crc sent new old f h = ground arith

module _ (len src dst flags session seq_hi seq_lo family type : ℕ) (payload : Bytes)
    (hi lo : ℕ) where
  abbrev lits : Bytes
  lits = head len src dst flags session seq_hi seq_lo family type payload

  abbrev received : Packet
  received = record {
    src = src;
    dst = dst;
    flags = flags;
    session = session;
    seq = join16 seq_hi seq_lo;
    family = family;
    type = type;
    payload = payload;
  }

  abbrev read_fields : Frame
  read_fields = fields len src dst flags session seq_hi seq_lo family type payload

  received-IsPacket :
      IsBytes (lits ++ (payload ++ (hi ∷ lo ∷ []))) → length payload ≤ 241 → IsPacket received
  received-IsPacket b fits = record {
    src_byte = omega arith;
    dst_byte = omega arith;
    flags_byte = omega arith;
    session_byte = omega arith;
    seq_word = omega arith;
    family_byte = omega arith;
    type_byte = omega arith;
    payload_bytes =
        IsBytes-left payload (hi ∷ lo ∷ []) (IsBytes-right lits (payload ++ (hi ∷ lo ∷ [])) b);
    payload_fits = fits;
  }

  received-header :
      IsBytes (lits ++ (payload ++ (hi ∷ lo ∷ [])))
      → len + 1 ≡ length payload + 11
      → lits ≡ header received
  received-header b e = ground (arith, join16-lem seq_hi seq_lo)

  received_trailer :
      hi < 256 → lo < 256 → (crc : ℕ) → crc ≡ join16 hi lo → hi ∷ lo ∷ [] ≡ trailer crc
  received_trailer p q crc e = ground (arith, join16-lem hi lo)

  accepted-parts :
      (rest : Bytes) (old f : Frame)
      → IsBytes (lits ++ (payload ++ (hi ∷ lo ∷ [])))
      → length payload ≤ 241
      → len + 1 ≡ length payload + 11
      → frame_parse (some (lits ++ (payload ++ (hi ∷ lo ∷ rest)))) (length payload + 11) (some old)
        ≡ done (ok tt, some f)
      → IsWireOf (lits ++ (payload ++ (hi ∷ lo ∷ []))) f
  accepted-parts rest old f b fits e h =
      let (c, g) =
        check_passed (crc_loop 0xffff (lits ++ payload)) (join16 hi lo) read_fields old f (
          sym (
            frame_parse-parts len src dst flags session seq_hi seq_lo family type payload hi lo rest
              old fits e)
          ∙ h) in
      let ends : IsBytes (hi ∷ lo ∷ []) =
        IsBytes-right payload (hi ∷ lo ∷ []) (IsBytes-right lits (payload ++ (hi ∷ lo ∷ [])) b) in
      record {
        packet = received;
        valid = received-IsPacket b fits;
        is_wire =
            ap₂ (λ (x y : Bytes). x ++ (payload ++ y)) (received-header b e)
              (received_trailer (omega arith) (omega arith) (body_crc received) (checked c));
        is_frame = sym g ∙ short;
      }
    where
      checked : crc_loop 0xffff (lits ++ payload) ≡ join16 hi lo → body_crc received ≡ join16 hi lo
      checked c =
          unfold body_crc in
          (ap (λ (x : Bytes). crc_loop 0xffff (x ++ payload)) (sym (received-header b e)) ∙ c)

      short : read_fields ≡ frame_of received
      short = ground arith

  whole_bytes :
      (rest : Bytes)
      → (lits ++ (payload ++ (hi ∷ lo ∷ []))) ++ rest ≡ lits ++ (payload ++ (hi ∷ lo ∷ rest))
  whole_bytes rest = ap (λ (m : Bytes). lits ++ m) (append_assoc payload (hi ∷ lo ∷ []) rest)

  sound-parts :
      (rest : Bytes) (old f : Frame)
      → IsBytes (lits ++ (payload ++ (hi ∷ lo ∷ rest)))
      → frame_parse (some (lits ++ (payload ++ (hi ∷ lo ∷ rest)))) (length payload + 11) (some old)
        ≡ done (ok tt, some f)
      → IsWireOf (take (length payload + 11) (lits ++ (payload ++ (hi ∷ lo ∷ rest)))) f
  sound-parts rest old f b h =
      subst (λ (m : Bytes). IsWireOf m f) (sym taken)
        (accepted-parts rest old f prefix_bytes
          (omega (arith, accepted_length _ (length payload + 11) old f h))
          (accepted_declared len _ (length payload + 11) old f h) h)
    where
      prefix_bytes : IsBytes (lits ++ (payload ++ (hi ∷ lo ∷ [])))
      prefix_bytes =
          IsBytes-left (lits ++ (payload ++ (hi ∷ lo ∷ []))) rest
            (subst IsBytes (sym (whole_bytes rest)) b)

      taken :
          take (length payload + 11) (lits ++ (payload ++ (hi ∷ lo ∷ rest)))
          ≡ lits ++ (payload ++ (hi ∷ lo ∷ []))
      taken =
          ap (take (length payload + 11)) (sym (whole_bytes rest))
          ∙ take-length-append (lits ++ (payload ++ (hi ∷ lo ∷ []))) rest (length payload + 11)
              (omega (arith, length-append payload (hi ∷ lo ∷ [])))

-- The bytes of a buffer that `arc_frame_parse` accepts, the length being within the buffer, are
-- the wire form of a packet, and the fields that it fills in are that packet's.
pub frame_parse_sound :
    (buf : Bytes) (len : ℕ) (old f : Frame)
    → IsBytes buf
    → len ≤ length buf
    → frame_parse (some buf) len (some old) ≡ done (ok tt, some f)
    → IsWireOf (take len buf) f
frame_parse_sound buf len old f b room h =
    subst₂ (λ (m : Bytes) (n : ℕ). IsWireOf (take n m) f) (sym whole) (sym size_eq)
      (sound-parts n.len n.src n.dst n.flags n.session n.seq_hi n.seq_lo n.family n.type at.old at.h
        at.l at.rest old f (subst IsBytes whole b)
        (subst₂ (λ (m : Bytes) (k : ℕ). frame_parse (some m) k (some old) ≡ done (ok tt, some f))
          whole size_eq h))
  where
    at : Parts (len - 11) buf
    at = parts (len - 11) buf (omega (arith, accepted_length buf len old f h))

    n : Nine at.head
    n = nine at.head at.head_length

    whole :
        buf
        ≡ lits n.len n.src n.dst n.flags n.session n.seq_hi n.seq_lo n.family n.type at.old at.h
            at.l
          ++ (at.old ++ (at.h ∷ at.l ∷ at.rest))
    whole = at.whole ∙ ap (λ (m : Bytes). m ++ (at.old ++ (at.h ∷ at.l ∷ at.rest))) n.whole

    size_eq : len ≡ length at.old + 11
    size_eq = omega (arith, accepted_length buf len old f h, at.old_length)
