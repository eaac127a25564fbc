-- ===== src/Frame/Flag.antt =====
-- `arc_frame_set_flag` and `arc_frame_build_ack` of src/arc_protocol.c: frames that are changed or
-- answered.
use arc_protocol.Prelude.{ℕ, ◌+◌, ◌-◌, ◌/◌, ◌%◌, ◌^◌, ◌≤◌, ◌<◌, ◌≡◌, refl, sym, ap, ap₂, ◌∙◌, arith}
use arc_protocol.Prelude.{[], ◌∷◌, ◌++◌, length, some, bit_or, ltb-false, ==_refl, append_assoc}
use arc_protocol.Prelude.Bits.{bit_or-lt}
use mathlib.Core.Path.{subst₂}
use arc_protocol.Memory.{Bytes, done, load, u8}
use arc_protocol.Memory.Laws.{write-append}
use arc_protocol.Crc.{crc_loop}
use arc_protocol.Crc.Register.{crc_loop-lt}
use arc_protocol.Protocol.{Frame, ok, flag_ack, family_netmgmt, netmgmt_ack}
use arc_protocol.Frame.{be16, frame_parse, frame_set_flag, frame_build_ack}
use arc_protocol.Frame.Wire.{
  Packet, IsPacket, header, body_crc, trailer, wire, length-wire, frame_of,
}
use arc_protocol.Frame.Build.{parts, store_crc-append}
use arc_protocol.Frame.Parse.{head, fields, frame_parse-parts, join16_split}
use arc_protocol.Frame.Accept.{nine, frame_parse-frame_build}

u8_small : (n : ℕ) → n < 256 → u8 n ≡ n
u8_small n h = omega arith

module _ (len src dst flags session seq_hi seq_lo family type : ℕ) (payload : Bytes) (hi lo : ℕ)
    (rest : Bytes) (flag : ℕ) where
  abbrev flagged : Bytes
  flagged = head len src dst (u8 (bit_or flags flag)) session seq_hi seq_lo family type payload

  frame_set_flag-parts :
      length payload ≤ 241
      → len + 1 ≡ length payload + 11
      → frame_set_flag
          (some (
            head len src dst flags session seq_hi seq_lo family type payload
            ++ (payload ++ (hi ∷ lo ∷ rest))))
          (length payload + 11)
          flag
        ≡ done (
          ok tt,
          some (flagged ++ (payload ++ (trailer (crc_loop 0xffff (flagged ++ payload)) ++ rest))),
        )
  unfolding frame_set_flag load
  frame_set_flag-parts fits e =
      rw
        (
          ltb-false (length payload + 11) 11 (omega arith),
          ltb-false 252 (length payload + 11) (omega arith),
          e,
          ==_refl (length payload + 11),
          write-append (len ∷ src ∷ dst ∷ []) (flags ∷ [])
              (session ∷ seq_hi ∷ seq_lo ∷ family ∷ type ∷ (payload ++ (hi ∷ lo ∷ rest)))
              (u8 (bit_or flags flag) ∷ []) 3 refl refl,
          store_crc-append (flagged ++ payload) hi lo rest (length payload + 11 - 2) (omega arith),
        )
        refl

  -- What the parser then makes of it, whatever CRC stood there before.
  repaired-parts :
      (old : Frame)
      → length payload ≤ 241
      → len + 1 ≡ length payload + 11
      → frame_parse
          (some (flagged ++ (payload ++ (trailer (crc_loop 0xffff (flagged ++ payload)) ++ rest))))
          (length payload + 11)
          (some old)
        ≡ done (
          ok tt,
          some (
              fields len src dst
                (u8 (bit_or flags flag))
                session
                seq_hi
                seq_lo
                family
                type
                payload),
        )
  repaired-parts old fits e =
      let crc = crc_loop 0xffff (flagged ++ payload) in
      frame_parse-parts len src dst (u8 (bit_or flags flag)) session seq_hi seq_lo family type
        payload (crc / 256) (crc % 256) rest old fits e
      ∙ rw (join16_split crc (crc_loop-lt (flagged ++ payload) 0xffff (omega arith)), ==_refl crc)
          refl

-- The flags of a packet, with more of them set.
abbrev pub with_flag : Packet → ℕ → Packet
with_flag p flag = record p { flags = bit_or p.flags flag }

wire_apart :
    (p : Packet) (rest : Bytes)
    → wire p ++ rest ≡ header p ++ (p.payload ++ ((body_crc p / 256) ∷ (body_crc p % 256) ∷ rest))
wire_apart p rest =
    ap (λ (m : Bytes). header p ++ m) (append_assoc p.payload (trailer (body_crc p)) rest)

-- Setting flags in the wire form of a packet, whose fields have their widths and whose payload
-- fits, leaves the wire form of the packet with those flags, and the bytes behind it as they were.
pub frame_set_flag-wire :
    (p : Packet) (rest : Bytes) (flag : ℕ)
    → IsPacket p
    → flag < 256
    → frame_set_flag (some (wire p ++ rest)) (length (wire p)) flag
      ≡ done (ok tt, some (wire (with_flag p flag) ++ rest))
unfolding body_crc
frame_set_flag-wire p rest flag v h =
    let small = u8_small (bit_or p.flags flag) (bit_or-lt 8 p.flags flag v.flags_byte h) in
    ap₂ (λ (m : Bytes) (n : ℕ). frame_set_flag (some m) n flag) (wire_apart p rest) (length-wire p)
    ∙ frame_set_flag-parts (length p.payload + 10) p.src p.dst p.flags p.session (p.seq / 256)
        (p.seq % 256) p.family p.type p.payload (body_crc p / 256) (body_crc p % 256) rest flag
        v.payload_fits (omega arith)
    ∙ rw small (ap (λ (m : Bytes). done (ok tt, some m)) (sym (wire_apart (with_flag p flag) rest)))

-- What setting flags leads to: the parser then accepts the bytes, with those flags.
abbrev pub IsRepaired : Bytes → ℕ → ℕ → Frame → Type 0
IsRepaired buf len flag old =
    (out : Bytes) × (f : Frame) × (flags : ℕ) × (frame_set_flag (some buf) len flag
      ≡ done (ok tt, some out))
    × (frame_parse (some out) len (some old) ≡ done (ok tt, some f))
    × (load buf 3 ≡ done flags)
    × (f.flags ≡ u8 (bit_or flags flag))

repaired :
    (len src dst flags session seq_hi seq_lo family type : ℕ) (payload : Bytes) (hi lo : ℕ)
    (rest : Bytes) (flag : ℕ) (old : Frame)
    → length payload ≤ 241
    → len + 1 ≡ length payload + 11
    → IsRepaired
        (head len src dst flags session seq_hi seq_lo family type payload
          ++ (payload ++ (hi ∷ lo ∷ rest)))
        (length payload + 11)
        flag
        old
unfolding load
repaired len src dst flags session seq_hi seq_lo family type payload hi lo rest flag old fits e = (
  _,
  _,
  flags,
  frame_set_flag-parts len src dst flags session seq_hi seq_lo family type payload hi lo rest flag
      fits e,
  repaired-parts len src dst flags session seq_hi seq_lo family type payload hi lo rest flag old
      fits e,
  refl,
  refl,
)

-- `arc_frame_set_flag` does not check the CRC: any bytes of a frame's size whose first byte gives
-- their length are accepted by the parser after it, with the flag set, even if the CRC was wrong.
pub frame_set_flag_repairs :
    (b : ℕ) (bs : Bytes) (len flag : ℕ) (old : Frame)
    → 11 ≤ len
    → len ≤ 252
    → len ≤ length (b ∷ bs)
    → b + 1 ≡ len
    → IsRepaired (b ∷ bs) len flag old
frame_set_flag_repairs b bs len flag old lo hi room declared =
    let at = parts (len - 11) (b ∷ bs) (omega arith) in
    let n = nine at.head at.head_length in
    let whole = at.whole ∙ ap (λ (m : Bytes). m ++ (at.old ++ (at.h ∷ at.l ∷ at.rest))) n.whole in
    let size_eq : len ≡ length at.old + 11 = omega (arith, at.old_length) in
    let first : b ≡ n.len = ground (arith, whole) in
    subst₂ (λ (m : Bytes) (k : ℕ). IsRepaired m k flag old) (sym whole) (sym size_eq)
      (repaired n.len n.src n.dst n.flags n.session n.seq_hi n.seq_lo n.family n.type at.old at.h
        at.l at.rest flag old (omega (arith, at.old_length))
        (omega (arith, first, declared, size_eq)))

-- The packet that acknowledges a frame.
abbrev pub ack_packet : Frame → ℕ → ℕ → Packet
ack_packet original session seq = record {
  src = original.dst;
  dst = original.src;
  flags = flag_ack;
  session = session;
  seq = seq;
  family = family_netmgmt;
  type = netmgmt_ack;
  payload = be16 original.seq;
}

-- An acknowledgement that `arc_frame_build_ack` builds, in a buffer of at least 13 bytes, for a
-- frame whose addresses are bytes, parses to a frame back to the sender that names its sequence
-- number.
pub frame_parse-frame_build_ack :
    (original old : Frame) (session seq : ℕ) (buf : Bytes) (capacity : ℕ)
    → original.src < 256
    → original.dst < 256
    → session < 256
    → seq < 2 ^ 16
    → 13 ≤ capacity
    → capacity ≤ length buf
    → (out : Bytes) × (frame_build_ack (some buf) capacity (some original) session seq
        ≡ done (ok 13, some out))
      × (frame_parse (some out) 13 (some old)
          ≡ done (ok tt, some (frame_of (ack_packet original session seq))))
unfolding frame_build_ack
frame_parse-frame_build_ack original old session seq buf capacity s d t q fits room =
    frame_parse-frame_build (ack_packet original session seq) (some (be16 original.seq)) buf
      capacity old
      (record {
        src_byte = d;
        dst_byte = s;
        flags_byte = omega arith;
        session_byte = t;
        seq_word = q;
        family_byte = omega arith;
        type_byte = omega arith;
        payload_bytes = (omega arith, (omega arith, tt));
        payload_fits = omega arith;
      })
      ([], refl) fits room
