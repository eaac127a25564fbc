-- ===== src/Cobs/RoundTrip.antt =====
-- `arc_cobs_encode` and `arc_cobs_decode` together, and with the frame functions: what one end
-- builds and encodes, the other decodes and parses.
use arc_protocol.Prelude.{
  ℕ, ◌+◌, ◌*◌, ◌≤◌, ◌<◌, ◌≡◌, arith, [], ◌∷◌, ◌++◌, length, some, ap, ◌∙◌, drop,
}
use arc_protocol.Memory.{Bytes, Ptr, done}
use arc_protocol.Protocol.{Frame, ok}
use arc_protocol.Frame.{frame_build, frame_parse}
use arc_protocol.Frame.Wire.{Packet, IsPacket, wire, frame_of, length-wire}
use arc_protocol.Frame.Build.{Holds, frame_build-wire}
use arc_protocol.Frame.Accept.{frame_parse-wire}
use arc_protocol.Cobs.{cobs_encode, cobs_decode}
use arc_protocol.Cobs.Stuff.{
  stuff, length-stuff_short, length-stuff-bound, stuff-IsNonzero, IsNonzero,
}
use arc_protocol.Cobs.Encode.{cobs_encode-stuff}
use arc_protocol.Cobs.Decode.{cobs_decode-stuff}

-- Whatever the encoder writes, the decoder turns back into the input, at every input length, given
-- an encoder buffer with a byte more for each 254 of input and a decoder buffer for the input.
pub cobs_decode-cobs_encode :
    (xs extra out back : Bytes) (capacity room : ℕ)
    → length xs + 2 ≤ capacity
    → 255 * length xs + 508 ≤ 254 * length out
    → length xs ≤ room
    → room ≤ length back
    → (n : ℕ) × (encoded : Bytes) × (tail : Bytes) × (cobs_encode
          (some (xs ++ extra))
          (length xs)
          (some out)
          capacity
        ≡ done (ok n, some encoded))
      × (cobs_decode (some encoded) n (some back) room ≡ done (ok (length xs), some (xs ++ tail)))
cobs_decode-cobs_encode xs extra out back capacity room c fits d r =
    let (behind, written, left) =
      cobs_encode-stuff xs extra out capacity c
        (omega (arith, length-stuff-bound xs [] (omega arith))) in
    let (tail, h) = cobs_decode-stuff xs behind back room d r in
    (length (stuff [] xs) + 1, stuff [] xs ++ (0 ∷ behind), tail, written, h)

-- A short input (every frame is one) takes exactly two bytes more, the first of them before the
-- delimiter, which is the only zero.
pub cobs_encode_short :
    (xs extra out : Bytes) (capacity : ℕ)
    → length xs < 254
    → length xs + 2 ≤ capacity
    → capacity ≤ length out
    → (encoded : Bytes) × (tail : Bytes) × (cobs_encode
          (some (xs ++ extra))
          (length xs)
          (some out)
          capacity
        ≡ done (ok (length xs + 2), some (encoded ++ (0 ∷ tail))))
      × (length encoded ≡ length xs + 1)
      × IsNonzero encoded
cobs_encode_short xs extra out capacity short c r =
    let size = length-stuff_short xs [] (omega arith) in
    let (tail, written, left) = cobs_encode-stuff xs extra out capacity c (omega arith) in
    (
      stuff [] xs,
      tail,
      written ∙ ap (λ (n : ℕ). done (ok n, some (stuff [] xs ++ (0 ∷ tail)))) (omega arith),
      omega arith,
      stuff-IsNonzero xs [] tt,
    )

-- The serial link: a packet whose fields have their widths and whose payload fits, built, encoded,
-- decoded and parsed in buffers of the maximal sizes (252 bytes for a frame, 254 encoded), arrives
-- field by field.
pub link_delivers :
    (p : Packet) (ptr : Ptr Bytes) (raw coded back : Bytes) (old : Frame)
    → IsPacket p
    → Holds ptr p.payload
    → length raw ≡ 252
    → length coded ≡ 254
    → length back ≡ 252
    → (n : ℕ) × (k : ℕ) × (built : Bytes) × (sent : Bytes) × (received : Bytes) × (frame_build
          (some raw)
          252
          p.src
          p.dst
          p.flags
          p.session
          p.seq
          p.family
          p.type
          ptr
          (length p.payload)
        ≡ done (ok n, some built))
      × (cobs_encode (some built) n (some coded) 254 ≡ done (ok k, some sent))
      × (cobs_decode (some sent) k (some back) 252 ≡ done (ok n, some received))
      × (frame_parse (some received) n (some old) ≡ done (ok tt, some (frame_of p)))
link_delivers p ptr raw coded back old v holds hr hc hb =
    let size = length-wire p in
    let fits = v.payload_fits in
    let (behind, written, left) =
      cobs_encode-stuff (wire p) (drop (length (wire p)) raw) coded 254 (omega arith)
        (omega (arith, length-stuff_short (wire p) [] (omega arith))) in
    let (tail, decoded) = cobs_decode-stuff (wire p) behind back 252 (omega arith) (omega arith) in
    (
      length (wire p),
      length (stuff [] (wire p)) + 1,
      wire p ++ drop (length (wire p)) raw,
      stuff [] (wire p) ++ (0 ∷ behind),
      wire p ++ tail,
      frame_build-wire p ptr raw 252 v holds (omega arith) (omega arith),
      written,
      decoded,
      frame_parse-wire p tail old v,
    )
