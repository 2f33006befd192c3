-- ===== src/Protocol/RoundTrip.antt =====
-- src/protocol.rs: the decoder accepts exactly what the encoder writes.
use rp2350_keymouse_bridge_f.Common.{
  ℕ, ◌+◌, ◌-◌, ◌≤◌, ◌<◌, ◌≡◌, refl, sym, ◌∙◌, arith, List, [], ◌∷◌, ◌++◌, ok, err, length, take,
  slice, get_or, get_or-append, length-append, slice-append, take-append_self, not, ◌==◌, bytes_eq,
  from_be_bytes, u16_mod, if◌then◌else◌, ltb,
}
use rp2350_keymouse_bridge_f.Protocol.{
  magic, max_payload_size, frame_overhead, from_byte, Frame, DecodeError, IsCanonical,
}
use rp2350_keymouse_bridge_f.Protocol.Crc.{crc16_ccitt_false, crc16_ccitt_false-lt}
use rp2350_keymouse_bridge_f.Protocol.Codec.{encode_frame_with_flags, decode_frame}
use rp2350_keymouse_bridge_f.Protocol.Bytes.{
  covered, frame_bytes, encode_frame_with_flags_ok, length-frame_bytes,
}

-- The decoder on a packet whose length agrees with its length field.
pub decode_shape :
    (a b v fl s1 s0 t l1 l0 c1 c0 : ℕ) (payload : List ℕ)
    → length payload ≡ from_be_bytes l1 l0
    → decode_frame (a ∷ b ∷ v ∷ fl ∷ s1 ∷ s0 ∷ t ∷ l1 ∷ l0 ∷ (payload ++ c1 ∷ c0 ∷ [])) ≡ (
        if not (bytes_eq (a ∷ b ∷ []) magic)
        then err DecodeError.bad_magic
        else if ltb max_payload_size (length payload)
        then err DecodeError.payload_too_long
        else if not
            (from_be_bytes c1 c0 == crc16_ccitt_false (v ∷ fl ∷ s1 ∷ s0 ∷ t ∷ l1 ∷ l0 ∷ payload))
        then err DecodeError.bad_crc
        else ok (record {
          version = v;
          flags = fl;
          sequence = from_be_bytes s1 s0;
          command_type = from_byte t;
          payload = payload;
        }))
unfolding decode_frame
decode_shape a b v fl s1 s0 t l1 l0 c1 c0 payload h =
    let tail = c1 ∷ c0 ∷ [] in
    let covers = v ∷ fl ∷ s1 ∷ s0 ∷ t ∷ l1 ∷ l0 ∷ payload in
    let n = from_be_bytes l1 l0 in
    let input = a ∷ b ∷ (covers ++ tail) in
    let hi : get_or input (9 + n) 0 ≡ c1 =
      get_or-append (a ∷ b ∷ covers) tail (9 + n) 0 0 (omega arith) in
    let lo : get_or input (9 + n + 1) 0 ≡ c0 =
      get_or-append (a ∷ b ∷ covers) tail (9 + n + 1) 1 0 (omega arith) in
    let body : slice 2 (9 + n) input ≡ covers =
      slice-append 2 (a ∷ b ∷ covers) tail (9 + n - 2) (omega arith) in
    let payload_read : slice 9 (9 + n) input ≡ payload =
      slice-append 9 (a ∷ b ∷ covers) tail (9 + n - 9) (omega arith) in
    let size : length input ≡ 11 + n = omega (arith, length-append payload tail) in
    ground (arith, hi, lo, body, payload_read, size)

-- What the encoder can be given so that nothing is cut off: a `u16` sequence, a command type that
-- has the name of its byte, and a payload within the limit.
pub record IsWire (f : Frame) : Type 0 where
  pub sequence_fits : f.sequence < u16_mod
  pub canonical : IsCanonical f.command_type
  pub payload_fits : length f.payload ≤ max_payload_size

pub decode_frame-frame_bytes : (f : Frame) → IsWire f → decode_frame (frame_bytes f) ≡ ok f
decode_frame-frame_bytes f w =
    decode_shape _ _ _ _ _ _ _ _ _ _ _ f.payload (omega (arith, w.payload_fits))
    ∙ ground (arith, w.payload_fits, w.canonical, w.sequence_fits, crc16_ccitt_false-lt (covered f))

-- Round trip: a frame that fits is written into any buffer with room for it, and the decoder reads
-- the same frame back from the bytes that the encoder says it wrote.
pub decode_frame-encode_frame :
    (f : Frame) (out : List ℕ)
    → IsWire f
    → frame_overhead + length f.payload ≤ length out
    → let (out', written) =
        encode_frame_with_flags f.version f.flags f.sequence f.command_type f.payload out in
      (written ≡ ok (frame_overhead + length f.payload))
      × (decode_frame (take (frame_overhead + length f.payload) out') ≡ ok f)
decode_frame-encode_frame f out w room = rw (encode_frame_with_flags_ok f out w.payload_fits room) (
  refl,
  rw
      (take-append_self (frame_bytes f) _ (frame_overhead + length f.payload)
        (sym (length-frame_bytes f)))
      (decode_frame-frame_bytes f w),
)
