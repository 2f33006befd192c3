-- ===== src/Protocol/Bytes.antt =====
-- src/protocol.rs: what the encoder writes, byte by byte.
use rp2350_keymouse_bridge_f.Common.{
  ℕ, ◌+◌, ◌-◌, ◌%◌, ◌/◌, ◌≤◌, ◌≡◌, refl, sym, ap, ◌∙◌, arith, List, [], ◌∷◌, ◌++◌, ok, err, length,
  take, drop, slice, copy_at, length-append, append_assoc, slice-append, drop-append_self,
  drop-drop, copy_at-append, to_be_bytes, u16_mod, if◌then◌else◌, ltb,
}
use rp2350_keymouse_bridge_f.Protocol.{
  max_payload_size, frame_overhead, as_byte, Frame, EncodeError,
}
use rp2350_keymouse_bridge_f.Protocol.Crc.{crc16_ccitt_false}
use rp2350_keymouse_bridge_f.Protocol.Codec.{encode_frame_with_flags, write_frame}

-- What the checksum covers: the header from the version on, and the payload.
abbrev pub covered : Frame → List ℕ
covered f =
    f.version
    ∷ f.flags
    ∷ (f.sequence / 256 % 256)
    ∷ (f.sequence % 256)
    ∷ as_byte f.command_type
    ∷ (length f.payload % u16_mod / 256 % 256)
    ∷ (length f.payload % u16_mod % 256)
    ∷ f.payload

-- The bytes of a frame on the wire.
abbrev pub frame_bytes : Frame → List ℕ
frame_bytes f = 0xa5 ∷ 0x5a ∷ (covered f ++ to_be_bytes (crc16_ccitt_false (covered f)))

-- The last two writes, behind a header of nine bytes.
finish_lem :
    (header payload rest : List ℕ)
    → length header ≡ 9
    → let out = copy_at (header ++ rest) 9 payload in
      copy_at out
        (9 + length payload)
        (to_be_bytes (crc16_ccitt_false (slice 2 (9 + length payload) out)))
      ≡ header
        ++ payload
        ++ (to_be_bytes (crc16_ccitt_false (drop 2 (header ++ payload)))
            ++ drop 2 (drop (length payload) rest))
finish_lem header payload rest h =
    let n = length payload in
    let ys = drop n rest in
    let full : length (header ++ payload) ≡ 9 + n = omega (arith, length-append header payload) in
    let written : copy_at (header ++ rest) 9 payload ≡ header ++ payload ++ ys =
      copy_at-append header rest payload 9 (sym h) ∙ sym (append_assoc header payload ys) in
    let read : slice 2 (9 + n) (header ++ payload ++ ys) ≡ drop 2 (header ++ payload) =
      slice-append 2 (header ++ payload) ys (9 + n - 2) (omega arith) in
    ap (λ m. copy_at m (9 + n) (to_be_bytes (crc16_ccitt_false (slice 2 (9 + n) m)))) written
    ∙ (ap (λ c. copy_at (header ++ payload ++ ys) (9 + n) (to_be_bytes (crc16_ccitt_false c))) read
        ∙ copy_at-append (header ++ payload) ys
            (to_be_bytes (crc16_ccitt_false (drop 2 (header ++ payload)))) (9 + n) (sym full))

drop_rest :
    (n : ℕ) (header rest : List ℕ)
    → length header ≡ 9
    → drop 2 (drop n rest) ≡ drop (frame_overhead + n) (header ++ rest)
drop_rest n header rest h = cc (
  drop-drop n 2 (n + 2) rest refl,
  drop-append_self header rest 9 (sym h),
  drop-drop 9 (n + 2) (frame_overhead + n) (header ++ rest) (omega arith),
)

write_frame_lem :
    (f : Frame) (out : List ℕ)
    → frame_overhead + length f.payload ≤ length out
    → write_frame f.version f.flags f.sequence f.command_type f.payload out
      ≡ frame_bytes f ++ drop (frame_overhead + length f.payload) out
unfolding write_frame
write_frame_lem f (a ∷ b ∷ c ∷ d ∷ e ∷ g ∷ i ∷ j ∷ k ∷ rest) h =
    let header = take 9 (frame_bytes f) in
    let crc = to_be_bytes (crc16_ccitt_false (covered f)) in
    finish_lem header f.payload rest refl
    ∙ (ap (λ r. header ++ f.payload ++ (crc ++ r))
          (drop_rest (length f.payload) (a ∷ b ∷ c ∷ d ∷ e ∷ g ∷ i ∷ j ∷ k ∷ []) rest refl)
        ∙ sym (append_assoc (header ++ f.payload) crc _))
write_frame_lem f _ h = absurd (omega arith)

-- On every branch: a payload of more than 240 bytes and a buffer that is too short are refused with
-- the buffer untouched; otherwise the frame's bytes stand at the front of the buffer, the bytes
-- behind them are kept, and the length of the frame is returned.
pub encode_frame_with_flags_lem :
    (f : Frame) (out : List ℕ)
    → encode_frame_with_flags f.version f.flags f.sequence f.command_type f.payload out ≡ (
        if ltb max_payload_size (length f.payload)
        then (out, err EncodeError.payload_too_long)
        else if ltb (length out) (frame_overhead + length f.payload)
        then (out, err EncodeError.buffer_too_small)
        else (
          frame_bytes f ++ drop (frame_overhead + length f.payload) out,
          ok (frame_overhead + length f.payload),
        ))
unfolding encode_frame_with_flags
encode_frame_with_flags_lem f out = ground (arith, write_frame_lem f out)

pub encode_frame_with_flags_ok :
    (f : Frame) (out : List ℕ)
    → length f.payload ≤ max_payload_size
    → frame_overhead + length f.payload ≤ length out
    → encode_frame_with_flags f.version f.flags f.sequence f.command_type f.payload out ≡ (
      frame_bytes f ++ drop (frame_overhead + length f.payload) out,
      ok (frame_overhead + length f.payload),
    )
encode_frame_with_flags_ok f out fits room = encode_frame_with_flags_lem f out ∙ ground arith

pub length-frame_bytes : (f : Frame) → length (frame_bytes f) ≡ frame_overhead + length f.payload
length-frame_bytes f =
    omega (arith, length-append f.payload (to_be_bytes (crc16_ccitt_false (covered f))))
