-- ===== src/Protocol/Codec.antt =====
-- src/protocol.rs: `encode_frame`, `encode_frame_with_flags` and `decode_frame`.
use rp2350_keymouse_bridge_f.Common.{
  ℕ, ◌+◌, ◌%◌, List, [], ◌∷◌, not, ◌==◌, ltb, if◌then◌else◌, Result, ok, err, length, get_or, slice,
  copy_at, bytes_eq, to_be_bytes, from_be_bytes, u16_mod,
}
use rp2350_keymouse_bridge_f.Protocol.{
  magic, max_payload_size, frame_overhead, CommandType, from_byte, as_byte, Frame, DecodeError,
  EncodeError,
}
use rp2350_keymouse_bridge_f.Protocol.Crc.{crc16_ccitt_false}

-- The writes of the encoder into `out`, in the order of the source, and the checksum of what they
-- left in `out[2..crc_offset]`.
unfoldable pub write_frame : ℕ → ℕ → ℕ → CommandType → List ℕ → List ℕ → List ℕ
write_frame version flags sequence command_type payload out =
    let out = copy_at out 0 magic in
    let out = copy_at out 2 (version ∷ []) in
    let out = copy_at out 3 (flags ∷ []) in
    let out = copy_at out 4 (to_be_bytes sequence) in
    let out = copy_at out 6 (as_byte command_type ∷ []) in
    let out = copy_at out 7 (to_be_bytes (length payload % u16_mod)) in
    let out = copy_at out 9 payload in
    let crc_offset = 9 + length payload in
    let crc = crc16_ccitt_false (slice 2 crc_offset out) in copy_at out crc_offset (to_be_bytes crc)

-- The buffer after the call, and what the call returns.
unfoldable pub encode_frame_with_flags :
    ℕ → ℕ → ℕ → CommandType → List ℕ → List ℕ → List ℕ × Result EncodeError ℕ
unfolding write_frame
encode_frame_with_flags version flags sequence command_type payload out =
    let total_len = frame_overhead + length payload in
    if ltb max_payload_size (length payload)
    then (out, err EncodeError.payload_too_long)
    else if ltb (length out) total_len
    then (out, err EncodeError.buffer_too_small)
    else (write_frame version flags sequence command_type payload out, ok total_len)

unfoldable pub encode_frame : ℕ → ℕ → CommandType → List ℕ → List ℕ → List ℕ × Result EncodeError ℕ
unfolding encode_frame_with_flags
encode_frame version sequence command_type payload out =
    encode_frame_with_flags version 0 sequence command_type payload out

unfoldable pub decode_frame : List ℕ → Result DecodeError Frame
decode_frame input =
    let payload_len = from_be_bytes (get_or input 7 0) (get_or input 8 0) in
    let expected_len = frame_overhead + payload_len in
    let crc_offset = 9 + payload_len in
    let expected_crc =
      from_be_bytes (get_or input crc_offset 0) (get_or input (crc_offset + 1) 0) in
    let actual_crc = crc16_ccitt_false (slice 2 crc_offset input) in
    if ltb (length input) frame_overhead
    then err DecodeError.too_short
    else if not (bytes_eq (slice 0 2 input) magic)
    then err DecodeError.bad_magic
    else if ltb max_payload_size payload_len
    then err DecodeError.payload_too_long
    else if not (length input == expected_len)
    then err DecodeError.length_mismatch
    else if not (expected_crc == actual_crc)
    then err DecodeError.bad_crc
    else ok (record {
      version = get_or input 2 0;
      flags = get_or input 3 0;
      sequence = from_be_bytes (get_or input 4 0) (get_or input 5 0);
      command_type = from_byte (get_or input 6 0);
      payload = slice 9 crc_offset input;
    })
