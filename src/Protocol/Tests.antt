-- ===== src/Protocol/Tests.antt =====
-- src/protocol.rs: the checks of its test module, and the theorems at concrete frames.
use rp2350_keymouse_bridge_f.Common.{
  ℕ, ◌≡◌, refl, ◌↔◌, arith, List, [], ◌∷◌, ◌++◌, ok, err, take, replicate,
}
use rp2350_keymouse_bridge_f.Protocol.{
  from_byte, as_byte, Frame, ping, key_tap, DecodeError, EncodeError, response_expected,
  no_response_heartbeat, unsupported_version,
}
use rp2350_keymouse_bridge_f.Protocol.Crc.{crc16_ccitt_false}
use rp2350_keymouse_bridge_f.Protocol.Codec.{encode_frame_with_flags, encode_frame, decode_frame}
use rp2350_keymouse_bridge_f.Protocol.Request.{
  validate_request, ExpectsResponse, IsSilentHeartbeat, validate_request_iff,
}
use rp2350_keymouse_bridge_f.Protocol.Bytes.{frame_bytes, encode_frame_with_flags_lem}
use rp2350_keymouse_bridge_f.Protocol.RoundTrip.{IsWire, decode_frame-encode_frame}
use rp2350_keymouse_bridge_f.Protocol.Sound.{decode_frame_sound}
use rp2350_keymouse_bridge_f.Protocol.Detect.{decode_frame-set}

-- "123456789", the customary check value of CRC-16/CCITT-FALSE.
crc_check :
    crc16_ccitt_false (0x31 ∷ 0x32 ∷ 0x33 ∷ 0x34 ∷ 0x35 ∷ 0x36 ∷ 0x37 ∷ 0x38 ∷ 0x39 ∷ []) ≡ 0x29b1
unfolding crc16_ccitt_false
crc_check = refl

abbrev tap : Frame
tap = record {
  version = 2;
  flags = 0;
  sequence = 0x1234;
  command_type = key_tap;
  payload = 0x02 ∷ 0x04 ∷ [];
}

abbrev tap_bytes : List ℕ
tap_bytes = 0xa5 ∷ 0x5a ∷ 2 ∷ 0 ∷ 0x12 ∷ 0x34 ∷ 0x12 ∷ 0 ∷ 2 ∷ 2 ∷ 4 ∷ 0xa8 ∷ 0xff ∷ []

frame_bytes-tap : frame_bytes tap ≡ tap_bytes
unfolding crc16_ccitt_false as_byte
frame_bytes-tap = refl

tap-IsWire : IsWire tap
unfolding from_byte as_byte
tap-IsWire = record { sequence_fits = omega arith; canonical = refl; payload_fits = omega arith }

too_short_input : decode_frame (0xa5 ∷ 0x5a ∷ []) ≡ err DecodeError.too_short
unfolding decode_frame
too_short_input = refl

no_room :
    encode_frame 1 7 ping [] (replicate 10 0) ≡ (replicate 10 0, err EncodeError.buffer_too_small)
unfolding encode_frame
no_room = refl

decode_frame-tap : decode_frame tap_bytes ≡ ok tap
unfolding decode_frame crc16_ccitt_false from_byte
decode_frame-tap = refl

encode_frame_with_flags_lem_example :
    encode_frame_with_flags 2 0 0x1234 key_tap (0x02 ∷ 0x04 ∷ []) (replicate 14 9)
    ≡ (frame_bytes tap ++ 9 ∷ [], ok 13)
encode_frame_with_flags_lem_example = encode_frame_with_flags_lem tap (replicate 14 9)

decode_frame-encode_frame_example :
    let (out, written) =
      encode_frame_with_flags 2 0 0x1234 key_tap (0x02 ∷ 0x04 ∷ []) (replicate 14 9) in
    (written ≡ ok 13) × (decode_frame (take 13 out) ≡ ok tap)
decode_frame-encode_frame_example =
    decode_frame-encode_frame tap (replicate 14 9) tap-IsWire (omega arith)

decode_frame_sound_example : (tap_bytes ≡ frame_bytes tap) × IsWire tap
decode_frame_sound_example = decode_frame_sound tap_bytes (omega arith) decode_frame-tap

-- The tenth byte, a modifier, changes from 2 to 3.
decode_frame-set_example :
    (e : DecodeError) × (decode_frame
        (0xa5 ∷ 0x5a ∷ 2 ∷ 0 ∷ 0x12 ∷ 0x34 ∷ 0x12 ∷ 0 ∷ 2 ∷ 3 ∷ 4 ∷ 0xa8 ∷ 0xff ∷ [])
      ≡ err e)
decode_frame-set_example =
    decode_frame-set tap_bytes 9 3 (omega arith) decode_frame-tap (omega arith) (omega arith)
      (omega arith)

validate_request_iff_example :
    ((validate_request tap ≡ ok response_expected) ↔ ExpectsResponse tap)
    × ((validate_request tap ≡ ok no_response_heartbeat) ↔ IsSilentHeartbeat tap)
validate_request_iff_example = validate_request_iff tap

unknown_version : validate_request (record tap { version = 3 }) ≡ err unsupported_version
unfolding validate_request
unknown_version = refl
