-- ===== src/Protocol.antt =====
-- src/protocol.rs: the wire constants and types of the framed serial protocol.
pub mod Crc
pub mod Codec
pub mod Request
pub mod Bytes
pub mod RoundTrip
pub mod Sound
pub mod Detect
mod Tests
use rp2350_keymouse_bridge_f.Common.{
  ℕ, ◌+◌, ◌≡◌, refl, arith, List, [], ◌∷◌, Bool, true, false, ◌==◌, if◌then◌else◌, ◌<◌,
}

abbrev pub magic : List ℕ
magic = 0xa5 ∷ 0x5a ∷ []

abbrev pub legacy_protocol_version : ℕ
legacy_protocol_version = 1

abbrev pub protocol_version : ℕ
protocol_version = 2

abbrev pub flag_no_response : ℕ
flag_no_response = 1

abbrev pub max_wait_ms : ℕ
max_wait_ms = 60000

abbrev pub max_payload_size : ℕ
max_payload_size = 240

abbrev pub frame_overhead : ℕ
frame_overhead = 11

abbrev pub max_frame_size : ℕ
max_frame_size = frame_overhead + max_payload_size

pub data CommandType : Type 0 where
  ping get_info get_caps heartbeat key_down key_up key_tap type_ascii mouse_move_rel
        mouse_button_down mouse_button_up mouse_click mouse_wheel wait_ms batch_begin batch_end
        stop_all ack nack status busy :
      CommandType
  unknown : ℕ → CommandType

-- `CommandType::from_byte`
unfoldable pub from_byte : ℕ → CommandType
from_byte b =
    if b == 0x01
    then ping
    else if b == 0x02
    then get_info
    else if b == 0x03
    then get_caps
    else if b == 0x04
    then heartbeat
    else if b == 0x10
    then key_down
    else if b == 0x11
    then key_up
    else if b == 0x12
    then key_tap
    else if b == 0x13
    then type_ascii
    else if b == 0x20
    then mouse_move_rel
    else if b == 0x21
    then mouse_button_down
    else if b == 0x22
    then mouse_button_up
    else if b == 0x23
    then mouse_click
    else if b == 0x24
    then mouse_wheel
    else if b == 0x30
    then wait_ms
    else if b == 0x40
    then batch_begin
    else if b == 0x41
    then batch_end
    else if b == 0x7f
    then stop_all
    else if b == 0x80
    then ack
    else if b == 0x81
    then nack
    else if b == 0x82
    then status
    else if b == 0x83
    then busy
    else unknown b

-- `CommandType::as_byte`
unfoldable pub as_byte : CommandType → ℕ
as_byte ping = 0x01
as_byte get_info = 0x02
as_byte get_caps = 0x03
as_byte heartbeat = 0x04
as_byte key_down = 0x10
as_byte key_up = 0x11
as_byte key_tap = 0x12
as_byte type_ascii = 0x13
as_byte mouse_move_rel = 0x20
as_byte mouse_button_down = 0x21
as_byte mouse_button_up = 0x22
as_byte mouse_click = 0x23
as_byte mouse_wheel = 0x24
as_byte wait_ms = 0x30
as_byte batch_begin = 0x40
as_byte batch_end = 0x41
as_byte stop_all = 0x7f
as_byte ack = 0x80
as_byte nack = 0x81
as_byte status = 0x82
as_byte busy = 0x83
as_byte (unknown b) = b

pub record Frame : Type 0 where
  pub version : ℕ
  pub flags : ℕ
  pub sequence : ℕ
  pub command_type : CommandType
  pub payload : List ℕ

pub data RequestKind : Type 0 where
  response_expected no_response_heartbeat : RequestKind

pub data RequestError : Type 0 where
  unsupported_version unsupported_flags invalid_sequence : RequestError

pub data DecodeError : Type 0 where
  too_short bad_magic length_mismatch payload_too_long bad_crc : DecodeError

pub data EncodeError : Type 0 where
  payload_too_long buffer_too_small : EncodeError

pub as_byte-from_byte : (b : ℕ) → as_byte (from_byte b) ≡ b
unfolding from_byte as_byte
as_byte-from_byte b = ground arith

-- A command type that a frame on the wire can carry: `unknown` holds no byte with a name.
abbrev pub IsCanonical : CommandType → Type 0
IsCanonical c = from_byte (as_byte c) ≡ c
