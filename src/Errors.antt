-- ===== src/Errors.antt =====
-- src/error.rs: the error codes of the wire.
use rp2350_keymouse_bridge_f.Common.{
  ℕ, ◌≡◌, refl, ap, sym, ◌∙◌, ◌↔◌, arith, Option, none, some, Bool, true, false, ◌==◌,
  if◌then◌else◌,
}
use rp2350_keymouse_bridge_f.Protocol.{DecodeError, RequestError}
use rp2350_keymouse_bridge_f.Commands.{CommandError}
use rp2350_keymouse_bridge_f.Input.{InputError}

pub data ErrorCode : Type 0 where
  bad_frame bad_command unsupported_ascii hid_write transport frame_too_long unsupported_version
        unsupported_flags invalid_sequence sequence_conflict batch_state batch_capacity
        too_many_keys wait_too_long keyboard_busy cancelled :
      ErrorCode

-- `error as u8`
unfoldable pub error_byte : ErrorCode → ℕ
error_byte bad_frame = 1
error_byte bad_command = 2
error_byte unsupported_ascii = 3
error_byte hid_write = 4
error_byte transport = 5
error_byte frame_too_long = 6
error_byte unsupported_version = 7
error_byte unsupported_flags = 8
error_byte invalid_sequence = 9
error_byte sequence_conflict = 10
error_byte batch_state = 11
error_byte batch_capacity = 12
error_byte too_many_keys = 13
error_byte wait_too_long = 14
error_byte keyboard_busy = 15
error_byte cancelled = 16

-- `ErrorCode::from_byte`
unfoldable pub error_from_byte : ℕ → Option ErrorCode
error_from_byte value =
    if value == 1
    then some bad_frame
    else if value == 2
    then some bad_command
    else if value == 3
    then some unsupported_ascii
    else if value == 4
    then some hid_write
    else if value == 5
    then some transport
    else if value == 6
    then some frame_too_long
    else if value == 7
    then some unsupported_version
    else if value == 8
    then some unsupported_flags
    else if value == 9
    then some invalid_sequence
    else if value == 10
    then some sequence_conflict
    else if value == 11
    then some batch_state
    else if value == 12
    then some batch_capacity
    else if value == 13
    then some too_many_keys
    else if value == 14
    then some wait_too_long
    else if value == 15
    then some keyboard_busy
    else if value == 16
    then some cancelled
    else none

unfoldable pub from_decode : DecodeError → ErrorCode
from_decode e = bad_frame

unfoldable pub from_request : RequestError → ErrorCode
from_request RequestError.unsupported_version = unsupported_version
from_request RequestError.unsupported_flags = unsupported_flags
from_request RequestError.invalid_sequence = invalid_sequence

unfoldable pub from_command : CommandError → ErrorCode
from_command CommandError.wait_too_long = wait_too_long
from_command CommandError.invalid_payload_length = bad_command
from_command CommandError.invalid_mouse_button = bad_command
from_command CommandError.unsupported_command = bad_command

unfoldable pub from_input : InputError → ErrorCode
from_input InputError.too_many_keys = too_many_keys
from_input (InputError.unsupported_ascii byte) = unsupported_ascii
from_input InputError.too_many_strokes = frame_too_long

unfoldable pub requires_best_effort_release : ErrorCode → Bool
requires_best_effort_release hid_write = true
requires_best_effort_release cancelled = true
requires_best_effort_release other = false

error_byte_found : (e : ErrorCode) → error_from_byte (error_byte e) ≡ some e
unfolding error_from_byte error_byte
error_byte_found bad_frame = refl
error_byte_found bad_command = refl
error_byte_found unsupported_ascii = refl
error_byte_found hid_write = refl
error_byte_found transport = refl
error_byte_found frame_too_long = refl
error_byte_found unsupported_version = refl
error_byte_found unsupported_flags = refl
error_byte_found invalid_sequence = refl
error_byte_found sequence_conflict = refl
error_byte_found batch_state = refl
error_byte_found batch_capacity = refl
error_byte_found too_many_keys = refl
error_byte_found wait_too_long = refl
error_byte_found keyboard_busy = refl
error_byte_found cancelled = refl

byte_of_found : (byte : ℕ) (e : ErrorCode) → error_from_byte byte ≡ some e → error_byte e ≡ byte
unfolding error_from_byte error_byte
byte_of_found byte e h = ground arith

-- A byte decodes to an error code exactly when it is the byte sent for that code.
pub error_from_byte_iff :
    (byte : ℕ) (e : ErrorCode) → (error_from_byte byte ≡ some e) ↔ (error_byte e ≡ byte)
error_from_byte_iff byte e =
    (λ h. byte_of_found byte e h, λ h. ap error_from_byte (sym h) ∙ error_byte_found e)
