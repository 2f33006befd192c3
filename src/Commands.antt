-- ===== src/Commands.antt =====
-- src/commands.rs: the commands that a frame's payload decodes to.
pub mod Ascii
pub mod Layout
pub mod Owned
pub mod Values
pub mod Wire
pub mod Length
mod Tests
use rp2350_keymouse_bridge_f.Common.{
  ℕ, Option, none, some, List, [], ◌∷◌, Bool, true, false, ◌==◌, ltb, if◌then◌else◌, Result, ok,
  err, map_ok, ok_or, as_i16, as_i8, from_be_bytes, from_be_bytes32,
}
use rp2350_keymouse_bridge_f.Common.Int.{ℤ}
use rp2350_keymouse_bridge_f.Protocol.{CommandType, Frame, max_wait_ms}

abbrev pub mod_left_shift : ℕ
mod_left_shift = 0x02

pub record KeyStroke : Type 0 where
  pub modifier : ℕ
  pub keycode : ℕ

pub data MouseButton : Type 0 where
  left right middle : MouseButton

-- `MouseButton::from_mask`
unfoldable pub from_mask : ℕ → Option MouseButton
from_mask mask =
    if mask == 0x01
    then some left
    else if mask == 0x02
    then some right
    else if mask == 0x04
    then some middle
    else none

-- `MouseButton::mask`
unfoldable pub mask : MouseButton → ℕ
mask left = 0x01
mask right = 0x02
mask middle = 0x04

pub data Command : Type 0 where
  ping get_info get_caps heartbeat batch_begin batch_end stop_all : Command
  key_down key_up key_tap : KeyStroke → Command
  type_ascii : List ℕ → Command
  mouse_move_rel : ℤ → ℤ → Command
  mouse_button_down mouse_button_up mouse_click : MouseButton → Command
  mouse_wheel : ℤ → Command
  wait_ms : ℕ → Command

pub data CommandError : Type 0 where
  invalid_payload_length invalid_mouse_button unsupported_command wait_too_long : CommandError

unfoldable pub expect_empty : List ℕ → Command → Result CommandError Command
expect_empty [] command = ok command
expect_empty (b ∷ bs) command = err invalid_payload_length

unfoldable pub decode_keystroke : List ℕ → Result CommandError KeyStroke
decode_keystroke (m ∷ k ∷ []) = ok (record { modifier = m; keycode = k })
decode_keystroke other = err invalid_payload_length

unfoldable pub decode_mouse_move : List ℕ → Result CommandError Command
decode_mouse_move (a ∷ b ∷ c ∷ d ∷ []) =
    ok (mouse_move_rel (as_i16 (from_be_bytes a b)) (as_i16 (from_be_bytes c d)))
decode_mouse_move other = err invalid_payload_length

unfoldable pub decode_mouse_button : List ℕ → Result CommandError MouseButton
unfolding from_mask
decode_mouse_button (b ∷ []) = ok_or (from_mask b) invalid_mouse_button
decode_mouse_button other = err invalid_payload_length

unfoldable pub decode_mouse_wheel : List ℕ → Result CommandError Command
decode_mouse_wheel (b ∷ []) = ok (mouse_wheel (as_i8 b))
decode_mouse_wheel other = err invalid_payload_length

unfoldable pub decode_wait_ms : List ℕ → Result CommandError Command
decode_wait_ms (a ∷ b ∷ c ∷ d ∷ []) =
    let delay = from_be_bytes32 a b c d in
    if ltb max_wait_ms delay then err wait_too_long else ok (wait_ms delay)
decode_wait_ms other = err invalid_payload_length

-- The `match` of `decode_command`.
unfoldable pub decode_payload : CommandType → List ℕ → Result CommandError Command
unfolding expect_empty decode_keystroke decode_mouse_move decode_mouse_button decode_mouse_wheel
    decode_wait_ms
decode_payload CommandType.ping payload = expect_empty payload ping
decode_payload CommandType.get_info payload = expect_empty payload get_info
decode_payload CommandType.get_caps payload = expect_empty payload get_caps
decode_payload CommandType.heartbeat payload = expect_empty payload heartbeat
decode_payload CommandType.key_down payload = map_ok key_down (decode_keystroke payload)
decode_payload CommandType.key_up payload = map_ok key_up (decode_keystroke payload)
decode_payload CommandType.key_tap payload = map_ok key_tap (decode_keystroke payload)
decode_payload CommandType.type_ascii payload = ok (type_ascii payload)
decode_payload CommandType.mouse_move_rel payload = decode_mouse_move payload
decode_payload CommandType.mouse_button_down payload =
    map_ok mouse_button_down (decode_mouse_button payload)
decode_payload CommandType.mouse_button_up payload =
    map_ok mouse_button_up (decode_mouse_button payload)
decode_payload CommandType.mouse_click payload = map_ok mouse_click (decode_mouse_button payload)
decode_payload CommandType.mouse_wheel payload = decode_mouse_wheel payload
decode_payload CommandType.wait_ms payload = decode_wait_ms payload
decode_payload CommandType.batch_begin payload = expect_empty payload batch_begin
decode_payload CommandType.batch_end payload = expect_empty payload batch_end
decode_payload CommandType.stop_all payload = expect_empty payload stop_all
decode_payload other payload = err unsupported_command

unfoldable pub decode_command : Frame → Result CommandError Command
unfolding decode_payload
decode_command frame = decode_payload frame.command_type frame.payload
