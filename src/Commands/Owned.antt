-- ===== src/Commands/Owned.antt =====
-- src/owned_command.rs, and `encode_owned_command` of src/runtime.rs: a command that owns its payload.
use rp2350_keymouse_bridge_f.Common.{
  ℕ, none, some, List, [], ◌∷◌, Result, ok, err, ◌>>=◌, length, copy_at, to_be_bytes, to_be_bytes32,
  i16_as_u16, i8_as_u8,
}
use rp2350_keymouse_bridge_f.Common.Int.{ℤ}
use rp2350_keymouse_bridge_f.Common.Heapless.{Heapless}
use rp2350_keymouse_bridge_f.Protocol.{CommandType, Frame, max_payload_size}
use rp2350_keymouse_bridge_f.Commands.{
  KeyStroke, MouseButton, mask, Command, CommandError, invalid_payload_length, unsupported_command,
  decode_command,
}

-- `MAX_ASCII_STROKES` of src/input_state.rs
abbrev pub max_ascii_strokes : ℕ
max_ascii_strokes = max_payload_size

pub data OwnedCommand : Type 0 where
  ping get_info get_caps heartbeat stop_all : OwnedCommand
  key_down key_up key_tap : KeyStroke → OwnedCommand
  type_ascii : List ℕ → OwnedCommand
  mouse_move_rel : ℤ → ℤ → OwnedCommand
  mouse_button_down mouse_button_up mouse_click : MouseButton → OwnedCommand
  mouse_wheel : ℤ → OwnedCommand
  wait_ms : ℕ → OwnedCommand

module _ (v : Heapless) where
  -- `OwnedCommand::type_ascii`
  unfoldable pub own_ascii : List ℕ → Result CommandError OwnedCommand
  own_ascii bytes = elim (v.extend_from_slice ℕ max_ascii_strokes [] bytes) [
    | none ↦ err invalid_payload_length
    | some owned ↦ ok (type_ascii owned)
  ]

  -- The `match` of `OwnedCommand::from_frame`.
  unfoldable pub own_command : Command → Result CommandError OwnedCommand
  unfolding own_ascii
  own_command Command.ping = ok ping
  own_command Command.get_info = ok get_info
  own_command Command.get_caps = ok get_caps
  own_command Command.heartbeat = ok heartbeat
  own_command (Command.key_down stroke) = ok (key_down stroke)
  own_command (Command.key_up stroke) = ok (key_up stroke)
  own_command (Command.key_tap stroke) = ok (key_tap stroke)
  own_command (Command.type_ascii bytes) = own_ascii bytes
  own_command (Command.mouse_move_rel dx dy) = ok (mouse_move_rel dx dy)
  own_command (Command.mouse_button_down button) = ok (mouse_button_down button)
  own_command (Command.mouse_button_up button) = ok (mouse_button_up button)
  own_command (Command.mouse_click button) = ok (mouse_click button)
  own_command (Command.mouse_wheel wheel) = ok (mouse_wheel wheel)
  own_command (Command.wait_ms delay) = ok (wait_ms delay)
  own_command Command.stop_all = ok stop_all
  own_command Command.batch_begin = err unsupported_command
  own_command Command.batch_end = err unsupported_command

  -- `OwnedCommand::from_frame`
  unfoldable pub from_frame : Frame → Result CommandError OwnedCommand
  unfolding decode_command own_command
  from_frame frame = decode_command frame >>= own_command

unfoldable pub payload_len : OwnedCommand → ℕ
payload_len ping = 0
payload_len get_info = 0
payload_len get_caps = 0
payload_len heartbeat = 0
payload_len stop_all = 0
payload_len (key_down stroke) = 2
payload_len (key_up stroke) = 2
payload_len (key_tap stroke) = 2
payload_len (type_ascii bytes) = length bytes
payload_len (mouse_move_rel dx dy) = 4
payload_len (wait_ms delay) = 4
payload_len (mouse_button_down button) = 1
payload_len (mouse_button_up button) = 1
payload_len (mouse_click button) = 1
payload_len (mouse_wheel wheel) = 1

-- The payload buffer afterwards, the command type and the payload's length. The copies stay within
-- the buffer, which is as large as the capacity of the owned text.
unfoldable pub encode_owned_command : OwnedCommand → List ℕ → List ℕ × CommandType × ℕ
unfolding mask
encode_owned_command ping payload = (payload, CommandType.ping, 0)
encode_owned_command get_info payload = (payload, CommandType.get_info, 0)
encode_owned_command get_caps payload = (payload, CommandType.get_caps, 0)
encode_owned_command heartbeat payload = (payload, CommandType.heartbeat, 0)
encode_owned_command (key_down s) payload =
    (copy_at payload 0 (s.modifier ∷ s.keycode ∷ []), CommandType.key_down, 2)
encode_owned_command (key_up s) payload =
    (copy_at payload 0 (s.modifier ∷ s.keycode ∷ []), CommandType.key_up, 2)
encode_owned_command (key_tap s) payload =
    (copy_at payload 0 (s.modifier ∷ s.keycode ∷ []), CommandType.key_tap, 2)
encode_owned_command (type_ascii bytes) payload =
    (copy_at payload 0 bytes, CommandType.type_ascii, length bytes)
encode_owned_command (mouse_move_rel dx dy) payload = (
  copy_at (copy_at payload 0 (to_be_bytes (i16_as_u16 dx))) 2 (to_be_bytes (i16_as_u16 dy)),
  CommandType.mouse_move_rel,
  4,
)
encode_owned_command (mouse_button_down button) payload =
    (copy_at payload 0 (mask button ∷ []), CommandType.mouse_button_down, 1)
encode_owned_command (mouse_button_up button) payload =
    (copy_at payload 0 (mask button ∷ []), CommandType.mouse_button_up, 1)
encode_owned_command (mouse_click button) payload =
    (copy_at payload 0 (mask button ∷ []), CommandType.mouse_click, 1)
encode_owned_command (mouse_wheel wheel) payload =
    (copy_at payload 0 (i8_as_u8 wheel ∷ []), CommandType.mouse_wheel, 1)
encode_owned_command (wait_ms delay) payload =
    (copy_at payload 0 (to_be_bytes32 delay), CommandType.wait_ms, 4)
encode_owned_command stop_all payload = (payload, CommandType.stop_all, 0)
