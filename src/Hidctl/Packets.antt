-- ===== src/Hidctl/Packets.antt =====
-- tools/hidctl/src/script.rs: a packet means to the firmware what its script command says.
use rp2350_keymouse_bridge_f.Common.{◌≤◌, ◌≡◌, refl, ok}
use rp2350_keymouse_bridge_f.Protocol.{max_wait_ms}
use rp2350_keymouse_bridge_f.Commands.{KeyStroke, MouseButton, Command, decode_payload, mask}
use rp2350_keymouse_bridge_f.Commands.Values.{
  IsI16, IsI8, i16_bytes, i8_byte, from_mask-mask, wait_bytes,
}
use rp2350_keymouse_bridge_f.Hidctl.{as_bytes}
use rp2350_keymouse_bridge_f.Hidctl.Keys.{KeyCombo}
use rp2350_keymouse_bridge_f.Hidctl.Script.{
  MouseButtonName, left, right, middle, ScriptCommand, type_ascii, key_tap, key_down, key_up,
  mouse_move, mouse_click, mouse_down, mouse_up, mouse_wheel, wait_ms, stop_all, button_mask,
  script_command_packet,
}

abbrev pub stroke : KeyCombo → KeyStroke
stroke combo = record { modifier = combo.modifier; keycode = combo.keycode }

abbrev pub button : MouseButtonName → MouseButton
button left = MouseButton.left
button right = MouseButton.right
button middle = MouseButton.middle

-- The firmware's command for a script command.
abbrev pub meant : ScriptCommand → Command
meant (type_ascii text) = Command.type_ascii (as_bytes text)
meant (key_tap combo) = Command.key_tap (stroke combo)
meant (key_down combo) = Command.key_down (stroke combo)
meant (key_up combo) = Command.key_up (stroke combo)
meant (mouse_move dx dy) = Command.mouse_move_rel dx dy
meant (mouse_click name) = Command.mouse_click (button name)
meant (mouse_down name) = Command.mouse_button_down (button name)
meant (mouse_up name) = Command.mouse_button_up (button name)
meant (mouse_wheel delta) = Command.mouse_wheel delta
meant (wait_ms milliseconds) = Command.wait_ms milliseconds
meant stop_all = Command.stop_all

-- The values that the fields' types hold, with the firmware's limit on a wait.
abbrev pub IsScript : ScriptCommand → Type 0
IsScript (mouse_move dx dy) = IsI16 dx × IsI16 dy
IsScript (mouse_wheel delta) = IsI8 delta
IsScript (wait_ms milliseconds) = milliseconds ≤ max_wait_ms
IsScript other = Unit {0}

mask-button : (name : MouseButtonName) → button_mask name ≡ mask (button name)
unfolding button_mask mask
mask-button left = refl
mask-button right = refl
mask-button middle = refl

-- The firmware decodes the packet of a script command as the command that the script means, when the
-- distances and the wheel are in the range of their types and a wait is within the firmware's limit.
pub script_command_packet_lem :
    (c : ScriptCommand)
    → IsScript c
    → decode_payload (script_command_packet c).command_type (script_command_packet c).payload
      ≡ ok (meant c)
unfolding script_command_packet decode_payload
script_command_packet_lem (type_ascii text) h = refl
script_command_packet_lem (key_tap combo) h = refl
script_command_packet_lem (key_down combo) h = refl
script_command_packet_lem (key_up combo) h = refl
script_command_packet_lem (mouse_move dx dy) h = cc (i16_bytes dx h.0, i16_bytes dy h.1)
script_command_packet_lem (mouse_click name) h = rw (mask-button name, from_mask-mask (button name))
script_command_packet_lem (mouse_down name) h = rw (mask-button name, from_mask-mask (button name))
script_command_packet_lem (mouse_up name) h = rw (mask-button name, from_mask-mask (button name))
script_command_packet_lem (mouse_wheel delta) h = cc (i8_byte delta h)
script_command_packet_lem (wait_ms milliseconds) h = rw (wait_bytes milliseconds h)
script_command_packet_lem stop_all h = refl
