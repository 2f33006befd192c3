-- ===== src/Hidctl/Script.antt =====
-- tools/hidctl/src/script.rs: script commands, their packets, and the plan that is sent.
use rp2350_keymouse_bridge_f.Common.{
  ℕ, List, [], ◌∷◌, ◌++◌, map, Bool, true, false, if◌then◌else◌, Result, ok, err, to_be_bytes,
  to_be_bytes32, i16_as_u16, i8_as_u8,
}
use rp2350_keymouse_bridge_f.Common.Int.{ℤ}
use rp2350_keymouse_bridge_f.Protocol.{CommandType}
use rp2350_keymouse_bridge_f.Hidctl.{Text, as_bytes}
use rp2350_keymouse_bridge_f.Hidctl.Keys.{KeyCombo}

pub data MouseButtonName : Type 0 where
  left right middle : MouseButtonName

pub data ScriptCommand : Type 0 where
  type_ascii : Text → ScriptCommand
  key_tap key_down key_up : KeyCombo → ScriptCommand
  mouse_move : ℤ → ℤ → ScriptCommand
  mouse_click mouse_down mouse_up : MouseButtonName → ScriptCommand
  mouse_wheel : ℤ → ScriptCommand
  wait_ms : ℕ → ScriptCommand
  stop_all : ScriptCommand

pub record ScriptPacket : Type 0 where
  pub command_type : CommandType
  pub payload : List ℕ

-- `MouseButtonName::mask`
unfoldable pub button_mask : MouseButtonName → ℕ
button_mask left = 0x01
button_mask right = 0x02
button_mask middle = 0x04

abbrev pub packet : CommandType → List ℕ → ScriptPacket
packet command_type payload = record { command_type = command_type; payload = payload }

unfoldable pub script_command_packet : ScriptCommand → ScriptPacket
unfolding button_mask as_bytes
script_command_packet (type_ascii text) = packet CommandType.type_ascii (as_bytes text)
script_command_packet (key_tap combo) =
    packet CommandType.key_tap (combo.modifier ∷ combo.keycode ∷ [])
script_command_packet (key_down combo) =
    packet CommandType.key_down (combo.modifier ∷ combo.keycode ∷ [])
script_command_packet (key_up combo) =
    packet CommandType.key_up (combo.modifier ∷ combo.keycode ∷ [])
script_command_packet (mouse_move dx dy) =
    packet CommandType.mouse_move_rel (to_be_bytes (i16_as_u16 dx) ++ to_be_bytes (i16_as_u16 dy))
script_command_packet (mouse_click button) =
    packet CommandType.mouse_click (button_mask button ∷ [])
script_command_packet (mouse_down button) =
    packet CommandType.mouse_button_down (button_mask button ∷ [])
script_command_packet (mouse_up button) =
    packet CommandType.mouse_button_up (button_mask button ∷ [])
script_command_packet (mouse_wheel delta) = packet CommandType.mouse_wheel (i8_as_u8 delta ∷ [])
script_command_packet (wait_ms milliseconds) =
    packet CommandType.wait_ms (to_be_bytes32 milliseconds)
script_command_packet stop_all = packet CommandType.stop_all []

-- The plan with the batch of a segment after it.
unfoldable pub append_script_segment : List ScriptPacket → List ScriptCommand → List ScriptPacket
unfolding script_command_packet
append_script_segment plan [] = plan
append_script_segment plan (c ∷ cs) =
    plan
    ++ ((packet CommandType.batch_begin [] ∷ map script_command_packet (c ∷ cs))
        ++ (packet CommandType.batch_end [] ∷ []))

unfoldable pub is_stop_all : ScriptCommand → Bool
is_stop_all stop_all = true
is_stop_all other = false

-- The loop over the commands, and the last segment.
unfoldable pub plan_segments :
    List ScriptPacket → List ScriptCommand → List ScriptCommand → List ScriptPacket
unfolding append_script_segment is_stop_all
plan_segments plan segment [] = append_script_segment plan segment
plan_segments plan segment (c ∷ cs) =
    if is_stop_all c
    then plan_segments (append_script_segment plan segment ++ (packet CommandType.stop_all [] ∷ []))
        [] cs
    else plan_segments plan (segment ++ (c ∷ [])) cs

unfoldable pub plan_script_commands : List ScriptCommand → List ScriptPacket
unfolding plan_segments
plan_script_commands commands = plan_segments [] [] commands

-- A function that sends a packet, over the state that it changes.
abbrev pub Send : Type 0 → Type 0 → Type 0
Send S E = ScriptPacket → S → S × Result E (Unit {0})

module _ {S E : Type 0} (send : Send S E) where
  -- The loop over the plan; a failure sends a STOP, whose own failure is ignored.
  unfoldable pub send_plan : List ScriptPacket → S → S × Result E (Unit {0})
  send_plan [] s = (s, ok tt)
  send_plan (p ∷ ps) s = elim (send p s).1 [
    | ok u ↦ send_plan ps (send p s).0
    | err e ↦ ((send (packet CommandType.stop_all []) (send p s).0).0, err e)
  ]

  unfoldable pub run_script_commands : List ScriptCommand → S → S × Result E (Unit {0})
  unfolding send_plan plan_script_commands
  run_script_commands commands s = send_plan (plan_script_commands commands) s
