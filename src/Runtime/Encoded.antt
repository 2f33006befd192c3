-- ===== src/Runtime/Encoded.antt =====
-- src/runtime.rs: a command keeps its meaning on its way through the executor's frame.
use rp2350_keymouse_bridge_f.Common.{
  ℕ, ◌+◌, false, ◌≡◌, refl, List, ok, length, drop, take-append_self, replicate,
}
use rp2350_keymouse_bridge_f.Common.Heapless.{Heapless}
use rp2350_keymouse_bridge_f.Protocol.{max_payload_size}
use rp2350_keymouse_bridge_f.Commands.{decode_payload, decode_command}
use rp2350_keymouse_bridge_f.Commands.Owned.{
  OwnedCommand, ping, get_info, get_caps, heartbeat, stop_all, key_down, key_up, key_tap,
  type_ascii, mouse_move_rel, mouse_button_down, mouse_button_up, mouse_click, mouse_wheel, wait_ms,
  encode_owned_command,
}
use rp2350_keymouse_bridge_f.Commands.Values.{
  IsOwned, i16_bytes, i8_byte, from_mask-mask, wait_bytes,
}
use rp2350_keymouse_bridge_f.Commands.Wire.{wire}
use rp2350_keymouse_bridge_f.Execution.{execute_command, execute_command_once}
use rp2350_keymouse_bridge_f.Execution.Monad.{World}
use rp2350_keymouse_bridge_f.Execution.Shadow.{as_command}
use rp2350_keymouse_bridge_f.Executor.{
  Device, HidBackend, hid_backend, execute_frame_with_cancel, execute_frame_in_batch,
}
use rp2350_keymouse_bridge_f.Runtime.Jobs.{
  command_frame, execute_owned_command, execute_owned_command_with_recovery,
}

decode_payload-wire :
    (buffer : List ℕ) (c : OwnedCommand)
    → IsOwned c
    → decode_payload (wire c buffer).0 (wire c buffer).1 ≡ ok (as_command c)
unfolding encode_owned_command decode_payload
decode_payload-wire buffer ping h = refl
decode_payload-wire buffer get_info h = refl
decode_payload-wire buffer get_caps h = refl
decode_payload-wire buffer heartbeat h = refl
decode_payload-wire buffer stop_all h = refl
decode_payload-wire buffer (key_down s) h = refl
decode_payload-wire buffer (key_up s) h = refl
decode_payload-wire buffer (key_tap s) h = refl
decode_payload-wire buffer (type_ascii bytes) h =
    rw (take-append_self bytes (drop (0 + length bytes) buffer) (length bytes) refl) refl
decode_payload-wire buffer (mouse_move_rel dx dy) h = cc (i16_bytes dx h.0, i16_bytes dy h.1)
decode_payload-wire buffer (mouse_button_down b) h = rw (from_mask-mask b)
decode_payload-wire buffer (mouse_button_up b) h = rw (from_mask-mask b)
decode_payload-wire buffer (mouse_click b) h = rw (from_mask-mask b)
decode_payload-wire buffer (mouse_wheel w) h = cc (i8_byte w h)
decode_payload-wire buffer (wait_ms n) h = rw (wait_bytes n h)

command_decodes :
    (version sequence : ℕ) (c : OwnedCommand)
    → IsOwned c
    → decode_command (command_frame version sequence c) ≡ ok (as_command c)
unfolding decode_command
command_decodes version sequence c h = decode_payload-wire (replicate max_payload_size 0) c h

module _ {D : Type 0} (v : Heapless) (h : Device D) (fuel : ℕ) where
  -- A command whose values are within their types and the limit on a wait is executed as itself,
  -- although the executor encodes it into a frame and decodes that again: on its own with the
  -- recovery, and in a batch without.
  pub execute_owned_command_lem :
      (version sequence : ℕ) (c : OwnedCommand) (w : World (HidBackend D))
      → IsOwned c
      → (execute_owned_command v h fuel version sequence c w
          ≡ execute_command v
              (hid_backend h fuel)
              (as_command c)
              version
              (h.caps_lock_enabled w.backend.device)
              w)
        × (execute_owned_command_with_recovery v h fuel version sequence c false w
            ≡ execute_command_once v
                (hid_backend h fuel)
                (as_command c)
                version
                (h.caps_lock_enabled w.backend.device)
                w)
  unfolding execute_owned_command execute_owned_command_with_recovery execute_frame_with_cancel
      execute_frame_in_batch
  execute_owned_command_lem version sequence c w owned = (
    rw (command_decodes version sequence c owned, execute_frame_with_cancel) refl,
    rw (command_decodes version sequence c owned, execute_frame_in_batch) refl,
  )
