-- ===== src/Batch.antt =====
-- src/batch.rs: the collector of a batch, and its check of each command against a shadow state.
pub mod Collected
mod Tests
use rp2350_keymouse_bridge_f.Common.{
  ℕ, ◌+◌, ◌*◌, Option, none, some, List, [], ◌∷◌, Bool, true, false, not, ltb, if◌then◌else◌,
  Result, ok, err, map_ok, map_err, length, u32_mod,
}
use rp2350_keymouse_bridge_f.Common.Heapless.{Heapless}
use rp2350_keymouse_bridge_f.Protocol.{max_wait_ms}
use rp2350_keymouse_bridge_f.Commands.Owned.{
  OwnedCommand, ping, get_info, get_caps, heartbeat, stop_all, key_down, key_up, key_tap,
  type_ascii, mouse_move_rel, mouse_button_down, mouse_button_up, mouse_click, mouse_wheel, wait_ms,
  payload_len,
}
use rp2350_keymouse_bridge_f.Input
use rp2350_keymouse_bridge_f.Input.{InputError}
use rp2350_keymouse_bridge_f.Input.Mouse.{InputState}
use rp2350_keymouse_bridge_f.Input.Mouse
use rp2350_keymouse_bridge_f.Input.Strokes.{ascii_strokes}

abbrev pub batch_max_commands : ℕ
batch_max_commands = 32

abbrev pub batch_max_payload_bytes : ℕ
batch_max_payload_bytes = 8 * 1024

pub data BatchError : Type 0 where
  capacity too_many_keys keyboard_busy wait_too_long not_batchable : BatchError
  unsupported_ascii : ℕ → BatchError

pub record BatchCollector : Type 0 where
  pub commands : List OwnedCommand
  pub payload_bytes : ℕ
  pub shadow : InputState

unfoldable pub begin : InputState → BatchCollector
begin initial_state = record { commands = []; payload_bytes = 0; shadow = initial_state }

unfoldable pub map_input_error : InputError → BatchError
map_input_error InputError.too_many_keys = too_many_keys
map_input_error InputError.too_many_strokes = capacity
map_input_error (InputError.unsupported_ascii byte) = unsupported_ascii byte

-- `usize::checked_add` on the 32-bit target
abbrev pub checked_add : ℕ → ℕ → Option ℕ
checked_add a b = if ltb (a + b) u32_mod then some (a + b) else none

unfoldable pub checked_payload_total : ℕ → ℕ → Result BatchError ℕ
checked_payload_total current additional = elim (checked_add current additional) [
  | none ↦ err capacity
  | some total ↦ if ltb batch_max_payload_bytes total then err capacity else ok total
]

module _ (v : Heapless) where
  -- The shadow state afterwards.
  unfoldable pub validate_command : InputState → OwnedCommand → Result BatchError InputState
  unfolding map_input_error
  validate_command shadow ping = err not_batchable
  validate_command shadow get_info = err not_batchable
  validate_command shadow get_caps = err not_batchable
  validate_command shadow heartbeat = err not_batchable
  validate_command shadow stop_all = err not_batchable
  validate_command shadow (key_down stroke) =
      map_err map_input_error
        (map_ok (λ k. record shadow { keyboard = k }) (Input.key_down shadow.keyboard stroke))
  validate_command shadow (key_up stroke) =
      ok (record shadow { keyboard = Input.key_up shadow.keyboard stroke })
  validate_command shadow (key_tap stroke) =
      map_err map_input_error (map_ok (λ plan. shadow) (Input.tap_plan shadow.keyboard stroke))
  validate_command shadow (type_ascii bytes) =
      if not (Input.is_idle shadow.keyboard)
      then err keyboard_busy
      else map_err map_input_error (map_ok (λ strokes. shadow) (ascii_strokes v false bytes))
  validate_command shadow (mouse_move_rel dx dy) = ok shadow
  validate_command shadow (mouse_wheel wheel) = ok shadow
  validate_command shadow (mouse_button_down button) =
      ok (record shadow { mouse = Mouse.button_down shadow.mouse button })
  validate_command shadow (mouse_button_up button) =
      ok (record shadow { mouse = Mouse.button_up shadow.mouse button })
  validate_command shadow (mouse_click button) = ok shadow
  validate_command shadow (wait_ms delay) =
      if ltb max_wait_ms delay then err wait_too_long else ok shadow

  -- The collector afterwards, which an error leaves as it was.
  unfoldable pub push : BatchCollector → OwnedCommand → Result BatchError BatchCollector
  unfolding checked_payload_total
  push b command = elim (validate_command b.shadow command) [
    | err e ↦ err e
    | ok next_shadow ↦ elim (checked_add (length b.commands) 1) [
      | none ↦ err capacity
      | some next_command_count ↦
          if ltb batch_max_commands next_command_count
          then err capacity
          else elim (checked_payload_total b.payload_bytes (payload_len command)) [
            | err e ↦ err e
            | ok next_payload_bytes ↦
                elim (v.push OwnedCommand batch_max_commands b.commands command) [
                  | none ↦ err capacity
                  | some commands ↦ ok (record {
                    commands = commands;
                    payload_bytes = next_payload_bytes;
                    shadow = next_shadow;
                  })
                ]
          ]
    ]
  ]
