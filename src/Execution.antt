-- ===== src/Execution.antt =====
-- src/execution_core.rs: commands and batches on a backend.
pub mod Monad
pub mod Effects
pub mod Once
pub mod Committed
pub mod Recovery
pub mod Reports
pub mod Batch
pub mod Shadow
mod Tests
use rp2350_keymouse_bridge_f.Common.{
  ℕ, zero, suc, ◌/◌, ◌%◌, List, [], ◌∷◌, Bool, true, false, not, ◌&&◌, ◌==◌, bit_or, if◌then◌else◌,
  Option, none, some, Result, ok, err, ltb, map_err,
}
use rp2350_keymouse_bridge_f.Common.Int.{ℤ, pos, negsuc, pos_part}
use rp2350_keymouse_bridge_f.Common.Heapless.{Heapless}
use rp2350_keymouse_bridge_f.Protocol.{max_payload_size, protocol_version}
use rp2350_keymouse_bridge_f.Commands.{
  Command, KeyStroke, ping, get_info, get_caps, heartbeat, key_down, key_up, key_tap, type_ascii,
  mouse_move_rel, mouse_button_down, mouse_button_up, mouse_click, mouse_wheel, wait_ms,
  batch_begin, batch_end, stop_all,
}
use rp2350_keymouse_bridge_f.Input
use rp2350_keymouse_bridge_f.Input.{KeyboardState, KeyboardPulse}
use rp2350_keymouse_bridge_f.Input.Mouse
use rp2350_keymouse_bridge_f.Input.Mouse.{MouseState, MousePulse, InputState, clear_input}
use rp2350_keymouse_bridge_f.Input.Movement.{RelativeMovementSteps, is_zero, next}
use rp2350_keymouse_bridge_f.Input.Strokes.{ascii_strokes}
use rp2350_keymouse_bridge_f.Errors.{
  ErrorCode, keyboard_busy, bad_command, from_input, requires_best_effort_release,
}
use rp2350_keymouse_bridge_f.Execution.Monad.{
  Backend, World, Exec, done, fail, lift, ◌>>=◌, ◌>>◌, on_backend, get_input, set_keyboard,
  set_mouse,
}

pub data DeviceResponse : Type 0 where
  acked : DeviceResponse
  info caps : List ℕ → DeviceResponse

abbrev pub key_tap_delay_ms : ℕ
key_tap_delay_ms = 8

abbrev pub mouse_click_delay_ms : ℕ
mouse_click_delay_ms = 20

abbrev pub move_fuel : ℕ
move_fuel = 260

-- src/firmware_config.rs
unfoldable pub info_payload : List ℕ
info_payload =
    protocol_version ∷ (max_payload_size / 256 % 256) ∷ (max_payload_size % 256) ∷ 0x03 ∷ []

unfoldable pub capability_payload : ℕ → List ℕ
capability_payload request_version =
    let base = bit_or (bit_or (bit_or 1 2) 4) 8 in
    let caps =
      if request_version == protocol_version
      then bit_or base (bit_or (bit_or 16 32) 64)
      else base in
    protocol_version
    ∷ (max_payload_size / 256 % 256)
    ∷ (max_payload_size % 256)
    ∷ (caps / 256 % 256)
    ∷ (caps % 256)
    ∷ 1
    ∷ 1
    ∷ 0
    ∷ (key_tap_delay_ms % 256)
    ∷ (mouse_click_delay_ms % 256)
    ∷ []

module _ {S : Type 0} (b : Backend S) where
  abbrev pub check : Exec S (Unit {0})
  check = on_backend b.check_cancelled

  unfoldable pub send_relative_mouse_step : MouseState → ℤ → ℤ → Exec S (Unit {0})
  send_relative_mouse_step state x y =
      if is_zero x && ltb 0 (pos_part y)
      then (do
        on_backend (b.send_mouse state (pos 1) y (pos 0))
        on_backend (b.send_mouse state (negsuc 0) (pos 0) (pos 0)))
      else on_backend (b.send_mouse state x y (pos 0))

  unfoldable pub commit_keyboard_state : KeyboardState → Exec S (Unit {0})
  commit_keyboard_state next = do on_backend (b.send_keyboard next); set_keyboard next

  unfoldable pub commit_mouse_state : MouseState → Exec S (Unit {0})
  commit_mouse_state next = do
    on_backend (b.send_mouse next (pos 0) (pos 0) (pos 0))
    set_mouse next

  unfoldable pub release_keyboard : Option KeyboardState → Exec S (Unit {0})
  unfolding commit_keyboard_state
  release_keyboard none = done tt
  release_keyboard (some released) = do
    commit_keyboard_state released
    on_backend (b.delay key_tap_delay_ms)

  unfoldable pub execute_keyboard_pulse : KeyboardPulse → Exec S (Unit {0})
  unfolding release_keyboard commit_keyboard_state
  execute_keyboard_pulse pulse = do
    release_keyboard (Input.released pulse)
    commit_keyboard_state (Input.pressed pulse)
    on_backend (b.delay key_tap_delay_ms)
    commit_keyboard_state (Input.restore pulse)

  unfoldable pub release_mouse : Option MouseState → Exec S (Unit {0})
  unfolding commit_mouse_state
  release_mouse none = done tt
  release_mouse (some released) = do
    commit_mouse_state released
    on_backend (b.delay mouse_click_delay_ms)

  unfoldable pub execute_mouse_pulse : MousePulse → Exec S (Unit {0})
  unfolding release_mouse commit_mouse_state
  execute_mouse_pulse pulse = do
    release_mouse (Mouse.released pulse)
    commit_mouse_state (Mouse.pressed pulse)
    on_backend (b.delay mouse_click_delay_ms)
    commit_mouse_state (Mouse.restore pulse)

  -- Both interfaces are written even if the first write fails.
  unfoldable pub reset_inputs : Exec S (Unit {0})
  reset_inputs w =
      let cleared = clear_input w.input in
      let (s, keyboard_result) = b.send_keyboard cleared.keyboard w.backend in
      let (s', mouse_result) = b.send_mouse cleared.mouse (pos 0) (pos 0) (pos 0) s in
      (
        record { backend = s'; input = cleared },
        elim keyboard_result [ err e ↦ err e | ok u ↦ mouse_result ],
      )

  -- The `for` loop over the strokes of a text.
  unfoldable pub type_strokes : List KeyStroke → Exec S (Unit {0})
  unfolding execute_keyboard_pulse
  type_strokes [] = done tt
  type_strokes (stroke ∷ strokes) = do
    check
    state ← get_input
    pulse ← lift (map_err from_input (Input.tap_plan state.keyboard stroke))
    execute_keyboard_pulse pulse
    type_strokes strokes

  -- The `for` loop over the steps of a movement, with fuel: more than an `i16` needs.
  unfoldable pub move_steps : ℕ → RelativeMovementSteps → Exec S (Unit {0})
  unfolding send_relative_mouse_step
  move_steps zero movement = done tt
  move_steps (suc fuel) movement = elim (next movement) [
    | none ↦ done tt
    | some (step, rest) ↦ do
      check
      state ← get_input
      send_relative_mouse_step state.mouse step.0 step.1
      check
      move_steps fuel rest
  ]

module _ {S : Type 0} (v : Heapless) (b : Backend S) where
  unfoldable pub type_text : List ℕ → Bool → Exec S DeviceResponse
  unfolding type_strokes
  type_text bytes caps_lock = do
    state ← get_input
    if not (Input.is_idle state.keyboard) then fail keyboard_busy else (do
      strokes ← lift (map_err from_input (ascii_strokes v caps_lock bytes))
      check b
      type_strokes b strokes
      done acked)

  -- The `match` of `execute_command_once`.
  unfoldable pub respond : Command → ℕ → Bool → Exec S DeviceResponse
  unfolding commit_keyboard_state commit_mouse_state execute_keyboard_pulse execute_mouse_pulse
      type_text move_steps reset_inputs
  respond ping version caps_lock = done acked
  respond heartbeat version caps_lock = done acked
  respond get_info version caps_lock = done (info info_payload)
  respond get_caps version caps_lock = done (caps (capability_payload version))
  respond (key_down stroke) version caps_lock = do
    state ← get_input
    next ← lift (map_err from_input (Input.key_down state.keyboard stroke))
    commit_keyboard_state b next
    done acked
  respond (key_up stroke) version caps_lock = do
    state ← get_input
    commit_keyboard_state b (Input.key_up state.keyboard stroke)
    done acked
  respond (key_tap stroke) version caps_lock = do
    state ← get_input
    pulse ← lift (map_err from_input (Input.tap_plan state.keyboard stroke))
    execute_keyboard_pulse b pulse
    done acked
  respond (type_ascii bytes) version caps_lock = type_text bytes caps_lock
  respond (mouse_move_rel dx dy) version caps_lock = do
    move_steps b move_fuel (record { remaining_x = dx; remaining_y = dy })
    done acked
  respond (mouse_button_down button) version caps_lock = do
    state ← get_input
    commit_mouse_state b (Mouse.button_down state.mouse button)
    done acked
  respond (mouse_button_up button) version caps_lock = do
    state ← get_input
    commit_mouse_state b (Mouse.button_up state.mouse button)
    done acked
  respond (mouse_click button) version caps_lock = do
    state ← get_input
    execute_mouse_pulse b (Mouse.click_plan state.mouse button)
    done acked
  respond (mouse_wheel wheel) version caps_lock = do
    state ← get_input
    on_backend (b.send_mouse state.mouse (pos 0) (pos 0) wheel)
    done acked
  respond (wait_ms milliseconds) version caps_lock = do
    on_backend (b.delay milliseconds)
    done acked
  respond batch_begin version caps_lock = fail bad_command
  respond batch_end version caps_lock = fail bad_command
  respond stop_all version caps_lock = do reset_inputs b; done acked

  unfoldable pub execute_command_once : Command → ℕ → Bool → Exec S DeviceResponse
  unfolding respond
  execute_command_once command version caps_lock = do
    check b
    response ← respond command version caps_lock
    check b
    done response

  -- The recovery of `execute_command`, once the command has ended.
  unfoldable pub recover :
      World S × Result ErrorCode DeviceResponse → World S × Result ErrorCode DeviceResponse
  unfolding reset_inputs
  recover (w, ok response) = (w, ok response)
  recover (w, err e) =
      if requires_best_effort_release e then ((reset_inputs b w).0, err e) else (w, err e)

  unfoldable pub execute_command : Command → ℕ → Bool → Exec S DeviceResponse
  unfolding recover execute_command_once
  execute_command command version caps_lock w =
      recover (execute_command_once command version caps_lock w)
