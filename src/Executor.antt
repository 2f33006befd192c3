-- ===== src/Executor.antt =====
-- src/command_executor.rs and src/hid_report.rs: cancellation points, HID reports and frames.
pub mod Cancel
pub mod Release
mod Tests
use rp2350_keymouse_bridge_f.Common.{
  ℕ, zero, suc, ◌==◌, Option, none, some, List, [], ◌∷◌, ◌++◌, ◌≡◌, ◌<◌, ◌+◌, Bool, true, false,
  if◌then◌else◌, Result, ok, err, map_err, replicate, copy_at,
}
use rp2350_keymouse_bridge_f.Common.Int.{ℤ, pos}
use rp2350_keymouse_bridge_f.Common.Heapless.{Heapless}
use rp2350_keymouse_bridge_f.Protocol.{Frame}
use rp2350_keymouse_bridge_f.Commands.{decode_command}
use rp2350_keymouse_bridge_f.Input.{KeyboardState, held_keys}
use rp2350_keymouse_bridge_f.Input.Mouse.{MouseState, InputState, clear_input}
use rp2350_keymouse_bridge_f.Safety.Observation
use rp2350_keymouse_bridge_f.Safety.Observation.{CancellationObservation, observe}
use rp2350_keymouse_bridge_f.Errors.{ErrorCode, from_command, cancelled, hid_write}
use rp2350_keymouse_bridge_f.Execution.{DeviceResponse, execute_command, execute_command_once}
use rp2350_keymouse_bridge_f.Execution.Monad.{Backend, World, Exec, fail}

pub record KeyboardReport : Type 0 where
  pub modifier : ℕ
  pub reserved : ℕ
  pub leds : ℕ
  pub keycodes : List ℕ

pub record MouseReport : Type 0 where
  pub buttons : ℕ
  pub x : ℤ
  pub y : ℤ
  pub wheel : ℤ
  pub pan : ℤ

-- The signal, the timer and the HID writers, which are not code of the repository.
pub record Device (D : Type 0) : Type 0 where
  -- `Signal::try_take`
  pub try_take : D → D × Option ℕ
  -- `Timer::after_millis`, started
  pub start_timer : ℕ → D → D
  -- the next value of `Signal::wait` before the timer ends, `none` once it has ended
  pub next_publication : D → D × Option ℕ
  -- `Timer::after_millis`, awaited alone
  pub sleep : ℕ → D → D
  -- `write_serialize`, and whether it succeeded
  pub write_keyboard : KeyboardReport → D → D × Bool
  pub write_mouse : MouseReport → D → D × Bool
  pub caps_lock_enabled : D → Bool

pub record CancelWait : Type 0 where
  pub has_signal : Bool
  pub observation : CancellationObservation

unfoldable pub new_wait : ℕ → CancelWait
unfolding Observation.new
new_wait baseline_generation = record {
  has_signal = true;
  observation = Observation.new baseline_generation;
}

unfoldable pub disabled_wait : CancelWait
unfolding Observation.new
disabled_wait = record { has_signal = false; observation = Observation.new 0 }

-- The state of `HidExecutionBackend`.
pub record HidBackend (D : Type 0) : Type 0 where
  pub device : D
  pub cancel : CancelWait

abbrev pub Polled : Type 0 → Type 0
Polled D = HidBackend D × Result ErrorCode (Unit {0})

-- `CancelWait::observe`
unfoldable pub observe_wait : {D : Type 0} → HidBackend D → ℕ → Polled D
observe_wait s generation =
    let seen = observe s.cancel.observation generation in
    (
      record s { cancel = record s.cancel { observation = seen } },
      if seen.cancelled then err cancelled else ok tt,
    )

abbrev pub observe_taken : {D : Type 0} → CancelWait → D × Option ℕ → Polled D
observe_taken cancel (device, none) = (record { device = device; cancel = cancel }, ok tt)
observe_taken cancel (device, some generation) =
    observe_wait (record { device = device; cancel = cancel }) generation

abbrev pub on_write : {D : Type 0} → CancelWait → D × Bool → Polled D
on_write cancel (device, written) =
    (record { device = device; cancel = cancel }, if written then ok tt else err hid_write)

module _ {D : Type 0} (h : Device D) where
  unfoldable pub check_wait : HidBackend D → Polled D
  unfolding observe_wait
  check_wait s =
      if s.cancel.observation.cancelled
      then (s, err cancelled)
      else if s.cancel.has_signal
      then observe_taken s.cancel (h.try_take s.device)
      else (s, ok tt)

  -- The loop of the name, raced with the timer; the fuel bounds the values it takes.
  unfoldable pub wait_for_generation_change : ℕ → ℕ → D → D × Option ℕ
  wait_for_generation_change zero baseline device = (device, none)
  wait_for_generation_change (suc fuel) baseline device = elim ((h.next_publication device).1) [
    | none ↦ ((h.next_publication device).0, none)
    | some generation ↦ elim (generation == baseline) [
      | true ↦ wait_for_generation_change fuel baseline (h.next_publication device).0
      | false ↦ ((h.next_publication device).0, some generation)
    ]
  ]

  -- What follows the `select`.
  abbrev pub after_select : CancelWait → D × Option ℕ → Polled D
  after_select cancel (device, none) = check_wait (record { device = device; cancel = cancel })
  after_select cancel (device, some generation) =
      observe_wait (record { device = device; cancel = cancel }) generation

  abbrev pub after_check : Polled D → (HidBackend D → Polled D) → Polled D
  after_check (s, ok u) f = f s
  after_check (s, err e) f = (s, err e)

  unfoldable pub wait_or_sleep : ℕ → ℕ → HidBackend D → Polled D
  unfolding check_wait observe_wait wait_for_generation_change
  wait_or_sleep fuel milliseconds s =
      if s.cancel.has_signal
      then after_select s.cancel (
          wait_for_generation_change fuel s.cancel.observation.baseline
            (h.start_timer milliseconds s.device))
      else (record s { device = h.sleep milliseconds s.device }, ok tt)

  unfoldable pub delay_wait : ℕ → ℕ → HidBackend D → Polled D
  unfolding check_wait wait_or_sleep
  delay_wait fuel milliseconds s = after_check (check_wait s) (wait_or_sleep fuel milliseconds)

  unfoldable pub send_keyboard_state : KeyboardState → HidBackend D → Polled D
  send_keyboard_state state s = on_write s.cancel (
      h.write_keyboard
        (record {
          modifier = state.modifiers;
          reserved = 0;
          leds = 0;
          keycodes = copy_at (replicate 6 0) 0 (held_keys state);
        })
        s.device)

  unfoldable pub send_mouse_state : MouseState → ℤ → ℤ → ℤ → HidBackend D → Polled D
  send_mouse_state state x y wheel s = on_write s.cancel (
      h.write_mouse (record { buttons = state.buttons; x = x; y = y; wheel = wheel; pan = pos 0 })
        s.device)

  -- `HidExecutionBackend`; the fuel is the one of the delays.
  unfoldable pub hid_backend : ℕ → Backend (HidBackend D)
  unfolding check_wait delay_wait send_keyboard_state send_mouse_state
  hid_backend fuel = record {
    check_cancelled = check_wait;
    delay = delay_wait fuel;
    send_keyboard = send_keyboard_state;
    send_mouse = send_mouse_state;
  }

  -- Both zero reports are attempted; of two errors the first is returned.
  unfoldable pub reset_hid_inputs : Exec (HidBackend D) (Unit {0})
  unfolding send_keyboard_state send_mouse_state
  reset_hid_inputs w =
      let cleared = clear_input w.input in
      let (s, keyboard_result) = send_keyboard_state cleared.keyboard w.backend in
      let (s', mouse_result) = send_mouse_state cleared.mouse (pos 0) (pos 0) (pos 0) s in
      (
        record { backend = s'; input = cleared },
        elim keyboard_result [ err e ↦ err e | ok u ↦ mouse_result ],
      )

module _ {D : Type 0} (v : Heapless) (h : Device D) (fuel : ℕ) where
  unfoldable pub execute_frame_with_cancel : Frame → Exec (HidBackend D) DeviceResponse
  unfolding hid_backend
  execute_frame_with_cancel frame w = elim (decode_command frame) [
    | err e ↦ (w, err (from_command e))
    | ok command ↦
        execute_command v (hid_backend h fuel) command frame.version
          (h.caps_lock_enabled w.backend.device) w
  ]

  unfoldable pub execute_frame_in_batch : Frame → Exec (HidBackend D) DeviceResponse
  unfolding hid_backend
  execute_frame_in_batch frame w = elim (decode_command frame) [
    | err e ↦ (w, err (from_command e))
    | ok command ↦
        execute_command_once v (hid_backend h fuel) command frame.version
          (h.caps_lock_enabled w.backend.device) w
  ]

  -- With a wait of its own, which has no signal.
  unfoldable pub execute_frame : Frame → Exec (HidBackend D) DeviceResponse
  unfolding execute_frame_with_cancel disabled_wait
  execute_frame frame w =
      execute_frame_with_cancel frame
        (record w { backend = record w.backend { cancel = disabled_wait } })
