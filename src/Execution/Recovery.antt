-- ===== src/Execution/Recovery.antt =====
-- src/execution_core.rs: `execute_command` and its recovery.
use rp2350_keymouse_bridge_f.Common.{ℕ, ◌≡◌, refl, [], ◌∷◌, Bool, Result, ok, err}
use rp2350_keymouse_bridge_f.Common.Int.{pos}
use rp2350_keymouse_bridge_f.Common.Heapless.{Heapless}
use rp2350_keymouse_bridge_f.Commands.{Command}
use rp2350_keymouse_bridge_f.Input
use rp2350_keymouse_bridge_f.Input.Mouse.{InputState, clear_input, clear_mouse}
use rp2350_keymouse_bridge_f.Errors.{ErrorCode, hid_write, cancelled, requires_best_effort_release}
use rp2350_keymouse_bridge_f.Execution.Monad.{Backend, World}
use rp2350_keymouse_bridge_f.Execution.{
  DeviceResponse, reset_inputs, execute_command_once, recover, execute_command,
}

-- No key, no modifier and no button, written out.
abbrev pub nothing_held : InputState
nothing_held = record {
  keyboard = record { modifiers = 0; keycodes = 0 ∷ 0 ∷ 0 ∷ 0 ∷ 0 ∷ 0 ∷ []; len = 0 };
  mouse = record { buttons = 0 };
}

-- The keyboard and then the mouse are sent the state in which nothing is held, whatever the backend
-- answers, and that is the input state afterwards.
abbrev pub both_released : {S : Type 0} → Backend S → World S → World S
both_released b w = record {
  backend =
      (b.send_mouse nothing_held.mouse (pos 0) (pos 0) (pos 0)
        (b.send_keyboard nothing_held.keyboard w.backend).0).0;
  input = nothing_held;
}

-- What becomes of the outcome of a command without recovery.
abbrev pub IsSafe :
    {S : Type 0}
    → Backend S
    → World S × Result ErrorCode DeviceResponse
    → World S × Result ErrorCode DeviceResponse
    → Type 0
IsSafe b (w, err hid_write) r = r ≡ (both_released b w, err hid_write)
IsSafe b (w, err cancelled) r = r ≡ (both_released b w, err cancelled)
IsSafe b (w, result) r = r ≡ (w, result)

module _ {S : Type 0} (v : Heapless) (b : Backend S) where
  recover-IsSafe : (r : World S × Result ErrorCode DeviceResponse) → IsSafe b r (recover v b r)
  unfolding recover reset_inputs requires_best_effort_release clear_input clear_mouse Input.clear
      Input.new
  recover-IsSafe (w, ok response) = refl
  recover-IsSafe (w, err hid_write) = refl
  recover-IsSafe (w, err cancelled) = refl
  recover-IsSafe (w, err _) = refl

  -- Whatever the backend does: where the steps of a command end with a failed HID write or a
  -- cancellation, the keyboard and then the mouse are sent the state without any key, modifier or
  -- button, even where the first of these writes fails; the input state is then that one too, and
  -- the command's error is kept. Every other outcome of the steps is kept as it is, with what it
  -- leaves.
  pub execute_command-IsSafe :
      (c : Command) (version : ℕ) (caps_lock : Bool) (w : World S)
      → IsSafe b
          (execute_command_once v b c version caps_lock w)
          (execute_command v b c version caps_lock w)
  unfolding execute_command
  execute_command-IsSafe c version caps_lock w =
      recover-IsSafe (execute_command_once v b c version caps_lock w)
