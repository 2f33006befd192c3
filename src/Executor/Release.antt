-- ===== src/Executor/Release.antt =====
-- src/command_executor.rs: a cancelled frame.
use rp2350_keymouse_bridge_f.Common.{
  ℕ, ◌≡◌, refl, ◌∙◌, ap, arith, [], ◌∷◌, true, Bool, Result, ok, err,
}
use rp2350_keymouse_bridge_f.Common.Int.{pos}
use rp2350_keymouse_bridge_f.Input
use rp2350_keymouse_bridge_f.Input.Mouse.{clear_input, clear_mouse}
use rp2350_keymouse_bridge_f.Common.Heapless.{Heapless}
use rp2350_keymouse_bridge_f.Protocol.{Frame}
use rp2350_keymouse_bridge_f.Commands.{Command, decode_command}
use rp2350_keymouse_bridge_f.Errors.{ErrorCode, cancelled, requires_best_effort_release}
use rp2350_keymouse_bridge_f.Execution.Recovery.{nothing_held}
use rp2350_keymouse_bridge_f.Execution.{
  reset_inputs, execute_command, execute_command_once, recover,
}
use rp2350_keymouse_bridge_f.Execution.Monad.{World}
use rp2350_keymouse_bridge_f.Executor.{
  KeyboardReport, MouseReport, Device, HidBackend, check_wait, send_keyboard_state,
  send_mouse_state, hid_backend, reset_hid_inputs, execute_frame_with_cancel,
  execute_frame_in_batch,
}

-- The reports of no key, no modifier and no button, written out.
abbrev pub keyboard_zeros : KeyboardReport
keyboard_zeros = record {
  modifier = 0;
  reserved = 0;
  leds = 0;
  keycodes = 0 ∷ 0 ∷ 0 ∷ 0 ∷ 0 ∷ 0 ∷ [];
}

abbrev pub mouse_zeros : MouseReport
mouse_zeros = record { buttons = 0; x = pos 0; y = pos 0; wheel = pos 0; pan = pos 0 }

-- Both reports are written, whether or not the first write succeeds.
abbrev pub zeros_written : {D : Type 0} → Device D → World (HidBackend D) → World (HidBackend D)
zeros_written h w = record {
  backend = record w.backend {
    device = (h.write_mouse mouse_zeros (h.write_keyboard keyboard_zeros w.backend.device).0).0;
  };
  input = nothing_held;
}

module _ {D : Type 0} (v : Heapless) (h : Device D) (fuel : ℕ) where
  pub reset_inputs-hid :
      (w : World (HidBackend D)) → reset_inputs (hid_backend h fuel) w ≡ reset_hid_inputs h w
  unfolding reset_inputs reset_hid_inputs hid_backend
  reset_inputs-hid w = refl

  reset-zeros_written : (w : World (HidBackend D)) → (reset_hid_inputs h w).0 ≡ zeros_written h w
  unfolding reset_hid_inputs send_keyboard_state send_mouse_state clear_input clear_mouse
      Input.clear Input.new
  reset-zeros_written w = refl

  check_cancelled :
      (s : HidBackend D)
      → s.cancel.observation.cancelled ≡ true
      → check_wait h s ≡ (s, err cancelled)
  unfolding check_wait
  check_cancelled s e = ground (arith, e)

  once_cancelled :
      (c : Command) (version : ℕ) (caps : Bool) (w : World (HidBackend D))
      → w.backend.cancel.observation.cancelled ≡ true
      → execute_command_once v (hid_backend h fuel) c version caps w ≡ (w, err cancelled)
  unfolding execute_command_once hid_backend
  once_cancelled c version caps w e = simp (check_cancelled w.backend e) refl

  recover_cancelled :
      (w : World (HidBackend D))
      → recover v (hid_backend h fuel) (w, err cancelled)
        ≡ ((reset_hid_inputs h w).0, err cancelled)
  unfolding recover requires_best_effort_release
  recover_cancelled w =
      ap (λ (r : World (HidBackend D) × Result ErrorCode (Unit {0})). (r.0, err cancelled))
        (reset_inputs-hid w)

  command_cancelled :
      (c : Command) (version : ℕ) (caps : Bool) (w : World (HidBackend D))
      → w.backend.cancel.observation.cancelled ≡ true
      → execute_command v (hid_backend h fuel) c version caps w
        ≡ ((reset_hid_inputs h w).0, err cancelled)
  unfolding execute_command
  command_cancelled c version caps w e =
      simp (once_cancelled c version caps w e) (recover_cancelled w)

  -- A frame whose payload decodes, of a command that is cancelled already, answers CANCELLED. On its
  -- own it writes one keyboard report without modifiers and key codes and then one mouse report
  -- without buttons and movement, the second also where the first fails, touches the device in no
  -- other way, and leaves no input held. In a batch it does nothing at all.
  pub execute_frame_cancelled :
      (frame : Frame) (command : Command) (w : World (HidBackend D))
      → decode_command frame ≡ ok command
      → w.backend.cancel.observation.cancelled ≡ true
      → (execute_frame_with_cancel v h fuel frame w ≡ (zeros_written h w, err cancelled))
        × (execute_frame_in_batch v h fuel frame w ≡ (w, err cancelled))
  unfolding execute_frame_with_cancel execute_frame_in_batch
  execute_frame_cancelled frame command w e flag = (
    rw (e, execute_frame_with_cancel) (command_cancelled command frame.version _ w flag)
        ∙ ap (λ (x : World (HidBackend D)). (x, err cancelled)) (reset-zeros_written w),
    rw (e, execute_frame_in_batch) (once_cancelled command frame.version _ w flag),
  )
