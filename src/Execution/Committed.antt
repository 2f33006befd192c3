-- ===== src/Execution/Committed.antt =====
-- src/execution_core.rs: every command's effect on the input state.
use rp2350_keymouse_bridge_f.Common.{
  ℕ, ◌≡◌, refl, ap, sym, ◌∙◌, subst, inl, inr, Bool, not, List, Bool-cases, Result, ok, map_err,
}
use rp2350_keymouse_bridge_f.Common.Int.{pos}
use rp2350_keymouse_bridge_f.Common.Heapless.{Heapless}
use rp2350_keymouse_bridge_f.Commands.{
  Command, KeyStroke, ping, get_info, get_caps, heartbeat, key_down, key_up, key_tap, type_ascii,
  mouse_move_rel, mouse_button_down, mouse_button_up, mouse_click, mouse_wheel, wait_ms,
  batch_begin, batch_end, stop_all,
}
use rp2350_keymouse_bridge_f.Input
use rp2350_keymouse_bridge_f.Input.{KeyboardState, KeyboardPulse, tap_plan}
use rp2350_keymouse_bridge_f.Input.Mouse
use rp2350_keymouse_bridge_f.Input.Mouse.{
  MouseState, MousePulse, InputState, clear_input, click_plan, from_buttons,
}
use rp2350_keymouse_bridge_f.Input.Movement.{next}
use rp2350_keymouse_bridge_f.Input.Strokes.{ascii_strokes}
use rp2350_keymouse_bridge_f.Errors.{ErrorCode, from_input}
use rp2350_keymouse_bridge_f.Execution.Monad.{Backend, World, done, after, on_backend}
use rp2350_keymouse_bridge_f.Execution.{
  commit_keyboard_state, commit_mouse_state, execute_keyboard_pulse, execute_mouse_pulse,
  reset_inputs, type_strokes, move_steps, type_text, respond, execute_command_once, check, acked,
  move_fuel,
}
use rp2350_keymouse_bridge_f.Execution.Effects.{
  effect, Leaves, after-Leaves, backend-Leaves, lifted, with_keyboard, with_mouse, keyboard-Leaves,
  mouse-Leaves,
}
use rp2350_keymouse_bridge_f.Execution.Once.{
  map_err-ok, reset-Leaves, tap-Leaves, click-Leaves, strokes-Leaves, move-Leaves,
}

module _ {S : Type 0} (v : Heapless) (b : Backend S) where
  -- A last `done` changes nothing.
  then_done :
      {A B : Type 0} (i : InputState) (m : World S × Result ErrorCode A) (x : B)
      → Leaves i m
      → Leaves i (after m (λ u. done x))
  then_done i m x h = after-Leaves i i m (λ u. done x) h (λ u w e. e)

  text-Leaves :
      (bytes : List ℕ) (caps_lock : Bool) (w : World S) (i : InputState)
      → w.input ≡ i
      → Leaves i (type_text v b bytes caps_lock w)
  unfolding type_text
  text-Leaves bytes caps_lock w i e = elim (Bool-cases (not (Input.is_idle w.input.keyboard))) [
    | inl busy ↦ rw busy tt
    | inr idle ↦ rw idle (
        lifted w (map_err from_input (ascii_strokes v caps_lock bytes)) _ i i e (λ strokes planned.
          after-Leaves i i (check b w) _ (backend-Leaves b.check_cancelled w i e) (λ u w1 e1.
            then_done i (type_strokes b strokes w1) acked (strokes-Leaves b strokes w1 i e1))))
  ]

  down-Leaves :
      (stroke : KeyStroke) (w : World S) (i : InputState)
      → w.input ≡ i
      → (next : KeyboardState)
      → map_err from_input (Input.key_down w.input.keyboard stroke) ≡ ok next
      → Leaves (effect (key_down stroke) i) (commit_keyboard_state b next w)
  down-Leaves stroke w i e next h =
      let taken : Input.key_down i.keyboard stroke ≡ ok next =
        ap (λ (x : InputState). Input.key_down x.keyboard stroke) (sym e)
        ∙ map_err-ok (Input.key_down w.input.keyboard stroke) next h in
      rw taken (keyboard-Leaves b next w i e)

  respond-Leaves :
      (c : Command) (version : ℕ) (caps_lock : Bool) (w : World S) (i : InputState)
      → w.input ≡ i
      → Leaves (effect c i) (respond v b c version caps_lock w)
  unfolding respond
  respond-Leaves ping version caps_lock w i e = e
  respond-Leaves get_info version caps_lock w i e = e
  respond-Leaves get_caps version caps_lock w i e = e
  respond-Leaves heartbeat version caps_lock w i e = e
  respond-Leaves batch_begin version caps_lock w i e = tt
  respond-Leaves batch_end version caps_lock w i e = tt
  respond-Leaves (type_ascii bytes) version caps_lock w i e = text-Leaves bytes caps_lock w i e
  respond-Leaves (key_down stroke) version caps_lock w i e =
      lifted w (map_err from_input (Input.key_down w.input.keyboard stroke)) _ i
        (effect (key_down stroke) i) e
        (λ next h.
          then_done (effect (key_down stroke) i) (commit_keyboard_state b next w) acked
            (down-Leaves stroke w i e next h))
  respond-Leaves (key_up stroke) version caps_lock w i e =
      then_done (effect (key_up stroke) i)
        (commit_keyboard_state b (Input.key_up w.input.keyboard stroke) w) acked
        (subst
          (λ x.
            Leaves (with_keyboard i (Input.key_up x.keyboard stroke))
              (commit_keyboard_state b (Input.key_up w.input.keyboard stroke) w))
          e (keyboard-Leaves b (Input.key_up w.input.keyboard stroke) w i e))
  respond-Leaves (key_tap stroke) version caps_lock w i e =
      lifted w (map_err from_input (tap_plan w.input.keyboard stroke)) _ i i e (λ pulse planned.
        then_done i (execute_keyboard_pulse b pulse w) acked
          (tap-Leaves b stroke pulse w i e planned))
  respond-Leaves (mouse_move_rel dx dy) version caps_lock w i e =
      then_done i (move_steps b move_fuel (record { remaining_x = dx; remaining_y = dy }) w) acked
        (move-Leaves b move_fuel (record { remaining_x = dx; remaining_y = dy }) w i e)
  respond-Leaves (mouse_button_down button) version caps_lock w i e =
      then_done (effect (mouse_button_down button) i)
        (commit_mouse_state b (Mouse.button_down w.input.mouse button) w) acked
        (subst
          (λ x.
            Leaves (with_mouse i (Mouse.button_down x.mouse button))
              (commit_mouse_state b (Mouse.button_down w.input.mouse button) w))
          e (mouse-Leaves b (Mouse.button_down w.input.mouse button) w i e))
  respond-Leaves (mouse_button_up button) version caps_lock w i e =
      then_done (effect (mouse_button_up button) i)
        (commit_mouse_state b (Mouse.button_up w.input.mouse button) w) acked
        (subst
          (λ x.
            Leaves (with_mouse i (Mouse.button_up x.mouse button))
              (commit_mouse_state b (Mouse.button_up w.input.mouse button) w))
          e (mouse-Leaves b (Mouse.button_up w.input.mouse button) w i e))
  respond-Leaves (mouse_click button) version caps_lock w i e =
      then_done i (execute_mouse_pulse b (click_plan w.input.mouse button) w) acked
        (click-Leaves b button w i e)
  respond-Leaves (mouse_wheel wheel) version caps_lock w i e =
      then_done i (on_backend (b.send_mouse w.input.mouse (pos 0) (pos 0) wheel) w) acked
        (backend-Leaves (b.send_mouse w.input.mouse (pos 0) (pos 0) wheel) w i e)
  respond-Leaves (wait_ms n) version caps_lock w i e =
      then_done i (on_backend (b.delay n) w) acked (backend-Leaves (b.delay n) w i e)
  respond-Leaves stop_all version caps_lock w i e =
      then_done (clear_input i) (reset_inputs b w) acked (reset-Leaves b w i e)

  -- Whatever the backend does and however it changes: a command that succeeds leaves the input state
  -- that it is for. A key down or up and a button down or up change that key or button as the
  -- keyboard and the mouse do, a stop clears all, and every other command (taps, clicks, texts,
  -- movements, the wheel, waits and queries) leaves the state exactly as it was.
  pub execute_command_once-effect :
      (c : Command) (version : ℕ) (caps_lock : Bool) (w : World S)
      → Leaves (effect c w.input) (execute_command_once v b c version caps_lock w)
  unfolding execute_command_once
  execute_command_once-effect c version caps_lock w =
      after-Leaves w.input (effect c w.input) (check b w) _
        (backend-Leaves b.check_cancelled w w.input refl)
        (λ u w1 e1.
          after-Leaves (effect c w.input) (effect c w.input) (respond v b c version caps_lock w1) _
            (respond-Leaves c version caps_lock w1 w.input e1)
            (λ response w2 e2.
              after-Leaves (effect c w.input) (effect c w.input) (check b w2) (λ u2. done response)
                (backend-Leaves b.check_cancelled w2 (effect c w.input) e2) (λ u2 w3 e3. e3)))
