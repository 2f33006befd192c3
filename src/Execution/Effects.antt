-- ===== src/Execution/Effects.antt =====
-- src/execution_core.rs: the input state that a command leaves when it succeeds.
use rp2350_keymouse_bridge_f.Common.{◌≡◌, refl, ap, subst, some, Result, ok, err}
use rp2350_keymouse_bridge_f.Common.Int.{pos}
use rp2350_keymouse_bridge_f.Commands.{
  Command, key_down, key_up, mouse_button_down, mouse_button_up, stop_all,
}
use rp2350_keymouse_bridge_f.Input
use rp2350_keymouse_bridge_f.Input.{KeyboardState, KeyboardPulse, tap_plan}
use rp2350_keymouse_bridge_f.Input.Mouse
use rp2350_keymouse_bridge_f.Input.Mouse.{
  MouseState, MousePulse, InputState, clear_input, click_plan, from_buttons,
}
use rp2350_keymouse_bridge_f.Errors.{ErrorCode}
use rp2350_keymouse_bridge_f.Execution.Monad.{Backend, World, Exec, lift, after, ◌>>◌, on_backend}
use rp2350_keymouse_bridge_f.Execution.{
  commit_keyboard_state, commit_mouse_state, release_keyboard, execute_keyboard_pulse,
  release_mouse, execute_mouse_pulse, key_tap_delay_ms, mouse_click_delay_ms,
}

-- The state after a key down that the keyboard takes.
abbrev pub down_effect : InputState → Result Input.InputError KeyboardState → InputState
down_effect i (ok k) = record i { keyboard = k }
down_effect i (err e) = i

-- What a command is for: only key and button commands and the stop change what is held.
abbrev pub effect : Command → InputState → InputState
effect (key_down stroke) i = down_effect i (Input.key_down i.keyboard stroke)
effect (key_up stroke) i = record i { keyboard = Input.key_up i.keyboard stroke }
effect (mouse_button_down button) i = record i { mouse = Mouse.button_down i.mouse button }
effect (mouse_button_up button) i = record i { mouse = Mouse.button_up i.mouse button }
effect stop_all i = clear_input i
effect other i = i

-- Where the computation succeeds, it leaves this input state.
abbrev pub Leaves : {S A : Type 0} → InputState → World S × Result ErrorCode A → Type 0
Leaves i (w, ok a) = w.input ≡ i
Leaves i (w, err e) = Unit {0}

module _ {S : Type 0} where
  pub after-Leaves :
      {A B : Type 0} (i j : InputState) (m : World S × Result ErrorCode A) (f : A → Exec S B)
      → Leaves i m
      → ((a : A) (w : World S) → w.input ≡ i → Leaves j (f a w))
      → Leaves j (after m f)
  after-Leaves i j (w, ok a) f h k = k a w h
  after-Leaves i j (w, err e) f h k = tt

  pub same_result : (w : World S) (r : Result ErrorCode (Unit {0})) → Leaves w.input (w, r)
  same_result w (ok u) = refl
  same_result w (err e) = tt

  pub backend-Leaves :
      (call : S → S × Result ErrorCode (Unit {0})) (w : World S) (i : InputState)
      → w.input ≡ i
      → Leaves i (on_backend call w)
  backend-Leaves call w i e =
      subst (λ x. Leaves x (on_backend call w)) e
        (same_result (record w { backend = (call w.backend).0 }) (call w.backend).1)

  pub lifted :
      {A B : Type 0} (w : World S) (r : Result ErrorCode A) (f : A → Exec S B) (i j : InputState)
      → w.input ≡ i
      → ((a : A) → r ≡ ok a → Leaves j (f a w))
      → Leaves j (after (lift r w) f)
  lifted w (ok a) f i j e h = h a refl
  lifted w (err x) f i j e h = tt

abbrev pub with_keyboard : InputState → KeyboardState → InputState
with_keyboard i k = record i { keyboard = k }

abbrev pub with_mouse : InputState → MouseState → InputState
with_mouse i m = record i { mouse = m }

module _ {S : Type 0} (b : Backend S) where
  pub keyboard-Leaves :
      (k : KeyboardState) (w : World S) (i : InputState)
      → w.input ≡ i
      → Leaves (record i { keyboard = k }) (commit_keyboard_state b k w)
  unfolding commit_keyboard_state
  keyboard-Leaves k w i e =
      after-Leaves i (record i { keyboard = k }) (on_backend (b.send_keyboard k) w) _
        (backend-Leaves (b.send_keyboard k) w i e)
        (λ u w' e'. ap (λ (x : InputState). record x { keyboard = k }) e')

  pub mouse-Leaves :
      (m : MouseState) (w : World S) (i : InputState)
      → w.input ≡ i
      → Leaves (record i { mouse = m }) (commit_mouse_state b m w)
  unfolding commit_mouse_state
  mouse-Leaves m w i e =
      after-Leaves i (record i { mouse = m })
        (on_backend (b.send_mouse m (pos 0) (pos 0) (pos 0)) w) _
        (backend-Leaves (b.send_mouse m (pos 0) (pos 0) (pos 0)) w i e)
        (λ u w' e'. ap (λ (x : InputState). record x { mouse = m }) e')

  keyboard-over :
      (k : KeyboardState) (i : InputState) (w : World S) (k' : KeyboardState)
      → w.input ≡ with_keyboard i k
      → Leaves (with_keyboard i k') (commit_keyboard_state b k' w)
  keyboard-over k i w k' e = keyboard-Leaves k' w (with_keyboard i k) e

  mouse-over :
      (m : MouseState) (i : InputState) (w : World S) (m' : MouseState)
      → w.input ≡ with_mouse i m
      → Leaves (with_mouse i m') (commit_mouse_state b m' w)
  mouse-over m i w m' e = mouse-Leaves m' w (with_mouse i m) e

  -- Press, wait, restore.
  press-Leaves :
      (pressed restore : KeyboardState) (i : InputState) (w : World S) (k : KeyboardState)
      → w.input ≡ with_keyboard i k
      → Leaves (with_keyboard i restore) (
          (do
            commit_keyboard_state b pressed
            on_backend (b.delay key_tap_delay_ms)
            commit_keyboard_state b restore)
            w)
  press-Leaves pressed restore i w k e =
      after-Leaves (with_keyboard i pressed) (with_keyboard i restore)
        (commit_keyboard_state b pressed w) _ (keyboard-over k i w pressed e)
        (λ u w1 e1.
          after-Leaves (with_keyboard i pressed) (with_keyboard i restore)
            (on_backend (b.delay key_tap_delay_ms) w1) _
            (backend-Leaves (b.delay key_tap_delay_ms) w1 (with_keyboard i pressed) e1)
            (λ u w2 e2. keyboard-over pressed i w2 restore e2))

  click-Leaves :
      (pressed restore : MouseState) (i : InputState) (w : World S) (m : MouseState)
      → w.input ≡ with_mouse i m
      → Leaves (with_mouse i restore) (
          (do
            commit_mouse_state b pressed
            on_backend (b.delay mouse_click_delay_ms)
            commit_mouse_state b restore)
            w)
  click-Leaves pressed restore i w m e =
      after-Leaves (with_mouse i pressed) (with_mouse i restore) (commit_mouse_state b pressed w) _
        (mouse-over m i w pressed e)
        (λ u w1 e1.
          after-Leaves (with_mouse i pressed) (with_mouse i restore)
            (on_backend (b.delay mouse_click_delay_ms) w1) _
            (backend-Leaves (b.delay mouse_click_delay_ms) w1 (with_mouse i pressed) e1)
            (λ u w2 e2. mouse-over pressed i w2 restore e2))

  pub keyboard_pulse-Leaves :
      (pulse : KeyboardPulse) (i : InputState) (w : World S)
      → w.input ≡ i
      → Leaves (with_keyboard i (Input.restore pulse)) (execute_keyboard_pulse b pulse w)
  unfolding execute_keyboard_pulse release_keyboard Input.released Input.pressed Input.restore
  keyboard_pulse-Leaves (KeyboardPulse.press_restore p r) i w e = press-Leaves p r i w i.keyboard e
  keyboard_pulse-Leaves (KeyboardPulse.release_press_restore l p r) i w e =
      after-Leaves (with_keyboard i l) (with_keyboard i r) (release_keyboard b (some l) w) _
        (after-Leaves (with_keyboard i l) (with_keyboard i l) (commit_keyboard_state b l w) _
          (keyboard-Leaves l w i e)
          (λ u w1 e1. backend-Leaves (b.delay key_tap_delay_ms) w1 (with_keyboard i l) e1))
        (λ u w1 e1. press-Leaves p r i w1 l e1)

  pub mouse_pulse-Leaves :
      (pulse : MousePulse) (i : InputState) (w : World S)
      → w.input ≡ i
      → Leaves (with_mouse i (Mouse.restore pulse)) (execute_mouse_pulse b pulse w)
  unfolding execute_mouse_pulse release_mouse Mouse.released Mouse.pressed Mouse.restore
  mouse_pulse-Leaves (MousePulse.press_restore p r) i w e =
      click-Leaves (from_buttons p) (from_buttons r) i w i.mouse e
  mouse_pulse-Leaves (MousePulse.release_press_restore l p r) i w e =
      after-Leaves (with_mouse i (from_buttons l)) (with_mouse i (from_buttons r))
        (release_mouse b (some (from_buttons l)) w) _
        (after-Leaves (with_mouse i (from_buttons l)) (with_mouse i (from_buttons l))
          (commit_mouse_state b (from_buttons l) w) _ (mouse-Leaves (from_buttons l) w i e)
          (λ u w1 e1.
            backend-Leaves (b.delay mouse_click_delay_ms) w1 (with_mouse i (from_buttons l)) e1))
        (λ u w1 e1. click-Leaves (from_buttons p) (from_buttons r) i w1 (from_buttons l) e1)
