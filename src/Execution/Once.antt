-- ===== src/Execution/Once.antt =====
-- src/execution_core.rs: what `execute_command_once` does to the input state.
use rp2350_keymouse_bridge_f.Common.{
  ℕ, zero, suc, ◌≡◌, refl, ap, ◌∙◌, subst, arith, inl, inr, none, some, Bool, true, false, List, [],
  ◌∷◌, if◌then◌else◌, Bool-cases, Option-cases, Result, ok, err, map_err, map_ok, ◌&&◌, ltb,
}
use rp2350_keymouse_bridge_f.Common.Int.{ℤ, pos, negsuc, pos_part}
use rp2350_keymouse_bridge_f.Commands.{KeyStroke, MouseButton}
use rp2350_keymouse_bridge_f.Input
use rp2350_keymouse_bridge_f.Input.{KeyboardState, KeyboardPulse, tap_plan}
use rp2350_keymouse_bridge_f.Input.Mouse
use rp2350_keymouse_bridge_f.Input.Mouse.{
  MouseState, MousePulse, InputState, clear_input, click_plan, from_buttons,
}
use rp2350_keymouse_bridge_f.Input.Movement.{RelativeMovementSteps, is_zero, next}
use rp2350_keymouse_bridge_f.Errors.{from_input}
use rp2350_keymouse_bridge_f.Execution.Monad.{
  Backend, World, Exec, done, ◌>>=◌, ◌>>◌, on_backend, get_input,
}
use rp2350_keymouse_bridge_f.Execution.{
  send_relative_mouse_step, execute_keyboard_pulse, execute_mouse_pulse, reset_inputs, type_strokes,
  move_steps, check,
}
use rp2350_keymouse_bridge_f.Execution.Effects.{
  Leaves, after-Leaves, backend-Leaves, lifted, with_keyboard, with_mouse, same_result,
  keyboard_pulse-Leaves, mouse_pulse-Leaves,
}

map_ok-restore :
    (s : KeyboardState) (make : KeyboardState → KeyboardPulse)
    → ((k : KeyboardState) → Input.restore (make k) ≡ s)
    → (r : Result Input.InputError KeyboardState) (p : KeyboardPulse) → map_ok make r ≡ ok p
    → Input.restore p ≡ s
map_ok-restore s make h (ok k) p e =
    let same : make k ≡ p = cc in subst (λ q. Input.restore q ≡ s) same (h k)
map_ok-restore s make h (err x) p e = absurd (cc)

if_restore :
    (s l : KeyboardState) (held : Bool) (x y : Result Input.InputError KeyboardState)
    (p : KeyboardPulse)
    → (if held
        then map_ok (λ k. KeyboardPulse.release_press_restore l k s) x
        else map_ok (λ k. KeyboardPulse.press_restore k s) y)
      ≡ ok p
    → Input.restore p ≡ s
unfolding Input.restore
if_restore s l true x y p e =
    map_ok-restore s (λ k. KeyboardPulse.release_press_restore l k s) (λ k. refl) x p e
if_restore s l false x y p e =
    map_ok-restore s (λ k. KeyboardPulse.press_restore k s) (λ k. refl) y p e

pub map_err-ok :
    {A : Type 0} (r : Result Input.InputError A) (p : A) → map_err from_input r ≡ ok p → r ≡ ok p
map_err-ok (ok q) p e = cc
map_err-ok (err x) p e = absurd (cc)

-- A plan ends with the state that it began with.
tap_plan-restore :
    (s : KeyboardState) (stroke : KeyStroke) (p : KeyboardPulse)
    → tap_plan s stroke ≡ ok p
    → Input.restore p ≡ s
unfolding tap_plan
tap_plan-restore s stroke p e = if_restore s _ _ _ _ p e

click_plan-restore : (s : MouseState) (m : MouseButton) → Mouse.restore (click_plan s m) ≡ s
unfolding click_plan Mouse.restore
click_plan-restore s m = ground arith

module _ {S : Type 0} (b : Backend S) where
  pub reset-Leaves :
      (w : World S) (i : InputState) → w.input ≡ i → Leaves (clear_input i) (reset_inputs b w)
  unfolding reset_inputs
  reset-Leaves w i e =
      subst (λ x. Leaves (clear_input x) (reset_inputs b w)) e
        (same_result (reset_inputs b w).0 (reset_inputs b w).1)

  -- A tap that is planned on the state restores it.
  pub tap-Leaves :
      (stroke : KeyStroke) (pulse : KeyboardPulse) (w : World S) (i : InputState)
      → w.input ≡ i
      → map_err from_input (tap_plan w.input.keyboard stroke) ≡ ok pulse
      → Leaves i (execute_keyboard_pulse b pulse w)
  tap-Leaves stroke pulse w i e planned =
      let restored = tap_plan-restore w.input.keyboard stroke pulse (map_err-ok _ pulse planned) in
      subst (λ k. Leaves (with_keyboard i k) (execute_keyboard_pulse b pulse w))
        (restored ∙ ap (λ (x : InputState). x.keyboard) e) (keyboard_pulse-Leaves b pulse i w e)

  pub click-Leaves :
      (m : MouseButton) (w : World S) (i : InputState)
      → w.input ≡ i
      → Leaves i (execute_mouse_pulse b (click_plan w.input.mouse m) w)
  click-Leaves m w i e =
      subst (λ k. Leaves (with_mouse i k) (execute_mouse_pulse b (click_plan w.input.mouse m) w))
        (click_plan-restore w.input.mouse m ∙ ap (λ (x : InputState). x.mouse) e)
        (mouse_pulse-Leaves b (click_plan w.input.mouse m) i w e)

  pub strokes-Leaves :
      (strokes : List KeyStroke) (w : World S) (i : InputState)
      → w.input ≡ i
      → Leaves i (type_strokes b strokes w)
  unfolding type_strokes
  strokes-Leaves [] w i e = e
  strokes-Leaves (stroke ∷ strokes) w i e =
      after-Leaves i i (check b w) _ (backend-Leaves b.check_cancelled w i e) (λ u w1 e1.
        lifted w1 (map_err from_input (tap_plan w1.input.keyboard stroke)) _ i i e1
          (λ pulse planned.
            after-Leaves i i (execute_keyboard_pulse b pulse w1) _
              (tap-Leaves stroke pulse w1 i e1 planned)
              (λ u2 w2 e2. strokes-Leaves strokes w2 i e2)))

  step-Leaves :
      (m : MouseState) (x y : ℤ) (w : World S) (i : InputState)
      → w.input ≡ i
      → Leaves i (send_relative_mouse_step b m x y w)
  unfolding send_relative_mouse_step
  step-Leaves m x y w i e = elim (Bool-cases (is_zero x && ltb 0 (pos_part y))) [
    | inl up ↦ rw up (
        after-Leaves i i (on_backend (b.send_mouse m (pos 1) y (pos 0)) w) _
          (backend-Leaves (b.send_mouse m (pos 1) y (pos 0)) w i e)
          (λ u w1 e1. backend-Leaves (b.send_mouse m (negsuc 0) (pos 0) (pos 0)) w1 i e1))
    | inr other ↦ rw other (backend-Leaves (b.send_mouse m x y (pos 0)) w i e)
  ]

  move_none : (m : RelativeMovementSteps) → move_steps b zero m ≡ done tt
  unfolding move_steps
  move_none m = refl

  pub move_end :
      (fuel : ℕ) (m : RelativeMovementSteps) → next m ≡ none → move_steps b (suc fuel) m ≡ done tt
  unfolding move_steps
  move_end fuel m e = ground (arith, e)

  -- One round of the loop.
  abbrev pub round : ℕ → ℤ × ℤ → RelativeMovementSteps → Exec S (Unit {0})
  round fuel step rest = do
    check b
    state ← get_input
    send_relative_mouse_step b state.mouse step.0 step.1
    check b
    move_steps b fuel rest

  pub move_more :
      (fuel : ℕ) (m : RelativeMovementSteps) (step : ℤ × ℤ) (rest : RelativeMovementSteps)
      → next m ≡ some (step, rest)
      → move_steps b (suc fuel) m ≡ round fuel step rest
  unfolding move_steps
  move_more fuel m step rest e = rw (e, move_steps)

  pub move-Leaves :
      (fuel : ℕ) (movement : RelativeMovementSteps) (w : World S) (i : InputState)
      → w.input ≡ i
      → Leaves i (move_steps b fuel movement w)
  move-Leaves zero movement w i e = rw (move_none movement) e
  move-Leaves (suc fuel) movement w i e = elim (Option-cases (next movement)) [
    | inl ended ↦ rw (move_end fuel movement ended) e
    | inr ((step, rest), more) ↦ rw (move_more fuel movement step rest more) (
        after-Leaves i i (check b w) _ (backend-Leaves b.check_cancelled w i e) (λ u w1 e1.
          after-Leaves i i (send_relative_mouse_step b w1.input.mouse step.0 step.1 w1) _
            (step-Leaves w1.input.mouse step.0 step.1 w1 i e1)
            (λ u2 w2 e2.
              after-Leaves i i (check b w2) _ (backend-Leaves b.check_cancelled w2 i e2)
                (λ u3 w3 e3. move-Leaves fuel rest w3 i e3))))
  ]
