-- ===== src/Execution/Reports.antt =====
-- src/execution_core.rs: the loop over a movement, and its fuel.
use rp2350_keymouse_bridge_f.Common.{
  ℕ, zero, suc, ◌≤◌, ◌≡◌, ap, sym, ◌∙◌, ◌≢◌, arith, inl, inr, none, some, List, [], ◌∷◌,
  Option-cases, length,
}
use rp2350_keymouse_bridge_f.Common.Int.{ℤ}
use rp2350_keymouse_bridge_f.Input.Movement.{
  RelativeMovementSteps, next, steps, magnitude, total_x, total_y, steps_lem,
}
use rp2350_keymouse_bridge_f.Execution.Monad.{Backend, Exec, done, ◌>>=◌, ◌>>◌, get_input}
use rp2350_keymouse_bridge_f.Execution.{check, send_relative_mouse_step, move_steps, move_fuel}
use rp2350_keymouse_bridge_f.Execution.Once.{round, move_end, move_more}

module _ {S : Type 0} (b : Backend S) where
  -- One round of the loop, and what comes after it.
  abbrev turn : ℤ × ℤ → Exec S (Unit {0}) → Exec S (Unit {0})
  turn step go_on = do
    check b
    state ← get_input
    send_relative_mouse_step b state.mouse step.0 step.1
    check b
    go_on

  -- The body of the loop, once for each step of a list.
  unfoldable pub each : List (ℤ × ℤ) → Exec S (Unit {0})
  each [] = done tt
  each (step ∷ later) = do
    check b
    state ← get_input
    send_relative_mouse_step b state.mouse step.0 step.1
    check b
    each later

  steps_end : (fuel : ℕ) (m : RelativeMovementSteps) → next m ≡ none → steps (suc fuel) m ≡ some []
  unfolding steps
  steps_end fuel m e = ground (arith, e)

  steps-next :
      (fuel : ℕ) (m rest : RelativeMovementSteps) (step : ℤ × ℤ) (l : List (ℤ × ℤ))
      → next m ≡ some (step, rest)
      → steps (suc fuel) m ≡ some l
      → (later : List (ℤ × ℤ)) × (steps fuel rest ≡ some later) × (l ≡ step ∷ later)
  unfolding steps
  steps-next fuel m rest step l e h = elim (Option-cases (steps fuel rest)) [
    | inl out ↦ absurd (ground (arith, e, out))
    | inr (later, found) ↦ (later, found, ground (arith, e, found))
  ]

  steps_out : (m : RelativeMovementSteps) (l : List (ℤ × ℤ)) → steps zero m ≢ some l
  unfolding steps
  steps_out m l e = cc

  one_round :
      (step : ℤ × ℤ) (later : List (ℤ × ℤ)) (go_on : Exec S (Unit {0}))
      → go_on ≡ each later
      → turn step go_on ≡ each (step ∷ later)
  unfolding each
  one_round step later go_on e = ap (turn step) e

  move_steps-each :
      (fuel : ℕ) (m : RelativeMovementSteps) (l : List (ℤ × ℤ))
      → steps fuel m ≡ some l
      → move_steps b fuel m ≡ each l
  unfolding each
  move_steps-each zero m l e = absurd (steps_out m l e)
  move_steps-each (suc fuel) m l e = elim (Option-cases (next m)) [
    | inl ended ↦
        let nothing : l ≡ [] = cc (steps_end fuel m ended) in
        move_end b fuel m ended ∙ rw (nothing, each)
    | inr ((step, rest), more) ↦
        let (later, found, whole) = steps-next fuel m rest step l more e in
        let same : round b fuel step rest ≡ each (step ∷ later) =
          one_round step later (move_steps b fuel rest) (move_steps-each fuel rest later found) in
        move_more b fuel m step rest more ∙ (same ∙ ap each (sym whole))
  ]

  -- The movement of a command: with the fuel that the loop has, which is enough for every distance
  -- that two `i16` hold, the loop does its body once for each of the steps, of which there are at
  -- most 259 and which add up to the whole movement.
  pub move_steps_lem :
      (m : RelativeMovementSteps)
      → magnitude m.remaining_x ≤ 32768
      → magnitude m.remaining_y ≤ 32768
      → (l : List (ℤ × ℤ)) × (move_steps b move_fuel m ≡ each l)
        × (length l ≤ 259)
        × (total_x l ≡ m.remaining_x)
        × (total_y l ≡ m.remaining_y)
  move_steps_lem m hx hy =
      let (l, e, short, fits, x, y) = steps_lem 259 m (omega arith) (omega arith) in
      (l, move_steps-each move_fuel m l e, short, x, y)
