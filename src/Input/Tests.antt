-- ===== src/Input/Tests.antt =====
-- src/input_state.rs: examples.
use rp2350_keymouse_bridge_f.Common.{
  ℕ, ◌≡◌, refl, arith, List, [], ◌∷◌, ◌==◌, ◌&&◌, if◌then◌else◌, ok, err, length, bit_or,
}
use rp2350_keymouse_bridge_f.Common.Int.{pos, negsuc}
use rp2350_keymouse_bridge_f.Commands.{KeyStroke}
use rp2350_keymouse_bridge_f.Input.{
  max_held_keys, too_many_keys, tap_plan, press_restore, release_press_restore, key_up,
}
use rp2350_keymouse_bridge_f.Input.Held.{holds, remove, press, IsHeld, keyboard}
use rp2350_keymouse_bridge_f.Input.Keyboard.{fresh}
use rp2350_keymouse_bridge_f.Input.Tap.{
  part_is_held, released_modifiers, tap_plan_lem, KeyEvent, down, up, perform_all, hold_all,
  perform_all-keyboard,
}
use rp2350_keymouse_bridge_f.Input.Movement.{RelativeMovementSteps}

abbrev stroke : ℕ → ℕ → KeyStroke
stroke modifier keycode = record { modifier = modifier; keycode = keycode }

abbrev held : List ℕ
held = 0x1a ∷ 0x07 ∷ []

held-IsHeld : IsHeld held
unfolding holds
held-IsHeld = ((refl, (refl, tt)), refl, omega arith)

tap_plan_lem_example : tap_plan (keyboard 2 held) (stroke 1 0x1a) ≡ (
    if part_is_held 2 held (stroke 1 0x1a)
    then ok (
        release_press_restore
          (keyboard (released_modifiers 2 (stroke 1 0x1a)) (remove 0x1a held))
          (keyboard
            (bit_or (released_modifiers 2 (stroke 1 0x1a)) 1)
            (press 0x1a (remove 0x1a held)))
          (keyboard 2 held))
    else if fresh 0x1a held && (length held == max_held_keys)
    then err too_many_keys
    else ok (press_restore (keyboard (bit_or 2 1) (press 0x1a held)) (keyboard 2 held)))
tap_plan_lem_example = tap_plan_lem 2 held (stroke 1 0x1a) held-IsHeld

abbrev events : List KeyEvent
events = down (stroke 2 0x04) ∷ up (stroke 0 0x1a) ∷ []

perform_all-keyboard_example :
    (perform_all events (keyboard 0 held)
      ≡ keyboard (hold_all events 0 held).0 (hold_all events 0 held).1)
    × IsHeld (hold_all events 0 held).1
perform_all-keyboard_example = perform_all-keyboard events 0 held held-IsHeld

abbrev long_move : RelativeMovementSteps
long_move = record { remaining_x = pos 300; remaining_y = negsuc 129 }

abbrev greeting : List ℕ
greeting = b'H' ∷ b'i' ∷ 13 ∷ 10 ∷ []

-- A new keyboard that presses W and D, and then releases W.
release_one :
    key_up (keyboard 0 held) (stroke 0 0x1a)
    ≡ record { modifiers = 0; keycodes = 0x07 ∷ 0 ∷ 0 ∷ 0 ∷ 0 ∷ 0 ∷ []; len = 1 }
unfolding key_up keyboard
release_one = refl
