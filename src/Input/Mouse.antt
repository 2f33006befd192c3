-- ===== src/Input/Mouse.antt =====
-- src/input_state.rs: the mouse buttons, and the input state as a whole.
use rp2350_keymouse_bridge_f.Common.{
  ℕ, suc, ◌+◌, ◌*◌, ◌/◌, ◌%◌, ◌^◌, ◌<◌, ◌≡◌, refl, bit_and, bit_or, Option, none, some, Bool, ◌&&◌,
  ◌==◌, if◌then◌else◌, AgreeBelow, AgreeBelow-sound,
}
use rp2350_keymouse_bridge_f.Commands.{MouseButton, left, right, middle, mask}
use rp2350_keymouse_bridge_f.Input
use rp2350_keymouse_bridge_f.Input.{KeyboardState, complement}

pub record MouseState : Type 0 where
  pub buttons : ℕ

-- `MouseState::from_buttons`
abbrev pub from_buttons : ℕ → MouseState
from_buttons buttons = record { buttons = buttons }

unfoldable pub new_mouse : MouseState
new_mouse = from_buttons 0

unfoldable pub is_idle_mouse : MouseState → Bool
is_idle_mouse s = s.buttons == 0

unfoldable pub button_down : MouseState → MouseButton → MouseState
button_down s button = from_buttons (bit_or s.buttons (mask button))

unfoldable pub button_up : MouseState → MouseButton → MouseState
button_up s button = from_buttons (bit_and s.buttons (complement (mask button)))

unfoldable pub clear_mouse : MouseState → MouseState
clear_mouse s = from_buttons 0

pub data MousePulse : Type 0 where
  press_restore : (pressed restore : ℕ) → MousePulse
  release_press_restore : (released pressed restore : ℕ) → MousePulse

unfoldable pub click_plan : MouseState → MouseButton → MousePulse
click_plan s button =
    let m = mask button in
    if bit_and s.buttons m == 0
    then press_restore (bit_or s.buttons m) s.buttons
    else release_press_restore (bit_and s.buttons (complement m)) s.buttons s.buttons

-- The accessors of `MousePulse`.
unfoldable pub released : MousePulse → Option MouseState
released (press_restore p r) = none
released (release_press_restore l p r) = some (from_buttons l)

unfoldable pub pressed : MousePulse → MouseState
pressed (press_restore p r) = from_buttons p
pressed (release_press_restore l p r) = from_buttons p

unfoldable pub restore : MousePulse → MouseState
restore (press_restore p r) = from_buttons r
restore (release_press_restore l p r) = from_buttons r

pub record InputState : Type 0 where
  pub keyboard : KeyboardState
  pub mouse : MouseState

unfoldable pub new_input : InputState
unfolding new_mouse
new_input = record { keyboard = Input.new; mouse = new_mouse }

unfoldable pub is_idle_input : InputState → Bool
unfolding is_idle_mouse
is_idle_input s = Input.is_idle s.keyboard && is_idle_mouse s.mouse

unfoldable pub clear_input : InputState → InputState
unfolding clear_mouse
clear_input s = record { keyboard = Input.clear s.keyboard; mouse = clear_mouse s.mouse }

-- The bit of a report that stands for a button.
pub index : MouseButton → ℕ
index left = 0
index right = 1
index middle = 2

-- The buttons with one of them set, or not.
pub with_button : MouseButton → ℕ → ℕ → ℕ
unfolding index
with_button button value buttons =
    let k = index button in buttons / 2 ^ suc k * 2 ^ suc k + value * 2 ^ k + buttons % 2 ^ k

-- The plan's three reports, the first of them the state itself where the plan releases nothing.
abbrev pub plan_states : MousePulse → ℕ × ℕ × ℕ
plan_states (press_restore p r) = (r, p, r)
plan_states (release_press_restore l p r) = (l, p, r)

abbrev pub mouse_run : MouseButton → ℕ → ℕ × ℕ × ℕ × ℕ × ℕ
mouse_run button b =
    let s = from_buttons b in
    let (first, second, third) = plan_states (click_plan s button) in
    ((button_down s button).buttons, (button_up s button).buttons, first, second, third)

abbrev pub mouse_model : MouseButton → ℕ → ℕ × ℕ × ℕ × ℕ × ℕ
mouse_model button b = (
  with_button button 1 b,
  with_button button 0 b,
  with_button button 0 b,
  with_button button 1 b,
  b,
)

mouse_table_left : AgreeBelow 256 (mouse_run left) (mouse_model left)
unfolding button_down button_up click_plan mask with_button
mouse_table_left = refl

mouse_table_right : AgreeBelow 256 (mouse_run right) (mouse_model right)
unfolding button_down button_up click_plan mask with_button
mouse_table_right = refl

mouse_table_middle : AgreeBelow 256 (mouse_run middle) (mouse_model middle)
unfolding button_down button_up click_plan mask with_button
mouse_table_middle = refl

-- For every byte of buttons, a button down sets the bit of that button and a button up clears it,
-- and neither touches another; a click's plan reports the state with the button up, with the button
-- down, and as it was, whether or not the button was down before.
pub click_plan_lem :
    (button : MouseButton) (b : ℕ) → b < 256 → mouse_run button b ≡ mouse_model button b
click_plan_lem left b h =
    AgreeBelow-sound 256 b (mouse_run left) (mouse_model left) mouse_table_left h
click_plan_lem right b h =
    AgreeBelow-sound 256 b (mouse_run right) (mouse_model right) mouse_table_right h
click_plan_lem middle b h =
    AgreeBelow-sound 256 b (mouse_run middle) (mouse_model middle) mouse_table_middle h
