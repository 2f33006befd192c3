-- ===== src/Input.antt =====
-- src/input_state.rs: the keyboard state that the firmware reports.
pub mod Held
pub mod Keyboard
pub mod Tap
pub mod Movement
pub mod Strokes
pub mod Mouse
mod Tests
use rp2350_keymouse_bridge_f.Common.{
  ℕ, zero, suc, ◌+◌, ◌-◌, bit_and, bit_or, Option, none, some, List, [], ◌∷◌, Bool, true, false,
  not, ◌&&◌, ◌==◌, if◌then◌else◌, is_none, is_some, take, drop, set, replicate, copy_at, Result, ok,
  err, map_ok,
}
use rp2350_keymouse_bridge_f.Commands.{KeyStroke}

abbrev pub max_held_keys : ℕ
max_held_keys = 6

pub data InputError : Type 0 where
  too_many_keys too_many_strokes : InputError
  unsupported_ascii : ℕ → InputError

pub record KeyboardState : Type 0 where
  pub modifiers : ℕ
  pub keycodes : List ℕ
  pub len : ℕ

-- `KeyboardState::new`
unfoldable pub new : KeyboardState
new = record { modifiers = 0; keycodes = replicate max_held_keys 0; len = 0 }

-- The accessor `keycodes()`.
abbrev pub held_keys : KeyboardState → List ℕ
held_keys s = take s.len s.keycodes

unfoldable pub is_idle : KeyboardState → Bool
is_idle s = (s.modifiers == 0) && (s.len == 0)

-- `iter().position`
abbrev pub position : ℕ → List ℕ → Option ℕ
position keycode [] = none
position keycode (held ∷ rest) = elim (held == keycode) [
  | Bool.true ↦ some 0
  | Bool.false ↦ elim (position keycode rest) [ none ↦ none | some p ↦ some (suc p) ]
]

unfoldable pub key_position : KeyboardState → ℕ → Option ℕ
key_position s keycode = if keycode == 0 then none else position keycode (held_keys s)

-- `!` of a `u8`
abbrev pub complement : ℕ → ℕ
complement byte = 255 - byte

unfoldable pub key_down : KeyboardState → KeyStroke → Result InputError KeyboardState
unfolding key_position
key_down s stroke =
    let unheld = not (stroke.keycode == 0) && is_none (key_position s stroke.keycode) in
    if unheld && (s.len == max_held_keys)
    then err too_many_keys
    else ok (record {
      modifiers = bit_or s.modifiers stroke.modifier;
      keycodes = if unheld then set s.keycodes s.len stroke.keycode else s.keycodes;
      len = if unheld then s.len + 1 else s.len;
    })

unfoldable pub key_up : KeyboardState → KeyStroke → KeyboardState
unfolding key_position
key_up s stroke =
    let modifiers = bit_and s.modifiers (complement stroke.modifier) in
    elim (key_position s stroke.keycode) [
      | none ↦ record s { modifiers = modifiers }
      | some p ↦
          let moved = copy_at s.keycodes p (take (s.len - (p + 1)) (drop (p + 1) s.keycodes)) in
          record { modifiers = modifiers; keycodes = set moved (s.len - 1) 0; len = s.len - 1 }
    ]

-- `KeyboardState::clear`
unfoldable pub clear : KeyboardState → KeyboardState
unfolding new
clear s = new

pub data KeyboardPulse : Type 0 where
  press_restore : (pressed restore : KeyboardState) → KeyboardPulse
  release_press_restore : (released pressed restore : KeyboardState) → KeyboardPulse

unfoldable pub tap_plan : KeyboardState → KeyStroke → Result InputError KeyboardPulse
unfolding key_position key_up key_down
tap_plan s stroke =
    let requested_part_is_held =
      if stroke.keycode == 0
      then not (bit_and s.modifiers stroke.modifier == 0)
      else is_some (key_position s stroke.keycode) in
    let released =
      key_up s (record stroke { modifier = if stroke.keycode == 0 then stroke.modifier else 0 }) in
    if requested_part_is_held
    then map_ok (λ pressed. release_press_restore released pressed s) (key_down released stroke)
    else map_ok (λ pressed. press_restore pressed s) (key_down s stroke)

-- The accessors of `KeyboardPulse`.
unfoldable pub released : KeyboardPulse → Option KeyboardState
released (press_restore p r) = none
released (release_press_restore l p r) = some l

unfoldable pub pressed : KeyboardPulse → KeyboardState
pressed (press_restore p r) = p
pressed (release_press_restore l p r) = p

unfoldable pub restore : KeyboardPulse → KeyboardState
restore (press_restore p r) = r
restore (release_press_restore l p r) = r
