-- ===== src/Input/Tap.antt =====
-- src/input_state.rs: the plan of a tap, and runs of key events.
use rp2350_keymouse_bridge_f.Common.{
  ℕ, ◌≡◌, refl, arith, ◌⊎◌, inl, inr, is_some, List, [], ◌∷◌, Bool, true, false, not, ◌&&◌, ◌==◌,
  if◌then◌else◌, Bool-cases, length, bit_and, bit_or, ok, err,
}
use rp2350_keymouse_bridge_f.Commands.{KeyStroke}
use rp2350_keymouse_bridge_f.Input.{
  KeyboardState, max_held_keys, complement, too_many_keys, key_down, key_up, clear, new,
  key_position, tap_plan, press_restore, release_press_restore,
}
use rp2350_keymouse_bridge_f.Input.Held.{
  holds, remove, press, IsHeld, keyboard, length-remove, press-IsHeld, remove-IsHeld,
}
use rp2350_keymouse_bridge_f.Input.Keyboard.{fresh, is_some-key_position, key_down_lem, key_up_lem}

-- The part of a stroke that a tap is about is held already: its key, or for the key 0 one of its
-- modifiers.
abbrev pub part_is_held : ℕ → List ℕ → KeyStroke → Bool
part_is_held m keys s =
    if s.keycode == 0 then not (bit_and m s.modifier == 0) else holds s.keycode keys

-- The modifiers while the part is released.
abbrev pub released_modifiers : ℕ → KeyStroke → ℕ
released_modifiers m s = bit_and m (complement (if s.keycode == 0 then s.modifier else 0))

part_is_held-key_position :
    (m : ℕ) (keys : List ℕ) (s : KeyStroke)
    → (if s.keycode == 0
        then not (bit_and (keyboard m keys).modifiers s.modifier == 0)
        else is_some (key_position (keyboard m keys) s.keycode))
      ≡ part_is_held m keys s
unfolding keyboard
part_is_held-key_position m keys s = rw (is_some-key_position m s.keycode keys) (ground arith)

-- There is room for a key that was just released.
room_after_remove :
    (m k : ℕ) (keys : List ℕ)
    → IsHeld keys
    → (k == 0) ≡ true ⊎ holds k keys ≡ true
    → (fresh k (remove k keys) && (length (remove k keys) == max_held_keys)) ≡ false
room_after_remove m k keys h (inl e) = rw e
room_after_remove m k keys h (inr e) = ground (arith, length-remove k keys e)

zero_or_held :
    (m : ℕ) (keys : List ℕ) (s : KeyStroke)
    → part_is_held m keys s ≡ true
    → (s.keycode == 0) ≡ true ⊎ holds s.keycode keys ≡ true
zero_or_held m keys s e = elim (Bool-cases (s.keycode == 0)) [
  | inl z ↦ inl z
  | inr nz ↦ inr (ground arith)
]

-- A tap on a keyboard that holds at most six keys. If its part is held already, it is released and
-- pressed again, and that never fails; if not, it is pressed, and that fails exactly when the key is
-- new and six are held. Either way the plan ends with the state that it began with.
pub tap_plan_lem :
    (m : ℕ) (keys : List ℕ) (s : KeyStroke)
    → IsHeld keys
    → tap_plan (keyboard m keys) s ≡ (
        if part_is_held m keys s
        then ok (
            release_press_restore
              (keyboard (released_modifiers m s) (remove s.keycode keys))
              (keyboard
                (bit_or (released_modifiers m s) s.modifier)
                (press s.keycode (remove s.keycode keys)))
              (keyboard m keys))
        else if fresh s.keycode keys && (length keys == max_held_keys)
        then err too_many_keys
        else ok (
            press_restore
              (keyboard (bit_or m s.modifier) (press s.keycode keys))
              (keyboard m keys)))
unfolding tap_plan
tap_plan_lem m keys s h = elim (Bool-cases (part_is_held m keys s)) [
  | inl e ↦ rw (
    part_is_held-key_position m keys s,
    e,
    key_up_lem m keys (record s { modifier = if s.keycode == 0 then s.modifier else 0 }) h,
    key_down_lem (released_modifiers m s) (remove s.keycode keys) s
        (remove-IsHeld s.keycode keys h),
    room_after_remove m s.keycode keys h (zero_or_held m keys s e),
  )
  | inr e ↦
      rw (part_is_held-key_position m keys s, e, key_down_lem m keys s h)
        (elim (Bool-cases (fresh s.keycode keys && (length keys == max_held_keys))) [
          | inl f ↦ rw f
          | inr f ↦ rw f
        ])
]

-- What a user of the keyboard does: a key down that fails leaves it as it is.
pub data KeyEvent : Type 0 where
  down up : KeyStroke → KeyEvent
  reset : KeyEvent

pub perform : KeyEvent → KeyboardState → KeyboardState
perform (down s) k = elim (key_down k s) [ err e ↦ k | ok k' ↦ k' ]
perform (up s) k = key_up k s
perform reset k = clear k

pub perform_all : List KeyEvent → KeyboardState → KeyboardState
unfolding perform
perform_all [] k = k
perform_all (e ∷ es) k = perform_all es (perform e k)

-- The same on the modifiers and the list of keys.
pub hold : KeyEvent → ℕ → List ℕ → ℕ × List ℕ
hold (down s) m keys =
    if fresh s.keycode keys && (length keys == max_held_keys)
    then (m, keys)
    else (bit_or m s.modifier, press s.keycode keys)
hold (up s) m keys = (bit_and m (complement s.modifier), remove s.keycode keys)
hold reset m keys = (0, [])

pub hold_all : List KeyEvent → ℕ → List ℕ → ℕ × List ℕ
unfolding hold
hold_all [] m keys = (m, keys)
hold_all (e ∷ es) m keys = hold_all es (hold e m keys).0 (hold e m keys).1

hold-IsHeld : (e : KeyEvent) (m : ℕ) (keys : List ℕ) → IsHeld keys → IsHeld (hold e m keys).1
unfolding hold holds
hold-IsHeld (down s) m keys h =
    elim (Bool-cases (fresh s.keycode keys && (length keys == max_held_keys))) [
      | inl e ↦ rw e h
      | inr e ↦ rw e (press-IsHeld s.keycode keys h (ground arith))
    ]
hold-IsHeld (up s) m keys h = remove-IsHeld s.keycode keys h
hold-IsHeld reset m keys h = (tt, refl, omega arith)

clear-keyboard : (k : KeyboardState) → clear k ≡ keyboard 0 []
unfolding clear new keyboard
clear-keyboard k = refl

perform-keyboard :
    (e : KeyEvent) (m : ℕ) (keys : List ℕ)
    → IsHeld keys
    → perform e (keyboard m keys) ≡ keyboard (hold e m keys).0 (hold e m keys).1
unfolding perform hold
perform-keyboard (down s) m keys h =
    rw (key_down_lem m keys s h, perform)
      (elim (Bool-cases (fresh s.keycode keys && (length keys == max_held_keys))) [
        | inl e ↦ rw e
        | inr e ↦ rw e
      ])
perform-keyboard (up s) m keys h = key_up_lem m keys s h
perform-keyboard reset m keys h = clear-keyboard (keyboard m keys)

-- After any run of key downs, key ups and resets the array and its length hold exactly the keys that
-- the run leaves held: each once, none the key 0, at most six, in the order of their key downs, the
-- rest of the array zero; and the modifiers are those of the run.
pub perform_all-keyboard :
    (events : List KeyEvent) (m : ℕ) (keys : List ℕ)
    → IsHeld keys
    → (perform_all events (keyboard m keys)
        ≡ keyboard (hold_all events m keys).0 (hold_all events m keys).1)
      × IsHeld (hold_all events m keys).1
unfolding perform_all hold_all
perform_all-keyboard [] m keys h = (refl, h)
perform_all-keyboard (e ∷ es) m keys h =
    rw (perform-keyboard e m keys h)
      (perform_all-keyboard es (hold e m keys).0 (hold e m keys).1 (hold-IsHeld e m keys h))
