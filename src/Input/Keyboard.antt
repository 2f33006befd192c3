-- ===== src/Input/Keyboard.antt =====
-- src/input_state.rs: what the operations of the keyboard do to the keys that it holds.
use rp2350_keymouse_bridge_f.Common.{
  ℕ, suc, ◌+◌, ◌-◌, ◌<◌, ◌≡◌, refl, ap, ◌∙◌, arith, inl, inr, none, some, List, [], ◌∷◌, ◌++◌,
  append_assoc, Bool, not, ◌&&◌, ◌==◌, if◌then◌else◌, Bool-cases, ==_iff, Option-cases, length,
  length-append, take, drop, set, replicate, copy_at, take-append_self, set-append_right, bit_and,
  bit_or, is_none, is_some, ok, err,
}
use rp2350_keymouse_bridge_f.Commands.{KeyStroke}
use rp2350_keymouse_bridge_f.Input.{
  max_held_keys, position, key_position, held_keys, complement, too_many_keys, key_down, key_up,
}
use rp2350_keymouse_bridge_f.Input.Held.{
  holds, remove, press, IsHeld, keyboard, is_some-position, position-none, position_split,
  shift_down, length-remove, remove_missing,
}

held_keys-keyboard : (m : ℕ) (keys : List ℕ) → held_keys (keyboard m keys) ≡ keys
unfolding keyboard
held_keys-keyboard m keys = take-append_self keys _ (length keys) refl

key_position-keyboard :
    (m k : ℕ) (keys : List ℕ)
    → key_position (keyboard m keys) k ≡ (if k == 0 then none else position k keys)
unfolding key_position
key_position-keyboard m k keys = rw (held_keys-keyboard m keys)

-- `key_position` finds the key exactly when it is held.
pub is_some-key_position :
    (m k : ℕ) (keys : List ℕ)
    → is_some (key_position (keyboard m keys) k) ≡ (not (k == 0) && holds k keys)
is_some-key_position m k keys =
    rw (key_position-keyboard m k keys) (ground (arith, is_some-position k keys))

abbrev pub fresh : ℕ → List ℕ → Bool
fresh k keys = not (k == 0) && not (holds k keys)

is_none-key_position :
    (m k : ℕ) (keys : List ℕ)
    → (not (k == 0) && is_none (key_position (keyboard m keys) k)) ≡ fresh k keys
is_none-key_position m k keys =
    rw (key_position-keyboard m k keys) (ground (arith, is_some-position k keys))

set_zeros :
    (k : ℕ) (keys : List ℕ)
    → length keys < max_held_keys
    → set (keys ++ replicate (max_held_keys - length keys) 0) (length keys) k
      ≡ (keys ++ k ∷ []) ++ replicate (max_held_keys - length (keys ++ k ∷ [])) 0
set_zeros k keys h =
    let e : max_held_keys - length keys ≡ suc (max_held_keys - length (keys ++ k ∷ [])) =
      omega (arith, length-append keys (k ∷ [])) in
    rw (
      e,
      append_assoc keys (k ∷ []) (replicate (max_held_keys - length (keys ++ k ∷ [])) 0),
      set-append_right keys (0 ∷ replicate (max_held_keys - length (keys ++ k ∷ [])) 0)
          (length keys) 0 k (omega arith),
    )

-- `key_down` on a keyboard in a given state.
pub key_down_lem :
    (m : ℕ) (keys : List ℕ) (s : KeyStroke)
    → IsHeld keys
    → key_down (keyboard m keys) s ≡ (
        if fresh s.keycode keys && (length keys == max_held_keys)
        then err too_many_keys
        else ok (keyboard (bit_or m s.modifier) (press s.keycode keys)))
unfolding key_down keyboard press
key_down_lem m keys s h =
    rw (is_none-key_position m s.keycode keys) (elim (Bool-cases (fresh s.keycode keys)) [
      | inr e ↦ rw e
      | inl e ↦ elim (Bool-cases (length keys == max_held_keys)) [
        | inl f ↦ rw (e, f)
        | inr f ↦
            rw (e, f, set_zeros s.keycode keys (ground arith), length-append keys (s.keycode ∷ []))
      ]
    ])

removed_array :
    (keys xs ys zs : List ℕ) (k p n : ℕ)
    → keys ≡ xs ++ k ∷ ys
    → length xs ≡ p
    → n ≡ suc (length xs + length ys)
    → set (copy_at (keys ++ zs) p (take (n - (p + 1)) (drop (p + 1) (keys ++ zs)))) (n - 1) 0
      ≡ (xs ++ ys) ++ 0 ∷ zs
removed_array keys xs ys zs k p n split at size =
    let array : keys ++ zs ≡ xs ++ (k ∷ (ys ++ zs)) =
      ap (λ l. l ++ zs) split ∙ append_assoc xs (k ∷ ys) zs in
    let last : n - 1 ≡ length xs + length ys = omega arith in
    rw (
      array,
      last,
      size,
      ← at,
      shift_down xs ys zs k (length xs + length ys) refl,
      append_assoc xs ys (0 ∷ zs),
    )

pub key_up_lem :
    (m : ℕ) (keys : List ℕ) (s : KeyStroke)
    → IsHeld keys
    → key_up (keyboard m keys) s
      ≡ keyboard (bit_and m (complement s.modifier)) (remove s.keycode keys)
unfolding key_up keyboard
key_up_lem m keys s h = elim (Bool-cases (s.keycode == 0)) [
  | inl zero_key ↦
      let position : key_position (keyboard m keys) s.keycode ≡ none =
        key_position-keyboard m s.keycode keys ∙ rw zero_key in
      let nothing : remove s.keycode keys ≡ keys =
        remove_missing s.keycode keys (rw ((==_iff s.keycode 0).0 zero_key) h.1) in
      rw (position, key_up, nothing)
  | inr a_key ↦ elim (Option-cases (position s.keycode keys)) [
    | inl missing ↦
        let position : key_position (keyboard m keys) s.keycode ≡ none =
          key_position-keyboard m s.keycode keys ∙ rw (a_key, missing) in
        let nothing = remove_missing s.keycode keys (position-none s.keycode keys missing) in
        rw (position, key_up, nothing)
    | inr (p, found) ↦
        let position : key_position (keyboard m keys) s.keycode ≡ some p =
          key_position-keyboard m s.keycode keys ∙ rw (a_key, found) in
        let (xs, ys, split, at, removed, held) = position_split s.keycode p keys found in
        let size = length-remove s.keycode keys held in
        let count : length keys ≡ suc (length xs + length ys) =
          omega (arith, ap length removed, length-append xs ys) in
        let more : max_held_keys - length (remove s.keycode keys)
            ≡ suc (max_held_keys - length keys) =
          omega arith in
        let zeros : replicate {A = ℕ} (max_held_keys - length (remove s.keycode keys)) 0
            ≡ 0 ∷ replicate (max_held_keys - length keys) 0 =
          ap (λ n. replicate {A = ℕ} n 0) more in
        let less : length keys - 1 ≡ length (remove s.keycode keys) = omega arith in
        rw (position, key_up, zeros, ← less, removed)
          (ap
            (λ l. record {
              modifiers = bit_and m (complement s.modifier);
              keycodes = l;
              len = length keys - 1;
            })
            (removed_array keys xs ys (replicate (max_held_keys - length keys) 0) s.keycode p
              (length keys) split at count))
  ]
]
