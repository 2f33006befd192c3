-- ===== src/Commands/Length.antt =====
-- src/owned_command.rs and `encode_owned_command` of src/runtime.rs: the lengths of the payloads.
use rp2350_keymouse_bridge_f.Common.{
  ℕ, ◌+◌, ◌≤◌, ◌≡◌, refl, ap, arith, List, [], ◌∷◌, length, length-append, length-drop,
  to_be_bytes32, take, drop, copy_at, take-append_self, i8_as_u8, to_be_bytes32,
}
use rp2350_keymouse_bridge_f.Protocol.{max_payload_size}
use rp2350_keymouse_bridge_f.Commands.{mask}
use rp2350_keymouse_bridge_f.Commands.Owned.{
  OwnedCommand, ping, get_info, get_caps, heartbeat, stop_all, key_down, key_up, key_tap,
  type_ascii, mouse_move_rel, mouse_button_down, mouse_button_up, mouse_click, mouse_wheel, wait_ms,
  payload_len, encode_owned_command,
}
use rp2350_keymouse_bridge_f.Commands.Values.{IsOwned}
use rp2350_keymouse_bridge_f.Commands.Wire.{wire}

copied :
    (buffer bytes : List ℕ)
    → length buffer ≡ max_payload_size
    → length bytes ≤ max_payload_size
    → (length (take (length bytes) (copy_at buffer 0 bytes)) ≡ length bytes)
      × (length (copy_at buffer 0 bytes) ≡ max_payload_size)
copied buffer bytes e h = (
  omega (
    arith,
    ap length (take-append_self bytes (drop (0 + length bytes) buffer) (length bytes) refl),
  ),
  omega (
    arith,
    length-append bytes (drop (0 + length bytes) buffer),
    length-drop (0 + length bytes) buffer,
  ),
)

-- The length that the batch counts for a command is the length that the encoder reports and the
-- number of payload bytes that it writes, given a buffer of 240 bytes and a command that fits it.
pub payload_len_lem :
    (c : OwnedCommand) (buffer : List ℕ)
    → IsOwned c
    → length buffer ≡ max_payload_size
    → (payload_len c ≡ (encode_owned_command c buffer).2)
      × (length (wire c buffer).1 ≡ payload_len c)
      × (length (encode_owned_command c buffer).0 ≡ max_payload_size)
unfolding payload_len encode_owned_command
payload_len_lem ping buffer h l = (refl, refl, l)
payload_len_lem get_info buffer h l = (refl, refl, l)
payload_len_lem get_caps buffer h l = (refl, refl, l)
payload_len_lem heartbeat buffer h l = (refl, refl, l)
payload_len_lem stop_all buffer h l = (refl, refl, l)
payload_len_lem (key_down s) buffer h l =
    let (x, y) = copied buffer (s.modifier ∷ s.keycode ∷ []) l (omega arith) in (refl, x, y)
payload_len_lem (key_up s) buffer h l =
    let (x, y) = copied buffer (s.modifier ∷ s.keycode ∷ []) l (omega arith) in (refl, x, y)
payload_len_lem (key_tap s) buffer h l =
    let (x, y) = copied buffer (s.modifier ∷ s.keycode ∷ []) l (omega arith) in (refl, x, y)
payload_len_lem (mouse_button_down m) buffer h l =
    let (x, y) = copied buffer (mask m ∷ []) l (omega arith) in (refl, x, y)
payload_len_lem (mouse_button_up m) buffer h l =
    let (x, y) = copied buffer (mask m ∷ []) l (omega arith) in (refl, x, y)
payload_len_lem (mouse_click m) buffer h l =
    let (x, y) = copied buffer (mask m ∷ []) l (omega arith) in (refl, x, y)
payload_len_lem (mouse_wheel w) buffer h l =
    let (x, y) = copied buffer (i8_as_u8 w ∷ []) l (omega arith) in (refl, x, y)
payload_len_lem (wait_ms n) buffer h l =
    let (x, y) = copied buffer (to_be_bytes32 n) l (omega arith) in (refl, x, y)
payload_len_lem (type_ascii bytes) buffer h l =
    let (x, y) = copied buffer bytes l h.1 in (refl, x, y)
payload_len_lem (mouse_move_rel dx dy) buffer h l =
    (refl, refl, omega (arith, length-drop 2 buffer, length-drop 2 (drop 2 buffer)))
