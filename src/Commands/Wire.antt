-- ===== src/Commands/Wire.antt =====
-- src/owned_command.rs and `encode_owned_command` of src/runtime.rs: the decoder of commands and the
-- encoder are inverse to one another.
use rp2350_keymouse_bridge_f.Common.{
  ℕ, ◌+◌, ◌≤◌, ◌≡◌, refl, ap, subst, ◌↔◌, inl, inr, arith, List, [], ◌∷◌, Bool-cases, ltb, Result,
  ok, err, map_ok, ◌>>=◌, length, take, drop, take-append_self, IsBytes, from_be_bytes,
  from_be_bytes32,
}
use rp2350_keymouse_bridge_f.Common.Heapless.{Heapless, IsHeapless}
use rp2350_keymouse_bridge_f.Protocol.{CommandType, Frame, max_payload_size, max_wait_ms}
use rp2350_keymouse_bridge_f.Commands.{
  KeyStroke, MouseButton, mask, Command, CommandError, decode_payload, decode_command,
  decode_mouse_button, decode_keystroke, decode_wait_ms, expect_empty, decode_mouse_move,
  decode_mouse_wheel,
}
use rp2350_keymouse_bridge_f.Commands.Owned.{
  OwnedCommand, ping, get_info, get_caps, heartbeat, stop_all, key_down, key_up, key_tap,
  type_ascii, mouse_move_rel, mouse_button_down, mouse_button_up, mouse_click, mouse_wheel, wait_ms,
  own_ascii, own_command, from_frame, encode_owned_command, max_ascii_strokes,
}
use rp2350_keymouse_bridge_f.Commands.Values.{
  IsKeyStroke, IsOwned, i16_bytes, i8_byte, i16_as_u16-as_i16, i8_as_u8-as_i8, bytes_be16,
  bytes_be32, from_mask-mask, from_mask_cases, wait_bytes,
}

-- The command type, and the bytes of the buffer that are its payload.
abbrev pub wire : OwnedCommand → List ℕ → CommandType × List ℕ
wire c buffer = (
  (encode_owned_command c buffer).1,
  take (encode_owned_command c buffer).2 (encode_owned_command c buffer).0,
)

module _ (v : Heapless) (laws : IsHeapless v) (buffer : List ℕ) where
  own_ascii_room :
      (bytes : List ℕ) → length bytes ≤ max_payload_size → own_ascii v bytes ≡ ok (type_ascii bytes)
  unfolding own_ascii
  own_ascii_room bytes h =
      rw (laws.extend_room ℕ max_ascii_strokes [] bytes (omega arith), own_ascii)

  -- What the encoder writes decodes to the command.
  own_wire :
      (c : OwnedCommand)
      → IsOwned c
      → (decode_payload (wire c buffer).0 (wire c buffer).1 >>= own_command v) ≡ ok c
  unfolding encode_owned_command decode_payload own_command
  own_wire ping h = refl
  own_wire get_info h = refl
  own_wire get_caps h = refl
  own_wire heartbeat h = refl
  own_wire stop_all h = refl
  own_wire (key_down s) h = refl
  own_wire (key_up s) h = refl
  own_wire (key_tap s) h = refl
  own_wire (type_ascii bytes) h =
      rw (take-append_self bytes (drop (0 + length bytes) buffer) (length bytes) refl)
        (own_ascii_room bytes h.1)
  own_wire (mouse_move_rel dx dy) h = cc (i16_bytes dx h.0, i16_bytes dy h.1)
  own_wire (mouse_button_down b) h = rw (from_mask-mask b)
  own_wire (mouse_button_up b) h = rw (from_mask-mask b)
  own_wire (mouse_click b) h = rw (from_mask-mask b)
  own_wire (mouse_wheel w) h = cc (i8_byte w h)
  own_wire (wait_ms n) h = rw (wait_bytes n h)

  -- A decoded command is what the encoder writes as these bytes.
  abbrev IsSound : CommandType → List ℕ → Result CommandError OwnedCommand → Type 0
  IsSound t payload (ok c) = IsOwned c × (wire c buffer ≡ (t, payload))
  IsSound t payload (err e) = Unit {0}

  module _ (t : CommandType) (f : MouseButton → Command) (g : MouseButton → OwnedCommand)
      (owned : (m : MouseButton) → own_command v (f m) ≡ ok (g m))
      (valid : (m : MouseButton) → IsOwned (g m))
      (bytes : (m : MouseButton) → wire (g m) buffer ≡ (t, mask m ∷ [])) where
    button-IsSound :
        (payload : List ℕ)
        → IsSound t payload (map_ok f (decode_mouse_button payload) >>= own_command v)
    unfolding decode_mouse_button
    button-IsSound [] = tt
    button-IsSound (b ∷ []) = elim (from_mask_cases b) [
      | inl e ↦ rw e tt
      | inr (m, e, k) ↦ rw (e, owned m) (valid m, rw (← k) (bytes m))
    ]
    button-IsSound (b ∷ c ∷ rest) = tt

  -- An empty payload is a command without one.
  module _ (t : CommandType) (f : Command) (g : OwnedCommand) (owned : own_command v f ≡ ok g)
      (valid : IsOwned g) (bytes : wire g buffer ≡ (t, [])) where
    empty-IsSound :
        (payload : List ℕ) → IsSound t payload (expect_empty payload f >>= own_command v)
    unfolding expect_empty
    empty-IsSound [] = rw owned (valid, bytes)
    empty-IsSound (b ∷ rest) = tt

  module _ (t : CommandType) (f : KeyStroke → Command) (g : KeyStroke → OwnedCommand)
      (owned : (s : KeyStroke) → own_command v (f s) ≡ ok (g s))
      (valid : (s : KeyStroke) → IsKeyStroke s → IsOwned (g s))
      (bytes : (s : KeyStroke) → wire (g s) buffer ≡ (t, s.modifier ∷ s.keycode ∷ [])) where
    stroke-IsSound :
        (payload : List ℕ)
        → IsBytes payload
        → IsSound t payload (map_ok f (decode_keystroke payload) >>= own_command v)
    unfolding decode_keystroke
    stroke-IsSound [] h = tt
    stroke-IsSound (a ∷ []) h = tt
    stroke-IsSound (a ∷ b ∷ []) h =
        let s : KeyStroke = record { modifier = a; keycode = b } in
        rw (owned s) (valid s (h.0, h.1.0), bytes s)
    stroke-IsSound (a ∷ b ∷ c ∷ rest) h = tt

  move-IsSound :
      (payload : List ℕ)
      → IsBytes payload
      → IsSound CommandType.mouse_move_rel payload (decode_mouse_move payload >>= own_command v)
  unfolding decode_mouse_move own_command encode_owned_command
  move-IsSound [] h = tt
  move-IsSound (a ∷ []) h = tt
  move-IsSound (a ∷ b ∷ []) h = tt
  move-IsSound (a ∷ b ∷ c ∷ []) h = tt
  move-IsSound (a ∷ b ∷ c ∷ d ∷ []) (ha, (hb, (hc, (hd, _)))) =
      let (vx, ex) = i16_as_u16-as_i16 (from_be_bytes a b) (omega arith) in
      let (vy, ey) = i16_as_u16-as_i16 (from_be_bytes c d) (omega arith) in
      let x = bytes_be16 a b _ ha hb ex in let y = bytes_be16 c d _ hc hd ey in ((vx, vy), cc)
  move-IsSound (a ∷ b ∷ c ∷ d ∷ e ∷ rest) h = tt

  wheel-IsSound :
      (payload : List ℕ)
      → IsBytes payload
      → IsSound CommandType.mouse_wheel payload (decode_mouse_wheel payload >>= own_command v)
  unfolding decode_mouse_wheel own_command encode_owned_command
  wheel-IsSound [] h = tt
  wheel-IsSound (a ∷ []) h = let (valid, e) = i8_as_u8-as_i8 a h.0 in (valid, cc)
  wheel-IsSound (a ∷ b ∷ rest) h = tt

  wait-IsSound :
      (payload : List ℕ)
      → IsBytes payload
      → IsSound CommandType.wait_ms payload (decode_wait_ms payload >>= own_command v)
  unfolding decode_wait_ms own_command encode_owned_command
  wait-IsSound [] h = tt
  wait-IsSound (a ∷ []) h = tt
  wait-IsSound (a ∷ b ∷ []) h = tt
  wait-IsSound (a ∷ b ∷ c ∷ []) h = tt
  wait-IsSound (a ∷ b ∷ c ∷ d ∷ []) (ha, (hb, (hc, (hd, _)))) =
      elim (Bool-cases (ltb max_wait_ms (from_be_bytes32 a b c d))) [
        | inl e ↦ rw e tt
        | inr e ↦ rw e (ground arith, cc (bytes_be32 a b c d ha hb hc hd))
      ]
  wait-IsSound (a ∷ b ∷ c ∷ d ∷ e ∷ rest) h = tt

  payload-IsSound :
      (t : CommandType) (payload : List ℕ)
      → IsBytes payload
      → length payload ≤ max_payload_size
      → IsSound t payload (decode_payload t payload >>= own_command v)
  unfolding decode_payload own_command encode_owned_command
  payload-IsSound CommandType.ping p h l =
      empty-IsSound CommandType.ping Command.ping ping refl tt refl p
  payload-IsSound CommandType.get_info p h l =
      empty-IsSound CommandType.get_info Command.get_info get_info refl tt refl p
  payload-IsSound CommandType.get_caps p h l =
      empty-IsSound CommandType.get_caps Command.get_caps get_caps refl tt refl p
  payload-IsSound CommandType.heartbeat p h l =
      empty-IsSound CommandType.heartbeat Command.heartbeat heartbeat refl tt refl p
  payload-IsSound CommandType.stop_all p h l =
      empty-IsSound CommandType.stop_all Command.stop_all stop_all refl tt refl p
  payload-IsSound CommandType.batch_begin [] h l = tt
  payload-IsSound CommandType.batch_begin (b ∷ p) h l = tt
  payload-IsSound CommandType.batch_end [] h l = tt
  payload-IsSound CommandType.batch_end (b ∷ p) h l = tt
  payload-IsSound CommandType.key_down p h l =
      stroke-IsSound CommandType.key_down Command.key_down key_down (λ s. refl) (λ s k. k)
        (λ s. refl) p h
  payload-IsSound CommandType.key_up p h l =
      stroke-IsSound CommandType.key_up Command.key_up key_up (λ s. refl) (λ s k. k) (λ s. refl) p h
  payload-IsSound CommandType.key_tap p h l =
      stroke-IsSound CommandType.key_tap Command.key_tap key_tap (λ s. refl) (λ s k. k) (λ s. refl)
        p h
  payload-IsSound CommandType.type_ascii p h l =
      rw (own_ascii_room p l)
        ((h, l), cc (take-append_self p (drop (0 + length p) buffer) (length p) refl))
  payload-IsSound CommandType.mouse_move_rel p h l = move-IsSound p h
  payload-IsSound CommandType.mouse_button_down p h l =
      button-IsSound CommandType.mouse_button_down Command.mouse_button_down mouse_button_down
        (λ m. refl) (λ m. tt) (λ m. refl) p
  payload-IsSound CommandType.mouse_button_up p h l =
      button-IsSound CommandType.mouse_button_up Command.mouse_button_up mouse_button_up (λ m. refl)
        (λ m. tt) (λ m. refl) p
  payload-IsSound CommandType.mouse_click p h l =
      button-IsSound CommandType.mouse_click Command.mouse_click mouse_click (λ m. refl) (λ m. tt)
        (λ m. refl) p
  payload-IsSound CommandType.mouse_wheel p h l = wheel-IsSound p h
  payload-IsSound CommandType.wait_ms p h l = wait-IsSound p h
  payload-IsSound CommandType.ack p h l = tt
  payload-IsSound CommandType.nack p h l = tt
  payload-IsSound CommandType.status p h l = tt
  payload-IsSound CommandType.busy p h l = tt
  payload-IsSound (CommandType.unknown b) p h l = tt

  -- A frame whose payload is at most 240 bytes decodes to a command exactly when the command's
  -- values are within their types and the limit on a wait, and the encoder writes for the command
  -- the frame's type and payload, whatever its buffer held. The vectors are any with the documented
  -- behaviour.
  pub from_frame_iff :
      (f : Frame) (c : OwnedCommand)
      → IsBytes f.payload
      → length f.payload ≤ max_payload_size
      → (from_frame v f ≡ ok c) ↔ (IsOwned c × (wire c buffer ≡ (f.command_type, f.payload)))
  unfolding from_frame decode_command
  from_frame_iff f c h l = (
    λ e.
        subst (λ r. IsSound f.command_type f.payload r) e
          (payload-IsSound f.command_type f.payload h l),
    λ (valid, e). rw (← ap (λ p. p.0) e, ← ap (λ p. p.1) e) (own_wire c valid),
  )
