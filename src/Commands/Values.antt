-- ===== src/Commands/Values.antt =====
-- src/commands.rs: the values that a command's fields hold, and their bytes.
use rp2350_keymouse_bridge_f.Common.{
  ℕ, ◌/◌, ◌%◌, ◌≤◌, ◌<◌, ◌≡◌, refl, ◌⊎◌, inl, inr, arith, none, some, [], ◌∷◌, Bool-cases, ◌==◌,
  ltb, ltb→lt, ok, length, IsBytes, as_i16, as_i8, i16_as_u16, i8_as_u8, to_be_bytes, to_be_bytes32,
  from_be_bytes, from_be_bytes32,
}
use rp2350_keymouse_bridge_f.Common.Int.{ℤ, pos, negsuc, pos_part, neg_part}
use rp2350_keymouse_bridge_f.Protocol.{max_payload_size, max_wait_ms}
use rp2350_keymouse_bridge_f.Commands.{
  KeyStroke, MouseButton, left, right, middle, mask, from_mask, Command, decode_wait_ms,
}
use rp2350_keymouse_bridge_f.Commands.Owned.{
  OwnedCommand, key_down, key_up, key_tap, type_ascii, mouse_move_rel, mouse_wheel, wait_ms,
}

abbrev pub IsI16 : ℤ → Type 0
IsI16 z = (pos_part z < 32768) × (neg_part z ≤ 32768)

abbrev pub IsI8 : ℤ → Type 0
IsI8 z = (pos_part z < 128) × (neg_part z ≤ 128)

abbrev pub IsKeyStroke : KeyStroke → Type 0
IsKeyStroke s = (s.modifier < 256) × (s.keycode < 256)

-- The values that the fields' types hold, with the limit on a wait.
abbrev pub IsOwned : OwnedCommand → Type 0
IsOwned (key_down s) = IsKeyStroke s
IsOwned (key_up s) = IsKeyStroke s
IsOwned (key_tap s) = IsKeyStroke s
IsOwned (type_ascii bytes) = IsBytes bytes × (length bytes ≤ max_payload_size)
IsOwned (mouse_move_rel dx dy) = IsI16 dx × IsI16 dy
IsOwned (mouse_wheel wheel) = IsI8 wheel
IsOwned (wait_ms delay) = delay ≤ max_wait_ms
IsOwned other = Unit {0}

pub i16_bytes :
    (z : ℤ) → IsI16 z → as_i16 (from_be_bytes (i16_as_u16 z / 256 % 256) (i16_as_u16 z % 256)) ≡ z
i16_bytes (pos n) h = ground arith
i16_bytes (negsuc n) h = ground arith

pub i8_byte : (z : ℤ) → IsI8 z → as_i8 (i8_as_u8 z) ≡ z
i8_byte (pos n) h = ground arith
i8_byte (negsuc n) h = ground arith

pub i16_as_u16-as_i16 : (w : ℕ) → w < 65536 → IsI16 (as_i16 w) × (i16_as_u16 (as_i16 w) ≡ w)
i16_as_u16-as_i16 w h = elim (Bool-cases (ltb w 32768)) [
  | inl e ↦ let below = ltb→lt w 32768 e in rw e ((omega arith, omega arith), omega arith)
  | inr e ↦ rw e ((omega arith, ground arith), omega arith)
]

pub i8_as_u8-as_i8 : (w : ℕ) → w < 256 → IsI8 (as_i8 w) × (i8_as_u8 (as_i8 w) ≡ w)
i8_as_u8-as_i8 w h = elim (Bool-cases (ltb w 128)) [
  | inl e ↦ let below = ltb→lt w 128 e in rw e ((omega arith, omega arith), omega arith)
  | inr e ↦ rw e ((omega arith, ground arith), omega arith)
]

pub bytes_be16 :
    (a b w : ℕ) → a < 256 → b < 256 → w ≡ from_be_bytes a b → to_be_bytes w ≡ a ∷ b ∷ []
bytes_be16 a b w p q e =
    let x : w / 256 % 256 ≡ a = omega arith in let y : w % 256 ≡ b = omega arith in cc

pub bytes_be32 :
    (a b c d : ℕ)
    → a < 256
    → b < 256
    → c < 256
    → d < 256
    → to_be_bytes32 (from_be_bytes32 a b c d) ≡ a ∷ b ∷ c ∷ d ∷ []
bytes_be32 a b c d ha hb hc hd =
    let w = from_be_bytes32 a b c d in
    let x : w / 16777216 % 256 ≡ a = omega arith in
    let y : w / 65536 % 256 ≡ b = omega arith in
    let z : w / 256 % 256 ≡ c = omega arith in let u : w % 256 ≡ d = omega arith in cc

pub from_mask-mask : (b : MouseButton) → from_mask (mask b) ≡ some b
unfolding from_mask mask
from_mask-mask left = refl
from_mask-mask right = refl
from_mask-mask middle = refl

pub from_mask_cases :
    (b : ℕ) → (from_mask b ≡ none) ⊎ ((m : MouseButton) × (from_mask b ≡ some m) × (mask m ≡ b))
unfolding from_mask mask
from_mask_cases b = elim (Bool-cases (b == 0x01)) [
  | inl e ↦ inr (left, ground arith, ground arith)
  | inr e ↦ elim (Bool-cases (b == 0x02)) [
    | inl f ↦ inr (right, ground arith, ground arith)
    | inr f ↦ elim (Bool-cases (b == 0x04)) [
      | inl g ↦ inr (middle, ground arith, ground arith)
      | inr g ↦ inl (ground arith)
    ]
  ]
]

pub wait_bytes :
    (n : ℕ)
    → n ≤ max_wait_ms
    → decode_wait_ms (n / 16777216 % 256 ∷ n / 65536 % 256 ∷ n / 256 % 256 ∷ n % 256 ∷ [])
      ≡ ok (Command.wait_ms n)
unfolding decode_wait_ms
wait_bytes n h = ground arith
