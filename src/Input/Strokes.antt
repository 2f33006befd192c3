-- ===== src/Input/Strokes.antt =====
-- src/input_state.rs: `ascii_strokes`.
use rp2350_keymouse_bridge_f.Common.{
  ℕ, ◌≤◌, ◌<◌, ◌≡◌, Option, none, some, List, [], ◌∷◌, ◌++◌, map, Bool, true, false, ◌&&◌, ◌==◌,
  ltb, if◌then◌else◌, Result, ok, err, length, get_elem?,
}
use rp2350_keymouse_bridge_f.Common.Heapless.{Heapless}
use rp2350_keymouse_bridge_f.Commands.{KeyStroke}
use rp2350_keymouse_bridge_f.Commands.Ascii.{ascii_to_keystroke_with_caps_lock}
use rp2350_keymouse_bridge_f.Commands.Layout.{typed, on_layout, newline}
use rp2350_keymouse_bridge_f.Commands.Owned.{max_ascii_strokes}
use rp2350_keymouse_bridge_f.Input.{InputError, too_many_keys, too_many_strokes, unsupported_ascii}

-- `b'\r' && bytes.get(index + 1) == Some(&b'\n')`, at the byte and what follows it.
unfoldable pub crlf : ℕ → ℕ → Bool
crlf byte following = (byte == 13) && (following == 10)

module _ (v : Heapless) (caps_lock : Bool) where
  -- The body of the loop up to the step of the index.
  unfoldable pub push_stroke : ℕ → List KeyStroke → Result InputError (List KeyStroke)
  push_stroke byte validated = elim (ascii_to_keystroke_with_caps_lock byte caps_lock) [
    | none ↦ err (unsupported_ascii byte)
    | some stroke ↦ elim (v.push KeyStroke max_ascii_strokes validated stroke) [
      | none ↦ err too_many_strokes
      | some longer ↦ ok longer
    ]
  ]

  -- The loop, on the bytes from the index on.
  unfoldable pub stroke_loop : List ℕ → List KeyStroke → Result InputError (List KeyStroke)
  stroke_loop [] validated = ok validated
  stroke_loop (byte ∷ []) validated = push_stroke byte validated
  stroke_loop (byte ∷ following ∷ rest) validated = elim (push_stroke byte validated) [
    | err e ↦ err e
    | ok longer ↦ elim (crlf byte following) [
      | Bool.true ↦ stroke_loop rest longer
      | Bool.false ↦ stroke_loop (following ∷ rest) longer
    ]
  ]

  -- The new contents of `out`, which an error leaves as it was.
  unfoldable pub ascii_strokes : List ℕ → Result InputError (List KeyStroke)
  ascii_strokes bytes =
      if ltb max_ascii_strokes (length bytes) then err too_many_strokes else stroke_loop bytes []

-- The text with each line end, `\r\n`, `\r` or `\n`, a line feed.
pub normalise : List ℕ → List ℕ
normalise [] = []
normalise (byte ∷ []) = newline byte ∷ []
normalise (byte ∷ following ∷ rest) =
    let skip = newline byte ∷ normalise rest in
    let keep = newline byte ∷ normalise (following ∷ rest) in
    if crlf byte following then skip else keep

abbrev pub text : Bool → List KeyStroke → List (Option ℕ)
text caps_lock = map (λ s. typed caps_lock (some s))

-- A byte of the text that no key types.
abbrev pub IsUntypable : List ℕ → ℕ → Type 0
IsUntypable bytes b = (on_layout (newline b) ≡ false) × ((i : ℕ) × (get_elem? bytes i ≡ some b))

abbrev AddsText : Bool → List ℕ → List KeyStroke → Result InputError (List KeyStroke) → Type 0
AddsText caps_lock bytes acc (ok l) =
    (new : List KeyStroke) × (l ≡ acc ++ new) × (text caps_lock new ≡ map some (normalise bytes))
AddsText caps_lock bytes acc (err (unsupported_ascii b)) = IsUntypable bytes b
AddsText caps_lock bytes acc (err other) = ⊥

abbrev pub TypesText : Bool → List ℕ → Result InputError (List KeyStroke) → Type 0
TypesText caps_lock bytes (ok l) =
    (length bytes ≤ max_ascii_strokes) × (text caps_lock l ≡ map some (normalise bytes))
TypesText caps_lock bytes (err (unsupported_ascii b)) =
    (length bytes ≤ max_ascii_strokes) × IsUntypable bytes b
TypesText caps_lock bytes (err too_many_strokes) = max_ascii_strokes < length bytes
TypesText caps_lock bytes (err too_many_keys) = ⊥
