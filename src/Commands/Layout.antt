-- ===== src/Commands/Layout.antt =====
-- src/commands.rs: the key strokes against the US layout of the HID usage tables, as a host reads it.
use rp2350_keymouse_bridge_f.Common.{
  ℕ, zero, suc, Option, none, some, is_none, List, [], ◌∷◌, ◌++◌, Bool, false, not, ◌&&◌, ◌||◌,
  ◌==◌, if◌then◌else◌,
}
use rp2350_keymouse_bridge_f.Commands.{KeyStroke, mod_left_shift}
use rp2350_keymouse_bridge_f.Commands.Ascii.{ascii_to_keystroke_with_caps_lock, is_ascii_alphabetic}

-- A key: its usage, and what it types without and with shift.
record Key : Type 0 where
  usage : ℕ
  low : ℕ
  high : ℕ

abbrev key : ℕ → ℕ → ℕ → Key
key usage low high = record { usage = usage; low = low; high = high }

-- Keys that follow one another.
row : ℕ → List ℕ → List ℕ → List Key
row usage (a ∷ as') (b ∷ bs) = key usage a b ∷ row (suc usage) as' bs
row usage as' bs = []

alphabet : ℕ → ℕ → List ℕ
alphabet zero start = []
alphabet (suc n) start = start ∷ alphabet n (suc start)

letters : List Key
unfolding row alphabet
letters = row 0x04 (alphabet 26 b'a') (alphabet 26 b'A')

digits : List Key
unfolding row
digits =
    row 0x1e (b'1' ∷ b'2' ∷ b'3' ∷ b'4' ∷ b'5' ∷ b'6' ∷ b'7' ∷ b'8' ∷ b'9' ∷ b'0' ∷ [])
      (b'!' ∷ b'@' ∷ b'#' ∷ b'$' ∷ b'%' ∷ b'^' ∷ b'&' ∷ b'*' ∷ b'(' ∷ b')' ∷ [])

-- Return, backspace, tab and the space bar type the same with shift.
controls : List Key
controls = key 0x28 10 10 ∷ key 0x2a 8 8 ∷ key 0x2b 9 9 ∷ key 0x2c b' ' b' ' ∷ []

punctuation : List Key
punctuation =
    key 0x2d b'-' b'_'
    ∷ key 0x2e b'=' b'+'
    ∷ key 0x2f b'[' b'{'
    ∷ key 0x30 b']' b'}'
    ∷ key 0x31 92 b'|'
    ∷ key 0x33 b';' b':'
    ∷ key 0x34 39 34
    ∷ key 0x35 b'`' b'~'
    ∷ key 0x36 b',' b'<'
    ∷ key 0x37 b'.' b'>'
    ∷ key 0x38 b'/' b'?'
    ∷ []

us_layout : List Key
unfolding letters digits controls punctuation
us_layout = letters ++ (digits ++ (controls ++ punctuation))

find_usage : ℕ → List Key → Option Key
find_usage usage [] = none
find_usage usage (k ∷ ks) =
    let rest = find_usage usage ks in if k.usage == usage then some k else rest

types : ℕ → List Key → Bool
types byte [] = false
types byte (k ∷ ks) = ((k.low == byte) || (k.high == byte)) || types byte ks

-- What the host types for a stroke: the caps lock swaps the two characters of a letter's key.
on_host : Bool → KeyStroke → Option ℕ
unfolding find_usage us_layout
on_host caps_lock stroke = elim (find_usage stroke.keycode us_layout) [
  | none ↦ none
  | some k ↦
      let shift = stroke.modifier == mod_left_shift in
      let swapped = caps_lock && is_ascii_alphabetic k.low in
      some (if (shift && not swapped) || (not shift && swapped) then k.high else k.low)
]

-- The text that a stroke leaves with the host.
pub typed : Bool → Option KeyStroke → Option ℕ
unfolding on_host
typed caps_lock none = none
typed caps_lock (some stroke) = on_host caps_lock stroke

pub on_layout : ℕ → Bool
unfolding types us_layout
on_layout byte = types byte us_layout

-- A carriage return is typed as a line feed.
pub newline : ℕ → ℕ
newline byte = if byte == 13 then 10 else byte

module _ (caps_lock : Bool) where
  abbrev stroke_text : ℕ → Option ℕ × Bool
  stroke_text byte =
      let stroke = ascii_to_keystroke_with_caps_lock byte caps_lock in
      (typed caps_lock stroke, is_none stroke)

  abbrev layout_text : ℕ → Option ℕ × Bool
  layout_text byte =
      let c = newline byte in (if on_layout c then some c else none, not (on_layout c))
