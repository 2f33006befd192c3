-- ===== src/Commands/Ascii.antt =====
-- src/commands.rs: ASCII to key strokes.
use rp2350_keymouse_bridge_f.Common.{
  ℕ, ◌+◌, ◌-◌, Option, none, some, Bool, ◌&&◌, ◌||◌, ◌==◌, leb, if◌then◌else◌, bit_xor,
}
use rp2350_keymouse_bridge_f.Commands.{KeyStroke, mod_left_shift}

abbrev pub plain : ℕ → Option KeyStroke
plain keycode = some (record { modifier = 0; keycode = keycode })

abbrev pub shifted : ℕ → Option KeyStroke
shifted keycode = some (record { modifier = mod_left_shift; keycode = keycode })

-- `lo..=hi`
abbrev pub within : ℕ → ℕ → ℕ → Bool
within lo hi byte = leb lo byte && leb byte hi

unfoldable pub ascii_to_keystroke : ℕ → Option KeyStroke
ascii_to_keystroke byte =
    if within b'a' b'z' byte
    then plain (0x04 + (byte - b'a'))
    else if within b'A' b'Z' byte
    then shifted (0x04 + (byte - b'A'))
    else if within b'1' b'9' byte
    then plain (0x1e + (byte - b'1'))
    else if byte == b'0'
    then plain 0x27
    else if (byte == 10) || (byte == 13)
    then plain 0x28
    else if byte == 8
    then plain 0x2a
    else if byte == 9
    then plain 0x2b
    else if byte == b' '
    then plain 0x2c
    else if byte == b'-'
    then plain 0x2d
    else if byte == b'_'
    then shifted 0x2d
    else if byte == b'='
    then plain 0x2e
    else if byte == b'+'
    then shifted 0x2e
    else if byte == b'['
    then plain 0x2f
    else if byte == b'{'
    then shifted 0x2f
    else if byte == b']'
    then plain 0x30
    else if byte == b'}'
    then shifted 0x30
    else if byte == 92
    then plain 0x31
    else if byte == b'|'
    then shifted 0x31
    else if byte == b';'
    then plain 0x33
    else if byte == b':'
    then shifted 0x33
    else if byte == 39
    then plain 0x34
    else if byte == 34
    then shifted 0x34
    else if byte == b'`'
    then plain 0x35
    else if byte == b'~'
    then shifted 0x35
    else if byte == b','
    then plain 0x36
    else if byte == b'<'
    then shifted 0x36
    else if byte == b'.'
    then plain 0x37
    else if byte == b'>'
    then shifted 0x37
    else if byte == b'/'
    then plain 0x38
    else if byte == b'?'
    then shifted 0x38
    else if byte == b'!'
    then shifted 0x1e
    else if byte == b'@'
    then shifted 0x1f
    else if byte == b'#'
    then shifted 0x20
    else if byte == b'$'
    then shifted 0x21
    else if byte == b'%'
    then shifted 0x22
    else if byte == b'^'
    then shifted 0x23
    else if byte == b'&'
    then shifted 0x24
    else if byte == b'*'
    then shifted 0x25
    else if byte == b'('
    then shifted 0x26
    else if byte == b')'
    then shifted 0x27
    else none

-- `u8::is_ascii_alphabetic`
abbrev pub is_ascii_alphabetic : ℕ → Bool
is_ascii_alphabetic byte = within b'a' b'z' byte || within b'A' b'Z' byte

unfoldable pub ascii_to_keystroke_with_caps_lock : ℕ → Bool → Option KeyStroke
ascii_to_keystroke_with_caps_lock byte caps_lock = elim (ascii_to_keystroke byte) [
  | none ↦ none
  | some stroke ↦ some (record stroke {
    modifier =
        if caps_lock && is_ascii_alphabetic byte
        then bit_xor stroke.modifier mod_left_shift
        else stroke.modifier;
  })
]
