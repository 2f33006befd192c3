-- ===== src/Hidctl/Keys.antt =====
-- tools/hidctl/src/keys.rs: key combinations.
use Prim.Native.String.{String}
use rp2350_keymouse_bridge_f.Common.{
  ℕ, ◌+◌, ◌-◌, Option, none, some, List, [], ◌∷◌, ◌&&◌, ◌||◌, leb, if◌then◌else◌, Result, ok, err,
  bit_or, map, ◌>>=◌,
}
use rp2350_keymouse_bridge_f.Hidctl.{
  HidctlError, empty_key_token, second_key, unknown_key, Text, is_text, trim, upper, split,
}

pub record KeyCombo : Type 0 where
  pub modifier : ℕ
  pub keycode : ℕ

-- The names of the `match` of `parse_keycode`, with the usages.
abbrev pub key_names : List (String × ℕ)
key_names =
    ("0", 0x27)
    ∷ ("ENTER", 0x28)
    ∷ ("RETURN", 0x28)
    ∷ ("ESC", 0x29)
    ∷ ("ESCAPE", 0x29)
    ∷ ("BACKSPACE", 0x2A)
    ∷ ("BKSP", 0x2A)
    ∷ ("TAB", 0x2B)
    ∷ ("SPACE", 0x2C)
    ∷ ("MINUS", 0x2D)
    ∷ ("-", 0x2D)
    ∷ ("EQUAL", 0x2E)
    ∷ ("=", 0x2E)
    ∷ ("LBRACKET", 0x2F)
    ∷ ("[", 0x2F)
    ∷ ("RBRACKET", 0x30)
    ∷ ("]", 0x30)
    ∷ ("BACKSLASH", 0x31)
    ∷ ("\\", 0x31)
    ∷ ("SEMICOLON", 0x33)
    ∷ (";", 0x33)
    ∷ ("QUOTE", 0x34)
    ∷ ("'", 0x34)
    ∷ ("GRAVE", 0x35)
    ∷ ("`", 0x35)
    ∷ ("COMMA", 0x36)
    ∷ (",", 0x36)
    ∷ ("DOT", 0x37)
    ∷ ("PERIOD", 0x37)
    ∷ (".", 0x37)
    ∷ ("SLASH", 0x38)
    ∷ ("/", 0x38)
    ∷ ("CAPSLOCK", 0x39)
    ∷ ("F1", 0x3A)
    ∷ ("F2", 0x3B)
    ∷ ("F3", 0x3C)
    ∷ ("F4", 0x3D)
    ∷ ("F5", 0x3E)
    ∷ ("F6", 0x3F)
    ∷ ("F7", 0x40)
    ∷ ("F8", 0x41)
    ∷ ("F9", 0x42)
    ∷ ("F10", 0x43)
    ∷ ("F11", 0x44)
    ∷ ("F12", 0x45)
    ∷ ("PRINTSCREEN", 0x46)
    ∷ ("PRTSCR", 0x46)
    ∷ ("SCROLLLOCK", 0x47)
    ∷ ("PAUSE", 0x48)
    ∷ ("INSERT", 0x49)
    ∷ ("HOME", 0x4A)
    ∷ ("PAGEUP", 0x4B)
    ∷ ("PGUP", 0x4B)
    ∷ ("DELETE", 0x4C)
    ∷ ("DEL", 0x4C)
    ∷ ("END", 0x4D)
    ∷ ("PAGEDOWN", 0x4E)
    ∷ ("PGDN", 0x4E)
    ∷ ("RIGHT", 0x4F)
    ∷ ("LEFT", 0x50)
    ∷ ("DOWN", 0x51)
    ∷ ("UP", 0x52)
    ∷ []

unfoldable pub named_key : Text → List (String × ℕ) → Result HidctlError ℕ
named_key key [] = err unknown_key
named_key key ((name, usage) ∷ names) = if is_text key name then ok usage else named_key key names

-- A letter or a digit from 1; a key of one byte is one of these, or has a name.
unfoldable pub single_key : ℕ → Option ℕ
single_key byte =
    if leb 65 byte && leb byte 90
    then some (0x04 + (byte - 65))
    else if leb 49 byte && leb byte 57
    then some (0x1E + (byte - 49))
    else none

abbrev pub or_named : Text → Option ℕ → Result HidctlError ℕ
or_named key (some usage) = ok usage
or_named key none = named_key key key_names

unfoldable pub parse_keycode : Text → Result HidctlError ℕ
unfolding single_key named_key
parse_keycode (byte ∷ []) = or_named (byte ∷ []) (single_key byte)
parse_keycode key = named_key key key_names

-- The modifiers and the key found so far.
abbrev pub Found : Type 0
Found = ℕ × Option ℕ

abbrev pub replaced : ℕ → Option ℕ → Result HidctlError ℕ → Result HidctlError Found
replaced modifier none (ok usage) = ok (modifier, some usage)
replaced modifier (some old) (ok usage) = err second_key
replaced modifier old (err e) = err e

-- The `match` on a token.
unfoldable pub combo_token : Text → Found → Result HidctlError Found
unfolding parse_keycode
combo_token [] found = err empty_key_token
combo_token (c ∷ cs) (modifier, keycode) =
    if is_text (c ∷ cs) "CTRL" || is_text (c ∷ cs) "CONTROL"
    then ok (bit_or modifier 0x01, keycode)
    else if is_text (c ∷ cs) "SHIFT"
    then ok (bit_or modifier 0x02, keycode)
    else if is_text (c ∷ cs) "ALT"
    then ok (bit_or modifier 0x04, keycode)
    else if is_text (c ∷ cs) "GUI" || (is_text (c ∷ cs) "WIN" || is_text (c ∷ cs) "META")
    then ok (bit_or modifier 0x08, keycode)
    else replaced modifier keycode (parse_keycode (c ∷ cs))

-- The loop over the parts.
unfoldable pub combo_parts : List Text → Found → Result HidctlError Found
unfolding combo_token
combo_parts [] found = ok found
combo_parts (part ∷ parts) found = combo_token (map upper (trim part)) found >>= combo_parts parts

-- `unwrap_or(0)`
abbrev pub as_combo : Found → Result HidctlError KeyCombo
as_combo (modifier, none) = ok (record { modifier = modifier; keycode = 0 })
as_combo (modifier, some usage) = ok (record { modifier = modifier; keycode = usage })

unfoldable pub parse_combo : Text → Result HidctlError KeyCombo
unfolding combo_parts
parse_combo input = combo_parts (split 43 input) (0, none) >>= as_combo
