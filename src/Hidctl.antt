-- ===== src/Hidctl.antt =====
-- tools/hidctl: the text operations that the host's tool uses, and its errors.
pub mod Keys
pub mod Script
pub mod Parse
pub mod Plan
pub mod Packets
pub mod Sent
pub mod Quoted
pub mod Client
pub mod Reader
pub mod Sender
pub mod Retry
pub mod Found
pub mod Wire
pub mod Answers
mod Tests
use Prim.Native.Char.{code}
use Prim.Native.String.{String}
use rp2350_keymouse_bridge_f.Common.{
  ℕ, zero, suc, ◌+◌, ◌-◌, ◌*◌, ◌/◌, ◌%◌, Option, none, some, List, [], ◌∷◌, ◌++◌, Bool, true, false,
  ◌&&◌, ◌||◌, ◌==◌, ltb, leb, if◌then◌else◌, Result, ok, err, bytes_eq,
}
use rp2350_keymouse_bridge_f.Common.Int.{ℤ, pos, negsuc}
use rp2350_keymouse_bridge_f.Protocol.{CommandType}

-- What the tool reports; a message without the text that it quotes.
pub data HidctlError : Type 0 where
  empty_key_token second_key unknown_key : HidctlError
  type_arguments wait_arguments stop_arguments unknown_command : HidctlError
  key_arguments unknown_key_action : HidctlError
  mouse_action unknown_mouse_action unknown_button : HidctlError
  mouse_arguments : String → HidctlError
  not_a_number : HidctlError
  late_quote trailing_escape unterminated_quote : HidctlError
  at_line : ℕ → HidctlError → HidctlError

-- A `&str` is the list of its code points.
abbrev pub Text : Type 0
Text = List ℕ

abbrev pub codes : String → Text
codes String.[] = []
codes (String.◌∷◌ c s) = code c ∷ codes s

-- `==` with a literal
abbrev pub is_text : Text → String → Bool
is_text text literal = bytes_eq text (codes literal)

-- `char::is_whitespace`
unfoldable pub is_whitespace : ℕ → Bool
is_whitespace c =
    (leb 9 c && leb c 13)
    || ((c == 32)
        || ((c == 0x85)
            || ((c == 0xA0)
                || ((c == 0x1680)
                    || ((leb 0x2000 c && leb c 0x200A)
                        || ((c == 0x2028)
                            || ((c == 0x2029)
                                || ((c == 0x202F) || ((c == 0x205F) || (c == 0x3000))))))))))

-- `str::trim_start`
unfoldable pub trim_start : Text → Text
unfolding is_whitespace
trim_start [] = []
trim_start (c ∷ cs) = if is_whitespace c then trim_start cs else c ∷ cs

-- `str::trim_end`
unfoldable pub trim_end : Text → Text
unfolding is_whitespace
trim_end [] = []
trim_end (c ∷ cs) = elim (trim_end cs) [
  | [] ↦ if is_whitespace c then [] else c ∷ []
  | ◌∷◌ d ds ↦ c ∷ d ∷ ds
]

-- `str::trim`
unfoldable pub trim : Text → Text
unfolding trim_start trim_end
trim text = trim_end (trim_start text)

-- `to_ascii_uppercase` and `to_ascii_lowercase` of a character
abbrev pub upper : ℕ → ℕ
upper c = if leb 97 c && leb c 122 then c - 32 else c

abbrev pub lower : ℕ → ℕ
lower c = if leb 65 c && leb c 90 then c + 32 else c

-- `str::split` of a character, with the part that is open
unfoldable pub split_after : ℕ → Text → Text → List Text
split_after separator part [] = part ∷ []
split_after separator part (c ∷ cs) =
    if c == separator
    then part ∷ split_after separator [] cs
    else split_after separator (part ++ (c ∷ [])) cs

unfoldable pub split : ℕ → Text → List Text
unfolding split_after
split separator text = split_after separator [] text

-- The digits of a number, all of them decimal.
unfoldable pub digits : ℕ → Text → Option ℕ
digits value [] = some value
digits value (c ∷ cs) = if leb 48 c && leb c 57 then digits (value * 10 + (c - 48)) cs else none

-- A number of at least one digit.
unfoldable pub number : Text → Option ℕ
unfolding digits
number [] = none
number (c ∷ cs) = digits 0 (c ∷ cs)

abbrev pub at_most : ℕ → Option ℕ → Result HidctlError ℕ
at_most limit none = err not_a_number
at_most limit (some n) = if leb n limit then ok n else err not_a_number

-- `str::parse::<u32>`
unfoldable pub parse_u32 : Text → Result HidctlError ℕ
unfolding number
parse_u32 (c ∷ cs) =
    if c == 43 then at_most 4294967295 (number cs) else at_most 4294967295 (number (c ∷ cs))
parse_u32 [] = err not_a_number

abbrev pub positive : Result HidctlError ℕ → Result HidctlError ℤ
positive (ok n) = ok (pos n)
positive (err e) = err e

abbrev pub negated : ℕ → ℤ
negated zero = pos 0
negated (suc n) = negsuc n

abbrev pub negative : Result HidctlError ℕ → Result HidctlError ℤ
negative (ok n) = ok (negated n)
negative (err e) = err e

-- `str::parse` of a signed number, whose largest value is `limit`
unfoldable pub parse_signed : ℕ → Text → Result HidctlError ℤ
unfolding number
parse_signed limit (c ∷ cs) =
    if c == 43
    then positive (at_most limit (number cs))
    else if c == 45
    then negative (at_most (limit + 1) (number cs))
    else positive (at_most limit (number (c ∷ cs)))
parse_signed limit [] = err not_a_number

-- `char::encode_utf8`
abbrev pub encode_utf8 : ℕ → List ℕ
encode_utf8 c =
    if ltb c 0x80
    then c ∷ []
    else if ltb c 0x800
    then (0xC0 + c / 64) ∷ (0x80 + c % 64) ∷ []
    else if ltb c 0x10000
    then (0xE0 + c / 4096) ∷ (0x80 + c / 64 % 64) ∷ (0x80 + c % 64) ∷ []
    else (0xF0 + c / 262144) ∷ (0x80 + c / 4096 % 64) ∷ (0x80 + c / 64 % 64) ∷ (0x80 + c % 64) ∷ []

-- `str::as_bytes`
unfoldable pub as_bytes : Text → List ℕ
as_bytes [] = []
as_bytes (c ∷ cs) = encode_utf8 c ++ as_bytes cs
