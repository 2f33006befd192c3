-- ===== src/Hidctl/Parse.antt =====
-- tools/hidctl/src/script.rs: the parser of scripts.
use Prim.Native.String.{String}
use rp2350_keymouse_bridge_f.Common.{
  ℕ, zero, suc, ◌+◌, Option, none, some, List, [], ◌∷◌, ◌++◌, map, Bool, true, false, ◌&&◌, ◌||◌,
  ◌==◌, if◌then◌else◌, Result, ok, err, map_err, map_ok, ◌>>=◌, length,
}
use rp2350_keymouse_bridge_f.Hidctl.{
  HidctlError, type_arguments, wait_arguments, stop_arguments, unknown_command, key_arguments,
  unknown_key_action, mouse_action, mouse_arguments, unknown_mouse_action, unknown_button,
  late_quote, trailing_escape, unterminated_quote, at_line, Text, is_text, trim, lower, parse_u32,
  parse_signed,
}
use rp2350_keymouse_bridge_f.Hidctl.Keys.{parse_combo}
use rp2350_keymouse_bridge_f.Hidctl.Script.{
  ScriptCommand, type_ascii, key_tap, key_down, key_up, mouse_move, mouse_click, mouse_down,
  mouse_up, mouse_wheel, wait_ms, stop_all, MouseButtonName, left, right, middle,
}

-- The escapes of a quoted string.
unfoldable pub escaped : ℕ → ℕ
escaped next =
    if next == b'n' then 10 else if next == b'r' then 13 else if next == b't' then 9 else next

abbrev pub is_blank : ℕ → Bool
is_blank c = (c == 32) || (c == 9)

-- Blanks after a closing quote are skipped.
unfoldable pub skip_blanks : Text → Text
skip_blanks [] = []
skip_blanks (c ∷ cs) = if is_blank c then skip_blanks cs else c ∷ cs

abbrev pub is_empty : {A : Type 0} → List A → Bool
is_empty [] = true
is_empty (x ∷ xs) = false

-- The word that is open, if there is one, after the words.
abbrev pub with_word : List Text → Text → List Text
with_word words [] = words
with_word words (c ∷ cs) = words ++ ((c ∷ cs) ∷ [])

-- The loop of `split_words` over the characters that are left, outside and inside of a quote; each
-- round takes one of them at least, so that their number is fuel enough.
unfoldable pub split_loop : ℕ → Bool → Text → List Text → Text → Result HidctlError (List Text)
unfolding escaped skip_blanks
split_loop fuel false [] words current = ok (with_word words current)
split_loop fuel true [] words current = err unterminated_quote
split_loop zero in_quote (c ∷ cs) words current = err unterminated_quote
split_loop (suc fuel) false (c ∷ cs) words current = elim (c == b'"') [
  | true ↦ if is_empty current then split_loop fuel true cs words current else err late_quote
  | false ↦ elim (is_blank c) [
    | true ↦ split_loop fuel false cs (with_word words current) []
    | false ↦ elim ((c == b'#') && is_empty current) [
      | true ↦ ok words
      | false ↦ split_loop fuel false cs words (current ++ (c ∷ []))
    ]
  ]
]
split_loop (suc fuel) true (c ∷ cs) words current = elim (c == b'"') [
  | true ↦ split_loop fuel false (skip_blanks cs) (words ++ (current ∷ [])) []
  | false ↦ elim (c == b'\\') [
    | false ↦ split_loop fuel true cs words (current ++ (c ∷ []))
    | true ↦ elim cs [
      | [] ↦ err trailing_escape
      | ◌∷◌ next rest ↦ split_loop fuel true rest words (current ++ (escaped next ∷ []))
    ]
  ]
]

unfoldable pub split_words : Text → Result HidctlError (List Text)
unfolding split_loop
split_words line = split_loop (length line) false line [] []

unfoldable pub parse_button : Text → Result HidctlError MouseButtonName
parse_button input =
    let name = map lower input in
    if is_text name "left" || is_text name "l"
    then ok left
    else if is_text name "right" || is_text name "r"
    then ok right
    else if is_text name "middle" || is_text name "m"
    then ok middle
    else err unknown_button

unfoldable pub parse_key_command : List Text → Result HidctlError ScriptCommand
parse_key_command (action ∷ keys ∷ []) =
    let name = map lower action in
    parse_combo keys >>= λ combo.
    if is_text name "tap"
    then ok (key_tap combo)
    else if is_text name "down"
    then ok (key_down combo)
    else if is_text name "up"
    then ok (key_up combo)
    else err unknown_key_action
parse_key_command parts = err key_arguments

unfoldable pub parse_move : List Text → Result HidctlError ScriptCommand
parse_move (x ∷ y ∷ []) = do
  dx ← parse_signed 32767 x
  dy ← parse_signed 32767 y
  ok (mouse_move dx dy)
parse_move parts = err (mouse_arguments "move")

unfoldable pub parse_with_button :
    String → (MouseButtonName → ScriptCommand) → List Text → Result HidctlError ScriptCommand
unfolding parse_button
parse_with_button action made (name ∷ []) = map_ok made (parse_button name)
parse_with_button action made parts = err (mouse_arguments action)

unfoldable pub parse_wheel : List Text → Result HidctlError ScriptCommand
parse_wheel (delta ∷ []) = map_ok mouse_wheel (parse_signed 127 delta)
parse_wheel parts = err (mouse_arguments "wheel")

unfoldable pub parse_mouse_command : List Text → Result HidctlError ScriptCommand
unfolding parse_move parse_with_button parse_wheel
parse_mouse_command [] = err mouse_action
parse_mouse_command (action ∷ parts) =
    let name = map lower action in
    if is_text name "move"
    then parse_move parts
    else if is_text name "click"
    then parse_with_button "click" mouse_click parts
    else if is_text name "down"
    then parse_with_button "down" mouse_down parts
    else if is_text name "up"
    then parse_with_button "up" mouse_up parts
    else if is_text name "wheel"
    then parse_wheel parts
    else err unknown_mouse_action

unfoldable pub parse_type : List Text → Result HidctlError ScriptCommand
parse_type (text ∷ []) = ok (type_ascii text)
parse_type parts = err type_arguments

unfoldable pub parse_wait : List Text → Result HidctlError ScriptCommand
parse_wait (milliseconds ∷ []) = map_ok wait_ms (parse_u32 milliseconds)
parse_wait parts = err wait_arguments

unfoldable pub parse_stop : List Text → Result HidctlError ScriptCommand
parse_stop [] = ok stop_all
parse_stop parts = err stop_arguments

-- The `match` on the head of a line.
unfoldable pub parse_words : List Text → Result HidctlError (Option ScriptCommand)
unfolding parse_key_command parse_mouse_command parse_type parse_wait parse_stop
parse_words [] = ok none
parse_words (head ∷ parts) =
    let name = map lower head in
    map_ok some (
      if is_text name "type" || is_text name "text"
      then parse_type parts
      else if is_text name "key"
      then parse_key_command parts
      else if is_text name "mouse"
      then parse_mouse_command parts
      else if is_text name "wait"
      then parse_wait parts
      else if is_text name "stop"
      then parse_stop parts
      else err unknown_command)

unfoldable pub parse_line : Text → Result HidctlError (Option ScriptCommand)
unfolding split_words parse_words
parse_line line = elim (trim line) [
  | [] ↦ ok none
  | ◌∷◌ c cs ↦ if c == b'#' then ok none else split_words (c ∷ cs) >>= parse_words
]

-- `strip_suffix` of a carriage return
unfoldable pub strip_return : Text → Text
strip_return [] = []
strip_return (c ∷ []) = if c == 13 then [] else c ∷ []
strip_return (c ∷ d ∷ cs) = c ∷ strip_return (d ∷ cs)

-- `str::lines`: the last line feed starts no line.
unfoldable pub lines_after : Text → Text → List Text
unfolding strip_return
lines_after [] [] = []
lines_after (l ∷ ls) [] = (l ∷ ls) ∷ []
lines_after line (c ∷ cs) =
    if c == 10 then strip_return line ∷ lines_after [] cs else lines_after (line ++ (c ∷ [])) cs

abbrev pub and_command : Option ScriptCommand → List ScriptCommand → List ScriptCommand
and_command none commands = commands
and_command (some command) commands = command ∷ commands

-- The loop of `parse_script`, from a line's number on.
unfoldable pub parse_lines : ℕ → List Text → Result HidctlError (List ScriptCommand)
unfolding parse_line
parse_lines n [] = ok []
parse_lines n (line ∷ rest) = do
  command ← map_err (at_line n) (parse_line line)
  commands ← parse_lines (n + 1) rest
  ok (and_command command commands)

unfoldable pub parse_script : Text → Result HidctlError (List ScriptCommand)
unfolding parse_lines lines_after
parse_script input = parse_lines 1 (lines_after [] input)
