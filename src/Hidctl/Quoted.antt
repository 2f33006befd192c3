-- ===== src/Hidctl/Quoted.antt =====
-- tools/hidctl/src/script.rs: a text written in quotes is read back.
use rp2350_keymouse_bridge_f.Common.{
  ℕ, zero, suc, ◌+◌, ◌≤◌, ◌≡◌, refl, ◌∙◌, ap, arith, some, List, [], ◌∷◌, ◌++◌, append_assoc,
  append-nil, Bool, true, false, ◌==◌, ◌||◌, if◌then◌else◌, Bool-cases, inl, inr, ok, length,
  length-append,
}
use rp2350_keymouse_bridge_f.Hidctl.{Text, codes, trim, trim_start, trim_end, is_whitespace}
use rp2350_keymouse_bridge_f.Hidctl.Script.{type_ascii}
use rp2350_keymouse_bridge_f.Hidctl.Parse.{
  escaped, skip_blanks, split_loop, split_words, parse_words, parse_type, parse_line,
}

-- A text as it stands between quotes: quotes and backslashes have a backslash before them.
abbrev pub escape : Text → Text
escape [] = []
escape (c ∷ cs) = if (c == b'"') || (c == b'\\') then b'\\' ∷ c ∷ escape cs else c ∷ escape cs

abbrev pub quote : Text → Text
quote text = b'"' ∷ (escape text ++ (b'"' ∷ []))

abbrev is_special : ℕ → Bool
is_special c = (c == b'"') || (c == b'\\')

escape_special :
    (c : ℕ) (cs : Text)
    → is_special c ≡ true
    → (escape (c ∷ cs) ≡ b'\\' ∷ c ∷ escape cs) × (escaped c ≡ c)
unfolding escaped
escape_special c cs e = (rw (e) refl, ground (arith, e))

escape_plain : (c : ℕ) (cs : Text) → is_special c ≡ false → escape (c ∷ cs) ≡ c ∷ escape cs
escape_plain c cs e = rw (e) refl

loop_plain :
    (fuel c : ℕ) (rest : Text) (words : List Text) (current : Text)
    → is_special c ≡ false
    → split_loop (suc fuel) true (c ∷ rest) words current
      ≡ split_loop fuel true rest words (current ++ (c ∷ []))
unfolding split_loop
loop_plain fuel c rest words current e = ground (arith, e)

loop_escaped :
    (fuel c : ℕ) (rest : Text) (words : List Text) (current : Text)
    → split_loop (suc fuel) true (b'\\' ∷ c ∷ rest) words current
      ≡ split_loop fuel true rest words (current ++ (escaped c ∷ []))
unfolding split_loop
loop_escaped fuel c rest words current = refl

loop_end :
    (fuel : ℕ) (words : List Text) (current : Text)
    → split_loop (suc fuel) true (b'"' ∷ []) words current ≡ ok (words ++ ((current ++ []) ∷ []))
unfolding split_loop skip_blanks
loop_end fuel words current = rw (append-nil current) refl

-- Within a quote, the escaped text is added to the word, and the quote after it ends the word.
quoted_word :
    (fuel : ℕ) (text : Text) (words : List Text) (current : Text)
    → length (escape text) + 1 ≤ fuel
    → split_loop fuel true (escape text ++ (b'"' ∷ [])) words current
      ≡ ok (words ++ ((current ++ text) ∷ []))
quoted_word zero text words current n = absurd (omega arith)
quoted_word (suc fuel) [] words current n = loop_end fuel words current
quoted_word (suc fuel) (c ∷ cs) words current n = elim (Bool-cases (is_special c)) [
  | inl e ↦
      let (text, same) = escape_special c cs e in
      let room : length (escape cs) + 1 ≤ fuel = omega (arith, n, ap length text) in
      rw (text, loop_escaped fuel c (escape cs ++ (b'"' ∷ [])) words current, same)
        (quoted_word fuel cs words (current ++ (c ∷ [])) room
          ∙ ap (λ w. ok (words ++ (w ∷ []))) (append_assoc current (c ∷ []) cs))
  | inr e ↦
      let text = escape_plain c cs e in
      let room : length (escape cs) + 1 ≤ fuel = omega (arith, n, ap length text) in
      rw (text, loop_plain fuel c (escape cs ++ (b'"' ∷ [])) words current e)
        (quoted_word fuel cs words (current ++ (c ∷ [])) room
          ∙ ap (λ w. ok (words ++ (w ∷ []))) (append_assoc current (c ∷ []) cs))
]

trim_end-quote : (xs : Text) → trim_end (xs ++ (b'"' ∷ [])) ≡ xs ++ (b'"' ∷ [])
unfolding trim_end is_whitespace
trim_end-quote [] = refl
trim_end-quote (x ∷ []) = refl
trim_end-quote (x ∷ y ∷ xs) = rw (trim_end-quote (y ∷ xs), trim_end) refl

abbrev pub type_line : Text → Text
type_line text = codes "type " ++ quote text

trimmed : (text : Text) → trim (type_line text) ≡ type_line text
unfolding trim trim_start is_whitespace
trimmed text = trim_end-quote (codes "type " ++ (b'"' ∷ escape text))

typed_words : (text : Text) → split_words (type_line text) ≡ ok (codes "type" ∷ text ∷ [])
unfolding split_words split_loop
typed_words text =
    quoted_word (length (escape text ++ (b'"' ∷ []))) text (codes "type" ∷ []) []
      (omega (arith, length-append (escape text) (b'"' ∷ [])))

-- A script line that types a text, with the text written in quotes and a backslash before each quote
-- and each backslash in it, is read back as the command that types this text, whatever its
-- characters are.
pub parse_line-type_line : (text : Text) → parse_line (type_line text) ≡ ok (some (type_ascii text))
unfolding parse_line parse_words parse_type
parse_line-type_line text = ground (arith, trimmed text, typed_words text)
