-- ===== src/Bench/Json.antt =====
-- src/bench/cache_bench.cpp: `JsonEscapeString`, and the strings of `JsonReader`. The reader's position is
-- the list of the bytes that are left. The proofs are in the modules below.
pub mod Escaping
pub mod Fuel
use distributed_cache.Prelude.{
  ℕ, zero, suc, ◌+◌, ◌-◌, ◌*◌, ◌/◌, ◌%◌, Bytes, nat_eqb, ltb, leb, codes, Bool, true, false, ◌&&◌,
  ◌||◌, Option, none, some, List, [], ◌∷◌, ◌++◌, length, if◌then◌else◌,
}

-- `kHex[n]`
unfoldable pub hex_char : ℕ → ℕ
hex_char n = if ltb n 10 then 48 + n else 87 + n

-- A round of the loop of `JsonEscapeString`.
unfoldable pub escape_byte : ℕ → Bytes
unfolding hex_char
escape_byte ch =
    if nat_eqb ch 34
    then 92 ∷ 34 ∷ []
    else if nat_eqb ch 92
    then 92 ∷ 92 ∷ []
    else if nat_eqb ch 8
    then 92 ∷ 98 ∷ []
    else if nat_eqb ch 12
    then 92 ∷ 102 ∷ []
    else if nat_eqb ch 10
    then 92 ∷ 110 ∷ []
    else if nat_eqb ch 13
    then 92 ∷ 114 ∷ []
    else if nat_eqb ch 9
    then 92 ∷ 116 ∷ []
    else if ltb ch 32
    then 92 ∷ 117 ∷ 48 ∷ 48 ∷ hex_char (ch / 16) ∷ hex_char (ch % 16) ∷ []
    else ch ∷ []

unfoldable pub json_escape_string : Bytes → Bytes
unfolding escape_byte
json_escape_string [] = []
json_escape_string (ch ∷ input) = escape_byte ch ++ json_escape_string input

-- `std::isspace` in the C locale.
unfoldable pub is_space : ℕ → Bool
is_space ch = nat_eqb ch 32 || leb 9 ch && leb ch 13

unfoldable pub skip_whitespace : Bytes → Bytes
unfolding is_space
skip_whitespace [] = []
skip_whitespace (ch ∷ input) =
    let rest = skip_whitespace input in if is_space ch then rest else ch ∷ input

-- `Consume`: whether the character was there, and what is left.
unfoldable pub consume_at : ℕ → Bytes → Bool × Bytes
consume_at expected [] = (false, [])
consume_at expected (ch ∷ rest) = if nat_eqb ch expected then (true, rest) else (false, ch ∷ rest)

unfoldable pub consume : ℕ → Bytes → Bool × Bytes
unfolding consume_at skip_whitespace
consume expected input = consume_at expected (skip_whitespace input)

unfoldable pub hex_digit : ℕ → Option ℕ
hex_digit ch =
    if leb 48 ch && leb ch 57
    then some (ch - 48)
    else if leb 97 ch && leb ch 102
    then some (10 + (ch - 97))
    else if leb 65 ch && leb ch 70
    then some (10 + (ch - 65))
    else none

-- The loop of `ParseHex4`; the shift and the bitwise or add a digit below 16.
unfoldable pub hex_digits : ℕ → ℕ → Bytes → Option (ℕ × Bytes)
unfolding hex_digit
hex_digits zero value input = some (value, input)
hex_digits (suc left) value [] = none
hex_digits (suc left) value (ch ∷ rest) = elim (hex_digit ch) [
  | none ↦ none
  | some digit ↦ hex_digits left (value * 16 + digit) rest
]

unfoldable pub parse_hex4 : Bytes → Option (ℕ × Bytes)
unfolding hex_digits
parse_hex4 input = if ltb (length input) 4 then none else hex_digits 4 0 input

-- The bytes that `AppendUtf8` pushes.
unfoldable pub append_utf8 : ℕ → Option Bytes
append_utf8 codepoint =
    if leb codepoint 127
    then some (codepoint ∷ [])
    else if leb codepoint 2047
    then some ((192 + codepoint / 64) ∷ (128 + codepoint % 64) ∷ [])
    else if leb codepoint 65535
    then some ((224 + codepoint / 4096) ∷ (128 + codepoint / 64 % 64) ∷ (128 + codepoint % 64) ∷ [])
    else if leb codepoint 1114111
    then some (
        (240 + codepoint / 262144)
        ∷ (128 + codepoint / 4096 % 64)
        ∷ (128 + codepoint / 64 % 64)
        ∷ (128 + codepoint % 64)
        ∷ [])
    else none

-- The bytes of a code point, and what is left.
unfoldable pub pushed : ℕ → Bytes → Option (Bytes × Bytes)
unfolding append_utf8
pushed codepoint rest = elim (append_utf8 codepoint) [
  | none ↦ none
  | some bytes ↦ some (bytes, rest)
]

-- The second half of a pair of surrogates.
unfoldable pub low_surrogate : ℕ → Bytes → Option (Bytes × Bytes)
unfolding parse_hex4 pushed
low_surrogate high [] = none
low_surrogate high (a ∷ []) = none
low_surrogate high (a ∷ b ∷ input) =
    if ltb (length input) 4
    then none
    else if nat_eqb a 92 && nat_eqb b 117
    then elim (parse_hex4 input) [
      | none ↦ none
      | some (low, rest) ↦
          if ltb low 56320 || ltb 57343 low
          then none
          else pushed (65536 + (high - 55296) * 1024 + (low - 56320)) rest
    ]
    else none

unfoldable pub parse_unicode_escape : Bytes → Option (Bytes × Bytes)
unfolding parse_hex4 pushed low_surrogate
parse_unicode_escape input = elim (parse_hex4 input) [
  | none ↦ none
  | some (codepoint, rest) ↦
      if leb 55296 codepoint && leb codepoint 56319
      then low_surrogate codepoint rest
      else if leb 56320 codepoint && leb codepoint 57343
      then none
      else pushed codepoint rest
]

-- The bytes of the escape sequence after a backslash.
unfoldable pub parse_escape : Bytes → Option (Bytes × Bytes)
unfolding parse_unicode_escape
parse_escape [] = none
parse_escape (esc ∷ rest) =
    if nat_eqb esc 34 || nat_eqb esc 92 || nat_eqb esc 47
    then some (esc ∷ [], rest)
    else if nat_eqb esc 98
    then some (8 ∷ [], rest)
    else if nat_eqb esc 102
    then some (12 ∷ [], rest)
    else if nat_eqb esc 110
    then some (10 ∷ [], rest)
    else if nat_eqb esc 114
    then some (13 ∷ [], rest)
    else if nat_eqb esc 116
    then some (9 ∷ [], rest)
    else if nat_eqb esc 117
    then parse_unicode_escape rest
    else none

-- The text before the text that follows.
unfoldable pub before : Bytes → Option (Bytes × Bytes) → Option (Bytes × Bytes)
before bytes none = none
before bytes (some (text, rest)) = some (bytes ++ text, rest)

-- The loop of `ParseString`, on fuel.
unfoldable pub read_string : ℕ → Bytes → Option (Bytes × Bytes)
unfolding parse_escape before
read_string zero input = none
read_string (suc fuel) [] = none
read_string (suc fuel) (ch ∷ input) =
    if nat_eqb ch 34
    then some ([], input)
    else if nat_eqb ch 92
    then elim (parse_escape input) [
      | none ↦ none
      | some (bytes, rest) ↦ before bytes (read_string fuel rest)
    ]
    else if ltb ch 32
    then none
    else before (ch ∷ []) (read_string fuel input)

-- `ParseString`: the text, and what is left; `none` is `false`.
unfoldable pub string_at : Bytes → Option (Bytes × Bytes)
unfolding read_string
string_at [] = none
string_at (ch ∷ input) = if nat_eqb ch 34 then read_string (suc (length input)) input else none

unfoldable pub parse_string : Bytes → Option (Bytes × Bytes)
unfolding skip_whitespace string_at
parse_string input = string_at (skip_whitespace input)
