-- ===== src/Bench/Reader.antt =====
-- src/bench/cache_bench.cpp: the values of `JsonReader` that are not strings: numbers, and what `SkipValue`
-- passes over. The proofs are in the modules below.
pub mod Loops
pub mod Fuel
use distributed_cache.Prelude.{
  ℕ, zero, suc, ◌+◌, ◌-◌, ◌*◌, ◌/◌, ◌^◌, Bytes, is_empty, bytes_eqb, nat_eqb, ltb, codes, Bool,
  true, false, ◌&&◌, ◌||◌, Option, none, some, [], ◌∷◌, length, take, drop, if◌then◌else◌,
}
use distributed_cache.Prelude.Decimal.{is_digit}
use distributed_cache.Bench.Json.{skip_whitespace, consume, parse_string}

-- What follows the whole part of a number that is no whole number.
unfoldable pub is_number_mark : ℕ → Bool
is_number_mark ch =
    nat_eqb ch 46 || nat_eqb ch 101 || nat_eqb ch 69 || nat_eqb ch 45 || nat_eqb ch 43

-- The digits of `ParseUnsigned`: `none` if they do not fit into 64 bits.
unfoldable pub read_digits : ℕ → Bytes → Option (ℕ × Bytes)
read_digits value [] = some (value, [])
read_digits value (ch ∷ rest) =
    let more = read_digits (value * 10 + (ch - 48)) rest in
    if is_digit ch
    then if ltb ((2 ^ 64 - 1 - (ch - 48)) / 10) value then none else more
    else some (value, ch ∷ rest)

-- What is not a whole number is refused.
unfoldable pub whole_number : Option (ℕ × Bytes) → Option (ℕ × Bytes)
unfolding is_number_mark
whole_number none = none
whole_number (some (value, [])) = some (value, [])
whole_number (some (value, ch ∷ rest)) = if is_number_mark ch then none else some (value, ch ∷ rest)

unfoldable pub unsigned_at : Bytes → Option (ℕ × Bytes)
unfolding read_digits whole_number
unsigned_at [] = none
unsigned_at (ch ∷ input) = if is_digit ch then whole_number (read_digits 0 (ch ∷ input)) else none

-- `ParseUnsigned`: the number, and what is left; `none` is `false`.
unfoldable pub parse_unsigned : Bytes → Option (ℕ × Bytes)
unfolding skip_whitespace unsigned_at
parse_unsigned input = unsigned_at (skip_whitespace input)

-- The loops of the reader, on fuel: an item, and after it the closing character, or a comma and a round
-- more. The state is what the items change.
module _ {ℓ} {S : Type ℓ} (close : ℕ) (item : S → Bytes → Option (S × Bytes)) where
  unfoldable pub read_items : ℕ → S → Bytes → Option (S × Bytes)
  unfolding consume
  read_items zero s input = none
  read_items (suc fuel) s input = elim (item s input) [
    | none ↦ none
    | some (s', rest) ↦
        let (closed, left) = consume close rest in
        let (more, next) = consume 44 left in
        elim closed [
          | true ↦ some (s', left)
          | false ↦ elim more [ true ↦ read_items fuel s' next | false ↦ none ]
        ]
  ]

  -- After the opening character, where the first item or the closing character stands.
  unfoldable pub read_first : S → Bytes → Option (S × Bytes)
  unfolding consume read_items
  read_first s input =
      let (closed, left) = consume close input in
      elim closed [ true ↦ some (s, left) | false ↦ read_items (suc (length left)) s left ]

-- A key and the colon after it.
unfoldable pub parse_key : Bytes → Option (Bytes × Bytes)
unfolding parse_string consume
parse_key input = elim (parse_string input) [
  | none ↦ none
  | some (key, rest) ↦
      let (colon, left) = consume 58 rest in if colon then some (key, left) else none
]

-- A value that is skipped.
abbrev pub Skipped : Type 0
Skipped = Option (Unit {0} × Bytes)

-- Nothing is kept of what is read.
unfoldable pub discard {ℓ} : {A : Type ℓ} → Option (A × Bytes) → Skipped
discard none = none
discard (some (a, rest)) = some (tt, rest)

-- The rest of a number, of any form.
unfoldable pub skip_number : Bytes → Bytes
unfolding is_number_mark
skip_number [] = []
skip_number (ch ∷ input) =
    let rest = skip_number input in if is_digit ch || is_number_mark ch then rest else ch ∷ input

-- The tests for a name or a number.
unfoldable pub skip_scalar : ℕ → Bytes → Skipped
unfolding skip_number
skip_scalar ch input =
    if nat_eqb ch 116 && bytes_eqb (take 4 (ch ∷ input)) (codes "true")
    then some (tt, drop 4 (ch ∷ input))
    else if nat_eqb ch 102 && bytes_eqb (take 5 (ch ∷ input)) (codes "false")
    then some (tt, drop 5 (ch ∷ input))
    else if nat_eqb ch 110 && bytes_eqb (take 4 (ch ∷ input)) (codes "null")
    then some (tt, drop 4 (ch ∷ input))
    else if nat_eqb ch 45 || is_digit ch
    then some (tt, skip_number input)
    else none

-- `SkipArray`, `SkipObject` and `SkipValue`, where `skip` skips the values within.
module _ (skip : Bytes → Skipped) where
  unfoldable pub skip_array : Bytes → Skipped
  unfolding consume read_first
  skip_array input =
      let (opened, left) = consume 91 input in
      elim opened [ true ↦ read_first 93 (λ s b. skip b) tt left | false ↦ none ]

  -- A round of the loop of `SkipObject`, until its value is read.
  unfoldable pub skip_member : Unit {0} → Bytes → Skipped
  unfolding parse_key
  skip_member s input = elim (parse_key input) [ none ↦ none | some (key, rest) ↦ skip rest ]

  unfoldable pub skip_object : Bytes → Skipped
  unfolding consume read_first skip_member
  skip_object input =
      let (opened, left) = consume 123 input in
      elim opened [ true ↦ read_first 125 skip_member tt left | false ↦ none ]

  unfoldable pub skip_at : Bytes → Skipped
  unfolding discard parse_string skip_object skip_array skip_scalar
  skip_at [] = none
  skip_at (ch ∷ input) =
      if nat_eqb ch 34
      then discard (parse_string (ch ∷ input))
      else if nat_eqb ch 123
      then skip_object (ch ∷ input)
      else if nat_eqb ch 91
      then skip_array (ch ∷ input)
      else skip_scalar ch input

-- `SkipValue` on fuel: what values are nested in is left at most as often as there are bytes.
unfoldable pub skip_nested : ℕ → Bytes → Skipped
unfolding skip_whitespace skip_at
skip_nested zero input = none
skip_nested (suc fuel) input = skip_at (skip_nested fuel) (skip_whitespace input)

unfoldable pub skip_value : Bytes → Skipped
unfolding skip_nested
skip_value input = skip_nested (suc (length input)) input

-- `AtEnd`
unfoldable pub at_end : Bytes → Bool
unfolding skip_whitespace
at_end input = is_empty (skip_whitespace input)
