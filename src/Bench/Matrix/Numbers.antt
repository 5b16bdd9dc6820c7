-- ===== src/Bench/Matrix/Numbers.antt =====
-- Numbers that are written out, as `ParseUnsigned` reads them and `SkipValue` passes over them.
use distributed_cache.Prelude.{
  ℕ, ◌+◌, ◌-◌, ◌*◌, ◌/◌, ◌^◌, ◌<◌, ◌≤◌, Bytes, is_empty, ltb, ◌≡◌, refl, ap, ◌∙◌, Bool, true, false,
  not, none, some, [], ◌∷◌, ◌++◌, arith, Bool-cases, inl, inr, if◌then◌else◌,
}
use distributed_cache.Prelude.Decimal.{
  to_string, is_digit, ten_to, parse_digits, parse_digits-to_string,
}
use distributed_cache.Bench.Json.{is_space, skip_whitespace}
use distributed_cache.Bench.Reader.{
  is_number_mark, read_digits, whole_number, unsigned_at, parse_unsigned,
}
use distributed_cache.Bench.Matrix.Documents.{IsFraction, as_unsigned, print_number, Value}
use distributed_cache.Bench.Matrix.Shapes.{to_string_first}
use distributed_cache.Bench.Matrix.Tokens.{IsBlank, leaving, stops, skip_whitespace_here}

-- No digit follows.
abbrev pub no_digit : Bytes → Bool
no_digit [] = true
no_digit (ch ∷ rest) = not (is_digit ch)

parse_digits_mono : (value n : ℕ) (digits : Bytes) → parse_digits value digits ≡ some n → value ≤ n
unfolding parse_digits
parse_digits_mono value n [] e = ground (arith, e)
parse_digits_mono value n (c ∷ digits) e = elim (Bool-cases (is_digit c)) [
  | inl digit ↦
      let more = parse_digits_mono (10 * value + (c - 48)) n digits (ground (arith, digit, e)) in
      omega (arith, more)
  | inr other ↦ absurd (ground (arith, other, e))
]

-- The digits are read to their number, if it fits.
read_digits-parse_digits :
    (value n : ℕ) (digits rest : Bytes)
    → value < 2 ^ 64
    → parse_digits value digits ≡ some n
    → no_digit rest ≡ true
    → read_digits value (digits ++ rest) ≡ (if ltb n (2 ^ 64) then some (n, rest) else none)
unfolding read_digits parse_digits
read_digits-parse_digits value n [] [] h e s = ground (arith, e)
read_digits-parse_digits value n [] (c ∷ rest) h e s = ground (arith, e, s)
read_digits-parse_digits value n (c ∷ digits) rest h e s = elim (Bool-cases (is_digit c)) [
  | inr other ↦ absurd (ground (arith, other, e))
  | inl digit ↦
      let next = 10 * value + (c - 48) in
      let parsed : parse_digits next digits ≡ some n = ground (arith, digit, e) in
      let least = parse_digits_mono next n digits parsed in
      elim (Bool-cases (ltb ((2 ^ 64 - 1 - (c - 48)) / 10) value)) [
        | inl over ↦ ground (arith, digit, over, least)
        | inr fits ↦
            let same : value * 10 + (c - 48) ≡ next = omega arith in
            let ih =
              read_digits-parse_digits next n digits rest (ground (arith, digit, fits)) parsed s in
            rw (read_digits, digit, fits) (rw same ih)
      ]
]

-- A whole part, before anything but a digit.
read_digits-to_string :
    (whole : ℕ) (rest : Bytes)
    → whole < 10 * ten_to 19
    → no_digit rest ≡ true
    → read_digits 0 (to_string whole ++ rest)
      ≡ (if ltb whole (2 ^ 64) then some (whole, rest) else none)
read_digits-to_string whole rest h s =
    read_digits-parse_digits 0 whole (to_string whole) rest (omega arith)
      (parse_digits-to_string whole h) s

digit_no_space : (ch : ℕ) → is_digit ch ≡ true → is_space ch ≡ false
unfolding is_space
digit_no_space ch e = ground (arith, e)

whole_number-print :
    (whole : ℕ) (more rest : Bytes)
    → IsFraction more
    → stops rest ≡ true
    → whole_number (some (whole, more ++ rest))
      ≡ leaving rest (if is_empty more then some whole else none)
unfolding whole_number leaving
whole_number-print whole [] [] f s = refl
whole_number-print whole [] (c ∷ rest) f s = ground (arith, s)
whole_number-print whole (c ∷ more) rest f s = rw (whole_number, f.0) refl

fraction_no_digit :
    (more rest : Bytes) → IsFraction more → stops rest ≡ true → no_digit (more ++ rest) ≡ true
unfolding is_number_mark
fraction_no_digit [] [] f s = refl
fraction_no_digit [] (c ∷ rest) f s = ground (arith, s)
fraction_no_digit (c ∷ more) rest f s = ground (arith, f.0)

unsigned_at_digit :
    (input others : Bytes) (first : ℕ)
    → input ≡ first ∷ others
    → is_digit first ≡ true
    → unsigned_at input ≡ whole_number (read_digits 0 input)
unfolding unsigned_at
unsigned_at_digit input others first e d = rw e (rw (unsigned_at, d) refl)

fitting_number :
    (whole : ℕ) (more rest : Bytes)
    → IsFraction more
    → stops rest ≡ true
    → whole_number (if ltb whole (2 ^ 64) then some (whole, more ++ rest) else none)
      ≡ leaving rest (as_unsigned (Value.number false whole more))
unfolding whole_number leaving as_unsigned
fitting_number whole [] rest f s = ground (arith, whole_number-print whole [] rest f s)
fitting_number whole (c ∷ more) rest f s =
    ground (arith, whole_number-print whole (c ∷ more) rest f s)

-- The whole parts that `ParseUnsigned` accepts are those below 2^64, without a sign and without a fraction.
pub parse_unsigned-print_number :
    (negative : Bool) (whole : ℕ) (more spaces rest : Bytes)
    → whole < 10 * ten_to 19
    → IsFraction more
    → IsBlank spaces
    → stops rest ≡ true
    → parse_unsigned (spaces ++ print_number negative whole more rest)
      ≡ leaving rest (as_unsigned (Value.number negative whole more))
unfolding parse_unsigned print_number as_unsigned is_space unsigned_at leaving
parse_unsigned-print_number true whole more spaces rest h f b s =
    let at_sign = skip_whitespace_here spaces 45 (to_string whole ++ (more ++ rest)) b refl in
    rw (parse_unsigned, at_sign) refl
parse_unsigned-print_number false whole more spaces rest h f b s =
    let digits = to_string whole ++ (more ++ rest) in
    let (first, others, same, digit) = to_string_first whole (more ++ rest) in
    let here = skip_whitespace_here spaces first others b (digit_no_space first digit) in
    let at_digits : skip_whitespace (spaces ++ digits) ≡ digits = rw same here in
    let read =
      unsigned_at_digit digits others first same digit
      ∙ ap whole_number
          (read_digits-to_string whole (more ++ rest) h (fraction_no_digit more rest f s)) in
    let all = whole_number-print whole more rest f s in
    rw (parse_unsigned, at_digits) (read ∙ fitting_number whole more rest f s)
