-- ===== src/Bench/Json/Fuel.antt =====
-- The fuel of `ParseString` is enough: more of it changes nothing.
use distributed_cache.Prelude.{
  ℕ, zero, suc, ◌+◌, ◌-◌, ◌*◌, ◌<◌, ◌≤◌, Bytes, nat_eqb, ltb, leb, ◌≡◌, refl, true, ◌&&◌, ◌||◌,
  Option, none, some, [], ◌∷◌, length, arith, Bool-cases, Option-cases, inl, inr,
}
use distributed_cache.Bench.Json.{
  hex_digit, hex_digits, parse_hex4, append_utf8, pushed, low_surrogate, parse_unicode_escape,
  parse_escape, before, read_string, skip_whitespace, string_at, parse_string, consume_at, consume,
}

-- What is left is not longer.
abbrev pub Shrinks {ℓ} : {A : Type ℓ} → ℕ → Option (A × Bytes) → Type 0
Shrinks n none = Unit
Shrinks n (some (a, rest)) = length rest ≤ n

hex_digits-Shrinks :
    (n left value : ℕ) (input : Bytes) → length input ≤ n → Shrinks n (hex_digits left value input)
unfolding hex_digits
hex_digits-Shrinks n zero value input l = l
hex_digits-Shrinks n (suc left) value [] l = tt
hex_digits-Shrinks n (suc left) value (ch ∷ rest) l = elim (Option-cases (hex_digit ch)) [
  | inl out ↦ rw (hex_digits, out) tt
  | inr (digit, found) ↦
      rw (hex_digits, found) (hex_digits-Shrinks n left (value * 16 + digit) rest (omega arith))
]

parse_hex4-Shrinks : (n : ℕ) (input : Bytes) → length input ≤ n → Shrinks n (parse_hex4 input)
unfolding parse_hex4
parse_hex4-Shrinks n input l = elim (Bool-cases (ltb (length input) 4)) [
  | inl short ↦ rw (parse_hex4, short) tt
  | inr long ↦ rw (parse_hex4, long) (hex_digits-Shrinks n 4 0 input l)
]

pushed-Shrinks :
    (n codepoint : ℕ) (rest : Bytes) → length rest ≤ n → Shrinks n (pushed codepoint rest)
unfolding pushed
pushed-Shrinks n codepoint rest l = elim (Option-cases (append_utf8 codepoint)) [
  | inl out ↦ rw (pushed, out) tt
  | inr (bytes, found) ↦ rw (pushed, found) l
]

low_surrogate-Shrinks :
    (n high : ℕ) (input : Bytes) → length input ≤ n → Shrinks n (low_surrogate high input)
unfolding low_surrogate
low_surrogate-Shrinks n high [] l = tt
low_surrogate-Shrinks n high (a ∷ []) l = tt
low_surrogate-Shrinks n high (a ∷ b ∷ input) l = elim (Bool-cases (ltb (length input) 4)) [
  | inl short ↦ rw (low_surrogate, short) tt
  | inr long ↦ elim (Bool-cases (nat_eqb a 92 && nat_eqb b 117)) [
    | inr other ↦ rw (low_surrogate, long, other) tt
    | inl again ↦ elim (Option-cases (hex_digits 4 0 input)) [
      | inl out ↦ rw (low_surrogate, long, again, out) tt
      | inr ((low, rest), found) ↦
          let s = hex_digits-Shrinks n 4 0 input (omega arith) in
          let shorter : length rest ≤ n = rw found at s in
          rw (low_surrogate, long, again, found)
            (elim (Bool-cases (ltb low 56320 || ltb 57343 low)) [
              | inl outside ↦ rw outside tt
              | inr inside ↦
                  rw inside
                    (pushed-Shrinks n (65536 + (high - 55296) * 1024 + (low - 56320)) rest shorter)
            ])
    ]
  ]
]

parse_unicode_escape-Shrinks :
    (n : ℕ) (input : Bytes) → length input ≤ n → Shrinks n (parse_unicode_escape input)
unfolding parse_unicode_escape
parse_unicode_escape-Shrinks n input l = elim (Option-cases (parse_hex4 input)) [
  | inl out ↦ rw (parse_unicode_escape, out) tt
  | inr ((codepoint, rest), found) ↦
      let s = parse_hex4-Shrinks n input l in
      let shorter : length rest ≤ n = rw found at s in
      rw (parse_unicode_escape, found)
        (elim (Bool-cases (leb 55296 codepoint && leb codepoint 56319)) [
          | inl high ↦ rw high (low_surrogate-Shrinks n codepoint rest shorter)
          | inr other ↦ rw other (elim (Bool-cases (leb 56320 codepoint && leb codepoint 57343)) [
            | inl low ↦ rw low tt
            | inr alone ↦ rw alone (pushed-Shrinks n codepoint rest shorter)
          ])
        ])
]

parse_escape-Shrinks : (n : ℕ) (input : Bytes) → length input ≤ n → Shrinks n (parse_escape input)
unfolding parse_escape
parse_escape-Shrinks n [] l = tt
parse_escape-Shrinks n (esc ∷ rest) l =
    ground (arith, parse_unicode_escape-Shrinks n rest (omega arith))

-- The loop of `ParseString` does not depend on its fuel, where that is more than the bytes that are left,
-- as it is in `ParseString`: on every input it ends by itself, with a text or a refusal.
pub read_string_enough :
    (fuel fuel' : ℕ) (input : Bytes)
    → length input < fuel
    → length input < fuel'
    → read_string fuel input ≡ read_string fuel' input
unfolding read_string
read_string_enough zero fuel' input l l' = absurd (omega arith)
read_string_enough (suc fuel) zero input l l' = absurd (omega arith)
read_string_enough (suc fuel) (suc fuel') [] l l' = refl
read_string_enough (suc fuel) (suc fuel') (ch ∷ input) l l' =
    elim (Option-cases (parse_escape input)) [
      | inl out ↦
          ground (arith, out, read_string_enough fuel fuel' input (omega arith) (omega arith))
      | inr ((bytes, rest), found) ↦
          let s = parse_escape-Shrinks (length input) input (omega arith) in
          let shorter : length rest ≤ length input = rw found at s in
          ground (
            arith,
            found,
            read_string_enough fuel fuel' input (omega arith) (omega arith),
            read_string_enough fuel fuel' rest (omega arith) (omega arith),
          )
    ]

before-Shrinks :
    (n : ℕ) (bytes : Bytes) (r : Option (Bytes × Bytes)) → Shrinks n r → Shrinks n (before bytes r)
unfolding before
before-Shrinks n bytes none h = tt
before-Shrinks n bytes (some (text, rest)) h = h

read_string-Shrinks :
    (n fuel : ℕ) (input : Bytes) → length input ≤ n → Shrinks n (read_string fuel input)
unfolding read_string
read_string-Shrinks n zero input l = tt
read_string-Shrinks n (suc fuel) [] l = tt
read_string-Shrinks n (suc fuel) (ch ∷ input) l = elim (Bool-cases (nat_eqb ch 34)) [
  | inl quote ↦ rw (read_string, quote) (omega arith)
  | inr other ↦ elim (Bool-cases (nat_eqb ch 92)) [
    | inr raw ↦
        let more = read_string-Shrinks n fuel input (omega arith) in
        rw (read_string, other, raw)
          (elim (Bool-cases (ltb ch 32)) [
            | inl control ↦ rw control tt
            | inr plain ↦ rw plain (before-Shrinks n (ch ∷ []) (read_string fuel input) more)
          ])
    | inl backslash ↦ elim (Option-cases (parse_escape input)) [
      | inl out ↦ rw (read_string, other, backslash, out) tt
      | inr ((bytes, rest), found) ↦
          let s = parse_escape-Shrinks n input (omega arith) in
          let shorter : length rest ≤ n = rw found at s in
          rw (read_string, other, backslash, found)
            (before-Shrinks n bytes (read_string fuel rest)
              (read_string-Shrinks n fuel rest shorter))
    ]
  ]
]

pub skip_whitespace-length : (input : Bytes) → length (skip_whitespace input) ≤ length input
unfolding skip_whitespace
skip_whitespace-length [] = omega arith
skip_whitespace-length (ch ∷ input) = ground (arith, skip_whitespace-length input)

string_at-Shrinks : (n : ℕ) (input : Bytes) → length input ≤ n → Shrinks n (string_at input)
unfolding string_at
string_at-Shrinks n [] l = tt
string_at-Shrinks n (ch ∷ input) l = elim (Bool-cases (nat_eqb ch 34)) [
  | inl quote ↦
      rw (string_at, quote) (read_string-Shrinks n (suc (length input)) input (omega arith))
  | inr other ↦ rw (string_at, other) tt
]

pub parse_string-Shrinks :
    (n : ℕ) (input : Bytes) → length input ≤ n → Shrinks n (parse_string input)
unfolding parse_string
parse_string-Shrinks n input l =
    string_at-Shrinks n (skip_whitespace input) (omega (arith, skip_whitespace-length input))

consume_at-length :
    (expected : ℕ) (input : Bytes)
    → (length (consume_at expected input).1 ≤ length input)
      × ((consume_at expected input).0 ≡ true → length (consume_at expected input).1 < length input)
unfolding consume_at
consume_at-length expected [] = (omega arith, λ e. absurd cc)
consume_at-length expected (ch ∷ rest) = elim (Bool-cases (nat_eqb ch expected)) [
  | inl same ↦ rw (consume_at, same) (omega arith, λ e. omega arith)
  | inr other ↦ rw (consume_at, other) (omega arith, λ e. absurd cc)
]

-- A character that is there is taken.
pub consume-length :
    (expected : ℕ) (input : Bytes) → length (consume expected input).1 ≤ length input
unfolding consume
consume-length expected input =
    omega
      (arith, (consume_at-length expected (skip_whitespace input)).0, skip_whitespace-length input)

pub consume_taken :
    (expected : ℕ) (input : Bytes)
    → (consume expected input).0 ≡ true
    → length (consume expected input).1 < length input
unfolding consume
consume_taken expected input e =
    omega (
      arith,
      (consume_at-length expected (skip_whitespace input)).1 e,
      skip_whitespace-length input,
    )
