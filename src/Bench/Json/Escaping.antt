-- ===== src/Bench/Json/Escaping.antt =====
-- Whatever is escaped is read back.
use distributed_cache.Prelude.{
  ℕ, zero, suc, ◌+◌, ◌*◌, ◌/◌, ◌%◌, ◌<◌, ◌≤◌, Bytes, nat_eqb, nat_eqb_iff, ltb, ◌≡◌, refl, ap, ◌∙◌,
  true, false, some, [], ◌∷◌, ◌++◌, append_assoc, length, length-append, All, arith, Bool-cases,
  inl, inr,
}
use distributed_cache.Bench.Json.{
  hex_char, escape_byte, json_escape_string, skip_whitespace, is_space, hex_digit, hex_digits,
  parse_hex4, append_utf8, pushed, parse_unicode_escape, parse_escape, before, read_string,
  string_at, parse_string,
}

by_cases : {A : Type 0} (ch c : ℕ) → (ch ≡ c → A) → (nat_eqb ch c ≡ false → A) → A
by_cases ch c same other = elim (Bool-cases (nat_eqb ch c)) [
  | inl e ↦ same ((nat_eqb_iff ch c).0 e)
  | inr e ↦ other e
]

hex_digit-hex_char : (n : ℕ) → n < 16 → hex_digit (hex_char n) ≡ some n
unfolding hex_digit hex_char
hex_digit-hex_char n h = ground arith

one_digit :
    (left value ch digit : ℕ) (rest : Bytes)
    → hex_digit ch ≡ some digit
    → hex_digits (suc left) value (ch ∷ rest) ≡ hex_digits left (value * 16 + digit) rest
unfolding hex_digits
one_digit left value ch digit rest e = rw (hex_digits, e) refl

parse_hex4-hex_char :
    (a b : ℕ) (rest : Bytes)
    → a < 16
    → b < 16
    → parse_hex4 (48 ∷ 48 ∷ hex_char a ∷ hex_char b ∷ rest) ≡ some (a * 16 + b, rest)
unfolding parse_hex4 hex_digit hex_digits
parse_hex4-hex_char a b rest h k =
    let long : ltb (suc (suc (suc (suc (length rest))))) 4 ≡ false = ground arith in
    rw (parse_hex4, long)
      (one_digit 3 0 48 0 (48 ∷ hex_char a ∷ hex_char b ∷ rest) refl
        ∙ one_digit 2 0 48 0 (hex_char a ∷ hex_char b ∷ rest) refl
        ∙ one_digit 1 0 (hex_char a) a (hex_char b ∷ rest) (hex_digit-hex_char a h)
        ∙ one_digit 0 (0 * 16 + a) (hex_char b) b rest (hex_digit-hex_char b k)
        ∙ ap (λ n. some (n, rest)) (omega arith))

-- A control character in four digits.
parse_unicode_escape-hex_char :
    (ch : ℕ) (rest : Bytes)
    → ch < 32
    → parse_unicode_escape (48 ∷ 48 ∷ hex_char (ch / 16) ∷ hex_char (ch % 16) ∷ rest)
      ≡ some (ch ∷ [], rest)
unfolding parse_unicode_escape pushed append_utf8
parse_unicode_escape-hex_char ch rest h =
    let digits = parse_hex4-hex_char (ch / 16) (ch % 16) rest (omega arith) (omega arith) in
    let value : ch / 16 * 16 + ch % 16 ≡ ch = omega arith in
    rw (parse_unicode_escape, digits, value) (ground arith)

read_string_control :
    (fuel ch : ℕ) (rest : Bytes)
    → ch < 32
    → read_string (suc fuel) (92 ∷ 117 ∷ 48 ∷ 48 ∷ hex_char (ch / 16) ∷ hex_char (ch % 16) ∷ rest)
      ≡ before (ch ∷ []) (read_string fuel rest)
unfolding read_string parse_escape
read_string_control fuel ch rest h =
    rw (read_string, parse_escape, parse_unicode_escape-hex_char ch rest h) refl

read_string_raw :
    (fuel ch : ℕ) (rest : Bytes)
    → nat_eqb ch 34 ≡ false
    → nat_eqb ch 92 ≡ false
    → ltb ch 32 ≡ false
    → read_string (suc fuel) (escape_byte ch ++ rest) ≡ before (ch ∷ []) (read_string fuel rest)
unfolding read_string escape_byte
read_string_raw fuel ch rest a b c =
    let itself : escape_byte ch ≡ ch ∷ [] = ground (arith, a, b, c) in
    rw (itself) (rw (read_string, a, b, c) refl)

-- A byte with a letter of its own.
read_string-escape_byte :
    (fuel ch : ℕ) (rest : Bytes)
    → read_string (suc fuel) (escape_byte ch ++ rest) ≡ before (ch ∷ []) (read_string fuel rest)
unfolding read_string escape_byte parse_escape
read_string-escape_byte fuel ch rest =
    by_cases ch 34 (λ e. rw e refl)
      (λ quote.
        by_cases ch 92 (λ e. rw e refl)
          (λ backslash.
            by_cases ch 8 (λ e. rw e refl)
              (λ b.
                by_cases ch 12 (λ e. rw e refl)
                  (λ f.
                    by_cases ch 10 (λ e. rw e refl)
                      (λ n.
                        by_cases ch 13 (λ e. rw e refl)
                          (λ r.
                            by_cases ch 9 (λ e. rw e refl)
                              (λ t. elim (Bool-cases (ltb ch 32)) [
                                | inl control ↦
                                    let escaped : escape_byte ch
                                        ≡ 92
                                          ∷ 117
                                          ∷ 48
                                          ∷ 48
                                          ∷ hex_char (ch / 16)
                                          ∷ hex_char (ch % 16)
                                          ∷ [] =
                                      rw (escape_byte, quote, backslash, b, f, n, r, t, control)
                                        refl in
                                    rw escaped
                                      (read_string_control fuel ch rest (ground (arith, control)))
                                | inr raw ↦ read_string_raw fuel ch rest quote backslash raw
                              ])))))))

read_string-json_escape_string :
    (fuel : ℕ) (text rest : Bytes)
    → length text < fuel
    → read_string fuel (json_escape_string text ++ 34 ∷ rest) ≡ some (text, rest)
unfolding read_string json_escape_string
read_string-json_escape_string zero text rest l = absurd (omega arith)
read_string-json_escape_string (suc fuel) [] rest l = refl
read_string-json_escape_string (suc fuel) (ch ∷ text) rest l =
    rw (append_assoc (escape_byte ch) (json_escape_string text) (34 ∷ rest)) (
      read_string-escape_byte fuel ch (json_escape_string text ++ 34 ∷ rest)
      ∙ ap (before (ch ∷ [])) (read_string-json_escape_string fuel text rest (omega arith)))

length-json_escape_string : (text : Bytes) → length text ≤ length (json_escape_string text)
unfolding json_escape_string escape_byte
length-json_escape_string [] = omega arith
length-json_escape_string (ch ∷ text) =
    let some_bytes : 1 ≤ length (escape_byte ch) = ground arith in
    omega (
      arith,
      some_bytes,
      length-append (escape_byte ch) (json_escape_string text),
      length-json_escape_string text,
    )

-- Any bytes between quotation marks, escaped by `JsonEscapeString`, are read back by `ParseString`, after
-- whitespace too, and whatever follows is left.
pub parse_string-json_escape_string :
    (spaces text rest : Bytes)
    → All (λ ch. is_space ch ≡ true) spaces
    → parse_string (spaces ++ 34 ∷ (json_escape_string text ++ 34 ∷ rest)) ≡ some (text, rest)
unfolding parse_string string_at skip_whitespace
parse_string-json_escape_string [] text rest s =
    read_string-json_escape_string (suc (length (json_escape_string text ++ 34 ∷ rest))) text rest (
      omega (
        arith,
        length-append (json_escape_string text) (34 ∷ rest),
        length-json_escape_string text,
      ))
parse_string-json_escape_string (ch ∷ spaces) text rest s =
    rw (parse_string, skip_whitespace, s.0) (parse_string-json_escape_string spaces text rest s.1)
