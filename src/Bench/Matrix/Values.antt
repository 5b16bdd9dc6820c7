-- ===== src/Bench/Matrix/Values.antt =====
-- What the reader makes of the start of a value that is written out.
use distributed_cache.Prelude.{
  ℕ, Bytes, nat_eqb, ◌≡◌, refl, ap, ◌∙◌, Bool, true, false, none, [], ◌++◌, arith,
}
use distributed_cache.Prelude.Decimal.{to_string, is_digit}
use distributed_cache.Bench.Json.{consume_at, consume, string_at, parse_string}
use distributed_cache.Bench.Json.Escaping.{parse_string-json_escape_string}
use distributed_cache.Bench.Reader.{unsigned_at, parse_unsigned}
use distributed_cache.Bench.Matrix.Documents.{
  Value, null, boolean, number, text, array, object, no_value, value, no_member, member, IsJson,
  print_text, print_number, print_value, as_text, as_unsigned,
}
use distributed_cache.Bench.Matrix.Tokens.{IsBlank, leaving, stops}
use distributed_cache.Bench.Matrix.Shapes.{to_string_first}
use distributed_cache.Bench.Matrix.Numbers.{parse_unsigned-print_number}
use distributed_cache.Bench.Matrix.Skipping.{at_value}

-- At a digit.
string_at_digits : (whole : ℕ) (rest : Bytes) → string_at (to_string whole ++ rest) ≡ none
unfolding string_at
string_at_digits whole rest =
    let (first, others, same, digit) = to_string_first whole rest in
    let no_quote : nat_eqb first 34 ≡ false = ground (arith, digit) in
    rw same (rw (string_at, no_quote) refl)

consume_at_digits :
    (expected whole : ℕ) (rest : Bytes)
    → is_digit expected ≡ false
    → (consume_at expected (to_string whole ++ rest)).0 ≡ false
unfolding consume_at
consume_at_digits expected whole rest e =
    let (first, others, same, digit) = to_string_first whole rest in
    rw same (ground (arith, digit, e))

-- The values that an opening brace starts, and those that an opening bracket starts.
abbrev pub is_object : Value → Bool
is_object (object ms) = true
is_object _ = false

abbrev pub is_array : Value → Bool
is_array (array vs) = true
is_array _ = false

module _ (gap : Bytes → Bytes) (blank : (r : Bytes) → IsBlank (gap r)) where
  string_at-print_value :
      (v : Value) (rest : Bytes) → string_at (print_value gap v rest) ≡ leaving rest (as_text v)
  unfolding string_at leaving as_text print_value print_number print_text parse_string
  string_at-print_value null rest = refl
  string_at-print_value (boolean true) rest = refl
  string_at-print_value (boolean false) rest = refl
  string_at-print_value (number true whole more) rest = refl
  string_at-print_value (number false whole more) rest = string_at_digits whole (more ++ rest)
  string_at-print_value (text t) rest = parse_string-json_escape_string [] t rest tt
  string_at-print_value (array no_value) rest = refl
  string_at-print_value (array (value v vs)) rest = refl
  string_at-print_value (object no_member) rest = refl
  string_at-print_value (object (member key v ms)) rest = refl

  pub parse_string-print_value :
      (v : Value) (spaces rest : Bytes)
      → IsBlank spaces
      → parse_string (spaces ++ print_value gap v rest) ≡ leaving rest (as_text v)
  unfolding parse_string
  parse_string-print_value v spaces rest b =
      ap string_at (at_value gap blank spaces rest v b) ∙ string_at-print_value v rest

  -- Before anything but a number.
  no_unsigned :
      (v : Value) (spaces rest : Bytes)
      → IsBlank spaces
      → unsigned_at (print_value gap v rest) ≡ none
      → as_unsigned v ≡ none
      → parse_unsigned (spaces ++ print_value gap v rest) ≡ leaving rest (as_unsigned v)
  unfolding parse_unsigned leaving
  no_unsigned v spaces rest b e a = rw a (ap unsigned_at (at_value gap blank spaces rest v b) ∙ e)

  pub parse_unsigned-print_value :
      (v : Value) (spaces rest : Bytes)
      → IsJson v
      → IsBlank spaces
      → stops rest ≡ true
      → parse_unsigned (spaces ++ print_value gap v rest) ≡ leaving rest (as_unsigned v)
  unfolding IsJson as_unsigned print_value print_text unsigned_at
  parse_unsigned-print_value null spaces rest j b s = no_unsigned null spaces rest b refl refl
  parse_unsigned-print_value (boolean true) spaces rest j b s =
      no_unsigned (boolean true) spaces rest b refl refl
  parse_unsigned-print_value (boolean false) spaces rest j b s =
      no_unsigned (boolean false) spaces rest b refl refl
  parse_unsigned-print_value (number negative whole more) spaces rest j b s =
      parse_unsigned-print_number negative whole more spaces rest j.0 j.1 b s
  parse_unsigned-print_value (text t) spaces rest j b s =
      no_unsigned (text t) spaces rest b refl refl
  parse_unsigned-print_value (array no_value) spaces rest j b s =
      no_unsigned (array no_value) spaces rest b refl refl
  parse_unsigned-print_value (array (value v vs)) spaces rest j b s =
      no_unsigned (array (value v vs)) spaces rest b refl refl
  parse_unsigned-print_value (object no_member) spaces rest j b s =
      no_unsigned (object no_member) spaces rest b refl refl
  parse_unsigned-print_value (object (member key v ms)) spaces rest j b s =
      no_unsigned (object (member key v ms)) spaces rest b refl refl

  pub consume_open :
      (expected : ℕ) (v : Value) (spaces rest : Bytes)
      → IsBlank spaces
      → consume expected (spaces ++ print_value gap v rest)
        ≡ consume_at expected (print_value gap v rest)
  unfolding consume
  consume_open expected v spaces rest b =
      ap (consume_at expected) (at_value gap blank spaces rest v b)

  -- No other value starts with the character.
  pub no_object :
      (v : Value) (rest : Bytes)
      → is_object v ≡ false
      → (consume_at 123 (print_value gap v rest)).0 ≡ false
  unfolding consume_at print_value print_number print_text
  no_object null rest e = refl
  no_object (boolean true) rest e = refl
  no_object (boolean false) rest e = refl
  no_object (number true whole more) rest e = refl
  no_object (number false whole more) rest e = consume_at_digits 123 whole (more ++ rest) refl
  no_object (text t) rest e = refl
  no_object (array no_value) rest e = refl
  no_object (array (value v vs)) rest e = refl
  no_object (object ms) rest e = absurd cc

  pub no_array :
      (v : Value) (rest : Bytes)
      → is_array v ≡ false
      → (consume_at 91 (print_value gap v rest)).0 ≡ false
  unfolding consume_at print_value print_number print_text
  no_array null rest e = refl
  no_array (boolean true) rest e = refl
  no_array (boolean false) rest e = refl
  no_array (number true whole more) rest e = refl
  no_array (number false whole more) rest e = consume_at_digits 91 whole (more ++ rest) refl
  no_array (text t) rest e = refl
  no_array (array vs) rest e = absurd cc
  no_array (object no_member) rest e = refl
  no_array (object (member key v ms)) rest e = refl
