-- ===== src/Bench/Matrix/Shapes.antt =====
-- How a document that is written out starts, and how long it is.
use distributed_cache.Prelude.{
  ℕ, ◌+◌, ◌<◌, ◌≤◌, Bytes, nat_eqb, is_empty, ◌≡◌, refl, Bool, true, false, [], ◌∷◌, ◌++◌, length,
  length-append, arith,
}
use distributed_cache.Prelude.Decimal.{
  to_string, is_digit, AllDigits, to_string-AllDigits, to_string-nonempty,
}
use distributed_cache.Bench.Json.{is_space, json_escape_string}
use distributed_cache.Bench.Matrix.Documents.{
  ◌+>◌, Value, null, boolean, number, text, array, object, Values, no_value, value, Members,
  no_member, member, size, values_size, members_size, print_text, print_number, print_value,
  print_values, print_members,
}

-- The first character of a number without a sign is a digit.
pub to_string_first :
    (whole : ℕ) (rest : Bytes)
    → (first : ℕ) × (others : Bytes) × (to_string whole ++ rest ≡ first ∷ others)
      × (is_digit first ≡ true)
to_string_first whole rest =
    go (to_string whole) (to_string-nonempty whole) (to_string-AllDigits whole)
  where
    go :
        (digits : Bytes)
        → is_empty digits ≡ false
        → AllDigits digits
        → (first : ℕ) × (others : Bytes) × (digits ++ rest ≡ first ∷ others)
          × (is_digit first ≡ true)
    go [] e d = absurd (ground arith)
    go (c ∷ digits) e d = (c, digits ++ rest, refl, d.0)

-- A value starts with a character that ends no list.
pub record Start (input : Bytes) : Type 0 where
  pub first : ℕ
  pub others : Bytes
  pub same : input ≡ first ∷ others
  pub no_space : is_space first ≡ false
  pub no_bracket : nat_eqb first 93 ≡ false

starts_with :
    (first : ℕ) (others : Bytes)
    → is_space first ≡ false
    → nat_eqb first 93 ≡ false
    → Start (first ∷ others)
starts_with first others a b = record {
  first = first;
  others = others;
  same = refl;
  no_space = a;
  no_bracket = b;
}

number-Start : (whole : ℕ) (rest : Bytes) → Start (to_string whole ++ rest)
unfolding is_space
number-Start whole rest =
    let (first, others, same, digit) = to_string_first whole rest in
    record {
      first = first;
      others = others;
      same = same;
      no_space = ground (arith, digit);
      no_bracket = ground (arith, digit);
    }

module _ (gap : Bytes → Bytes) where
  pub value-Start : (v : Value) (rest : Bytes) → Start (print_value gap v rest)
  unfolding print_value print_number print_text is_space
  value-Start null rest = starts_with _ _ refl refl
  value-Start (boolean true) rest = starts_with _ _ refl refl
  value-Start (boolean false) rest = starts_with _ _ refl refl
  value-Start (number true whole more) rest = starts_with _ _ refl refl
  value-Start (number false whole more) rest = number-Start whole (more ++ rest)
  value-Start (text t) rest = starts_with _ _ refl refl
  value-Start (array no_value) rest = starts_with _ _ refl refl
  value-Start (array (value v vs)) rest = starts_with _ _ refl refl
  value-Start (object no_member) rest = starts_with _ _ refl refl
  value-Start (object (member key v ms)) rest = starts_with _ _ refl refl

  after_gap : (rest : Bytes) → length rest ≤ length (gap +> rest)
  after_gap rest = omega (arith, length-append (gap rest) rest)

  text_length : (t rest : Bytes) → length rest ≤ length (print_text t rest)
  unfolding print_text
  text_length t rest = omega (arith, length-append (json_escape_string t) (34 ∷ rest))

  number_length :
      (negative : Bool) (whole : ℕ) (more rest : Bytes)
      → length rest ≤ length (print_number negative whole more rest)
  unfolding print_number
  number_length true whole more rest =
      omega (arith, length-append (to_string whole) (more ++ rest), length-append more rest)
  number_length false whole more rest =
      omega (arith, length-append (to_string whole) (more ++ rest), length-append more rest)

  pub member_length :
      (key : Bytes) (v : Value) (rest : Bytes)
      → length (print_value gap v rest)
        ≤ length (print_text key (gap +> 58 ∷ (gap +> print_value gap v rest)))
  member_length key v rest = omega (
    arith,
    text_length key (gap +> 58 ∷ (gap +> print_value gap v rest)),
    length-append (gap (58 ∷ (gap +> print_value gap v rest)))
        (58 ∷ (gap +> print_value gap v rest)),
    length-append (gap (print_value gap v rest)) (print_value gap v rest),
  )

  -- A document has at least as many bytes as values.
  mutual
    unfolding print_value size

    pub value_length :
        (v : Value) (rest : Bytes) → size v + length rest ≤ length (print_value gap v rest)
    value_length null rest = omega arith
    value_length (boolean true) rest = omega arith
    value_length (boolean false) rest = omega arith
    value_length (number negative whole more) rest =
        omega (arith, number_length negative whole more rest)
    value_length (text t) rest = omega (arith, text_length t rest)
    value_length (array no_value) rest = omega (arith, length-append (gap (93 ∷ rest)) (93 ∷ rest))
    value_length (array (value v vs)) rest =
        let after = print_values gap vs rest in
        omega
          (arith, after_gap (print_value gap v after), value_length v after, values_length vs rest)
    value_length (object no_member) rest =
        omega (arith, length-append (gap (125 ∷ rest)) (125 ∷ rest))
    value_length (object (member key v ms)) rest =
        let after = print_members gap ms rest in
        let written = print_text key (gap +> 58 ∷ (gap +> print_value gap v after)) in
        omega (
          arith,
          after_gap written,
          member_length key v after,
          value_length v after,
          members_length ms rest,
        )

    pub values_length :
        (vs : Values) (rest : Bytes)
        → values_size vs + length rest < length (print_values gap vs rest)
    values_length no_value rest = omega (arith, length-append (gap (93 ∷ rest)) (93 ∷ rest))
    values_length (value v vs) rest =
        let after = print_values gap vs rest in
        omega (
          arith,
          length-append (gap (44 ∷ (gap +> print_value gap v after)))
              (44 ∷ (gap +> print_value gap v after)),
          after_gap (print_value gap v after),
          value_length v after,
          values_length vs rest,
        )

    pub members_length :
        (ms : Members) (rest : Bytes)
        → members_size ms + length rest < length (print_members gap ms rest)
    members_length no_member rest = omega (arith, length-append (gap (125 ∷ rest)) (125 ∷ rest))
    members_length (member key v ms) rest =
        let after = print_members gap ms rest in
        let written = print_text key (gap +> 58 ∷ (gap +> print_value gap v after)) in
        omega (
          arith,
          length-append (gap (44 ∷ (gap +> written))) (44 ∷ (gap +> written)),
          after_gap written,
          member_length key v after,
          value_length v after,
          members_length ms rest,
        )
