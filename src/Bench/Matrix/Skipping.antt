-- ===== src/Bench/Matrix/Skipping.antt =====
-- `SkipValue` passes over every document that is written out.
use distributed_cache.Prelude.{
  ℕ, zero, suc, ◌<◌, ◌≤◌, Bytes, is_empty, ◌≡◌, refl, sym, ap, ◌∙◌, Bool, true, false, some, [],
  ◌∷◌, ◌++◌, append_assoc, length, length-append, All, All-append, All-mono, arith,
}
use distributed_cache.Prelude.Decimal.{
  to_string, is_digit, AllDigits, to_string-AllDigits, to_string-nonempty,
}
use distributed_cache.Bench.Json.{is_space, skip_whitespace, consume, consume_at}
use distributed_cache.Bench.Json.Escaping.{parse_string-json_escape_string}
use distributed_cache.Bench.Reader.{
  Skipped, discard, skip_number, skip_scalar, skip_array, skip_member, skip_object, skip_at,
  skip_nested, skip_value,
}
use distributed_cache.Bench.Matrix.Documents.{
  ◌+>◌, Value, null, boolean, number, text, array, object, Values, no_value, value, Members,
  no_member, member, size, values_size, members_size, is_number_char, IsFraction, IsJson, AreJson,
  HaveJson, print_text, print_number, print_value,
}
use distributed_cache.Bench.Matrix.Tokens.{
  IsBlank, leaving, fold_values, fold_members, stops, skip_whitespace_here, read_first_closed,
  parse_key-print_text,
}
use distributed_cache.Bench.Matrix.Shapes.{value-Start, value_length}
use distributed_cache.Bench.Matrix.Items.{print_member, read_first-values, read_first-members}

skip_number_past :
    (more rest : Bytes)
    → All (λ c. is_number_char c ≡ true) more
    → stops rest ≡ true
    → skip_number (more ++ rest) ≡ rest
unfolding skip_number
skip_number_past [] [] a s = refl
skip_number_past [] (c ∷ rest) a s = ground (arith, s)
skip_number_past (c ∷ more) rest a s = rw (skip_number, a.0) (skip_number_past more rest a.1 s)

fraction_chars : (more : Bytes) → IsFraction more → All (λ c. is_number_char c ≡ true) more
fraction_chars [] f = tt
fraction_chars (c ∷ more) f = (ground (arith, f.0), f.1)

number_chars :
    (digits more : Bytes)
    → AllDigits digits
    → IsFraction more
    → All (λ c. is_number_char c ≡ true) (digits ++ more)
number_chars digits more d f =
    All-append (λ c. is_number_char c ≡ true) digits more
      (All-mono (λ c. is_digit c ≡ true) (λ c. is_number_char c ≡ true) digits
        (λ c e. ground (arith, e)) d)
      (fraction_chars more f)

skip_at_digit :
    (skip : Bytes → Skipped) (ch : ℕ) (input : Bytes)
    → is_digit ch ≡ true
    → skip_at skip (ch ∷ input) ≡ some (tt, skip_number input)
unfolding skip_at skip_scalar
skip_at_digit skip ch input e = ground (arith, e)

skip_at_digits :
    (skip : Bytes → Skipped) (digits more rest : Bytes)
    → is_empty digits ≡ false
    → AllDigits digits
    → IsFraction more
    → stops rest ≡ true
    → skip_at skip (digits ++ (more ++ rest)) ≡ some (tt, rest)
skip_at_digits skip [] more rest e d f s = absurd (ground arith)
skip_at_digits skip (c ∷ digits) more rest e d f s =
    skip_at_digit skip c (digits ++ (more ++ rest)) d.0
    ∙ ap (λ left. some (tt, left))
        (ap skip_number (sym (append_assoc digits more rest))
          ∙ skip_number_past (digits ++ more) rest (number_chars digits more d.1 f) s)

skip_at-print_number :
    (skip : Bytes → Skipped) (negative : Bool) (whole : ℕ) (more rest : Bytes)
    → IsFraction more
    → stops rest ≡ true
    → skip_at skip (print_number negative whole more rest) ≡ some (tt, rest)
unfolding print_number skip_at skip_scalar
skip_at-print_number skip true whole more rest f s =
    ap (λ left. some (tt, left))
      (ap skip_number (sym (append_assoc (to_string whole) more rest))
        ∙ skip_number_past (to_string whole ++ more) rest
            (number_chars (to_string whole) more (to_string-AllDigits whole) f) s)
skip_at-print_number skip false whole more rest f s =
    skip_at_digits skip (to_string whole) more rest (to_string-nonempty whole)
      (to_string-AllDigits whole) f s

-- Nothing is kept, so nothing is refused.
fold_values_kept : (vs : Values) → fold_values (λ s v. some s) tt vs ≡ some (tt {0})
unfolding fold_values
fold_values_kept no_value = refl
fold_values_kept (value v vs) = fold_values_kept vs

fold_members_kept : (ms : Members) → fold_members (λ key s v. some s) tt ms ≡ some (tt {0})
unfolding fold_members
fold_members_kept no_member = refl
fold_members_kept (member key v ms) = fold_members_kept ms

module _ (gap : Bytes → Bytes) (blank : (r : Bytes) → IsBlank (gap r)) where
  -- Whitespace before a value.
  pub at_value :
      (spaces rest : Bytes) (v : Value)
      → IsBlank spaces
      → skip_whitespace (spaces ++ print_value gap v rest) ≡ print_value gap v rest
  at_value spaces rest v b =
      let start = value-Start gap v rest in
      rw start.same (skip_whitespace_here spaces start.first start.others b start.no_space)

  nested_at :
      (fuel : ℕ) (spaces rest : Bytes) (v : Value)
      → IsBlank spaces
      → skip_at (skip_nested fuel) (print_value gap v rest) ≡ some (tt, rest)
      → skip_nested (suc fuel) (spaces ++ print_value gap v rest) ≡ some (tt, rest)
  unfolding skip_nested
  nested_at fuel spaces rest v b e = rw (skip_nested, at_value spaces rest v b) e

  -- Where values are nested less deep, and skipped.
  module _ (skip : Bytes → Skipped) (n : ℕ)
      (skips : (v : Value) (spaces rest : Bytes)
        → size v < n
        → IsJson v
        → IsBlank spaces
        → stops rest ≡ true
        → skip (spaces ++ print_value gap v rest) ≡ some (tt, rest)) where
    skip_array-print :
        (vs : Values) (rest : Bytes)
        → values_size vs ≤ n
        → AreJson vs
        → skip_at skip (print_value gap (array vs) rest) ≡ some (tt, rest)
    unfolding skip_at skip_array consume consume_at skip_whitespace is_space print_value leaving
    skip_array-print no_value rest l j = read_first_closed gap blank 93 (λ s b. skip b) tt rest refl
    skip_array-print (value v vs) rest l j =
        read_first-values gap blank (λ s b. skip b) (λ s w. some s) n
          (λ s w spaces r a c d e. skips w spaces r a c d e) tt v vs rest l j
        ∙ ap (leaving rest) (fold_values_kept (value v vs))

    skip_member-print :
        (key : Bytes) (v : Value) (spaces rest : Bytes)
        → size v < n
        → IsJson v
        → IsBlank spaces
        → stops rest ≡ true
        → skip_member skip tt (spaces ++ print_member gap blank key v rest) ≡ some (tt, rest)
    unfolding skip_member
    skip_member-print key v spaces rest l j b s =
        rw
          (skip_member, parse_key-print_text gap spaces key (gap +> print_value gap v rest) blank b)
          (skips v (gap (print_value gap v rest)) rest l j (blank (print_value gap v rest)) s)

    skip_object-print :
        (ms : Members) (rest : Bytes)
        → members_size ms ≤ n
        → HaveJson ms
        → skip_at skip (print_value gap (object ms) rest) ≡ some (tt, rest)
    unfolding skip_at skip_object consume consume_at skip_whitespace is_space print_value leaving
    skip_object-print no_member rest l j =
        read_first_closed gap blank 125 (skip_member skip) tt rest refl
    skip_object-print (member key v ms) rest l j =
        read_first-members gap blank (skip_member skip) (λ k s w. some s) n
          (λ k s w spaces r a c d e. skip_member-print k w spaces r a c d e) tt key v ms rest l j
        ∙ ap (leaving rest) (fold_members_kept (member key v ms))

  skip_at-print_value :
      (fuel : ℕ) (v : Value) (rest : Bytes)
      → size v ≤ fuel
      → IsJson v
      → stops rest ≡ true
      → skip_at (skip_nested fuel) (print_value gap v rest) ≡ some (tt, rest)
  unfolding size IsJson skip_at skip_scalar print_value print_text discard
  skip_at-print_value fuel null rest l j s = refl
  skip_at-print_value fuel (boolean true) rest l j s = refl
  skip_at-print_value fuel (boolean false) rest l j s = refl
  skip_at-print_value fuel (number negative whole more) rest l j s =
      skip_at-print_number (skip_nested fuel) negative whole more rest j.1 s
  skip_at-print_value fuel (text t) rest l j s =
      ap discard (parse_string-json_escape_string [] t rest tt)
  skip_at-print_value zero (array vs) rest l j s = absurd (omega arith)
  skip_at-print_value zero (object ms) rest l j s = absurd (omega arith)
  skip_at-print_value (suc fuel) (array vs) rest l j s =
      skip_array-print (skip_nested (suc fuel)) (suc fuel)
        (λ v spaces r a c b e.
          nested_at fuel spaces r v b (skip_at-print_value fuel v r (omega arith) c e))
        vs rest (omega arith) j
  skip_at-print_value (suc fuel) (object ms) rest l j s =
      skip_object-print (skip_nested (suc fuel)) (suc fuel)
        (λ v spaces r a c b e.
          nested_at fuel spaces r v b (skip_at-print_value fuel v r (omega arith) c e))
        ms rest (omega arith) j

  pub skip_value-print_value :
      (v : Value) (spaces rest : Bytes)
      → IsJson v
      → IsBlank spaces
      → stops rest ≡ true
      → skip_value (spaces ++ print_value gap v rest) ≡ some (tt, rest)
  unfolding skip_value
  skip_value-print_value v spaces rest j b s =
      let input = spaces ++ print_value gap v rest in
      let long : size v ≤ length input =
        omega (arith, value_length gap v rest, length-append spaces (print_value gap v rest)) in
      nested_at (length input) spaces rest v b (skip_at-print_value (length input) v rest long j s)
