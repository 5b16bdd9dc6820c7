-- ===== src/Bench/Tests/Load.antt =====
-- The theorems on the scenario matrix, the set-up and the load of src/bench/cache_bench.cpp at concrete
-- inputs.
use distributed_cache.Prelude.{
  ℕ, ◌^◌, ◌+◌, ◌<◌, ◌≤◌, ltb, ◌≡◌, ◌≢◌, refl, true, false, codes, Bytes, none, some, List, [], ◌∷◌,
  length, All, arith, nat_eqb, inl, inr, Bool-cases, Result, returns, throws, invalid_argument,
  out_of_range, if◌then◌else◌,
}
use distributed_cache.Prelude.Decimal.{parse_digits, to_string}
use distributed_cache.Core.Store.{entries}
use distributed_cache.Bench.Json.{is_space, json_escape_string}
use distributed_cache.Bench.Matrix.Tokens.{IsBlank}
use distributed_cache.Bench.Reader.{at_end}
use distributed_cache.Bench.Tests.{nat_long_double}
use distributed_cache.Bench.Matrix.{parse_scenario_matrix}
use distributed_cache.Bench.Matrix.Documents.{
  Value, text, number, array, object, null, value, no_value, member, no_member, IsJson, print_value,
  as_text, as_unsigned, matrix_of, print_number, ◌+>◌,
}
use distributed_cache.Bench.Matrix.Meaning.{parse_scenario_matrix-print_value}
use distributed_cache.Bench.Setup.{Conversions, Plan, prepare, proceeds, exits}
use distributed_cache.Bench.Setup.Accepted.{IsReady, prepare-IsReady}
use distributed_cache.Bench.Load.{Draw, Measured, run_load}
use distributed_cache.Bench.Load.Hits.{run_load-IsHit}

-- Two scenarios, one with its members in another order, and one without a number of requests.
abbrev document : Value
document = object (
    member (codes "scenarios")
      (array (
        value
          (object (
            member (codes "requests") (number false 25 [])
              (member (codes "name") (text (codes "reads")) no_member)))
          (value
            (object (
              member (codes "tags") (array (value null no_value))
                (member (codes "name") (text (codes "writes")) no_member)))
            no_value)))
      no_member)

-- No whitespace before a colon and a comma, a new line and an indentation at the end, and a space elsewhere.
abbrev spacing : Bytes → Bytes
spacing [] = []
spacing (ch ∷ rest) =
    if nat_eqb ch 58
    then []
    else if nat_eqb ch 44
    then []
    else if ltb (length rest) 5
    then codes "\n  "
    else codes " "

spacing-IsBlank : (rest : Bytes) → IsBlank (spacing rest)
unfolding is_space
spacing-IsBlank [] = tt
spacing-IsBlank (ch ∷ rest) = elim (Bool-cases (nat_eqb ch 58)) [
  | inl colon ↦ rw colon tt
  | inr other ↦ elim (Bool-cases (nat_eqb ch 44)) [
    | inl comma ↦ rw (other, comma) tt
    | inr token ↦ elim (Bool-cases (ltb (length rest) 5)) [
      | inl last ↦ rw (other, token, last) (refl, (refl, (refl, tt)))
      | inr early ↦ rw (other, token, early) (refl, tt)
    ]
  ]
]

spaced_text :
    spacing +> print_value spacing document []
    ≡ codes
        " { \"scenarios\": [ { \"requests\": 25, \"name\": \"reads\" }, { \"tags\": [ null ], \"name\": \"writes\" }\n  ]\n  }"
unfolding print_value print_number to_string json_escape_string
spaced_text = refl

parse_scenario_matrix-print_value_example :
    parse_scenario_matrix 100 (spacing +> print_value spacing document (codes "  "))
    ≡ (if at_end (codes "  ") then matrix_of 100 document else none)
unfolding IsJson
parse_scenario_matrix-print_value_example =
    parse_scenario_matrix-print_value spacing 100 document (codes "  ") spacing-IsBlank
      ((((omega arith, tt), (tt, tt)), (((tt, tt), (tt, tt)), tt)), tt)

document_meaning :
    matrix_of 100 document
    ≡ some (
        (record { name = codes "reads"; requests = 25 })
        ∷ (record { name = codes "writes"; requests = 100 })
        ∷ [])
unfolding matrix_of as_text as_unsigned
document_meaning = refl

-- Whole numbers stand for the doubles, in hundredths.
instance abbrev nat_conversions : Conversions ℕ
nat_conversions = record {
  stoull = λ text. elim (parse_digits 0 text) as (λ r. Result ℕ) [
    | none ↦ throws invalid_argument
    | some n ↦ if ltb n (2 ^ 64) then returns n else throws out_of_range
  ];
  stod = λ text. elim (parse_digits 0 text) as (λ r. Result ℕ) [
    | none ↦ throws invalid_argument
    | some n ↦ returns n
  ];
  default_ratio = 80;
  is_negative = λ r. false;
  is_above_one = λ r. ltb 100 r;
}

stoull_wide : (t : Bytes) (n : ℕ) → nat_conversions.stoull t ≡ returns n → n < 2 ^ 64
stoull_wide t n e = ground (arith, e)

-- The text of a scenario matrix, where one scenario has no number of requests.
abbrev matrix_text : Bytes
matrix_text = codes "{ \"scenarios\": [ {\"name\": \"a\"}, {\"name\": \"b\", \"requests\": 2} ] }"

abbrev plan : Plan ℕ
plan = record {
  config = record { ops = 12; key_space = 3; read_ratio = 80; stripes = 8 };
  scenario_specs =
      (record { name = codes "a"; requests = 12 })
      ∷ (record { name = codes "b"; requests = 2 })
      ∷ [];
  scenario_requests = 11 ∷ 1 ∷ [];
}

abbrev arguments : List Bytes
arguments = codes "--ops" ∷ codes "12" ∷ codes "--keys" ∷ codes "3" ∷ []

prepared : prepare ℕ arguments (some matrix_text) ≡ proceeds plan
unfolding prepare parse_digits
prepared = refl

prepare-IsReady_example : IsReady plan
prepare-IsReady_example = prepare-IsReady ℕ stoull_wide arguments (some matrix_text) plan prepared

-- A matrix without scenarios, and an argument that is not known.
refused_matrix : prepare {D = ℕ} ℕ arguments (some (codes "{\"scenarios\": []}")) ≡ exits 1
unfolding prepare parse_digits
refused_matrix = refl

-- Three keys in a store of two stripes, and three operations.
abbrev first_byte : Bytes → ℕ
first_byte [] = 0
first_byte (c ∷ key) = length key + c

abbrev draws : List Draw
draws =
    (record { index = 0; do_read = true; touched_at = 10; swept_at = 10 })
    ∷ (record { index = 2; do_read = false; touched_at = 11; swept_at = 12 })
    ∷ (record { index = 2; do_read = true; touched_at = 13; swept_at = 13 })
    ∷ []

run_load-IsHit_example :
    (last : Measured) × (run_load first_byte 2 3 (λ i. (i, i)) draws ≡ some last)
    × All (λ found. found ≢ none) last.found
    × (last.read_ops + last.write_ops ≡ 3)
    × (entries last.store ≤ 3)
run_load-IsHit_example =
    run_load-IsHit first_byte 2 3 (λ i. (i, i)) draws (omega arith) (omega arith)
      (omega arith, (omega arith, (omega arith, tt)))
