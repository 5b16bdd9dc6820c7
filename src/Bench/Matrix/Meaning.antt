-- ===== src/Bench/Matrix/Meaning.antt =====
-- What `ParseScenarioMatrix` makes of a document that is written out.
use distributed_cache.Prelude.{
  ℕ, Bytes, bytes_eqb, codes, ◌≡◌, refl, sym, ap, ◌∙◌, Bool, true, false, Option, none, some, List,
  [], ◌∷◌, ◌++◌, Bool-cases, Option-cases, inl, inr, if◌then◌else◌,
}
use distributed_cache.Bench.Reader.{at_end}
use distributed_cache.Bench.Shares.{ScenarioSpec}
use distributed_cache.Bench.Matrix.{
  Matrix, read_scenarios, skip_entry, read_entry, matrix_member, end_matrix, parse_scenario_matrix,
}
use distributed_cache.Bench.Matrix.Documents.{
  ◌+>◌, Value, null, boolean, number, text, array, object, Values, no_value, value, Members,
  no_member, member, IsJson, print_value, scenario_of, scenarios_of, all_named, scenarios_in,
  matrix_of_values, matrix_of,
}
use distributed_cache.Bench.Matrix.Tokens.{
  IsBlank, leaving, fold_members, stops, parse_key-print_text,
}
use distributed_cache.Bench.Matrix.Items.{print_member}
use distributed_cache.Bench.Matrix.Skipping.{skip_value-print_value}
use distributed_cache.Bench.Matrix.Objects.{fold_object, read_members-print_value}
use distributed_cache.Bench.Matrix.Arrays.{after, array_of, parse_scenario_array-print}

-- The matrix after a member of the document.
unfoldable with_scenarios : Option (List ScenarioSpec) → Option Matrix
with_scenarios none = none
with_scenarios (some scenarios) = some (record { found_scenarios = true; scenarios = scenarios })

unfoldable entry_of : ℕ → Matrix → Value → Option Matrix
unfolding with_scenarios array_of
entry_of d m v = if m.found_scenarios then none else with_scenarios (array_of d m.scenarios v)

unfoldable member_of : ℕ → Bytes → Matrix → Value → Option Matrix
unfolding entry_of
member_of d key m v = if bytes_eqb key (codes "scenarios") then entry_of d m v else some m

module _ (gap : Bytes → Bytes) (blank : (r : Bytes) → IsBlank (gap r)) (d : ℕ) where
  read_entry-print :
      (key : Bytes) (m : Matrix) (v : Value) (spaces rest : Bytes)
      → IsJson v
      → IsBlank spaces
      → stops rest ≡ true
      → read_entry d key m (spaces ++ print_value gap v rest) ≡ leaving rest (member_of d key m v)
  unfolding read_entry read_scenarios skip_entry member_of entry_of with_scenarios leaving
  read_entry-print key m v spaces rest j b s =
      let read = parse_scenario_array-print gap blank d m.scenarios v spaces rest j b in
      elim (Bool-cases (bytes_eqb key (codes "scenarios"))) [
        | inr other ↦
            rw (read_entry, member_of, other)
              (rw (skip_entry, skip_value-print_value gap blank v spaces rest j b s) refl)
        | inl same ↦ elim (Bool-cases m.found_scenarios) [
          | inl again ↦ rw (read_entry, member_of, entry_of, same, again) refl
          | inr first ↦ elim (Option-cases (array_of d m.scenarios v)) [
            | inl out ↦
                rw (read_entry, member_of, entry_of, same, first)
                  (rw (read_scenarios, read ∙ ap (leaving rest) out, out) refl)
            | inr (scenarios, found) ↦
                rw (read_entry, member_of, entry_of, same, first)
                  (rw (read_scenarios, read ∙ ap (leaving rest) found, found) refl)
          ]
        ]
      ]

  matrix_member-print :
      (key : Bytes) (m : Matrix) (v : Value) (spaces rest : Bytes)
      → IsJson v
      → IsBlank spaces
      → stops rest ≡ true
      → matrix_member d m (spaces ++ print_member gap blank key v rest)
        ≡ leaving rest (member_of d key m v)
  unfolding matrix_member
  matrix_member-print key m v spaces rest j b s =
      rw
        (matrix_member, parse_key-print_text gap spaces key (gap +> print_value gap v rest) blank b)
        (read_entry-print key m v (gap (print_value gap v rest)) rest j
          (blank (print_value gap v rest)) s)

-- Only the members under the key count.
unfoldable entries : ℕ → Matrix → List Value → Option Matrix
unfolding entry_of
entries d m [] = some m
entries d m (v ∷ vs) = elim (entry_of d m v) [ none ↦ none | some m' ↦ entries d m' vs ]

fold_entries :
    (d : ℕ) (ms : Members) (m : Matrix)
    → fold_members (member_of d) m ms ≡ entries d m (all_named (codes "scenarios") ms)
unfolding fold_members member_of entries all_named
fold_entries d no_member m = refl
fold_entries d (member key v ms) m = elim (Bool-cases (bytes_eqb key (codes "scenarios"))) [
  | inr other ↦ rw (fold_members, member_of, all_named, other) (fold_entries d ms m)
  | inl same ↦ elim (Option-cases (entry_of d m v)) [
    | inl out ↦ rw (fold_members, member_of, all_named, entries, same, out) refl
    | inr (m', found) ↦
        rw (fold_members, member_of, all_named, entries, same, found) (fold_entries d ms m')
  ]
]

-- Where a document ends.
abbrev none_found : Matrix
none_found = record { found_scenarios = false; scenarios = [] }

refused : (b : Bool) → if◌then◌else◌ {A = Option (List ScenarioSpec)} b none none ≡ none
refused true = refl
refused false = refl

end_matrix-array :
    (d : ℕ) (v : Value) (vs : Values) (rest : Bytes)
    → end_matrix (leaving rest (with_scenarios (after [] (scenarios_of d (value v vs)))))
      ≡ (if at_end rest then scenarios_of d (value v vs) else none)
unfolding end_matrix leaving with_scenarios after scenarios_of
end_matrix-array d v vs rest = elim (Option-cases (scenario_of d v)) [
  | inl out ↦ rw (scenarios_of, out) (sym (refused (at_end rest)))
  | inr (s, found) ↦ elim (Option-cases (scenarios_of d vs)) [
    | inl out ↦ rw (scenarios_of, found, out) (sym (refused (at_end rest)))
    | inr (scenarios, rest_found) ↦ rw (scenarios_of, found, rest_found) refl
  ]
]

end_matrix-array_of :
    (d : ℕ) (v : Value) (rest : Bytes)
    → end_matrix (leaving rest (with_scenarios (array_of d [] v)))
      ≡ (if at_end rest then scenarios_in d v else none)
unfolding end_matrix leaving with_scenarios after scenarios_of array_of scenarios_in
end_matrix-array_of d (array no_value) rest = sym (refused (at_end rest))
end_matrix-array_of d (array (value v vs)) rest = end_matrix-array d v vs rest
end_matrix-array_of d null rest = sym (refused (at_end rest))
end_matrix-array_of d (boolean c) rest = sym (refused (at_end rest))
end_matrix-array_of d (number negative whole more) rest = sym (refused (at_end rest))
end_matrix-array_of d (text t) rest = sym (refused (at_end rest))
end_matrix-array_of d (object ms) rest = sym (refused (at_end rest))

one_entry :
    (d : ℕ) (r : Option (List ScenarioSpec))
    → elim (with_scenarios r) as (λ o. Option Matrix) [ none ↦ none | some m ↦ entries d m [] ]
      ≡ with_scenarios r
unfolding with_scenarios entries
one_entry d none = refl
one_entry d (some scenarios) = refl

-- A second value under the key is too much.
two_entries :
    (d : ℕ) (r : Option (List ScenarioSpec)) (w : Value) (vs : List Value)
    → elim (with_scenarios r) as (λ o. Option Matrix) [
      | none ↦ none
      | some m ↦ entries d m (w ∷ vs)
    ]
      ≡ none
unfolding with_scenarios entries entry_of
two_entries d none w vs = refl
two_entries d (some scenarios) w vs = refl

end_matrix-entries :
    (d : ℕ) (vs : List Value) (rest : Bytes)
    → end_matrix (leaving rest (entries d none_found vs))
      ≡ (if at_end rest then matrix_of_values d vs else none)
unfolding end_matrix leaving entries entry_of matrix_of_values
end_matrix-entries d [] rest = sym (refused (at_end rest))
end_matrix-entries d (v ∷ []) rest =
    ap (λ r. end_matrix (leaving rest r)) (one_entry d (array_of d [] v))
    ∙ end_matrix-array_of d v rest
end_matrix-entries d (v ∷ w ∷ vs) rest =
    ap (λ r. end_matrix (leaving rest r)) (two_entries d (array_of d [] v) w vs)
    ∙ sym (refused (at_end rest))

end_matrix-fold_object :
    (d : ℕ) (v : Value) (rest : Bytes)
    → end_matrix (leaving rest (fold_object (member_of d) none_found v))
      ≡ (if at_end rest then matrix_of d v else none)
unfolding end_matrix leaving fold_object matrix_of entries
end_matrix-fold_object d (object no_member) rest = end_matrix-entries d [] rest
end_matrix-fold_object d (object (member key v ms)) rest =
    ap (λ r. end_matrix (leaving rest r)) (fold_entries d (member key v ms) none_found)
    ∙ end_matrix-entries d (all_named (codes "scenarios") (member key v ms)) rest
end_matrix-fold_object d null rest = sym (refused (at_end rest))
end_matrix-fold_object d (boolean c) rest = sym (refused (at_end rest))
end_matrix-fold_object d (number negative whole more) rest = sym (refused (at_end rest))
end_matrix-fold_object d (text t) rest = sym (refused (at_end rest))
end_matrix-fold_object d (array vs) rest = sym (refused (at_end rest))

-- `ParseScenarioMatrix` reads a JSON document that is written out to the scenarios that it means,
-- and refuses it where it means none. This holds for every document whose numbers have a whole part
-- below 10^20, whatever its values, its keys and their order, written with the escapes of
-- `JsonEscapeString`, with numbers without leading zeros, and with any whitespace before each
-- token: `gap` gives it for the text from the token on, which is another for each token of the
-- document. A document means scenarios where it is an object with exactly one member `scenarios`,
-- and that is an array of at least one object, each with a `name`: the last members `name` and
-- `requests` count, all of them must be a string and a whole number below 2^64, and without
-- `requests` the default is taken. If anything but whitespace follows, the text is refused.
pub parse_scenario_matrix-print_value :
    (gap : Bytes → Bytes) (default_requests : ℕ) (document : Value) (rest : Bytes)
    → ((r : Bytes) → IsBlank (gap r))
    → IsJson document
    → parse_scenario_matrix default_requests (gap +> print_value gap document rest)
      ≡ (if at_end rest then matrix_of default_requests document else none)
unfolding parse_scenario_matrix
parse_scenario_matrix-print_value gap d document rest blank j =
    ap end_matrix (
      read_members-print_value gap blank (matrix_member d) (member_of d)
        (matrix_member-print gap blank d) none_found document (gap (print_value gap document rest))
        rest j (blank (print_value gap document rest)))
    ∙ end_matrix-fold_object d document rest
