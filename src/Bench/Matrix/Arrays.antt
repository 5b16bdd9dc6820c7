-- ===== src/Bench/Matrix/Arrays.antt =====
-- What `ParseScenarioArray` makes of a document that is written out.
use distributed_cache.Prelude.{
  ℕ, Bytes, ◌≡◌, refl, sym, ap, ◌∙◌, false, Option, none, some, List, [], ◌∷◌, ◌++◌, append_assoc,
  arith, Option-cases, inl, inr,
}
use mathlib.Core.List.{append-nil}
use distributed_cache.Bench.Json.{is_space, consume}
use distributed_cache.Bench.Shares.{ScenarioSpec}
use distributed_cache.Bench.Matrix.{push_scenario, parse_scenario_array}
use distributed_cache.Bench.Matrix.Documents.{
  ◌+>◌, Value, null, boolean, number, text, array, object, Values, no_value, value, values_size,
  IsJson, print_value, print_values, scenario_of, scenarios_of,
}
use distributed_cache.Bench.Matrix.Tokens.{
  IsBlank, leaving, fold_values, consume_here, read_first_closed,
}
use distributed_cache.Bench.Matrix.Items.{read_first-values}
use distributed_cache.Bench.Matrix.Values.{is_array, consume_open, no_array}
use distributed_cache.Bench.Matrix.Scenarios.{parse_scenario_object-print_value}

-- The scenarios, after those that are there.
unfoldable pub after {ℓ} : {A : Type ℓ} → List A → Option (List A) → Option (List A)
after scenarios none = none
after scenarios (some more) = some (scenarios ++ more)

unfoldable push : ℕ → List ScenarioSpec → Value → Option (List ScenarioSpec)
push d scenarios v = elim (scenario_of d v) [ none ↦ none | some s ↦ some (scenarios ++ s ∷ []) ]

fold_push :
    (d : ℕ) (vs : Values) (scenarios : List ScenarioSpec)
    → fold_values (push d) scenarios vs ≡ after scenarios (scenarios_of d vs)
unfolding fold_values push after scenarios_of
fold_push d no_value scenarios = ap some (sym (append-nil scenarios))
fold_push d (value v vs) scenarios = elim (Option-cases (scenario_of d v)) [
  | inl out ↦ rw (fold_values, push, scenarios_of, out) refl
  | inr (s, found) ↦
      let ih = fold_push d vs (scenarios ++ s ∷ []) in
      elim (Option-cases (scenarios_of d vs)) [
        | inl out ↦
            rw (fold_values, push, scenarios_of, found, out)
              (ih ∙ ap (after (scenarios ++ s ∷ [])) out)
        | inr (more, rest) ↦
            rw (fold_values, push, scenarios_of, found, rest)
              (ih
                ∙ ap (after (scenarios ++ s ∷ [])) rest
                ∙ ap some (append_assoc scenarios (s ∷ []) more))
      ]
]

-- The array of a value.
unfoldable pub array_of : ℕ → List ScenarioSpec → Value → Option (List ScenarioSpec)
array_of d scenarios (array vs) = after scenarios (scenarios_of d vs)
array_of d scenarios _ = none

module _ (gap : Bytes → Bytes) (blank : (r : Bytes) → IsBlank (gap r)) (d : ℕ) where
  push_scenario-print :
      (scenarios : List ScenarioSpec) (v : Value) (spaces rest : Bytes)
      → IsJson v
      → IsBlank spaces
      → push_scenario d scenarios (spaces ++ print_value gap v rest)
        ≡ leaving rest (push d scenarios v)
  unfolding push_scenario push leaving
  push_scenario-print scenarios v spaces rest j b =
      let read = parse_scenario_object-print_value gap blank d v spaces rest j b in
      elim (Option-cases (scenario_of d v)) [
        | inl out ↦ rw (push_scenario, push, read ∙ ap (leaving rest) out, out) refl
        | inr (s, found) ↦ rw (push_scenario, push, read ∙ ap (leaving rest) found, found) refl
      ]

  no_scenarios :
      (scenarios : List ScenarioSpec) (v : Value) (spaces rest : Bytes)
      → IsBlank spaces
      → is_array v ≡ false
      → parse_scenario_array d scenarios (spaces ++ print_value gap v rest) ≡ none
  unfolding parse_scenario_array
  no_scenarios scenarios v spaces rest b e =
      let closed : (consume 91 (spaces ++ print_value gap v rest)).0 ≡ false =
        ap (λ r. r.0) (consume_open gap blank 91 v spaces rest b) ∙ no_array gap blank v rest e in
      rw (parse_scenario_array, closed) refl

  pub parse_scenario_array-print :
      (scenarios : List ScenarioSpec) (v : Value) (spaces rest : Bytes)
      → IsJson v
      → IsBlank spaces
      → parse_scenario_array d scenarios (spaces ++ print_value gap v rest)
        ≡ leaving rest (array_of d scenarios v)
  unfolding parse_scenario_array array_of IsJson print_value leaving is_space fold_values
  parse_scenario_array-print scenarios (array no_value) spaces rest j b =
      let opened = consume_here spaces 91 (gap +> 93 ∷ rest) b refl in
      rw (parse_scenario_array, opened, opened)
        (read_first_closed gap blank 93 (push_scenario d) scenarios rest refl
          ∙ ap (leaving rest) (fold_push d no_value scenarios))
  parse_scenario_array-print scenarios (array (value v vs)) spaces rest j b =
      let written = gap +> print_value gap v (print_values gap vs rest) in
      let opened = consume_here spaces 91 written b refl in
      rw (parse_scenario_array, opened, opened)
        (read_first-values gap blank (push_scenario d) (push d) (values_size (value v vs))
            (λ s w blanks r a c e f. push_scenario-print s w blanks r c e) scenarios v vs rest
            (omega arith) j
          ∙ ap (leaving rest) (fold_push d (value v vs) scenarios))
  parse_scenario_array-print scenarios null spaces rest j b =
      no_scenarios scenarios null spaces rest b refl
  parse_scenario_array-print scenarios (boolean c) spaces rest j b =
      no_scenarios scenarios (boolean c) spaces rest b refl
  parse_scenario_array-print scenarios (number negative whole more) spaces rest j b =
      no_scenarios scenarios (number negative whole more) spaces rest b refl
  parse_scenario_array-print scenarios (text t) spaces rest j b =
      no_scenarios scenarios (text t) spaces rest b refl
  parse_scenario_array-print scenarios (object ms) spaces rest j b =
      no_scenarios scenarios (object ms) spaces rest b refl
