-- ===== src/Bench/Matrix.antt =====
-- src/bench/cache_bench.cpp: `ParseScenarioObject` and `ParseScenarioArray` of `JsonReader`,
-- `ParseScenarioMatrix`, and what `LoadScenarioMatrix` makes of a file.
pub mod Documents
pub mod Tokens
pub mod Shapes
pub mod Numbers
pub mod Items
pub mod Skipping
pub mod Values
pub mod Objects
pub mod Scenarios
pub mod Arrays
pub mod Meaning
use distributed_cache.Prelude.{
  ℕ, suc, Bytes, is_empty, bytes_eqb, codes, Bool, true, false, not, ◌||◌, Option, none, some, List,
  [], ◌∷◌, ◌++◌, length, if◌then◌else◌,
}
use distributed_cache.Bench.Json.{consume, parse_string}
use distributed_cache.Bench.Reader.{
  parse_unsigned, read_items, read_first, parse_key, skip_value, at_end,
}
use distributed_cache.Bench.Shares.{ScenarioSpec}

-- The variables of `ParseScenarioObject`.
pub record Fields : Type 0 where
  pub found_name : Bool
  pub name : Bytes
  pub requests : ℕ

unfoldable pub read_name : Fields → Bytes → Option (Fields × Bytes)
unfolding parse_string
read_name f input = elim (parse_string input) [
  | none ↦ none
  | some (name, rest) ↦ some (record f { found_name = true; name = name }, rest)
]

unfoldable pub read_requests : Fields → Bytes → Option (Fields × Bytes)
unfolding parse_unsigned
read_requests f input = elim (parse_unsigned input) [
  | none ↦ none
  | some (parsed_requests, rest) ↦ some (record f { requests = parsed_requests }, rest)
]

unfoldable pub skip_field : Fields → Bytes → Option (Fields × Bytes)
unfolding skip_value
skip_field f input = elim (skip_value input) [ none ↦ none | some (u, rest) ↦ some (f, rest) ]

-- The value of a key.
unfoldable pub read_field : Bytes → Fields → Bytes → Option (Fields × Bytes)
unfolding read_name read_requests skip_field
read_field key f input =
    if bytes_eqb key (codes "name")
    then read_name f input
    else if bytes_eqb key (codes "requests")
    then read_requests f input
    else skip_field f input

-- A round of the loop of `ParseScenarioObject`, until its value is read.
unfoldable pub scenario_member : Fields → Bytes → Option (Fields × Bytes)
unfolding parse_key read_field
scenario_member f input = elim (parse_key input) [
  | none ↦ none
  | some (key, rest) ↦ read_field key f rest
]

-- At the closing brace.
unfoldable pub end_scenario : Option (Fields × Bytes) → Option (ScenarioSpec × Bytes)
end_scenario none = none
end_scenario (some (f, rest)) =
    if not f.found_name then none else some (record { name = f.name; requests = f.requests }, rest)

unfoldable pub new_fields : ℕ → Fields
new_fields default_requests = record { found_name = false; name = []; requests = default_requests }

-- An opening brace, a first member, and the others: what `ParseScenarioObject` and `ParseScenarioMatrix`
-- have in common. An object without members is refused.
module _ {ℓ} {S : Type ℓ} (item : S → Bytes → Option (S × Bytes)) where
  unfoldable pub read_members : S → Bytes → Option (S × Bytes)
  unfolding consume read_items
  read_members s input =
      let (opened, left) = consume 123 input in
      let (closed, rest) = consume 125 left in
      elim opened [
        | false ↦ none
        | true ↦ elim closed [
          | true ↦ none
          | false ↦ read_items 125 item (suc (length rest)) s rest
        ]
      ]

-- `ParseScenarioObject`: the scenario that it pushes back, and what is left.
unfoldable pub parse_scenario_object : ℕ → Bytes → Option (ScenarioSpec × Bytes)
unfolding read_members scenario_member end_scenario new_fields
parse_scenario_object default_requests input =
    end_scenario (read_members scenario_member (new_fields default_requests) input)

unfoldable pub push_scenario : ℕ → List ScenarioSpec → Bytes → Option (List ScenarioSpec × Bytes)
unfolding parse_scenario_object
push_scenario default_requests scenarios input =
    elim (parse_scenario_object default_requests input) [
      | none ↦ none
      | some (s, rest) ↦ some (scenarios ++ s ∷ [], rest)
    ]

unfoldable pub parse_scenario_array :
    ℕ → List ScenarioSpec → Bytes → Option (List ScenarioSpec × Bytes)
unfolding consume read_first push_scenario
parse_scenario_array default_requests scenarios input =
    let (opened, left) = consume 91 input in
    elim opened [
      | true ↦ read_first 93 (push_scenario default_requests) scenarios left
      | false ↦ none
    ]

-- The variables of `ParseScenarioMatrix`.
pub record Matrix : Type 0 where
  pub found_scenarios : Bool
  pub scenarios : List ScenarioSpec

unfoldable pub read_scenarios : ℕ → Matrix → Bytes → Option (Matrix × Bytes)
unfolding parse_scenario_array
read_scenarios default_requests m input =
    elim (parse_scenario_array default_requests m.scenarios input) [
      | none ↦ none
      | some (scenarios, rest) ↦
          some (record { found_scenarios = true; scenarios = scenarios }, rest)
    ]

unfoldable pub skip_entry : Matrix → Bytes → Option (Matrix × Bytes)
unfolding skip_value
skip_entry m input = elim (skip_value input) [ none ↦ none | some (u, rest) ↦ some (m, rest) ]

unfoldable pub read_entry : ℕ → Bytes → Matrix → Bytes → Option (Matrix × Bytes)
unfolding read_scenarios skip_entry
read_entry default_requests key m input =
    if bytes_eqb key (codes "scenarios")
    then if m.found_scenarios then none else read_scenarios default_requests m input
    else skip_entry m input

-- A round of the loop of `ParseScenarioMatrix`, until its value is read.
unfoldable pub matrix_member : ℕ → Matrix → Bytes → Option (Matrix × Bytes)
unfolding parse_key read_entry
matrix_member default_requests m input = elim (parse_key input) [
  | none ↦ none
  | some (key, rest) ↦ read_entry default_requests key m rest
]

-- After the closing brace.
unfoldable pub end_matrix : Option (Matrix × Bytes) → Option (List ScenarioSpec)
unfolding at_end
end_matrix none = none
end_matrix (some (m, rest)) =
    if not m.found_scenarios || no_scenario m.scenarios
    then none
    else if at_end rest
    then some m.scenarios
    else none
  where
    no_scenario : List ScenarioSpec → Bool
    no_scenario [] = true
    no_scenario (s ∷ scenarios) = false

-- `ParseScenarioMatrix`: the scenarios; `none` is `false`.
unfoldable pub parse_scenario_matrix : ℕ → Bytes → Option (List ScenarioSpec)
unfolding read_members matrix_member end_matrix
parse_scenario_matrix default_requests contents = end_matrix (
    read_members (matrix_member default_requests)
      (record { found_scenarios = false; scenarios = [] }) contents)

-- `LoadScenarioMatrix`, given the file's contents, if it opens; `none` is an error.
unfoldable pub load_scenario_matrix : ℕ → Option Bytes → Option (List ScenarioSpec)
unfolding parse_scenario_matrix
load_scenario_matrix default_requests none = none
load_scenario_matrix default_requests (some contents) =
    if is_empty contents then none else parse_scenario_matrix default_requests contents
