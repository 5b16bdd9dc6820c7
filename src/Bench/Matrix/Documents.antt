-- ===== src/Bench/Matrix/Documents.antt =====
-- JSON documents as trees, how they are written, and the scenarios that they mean.
use distributed_cache.Prelude.{
  ℕ, suc, ◌+◌, ◌*◌, ◌^◌, ◌<◌, Bytes, bytes_eqb, ltb, codes, Bool, true, false, ◌||◌, ◌≡◌, Option,
  none, some, List, [], ◌∷◌, ◌++◌, All, if◌then◌else◌,
}
use distributed_cache.Prelude.Decimal.{to_string, is_digit, ten_to}
use distributed_cache.Bench.Json.{json_escape_string}
use distributed_cache.Bench.Reader.{is_number_mark}
use distributed_cache.Bench.Shares.{ScenarioSpec}

-- A number is its sign, its whole part, and what follows: a fraction, an exponent.
mutual
  pub data Value : Type 0 where
    null : Value
    boolean : Bool → Value
    number : Bool → ℕ → Bytes → Value
    text : Bytes → Value
    array : Values → Value
    object : Members → Value

  pub data Values : Type 0 where
    no_value : Values
    value : Value → Values → Values

  pub data Members : Type 0 where
    no_member : Members
    member : Bytes → Value → Members → Members

-- How often values are nested, and how many there are.
unfoldable mutual
  pub size : Value → ℕ
  size null = 0
  size (boolean b) = 0
  size (number negative whole more) = 0
  size (text t) = 0
  size (array vs) = suc (values_size vs)
  size (object ms) = suc (members_size ms)

  pub values_size : Values → ℕ
  values_size no_value = 0
  values_size (value v vs) = suc (size v + values_size vs)

  pub members_size : Members → ℕ
  members_size no_member = 0
  members_size (member key v ms) = suc (size v + members_size ms)

abbrev pub is_number_char : ℕ → Bool
is_number_char ch = is_digit ch || is_number_mark ch

-- What follows the whole part of a number.
abbrev pub IsFraction : Bytes → Type 0
IsFraction [] = Unit
IsFraction (ch ∷ more) = (is_number_mark ch ≡ true) × All (λ c. is_number_char c ≡ true) more

-- Numbers have a whole part of at most twenty digits, and nothing that is no number follows it.
unfoldable mutual
  pub IsJson : Value → Type 0
  IsJson null = Unit
  IsJson (boolean b) = Unit
  IsJson (number negative whole more) = (whole < 10 * ten_to 19) × IsFraction more
  IsJson (text t) = Unit
  IsJson (array vs) = AreJson vs
  IsJson (object ms) = HaveJson ms

  pub AreJson : Values → Type 0
  AreJson no_value = Unit
  AreJson (value v vs) = IsJson v × AreJson vs

  pub HaveJson : Members → Type 0
  HaveJson no_member = Unit
  HaveJson (member key v ms) = IsJson v × HaveJson ms

-- Text between quotation marks, and numbers, before the text that follows.
unfoldable pub print_text : Bytes → Bytes → Bytes
unfolding json_escape_string
print_text t rest = 34 ∷ (json_escape_string t ++ 34 ∷ rest)

unfoldable pub print_number : Bool → ℕ → Bytes → Bytes → Bytes
unfolding to_string
print_number true whole more rest = 45 ∷ (to_string whole ++ (more ++ rest))
print_number false whole more rest = to_string whole ++ (more ++ rest)

-- Text with a gap before it that the text itself determines. What is before each token of a document can be
-- chosen on its own, as the text from each of its tokens on is another.
infixl 65 ◌+>◌
abbrev pub ◌+>◌ : (Bytes → Bytes) → Bytes → Bytes
gap +> rest = gap rest ++ rest

-- The text of a document, before the text that follows, with a gap before each token but the first.
module _ (gap : Bytes → Bytes) where
  unfoldable mutual
    unfolding print_text print_number

    pub print_value : Value → Bytes → Bytes
    print_value null rest = codes "null" ++ rest
    print_value (boolean true) rest = codes "true" ++ rest
    print_value (boolean false) rest = codes "false" ++ rest
    print_value (number negative whole more) rest = print_number negative whole more rest
    print_value (text t) rest = print_text t rest
    print_value (array no_value) rest = 91 ∷ (gap +> 93 ∷ rest)
    print_value (array (value v vs)) rest = 91 ∷ (gap +> print_value v (print_values vs rest))
    print_value (object no_member) rest = 123 ∷ (gap +> 125 ∷ rest)
    print_value (object (member key v ms)) rest =
        123 ∷ (gap +> print_text key (gap +> 58 ∷ (gap +> print_value v (print_members ms rest))))

    -- After the first.
    pub print_values : Values → Bytes → Bytes
    print_values no_value rest = gap +> 93 ∷ rest
    print_values (value v vs) rest = gap +> 44 ∷ (gap +> print_value v (print_values vs rest))

    pub print_members : Members → Bytes → Bytes
    print_members no_member rest = gap +> 125 ∷ rest
    print_members (member key v ms) rest =
        gap
        +> 44 ∷ (gap +> print_text key (gap +> 58 ∷ (gap +> print_value v (print_members ms rest))))

-- What the program looks for in a value.
unfoldable pub as_text : Value → Option Bytes
as_text (text t) = some t
as_text _ = none

unfoldable pub as_unsigned : Value → Option ℕ
as_unsigned (number false whole []) = if ltb whole (2 ^ 64) then some whole else none
as_unsigned _ = none

-- A value, and the last one after it.
unfoldable pub earlier : {A : Type 0} → Option A → Option (Option A) → Option (Option A)
earlier none later = none
earlier (some a) none = none
earlier (some a) (some none) = some (some a)
earlier (some a) (some (some b)) = some (some b)

-- The last value under a key: `none` if a value under the key is not of the form.
module _ {A : Type 0} (form : Value → Option A) (key : Bytes) where
  unfoldable pub last_named : Members → Option (Option A)
  unfolding earlier
  last_named no_member = some none
  last_named (member k v ms) =
      let later = last_named ms in if bytes_eqb k key then earlier (form v) later else later

-- A scenario has a name, and may have a number of requests; other members mean nothing.
unfoldable pub scenario_from : ℕ → Option (Option Bytes) → Option (Option ℕ) → Option ScenarioSpec
scenario_from default_requests none requests = none
scenario_from default_requests (some none) requests = none
scenario_from default_requests (some (some name)) none = none
scenario_from default_requests (some (some name)) (some none) =
    some (record { name = name; requests = default_requests })
scenario_from default_requests (some (some name)) (some (some requests)) =
    some (record { name = name; requests = requests })

unfoldable pub scenario_of : ℕ → Value → Option ScenarioSpec
unfolding last_named scenario_from
scenario_of default_requests (object ms) =
    scenario_from default_requests (last_named as_text (codes "name") ms)
      (last_named as_unsigned (codes "requests") ms)
scenario_of default_requests _ = none

unfoldable pub scenarios_of : ℕ → Values → Option (List ScenarioSpec)
unfolding scenario_of
scenarios_of default_requests no_value = some []
scenarios_of default_requests (value v vs) = elim (scenario_of default_requests v) [
  | none ↦ none
  | some s ↦ elim (scenarios_of default_requests vs) [
    | none ↦ none
    | some scenarios ↦ some (s ∷ scenarios)
  ]
]

-- The values under a key.
unfoldable pub all_named : Bytes → Members → List Value
all_named key no_member = []
all_named key (member k v ms) =
    let rest = all_named key ms in if bytes_eqb k key then v ∷ rest else rest

-- The scenarios of an array that has at least one.
unfoldable pub scenarios_in : ℕ → Value → Option (List ScenarioSpec)
unfolding scenarios_of
scenarios_in default_requests (array (value v vs)) = scenarios_of default_requests (value v vs)
scenarios_in default_requests _ = none

-- The scenarios are in the one value under `scenarios`.
unfoldable pub matrix_of_values : ℕ → List Value → Option (List ScenarioSpec)
unfolding scenarios_in
matrix_of_values default_requests [] = none
matrix_of_values default_requests (v ∷ []) = scenarios_in default_requests v
matrix_of_values default_requests (v ∷ w ∷ vs) = none

unfoldable pub matrix_of : ℕ → Value → Option (List ScenarioSpec)
unfolding all_named matrix_of_values
matrix_of default_requests (object ms) =
    matrix_of_values default_requests (all_named (codes "scenarios") ms)
matrix_of default_requests _ = none
