-- ===== src/Bench/Setup.antt =====
-- src/bench/cache_bench.cpp: `main` until the benchmark starts: the arguments, the scenarios, and the number
-- of requests of each. The proofs are in the modules below.
pub mod Accepted
use distributed_cache.Prelude.{
  ℕ, Bytes, bytes_eqb, nat_eqb, codes, Bool, true, false, ◌||◌, Option, none, some, List, [], ◌∷◌,
  map, Result, returns, throws, Exception, if◌then◌else◌,
}
use distributed_cache.Bench.Matrix.{load_scenario_matrix}
use distributed_cache.Bench.Shares.{
  ScenarioSpec, LongDouble, sum_scenario_requests, distribute_scenario_requests,
}

-- `std::stoull` and `std::stod`, which may throw, and what the code does with a `double`.
pub record Conversions {ℓ} (D : Type ℓ) : Type ℓ where
  pub stoull : Bytes → Result ℕ
  pub stod : Bytes → Result D
  pub default_ratio : D
  pub is_negative : D → Bool
  pub is_above_one : D → Bool

pub record Config {ℓ} (D : Type ℓ) : Type ℓ where
  pub ops : ℕ
  pub key_space : ℕ
  pub read_ratio : D
  pub stripes : ℕ

-- The variables of the loop over the arguments.
pub record Options {ℓ} (D : Type ℓ) : Type ℓ where
  pub config : Config D
  pub out_path : Bytes
  pub ops_override : Bool

-- `main` goes on, returns, or ends with an exception that nothing catches.
pub data Progress {ℓ} (A : Type ℓ) : Type ℓ where
  proceeds : A → Progress A
  exits : (code : ℕ) → Progress A
  terminates : Exception → Progress A

unfoldable pub then_do {ℓ κ} :
    {A : Type ℓ} {B : Type κ} → Progress A → (A → Progress B) → Progress B
then_do (proceeds a) next = next a
then_do (exits code) next = exits code
then_do (terminates e) next = terminates e

-- A converted argument.
unfoldable pub converted {ℓ κ} : {A : Type ℓ} {B : Type κ} → Result A → (A → B) → Progress B
converted (returns a) write = proceeds (write a)
converted (throws e) write = terminates e

-- What the benchmark works with.
pub record Plan {ℓ} (D : Type ℓ) : Type ℓ where
  pub config : Config D
  pub scenario_specs : List ScenarioSpec
  pub scenario_requests : List ℕ

module _ {ℓ} {D : Type ℓ} ⦃c : Conversions D⦄ where
  unfoldable pub initial_options : Options D
  initial_options = record {
    config = record { ops = 1000000; key_space = 2000; read_ratio = c.default_ratio; stripes = 8 };
    out_path = codes "bench/out/latest.json";
    ops_override = false;
  }

  -- An argument without one after it.
  unfoldable pub last_arg : Bytes → Progress (Options D)
  last_arg arg = if bytes_eqb arg (codes "--help") then exits 0 else exits 1

  -- An argument, and the one after it.
  unfoldable pub take_arg : Bytes → Bytes → Options D → Progress (Options D)
  unfolding converted last_arg
  take_arg arg value o =
      if bytes_eqb arg (codes "--out")
      then proceeds (record o { out_path = value })
      else if bytes_eqb arg (codes "--ops")
      then converted (c.stoull value)
          (λ n. record o { config = record o.config { ops = n }; ops_override = true })
      else if bytes_eqb arg (codes "--keys")
      then converted (c.stoull value) (λ n. record o { config = record o.config { key_space = n } })
      else if bytes_eqb arg (codes "--read-ratio")
      then converted (c.stod value) (λ r. record o { config = record o.config { read_ratio = r } })
      else last_arg arg

  -- The loop over the arguments, after the program's name.
  unfoldable pub read_args : Options D → List Bytes → Progress (Options D)
  unfolding take_arg last_arg
  read_args o [] = proceeds o
  read_args o (arg ∷ []) = last_arg arg
  read_args o (arg ∷ value ∷ args) = elim (take_arg arg value o) [
    | proceeds o' ↦ read_args o' args
    | exits code ↦ exits code
    | terminates e ↦ terminates e
  ]

  unfoldable pub check_config : Options D → Progress (Options D)
  check_config o =
      if nat_eqb o.config.key_space 0
        || c.is_negative o.config.read_ratio
        || c.is_above_one o.config.read_ratio
      then exits 1
      else proceeds o

  -- The requests as the scenarios ask for them.
  unfoldable pub own_requests : Config D → List ScenarioSpec → Progress (Plan D)
  unfolding sum_scenario_requests
  own_requests config scenarios = elim (sum_scenario_requests scenarios) [
    | none ↦ exits 1
    | some total_requests ↦
        if nat_eqb total_requests 0
        then exits 1
        else proceeds (record {
          config = record config { ops = total_requests };
          scenario_specs = scenarios;
          scenario_requests = map (λ s. s.requests) scenarios;
        })
  ]

  -- The operations that are asked for, with the requests that they are distributed to.
  unfoldable pub asked_requests : Config D → List ScenarioSpec → List ℕ → Progress (Plan D)
  asked_requests config scenarios requests =
      if nat_eqb config.ops 0
      then exits 1
      else proceeds
          (record { config = config; scenario_specs = scenarios; scenario_requests = requests })

  module _ {κ} (W : Type κ) ⦃d : LongDouble W⦄ where
    unfoldable pub plan_requests : Option Bytes → Options D → Progress (Plan D)
    unfolding load_scenario_matrix own_requests asked_requests distribute_scenario_requests
    plan_requests file o = elim (load_scenario_matrix o.config.ops file) [
      | none ↦ exits 1
      | some scenarios ↦
          if o.ops_override
          then asked_requests o.config scenarios
              (distribute_scenario_requests W scenarios o.config.ops)
          else own_requests o.config scenarios
    ]

    -- Until the store is made: from the arguments, and the scenario matrix, if the file opens.
    unfoldable pub prepare : List Bytes → Option Bytes → Progress (Plan D)
    unfolding read_args initial_options check_config plan_requests then_do
    prepare args file =
        then_do (then_do (read_args initial_options args) check_config) (plan_requests file)
