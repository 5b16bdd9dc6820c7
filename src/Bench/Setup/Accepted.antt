-- ===== src/Bench/Setup/Accepted.antt =====
-- What `main` starts the benchmark with.
use distributed_cache.Prelude.{
  ℕ, suc, ◌+◌, ◌^◌, ◌<◌, Bytes, bytes_eqb, nat_eqb, codes, ◌≡◌, ◌≢◌, refl, sym, ap, ◌∙◌, Bool, true,
  false, Option, none, some, List, [], ◌∷◌, length, map, arith, Bool-cases, Option-cases, Result,
  returns, throws, inl, inr,
}
use mathlib.Core.Path.{subst}
use distributed_cache.Bench.Reader.{at_end}
use distributed_cache.Bench.Matrix.{
  Matrix, end_matrix, parse_scenario_matrix, load_scenario_matrix, read_members, matrix_member,
}
use distributed_cache.Bench.Shares.{
  ScenarioSpec, LongDouble, sum_scenario_requests, distribute_scenario_requests,
}
use distributed_cache.Bench.Shares.Sum.{all_requests, sum_scenario_requests-all_requests}
use distributed_cache.Bench.Shares.Rounds.{total}
use distributed_cache.Bench.Shares.Totals.{distribute_scenario_requests-total}
use distributed_cache.Bench.Setup.{
  Conversions, Options, Progress, proceeds, exits, terminates, then_do, converted, Plan,
  initial_options, last_arg, take_arg, read_args, check_config, own_requests, asked_requests,
  plan_requests, prepare,
}

-- What holds if `main` goes on.
abbrev Ensures {ℓ κ} : {A : Type ℓ} → (A → Type κ) → Progress A → Type κ
Ensures P (proceeds a) = P a
Ensures P (exits code) = Unit
Ensures P (terminates e) = Unit

then_do-Ensures {ℓ κ} :
    {A : Type ℓ} {B : Type κ} (P : A → Type 0) (Q : B → Type 0) (m : Progress A)
    (next : A → Progress B)
    → Ensures P m
    → ((a : A) → P a → Ensures Q (next a))
    → Ensures Q (then_do m next)
unfolding then_do
then_do-Ensures P Q (proceeds a) next p q = q a p
then_do-Ensures P Q (exits code) next p q = tt
then_do-Ensures P Q (terminates e) next p q = tt

converted-Ensures {ℓ κ} :
    {A : Type ℓ} {B : Type κ} (P : B → Type 0) (r : Result A) (write : A → B)
    → ((a : A) → r ≡ returns a → P (write a))
    → Ensures P (converted r write)
unfolding converted
converted-Ensures P (returns a) write h = h a refl
converted-Ensures P (throws e) write h = tt

-- A document that is accepted has a scenario.
end_matrix_found :
    (found : Bool) (scenarios : List ScenarioSpec) (rest : Bytes)
    → end_matrix (some (record { found_scenarios = found; scenarios = scenarios }, rest)) ≢ some []
unfolding end_matrix
end_matrix_found false scenarios rest e = cc
end_matrix_found true [] rest e = cc
end_matrix_found true (s ∷ scenarios) rest e = elim (Bool-cases (at_end rest)) [
  | inl ended ↦ ground (arith, e, ended)
  | inr more ↦ ground (arith, e, more)
]

end_matrix_nonempty : (r : Option (Matrix × Bytes)) → end_matrix r ≢ some []
unfolding end_matrix
end_matrix_nonempty none e = cc
end_matrix_nonempty (some (m, rest)) e = end_matrix_found m.found_scenarios m.scenarios rest e

load_scenario_matrix_nonempty :
    (d : ℕ) (file : Option Bytes) (scenarios : List ScenarioSpec)
    → load_scenario_matrix d file ≡ some scenarios
    → scenarios ≢ []
unfolding load_scenario_matrix parse_scenario_matrix
load_scenario_matrix_nonempty d none scenarios e empty = cc
load_scenario_matrix_nonempty d (some []) scenarios e empty = cc
load_scenario_matrix_nonempty d (some (c ∷ contents)) scenarios e empty =
    end_matrix_nonempty
      (read_members (matrix_member d) (record { found_scenarios = false; scenarios = [] })
        (c ∷ contents))
      (e ∙ ap some empty)

total_map :
    (scenarios : List ScenarioSpec)
    → total (map (λ s. s.requests) scenarios) ≡ all_requests scenarios
total_map [] = refl
total_map (s ∷ scenarios) = ap (λ n. s.requests + n) (total_map scenarios)

length-map_requests :
    (scenarios : List ScenarioSpec) → length (map (λ s. s.requests) scenarios) ≡ length scenarios
length-map_requests [] = refl
length-map_requests (s ∷ scenarios) = ap suc (length-map_requests scenarios)

module _ {ℓ} {D : Type ℓ} ⦃c : Conversions D⦄ where
  -- The options that the loop over the arguments keeps.
  abbrev IsWide : Options D → Type 0
  IsWide o = o.config.ops < 2 ^ 64

  module _ (wide : (text : Bytes) (n : ℕ) → c.stoull text ≡ returns n → n < 2 ^ 64) where
    last_arg-Ensures : (o : Options D) (arg : Bytes) → Ensures IsWide (last_arg {D = D} arg)
    unfolding last_arg
    last_arg-Ensures o arg = elim (Bool-cases (bytes_eqb arg (codes "--help"))) [
      | inl help ↦ rw help tt
      | inr unknown ↦ rw unknown tt
    ]

    take_arg-Ensures :
        (arg value : Bytes) (o : Options D) → IsWide o → Ensures IsWide (take_arg arg value o)
    unfolding take_arg
    take_arg-Ensures arg value o h = elim (Bool-cases (bytes_eqb arg (codes "--out"))) [
      | inl out ↦ rw (take_arg, out) h
      | inr a ↦ elim (Bool-cases (bytes_eqb arg (codes "--ops"))) [
        | inl ops ↦
            rw (take_arg, a, ops)
              (converted-Ensures IsWide (c.stoull value)
                (λ n. record o { config = record o.config { ops = n }; ops_override = true })
                (wide value))
        | inr b ↦ elim (Bool-cases (bytes_eqb arg (codes "--keys"))) [
          | inl keys ↦
              rw (take_arg, a, b, keys)
                (converted-Ensures IsWide (c.stoull value)
                  (λ n. record o { config = record o.config { key_space = n } }) (λ n e. h))
          | inr d ↦ elim (Bool-cases (bytes_eqb arg (codes "--read-ratio"))) [
            | inl ratio ↦
                rw (take_arg, a, b, d, ratio)
                  (converted-Ensures IsWide (c.stod value)
                    (λ r. record o { config = record o.config { read_ratio = r } }) (λ r e. h))
            | inr f ↦ rw (take_arg, a, b, d, f) (last_arg-Ensures o arg)
          ]
        ]
      ]
    ]

    each_round :
        (m : Progress (Options D)) (next : Options D → Progress (Options D))
        → Ensures IsWide m
        → ((o : Options D) → IsWide o → Ensures IsWide (next o))
        → Ensures IsWide (elim m as (λ r. Progress (Options D)) [
          | proceeds o ↦ next o
          | exits code ↦ exits code
          | terminates e ↦ terminates e
        ])
    each_round (proceeds o) next p q = q o p
    each_round (exits code) next p q = tt
    each_round (terminates e) next p q = tt

    read_args-Ensures :
        (o : Options D) (args : List Bytes) → IsWide o → Ensures IsWide (read_args o args)
    unfolding read_args
    read_args-Ensures o [] h = h
    read_args-Ensures o (arg ∷ []) h = last_arg-Ensures o arg
    read_args-Ensures o (arg ∷ value ∷ args) h =
        each_round (take_arg arg value o) (λ o'. read_args o' args) (take_arg-Ensures arg value o h)
          (λ o' k. read_args-Ensures o' args k)

  record IsChecked (o : Options D) : Type 0 where
    wide : o.config.ops < 2 ^ 64
    some_key : 0 < o.config.key_space
    not_negative : c.is_negative o.config.read_ratio ≡ false
    not_above_one : c.is_above_one o.config.read_ratio ≡ false

  check_config-Ensures : (o : Options D) → IsWide o → Ensures IsChecked (check_config o)
  unfolding check_config
  check_config-Ensures o h = elim (Bool-cases (nat_eqb o.config.key_space 0)) [
    | inl no_key ↦ rw (check_config, no_key) tt
    | inr keys ↦ elim (Bool-cases (c.is_negative o.config.read_ratio)) [
      | inl negative ↦ rw (check_config, keys, negative) tt
      | inr least ↦ elim (Bool-cases (c.is_above_one o.config.read_ratio)) [
        | inl above ↦ rw (check_config, keys, least, above) tt
        | inr most ↦
            rw (check_config, keys, least, most)
              (record {
                wide = h;
                some_key = ground (arith, keys);
                not_negative = least;
                not_above_one = most;
              })
      ]
    ]
  ]

  -- What the benchmark relies on.
  pub record IsReady (p : Plan D) : Type 0 where
    pub some_key : 0 < p.config.key_space
    pub not_negative : c.is_negative p.config.read_ratio ≡ false
    pub not_above_one : c.is_above_one p.config.read_ratio ≡ false
    pub some_operation : 0 < p.config.ops
    pub fits : p.config.ops < 2 ^ 64
    pub some_scenario : p.scenario_specs ≢ []
    pub one_each : length p.scenario_requests ≡ length p.scenario_specs
    pub all_given : total p.scenario_requests ≡ p.config.ops

  own_requests-Ensures :
      (o : Options D) (scenarios : List ScenarioSpec)
      → IsChecked o
      → scenarios ≢ []
      → Ensures IsReady (own_requests o.config scenarios)
  unfolding own_requests
  own_requests-Ensures o scenarios h some_scenario =
      elim (Option-cases (sum_scenario_requests scenarios)) [
        | inl out ↦ rw (own_requests, out) tt
        | inr (n, found) ↦ elim (Bool-cases (nat_eqb n 0)) [
          | inl nothing ↦ rw (own_requests, found, nothing) tt
          | inr something ↦
              let summed = sym (sum_scenario_requests-all_requests scenarios) ∙ found in
              rw (own_requests, found, something)
                (record {
                  some_key = h.some_key;
                  not_negative = h.not_negative;
                  not_above_one = h.not_above_one;
                  some_operation = ground (arith, something);
                  fits = ground (arith, summed);
                  some_scenario = some_scenario;
                  one_each = length-map_requests scenarios;
                  all_given = ground (arith, summed, total_map scenarios);
                })
        ]
      ]

  asked_requests-Ensures :
      (o : Options D) (scenarios : List ScenarioSpec) (requests : List ℕ)
      → IsChecked o
      → scenarios ≢ []
      → (total requests ≡ o.config.ops) × (length requests ≡ length scenarios)
      → Ensures IsReady (asked_requests o.config scenarios requests)
  unfolding asked_requests
  asked_requests-Ensures o scenarios requests h some_scenario given =
      elim (Bool-cases (nat_eqb o.config.ops 0)) [
        | inl nothing ↦ rw (asked_requests, nothing) tt
        | inr something ↦
            rw (asked_requests, something)
              (record {
                some_key = h.some_key;
                not_negative = h.not_negative;
                not_above_one = h.not_above_one;
                some_operation = ground (arith, something);
                fits = h.wide;
                some_scenario = some_scenario;
                one_each = given.1;
                all_given = given.0;
              })
      ]

  module _ {κ} (W : Type κ) ⦃d : LongDouble W⦄ where
    plan_requests-Ensures :
        (file : Option Bytes) (o : Options D)
        → IsChecked o
        → Ensures IsReady (plan_requests W file o)
    unfolding plan_requests
    plan_requests-Ensures file o h = elim (Option-cases (load_scenario_matrix o.config.ops file)) [
      | inl out ↦ rw (plan_requests, out) tt
      | inr (scenarios, found) ↦
          let some_scenario = load_scenario_matrix_nonempty o.config.ops file scenarios found in
          elim (Bool-cases o.ops_override) [
            | inl asked ↦
                rw (plan_requests, found, asked)
                  (asked_requests-Ensures o scenarios
                    (distribute_scenario_requests W scenarios o.config.ops) h some_scenario
                    (distribute_scenario_requests-total W scenarios o.config.ops some_scenario
                      h.wide))
            | inr own ↦
                rw (plan_requests, found, own) (own_requests-Ensures o scenarios h some_scenario)
          ]
    ]

    -- If `main` gets as far as the store, whatever its arguments and the scenario matrix are, then there
    -- are a key and an operation, the read ratio is neither negative nor above 1, there is at least one
    -- scenario, each has a number of requests, and these numbers add up to the number of operations, which
    -- is below 2^64. The hypothesis is that `std::stoull` gives numbers of 64 bits.
    pub prepare-IsReady :
        ((text : Bytes) (n : ℕ) → c.stoull text ≡ returns n → n < 2 ^ 64)
        → (args : List Bytes) (file : Option Bytes) (p : Plan D) → prepare W args file ≡ proceeds p
        → IsReady p
    unfolding prepare initial_options
    prepare-IsReady wide args file p e =
        let read = read_args-Ensures wide initial_options args (omega arith) in
        let checked =
          then_do-Ensures IsWide IsChecked (read_args initial_options args) check_config read
            check_config-Ensures in
        let planned =
          then_do-Ensures IsChecked IsReady (then_do (read_args initial_options args) check_config)
            (plan_requests W file) checked (plan_requests-Ensures file) in
        subst (Ensures IsReady) e planned
