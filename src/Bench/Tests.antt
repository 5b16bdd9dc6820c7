-- ===== src/Bench/Tests.antt =====
-- The theorems of src/bench/cache_bench.cpp at concrete inputs.
mod Load
mod Coalescing
mod Report
use distributed_cache.Prelude.{
  ℕ, ◌+◌, ◌-◌, ◌*◌, ◌/◌, ltb, leb, nat_eqb, ◌≡◌, refl, codes, Bytes, some, List, [], ◌∷◌, ◌++◌,
  length, arith,
}
use distributed_cache.Bench.Json.{json_escape_string, is_space, parse_string}
use distributed_cache.Bench.Json.Escaping.{parse_string-json_escape_string}
use distributed_cache.Bench.Shares.{
  ScenarioSpec, LongDouble, sum_scenario_requests, distribute_scenario_requests, weight_from,
  weighted_shares,
}
use distributed_cache.Bench.Shares.Sum.{all_requests, bounded, sum_scenario_requests-all_requests}
use distributed_cache.Bench.Shares.Rounds.{total}
use distributed_cache.Bench.Shares.Totals.{distribute_scenario_requests-total}

-- A quotation mark, a backslash, a line feed and a control character.
abbrev awkward : Bytes
awkward = 34 ∷ 92 ∷ 10 ∷ 1 ∷ 97 ∷ []

-- Whole numbers, whose division rounds down, stand for the long doubles.
instance abbrev pub nat_long_double : LongDouble ℕ
nat_long_double = record {
  from_size = λ n. n;
  to_size = λ n. n;
  add = ◌+◌;
  sub = ◌-◌;
  mul = ◌*◌;
  div = ◌/◌;
  floor = λ n. n;
  below = ltb;
  at_most = leb;
  equal = nat_eqb;
}

abbrev reads : ScenarioSpec
reads = record { name = codes "reads"; requests = 2 }

abbrev writes : ScenarioSpec
writes = record { name = codes "writes"; requests = 1 }

abbrev scenarios : List ScenarioSpec
scenarios = reads ∷ writes ∷ writes ∷ []

distribute_scenario_requests-total_example :
    (total (distribute_scenario_requests ℕ scenarios 10) ≡ 10)
    × (length (distribute_scenario_requests ℕ scenarios 10) ≡ 3)
distribute_scenario_requests-total_example =
    distribute_scenario_requests-total ℕ scenarios 10 (λ e. cc) (omega arith)

ten_operations : distribute_scenario_requests ℕ scenarios 10 ≡ 6 ∷ 2 ∷ 2 ∷ []
unfolding distribute_scenario_requests weight_from weighted_shares
ten_operations = refl
