-- ===== src/Bench/Tests/Report.antt =====
-- The report of src/bench/cache_bench.cpp at concrete inputs: as a scenario matrix, it is read back.
use distributed_cache.Prelude.{
  ℕ, ◌+◌, ◌-◌, ◌*◌, ltb, ◌≡◌, refl, codes, Bytes, some, List, [], ◌∷◌, ◌++◌,
}
use distributed_cache.Prelude.Decimal.{to_string}
use distributed_cache.Bench.Json.{json_escape_string}
use distributed_cache.Bench.Matrix.{parse_scenario_matrix}
use distributed_cache.Bench.Report.{
  Interpolation, Totals, ScenarioResult, percentile, scenario_results,
}
use distributed_cache.Bench.Report.Text.{report_text}

-- Whole numbers for the doubles.
abbrev whole : Interpolation ℕ
whole = record {
  zero_double = 0;
  one_double = 1;
  add = λ a b. a + b;
  sub = λ a b. a - b;
  mul = λ a b. a * b;
  below = ltb;
  from_size = λ n. n;
  to_size = λ n. n;
}

abbrev totals : Totals whole
totals = record {
  ops_per_sec = 900;
  p50 = 1;
  p99 = 7;
  coalescing_off = record { duplicate_backend_hits = 8; coalescing_hit_ratio = 0 };
  coalescing_on = record { duplicate_backend_hits = 3; coalescing_hit_ratio = 1 };
}

abbrev results : List (ScenarioResult ℕ)
results =
    (record {
      name = codes "reads";
      requests = 11;
      ops_per_sec = 900;
      p50_ms = 1;
      p99_ms = 7;
      error_rate = 0;
      coalescing_hit_ratio = 0;
      duplicate_backend_hits = 0;
      status = codes "ok";
    })
    ∷ (record {
      name = codes "coalescing_on";
      requests = 1;
      ops_per_sec = 900;
      p50_ms = 1;
      p99_ms = 7;
      error_rate = 0;
      coalescing_hit_ratio = 1;
      duplicate_backend_hits = 3;
      status = codes "ok";
    })
    ∷ []

both_results :
    scenario_results whole totals (11 ∷ 1 ∷ []) 0 (
      (record { name = codes "reads"; requests = 0 })
      ∷ (record { name = codes "coalescing_on"; requests = 0 })
      ∷ [])
    ≡ some results
unfolding scenario_results
both_results = refl

highest : percentile whole (1 ∷ 4 ∷ 9 ∷ []) 2 ≡ some 9
unfolding percentile
highest = refl

abbrev thousandths : ℕ → Bytes
thousandths n = to_string n ++ codes ".000"

report_read_back :
    parse_scenario_matrix 0 (
      report_text thousandths
        (record { ops = 12; key_space = 3; read_ratio = 1; stripes = 8 })
        (record {
          timestamp = codes "2026-01-01T00:00:00Z";
          duration_ms = 13;
          ops_per_sec = 900;
          p50 = 1;
          p95 = 5;
          p99 = 7;
          read_ops = 9;
          write_ops = 3;
        })
        results)
    ≡ some (
        (record { name = codes "reads"; requests = 11 })
        ∷ (record { name = codes "coalescing_on"; requests = 1 })
        ∷ [])
unfolding parse_scenario_matrix report_text to_string json_escape_string
report_read_back = refl
