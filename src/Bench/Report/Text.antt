-- ===== src/Bench/Report/Text.antt =====
-- src/bench/cache_bench.cpp: the text of the report that `main` writes.
use distributed_cache.Prelude.{
  ℕ, Bytes, codes, List, [], ◌∷◌, ◌++◌, length, ltb, if◌then◌else◌, suc,
}
use distributed_cache.Prelude.Decimal.{to_string}
use distributed_cache.Bench.Json.{json_escape_string}
use distributed_cache.Bench.Setup.{Config}
use distributed_cache.Bench.Report.{ScenarioResult}

-- The measured values that the report names.
pub record Summary {ℓ} (D : Type ℓ) : Type ℓ where
  pub timestamp : Bytes
  pub duration_ms : D
  pub ops_per_sec : D
  pub p50 : D
  pub p95 : D
  pub p99 : D
  pub read_ops : ℕ
  pub write_ops : ℕ

-- `print` is how the stream prints a `double`, fixed and with three digits.
module _ {ℓ} {D : Type ℓ} (print : D → Bytes) where
  unfoldable pub scenario_text : ScenarioResult D → Bytes
  scenario_text scenario =
      codes "    {\n"
      ++ codes "      \"name\": \""
      ++ json_escape_string scenario.name
      ++ codes "\",\n"
      ++ codes "      \"requests\": "
      ++ to_string scenario.requests
      ++ codes ",\n"
      ++ codes "      \"ops_per_sec\": "
      ++ print scenario.ops_per_sec
      ++ codes ",\n"
      ++ codes "      \"p50_ms\": "
      ++ print scenario.p50_ms
      ++ codes ",\n"
      ++ codes "      \"p99_ms\": "
      ++ print scenario.p99_ms
      ++ codes ",\n"
      ++ codes "      \"error_rate\": "
      ++ print scenario.error_rate
      ++ codes ",\n"
      ++ codes "      \"coalescing_hit_ratio\": "
      ++ print scenario.coalescing_hit_ratio
      ++ codes ",\n"
      ++ codes "      \"duplicate_backend_hits\": "
      ++ print scenario.duplicate_backend_hits
      ++ codes ",\n"
      ++ codes "      \"status\": \""
      ++ json_escape_string scenario.status
      ++ codes "\"\n"

  -- The loop over the results, from the index `i` on, where there are `size` of them.
  unfoldable pub scenarios_text : (size i : ℕ) → List (ScenarioResult D) → Bytes
  unfolding scenario_text
  scenarios_text size i [] = []
  scenarios_text size i (scenario ∷ rest) =
      scenario_text scenario
      ++ codes "    }"
      ++ (if ltb (suc i) size then codes "," else [])
      ++ codes "\n"
      ++ scenarios_text size (suc i) rest

  unfoldable pub report_text : Config D → Summary D → List (ScenarioResult D) → Bytes
  unfolding scenarios_text
  report_text config s results =
      codes "{\n"
      ++ codes "  \"timestamp\": \""
      ++ json_escape_string s.timestamp
      ++ codes "\",\n"
      ++ codes "  \"ops_total\": "
      ++ to_string config.ops
      ++ codes ",\n"
      ++ codes "  \"duration_ms\": "
      ++ print s.duration_ms
      ++ codes ",\n"
      ++ codes "  \"ops_per_sec\": "
      ++ print s.ops_per_sec
      ++ codes ",\n"
      ++ codes "  \"p50_ms\": "
      ++ print s.p50
      ++ codes ",\n"
      ++ codes "  \"p95_ms\": "
      ++ print s.p95
      ++ codes ",\n"
      ++ codes "  \"p99_ms\": "
      ++ print s.p99
      ++ codes ",\n"
      ++ codes "  \"read_ops\": "
      ++ to_string s.read_ops
      ++ codes ",\n"
      ++ codes "  \"write_ops\": "
      ++ to_string s.write_ops
      ++ codes ",\n"
      ++ codes "  \"read_ratio\": "
      ++ print config.read_ratio
      ++ codes ",\n"
      ++ codes "  \"key_space\": "
      ++ to_string config.key_space
      ++ codes ",\n"
      ++ codes "  \"scenarios\": [\n"
      ++ scenarios_text (length results) 0 results
      ++ codes "  ]\n"
      ++ codes "}\n"
