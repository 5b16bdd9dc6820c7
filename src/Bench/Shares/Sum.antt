-- ===== src/Bench/Shares/Sum.antt =====
-- The sum is exact, or refused.
use distributed_cache.Prelude.{
  ℕ, ◌+◌, ◌-◌, ◌^◌, ◌<◌, ltb, ◌≡◌, ap, ◌∙◌, Option, none, some, List, [], ◌∷◌, sum_by, arith,
  Bool-cases, inl, inr, if◌then◌else◌,
}
use distributed_cache.Bench.Shares.{ScenarioSpec, sum_from, sum_scenario_requests}

-- The sum without a bound.
abbrev pub all_requests : List ScenarioSpec → ℕ
all_requests = sum_by (λ s. s.requests)

-- A number that a `size_t` holds.
abbrev pub bounded : ℕ → Option ℕ
bounded n = if ltb n (2 ^ 64) then some n else none

sum_from-all_requests :
    (total : ℕ) (scenarios : List ScenarioSpec)
    → total < 2 ^ 64
    → sum_from total scenarios ≡ bounded (total + all_requests scenarios)
unfolding sum_from
sum_from-all_requests total [] h = ground arith
sum_from-all_requests total (s ∷ scenarios) h =
    elim (Bool-cases (ltb (2 ^ 64 - 1 - total) s.requests)) [
      | inl over ↦ ground (arith, over)
      | inr fits ↦
          rw (sum_from, fits)
            (sum_from-all_requests (total + s.requests) scenarios (ground (arith, fits))
              ∙ ap bounded (omega arith))
    ]

-- `SumScenarioRequests` gives the sum of the requests if it is below 2^64, and refuses otherwise: its
-- test before each addition is the test of the sum, and no addition wraps around.
pub sum_scenario_requests-all_requests :
    (scenarios : List ScenarioSpec)
    → sum_scenario_requests scenarios ≡ bounded (all_requests scenarios)
unfolding sum_scenario_requests
sum_scenario_requests-all_requests scenarios =
    sum_from-all_requests 0 scenarios (omega arith) ∙ ap bounded (omega arith)
