-- ===== src/Bench/Report.antt =====
-- src/bench/cache_bench.cpp: the percentiles, and the results of the scenarios.
pub mod Rows
pub mod Text
use distributed_cache.Prelude.{
  ℕ, suc, ◌-◌, Bytes, bytes_eqb, codes, ltb, Bool, Option, none, some, List, [], ◌∷◌, length,
  get_elem?, if◌then◌else◌,
}
use distributed_cache.Bench.Shares.{ScenarioSpec, size_add}
use distributed_cache.Bench.Coalescing.{CoalescingBenchmarkResult}

-- All that `Percentile` does with a `double`.
pub record Interpolation {ℓ} (D : Type ℓ) : Type ℓ where
  pub zero_double : D
  pub one_double : D
  pub add : D → D → D
  pub sub : D → D → D
  pub mul : D → D → D
  pub below : D → D → Bool
  pub from_size : ℕ → D
  pub to_size : D → ℕ

pub record ScenarioResult {ℓ} (D : Type ℓ) : Type ℓ where
  pub name : Bytes
  pub requests : ℕ
  pub ops_per_sec : D
  pub p50_ms : D
  pub p99_ms : D
  pub error_rate : D
  pub coalescing_hit_ratio : D
  pub duplicate_backend_hits : D
  pub status : Bytes

module _ {ℓ} {D : Type ℓ} (d : Interpolation D) where
  -- `std::max` and `std::min` with the bounds.
  unfoldable pub clamped : D → D
  clamped percentile =
      let least = if d.below percentile d.zero_double then d.zero_double else percentile in
      if d.below d.one_double least then d.one_double else least

  -- `none` is a read out of bounds.
  unfoldable pub between : List D → D → Option D
  unfolding size_add
  between sorted idx =
      let lower = d.to_size idx in
      let next = size_add lower 1 in
      let upper = if ltb (length sorted - 1) next then length sorted - 1 else next in
      let frac = d.sub idx (d.from_size lower) in
      elim (get_elem? sorted lower) [
        | none ↦ none
        | some a ↦ elim (get_elem? sorted upper) [
          | none ↦ none
          | some b ↦ some (d.add a (d.mul (d.sub b a) frac))
        ]
      ]

  unfoldable pub percentile : List D → D → Option D
  unfolding clamped between
  percentile [] p = some d.zero_double
  percentile (x ∷ sorted) p =
      between (x ∷ sorted)
        (d.mul (clamped p) (d.sub (d.from_size (length (x ∷ sorted))) d.one_double))

  -- What all scenarios have in common.
  pub record Totals : Type ℓ where
    pub ops_per_sec : D
    pub p50 : D
    pub p99 : D
    pub coalescing_off : CoalescingBenchmarkResult D
    pub coalescing_on : CoalescingBenchmarkResult D

  -- The ratio and the duplicates that are reported under a name.
  unfoldable pub coalescing_of : Totals → Bytes → CoalescingBenchmarkResult D
  coalescing_of t name =
      if bytes_eqb name (codes "coalescing_off")
      then t.coalescing_off
      else if bytes_eqb name (codes "coalescing_on")
      then t.coalescing_on
      else record { duplicate_backend_hits = d.zero_double; coalescing_hit_ratio = d.zero_double }

  unfoldable pub scenario_result : Totals → ScenarioSpec → ℕ → ScenarioResult D
  unfolding coalescing_of
  scenario_result t spec requests = record {
    name = spec.name;
    requests = requests;
    ops_per_sec = t.ops_per_sec;
    p50_ms = t.p50;
    p99_ms = t.p99;
    error_rate = d.zero_double;
    coalescing_hit_ratio = (coalescing_of t spec.name).coalescing_hit_ratio;
    duplicate_backend_hits = (coalescing_of t spec.name).duplicate_backend_hits;
    status = codes "ok";
  }

  -- The loop over the scenarios, from the index `i` on; `none` is a read of `scenario_requests` out of bounds.
  unfoldable pub scenario_results :
      Totals → List ℕ → (i : ℕ) → List ScenarioSpec → Option (List (ScenarioResult D))
  unfolding scenario_result
  scenario_results t requests i [] = some []
  scenario_results t requests i (spec ∷ specs) = elim (get_elem? requests i) [
    | none ↦ none
    | some r ↦ elim (scenario_results t requests (suc i) specs) [
      | none ↦ none
      | some results ↦ some (scenario_result t spec r ∷ results)
    ]
  ]
