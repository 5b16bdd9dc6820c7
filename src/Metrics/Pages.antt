-- ===== src/Metrics/Pages.antt =====
-- On the page after any calls of any threads.
use distributed_cache.Prelude.{
  Bytes, bytes_key, bytes_eqb, bytes_eqb_iff, ◌≡◌, refl, sym, ap, ◌∙◌, true, false, Option, some,
  List, [], ◌∷◌, Bool-cases, inl, inr, if◌then◌else◌,
}
use distributed_cache.Prelude.Map.{Map, lookup}
use distributed_cache.Metrics.{
  Double, Metric, PrometheusEndpoint, new_endpoint, gauge_written, counter_written, set_gauge,
  increment_counter, metrics_response,
}
use distributed_cache.Metrics.Order.{
  IsSorted, current, with_metric-IsSorted, lookup-with_metric, lookup_ext,
}

-- The calls that write.
pub data Call {ℓ} (W : Type ℓ) : Type ℓ where
  sets_gauge : (name : Bytes) (value : W) (help : Bytes) → Call W
  increments : (name : Bytes) (amount : W) (help : Bytes) → Call W

module _ {ℓ} {W : Type ℓ} where
  abbrev pub name_of : Call W → Bytes
  name_of (sets_gauge name value help) = name
  name_of (increments name amount help) = name

  -- The calls about one name, in their order.
  unfoldable pub about : Bytes → List (Call W) → List (Call W)
  about name [] = []
  about name (c ∷ cs) =
      let rest = about name cs in if bytes_eqb (name_of c) name then c ∷ rest else rest

module _ {ℓ} {W : Type ℓ} ⦃d : Double W⦄ where
  abbrev pub step : Call W → PrometheusEndpoint W → PrometheusEndpoint W
  step (sets_gauge name value help) e = set_gauge name value help e
  step (increments name amount help) e = increment_counter name amount help e

  unfoldable pub run : List (Call W) → PrometheusEndpoint W → PrometheusEndpoint W
  run [] e = e
  run (c ∷ cs) e = run cs (step c e)

  -- What a call writes to its metric.
  abbrev pub written : Call W → Metric W → Metric W
  written (sets_gauge name value help) m = gauge_written name value help m
  written (increments name amount help) m = counter_written name amount help m

  -- One metric through the calls about it.
  unfoldable pub history : List (Call W) → Option (Metric W) → Option (Metric W)
  history [] m = m
  history (c ∷ cs) m = history cs (some (written c (current m)))

  step-IsSorted :
      (c : Call W) (e : PrometheusEndpoint W) → IsSorted e.metrics → IsSorted (step c e).metrics
  unfolding set_gauge increment_counter
  step-IsSorted (sets_gauge name value help) e s = with_metric-IsSorted name _ e.metrics s
  step-IsSorted (increments name amount help) e s = with_metric-IsSorted name _ e.metrics s

  run-IsSorted :
      (cs : List (Call W)) (e : PrometheusEndpoint W)
      → IsSorted e.metrics
      → IsSorted (run cs e).metrics
  unfolding run
  run-IsSorted [] e s = s
  run-IsSorted (c ∷ cs) e s = run-IsSorted cs (step c e) (step-IsSorted c e s)

  lookup-step :
      (c : Call W) (k : Bytes) (e : PrometheusEndpoint W)
      → IsSorted e.metrics
      → lookup k (step c e).metrics ≡ (
          if bytes_eqb (name_of c) k
          then some (written c (current (lookup (name_of c) e.metrics)))
          else lookup k e.metrics)
  unfolding set_gauge increment_counter
  lookup-step (sets_gauge name value help) k e s = lookup-with_metric name k _ e.metrics s
  lookup-step (increments name amount help) k e s = lookup-with_metric name k _ e.metrics s

  lookup-step_same :
      (c : Call W) (k : Bytes) (e : PrometheusEndpoint W)
      → IsSorted e.metrics
      → bytes_eqb (name_of c) k ≡ true
      → lookup k (step c e).metrics ≡ some (written c (current (lookup k e.metrics)))
  lookup-step_same c k e s same =
      let named : name_of c ≡ k = (bytes_eqb_iff (name_of c) k).0 same in
      lookup-step c k e s
      ∙ rw same (ap (λ j. some (written c (current (lookup j e.metrics)))) named)

  lookup-step_other :
      (c : Call W) (k : Bytes) (e : PrometheusEndpoint W)
      → IsSorted e.metrics
      → bytes_eqb (name_of c) k ≡ false
      → lookup k (step c e).metrics ≡ lookup k e.metrics
  lookup-step_other c k e s other = lookup-step c k e s ∙ rw other refl

  lookup-run :
      (cs : List (Call W)) (k : Bytes) (e : PrometheusEndpoint W)
      → IsSorted e.metrics
      → lookup k (run cs e).metrics ≡ history (about k cs) (lookup k e.metrics)
  unfolding run about history
  lookup-run [] k e s = refl
  lookup-run (c ∷ cs) k e s = elim (Bool-cases (bytes_eqb (name_of c) k)) [
    | inl same ↦ rw same (
        lookup-run cs k (step c e) (step-IsSorted c e s)
        ∙ ap (history (about k cs)) (lookup-step_same c k e s same))
    | inr other ↦ rw other (
        lookup-run cs k (step c e) (step-IsSorted c e s)
        ∙ ap (history (about k cs)) (lookup-step_other c k e s other))
  ]

  -- The page that `HandleMetricsClient` answers with is the same after any two sequences of calls on a
  -- new endpoint that tell each metric the same things in the same order: how threads interleave their
  -- calls about different metrics does not show.
  pub metrics_response-run :
      (cs ds : List (Call W))
      → ((name : Bytes) → about name cs ≡ about name ds)
      → metrics_response (run cs (new_endpoint W)) ≡ metrics_response (run ds (new_endpoint W))
  metrics_response-run cs ds same =
      let e = new_endpoint W in
      ap (λ (m : Map Bytes (Metric W)). metrics_response (record { metrics = m }))
        (lookup_ext (run cs e).metrics (run ds e).metrics (run-IsSorted cs e tt)
          (run-IsSorted ds e tt)
          λ k.
            lookup-run cs k e tt
            ∙ ap (λ l. history l (lookup k e.metrics)) (same k)
            ∙ sym (lookup-run ds k e tt))
