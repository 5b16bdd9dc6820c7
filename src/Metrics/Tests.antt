-- ===== src/Metrics/Tests.antt =====
-- The theorem of src/metrics/prometheus_endpoint.cpp at a concrete input, and runs.
use distributed_cache.Prelude.{
  ℕ, ◌+◌, Bytes, bytes_eqb, bytes_eqb_iff, true, codes, ◌≡◌, refl, Bool-cases, inl, inr, List, [],
  ◌∷◌,
}
use distributed_cache.Prelude.Decimal.{to_string}
use distributed_cache.Metrics.{
  Double, new_endpoint, with_metric, gauge_written, set_gauge, render_prometheus_metrics,
  metrics_response,
}
use distributed_cache.Metrics.Pages.{Call, sets_gauge, increments, about, run, metrics_response-run}

-- Whole numbers stand for the doubles.
instance abbrev nat_double : Double ℕ
nat_double = record { zero = 0; one = 1; add = ◌+◌; print = to_string }

abbrev gauge_first : List (Call ℕ)
gauge_first = sets_gauge (codes "up") 1 (codes "h") ∷ increments (codes "n") 2 [] ∷ []

abbrev counter_first : List (Call ℕ)
counter_first = increments (codes "n") 2 [] ∷ sets_gauge (codes "up") 1 (codes "h") ∷ []

two_names :
    (name : Bytes) → bytes_eqb (codes "up") name ≡ true → bytes_eqb (codes "n") name ≡ true → ⊥
two_names name up n =
    let a = (bytes_eqb_iff (codes "up") name).0 up in
    let b = (bytes_eqb_iff (codes "n") name).0 n in cc

metrics_response-run_example :
    metrics_response (run gauge_first (new_endpoint ℕ))
    ≡ metrics_response (run counter_first (new_endpoint ℕ))
unfolding about
metrics_response-run_example = metrics_response-run gauge_first counter_first λ name.
    elim (Bool-cases (bytes_eqb (codes "up") name)) [
      | inl up ↦ elim (Bool-cases (bytes_eqb (codes "n") name)) [
        | inl n ↦ absurd (two_names name up n)
        | inr other ↦ rw (up, other) refl
      ]
      | inr down ↦ rw down refl
    ]

one_gauge :
    render_prometheus_metrics (set_gauge (codes "up") 1 (codes "h") (new_endpoint ℕ))
    ≡ codes "# HELP up h\n# TYPE up gauge\nup 1\n"
unfolding render_prometheus_metrics set_gauge with_metric gauge_written to_string
one_gauge = refl
