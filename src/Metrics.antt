-- ===== src/Metrics.antt =====
-- src/metrics/prometheus_endpoint.hpp and .cpp, and the answer of `HandleMetricsClient` in
-- src/server/main.cpp. Each method holds the mutex throughout, so it is one step. The proofs are in the
-- modules below.
pub mod Order
pub mod Pages
mod Tests
use distributed_cache.Prelude.{
  ℕ, Bytes, bytes_key, bytes_ltb, is_empty, codes, Bool, not, Option, none, some, List, [], ◌∷◌,
  ◌++◌, length, if◌then◌else◌,
}
use distributed_cache.Prelude.Map.{Map}
use distributed_cache.Prelude.Decimal.{to_string}

-- All that the code does with a `double`: 0.0, 1.0, `+=`, and `<<` to a stream.
pub record Double {ℓ} (W : Type ℓ) : Type ℓ where
  pub zero : W
  pub one : W
  pub add : W → W → W
  pub print : W → Bytes

module _ {ℓ} (W : Type ℓ) where
  pub record Metric : Type ℓ where
    pub name : Bytes
    pub help : Bytes
    pub kind : Bytes
    pub value : W

  -- `std::map<std::string, Metric>` is a list in the order of the names.
  pub record PrometheusEndpoint : Type ℓ where
    pub metrics : Map Bytes Metric

  abbrev pub new_endpoint : PrometheusEndpoint
  new_endpoint = record { metrics = [] }

module _ {ℓ} {W : Type ℓ} ⦃d : Double W⦄ where
  -- What `metrics_[name]` makes of a missing entry.
  abbrev pub fresh_metric : Metric W
  fresh_metric = record { name = []; help = []; kind = []; value = d.zero }

  -- A write through the reference `metrics_[name]`.
  unfoldable pub with_metric :
      Bytes → (Metric W → Metric W) → Map Bytes (Metric W) → Map Bytes (Metric W)
  with_metric name write [] = (name, write fresh_metric) ∷ []
  with_metric name write (p ∷ m) =
      let rest = with_metric name write m in
      if bytes_ltb name p.0
      then (name, write fresh_metric) ∷ p ∷ m
      else if bytes_ltb p.0 name
      then p ∷ rest
      else (p.0, write p.1) ∷ m

  abbrev pub helped : Bytes → Metric W → Metric W
  helped help m = if not (is_empty help) then record m { help = help } else m

  unfoldable pub gauge_written : Bytes → W → Bytes → Metric W → Metric W
  gauge_written name value help m =
      record (helped help (record m { name = name; kind = codes "gauge" })) { value = value }

  unfoldable pub counter_written : Bytes → W → Bytes → Metric W → Metric W
  counter_written name amount help m =
      let n = helped help (record m { name = name; kind = codes "counter" }) in
      record n { value = d.add n.value amount }

  unfoldable pub set_gauge : Bytes → W → Bytes → PrometheusEndpoint W → PrometheusEndpoint W
  set_gauge name value help e = record {
    metrics = with_metric name (gauge_written name value help) e.metrics;
  }

  unfoldable pub increment_counter : Bytes → W → Bytes → PrometheusEndpoint W → PrometheusEndpoint W
  increment_counter name amount help e = record {
    metrics = with_metric name (counter_written name amount help) e.metrics;
  }

  -- The body of the loop of `RenderPrometheusMetrics`.
  unfoldable pub render_metric : Metric W → Bytes
  render_metric m =
      (if not (is_empty m.help)
        then codes "# HELP " ++ m.name ++ codes " " ++ m.help ++ 10 ∷ []
        else [])
      ++ (codes "# TYPE " ++ m.name ++ codes " " ++ m.kind ++ 10 ∷ [])
      ++ (m.name ++ codes " " ++ d.print m.value ++ 10 ∷ [])

  unfoldable pub render_metrics : Map Bytes (Metric W) → Bytes
  unfolding render_metric
  render_metrics [] = []
  render_metrics (p ∷ m) = render_metric p.1 ++ render_metrics m

  unfoldable pub render_prometheus_metrics : PrometheusEndpoint W → Bytes
  unfolding render_metrics
  render_prometheus_metrics e = render_metrics e.metrics

  -- What `HandleMetricsClient` sends.
  unfoldable pub metrics_response : PrometheusEndpoint W → Bytes
  unfolding render_prometheus_metrics to_string
  metrics_response e =
      let body = render_prometheus_metrics e in
      codes "HTTP/1.1 200 OK"
      ++ 13 ∷ 10 ∷ codes "Content-Type: text/plain; version=0.0.4"
      ++ 13 ∷ 10 ∷ []
      ++ (codes "Content-Length: " ++ to_string (length body) ++ 13 ∷ 10 ∷ 13 ∷ 10 ∷ [])
      ++ body
