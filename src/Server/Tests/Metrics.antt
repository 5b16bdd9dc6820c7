-- ===== src/Server/Tests/Metrics.antt =====
-- src/server/main.cpp: the metrics listener at concrete inputs.
use distributed_cache.Prelude.{ℕ, ◌+◌, ◌≡◌, refl, some, true, false, [], ◌∷◌}
use distributed_cache.Prelude.Decimal.{to_string}
use distributed_cache.Metrics.{Double, new_endpoint}
use distributed_cache.Server.Session.Sending.{took}
use distributed_cache.Server.MetricsListener.{
  SocketCalls, nothing_ready, accepts, stop_seen, run_metrics_server,
}

instance abbrev whole_numbers : Double ℕ
whole_numbers = record { zero = 0; one = 1; add = λ a b. a + b; print = to_string }

abbrev socket_calls : SocketCalls
socket_calls = record {
  socket = some 3;
  setsockopt = true;
  bind = true;
  listen = true;
  getsockname = some 9100;
}

-- One scrape, and the stop: both descriptors are closed.
one_scrape :
    (run_metrics_server socket_calls
      (nothing_ready ∷ accepts 5 [] [] (took 400 ∷ []) ∷ stop_seen ∷ [])
      (new_endpoint ℕ)).server.closed
    ≡ 3 ∷ 5 ∷ []
unfolding run_metrics_server
one_scrape = refl

-- A port that is taken.
taken_port :
    (run_metrics_server {W = ℕ} (record socket_calls { bind = false }) [] (new_endpoint ℕ)).failed
    ≡ true
unfolding run_metrics_server
taken_port = refl
