-- ===== src/Server/MetricsListener.antt =====
-- src/server/main.cpp: `CreateListeningSocket`, `HandleMetricsClient` and `RunMetricsServer`. What the system
-- calls return, and the calls of other threads on the metrics, are arguments.
pub mod Closing
use distributed_cache.Prelude.{
  ℕ, Bytes, codes, Bool, true, false, Option, none, some, List, [], ◌∷◌, ◌++◌, if◌then◌else◌,
}
use distributed_cache.Metrics.{Double, PrometheusEndpoint, increment_counter, metrics_response}
use distributed_cache.Metrics.Pages.{Call, run}
use distributed_cache.Server.Session.Sending.{SendResult, Sending, send_all}

-- `none` and `false` are errors.
pub record SocketCalls : Type 0 where
  pub socket : Option ℕ
  pub setsockopt : Bool
  pub bind : Bool
  pub listen : Bool
  pub getsockname : Option ℕ

-- The descriptor, or -1, the bound port, and the descriptors that were closed.
pub record Listening : Type 0 where
  pub server_fd : Option ℕ
  pub bound_port : ℕ
  pub closed : List ℕ

abbrev pub gives_up : ℕ → Listening
gives_up fd = record { server_fd = none; bound_port = 0; closed = fd ∷ [] }

abbrev pub bound_to : Option ℕ → ℕ
bound_to none = 0
bound_to (some port) = port

unfoldable pub create_listening_socket : SocketCalls → Listening
create_listening_socket calls = elim calls.socket [
  | none ↦ record { server_fd = none; bound_port = 0; closed = [] }
  | some fd ↦
      if calls.setsockopt
      then if calls.bind
        then if calls.listen
          then record { server_fd = some fd; bound_port = bound_to calls.getsockname; closed = [] }
          else gives_up fd
        else gives_up fd
      else gives_up fd
]

module _ {ℓ} (W : Type ℓ) where
  -- A round of the loop, after the test of `stop`: what `select` and `accept` return. With a client come the
  -- calls of other threads on the metrics before the count and before the page, and what `send` returns.
  pub data Round : Type ℓ where
    stop_seen : Round
    select_interrupted : Round
    select_broken : Round
    nothing_ready : Round
    accept_refused : Round
    accepts :
        (client_fd : ℕ) (before_count before_page : List (Call W)) (sends : List SendResult) → Round

  -- What was sent to each client, and the descriptors that were closed, the last first.
  pub record MetricsServer : Type ℓ where
    pub metrics : PrometheusEndpoint W
    pub answers : List (ℕ × Sending)
    pub closed : List ℕ

  -- The function is in its loop yet, or has returned; `failed` and `stop` are the flags that it set.
  pub record RunEnd : Type ℓ where
    pub server : MetricsServer
    pub returned : Bool
    pub failed : Bool
    pub stop : Bool

module _ {ℓ} {W : Type ℓ} ⦃d : Double W⦄ where
  -- The count of the scrape, `HandleMetricsClient`, and the close.
  unfoldable pub serve_client :
      ℕ → List (Call W) → List (Call W) → List SendResult → MetricsServer W → MetricsServer W
  unfolding increment_counter metrics_response send_all run
  serve_client client_fd before_count before_page sends s =
      let counted =
        increment_counter (codes "cache_metrics_requests_total") d.one
          (codes "Total metrics scrapes") (run before_count s.metrics) in
      let rendered = run before_page counted in
      record {
        metrics = rendered;
        answers = (client_fd, send_all sends (metrics_response rendered) []) ∷ s.answers;
        closed = client_fd ∷ s.closed;
      }

  -- After the loop.
  abbrev pub close_server : ℕ → MetricsServer W → RunEnd W
  close_server server_fd s = record {
    server = record s { closed = server_fd ∷ s.closed };
    returned = true;
    failed = false;
    stop = false;
  }

  unfoldable pub serve_rounds : ℕ → List (Round W) → MetricsServer W → RunEnd W
  unfolding serve_client
  serve_rounds server_fd [] s = record {
    server = s;
    returned = false;
    failed = false;
    stop = false;
  }
  serve_rounds server_fd (stop_seen ∷ rs) s = close_server server_fd s
  serve_rounds server_fd (select_interrupted ∷ rs) s = serve_rounds server_fd rs s
  serve_rounds server_fd (select_broken ∷ rs) s = close_server server_fd s
  serve_rounds server_fd (nothing_ready ∷ rs) s = serve_rounds server_fd rs s
  serve_rounds server_fd (accept_refused ∷ rs) s = serve_rounds server_fd rs s
  serve_rounds server_fd (accepts client_fd before_count before_page sends ∷ rs) s =
      serve_rounds server_fd rs (serve_client client_fd before_count before_page sends s)

  unfoldable pub run_metrics_server : SocketCalls → List (Round W) → PrometheusEndpoint W → RunEnd W
  unfolding create_listening_socket serve_rounds
  run_metrics_server calls rounds metrics =
      let listening = create_listening_socket calls in
      let start : MetricsServer W = record {
        metrics = metrics;
        answers = [];
        closed = listening.closed;
      } in
      elim listening.server_fd [
        | none ↦ record { server = start; returned = true; failed = true; stop = true }
        | some server_fd ↦ serve_rounds server_fd rounds start
      ]
