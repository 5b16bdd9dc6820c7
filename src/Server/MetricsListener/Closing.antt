-- ===== src/Server/MetricsListener/Closing.antt =====
-- The descriptors of the metrics listener.
use mathlib.Core.List.{append-nil}
use distributed_cache.Prelude.{
  ℕ, true, false, some, List, [], ◌∷◌, ◌++◌, append_assoc, ◌⊎◌, inl, inr, Bool-cases, ◌≡◌, refl,
  sym, ◌∙◌,
}
use distributed_cache.Metrics.{Double, PrometheusEndpoint}
use distributed_cache.Server.MetricsListener.{
  SocketCalls, Round, stop_seen, select_interrupted, select_broken, nothing_ready, accept_refused,
  accepts, MetricsServer, serve_client, serve_rounds, create_listening_socket, run_metrics_server,
}

module _ {ℓ} {W : Type ℓ} ⦃d : Double W⦄ where
  -- The clients that are accepted before the loop is left, the last first, and the listening socket if it
  -- is left.
  unfoldable opened : ℕ → List (Round W) → List ℕ
  opened server_fd [] = []
  opened server_fd (stop_seen ∷ rs) = server_fd ∷ []
  opened server_fd (select_interrupted ∷ rs) = opened server_fd rs
  opened server_fd (select_broken ∷ rs) = server_fd ∷ []
  opened server_fd (nothing_ready ∷ rs) = opened server_fd rs
  opened server_fd (accept_refused ∷ rs) = opened server_fd rs
  opened server_fd (accepts client_fd b c sends ∷ rs) = opened server_fd rs ++ client_fd ∷ []

  serve_rounds_closes :
      (server_fd : ℕ) (rs : List (Round W)) (s : MetricsServer W)
      → (serve_rounds server_fd rs s).server.closed ≡ opened server_fd rs ++ s.closed
  unfolding serve_rounds serve_client opened
  serve_rounds_closes server_fd [] s = refl
  serve_rounds_closes server_fd (stop_seen ∷ rs) s = refl
  serve_rounds_closes server_fd (select_interrupted ∷ rs) s = serve_rounds_closes server_fd rs s
  serve_rounds_closes server_fd (select_broken ∷ rs) s = refl
  serve_rounds_closes server_fd (nothing_ready ∷ rs) s = serve_rounds_closes server_fd rs s
  serve_rounds_closes server_fd (accept_refused ∷ rs) s = serve_rounds_closes server_fd rs s
  serve_rounds_closes server_fd (accepts client_fd b c sends ∷ rs) s =
      serve_rounds_closes server_fd rs (serve_client client_fd b c sends s)
      ∙ sym (append_assoc (opened server_fd rs) (client_fd ∷ []) s.closed)

  serve_rounds_succeeds :
      (server_fd : ℕ) (rs : List (Round W)) (s : MetricsServer W)
      → (serve_rounds server_fd rs s).failed ≡ false
  unfolding serve_rounds
  serve_rounds_succeeds server_fd [] s = refl
  serve_rounds_succeeds server_fd (stop_seen ∷ rs) s = refl
  serve_rounds_succeeds server_fd (select_interrupted ∷ rs) s = serve_rounds_succeeds server_fd rs s
  serve_rounds_succeeds server_fd (select_broken ∷ rs) s = refl
  serve_rounds_succeeds server_fd (nothing_ready ∷ rs) s = serve_rounds_succeeds server_fd rs s
  serve_rounds_succeeds server_fd (accept_refused ∷ rs) s = serve_rounds_succeeds server_fd rs s
  serve_rounds_succeeds server_fd (accepts client_fd b c sends ∷ rs) s =
      serve_rounds_succeeds server_fd rs (serve_client client_fd b c sends s)

  -- Once the listening socket is made, it is either closed with a failure, or every client that was accepted
  -- is closed after its answer, and the socket itself when the loop is left.
  run_metrics_server_closes :
      (calls : SocketCalls) (rs : List (Round W)) (e : PrometheusEndpoint W) (fd : ℕ)
      → calls.socket ≡ some fd
      → (((run_metrics_server calls rs e).failed ≡ true)
          × ((run_metrics_server calls rs e).server.closed ≡ fd ∷ []))
        ⊎ (((run_metrics_server calls rs e).failed ≡ false)
            × ((run_metrics_server calls rs e).server.closed ≡ opened fd rs))
  unfolding create_listening_socket run_metrics_server
  run_metrics_server_closes calls rs e fd made = elim (Bool-cases calls.setsockopt) [
    | inr failing ↦ inl (rw (made, failing) (refl, refl))
    | inl reused ↦ elim (Bool-cases calls.bind) [
      | inr failing ↦ inl (rw (made, reused, failing) (refl, refl))
      | inl named ↦ elim (Bool-cases calls.listen) [
        | inr failing ↦ inl (rw (made, reused, named, failing) (refl, refl))
        | inl listens ↦ inr (
            rw (made, reused, named, listens)
              (
                serve_rounds_succeeds fd rs (record { metrics = e; answers = []; closed = [] }),
                serve_rounds_closes fd rs (record { metrics = e; answers = []; closed = [] })
                    ∙ append-nil (opened fd rs),
              ))
      ]
    ]
  ]
