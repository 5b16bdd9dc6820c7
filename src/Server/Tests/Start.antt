-- ===== src/Server/Tests/Start.antt =====
-- The theorem of src/server/main.cpp on the start, at concrete arguments.
use distributed_cache.Prelude.{
  ℕ, ◌+◌, pos, Bytes, ◌≡◌, refl, some, length, arith, bytes_eqb, codes, Bool, false,
}
use distributed_cache.Prelude.Decimal.{to_string}
use distributed_cache.Core.Store.{new_store, entries}
use distributed_cache.Core.Capacity.Loops.{IsReady}
use distributed_cache.Cluster.HashRing.Probing.{attempts_differ, attempts, no_repeat}
use distributed_cache.Cluster.Hash.{token_for}
use distributed_cache.Metrics.{Double}
use distributed_cache.Server.Args.{RuntimeOptions, default_config, default_options}
use distributed_cache.Server.Args.Accepted.{IsAccepted}
use distributed_cache.Server.Args.Rendering.{render_args, parse_args-render_args}
use distributed_cache.Server.Start.{start, to_size, grpc_address, serving, exits, bootstrap_metrics}
use distributed_cache.Server.Start.Serving.{outcome_of, start_serves}

instance abbrev start_double : Double ℕ
start_double = record { zero = 0; one = 1; add = ◌+◌; print = to_string }

-- Three virtual nodes.
abbrev small_options : RuntimeOptions
small_options = record default_options { config = record default_config { virtual_nodes = pos 3 } }

small_options-IsAccepted : IsAccepted small_options
small_options-IsAccepted = record {
  shard_count = (64, refl, omega arith, omega arith);
  virtual_nodes = (3, refl, omega arith, omega arith);
  listen_port = (6379, refl, omega arith, omega arith);
  grpc_port = (50051, refl, omega arith, omega arith);
  metrics_port = (9100, refl, omega arith, omega arith);
  max_resp_clients = (256, refl, omega arith, omega arith);
  resp_idle_timeout_ms = (30000, refl, omega arith, omega arith);
  node_id = λ e. cc;
  run_for = tt;
}

-- Only one port is free.
abbrev free_port : Bytes → Bool
free_port address = bytes_eqb address (codes "0.0.0.0:50051")

start_serves_example :
    (start {W = ℕ} free_port 3 (render_args small_options)
      ≡ some (outcome_of free_port small_options))
    × (length (new_store (to_size small_options.config.shard_count) 0).stripes ≡ 64)
    × ((hash : Bytes → ℕ) → IsReady hash (new_store (to_size small_options.config.shard_count) 0))
    × (entries (new_store (to_size small_options.config.shard_count) 0) ≡ 0)
unfolding attempts_differ attempts no_repeat token_for
start_serves_example =
    start_serves free_port 3 (render_args small_options) small_options
      (parse_args-render_args small_options small_options-IsAccepted) (omega arith) refl

serves_at_free_port :
    outcome_of {W = ℕ} free_port small_options
    ≡ serving
        (record { store = new_store 64 0; metrics = bootstrap_metrics; options = small_options })
unfolding grpc_address to_string to_size
serves_at_free_port = refl

-- Where the port is taken, the program ends.
taken_grpc_port : outcome_of {W = ℕ} (λ address. false) small_options ≡ exits 1
taken_grpc_port = refl
