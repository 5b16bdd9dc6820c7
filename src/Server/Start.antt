-- ===== src/Server/Start.antt =====
-- src/server/main.cpp: `main` up to the start of its threads. Whether gRPC's `BuildAndStart` gives a server
-- is an argument. The proofs are in Serving below.
pub mod Serving
use distributed_cache.Prelude.{
  ℕ, suc, ◌-◌, ◌^◌, ℤ, pos, negsuc, Bytes, is_empty, codes, Option, none, some, List, if◌then◌else◌,
  returns, throws, Bool, not, ◌++◌,
}
use distributed_cache.Prelude.Decimal.{to_string}
use distributed_cache.Core.Store.{Store, new_store}
use distributed_cache.Cluster.HashRing.{new_ring, add_node, route_key_to_node}
use distributed_cache.Metrics.{Double, PrometheusEndpoint, new_endpoint, set_gauge}
use distributed_cache.Server.Args.{RuntimeOptions, accepted, refused, parse_args}

-- What the server runs on.
pub record Running {ℓ} (W : Type ℓ) : Type ℓ where
  pub store : Store
  pub metrics : PrometheusEndpoint W
  pub options : RuntimeOptions

-- How the start ends: `main` returns, an exception leaves it, or the server runs.
pub data Started {ℓ} (W : Type ℓ) : Type ℓ where
  exits : (code : ℕ) → Started W
  terminates : Started W
  serving : Running W → Started W

-- `static_cast<size_t>` of an `int`.
unfoldable pub to_size : ℤ → ℕ
to_size (pos n) = n
to_size (negsuc n) = 2 ^ 64 - suc n

-- The address of the gRPC server.
unfoldable pub grpc_address : ℤ → Bytes
unfolding to_string
grpc_address (pos port) = codes "0.0.0.0:" ++ to_string port
grpc_address (negsuc port) = codes "0.0.0.0:-" ++ to_string (suc port)

module _ {ℓ} {W : Type ℓ} ⦃d : Double W⦄ where
  abbrev pub bootstrap_metrics : PrometheusEndpoint W
  bootstrap_metrics =
      set_gauge (codes "cache_bootstrap_ok") d.one (codes "Cache node bootstrap status")
        (new_endpoint W)

  -- From the options on; `none` means that the fuel of `AddNode` ran out. `builds` tells whether
  -- `BuildAndStart` gives a server at an address.
  unfoldable pub start_with : (builds : Bytes → Bool) → ℕ → RuntimeOptions → Option (Started W)
  unfolding to_size grpc_address
  start_with builds fuel o = elim (add_node fuel o.config.node_id o.config.virtual_nodes new_ring) [
    | throws e ↦ some terminates
    | returns none ↦ none
    | returns (some ring) ↦
        if is_empty (route_key_to_node ring (codes "bootstrap"))
        then some (exits 1)
        else if o.dry_run
        then some (exits 0)
        else if not (builds (grpc_address o.config.grpc_port))
        then some (exits 1)
        else some (
            serving (record {
              store = new_store (to_size o.config.shard_count) 0;
              metrics = bootstrap_metrics;
              options = o;
            }))
  ]

  unfoldable pub start : (builds : Bytes → Bool) → ℕ → List Bytes → Option (Started W)
  start builds fuel args = elim (parse_args args) [
    | refused message ↦ some (exits 1)
    | accepted o ↦ start_with builds fuel o
  ]
