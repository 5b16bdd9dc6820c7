-- ===== src/Server/Args/Rendering.antt =====
-- On the arguments that stand for given options.
use distributed_cache.Prelude.{
  ℕ, ◌-◌, ◌^◌, ℤ, pos_part, Bytes, is_empty, codes, ◌≡◌, ◌≢◌, refl, Bool, true, false, Option, none,
  some, List, [], ◌∷◌, ◌++◌, append_assoc, ap, ◌∙◌, arith,
}
use distributed_cache.Prelude.Decimal.{to_string}
use distributed_cache.Protocol.Resp.{parse_number}
use distributed_cache.Protocol.Resp.Reading.{parse_number-to_string}
use distributed_cache.Server.Args.{
  NodeConfig, RuntimeOptions, default_options, accepted, after_prefix, parse_int_flag,
  parse_duration_flag, parse_string_flag, on_flag, configured, set_idle_timeout, parse_port_arg,
  parse_arg, port_in_range, check_options, parse_from, parse_args,
}
use distributed_cache.Server.Args.Accepted.{Within, RunFor, IsAccepted}

-- A number that is not negative, in decimal digits.
unfoldable pub show : ℤ → Bytes
show z = to_string (pos_part z)

abbrev pub render_dry_run : Bool → List Bytes
render_dry_run true = codes "--dry-run" ∷ []
render_dry_run false = []

unfoldable pub render_run_for : Option ℤ → List Bytes
render_run_for none = []
render_run_for (some ms) = (codes "--run-for-ms=" ++ show ms) ∷ []

unfoldable pub render_config : NodeConfig → List Bytes
render_config c =
    (codes "--shard-count=" ++ show c.shard_count)
    ∷ (codes "--virtual-nodes=" ++ show c.virtual_nodes)
    ∷ (codes "--max-resp-clients=" ++ show c.max_resp_clients)
    ∷ (codes "--listen-port=" ++ show c.listen_port)
    ∷ (codes "--grpc-port=" ++ show c.grpc_port)
    ∷ (codes "--metrics-port=" ++ show c.metrics_port)
    ∷ (codes "--resp-idle-timeout-ms=" ++ show c.resp_idle_timeout_ms)
    ∷ (codes "--node-id=" ++ c.node_id)
    ∷ []

-- Arguments that spell every option out.
unfoldable pub render_args : RuntimeOptions → List Bytes
unfolding render_run_for render_config
render_args o = render_dry_run o.dry_run ++ render_run_for o.run_for ++ render_config o.config

parse_number-show : (z : ℤ) → Within 0 (2 ^ 63 - 1) z → parse_number (show z) ≡ some z
unfolding show
parse_number-show z (n, e, lo, hi) = rw e (parse_number-to_string n (omega arith))

-- A port is an `int`.
wider : (z : ℤ) → Within 0 65535 z → Within 0 2147483647 z
wider z (n, e, lo, hi) = (n, e, lo, omega arith)

module _ (o : RuntimeOptions) (z : ℤ) (lo : ℕ) (w : Within lo 2147483647 z) where
  number_read : parse_number (show z) ≡ some z
  number_read = parse_number-show z (w.0, w.1, omega arith, omega (arith, w.3))

  shard_count_read :
      parse_arg (codes "--shard-count=" ++ show z) o
      ≡ accepted (record o { config = record o.config { shard_count = z } })
  unfolding parse_arg parse_port_arg on_flag configured parse_duration_flag parse_int_flag
      parse_string_flag after_prefix
  shard_count_read = ground (arith, number_read, w.1, w.2, w.3)

  virtual_nodes_read :
      parse_arg (codes "--virtual-nodes=" ++ show z) o
      ≡ accepted (record o { config = record o.config { virtual_nodes = z } })
  unfolding parse_arg parse_port_arg on_flag configured parse_duration_flag parse_int_flag
      parse_string_flag after_prefix
  virtual_nodes_read = ground (arith, number_read, w.1, w.2, w.3)

  max_resp_clients_read :
      parse_arg (codes "--max-resp-clients=" ++ show z) o
      ≡ accepted (record o { config = record o.config { max_resp_clients = z } })
  unfolding parse_arg parse_port_arg on_flag configured parse_duration_flag parse_int_flag
      parse_string_flag after_prefix
  max_resp_clients_read = ground (arith, number_read, w.1, w.2, w.3)

  listen_port_read :
      parse_arg (codes "--listen-port=" ++ show z) o
      ≡ accepted (record o { config = record o.config { listen_port = z } })
  unfolding parse_arg parse_port_arg on_flag configured parse_duration_flag parse_int_flag
      parse_string_flag after_prefix
  listen_port_read = ground (arith, number_read, w.1, w.2, w.3)

  grpc_port_read :
      parse_arg (codes "--grpc-port=" ++ show z) o
      ≡ accepted (record o { config = record o.config { grpc_port = z } })
  unfolding parse_arg parse_port_arg on_flag configured parse_duration_flag parse_int_flag
      parse_string_flag after_prefix
  grpc_port_read = ground (arith, number_read, w.1, w.2, w.3)

  metrics_port_read :
      parse_arg (codes "--metrics-port=" ++ show z) o
      ≡ accepted (record o { config = record o.config { metrics_port = z } })
  unfolding parse_arg parse_port_arg on_flag configured parse_duration_flag parse_int_flag
      parse_string_flag after_prefix
  metrics_port_read = ground (arith, number_read, w.1, w.2, w.3)

  idle_timeout_read :
      parse_arg (codes "--resp-idle-timeout-ms=" ++ show z) o
      ≡ accepted (record o { config = record o.config { resp_idle_timeout_ms = z } })
  unfolding parse_arg parse_port_arg on_flag configured parse_duration_flag set_idle_timeout
      parse_int_flag parse_string_flag after_prefix
  idle_timeout_read = ground (arith, number_read, w.1, w.2, w.3)

run_for_read :
    (o : RuntimeOptions) (z : ℤ)
    → Within 0 (2 ^ 63 - 1) z
    → parse_arg (codes "--run-for-ms=" ++ show z) o ≡ accepted (record o { run_for = some z })
unfolding parse_arg parse_port_arg on_flag configured parse_duration_flag parse_int_flag
    parse_string_flag after_prefix
run_for_read o z w = ground (arith, parse_number-show z w, w.1, w.2, w.3)

node_id_read :
    (o : RuntimeOptions) (b : Bytes)
    → parse_arg (codes "--node-id=" ++ b) o
      ≡ accepted (record o { config = record o.config { node_id = b } })
unfolding parse_arg parse_port_arg on_flag configured parse_duration_flag parse_int_flag
    parse_string_flag after_prefix
node_id_read o b = refl

dry_run_read :
    (o : RuntimeOptions) → parse_arg (codes "--dry-run") o ≡ accepted (record o { dry_run = true })
unfolding parse_arg
dry_run_read o = refl

-- One argument that is accepted.
parse_from-accepted :
    (arg : Bytes) (args : List Bytes) (o p : RuntimeOptions)
    → parse_arg arg o ≡ accepted p
    → parse_from (arg ∷ args) o ≡ parse_from args p
unfolding parse_from
parse_from-accepted arg args o p e = ground (arith, e)

is_empty_named : (b : Bytes) → b ≢ [] → is_empty b ≡ false
is_empty_named [] h = absurd (h refl)
is_empty_named (c ∷ cs) h = refl

check_options-accepted : (o : RuntimeOptions) → IsAccepted o → check_options o ≡ accepted o
unfolding check_options port_in_range
check_options-accepted o a = ground (
  arith,
  a.shard_count,
  a.virtual_nodes,
  a.listen_port,
  a.grpc_port,
  a.metrics_port,
  a.max_resp_clients,
  a.resp_idle_timeout_ms,
  is_empty_named o.config.node_id a.node_id,
)

parse_from-nil : (o : RuntimeOptions) → parse_from [] o ≡ check_options o
unfolding parse_from
parse_from-nil o = refl

parse_from-render_config :
    (o : RuntimeOptions) (c : NodeConfig)
    → IsAccepted (record o { config = c })
    → parse_from (render_config c) o ≡ accepted (record o { config = c })
unfolding render_config
parse_from-render_config o c a =
    let b = o.config in
    let c1 = record b { shard_count = c.shard_count } in
    let c2 = record c1 { virtual_nodes = c.virtual_nodes } in
    let c3 = record c2 { max_resp_clients = c.max_resp_clients } in
    let c4 = record c3 { listen_port = c.listen_port } in
    let c5 = record c4 { grpc_port = c.grpc_port } in
    let c6 = record c5 { metrics_port = c.metrics_port } in
    let c7 = record c6 { resp_idle_timeout_ms = c.resp_idle_timeout_ms } in
    parse_from-accepted _ _ o (record o { config = c1 }) (shard_count_read o _ 1 a.shard_count)
    ∙ parse_from-accepted _ _ _ (record o { config = c2 })
        (virtual_nodes_read _ _ 1 a.virtual_nodes)
    ∙ parse_from-accepted _ _ _ (record o { config = c3 })
        (max_resp_clients_read _ _ 1 a.max_resp_clients)
    ∙ parse_from-accepted _ _ _ (record o { config = c4 })
        (listen_port_read _ _ 0 (wider _ a.listen_port))
    ∙ parse_from-accepted _ _ _ (record o { config = c5 })
        (grpc_port_read _ _ 0 (wider _ a.grpc_port))
    ∙ parse_from-accepted _ _ _ (record o { config = c6 })
        (metrics_port_read _ _ 0 (wider _ a.metrics_port))
    ∙ parse_from-accepted _ _ _ (record o { config = c7 })
        (idle_timeout_read _ _ 1 a.resp_idle_timeout_ms)
    ∙ parse_from-accepted _ _ _ (record o { config = c }) (node_id_read _ c.node_id)
    ∙ parse_from-nil (record o { config = c })
    ∙ check_options-accepted (record o { config = c }) a

parse_from-render_run_for :
    (r : Option ℤ) (args : List Bytes) (o : RuntimeOptions)
    → RunFor r
    → o.run_for ≡ none
    → parse_from (render_run_for r ++ args) o ≡ parse_from args (record o { run_for = r })
unfolding render_run_for
parse_from-render_run_for none args o w e = ap (parse_from args) (ground (arith, e))
parse_from-render_run_for (some z) args o w e =
    parse_from-accepted _ _ o (record o { run_for = some z }) (run_for_read o z w)

parse_from-render_dry_run :
    (d : Bool) (args : List Bytes) (o : RuntimeOptions)
    → o.dry_run ≡ false
    → parse_from (render_dry_run d ++ args) o ≡ parse_from args (record o { dry_run = d })
parse_from-render_dry_run false args o e = ap (parse_from args) (ground (arith, e))
parse_from-render_dry_run true args o e =
    parse_from-accepted _ _ o (record o { dry_run = true }) (dry_run_read o)

-- Options within the bounds that `ParseArgs` tests are what it makes of the arguments that spell them
-- out, whichever they are.
pub parse_args-render_args :
    (o : RuntimeOptions) → IsAccepted o → parse_args (render_args o) ≡ accepted o
unfolding parse_args render_args
parse_args-render_args o a =
    let d = default_options in
    rw (append_assoc (render_dry_run o.dry_run) (render_run_for o.run_for) (render_config o.config))
      (parse_from-render_dry_run o.dry_run _ d refl
        ∙ parse_from-render_run_for o.run_for (render_config o.config)
            (record d { dry_run = o.dry_run }) a.run_for refl
        ∙ parse_from-render_config (record d { dry_run = o.dry_run; run_for = o.run_for }) o.config
            a)
