-- ===== src/Server/Args.antt =====
-- src/server/node_config.hpp and the arguments in src/server/main.cpp: `ParseArgs` and the parsers of a
-- flag. `ParseNumber` there is the text of the RESP parser's. The proofs are in the modules below.
pub mod Accepted
pub mod Rendering
use distributed_cache.Prelude.{
  ℕ, ◌^◌, ℤ, pos, negsuc, leb_ℤ, Bytes, bytes_eqb, nat_eqb, is_empty, codes, Bool, true, false, not,
  ◌&&◌, ◌||◌, Option, none, some, List, [], ◌∷◌, ◌++◌, if◌then◌else◌,
}
use distributed_cache.Protocol.Resp.{parse_number}

pub record NodeConfig : Type 0 where
  pub shard_count : ℤ
  pub listen_port : ℤ
  pub grpc_port : ℤ
  pub metrics_port : ℤ
  pub node_id : Bytes
  pub virtual_nodes : ℤ
  pub max_resp_clients : ℤ
  pub resp_idle_timeout_ms : ℤ

abbrev pub default_config : NodeConfig
default_config = record {
  shard_count = pos 64;
  listen_port = pos 6379;
  grpc_port = pos 50051;
  metrics_port = pos 9100;
  node_id = codes "local";
  virtual_nodes = pos 128;
  max_resp_clients = pos 256;
  resp_idle_timeout_ms = pos 30000;
}

-- A time to run is a number of milliseconds.
pub record RuntimeOptions : Type 0 where
  pub config : NodeConfig
  pub dry_run : Bool
  pub run_for : Option ℤ

abbrev pub default_options : RuntimeOptions
default_options = record { config = default_config; dry_run = false; run_for = none }

-- `std::nullopt` comes with a line on the standard error.
pub data Outcome : Type 0 where
  accepted : RuntimeOptions → Outcome
  refused : (message : Bytes) → Outcome

-- `std::numeric_limits<int>`, of 32 bits
abbrev pub int_min : ℤ
int_min = negsuc 2147483647

abbrev pub int_max : ℤ
int_max = pos 2147483647

-- `starts_with`, and `substr` from the end of the prefix.
unfoldable pub after_prefix : Bytes → Bytes → Option Bytes
after_prefix [] arg = some arg
after_prefix (p ∷ ps) [] = none
after_prefix (p ∷ ps) (c ∷ cs) = let rest = after_prefix ps cs in if nat_eqb p c then rest else none

unfoldable pub parse_int_flag : Bytes → Bytes → Option ℤ
unfolding after_prefix
parse_int_flag arg prefix = elim (after_prefix prefix arg) [
  | none ↦ none
  | some text ↦ elim (parse_number text) [
    | none ↦ none
    | some value ↦
        if not (leb_ℤ int_min value) || not (leb_ℤ value int_max) then none else some value
  ]
]

unfoldable pub parse_duration_flag : Bytes → Bytes → Option ℤ
unfolding after_prefix
parse_duration_flag arg prefix = elim (after_prefix prefix arg) [
  | none ↦ none
  | some text ↦ elim (parse_number text) [
    | none ↦ none
    | some value ↦ if leb_ℤ (pos 0) value then some value else none
  ]
]

unfoldable pub parse_string_flag : Bytes → Bytes → Option Bytes
unfolding after_prefix
parse_string_flag arg prefix = after_prefix prefix arg

-- One `if` of the loop: a flag that is parsed is written, and ends the round.
unfoldable pub on_flag {ℓ} : {A : Type ℓ} → Option A → (A → Outcome) → Outcome → Outcome
on_flag none write later = later
on_flag (some value) write later = write value

-- What a flag writes.
unfoldable pub configured : NodeConfig → RuntimeOptions → Outcome
configured config o = accepted (record o { config = config })

unfoldable pub set_idle_timeout : ℤ → RuntimeOptions → Outcome
unfolding configured
set_idle_timeout ms o =
    if not (leb_ℤ ms int_max)
    then refused (codes "resp-idle-timeout-ms out of range")
    else configured (record o.config { resp_idle_timeout_ms = ms }) o

-- A round of the loop, in two halves.
unfoldable pub parse_port_arg : Bytes → RuntimeOptions → Outcome
parse_port_arg arg o =
    on_flag (parse_int_flag arg (codes "--listen-port="))
      (λ v. configured (record o.config { listen_port = v }) o)
      (on_flag (parse_int_flag arg (codes "--resp-port="))
        (λ v. configured (record o.config { listen_port = v }) o)
        (on_flag (parse_int_flag arg (codes "--grpc-port="))
          (λ v. configured (record o.config { grpc_port = v }) o)
          (on_flag (parse_int_flag arg (codes "--metrics-port="))
            (λ v. configured (record o.config { metrics_port = v }) o)
            (on_flag (parse_duration_flag arg (codes "--resp-idle-timeout-ms="))
              (λ v. set_idle_timeout v o)
              (on_flag (parse_string_flag arg (codes "--node-id="))
                (λ v. configured (record o.config { node_id = v }) o)
                (refused (codes "Unknown argument: " ++ arg)))))))

unfoldable pub parse_arg : Bytes → RuntimeOptions → Outcome
parse_arg arg o =
    if bytes_eqb arg (codes "--dry-run")
    then accepted (record o { dry_run = true })
    else on_flag (parse_duration_flag arg (codes "--run-for-ms="))
        (λ v. accepted (record o { run_for = some v }))
        (on_flag (parse_int_flag arg (codes "--shard-count="))
          (λ v. configured (record o.config { shard_count = v }) o)
          (on_flag (parse_int_flag arg (codes "--virtual-nodes="))
            (λ v. configured (record o.config { virtual_nodes = v }) o)
            (on_flag (parse_int_flag arg (codes "--max-resp-clients="))
              (λ v. configured (record o.config { max_resp_clients = v }) o)
              (parse_port_arg arg o))))

unfoldable pub port_in_range : ℤ → Bool
port_in_range port = leb_ℤ (pos 0) port && leb_ℤ port (pos 65535)

-- The tests after the loop.
unfoldable pub check_options : RuntimeOptions → Outcome
unfolding port_in_range
check_options o =
    let c = o.config in
    if leb_ℤ c.shard_count (pos 0) || leb_ℤ c.virtual_nodes (pos 0)
    then refused (codes "Invalid shard or virtual node count")
    else if not (port_in_range c.listen_port)
        || not (port_in_range c.grpc_port)
        || not (port_in_range c.metrics_port)
    then refused (codes "Ports must be between 0 and 65535")
    else if leb_ℤ c.max_resp_clients (pos 0)
    then refused (codes "max-resp-clients must be positive")
    else if leb_ℤ c.resp_idle_timeout_ms (pos 0)
    then refused (codes "resp-idle-timeout-ms must be positive")
    else if is_empty c.node_id
    then refused (codes "node-id must not be empty")
    else accepted o

-- The loop, from some options on.
unfoldable pub parse_from : List Bytes → RuntimeOptions → Outcome
unfolding parse_arg check_options
parse_from [] o = check_options o
parse_from (arg ∷ args) o = elim (parse_arg arg o) [
  | refused message ↦ refused message
  | accepted next ↦ parse_from args next
]

-- `ParseArgs`, on the arguments after the program's name.
unfoldable pub parse_args : List Bytes → Outcome
unfolding parse_from
parse_args args = parse_from args default_options
