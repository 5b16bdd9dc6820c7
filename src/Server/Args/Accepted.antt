-- ===== src/Server/Args/Accepted.antt =====
-- On the options that `ParseArgs` accepts.
use distributed_cache.Prelude.{
  ℕ, ◌-◌, ◌^◌, ◌≤◌, ℤ, pos, negsuc, leb_ℤ, Bytes, bytes_eqb, is_empty, codes, ◌≡◌, ◌≢◌, ◌⊎◌, refl,
  ap, true, false, Option, none, some, List, [], ◌∷◌, arith, Bool-cases, Option-cases, inl, inr,
}
use mathlib.Core.Path.{subst}
use distributed_cache.Protocol.Resp.{parse_number}
use distributed_cache.Server.Args.{
  RuntimeOptions, default_options, Outcome, accepted, refused, int_max, after_prefix,
  parse_int_flag, parse_duration_flag, on_flag, configured, set_idle_timeout, parse_port_arg,
  parse_arg, port_in_range, check_options, parse_from, parse_args,
}

-- A natural number in a range, bounds included.
abbrev pub Within : ℕ → ℕ → ℤ → Type 0
Within lo hi z = (n : ℕ) × (z ≡ pos n) × (lo ≤ n) × (n ≤ hi)

abbrev pub RunFor : Option ℤ → Type 0
RunFor none = Unit
RunFor (some ms) = Within 0 (2 ^ 63 - 1) ms

-- What the server starts with.
pub record IsAccepted (o : RuntimeOptions) : Type 0 where
  pub shard_count : Within 1 2147483647 o.config.shard_count
  pub virtual_nodes : Within 1 2147483647 o.config.virtual_nodes
  pub listen_port : Within 0 65535 o.config.listen_port
  pub grpc_port : Within 0 65535 o.config.grpc_port
  pub metrics_port : Within 0 65535 o.config.metrics_port
  pub max_resp_clients : Within 1 2147483647 o.config.max_resp_clients
  pub resp_idle_timeout_ms : Within 1 2147483647 o.config.resp_idle_timeout_ms
  pub node_id : o.config.node_id ≢ []
  pub run_for : RunFor o.run_for

-- What holds before the tests: no field is above its type's bound.
record IsTyped (o : RuntimeOptions) : Type 0 where
  shard_count : leb_ℤ o.config.shard_count int_max ≡ true
  virtual_nodes : leb_ℤ o.config.virtual_nodes int_max ≡ true
  max_resp_clients : leb_ℤ o.config.max_resp_clients int_max ≡ true
  resp_idle_timeout_ms : leb_ℤ o.config.resp_idle_timeout_ms int_max ≡ true
  run_for : RunFor o.run_for

Typed : Outcome → Type 0
Typed (accepted o) = IsTyped o
Typed (refused message) = Unit

parse_number_bounded : (text : Bytes) (n : ℕ) → parse_number text ≡ some (pos n) → n ≤ 2 ^ 63 - 1
unfolding parse_number
parse_number_bounded [] n e = cc
parse_number_bounded (c ∷ cs) n e = ground (arith, e)

parse_int_flag_bounded :
    (arg prefix : Bytes) (v : ℤ) → parse_int_flag arg prefix ≡ some v → leb_ℤ v int_max ≡ true
unfolding parse_int_flag
parse_int_flag_bounded arg prefix v e = elim (Option-cases (after_prefix prefix arg)) [
  | inl out ↦ absurd (ground (arith, e, out))
  | inr (text, found) ↦ elim (Option-cases (parse_number text)) [
    | inl out ↦ absurd (ground (arith, e, found, out))
    | inr (w, read) ↦ ground (arith, e, found, read)
  ]
]

parse_duration_flag-Within :
    (arg prefix : Bytes) (v : ℤ) → parse_duration_flag arg prefix ≡ some v → Within 0 (2 ^ 63 - 1) v
unfolding parse_duration_flag
parse_duration_flag-Within arg prefix v e = elim (Option-cases (after_prefix prefix arg)) [
  | inl out ↦ absurd (ground (arith, e, out))
  | inr (text, found) ↦ elim (Option-cases (parse_number text)) [
    | inl out ↦ absurd (ground (arith, e, found, out))
    | inr (negsuc n, read) ↦ absurd (ground (arith, e, found, read))
    | inr (pos n, read) ↦
        (n, ground (arith, e, found, read), omega arith, parse_number_bounded text n read)
  ]
]

accepted-Typed : {o : RuntimeOptions} → IsTyped o → Typed (accepted o)
unfolding Typed
accepted-Typed t = t

refused-Typed : (message : Bytes) → Typed (refused message)
unfolding Typed
refused-Typed message = tt

on_flag-Typed {ℓ} :
    {A : Type ℓ} (m : Option A) (write : A → Outcome) (later : Outcome)
    → ((v : A) → m ≡ some v → Typed (write v))
    → Typed later
    → Typed (on_flag m write later)
unfolding on_flag
on_flag-Typed none write later h t = t
on_flag-Typed (some v) write later h t = h v refl

set_idle_timeout-Typed : (v : ℤ) (o : RuntimeOptions) → IsTyped o → Typed (set_idle_timeout v o)
unfolding set_idle_timeout configured
set_idle_timeout-Typed v o t = elim (Bool-cases (leb_ℤ v int_max)) [
  | inl fits ↦ rw fits (accepted-Typed (ground (arith, fits)))
  | inr over ↦ rw over (refused-Typed _)
]

parse_port_arg-Typed : (arg : Bytes) (o : RuntimeOptions) → IsTyped o → Typed (parse_port_arg arg o)
unfolding parse_port_arg configured
parse_port_arg-Typed arg o t =
    on_flag-Typed _ _ _ (λ v e. accepted-Typed (ground arith))
      (on_flag-Typed _ _ _ (λ v e. accepted-Typed (ground arith))
        (on_flag-Typed _ _ _ (λ v e. accepted-Typed (ground arith))
          (on_flag-Typed _ _ _ (λ v e. accepted-Typed (ground arith))
            (on_flag-Typed _ _ _ (λ v e. set_idle_timeout-Typed v o t)
              (on_flag-Typed _ _ _ (λ v e. accepted-Typed (ground arith)) (refused-Typed _))))))

parse_arg-Typed : (arg : Bytes) (o : RuntimeOptions) → IsTyped o → Typed (parse_arg arg o)
unfolding parse_arg configured
parse_arg-Typed arg o t = elim (Bool-cases (bytes_eqb arg (codes "--dry-run"))) [
  | inl dry ↦ rw dry (accepted-Typed (ground arith))
  | inr other ↦ rw other (
      on_flag-Typed _ _ _
        (λ v e. accepted-Typed (run_for_set v t (parse_duration_flag-Within arg _ v e)))
        (on_flag-Typed _ _ _
          (λ v e. accepted-Typed (ground (arith, parse_int_flag_bounded arg _ v e)))
          (on_flag-Typed _ _ _
            (λ v e. accepted-Typed (ground (arith, parse_int_flag_bounded arg _ v e)))
            (on_flag-Typed _ _ _
              (λ v e. accepted-Typed (ground (arith, parse_int_flag_bounded arg _ v e)))
              (parse_port_arg-Typed arg o t)))))
]
  where
    run_for_set :
        (v : ℤ) → IsTyped o → Within 0 (2 ^ 63 - 1) v → IsTyped (record o { run_for = some v })
    run_for_set v t w = record {
      shard_count = t.shard_count;
      virtual_nodes = t.virtual_nodes;
      max_resp_clients = t.max_resp_clients;
      resp_idle_timeout_ms = t.resp_idle_timeout_ms;
      run_for = w;
    }

default_options-IsTyped : IsTyped default_options
default_options-IsTyped = record {
  shard_count = refl;
  virtual_nodes = refl;
  max_resp_clients = refl;
  resp_idle_timeout_ms = refl;
  run_for = tt;
}

-- A number that passes two tests.
tests-Within :
    (lo hi : ℕ) (z : ℤ) → leb_ℤ (pos lo) z ≡ true → leb_ℤ z (pos hi) ≡ true → Within lo hi z
tests-Within lo hi (pos n) l h = (n, refl, ground (arith, l), ground (arith, h))
tests-Within lo hi (negsuc n) l h = absurd (ground (arith, l))

above_zero : (z : ℤ) → leb_ℤ z (pos 0) ≡ false → leb_ℤ (pos 1) z ≡ true
above_zero (pos n) h = ground (arith, h)
above_zero (negsuc n) h = absurd (ground (arith, h))

-- What the tests find, if all are passed.
record IsChecked (o : RuntimeOptions) : Type 0 where
  shard_count : leb_ℤ o.config.shard_count (pos 0) ≡ false
  virtual_nodes : leb_ℤ o.config.virtual_nodes (pos 0) ≡ false
  listen_port : port_in_range o.config.listen_port ≡ true
  grpc_port : port_in_range o.config.grpc_port ≡ true
  metrics_port : port_in_range o.config.metrics_port ≡ true
  max_resp_clients : leb_ℤ o.config.max_resp_clients (pos 0) ≡ false
  resp_idle_timeout_ms : leb_ℤ o.config.resp_idle_timeout_ms (pos 0) ≡ false
  node_id : is_empty o.config.node_id ≡ false

check_options-IsChecked :
    (o p : RuntimeOptions) → check_options o ≡ accepted p → (o ≡ p) × IsChecked o
unfolding check_options
check_options-IsChecked o p e = (ground (arith, e), ground (arith, e))

port-Within : (z : ℤ) → port_in_range z ≡ true → Within 0 65535 z
unfolding port_in_range
port-Within z h = tests-Within 0 65535 z (ground (arith, h)) (ground (arith, h))

count-Within : (z : ℤ) → leb_ℤ z (pos 0) ≡ false → leb_ℤ z int_max ≡ true → Within 1 2147483647 z
count-Within z l h = tests-Within 1 2147483647 z (above_zero z l) h

not_empty : (b : Bytes) → is_empty b ≡ false → b ≢ []
not_empty b h e = absurd (ground (arith, h, ap is_empty e))

check_options-IsAccepted :
    (o p : RuntimeOptions) → IsTyped o → check_options o ≡ accepted p → IsAccepted p
unfolding check_options
check_options-IsAccepted o p t e =
    let (same, c) = check_options-IsChecked o p e in
    rw (← same) (record {
      shard_count = count-Within _ c.shard_count t.shard_count;
      virtual_nodes = count-Within _ c.virtual_nodes t.virtual_nodes;
      listen_port = port-Within _ c.listen_port;
      grpc_port = port-Within _ c.grpc_port;
      metrics_port = port-Within _ c.metrics_port;
      max_resp_clients = count-Within _ c.max_resp_clients t.max_resp_clients;
      resp_idle_timeout_ms = count-Within _ c.resp_idle_timeout_ms t.resp_idle_timeout_ms;
      node_id = not_empty _ c.node_id;
      run_for = t.run_for;
    })

Outcome-cases :
    (r : Outcome) → ((m : Bytes) × (r ≡ refused m)) ⊎ ((o : RuntimeOptions) × (r ≡ accepted o))
Outcome-cases (refused m) = inl (m, refl)
Outcome-cases (accepted o) = inr (o, refl)

Typed-IsTyped : (r : Outcome) (o : RuntimeOptions) → r ≡ accepted o → Typed r → IsTyped o
unfolding Typed
Typed-IsTyped r o e t = subst Typed e t

parse_from-IsAccepted :
    (args : List Bytes) (o p : RuntimeOptions)
    → IsTyped o
    → parse_from args o ≡ accepted p
    → IsAccepted p
unfolding parse_from
parse_from-IsAccepted [] o p t e = check_options-IsAccepted o p t e
parse_from-IsAccepted (arg ∷ args) o p t e = elim (Outcome-cases (parse_arg arg o)) [
  | inl (m, out) ↦ absurd (ground (arith, e, out))
  | inr (next, found) ↦
      parse_from-IsAccepted args next p
        (Typed-IsTyped (parse_arg arg o) next found (parse_arg-Typed arg o t))
        (ground (arith, e, found))
]

-- Whatever the arguments, options that are accepted have between 1 and 2^31 - 1 shards, virtual nodes,
-- clients and milliseconds of idle timeout, ports from 0 to 65535, a node id that is not empty, and no
-- time to run, or one from 0 to 2^63 - 1 milliseconds.
pub parse_args-IsAccepted :
    (args : List Bytes) (o : RuntimeOptions) → parse_args args ≡ accepted o → IsAccepted o
unfolding parse_args
parse_args-IsAccepted args o e =
    parse_from-IsAccepted args default_options o default_options-IsTyped e
