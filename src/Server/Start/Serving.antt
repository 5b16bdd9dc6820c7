-- ===== src/Server/Start/Serving.antt =====
-- With options that are accepted, the start succeeds unless the gRPC server cannot be built.
use distributed_cache.Prelude.{
  ℕ, zero, suc, ◌-◌, ◌≤◌, ◌<◌, ℤ, pos, pos_part, Bytes, nat_key, is_empty, codes, ◌≡◌, ◌≢◌, inl,
  inr, refl, ap, ◌∙◌, true, false, some, List, [], ◌∷◌, ◌++◌, length, length-replicate, sym, arith,
  Bool-cases, Option-cases, All, if◌then◌else◌, returns, Bool, not,
}
use distributed_cache.Prelude.Map.{Map, lookup}
use distributed_cache.Core.Store.{Stripe, new_store, entries}
use distributed_cache.Core.Store.Counters.{entries-new_store, find-new_store}
use distributed_cache.Core.Store.Threads.{Interleaving-new_store, idle}
use distributed_cache.Core.Capacity.Loops.{IsReady}
use distributed_cache.Cluster.HashRing.{
  HashRing, new_ring, emplace, lower_bound, free_token, add_tokens, remove_node, add_node, owner_at,
  owner_for_key, route_key_to_node,
}
use distributed_cache.Cluster.HashRing.Order.{add_node-add_tokens}
use distributed_cache.Cluster.HashRing.Agreement.{add_node-IsExtended}
use distributed_cache.Cluster.HashRing.Probing.{attempts_differ, add_node_ends}
use distributed_cache.Metrics.{Double}
use distributed_cache.Server.Args.{RuntimeOptions, accepted, parse_args}
use distributed_cache.Server.Args.Accepted.{parse_args-IsAccepted}
use distributed_cache.Server.Start.{
  Started, exits, serving, to_size, grpc_address, bootstrap_metrics, start_with, start,
}

-- All entries are of one node.
abbrev AllOf : Bytes → Map ℕ Bytes → Type 0
AllOf n = All (λ p. p.1 ≡ n)

emplace-AllOf : (t : ℕ) (n : Bytes) (m : Map ℕ Bytes) → AllOf n m → AllOf n (emplace t n m)
unfolding emplace
emplace-AllOf t n [] a = (refl, tt)
emplace-AllOf t n (p ∷ m) a = ground (arith, emplace-AllOf t n m a.1, a)

add_tokens-AllOf :
    (fuel : ℕ) (n : Bytes) (left i : ℕ) (m m' : Map ℕ Bytes) (ts ts' : List ℕ)
    → add_tokens fuel n left i m ts ≡ some (m', ts')
    → AllOf n m
    → AllOf n m'
unfolding add_tokens
add_tokens-AllOf fuel n zero i m m' ts ts' e a =
    let same : m ≡ m' = ground (arith, e) in rw (← same) a
add_tokens-AllOf fuel n (suc left) i m m' ts ts' e a =
    elim (Option-cases (free_token fuel n i 0 m)) [
      | inl out ↦ absurd (ground (arith, e, out))
      | inr (t, found) ↦
          add_tokens-AllOf fuel n left (suc i) (emplace t n m) m' (ts ++ t ∷ []) ts'
            (ground (arith, e, found)) (emplace-AllOf t n m a)
    ]

lower_bound-AllOf :
    (h : ℕ) (n : Bytes) (m : Map ℕ Bytes) (q : ℕ × Bytes)
    → AllOf n m
    → lower_bound h m ≡ some q
    → q.1 ≡ n
unfolding lower_bound
lower_bound-AllOf h n [] q a e = cc
lower_bound-AllOf h n (p ∷ m) q a e = ground (arith, lower_bound-AllOf h n m q a.1, a.0, e)

owner_at-AllOf : (h : ℕ) (n : Bytes) (m : Map ℕ Bytes) → AllOf n m → 0 < length m → owner_at h m ≡ n
unfolding owner_at
owner_at-AllOf h n [] a l = absurd (omega arith)
owner_at-AllOf h n (p ∷ m) a l = elim (Option-cases (lower_bound h (p ∷ m))) [
  | inl out ↦ rw (owner_at, out) a.0
  | inr (q, found) ↦ rw (owner_at, found) (lower_bound-AllOf h n (p ∷ m) q a found)
]

-- In a ring of one node, it owns every key.
owner_for_key_only :
    (fuel : ℕ) (n key : Bytes) (v : ℕ) (r : HashRing)
    → add_node fuel n (pos (suc v)) new_ring ≡ returns (some r)
    → owner_for_key key r ≡ n
unfolding owner_for_key remove_node lookup
owner_for_key_only fuel n key v r e =
    let (_, _, _, added, _) = add_node-add_tokens fuel n (pos (suc v)) new_ring r e in
    let (w, _, ts, x, many, _) = add_node-IsExtended fuel n (pos (suc v)) new_ring r e in
    owner_at-AllOf _ n r.ring (add_tokens-AllOf fuel n _ 0 [] r.ring [] _ added tt)
      (omega (arith, x.counted, many))

not_empty : (n : Bytes) → n ≢ [] → is_empty n ≡ false
not_empty [] h = absurd (h refl)
not_empty (c ∷ cs) h = refl

pub new_store-IsReady :
    (hash : Bytes → ℕ) (stripes max_entries : ℕ) → IsReady hash (new_store stripes max_entries)
new_store-IsReady hash stripes max_entries = record {
  valid = Interleaving-new_store hash stripes max_entries idle;
  no_empty_key = find-new_store hash stripes max_entries [];
  small = omega (arith, entries-new_store stripes max_entries);
}

length-new_store :
    (z : ℤ) (k : ℕ) → z ≡ pos k → 1 ≤ k → length (new_store (to_size z) 0).stripes ≡ pos_part z
unfolding new_store to_size
length-new_store z k e l = rw e (ground (arith, length-replicate {A = Stripe} k []))

-- What accepted options give: nothing, or, where the gRPC server is built, a server over an empty store.
abbrev pub outcome_of {ℓ} :
    {W : Type ℓ} → ⦃d : Double W⦄ → (Bytes → Bool) → RuntimeOptions → Started W
outcome_of builds o =
    if o.dry_run
    then exits 0
    else if not (builds (grpc_address o.config.grpc_port))
    then exits 1
    else serving (record {
      store = new_store (to_size o.config.shard_count) 0;
      metrics = bootstrap_metrics;
      options = o;
    })

module _ {ℓ} {W : Type ℓ} ⦃d : Double W⦄ where
  start_with_ends :
      (builds : Bytes → Bool) (fuel v : ℕ) (o : RuntimeOptions)
      → o.config.node_id ≢ []
      → o.config.virtual_nodes ≡ pos (suc v)
      → suc v ≤ fuel
      → attempts_differ fuel o.config.node_id (suc v) 0 ≡ true
      → start_with {W = W} builds fuel o ≡ some (outcome_of builds o)
  unfolding start_with route_key_to_node remove_node lookup
  start_with_ends builds fuel v o named positive room differ =
      let (r, ends) = add_node_ends fuel o.config.node_id v new_ring (omega arith) differ in
      let owns = owner_for_key_only fuel o.config.node_id (codes "bootstrap") v r ends in
      let added : add_node fuel o.config.node_id o.config.virtual_nodes new_ring
          ≡ returns (some r) =
        ap (λ z. add_node fuel o.config.node_id z new_ring) positive ∙ ends in
      let tried = not_empty o.config.node_id named in
      elim (Bool-cases o.dry_run) [
        | inl dry ↦ rw (start_with, added, owns, tried, dry) refl
        | inr live ↦ elim (Bool-cases (builds (grpc_address o.config.grpc_port))) [
          | inl built ↦ rw (start_with, added, owns, tried, live, built) refl
          | inr refused ↦ rw (start_with, added, owns, tried, live, refused) refl
        ]
      ]

  -- With arguments that `ParseArgs` accepts, the ring is never what fails: with fuel for as many attempts as
  -- there are virtual nodes, where the tokens of so many attempts differ, it has an owner for the key that
  -- is tried. Then a dry run exits with 0, whether or not a gRPC server could be built. Any other run exits
  -- with 1 if gRPC builds no server at 0.0.0.0 and the given port, and else starts its threads with the
  -- options, with the gauge set, over a store that has the given number of stripes, is valid for every hash,
  -- and is empty.
  pub start_serves :
      (builds : Bytes → Bool) (fuel : ℕ) (args : List Bytes) (o : RuntimeOptions)
      → parse_args args ≡ accepted o
      → pos_part o.config.virtual_nodes ≤ fuel
      → attempts_differ fuel o.config.node_id (pos_part o.config.virtual_nodes) 0 ≡ true
      → (start {W = W} builds fuel args ≡ some (outcome_of builds o))
        × (length (new_store (to_size o.config.shard_count) 0).stripes
            ≡ pos_part o.config.shard_count)
        × ((hash : Bytes → ℕ) → IsReady hash (new_store (to_size o.config.shard_count) 0))
        × (entries (new_store (to_size o.config.shard_count) 0) ≡ 0)
  unfolding start
  start_serves builds fuel args o e room differ =
      let a = parse_args-IsAccepted args o e in
      let (n, nodes, some_nodes, _) = a.virtual_nodes in
      let counted : pos_part o.config.virtual_nodes ≡ suc (n - 1) =
        omega (arith, ap pos_part nodes) in
      let (k, shards, some_shards, _) = a.shard_count in
      (
        rw (start, e)
            (start_with_ends builds fuel (n - 1) o a.node_id (nodes ∙ ap pos (omega arith))
              (omega (arith, room, ap pos_part nodes))
              (ap (λ z. attempts_differ fuel o.config.node_id z 0) (sym counted) ∙ differ)),
        length-new_store o.config.shard_count k shards some_shards,
        λ hash. new_store-IsReady hash _ 0,
        entries-new_store _ 0,
      )
