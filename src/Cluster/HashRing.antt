-- ===== src/Cluster/HashRing.antt =====
-- src/cluster/hash_ring.hpp and .cpp, and shard_router.cpp: the ring of tokens. The proofs are in the
-- modules below.
pub mod Moves
pub mod Order
pub mod Nearest
pub mod Tokens
pub mod Agreement
pub mod Probing
use distributed_cache.Prelude.{
  ℕ, zero, suc, ℤ, pos, negsuc, Bytes, nat_key, bytes_key, bytes_eqb, Option, none, some, List, [],
  ◌∷◌, ◌++◌, ltb, if◌then◌else◌, Result, returns, throws, invalid_argument,
}
use distributed_cache.Prelude.Map.{Map, lookup, insert, erase}
use distributed_cache.Cluster.Hash.{hash64, token_for}

-- `std::map<uint64_t, std::string>` is a list in the order of the tokens.
pub record HashRing : Type 0 where
  pub ring : Map ℕ Bytes
  pub node_tokens : Map Bytes (List ℕ)

abbrev pub new_ring : HashRing
new_ring = record { ring = []; node_tokens = [] }

-- `ring_.emplace(token, node_id)`: a token that is there stays as it is.
unfoldable pub emplace : ℕ → Bytes → Map ℕ Bytes → Map ℕ Bytes
emplace token node_id [] = (token, node_id) ∷ []
emplace token node_id (p ∷ m) =
    let rest = emplace token node_id m in
    if ltb token p.0 then (token, node_id) ∷ p ∷ m else if ltb p.0 token then p ∷ rest else p ∷ m

-- The first entry that is not below, and whose node it is.
unfoldable pub lower_bound : ℕ → Map ℕ Bytes → Option (ℕ × Bytes)
lower_bound hash [] = none
lower_bound hash (p ∷ m) = let rest = lower_bound hash m in if ltb p.0 hash then rest else some p

-- The loop of `AddNode` that looks for a free token: `none` means that the fuel ran out.
unfoldable pub free_token : ℕ → Bytes → ℕ → ℕ → Map ℕ Bytes → Option ℕ
free_token zero node_id i attempt ring = none
free_token (suc fuel) node_id i attempt ring = elim (lookup (token_for node_id i attempt) ring) [
  | none ↦ some (token_for node_id i attempt)
  | some _ ↦ free_token fuel node_id i (suc attempt) ring
]

-- The loop of `AddNode` over the virtual nodes: `left` of them, from `i` on.
unfoldable pub add_tokens : ℕ → Bytes → ℕ → ℕ → Map ℕ Bytes → List ℕ → Option (Map ℕ Bytes × List ℕ)
add_tokens fuel node_id zero i ring tokens = some (ring, tokens)
add_tokens fuel node_id (suc left) i ring tokens = elim (free_token fuel node_id i 0 ring) [
  | none ↦ none
  | some token ↦
      add_tokens fuel node_id left (suc i) (emplace token node_id ring) (tokens ++ token ∷ [])
]

-- The loop of `RemoveNode`.
unfoldable pub drop_token : Bytes → ℕ → Map ℕ Bytes → Map ℕ Bytes
drop_token node_id token ring = elim (lookup token ring) [
  | none ↦ ring
  | some owner ↦ if bytes_eqb owner node_id then erase token ring else ring
]

unfoldable pub drop_tokens : Bytes → List ℕ → Map ℕ Bytes → Map ℕ Bytes
drop_tokens node_id [] ring = ring
drop_tokens node_id (token ∷ tokens) ring =
    drop_tokens node_id tokens (drop_token node_id token ring)

unfoldable pub remove_node : Bytes → HashRing → HashRing
remove_node node_id r = elim (lookup node_id r.node_tokens) [
  | none ↦ r
  | some tokens ↦ record {
    ring = drop_tokens node_id tokens r.ring;
    node_tokens = erase node_id r.node_tokens;
  }
]

-- `AddNode`, with the fuel of each search for a free token.
unfoldable pub add_node : ℕ → Bytes → ℤ → HashRing → Result (Option HashRing)
add_node fuel node_id (negsuc n) r = throws invalid_argument
add_node fuel node_id (pos zero) r = throws invalid_argument
add_node fuel node_id (pos (suc n)) r =
    let removed = remove_node node_id r in
    elim (add_tokens fuel node_id (suc n) 0 removed.ring []) [
      | none ↦ returns none
      | some (ring, tokens) ↦
          returns
            (some (record { ring = ring; node_tokens = insert node_id tokens removed.node_tokens }))
    ]

-- The entry at a hash: `lower_bound`, or else the first.
unfoldable pub owner_at : ℕ → Map ℕ Bytes → Bytes
owner_at hash [] = []
owner_at hash (p ∷ m) = elim (lower_bound hash (p ∷ m)) [ none ↦ p.1 | some q ↦ q.1 ]

unfoldable pub owner_for_key : Bytes → HashRing → Bytes
owner_for_key key r = owner_at (hash64 key) r.ring

unfoldable pub route_key_to_node : HashRing → Bytes → Bytes
route_key_to_node r key = owner_for_key key r
