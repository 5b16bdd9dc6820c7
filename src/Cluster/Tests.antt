-- ===== src/Cluster/Tests.antt =====
-- The theorems of src/cluster at concrete inputs, and runs of its unit tests, tests/cluster.
use distributed_cache.Prelude.{
  ℕ, pos, negsuc, arith, bytes_eqb, bytes_eqb_iff, false, ◌≢◌, ◌⊎◌, ◌≡◌, refl, Bytes, nat_key,
  bytes_key, codes, none, some, List, [], ◌∷◌, returns, throws, invalid_argument,
}
use distributed_cache.Prelude.Map.{lookup, insert, erase}
use distributed_cache.Prelude.Decimal.{to_string}
use distributed_cache.Cluster.Hash.{hash64, token_for}
use distributed_cache.Cluster.HashRing.{
  HashRing, new_ring, emplace, lower_bound, free_token, add_tokens, drop_token, drop_tokens,
  remove_node, add_node, owner_at, owner_for_key,
}
use distributed_cache.Cluster.HashRing.Order.{Reachable, starts, adds}
use distributed_cache.Cluster.HashRing.Moves.{owner_for_key-remove_node, owner_for_key-add_node}
use distributed_cache.Cluster.HashRing.Nearest.{IsNext, owner_for_key-IsNext}
use distributed_cache.Cluster.HashRing.Tokens.{IsAgreed}
use distributed_cache.Cluster.HashRing.Agreement.{Reachable-IsAgreed}
use distributed_cache.Cluster.HashRing.Probing.{attempts_differ, add_node_ends}

abbrev node_a : Bytes
node_a = codes "node-a"

abbrev node_b : Bytes
node_b = codes "node-b"

abbrev alpha : Bytes
alpha = codes "alpha"

differ : (a b : Bytes) → bytes_eqb a b ≡ false → a ≢ b
differ a b f e = absurd (ground (arith, f, bytes_eqb_iff a b, e))

-- Published values of the 64-bit FNV-1a hash.
hash_of_a : hash64 (codes "a") ≡ 12638187200555641996
unfolding hash64
hash_of_a = refl

hash_of_foobar : hash64 (codes "foobar") ≡ 9625390261332436968
unfolding hash64
hash_of_foobar = refl

printed : to_string 1207 ≡ codes "1207"
unfolding to_string
printed = refl

-- A ring after additions, each with four virtual nodes.
abbrev ring_of : List Bytes → HashRing → HashRing
unfolding add_node remove_node
ring_of [] r = r
ring_of (n ∷ ns) r = elim (add_node 3 n (pos 4) r) [
  | throws _ ↦ r
  | returns none ↦ r
  | returns (some q) ↦ ring_of ns q
]

abbrev two_nodes : HashRing
two_nodes = ring_of (node_a ∷ node_b ∷ []) new_ring

owner_of_alpha : owner_for_key alpha two_nodes ≡ node_a
unfolding owner_for_key owner_at ring_of add_tokens free_token lookup emplace token_for insert
    lower_bound
owner_of_alpha = refl

abbrev one_node : HashRing
one_node = ring_of (node_a ∷ []) new_ring

one_node-Reachable : Reachable one_node
unfolding ring_of add_node add_tokens free_token lookup emplace token_for insert remove_node
one_node-Reachable = adds 3 node_a (pos 4) one_node refl starts

two_nodes-Reachable : Reachable two_nodes
unfolding ring_of add_node add_tokens free_token lookup emplace token_for insert remove_node
two_nodes-Reachable = adds 3 node_b (pos 4) two_nodes refl one_node-Reachable

-- `RemoveNodeReassignsKeysAwayFromRemovedNode`
reassigned : owner_for_key alpha (remove_node node_a two_nodes) ≡ node_b
unfolding owner_for_key owner_at ring_of add_node remove_node drop_tokens drop_token erase
    add_tokens free_token lookup emplace token_for insert lower_bound
reassigned = refl

-- `AddNodeRejectsInvalidVirtualNodes`
rejected : add_node 3 node_a (negsuc 2) new_ring ≡ throws invalid_argument
unfolding add_node
rejected = refl

owner_for_key-remove_node_example :
    owner_for_key alpha (remove_node node_b two_nodes) ≡ owner_for_key alpha two_nodes
unfolding owner_for_key owner_at ring_of add_node remove_node add_tokens free_token lookup emplace
    token_for insert lower_bound
owner_for_key-remove_node_example =
    owner_for_key-remove_node node_b alpha two_nodes (differ _ _ refl)

owner_for_key-add_node_example :
    (owner_for_key alpha two_nodes ≡ node_b)
    ⊎ (owner_for_key alpha two_nodes ≡ owner_for_key alpha one_node)
unfolding ring_of add_node add_tokens free_token lookup emplace token_for insert remove_node
    owner_for_key owner_at lower_bound
owner_for_key-add_node_example =
    owner_for_key-add_node 3 node_b alpha (pos 4) one_node two_nodes refl (differ _ _ refl)

owner_for_key-IsNext_example :
    (t : ℕ) × (lookup t two_nodes.ring ≡ some (owner_for_key alpha two_nodes))
    × IsNext (hash64 alpha) two_nodes.ring t
unfolding ring_of add_node add_tokens free_token lookup emplace token_for insert remove_node
owner_for_key-IsNext_example =
    owner_for_key-IsNext alpha (token_for node_a 0 0) node_a two_nodes-Reachable refl

Reachable-IsAgreed_example : IsAgreed two_nodes
Reachable-IsAgreed_example = Reachable-IsAgreed two_nodes-Reachable

add_node_ends_example : (r' : HashRing) × (add_node 6 node_b (pos 2) one_node ≡ returns (some r'))
unfolding ring_of add_node add_tokens free_token lookup emplace token_for insert remove_node
    attempts_differ
add_node_ends_example = add_node_ends 6 node_b 1 one_node (omega arith) refl
