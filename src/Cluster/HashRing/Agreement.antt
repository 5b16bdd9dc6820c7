-- ===== src/Cluster/HashRing/Agreement.antt =====
-- On the ring and the lists of the tokens of the nodes, in the rings that can be reached.
use distributed_cache.Prelude.{
  ℕ, zero, suc, ◌+◌, ℤ, pos, Bytes, nat_key, bytes_key, bytes_eqb, bytes_eqb_iff, nat_eqb_iff, ◌≡◌,
  ◌≢◌, inl, inr, refl, Bool, true, false, ◌&&◌, Option, none, some, List, [], ◌∷◌, ◌++◌, length,
  length-append, arith, Option-cases, returns, if◌then◌else◌,
}
use distributed_cache.Prelude.Map.{Map, lookup, insert, lookup-insert, insert-IsDistinct}
use distributed_cache.Cluster.Hash.{token_for}
use distributed_cache.Cluster.HashRing.{
  HashRing, emplace, free_token, add_tokens, remove_node, add_node, owner_for_key,
}
use distributed_cache.Cluster.HashRing.Order.{
  IsSorted, Reachable, starts, removes, adds, Reachable-IsSorted, add_node-add_tokens,
}
use distributed_cache.Cluster.HashRing.Nearest.{owner_for_key-IsNext}
use distributed_cache.Cluster.HashRing.Tokens.{
  has_token, has_token-append, lookup-emplace, length-emplace, tokens_of, IsAgreed,
  lookup-remove_node, tokens_of-remove_node, remove_node-IsAgreed,
}

pub lookup-free_token :
    (fuel : ℕ) (n : Bytes) (i attempt t : ℕ) (m : Map ℕ Bytes)
    → free_token fuel n i attempt m ≡ some t
    → lookup t m ≡ none
unfolding free_token
lookup-free_token zero n i a t m e = cc
lookup-free_token (suc fuel) n i a t m e = elim (Option-cases (lookup (token_for n i a) m)) [
  | inl free ↦ ground (arith, e, free)
  | inr (o, taken) ↦ lookup-free_token fuel n i (suc a) t m (ground (arith, e, taken))
]

abbrev pub not_none : Option Bytes → Bool
not_none none = false
not_none (some o) = true

-- The ring is another one, with the tokens of a list for a node.
pub record IsExtended (n : Bytes) (base m : Map ℕ Bytes) (ts : List ℕ) : Type 0 where
  pub found : (j : ℕ) → lookup j m ≡ (if has_token j ts then some n else lookup j base)
  pub fresh : (j : ℕ) → has_token j ts && not_none (lookup j base) ≡ false
  pub counted : length m ≡ length base + length ts

add_tokens-IsExtended :
    (fuel : ℕ) (n : Bytes) (left i : ℕ) (base m m' : Map ℕ Bytes) (ts ts' : List ℕ)
    → add_tokens fuel n left i m ts ≡ some (m', ts')
    → IsExtended n base m ts
    → IsExtended n base m' ts' × (length ts' ≡ length ts + left)
unfolding add_tokens
add_tokens-IsExtended fuel n zero i base m m' ts ts' e x =
    let a : m ≡ m' = ground (arith, e) in
    let b : ts ≡ ts' = ground (arith, e) in rw (← a, ← b) (x, omega arith)
add_tokens-IsExtended fuel n (suc left) i base m m' ts ts' e x =
    elim (Option-cases (free_token fuel n i 0 m)) [
      | inl out ↦ absurd (ground (arith, e, out))
      | inr (t, found) ↦
          let free = lookup-free_token fuel n i 0 t m found in
          let (y, l) =
            add_tokens-IsExtended fuel n left (suc i) base (emplace t n m) m' (ts ++ t ∷ []) ts'
              (ground (arith, e, found))
              (record {
                found = λ j.
                    ground (arith, lookup-emplace j t n m free, x.found j, has_token-append j t ts);
                fresh = λ j.
                    ground
                      (arith, x.found j, x.fresh j, free, has_token-append j t ts, nat_eqb_iff t j);
                counted =
                    omega (arith, length-emplace t n m free, x.counted, length-append ts (t ∷ []));
              }) in
          (y, omega (arith, l, length-append ts (t ∷ [])))
    ]

pub add_node-IsExtended :
    (fuel : ℕ) (n : Bytes) (virtual_nodes : ℤ) (r r' : HashRing)
    → add_node fuel n virtual_nodes r ≡ returns (some r')
    → (v : ℕ) × (virtual_nodes ≡ pos (suc v))
      × (ts : List ℕ) × IsExtended n (remove_node n r).ring r'.ring ts
      × (length ts ≡ suc v)
      × (r'.node_tokens ≡ insert n ts (remove_node n r).node_tokens)
unfolding has_token
add_node-IsExtended fuel n virtual_nodes r r' e =
    let (v, positive, ts, added, listed) = add_node-add_tokens fuel n virtual_nodes r r' e in
    let base = (remove_node n r).ring in
    let (x, l) =
      add_tokens-IsExtended fuel n (suc v) 0 base base r'.ring [] ts added
        (record { found = λ j. refl; fresh = λ j. refl; counted = omega arith }) in
    (v, positive, ts, x, omega (arith, l), listed)

tokens_of-insert :
    (j n : Bytes) (ts : List ℕ) (r r' : HashRing)
    → r'.node_tokens ≡ insert n ts r.node_tokens
    → tokens_of j r' ≡ (if bytes_eqb n j then ts else tokens_of j r)
tokens_of-insert j n ts r r' e = ground (arith, e, lookup-insert n j ts r.node_tokens)

add_node-IsAgreed :
    (fuel : ℕ) (n : Bytes) (virtual_nodes : ℤ) (r r' : HashRing)
    → add_node fuel n virtual_nodes r ≡ returns (some r')
    → IsSorted r.ring
    → IsAgreed r
    → IsAgreed r'
unfolding has_token
add_node-IsAgreed fuel n virtual_nodes r r' e s g =
    let (v, _, ts, x, _, listed) = add_node-IsExtended fuel n virtual_nodes r r' e in
    let q = remove_node n r in
    let h = remove_node-IsAgreed n r s g in
    record {
      distinct = rw listed (insert-IsDistinct n ts q.node_tokens h.distinct);
      listed = λ j k. ground (
        arith,
        x.found j,
        x.fresh j,
        h.listed j k,
        h.listed j n,
        tokens_of-remove_node n n r g,
        tokens_of-insert k n ts q r' listed,
        bytes_eqb_iff n k,
        bytes_eqb_iff n n,
      );
    }

-- In a ring that additions and removals made, a token stands under a node exactly if it stands in the
-- node's list of tokens, and no node has two lists.
pub Reachable-IsAgreed : {r : HashRing} → Reachable r → IsAgreed r
unfolding lookup has_token
Reachable-IsAgreed starts = record { distinct = tt; listed = λ j n. refl }
Reachable-IsAgreed (removes {r} n h) =
    remove_node-IsAgreed n r (Reachable-IsSorted h) (Reachable-IsAgreed h)
Reachable-IsAgreed (adds {r} fuel n v r' e h) =
    add_node-IsAgreed fuel n v r r' e (Reachable-IsSorted h) (Reachable-IsAgreed h)

-- In a ring that additions and removals made, a node that is removed owns no key afterwards, as long as
-- a token of another node is left.
owner_for_key-removed :
    {r : HashRing} (node_id key : Bytes) (u : ℕ) (o : Bytes)
    → Reachable r
    → lookup u (remove_node node_id r).ring ≡ some o
    → owner_for_key key (remove_node node_id r) ≢ node_id
owner_for_key-removed {r} n key u o h e same =
    let (t, found, _) = owner_for_key-IsNext key u o (removes n h) e in
    let removed = lookup-remove_node t n r (Reachable-IsSorted h) (Reachable-IsAgreed h) in
    elim (Option-cases (lookup t r.ring)) [
      | inl out ↦ absurd (ground (arith, found, removed, out))
      | inr (p, at) ↦ absurd (ground (arith, found, removed, at, same, bytes_eqb_iff p n))
    ]

-- An addition that succeeds gives the node as many tokens as it was asked for, in the ring as many more
-- than without the node, and leaves every other node its tokens.
tokens_of-add_node :
    {r : HashRing} (fuel : ℕ) (node_id other : Bytes) (virtual_nodes : ℤ) (r' : HashRing)
    → Reachable r
    → add_node fuel node_id virtual_nodes r ≡ returns (some r')
    → (virtual_nodes ≡ pos (length (tokens_of node_id r')))
      × (length r'.ring ≡ length (remove_node node_id r).ring + length (tokens_of node_id r'))
      × (tokens_of other r'
          ≡ (if bytes_eqb node_id other then tokens_of node_id r' else tokens_of other r))
tokens_of-add_node {r} fuel n k virtual_nodes r' h e =
    let (v, positive, ts, x, l, listed) = add_node-IsExtended fuel n virtual_nodes r r' e in
    let g = Reachable-IsAgreed h in
    let mine : tokens_of n r' ≡ ts =
      ground (arith, tokens_of-insert n n ts (remove_node n r) r' listed, bytes_eqb_iff n n) in
    (
      rw (mine, l) positive,
      rw mine x.counted,
      ground (
        arith,
        mine,
        tokens_of-insert k n ts (remove_node n r) r' listed,
        tokens_of-remove_node k n r g,
      ),
    )
