-- ===== src/Cluster/HashRing/Probing.antt =====
-- On the search for a free token: how many attempts it may need.
use distributed_cache.Prelude.{
  ℕ, zero, suc, ◌+◌, ◌≤◌, pos, Bytes, nat_key, bytes_key, nat_eqb, nat_eqb_iff, ◌≡◌, ◌≢◌, inl, inr,
  refl, Bool, true, false, not, ◌&&◌, none, some, List, [], ◌∷◌, ◌++◌, length, arith, All,
  Option-cases, returns,
}
use distributed_cache.Prelude.Map.{Map, lookup, insert, erase}
use distributed_cache.Cluster.Hash.{token_for}
use distributed_cache.Cluster.HashRing.{
  HashRing, emplace, free_token, add_tokens, remove_node, add_node,
}
use distributed_cache.Cluster.HashRing.Tokens.{has_token, length-emplace}
use distributed_cache.Cluster.HashRing.Agreement.{lookup-free_token}

-- The tokens of the first attempts, from one on.
unfoldable pub attempts : ℕ → Bytes → ℕ → ℕ → List ℕ
attempts zero node_id i attempt = []
attempts (suc fuel) node_id i attempt =
    token_for node_id i attempt ∷ attempts fuel node_id i (suc attempt)

unfoldable pub no_repeat : List ℕ → Bool
unfolding has_token
no_repeat [] = true
no_repeat (t ∷ ts) = not (has_token t ts) && no_repeat ts

-- For each of the virtual nodes from `i` on, the tokens of the attempts differ.
unfoldable pub attempts_differ : ℕ → Bytes → ℕ → ℕ → Bool
unfolding attempts no_repeat
attempts_differ fuel node_id zero i = true
attempts_differ fuel node_id (suc left) i =
    no_repeat (attempts fuel node_id i 0) && attempts_differ fuel node_id left (suc i)

-- Every token stands in the ring.
abbrev Taken : Map ℕ Bytes → List ℕ → Type 0
Taken m = All (λ t. lookup t m ≢ none)

length-erase : (t : ℕ) (m : Map ℕ Bytes) → lookup t m ≢ none → length m ≡ suc (length (erase t m))
unfolding lookup erase
length-erase t [] taken = absurd (taken refl)
length-erase t (p ∷ m) taken = ground (arith, taken, length-erase t m)

lookup-erase_ne :
    (t u : ℕ) (m : Map ℕ Bytes) → nat_eqb u t ≡ false → lookup u (erase t m) ≡ lookup u m
unfolding lookup erase
lookup-erase_ne t u [] ne = refl
lookup-erase_ne t u (p ∷ m) ne =
    ground
      (arith, ne, lookup-erase_ne t u m ne, nat_eqb_iff p.0 t, nat_eqb_iff p.0 u, nat_eqb_iff u t)

Taken-erase :
    (t : ℕ) (ts : List ℕ) (m : Map ℕ Bytes)
    → has_token t ts ≡ false
    → Taken m ts
    → Taken (erase t m) ts
unfolding has_token
Taken-erase t [] m ne h = tt
Taken-erase t (u ∷ us) m ne h = (
  rw (lookup-erase_ne t u m (ground (arith, ne))) h.0,
  Taken-erase t us m (ground (arith, ne)) h.1,
)

-- Different tokens of the ring are no more than its entries.
no_repeat-Taken :
    (ts : List ℕ) (m : Map ℕ Bytes) → no_repeat ts ≡ true → Taken m ts → length ts ≤ length m
unfolding no_repeat
no_repeat-Taken [] m d h = omega arith
no_repeat-Taken (t ∷ ts) m d h =
    let smaller =
      no_repeat-Taken ts (erase t m) (ground (arith, d))
        (Taken-erase t ts m (ground (arith, d)) h.1) in
    omega (arith, smaller, length-erase t m h.0)

free_token-Taken :
    (fuel : ℕ) (n : Bytes) (i a : ℕ) (m : Map ℕ Bytes)
    → free_token fuel n i a m ≡ none
    → Taken m (attempts fuel n i a)
unfolding free_token attempts
free_token-Taken zero n i a m e = tt
free_token-Taken (suc fuel) n i a m e = elim (Option-cases (lookup (token_for n i a) m)) [
  | inl free ↦ absurd (ground (arith, e, free))
  | inr (o, taken) ↦ (
    λ q. absurd (ground (arith, q, taken)),
    free_token-Taken fuel n i (suc a) m (ground (arith, e, taken)),
  )
]

length-attempts : (fuel : ℕ) (n : Bytes) (i a : ℕ) → length (attempts fuel n i a) ≡ fuel
unfolding attempts
length-attempts zero n i a = refl
length-attempts (suc fuel) n i a = omega (arith, length-attempts fuel n i (suc a))

add_tokens_ends :
    (fuel : ℕ) (n : Bytes) (left i : ℕ) (m : Map ℕ Bytes) (ts : List ℕ)
    → length m + left ≤ fuel
    → attempts_differ fuel n left i ≡ true
    → add_tokens fuel n left i m ts ≢ none
unfolding add_tokens attempts_differ
add_tokens_ends fuel n zero i m ts room d e = cc
add_tokens_ends fuel n (suc left) i m ts room d e = elim (Option-cases (free_token fuel n i 0 m)) [
  | inl out ↦ absurd (
      omega (
        arith,
        no_repeat-Taken (attempts fuel n i 0) m (ground (arith, d))
            (free_token-Taken fuel n i 0 m out),
        length-attempts fuel n i 0,
      ))
  | inr (t, found) ↦
      add_tokens_ends fuel n left (suc i) (emplace t n m) (ts ++ t ∷ [])
        (omega (arith, length-emplace t n m (lookup-free_token fuel n i 0 t m found)))
        (ground (arith, d)) (ground (arith, e, found))
]

-- An addition of a positive number of virtual nodes ends, with a ring, where the fuel of each search is
-- at least the entries of the other nodes and the new ones together, and for each virtual node the
-- tokens of so many attempts differ.
pub add_node_ends :
    (fuel : ℕ) (node_id : Bytes) (v : ℕ) (r : HashRing)
    → length (remove_node node_id r).ring + suc v ≤ fuel
    → attempts_differ fuel node_id (suc v) 0 ≡ true
    → (r' : HashRing) × (add_node fuel node_id (pos (suc v)) r ≡ returns (some r'))
unfolding add_node
add_node_ends fuel n v r room d =
    let base = (remove_node n r).ring in
    elim (Option-cases (add_tokens fuel n (suc v) 0 base [])) [
      | inl out ↦ absurd (add_tokens_ends fuel n (suc v) 0 base [] room d out)
      | inr ((ring, tokens), found) ↦ (
        record { ring = ring; node_tokens = insert n tokens (remove_node n r).node_tokens },
        ground (arith, found),
      )
    ]
