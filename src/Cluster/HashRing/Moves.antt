-- ===== src/Cluster/HashRing/Moves.antt =====
-- On the keys that change their owner when a node comes or goes.
use distributed_cache.Prelude.{
  ℕ, zero, suc, ℤ, pos, negsuc, Bytes, nat_key, bytes_key, bytes_eqb, bytes_eqb_iff, nat_eqb_iff,
  ◌≡◌, ◌≢◌, ◌⊎◌, inl, inr, refl, ◌∙◌, some, List, [], ◌∷◌, ◌++◌, arith, Bool-cases, Option-cases,
  returns,
}
use distributed_cache.Prelude.Map.{Map, lookup, erase}
use distributed_cache.Cluster.Hash.{hash64}
use distributed_cache.Cluster.HashRing.{
  HashRing, emplace, lower_bound, free_token, add_tokens, drop_token, drop_tokens, remove_node,
  add_node, owner_at, owner_for_key,
}

-- A new entry is found, or what was found before.
lower_bound-emplace :
    (h t : ℕ) (n : Bytes) (m : Map ℕ Bytes)
    → (lower_bound h (emplace t n m) ≡ some (t, n))
      ⊎ (lower_bound h (emplace t n m) ≡ lower_bound h m)
unfolding lower_bound emplace
lower_bound-emplace h t n [] = ground arith
lower_bound-emplace h t n (p ∷ m) = ground (arith, lower_bound-emplace h t n m)

owner_at-emplace :
    (h t : ℕ) (n : Bytes) (m : Map ℕ Bytes)
    → (owner_at h (emplace t n m) ≡ n) ⊎ (owner_at h (emplace t n m) ≡ owner_at h m)
unfolding owner_at emplace lower_bound
owner_at-emplace h t n [] = ground arith
owner_at-emplace h t n (p ∷ m) = ground (arith, lower_bound-emplace h t n m)

-- What is found stays, or is the entry that goes.
lower_bound-erase :
    (h t : ℕ) (n : Bytes) (m : Map ℕ Bytes)
    → lookup t m ≡ some n
    → (lower_bound h m ≡ some (t, n)) ⊎ (lower_bound h (erase t m) ≡ lower_bound h m)
unfolding lower_bound erase lookup
lower_bound-erase h t n [] e = inr refl
lower_bound-erase h t n ((u, o) ∷ m) e =
    ground (arith, e, nat_eqb_iff u t, lower_bound-erase h t n m)

pub owner_at_found :
    (h : ℕ) (q : ℕ × Bytes) (m : Map ℕ Bytes) → lower_bound h m ≡ some q → owner_at h m ≡ q.1
unfolding lower_bound owner_at
owner_at_found h q [] e = cc
owner_at_found h q (p ∷ m) e = ground (arith, e)

owner_at-erase :
    (h t : ℕ) (n : Bytes) (m : Map ℕ Bytes)
    → lookup t m ≡ some n
    → (owner_at h m ≡ n) ⊎ (owner_at h (erase t m) ≡ owner_at h m)
unfolding owner_at erase lookup lower_bound
owner_at-erase h t n [] e = inr refl
owner_at-erase h t n ((u, o) ∷ m) e = elim (Option-cases (lower_bound h m)) [
  | inl none_found ↦ ground (arith, e, none_found, nat_eqb_iff u t, lower_bound-erase h t n m)
  | inr (q, found) ↦
      ground
        (arith, e, found, owner_at_found h q m found, nat_eqb_iff u t, lower_bound-erase h t n m)
]

owner_at-drop_token :
    (h : ℕ) (n : Bytes) (t : ℕ) (m : Map ℕ Bytes)
    → (owner_at h m ≡ n) ⊎ (owner_at h (drop_token n t m) ≡ owner_at h m)
unfolding drop_token
owner_at-drop_token h n t m = elim (Option-cases (lookup t m)) [
  | inl e ↦ rw (drop_token, e) (inr refl)
  | inr (o, found) ↦
      rw (drop_token, found)
        (elim (Bool-cases (bytes_eqb o n)) [
          | inl same ↦ rw same (owner_at-erase h t n m (rw (← (bytes_eqb_iff o n).0 same) found))
          | inr other ↦ rw other (inr refl)
        ])
]

owner_at-drop_tokens :
    (h : ℕ) (n : Bytes) (ts : List ℕ) (m : Map ℕ Bytes)
    → owner_at h m ≢ n
    → owner_at h (drop_tokens n ts m) ≡ owner_at h m
unfolding drop_tokens
owner_at-drop_tokens h n [] m other = refl
owner_at-drop_tokens h n (t ∷ ts) m other = elim (owner_at-drop_token h n t m) [
  | inl same ↦ absurd (other same)
  | inr e ↦ owner_at-drop_tokens h n ts (drop_token n t m) (rw e other) ∙ e
]

-- Removing a node leaves every key with its owner, unless the node itself owned it.
pub owner_for_key-remove_node :
    (node_id key : Bytes) (r : HashRing)
    → owner_for_key key r ≢ node_id
    → owner_for_key key (remove_node node_id r) ≡ owner_for_key key r
unfolding owner_for_key remove_node
owner_for_key-remove_node n key r other = elim (Option-cases (lookup n r.node_tokens)) [
  | inl e ↦ rw (remove_node, e) refl
  | inr (ts, found) ↦ rw (remove_node, found) (owner_at-drop_tokens (hash64 key) n ts r.ring other)
]

owner_at-add_tokens :
    (h fuel : ℕ) (n : Bytes) (left i : ℕ) (m m' : Map ℕ Bytes) (ts ts' : List ℕ)
    → add_tokens fuel n left i m ts ≡ some (m', ts')
    → (owner_at h m' ≡ n) ⊎ (owner_at h m' ≡ owner_at h m)
unfolding add_tokens
owner_at-add_tokens h fuel n zero i m m' ts ts' e = inr (ground (arith, e))
owner_at-add_tokens h fuel n (suc left) i m m' ts ts' e =
    elim (Option-cases (free_token fuel n i 0 m)) [
      | inl out ↦ absurd (ground (arith, e, out))
      | inr (t, found) ↦ ground (
        arith,
        owner_at-add_tokens h fuel n left (suc i) (emplace t n m) m' (ts ++ t ∷ []) ts'
            (ground (arith, e, found)),
        owner_at-emplace h t n m,
      )
    ]

-- After a node is added, anew or again with another number of virtual nodes, every key belongs to it or
-- to its owner before, unless the node itself owned it before.
pub owner_for_key-add_node :
    (fuel : ℕ) (node_id key : Bytes) (virtual_nodes : ℤ) (r r' : HashRing)
    → add_node fuel node_id virtual_nodes r ≡ returns (some r')
    → owner_for_key key r ≢ node_id
    → (owner_for_key key r' ≡ node_id) ⊎ (owner_for_key key r' ≡ owner_for_key key r)
unfolding add_node owner_for_key
owner_for_key-add_node fuel n key (negsuc v) r r' e other = cc
owner_for_key-add_node fuel n key (pos zero) r r' e other = cc
owner_for_key-add_node fuel n key (pos (suc v)) r r' e other =
    let removed = remove_node n r in
    elim (Option-cases (add_tokens fuel n (suc v) 0 removed.ring [])) [
      | inl out ↦ absurd (ground (arith, e, out))
      | inr ((ring, tokens), found) ↦ ground (
        arith,
        e,
        found,
        owner_at-add_tokens (hash64 key) fuel n (suc v) 0 removed.ring ring [] tokens found,
        owner_for_key-remove_node n key r other,
      )
    ]
