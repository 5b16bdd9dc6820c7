-- ===== src/Cluster/HashRing/Order.antt =====
-- On the order of the tokens in the ring, and the rings that can be reached.
use distributed_cache.Prelude.{
  ℕ, zero, suc, ℤ, pos, negsuc, ◌<◌, Bytes, nat_key, bytes_key, ◌≡◌, inl, inr, refl, none, some,
  List, [], ◌∷◌, ◌++◌, ltb, arith, All, All-mono, Bool-cases, Option-cases, returns,
}
use distributed_cache.Prelude.Map.{Map, lookup, insert, erase, erase-All, IsDistinct}
use distributed_cache.Cluster.HashRing.{
  HashRing, new_ring, emplace, free_token, add_tokens, drop_token, drop_tokens, remove_node,
  add_node,
}

-- The entry stands above a token.
abbrev pub IsAbove : ℕ → ℕ × Bytes → Type 0
IsAbove t p = t < p.0

abbrev pub IsSorted : Map ℕ Bytes → Type 0
IsSorted [] = Unit
IsSorted (p ∷ m) = All (IsAbove p.0) m × IsSorted m

lookup_above : (t : ℕ) (m : Map ℕ Bytes) → All (IsAbove t) m → lookup t m ≡ none
unfolding lookup
lookup_above t [] a = refl
lookup_above t (p ∷ m) a = ground (arith, lookup_above t m a.1)

pub IsSorted→IsDistinct : (m : Map ℕ Bytes) → IsSorted m → IsDistinct m
IsSorted→IsDistinct [] s = tt
IsSorted→IsDistinct (p ∷ m) s = (lookup_above p.0 m s.0, IsSorted→IsDistinct m s.1)

emplace-All :
    (b t : ℕ) (n : Bytes) (m : Map ℕ Bytes)
    → b < t
    → All (IsAbove b) m
    → All (IsAbove b) (emplace t n m)
unfolding emplace
emplace-All b t n [] h a = (h, tt)
emplace-All b t n (p ∷ m) h a = ground (arith, a, emplace-All b t n m h a.1)

pub emplace-IsSorted : (t : ℕ) (n : Bytes) (m : Map ℕ Bytes) → IsSorted m → IsSorted (emplace t n m)
unfolding emplace
emplace-IsSorted t n [] s = (tt, tt)
emplace-IsSorted t n (p ∷ m) s = elim (Bool-cases (ltb t p.0)) [
  | inl below ↦ rw below (
    (
      (ground (arith, below)),
      All-mono (IsAbove p.0) (IsAbove t) m (λ q h. ground (arith, below, h)) s.0,
    ),
    s,
  )
  | inr other ↦ rw other (elim (Bool-cases (ltb p.0 t)) [
    | inl above ↦
        rw above (emplace-All p.0 t n m (ground (arith, above)) s.0, emplace-IsSorted t n m s.1)
    | inr same ↦ rw same s
  ])
]

pub erase-IsSorted : (t : ℕ) (m : Map ℕ Bytes) → IsSorted m → IsSorted (erase t m)
unfolding erase
erase-IsSorted t [] s = tt
erase-IsSorted t (p ∷ m) s =
    ground (arith, s, erase-IsSorted t m s.1, erase-All (IsAbove p.0) t m s.0)

pub drop_token-IsSorted :
    (n : Bytes) (t : ℕ) (m : Map ℕ Bytes) → IsSorted m → IsSorted (drop_token n t m)
unfolding drop_token
drop_token-IsSorted n t m s = ground (arith, s, erase-IsSorted t m s)

drop_tokens-IsSorted :
    (n : Bytes) (ts : List ℕ) (m : Map ℕ Bytes) → IsSorted m → IsSorted (drop_tokens n ts m)
unfolding drop_tokens
drop_tokens-IsSorted n [] m s = s
drop_tokens-IsSorted n (t ∷ ts) m s =
    drop_tokens-IsSorted n ts (drop_token n t m) (drop_token-IsSorted n t m s)

pub remove_node-IsSorted :
    (n : Bytes) (r : HashRing) → IsSorted r.ring → IsSorted (remove_node n r).ring
unfolding remove_node
remove_node-IsSorted n r s = elim (Option-cases (lookup n r.node_tokens)) [
  | inl e ↦ rw (remove_node, e) s
  | inr (ts, found) ↦ rw (remove_node, found) (drop_tokens-IsSorted n ts r.ring s)
]

pub add_tokens-IsSorted :
    (fuel : ℕ) (n : Bytes) (left i : ℕ) (m m' : Map ℕ Bytes) (ts ts' : List ℕ)
    → add_tokens fuel n left i m ts ≡ some (m', ts')
    → IsSorted m
    → IsSorted m'
unfolding add_tokens
add_tokens-IsSorted fuel n zero i m m' ts ts' e s = ground (arith, e, s)
add_tokens-IsSorted fuel n (suc left) i m m' ts ts' e s =
    elim (Option-cases (free_token fuel n i 0 m)) [
      | inl out ↦ absurd (ground (arith, e, out))
      | inr (t, found) ↦
          add_tokens-IsSorted fuel n left (suc i) (emplace t n m) m' (ts ++ t ∷ []) ts'
            (ground (arith, e, found)) (emplace-IsSorted t n m s)
    ]

-- The states that additions, and removals, make of a new ring.
pub data Reachable : HashRing → Type 0 where
  starts : Reachable new_ring
  removes : {r : HashRing} (node_id : Bytes) → Reachable r → Reachable (remove_node node_id r)
  adds :
      {r : HashRing} (fuel : ℕ) (node_id : Bytes) (virtual_nodes : ℤ) (r' : HashRing)
      → add_node fuel node_id virtual_nodes r ≡ returns (some r')
      → Reachable r
      → Reachable r'

-- What an addition that succeeds is made of.
pub add_node-add_tokens :
    (fuel : ℕ) (n : Bytes) (virtual_nodes : ℤ) (r r' : HashRing)
    → add_node fuel n virtual_nodes r ≡ returns (some r')
    → (v : ℕ) × (virtual_nodes ≡ pos (suc v))
      × (ts : List ℕ) × (add_tokens fuel n (suc v) 0 (remove_node n r).ring [] ≡ some (r'.ring, ts))
      × (r'.node_tokens ≡ insert n ts (remove_node n r).node_tokens)
unfolding add_node
add_node-add_tokens fuel n (negsuc v) r r' e = cc
add_node-add_tokens fuel n (pos zero) r r' e = cc
add_node-add_tokens fuel n (pos (suc v)) r r' e =
    elim (Option-cases (add_tokens fuel n (suc v) 0 (remove_node n r).ring [])) [
      | inl out ↦ absurd (ground (arith, e, out))
      | inr ((ring, ts), found) ↦ (v, refl, ts, ground (arith, e, found), ground (arith, e, found))
    ]

pub Reachable-IsSorted : {r : HashRing} → Reachable r → IsSorted r.ring
Reachable-IsSorted starts = tt
Reachable-IsSorted (removes {r} n h) = remove_node-IsSorted n r (Reachable-IsSorted h)
Reachable-IsSorted (adds {r} fuel n v r' e h) =
    let (w, _, ts, added, _) = add_node-add_tokens fuel n v r r' e in
    add_tokens-IsSorted fuel n (suc w) 0 (remove_node n r).ring r'.ring [] ts added
      (remove_node-IsSorted n r (Reachable-IsSorted h))
