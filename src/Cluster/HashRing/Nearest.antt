-- ===== src/Cluster/HashRing/Nearest.antt =====
-- On `lower_bound` and the next token of a hash.
use distributed_cache.Prelude.{
  ℕ, ◌<◌, ◌≤◌, Bytes, nat_key, bytes_key, nat_eqb_iff, ◌≡◌, inl, inr, none, some, [], ◌∷◌, ltb,
  arith, All, Bool-cases, Option-cases,
}
use distributed_cache.Prelude.Map.{Map, lookup, lookup-All}
use distributed_cache.Cluster.Hash.{hash64}
use distributed_cache.Cluster.HashRing.{HashRing, lower_bound, owner_at, owner_for_key}
use distributed_cache.Cluster.HashRing.Moves.{owner_at_found}
use distributed_cache.Cluster.HashRing.Order.{IsAbove, IsSorted, Reachable, Reachable-IsSorted}

-- The next token of a hash, clockwise: the least that is not below it, or else the least of all.
pub record IsNext (hash : ℕ) (m : Map ℕ Bytes) (t : ℕ) : Type 0 where
  pub wraps_last : (u : ℕ) (o : Bytes) → t < hash → lookup u m ≡ some o → (u < hash) × (t ≤ u)
  pub nearest : (u : ℕ) (o : Bytes) → hash ≤ t → lookup u m ≡ some o → hash ≤ u → t ≤ u

lookup-IsAbove :
    (t : ℕ) (m : Map ℕ Bytes)
    → All (IsAbove t) m
    → (u : ℕ) (o : Bytes) → lookup u m ≡ some o
    → t < u
lookup-IsAbove t m a u o e = lookup-All (IsAbove t) u o m a e

lower_bound-none :
    (h : ℕ) (m : Map ℕ Bytes)
    → lower_bound h m ≡ none
    → (u : ℕ) (o : Bytes) → lookup u m ≡ some o
    → u < h
unfolding lower_bound lookup
lower_bound-none h [] e u o f = cc
lower_bound-none h (p ∷ m) e u o f =
    ground (arith, e, f, lower_bound-none h m (ground (arith, e)) u o)

lower_bound-some :
    (h : ℕ) (m : Map ℕ Bytes) (t : ℕ) (n : Bytes)
    → IsSorted m
    → lower_bound h m ≡ some (t, n)
    → (lookup t m ≡ some n) × (h ≤ t) × ((u : ℕ) (o : Bytes) → lookup u m ≡ some o → h ≤ u → t ≤ u)
unfolding lower_bound lookup
lower_bound-some h [] t n s e = cc
lower_bound-some h (p ∷ m) t n s e = elim (Bool-cases (ltb p.0 h)) [
  | inl below ↦
      let ih = lower_bound-some h m t n s.1 (ground (arith, e, below)) in
      (
        ground (arith, ih.0, lookup-IsAbove p.0 m s.0 t n ih.0, nat_eqb_iff p.0 t),
        ih.1,
        λ u o f g. ground (arith, below, f, g, ih.2 u o, lookup-IsAbove p.0 m s.0 u o),
      )
  | inr other ↦ (
    ground (arith, e, other, nat_eqb_iff p.0 t),
    ground (arith, e, other),
    λ u o f g. ground (arith, e, other, f, g, lookup-IsAbove p.0 m s.0 u o),
  )
]

owner_at_wraps :
    (h : ℕ) (p : ℕ × Bytes) (m : Map ℕ Bytes)
    → lower_bound h (p ∷ m) ≡ none
    → owner_at h (p ∷ m) ≡ p.1
unfolding owner_at
owner_at_wraps h p m e = ground (arith, e)

lookup_head : (p : ℕ × Bytes) (m : Map ℕ Bytes) → lookup p.0 (p ∷ m) ≡ some p.1
unfolding lookup
lookup_head p m = ground arith

head_least :
    (p : ℕ × Bytes) (m : Map ℕ Bytes)
    → IsSorted (p ∷ m)
    → (u : ℕ) (o : Bytes) → lookup u (p ∷ m) ≡ some o
    → p.0 ≤ u
unfolding lookup
head_least p m s u o e = ground (arith, e, lookup-IsAbove p.0 m s.0 u o)

owner_at-IsNext :
    (h : ℕ) (m : Map ℕ Bytes) (u : ℕ) (o : Bytes)
    → IsSorted m
    → lookup u m ≡ some o
    → (t : ℕ) × (lookup t m ≡ some (owner_at h m)) × IsNext h m t
unfolding lookup
owner_at-IsNext h [] u o s e = cc
owner_at-IsNext h (p ∷ m) u o s e = elim (Option-cases (lower_bound h (p ∷ m))) [
  | inl out ↦
      let above = lower_bound-none h (p ∷ m) out in
      (
        p.0,
        rw (owner_at_wraps h p m out) (lookup_head p m),
        record {
          wraps_last = λ v q below f. (above v q f, head_least p m s v q f);
          nearest = λ v q reach f g. absurd (omega (arith, above p.0 p.1 (lookup_head p m)));
        },
      )
  | inr ((t, n), found) ↦
      let (at, reach, least) = lower_bound-some h (p ∷ m) t n s found in
      (
        t,
        rw (owner_at_found h (t, n) (p ∷ m) found) at,
        record {
          wraps_last = λ v q below f. absurd (omega arith);
          nearest = λ v q _ f g. least v q f g;
        },
      )
]

-- In a ring that additions and removals made, and which has a token, the owner of a key is the node of
-- the next token of the key's hash, clockwise: of the least token that is not below the hash, or, if
-- all are below it, of the least token.
pub owner_for_key-IsNext :
    {r : HashRing} (key : Bytes) (u : ℕ) (o : Bytes)
    → Reachable r
    → lookup u r.ring ≡ some o
    → (t : ℕ) × (lookup t r.ring ≡ some (owner_for_key key r)) × IsNext (hash64 key) r.ring t
unfolding owner_for_key
owner_for_key-IsNext {r} key u o h e =
    owner_at-IsNext (hash64 key) r.ring u o (Reachable-IsSorted h) e
