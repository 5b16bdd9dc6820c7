-- ===== src/Prelude/Map.antt =====
-- The program's maps (`std::unordered_map`, `std::map`) as association lists.
use Prim.Native.Nat.{ℕ, ◌+◌}
use mathlib.Core.Path.{◌≡◌, refl, subst₂}
use mathlib.Core.Logic.{inl, inr}
use mathlib.Core.Option.{Option, none, some}
use mathlib.Core.List.{List, [], ◌∷◌}
use native.Mathlib.Omega.{arith}
use distributed_cache.Prelude.Tests.{Bool-cases, if◌then◌else◌}
use distributed_cache.Prelude.Lists.{sum_by, All}
use distributed_cache.Prelude.Keys.{Key}

abbrev pub Map {ℓ κ} : Type ℓ → Type κ → Type (ℓ ⊔ κ)
Map K V = List (K × V)

-- The weight of an optional value.
abbrev pub weight {ℓ} : {V : Type ℓ} → (V → ℕ) → Option V → ℕ
weight f none = 0
weight f (some v) = f v

-- The sum of a weight over the values.
abbrev pub total_by {ℓ κ} : {K : Type ℓ} {V : Type κ} → (V → ℕ) → Map K V → ℕ
total_by f = sum_by (λ p. f p.1)

module _ {ℓ κ} {K : Type ℓ} {V : Type κ} ⦃key : Key K⦄ where
  unfoldable pub lookup : K → Map K V → Option V
  lookup wanted [] = none
  lookup wanted (p ∷ m) =
      let rest = lookup wanted m in if key.same p.0 wanted then some p.1 else rest

  -- `map[k] = v`
  unfoldable pub insert : K → V → Map K V → Map K V
  insert k new [] = (k, new) ∷ []
  insert k new (p ∷ m) =
      let rest = insert k new m in if key.same p.0 k then (p.0, new) ∷ m else p ∷ rest

  -- `map.erase(it)`, with `it` at the key
  unfoldable pub erase : K → Map K V → Map K V
  erase k [] = []
  erase k (p ∷ m) = let rest = erase k m in if key.same p.0 k then m else p ∷ rest

  -- No key stands twice.
  abbrev pub IsDistinct : Map K V → Type κ
  IsDistinct [] = Unit
  IsDistinct (p ∷ m) = (lookup p.0 m ≡ none) × IsDistinct m

  pub lookup-insert :
      (k j : K) (v : V) (m : Map K V)
      → lookup j (insert k v m) ≡ (if key.same k j then some v else lookup j m)
  unfolding lookup insert
  lookup-insert k j v [] = refl
  lookup-insert k j v ((i, w) ∷ m) =
      ground (arith, lookup-insert k j v m, key.same_iff i j, key.same_iff i k, key.same_iff k j)

  pub lookup-erase :
      (k j : K) (m : Map K V)
      → IsDistinct m
      → lookup j (erase k m) ≡ (if key.same k j then none else lookup j m)
  unfolding lookup erase
  lookup-erase k j [] d = ground arith
  lookup-erase k j ((i, w) ∷ m) d =
      ground (arith, key.same_iff k j, key.same_iff i k, key.same_iff i j, lookup-erase k j m d.1)

  pub total_by-insert :
      (f : V → ℕ) (k : K) (v : V) (m : Map K V)
      → total_by f (insert k v m) + weight f (lookup k m) ≡ total_by f m + f v
  unfolding lookup insert
  total_by-insert f k v [] = omega arith
  total_by-insert f k v ((i, w) ∷ m) = ground (arith, total_by-insert f k v m)

  pub total_by-erase :
      (f : V → ℕ) (k : K) (m : Map K V)
      → total_by f (erase k m) + weight f (lookup k m) ≡ total_by f m
  unfolding lookup erase
  total_by-erase f k [] = omega arith
  total_by-erase f k ((i, w) ∷ m) = ground (arith, total_by-erase f k m)

  pub insert-IsDistinct : (k : K) (v : V) (m : Map K V) → IsDistinct m → IsDistinct (insert k v m)
  unfolding lookup insert
  insert-IsDistinct k v [] d = (refl, tt)
  insert-IsDistinct k v ((i, w) ∷ m) d = ground (
    arith,
    key.same_iff i k,
    key.same_iff k i,
    lookup-insert k i v m,
    insert-IsDistinct k v m d.1,
  )

  pub erase-IsDistinct : (k : K) (m : Map K V) → IsDistinct m → IsDistinct (erase k m)
  unfolding lookup erase
  erase-IsDistinct k [] d = tt
  erase-IsDistinct k ((i, w) ∷ m) d =
      ground (arith, lookup-erase k i m d.1, erase-IsDistinct k m d.1)

  module _ {ι} (P : K × V → Type ι) where
    pub insert-All : (k : K) (v : V) (m : Map K V) → P (k, v) → All P m → All P (insert k v m)
    unfolding insert
    insert-All k v [] p h = (p, tt)
    insert-All k v ((i, w) ∷ m) p h = elim (Bool-cases (key.same i k)) [
      | inl t ↦ rw t (rw ((key.same_iff i k).0 t) p, h.1)
      | inr f ↦ rw f (h.0, insert-All k v m p h.1)
    ]

    pub erase-All : (k : K) (m : Map K V) → All P m → All P (erase k m)
    unfolding erase
    erase-All k [] h = tt
    erase-All k ((i, w) ∷ m) h = ground (arith, erase-All k m h.1)

    -- What is found is an entry.
    pub lookup-All : (k : K) (v : V) (m : Map K V) → All P m → lookup k m ≡ some v → P (k, v)
    unfolding lookup
    lookup-All k v [] h q = cc
    lookup-All k v ((i, w) ∷ m) h q = elim (Bool-cases (key.same i k)) [
      | inl t ↦ subst₂ (λ a b. P (a, b)) ((key.same_iff i k).0 t) (ground arith) h.0
      | inr f ↦ lookup-All k v m h.1 (ground arith)
    ]
