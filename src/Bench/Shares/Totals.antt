-- ===== src/Bench/Shares/Totals.antt =====
-- However the floating-point operations round, every operation is given to one scenario.
use distributed_cache.Prelude.{
  ℕ, zero, suc, ◌+◌, ◌/◌, ◌%◌, ◌^◌, ◌≤◌, ◌<◌, nat_eqb, ltb, ◌≡◌, ◌≢◌, refl, sym, ap, ◌∙◌, true,
  false, List, [], ◌∷◌, length, length-replicate, map, replicate, All, arith, Bool-cases, inl, inr,
}
use mathlib.Core.Path.{subst}
use native.Mathlib.Omega.{div_any}
use distributed_cache.Bench.Shares.{
  ScenarioSpec, LongDouble, FractionalPart, size_add, size_sub, even_shares, weight_from,
  base_share, allocate, larger_first, sort, settle_shares, weighted_shares,
  distribute_scenario_requests,
}
use distributed_cache.Bench.Shares.Rounds.{
  total, size_add-exact, size_sub-exact, give_remainder-total, even_shares-total,
  even_shares-length, sort-All, sort-length, rest_below, quotient_and_rest,
}

module _ {ℓ} {W : Type ℓ} where
  -- The indices of the parts are within the scenarios.
  abbrev Within : ℕ → List (FractionalPart W) → Type 0
  Within n = All (λ p. p.index < n)

  Within-same :
      {m n : ℕ} (parts : List (FractionalPart W)) → m ≡ n → Within m parts → Within n parts
  Within-same {m} {n} parts e w = subst (λ k. Within k parts) e w

  indices-Within :
      (n : ℕ) (parts : List (FractionalPart W))
      → Within n parts
      → All (λ j. j < n) (map (λ p. p.index) parts)
  indices-Within n [] a = tt
  indices-Within n (p ∷ parts) a = (a.0, indices-Within n parts a.1)

  indices-length :
      (parts : List (FractionalPart W)) → length (map (λ p. p.index) parts) ≡ length parts
  indices-length [] = refl
  indices-length (p ∷ parts) = ap suc (indices-length parts)

module _ {ℓ} {W : Type ℓ} ⦃d : LongDouble W⦄ (weight_sum : W) (total_ops : ℕ)
    (h : total_ops < 2 ^ 64) where
  base_share-bound :
      (allocated : ℕ) (s : ScenarioSpec)
      → allocated ≤ total_ops
      → base_share weight_sum total_ops allocated s + allocated ≤ total_ops
  unfolding base_share
  base_share-bound allocated s l = ground (arith, size_sub-exact total_ops allocated l h)

  record Allocated (i allocated : ℕ) (scenarios : List ScenarioSpec)
      (r : List ℕ × List (FractionalPart W) × ℕ) : Type 0 where
    counted : total r.0 + allocated ≡ r.2
    within_ops : r.2 ≤ total_ops
    requests_length : length r.0 ≡ length scenarios
    parts_length : length r.1 ≡ length scenarios
    indexed : Within (i + length scenarios) r.1

  allocate-Allocated :
      (i allocated : ℕ) (scenarios : List ScenarioSpec)
      → allocated ≤ total_ops
      → Allocated i allocated scenarios (allocate weight_sum total_ops i allocated scenarios)
  unfolding allocate
  allocate-Allocated i allocated [] l = record {
    counted = omega arith;
    within_ops = l;
    requests_length = refl;
    parts_length = refl;
    indexed = tt;
  }
  allocate-Allocated i allocated (s ∷ scenarios) l =
      let base = base_share weight_sum total_ops allocated s in
      let b = base_share-bound allocated s l in
      let exact = size_add-exact allocated base (omega (arith, b)) in
      let ih =
        allocate-Allocated (suc i) (size_add allocated base) scenarios (omega (arith, exact, b)) in
      let shifted : suc i + length scenarios ≡ i + suc (length scenarios) = omega arith in
      record {
        counted = omega (arith, ih.counted, exact);
        within_ops = ih.within_ops;
        requests_length = ap suc ih.requests_length;
        parts_length = ap suc ih.parts_length;
        indexed = (omega arith, Within-same _ shifted ih.indexed);
      }

  -- Whatever was allocated, the remainder is given away.
  settle_shares-total :
      (requests : List ℕ) (parts : List (FractionalPart W)) (allocated : ℕ)
      → total requests ≡ allocated
      → allocated ≤ total_ops
      → length parts ≡ length requests
      → 0 < length requests
      → Within (length requests) parts
      → (total (settle_shares total_ops requests parts allocated) ≡ total_ops)
        × (length (settle_shares total_ops requests parts allocated) ≡ length requests)
  unfolding settle_shares
  settle_shares-total requests parts allocated t l k pos w =
      elim (Bool-cases (nat_eqb allocated total_ops)) [
        | inl all ↦ rw (settle_shares, all) (ground (arith, all, t), refl)
        | inr some_left ↦
            let less : ltb allocated total_ops ≡ true = ground (arith, some_left) in
            let sorted = sort larger_first parts in
            let left = size_sub-exact total_ops allocated l h in
            let (u, m) =
              give_remainder-total (size_sub total_ops allocated) 0 (map (λ p. p.index) sorted)
                requests
                (indices-Within (length requests) sorted
                  (sort-All (λ p. p.index < length requests) larger_first parts w))
                (omega (arith, indices-length sorted, sort-length larger_first parts))
                (omega (arith, left)) in
            rw (settle_shares, some_left, less) (omega (arith, u, left), m)
      ]

  weighted_shares-total :
      (scenarios : List ScenarioSpec)
      → 0 < length scenarios
      → (total (weighted_shares weight_sum scenarios total_ops) ≡ total_ops)
        × (length (weighted_shares weight_sum scenarios total_ops) ≡ length scenarios)
  unfolding weighted_shares
  weighted_shares-total scenarios pos =
      let r = allocate weight_sum total_ops 0 0 scenarios in
      let a = allocate-Allocated 0 0 scenarios (omega arith) in
      let (t, l) =
        settle_shares-total r.0 r.1 r.2 (omega (arith, a.counted)) a.within_ops
          (a.parts_length ∙ sym a.requests_length) (omega (arith, a.requests_length))
          (Within-same r.1 (omega (arith, a.requests_length)) a.indexed) in
      (t, l ∙ a.requests_length)

no_operations : (n : ℕ) → total (replicate n 0) ≡ 0
no_operations zero = refl
no_operations (suc n) = omega (arith, no_operations n)

-- With as many scenarios as operations are divided by.
even_shares-all :
    (scenarios : List ScenarioSpec) (total_ops : ℕ)
    → 0 < length scenarios
    → total_ops < 2 ^ 64
    → total (even_shares (total_ops / length scenarios) (total_ops % length scenarios) 0 scenarios)
      ≡ total_ops
even_shares-all scenarios total_ops pos h =
    let n = length scenarios in
    let small : total_ops / n + total_ops % n ≤ total_ops = quotient_and_rest total_ops n pos in
    ground (
      arith,
      even_shares-total (total_ops / n) (total_ops % n) 0 scenarios (omega arith),
      div_any total_ops n,
      rest_below total_ops n pos,
    )

-- `DistributeScenarioRequests` of fewer than 2^64 operations over at least one scenario gives each
-- scenario a number of requests, and these numbers add up to the operations, however the operations on
-- `long double` round, and whatever they give for infinities and for what is not a number; no counter
-- wraps around.
pub distribute_scenario_requests-total {ℓ} :
    (W : Type ℓ) ⦃d : LongDouble W⦄ (scenarios : List ScenarioSpec) (total_ops : ℕ)
    → scenarios ≢ []
    → total_ops < 2 ^ 64
    → (total (distribute_scenario_requests W scenarios total_ops) ≡ total_ops)
      × (length (distribute_scenario_requests W scenarios total_ops) ≡ length scenarios)
unfolding distribute_scenario_requests
distribute_scenario_requests-total W ⦃d⦄ [] total_ops some_scenario h = absurd (some_scenario refl)
distribute_scenario_requests-total W ⦃d⦄ (s ∷ scenarios) total_ops some_scenario h =
    let all = s ∷ scenarios in
    let weight_sum = weight_from (d.from_size 0) all in
    let counted : nat_eqb (length all) 0 ≡ false = ground arith in
    elim (Bool-cases (nat_eqb total_ops 0)) [
      | inl nothing ↦
          rw (distribute_scenario_requests, counted, nothing)
            (ground (arith, nothing, no_operations (length all)), length-replicate (length all) 0)
      | inr something ↦ elim (Bool-cases (d.at_most weight_sum (d.from_size 0))) [
        | inl no_weight ↦
            rw (distribute_scenario_requests, counted, something, no_weight)
              (even_shares-all all total_ops (omega arith) h, even_shares-length _ _ 0 all)
        | inr weighted ↦
            rw (distribute_scenario_requests, counted, something, weighted)
              (weighted_shares-total weight_sum total_ops h all (omega arith))
      ]
    ]
