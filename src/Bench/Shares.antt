-- ===== src/Bench/Shares.antt =====
-- src/bench/cache_bench.cpp: `SumScenarioRequests` and `DistributeScenarioRequests`. The proofs are in the
-- modules below.
pub mod Sum
pub mod Rounds
pub mod Totals
use distributed_cache.Prelude.{
  ℕ, zero, suc, ◌+◌, ◌-◌, ◌/◌, ◌%◌, ◌^◌, Bytes, nat_eqb, ltb, Bool, true, false, ◌||◌, Option, none,
  some, List, [], ◌∷◌, length, get_or, replicate, map, if◌then◌else◌,
}

pub record ScenarioSpec : Type 0 where
  pub name : Bytes
  pub requests : ℕ

-- The loop of `SumScenarioRequests`; `none` is `false`.
unfoldable pub sum_from : ℕ → List ScenarioSpec → Option ℕ
sum_from total [] = some total
sum_from total (s ∷ scenarios) =
    if ltb (2 ^ 64 - 1 - total) s.requests then none else sum_from (total + s.requests) scenarios

unfoldable pub sum_scenario_requests : List ScenarioSpec → Option ℕ
unfolding sum_from
sum_scenario_requests scenarios = sum_from 0 scenarios

-- All that the code does with a `long double`.
pub record LongDouble {ℓ} (W : Type ℓ) : Type ℓ where
  pub from_size : ℕ → W
  pub to_size : W → ℕ
  pub add : W → W → W
  pub sub : W → W → W
  pub mul : W → W → W
  pub div : W → W → W
  pub floor : W → W
  pub below : W → W → Bool
  pub at_most : W → W → Bool
  pub equal : W → W → Bool

pub record FractionalPart {ℓ} (W : Type ℓ) : Type ℓ where
  pub index : ℕ
  pub fraction : W

-- `size_t` of 64 bits.
unfoldable pub size_add : ℕ → ℕ → ℕ
size_add a b = (a + b) % 2 ^ 64

unfoldable pub size_sub : ℕ → ℕ → ℕ
size_sub a b = (a + 2 ^ 64 - b) % 2 ^ 64

-- `requests[i] += 1`
unfoldable pub add_one : ℕ → List ℕ → List ℕ
unfolding size_add
add_one i [] = []
add_one zero (r ∷ requests) = size_add r 1 ∷ requests
add_one (suc i) (r ∷ requests) = r ∷ add_one i requests

-- `if (requests[i] > 0) requests[i] -= 1`
unfoldable pub take_one : ℕ → List ℕ → List ℕ
take_one i [] = []
take_one zero (r ∷ requests) = (if ltb 0 r then r - 1 else r) ∷ requests
take_one (suc i) (r ∷ requests) = r ∷ take_one i requests

-- The loop where all weights are 0, from the index `i` on.
unfoldable pub even_shares : (base remainder i : ℕ) → List ScenarioSpec → List ℕ
unfolding size_add
even_shares base remainder i [] = []
even_shares base remainder i (s ∷ scenarios) =
    size_add base (if ltb i remainder then 1 else 0) ∷ even_shares base remainder (suc i) scenarios

module _ {ℓ} {W : Type ℓ} ⦃d : LongDouble W⦄ where
  unfoldable pub weight_from : W → List ScenarioSpec → W
  weight_from weight_sum [] = weight_sum
  weight_from weight_sum (s ∷ scenarios) =
      weight_from (d.add weight_sum (d.from_size s.requests)) scenarios

  unfoldable pub quota : W → ℕ → ScenarioSpec → W
  quota weight_sum total_ops s =
      d.div (d.mul (d.from_size total_ops) (d.from_size s.requests)) weight_sum

  -- The quota's floor, between 0 and the number of operations, and what is left to allocate.
  unfoldable pub base_share : W → ℕ → ℕ → ScenarioSpec → ℕ
  unfolding quota size_sub
  base_share weight_sum total_ops allocated s =
      let floored = d.floor (quota weight_sum total_ops s) in
      let positive = if d.below floored (d.from_size 0) then d.from_size 0 else floored in
      let bounded =
        if d.below (d.from_size total_ops) positive then d.from_size total_ops else positive in
      let base = d.to_size bounded in
      if ltb (size_sub total_ops allocated) base then size_sub total_ops allocated else base

  -- The loop over the scenarios, from the index `i` on: the requests, the fractional parts, and what is
  -- allocated in the end.
  unfoldable pub allocate :
      W → (total_ops i allocated : ℕ) → List ScenarioSpec → List ℕ × List (FractionalPart W) × ℕ
  unfolding base_share size_add quota
  allocate weight_sum total_ops i allocated [] = ([], [], allocated)
  allocate weight_sum total_ops i allocated (s ∷ scenarios) =
      let base = base_share weight_sum total_ops allocated s in
      let rest = d.sub (quota weight_sum total_ops s) (d.from_size base) in
      let fraction = if d.below rest (d.from_size 0) then d.from_size 0 else rest in
      let (requests, parts, all) =
        allocate weight_sum total_ops (suc i) (size_add allocated base) scenarios in
      (base ∷ requests, (record { index = i; fraction = fraction }) ∷ parts, all)

  -- The orders of the two sorts.
  unfoldable pub larger_first : FractionalPart W → FractionalPart W → Bool
  larger_first a b =
      if d.equal a.fraction b.fraction then ltb a.index b.index else d.below b.fraction a.fraction

  unfoldable pub smaller_first : FractionalPart W → FractionalPart W → Bool
  smaller_first a b =
      if d.equal a.fraction b.fraction then ltb a.index b.index else d.below a.fraction b.fraction

-- `std::sort`, where the order leaves no choice.
module _ {ℓ} {A : Type ℓ} (less : A → A → Bool) where
  unfoldable pub insert_sorted : A → List A → List A
  insert_sorted a [] = a ∷ []
  insert_sorted a (b ∷ bs) =
      let rest = insert_sorted a bs in if less b a then b ∷ rest else a ∷ b ∷ bs

  unfoldable pub sort : List A → List A
  unfolding insert_sorted
  sort [] = []
  sort (a ∷ bs) = insert_sorted a (sort bs)

-- The index that a round of the last loops takes.
unfoldable pub index_in : List ℕ → ℕ → ℕ
index_in indices i = get_or indices (i % length indices) 0

-- The loop that gives away the remainder, and the one that takes back an excess: `left` rounds, from `i` on.
unfoldable pub give_remainder : (left i : ℕ) → List ℕ → List ℕ → List ℕ
unfolding add_one index_in
give_remainder zero i indices requests = requests
give_remainder (suc left) i indices requests =
    give_remainder left (suc i) indices (add_one (index_in indices i) requests)

unfoldable pub take_excess : (left i : ℕ) → List ℕ → List ℕ → List ℕ
unfolding take_one index_in
take_excess zero i indices requests = requests
take_excess (suc left) i indices requests =
    take_excess left (suc i) indices (take_one (index_in indices i) requests)

module _ {ℓ} {W : Type ℓ} ⦃d : LongDouble W⦄ where
  -- From the allocation on.
  unfoldable pub settle_shares : ℕ → List ℕ → List (FractionalPart W) → ℕ → List ℕ
  unfolding size_sub sort larger_first smaller_first give_remainder take_excess
  settle_shares total_ops requests parts allocated =
      if nat_eqb allocated total_ops
      then requests
      else if ltb allocated total_ops
      then give_remainder (size_sub total_ops allocated) 0
          (map (λ p. p.index) (sort larger_first parts)) requests
      else take_excess (size_sub allocated total_ops) 0
          (map (λ p. p.index) (sort smaller_first parts)) requests

  unfoldable pub weighted_shares : W → List ScenarioSpec → ℕ → List ℕ
  unfolding allocate settle_shares
  weighted_shares weight_sum scenarios total_ops =
      let (requests, parts, allocated) = allocate weight_sum total_ops 0 0 scenarios in
      settle_shares total_ops requests parts allocated

module _ {ℓ} (W : Type ℓ) ⦃d : LongDouble W⦄ where
  unfoldable pub distribute_scenario_requests : List ScenarioSpec → ℕ → List ℕ
  unfolding weight_from even_shares weighted_shares
  distribute_scenario_requests scenarios total_ops =
      let count = length scenarios in
      let weight_sum = weight_from (d.from_size 0) scenarios in
      if nat_eqb count 0 || nat_eqb total_ops 0
      then replicate count 0
      else if d.at_most weight_sum (d.from_size 0)
      then even_shares (total_ops / count) (total_ops % count) 0 scenarios
      else weighted_shares weight_sum scenarios total_ops
