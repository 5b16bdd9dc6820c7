-- ===== src/Bench/Shares/Rounds.antt =====
-- On the loops that fill in the requests, and on the sorting.
use distributed_cache.Prelude.{
  ℕ, zero, suc, ◌+◌, ◌-◌, ◌/◌, ◌%◌, ◌*◌, ◌^◌, ◌≤◌, ◌<◌, ltb, ◌≡◌, refl, ap, ◌∙◌, Bool, List, [],
  ◌∷◌, length, get_or, sum_by, All, arith, if◌then◌else◌,
}
use native.Mathlib.Omega.{div_any}
use distributed_cache.Bench.Shares.{
  ScenarioSpec, size_add, size_sub, add_one, even_shares, insert_sorted, sort, index_in,
  give_remainder,
}

abbrev pub total : List ℕ → ℕ
total = sum_by (λ r. r)

pub size_add-exact : (a b : ℕ) → a + b < 2 ^ 64 → size_add a b ≡ a + b
unfolding size_add
size_add-exact a b h = omega arith

pub size_sub-exact : (a b : ℕ) → b ≤ a → a < 2 ^ 64 → size_sub a b ≡ a - b
unfolding size_sub
size_sub-exact a b h l = omega arith

-- A round of the loop that gives the remainder.
add_one-total :
    (i : ℕ) (requests : List ℕ)
    → i < length requests
    → total requests + 1 < 2 ^ 64
    → (total (add_one i requests) ≡ total requests + 1)
      × (length (add_one i requests) ≡ length requests)
unfolding add_one
add_one-total i [] h l = absurd (omega arith)
add_one-total zero (r ∷ requests) h l = (omega (arith, size_add-exact r 1 (omega arith)), refl)
add_one-total (suc i) (r ∷ requests) h l =
    let (t, k) = add_one-total i requests (omega arith) (omega arith) in
    (omega (arith, t), ap suc k)

index_in-bound :
    (n i : ℕ) (indices : List ℕ)
    → All (λ j. j < n) indices
    → 0 < length indices
    → index_in indices i < n
unfolding index_in
index_in-bound n i indices a h = all_get_or n (i % length indices) indices a (omega arith)
  where
    all_get_or : (n k : ℕ) (js : List ℕ) → All (λ j. j < n) js → k < length js → get_or js k 0 < n
    all_get_or n k [] a h = absurd (omega arith)
    all_get_or n zero (j ∷ js) a h = a.0
    all_get_or n (suc k) (j ∷ js) a h = all_get_or n k js a.1 (omega arith)

pub give_remainder-total :
    (left i : ℕ) (indices requests : List ℕ)
    → All (λ j. j < length requests) indices
    → 0 < length indices
    → total requests + left < 2 ^ 64
    → (total (give_remainder left i indices requests) ≡ total requests + left)
      × (length (give_remainder left i indices requests) ≡ length requests)
unfolding give_remainder
give_remainder-total zero i indices requests a h l = (omega arith, refl)
give_remainder-total (suc left) i indices requests a h l =
    let (t, k) =
      add_one-total (index_in indices i) requests (index_in-bound (length requests) i indices a h)
        (omega arith) in
    let more = add_one (index_in indices i) requests in
    let (u, m) = give_remainder-total left (suc i) indices more (rw k a) h (omega (arith, t)) in
    (omega (arith, t, u), m ∙ k)

pub rest_below : (a n : ℕ) → 0 < n → a % n < n
rest_below a n h = omega arith

pub quotient_and_rest : (a n : ℕ) → 0 < n → a / n + a % n ≤ a
quotient_and_rest a zero h = elim h [ ]
quotient_and_rest a (suc n) h = omega (arith, div_any a (suc n))

-- The loop where all weights are 0.
pub even_shares-total :
    (base remainder i : ℕ) (scenarios : List ScenarioSpec)
    → base + remainder < 2 ^ 64
    → total (even_shares base remainder i scenarios)
      ≡ length scenarios * base
        + (if ltb remainder (i + length scenarios) then remainder - i else length scenarios)
unfolding even_shares
even_shares-total base remainder i [] h = ground arith
even_shares-total base remainder i (s ∷ scenarios) h = ground (
  arith,
  size_add-exact base (if ltb i remainder then 1 else 0) (ground arith),
  even_shares-total base remainder (suc i) scenarios h,
)

pub even_shares-length :
    (base remainder i : ℕ) (scenarios : List ScenarioSpec)
    → length (even_shares base remainder i scenarios) ≡ length scenarios
unfolding even_shares
even_shares-length base remainder i [] = refl
even_shares-length base remainder i (s ∷ scenarios) =
    ap suc (even_shares-length base remainder (suc i) scenarios)

-- Sorting keeps what holds of all, and the length.
module _ {ℓ} {A : Type ℓ} (P : A → Type 0) (less : A → A → Bool) where
  insert_sorted-All : (a : A) (bs : List A) → P a → All P bs → All P (insert_sorted less a bs)
  unfolding insert_sorted
  insert_sorted-All a [] p q = (p, tt)
  insert_sorted-All a (b ∷ bs) p q = ground (arith, insert_sorted-All a bs p q.1, p, q)

  pub sort-All : (bs : List A) → All P bs → All P (sort less bs)
  unfolding sort
  sort-All [] q = tt
  sort-All (b ∷ bs) q = insert_sorted-All b (sort less bs) q.0 (sort-All bs q.1)

module _ {ℓ} {A : Type ℓ} (less : A → A → Bool) where
  insert_sorted-length : (a : A) (bs : List A) → length (insert_sorted less a bs) ≡ suc (length bs)
  unfolding insert_sorted
  insert_sorted-length a [] = refl
  insert_sorted-length a (b ∷ bs) = ground (arith, insert_sorted-length a bs)

  pub sort-length : (bs : List A) → length (sort less bs) ≡ length bs
  unfolding sort
  sort-length [] = refl
  sort-length (b ∷ bs) = insert_sorted-length b (sort less bs) ∙ ap suc (sort-length bs)
