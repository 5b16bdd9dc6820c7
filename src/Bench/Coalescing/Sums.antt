-- ===== src/Bench/Coalescing/Sums.antt =====
-- Sums over the calls of a burst.
use distributed_cache.Prelude.{
  ℕ, zero, suc, ◌+◌, ◌<◌, ◌≤◌, bytes_key, nat_eqb, nat_eqb_iff, ◌≡◌, ◌≢◌, inl, inr, refl, ap, arith,
  Bool-cases,
}
use distributed_cache.Core.Coalescer.{at}

-- The sum of a function below a bound.
abbrev pub sum_below : ℕ → (ℕ → ℕ) → ℕ
sum_below zero f = 0
sum_below (suc n) f = sum_below n f + f n

sum_below_same :
    (n : ℕ) (f g : ℕ → ℕ) → ((j : ℕ) → j < n → f j ≡ g j) → sum_below n f ≡ sum_below n g
sum_below_same zero f g h = refl
sum_below_same (suc n) f g h =
    omega (arith, sum_below_same n f g (λ j l. h j (omega arith)), h n (omega arith))

-- One summand is changed.
sum_below_change :
    (n i : ℕ) (f g : ℕ → ℕ)
    → i < n
    → ((j : ℕ) → i ≢ j → g j ≡ f j)
    → sum_below n g + f i ≡ sum_below n f + g i
sum_below_change zero i f g l h = absurd (omega arith)
sum_below_change (suc n) i f g l h = elim (Bool-cases (nat_eqb i n)) [
  | inl last ↦
      let e = (nat_eqb_iff i n).0 last in
      let front = sum_below_same n g f (λ j b. h j (λ same. absurd (omega (arith, same, b, e)))) in
      rw e (omega (arith, front))
  | inr before ↦
      let ne : i ≢ n = ground (arith, before) in
      omega (arith, sum_below_change n i f g (ground (arith, before)) h, h n ne)
]

pub sum_below_le : (n : ℕ) (f : ℕ → ℕ) → ((j : ℕ) → f j ≤ 1) → sum_below n f ≤ n
sum_below_le zero f h = omega arith
sum_below_le (suc n) f h = omega (arith, sum_below_le n f h, h n)

pub sum_below_all : (n : ℕ) (f : ℕ → ℕ) → ((j : ℕ) → j < n → f j ≡ 1) → sum_below n f ≡ n
sum_below_all zero f h = refl
sum_below_all (suc n) f h =
    omega (arith, sum_below_all n f (λ j l. h j (omega arith)), h n (omega arith))

pub sum_below_one : (n i : ℕ) (f : ℕ → ℕ) → i < n → f i ≤ sum_below n f
sum_below_one zero i f l = absurd (omega arith)
sum_below_one (suc n) i f l = elim (Bool-cases (nat_eqb i n)) [
  | inl last ↦ rw ((nat_eqb_iff i n).0 last) (omega arith)
  | inr before ↦ omega (arith, sum_below_one n i f (ground (arith, before)))
]

pub at_self {ℓ} : {A : Type ℓ} (i : ℕ) (new : A) (f : ℕ → A) → at i new f i ≡ new
unfolding at
at_self i new f = ground (arith, nat_eqb_iff i i)

pub at_other {ℓ} : {A : Type ℓ} (i j : ℕ) (new : A) (f : ℕ → A) → i ≢ j → at i new f j ≡ f j
unfolding at
at_other i j new f ne = ground (arith, nat_eqb_iff i j)

-- The sum after a change at one number.
pub at-sum_below {ℓ} :
    {A : Type ℓ} (weigh : A → ℕ) (n i : ℕ) (new : A) (f : ℕ → A)
    → i < n
    → sum_below n (λ j. weigh (at i new f j)) + weigh (f i)
      ≡ sum_below n (λ j. weigh (f j)) + weigh new
at-sum_below weigh n i new f l = omega (
  arith,
  sum_below_change n i (λ j. weigh (f j)) (λ j. weigh (at i new f j)) l
      (λ j ne. ap weigh (at_other i j new f ne)),
  ap weigh (at_self i new f),
)
