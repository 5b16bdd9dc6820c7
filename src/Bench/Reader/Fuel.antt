-- ===== src/Bench/Reader/Fuel.antt =====
-- The fuel of `SkipValue` is enough.
use distributed_cache.Prelude.{
  ℕ, zero, suc, ◌<◌, ◌≤◌, Bytes, ◌≡◌, refl, Option, none, some, [], ◌∷◌, length, length-drop, arith,
  Bool-cases, Option-cases, inl, inr,
}
use distributed_cache.Bench.Json.{skip_whitespace, consume, parse_string}
use distributed_cache.Bench.Json.Fuel.{
  Shrinks, skip_whitespace-length, parse_string-Shrinks, consume-length, consume_taken,
}
use distributed_cache.Bench.Reader.{
  parse_key, Skipped, discard, skip_number, skip_scalar, skip_array, skip_member, skip_object,
  skip_at, skip_nested,
}
use distributed_cache.Bench.Reader.Loops.{
  IsReading, read_first-Shrinks, read_first_same, parse_key-Shrinks,
}

skip_number-length : (input : Bytes) → length (skip_number input) ≤ length input
unfolding skip_number
skip_number-length [] = omega arith
skip_number-length (ch ∷ input) = ground (arith, skip_number-length input)

skip_scalar-Shrinks :
    (n ch : ℕ) (input : Bytes) → length input < n → Shrinks n (skip_scalar ch input)
unfolding skip_scalar
skip_scalar-Shrinks n ch input l =
    ground (arith, skip_number-length input, length-drop 4 (ch ∷ input), length-drop 5 (ch ∷ input))

discard-Shrinks {ℓ} :
    {A : Type ℓ} (n : ℕ) (r : Option (A × Bytes)) → Shrinks n r → Shrinks n (discard r)
unfolding discard
discard-Shrinks n none h = tt
discard-Shrinks n (some (a, rest)) h = h

-- Skipping leaves no more than it was given.
abbrev IsSkipping : (Bytes → Skipped) → Type 0
IsSkipping skip = (n : ℕ) (input : Bytes) → length input ≤ n → Shrinks n (skip input)

module _ (skip : Bytes → Skipped) (skipping : IsSkipping skip) where
  skip_member-Shrinks : IsReading (skip_member skip)
  unfolding skip_member
  skip_member-Shrinks n s input l = elim (Option-cases (parse_key input)) [
    | inl out ↦ rw (skip_member, out) tt
    | inr ((key, rest), found) ↦
        let h = parse_key-Shrinks n input l in
        let shorter : length rest ≤ n = rw found at h in
        rw (skip_member, found) (skipping n rest shorter)
  ]

  skip_array-Shrinks : IsSkipping (skip_array skip)
  unfolding skip_array
  skip_array-Shrinks n input l = elim (Bool-cases (consume 91 input).0) [
    | inl opened ↦
        rw (skip_array, opened)
          (read_first-Shrinks 93 (λ s b. skip b) (λ m s b k. skipping m b k) n tt
            (consume 91 input).1 (omega (arith, consume-length 91 input)))
    | inr out ↦ rw (skip_array, out) tt
  ]

  skip_object-Shrinks : IsSkipping (skip_object skip)
  unfolding skip_object
  skip_object-Shrinks n input l = elim (Bool-cases (consume 123 input).0) [
    | inl opened ↦
        rw (skip_object, opened)
          (read_first-Shrinks 125 (skip_member skip) skip_member-Shrinks n tt (consume 123 input).1
            (omega (arith, consume-length 123 input)))
    | inr out ↦ rw (skip_object, out) tt
  ]

  skip_at-Shrinks : IsSkipping (skip_at skip)
  unfolding skip_at
  skip_at-Shrinks n [] l = tt
  skip_at-Shrinks n (ch ∷ input) l = ground (
    arith,
    discard-Shrinks n (parse_string (ch ∷ input)) (parse_string-Shrinks n (ch ∷ input) l),
    skip_object-Shrinks n (ch ∷ input) l,
    skip_array-Shrinks n (ch ∷ input) l,
    skip_scalar-Shrinks n ch input (omega arith),
  )

pub skip_nested-Shrinks : (fuel : ℕ) → IsSkipping (skip_nested fuel)
unfolding skip_nested
skip_nested-Shrinks zero n input l = tt
skip_nested-Shrinks (suc fuel) n input l =
    skip_at-Shrinks (skip_nested fuel) (skip_nested-Shrinks fuel) n (skip_whitespace input)
      (omega (arith, skip_whitespace-length input))

-- What is skipped depends on how shorter texts are skipped, and on nothing else.
module _ (skip skip' : Bytes → Skipped) (skipping : IsSkipping skip) (n : ℕ)
    (same : (input : Bytes) → length input ≤ n → skip input ≡ skip' input) where
  skip_member_same :
      (s : Unit {0}) (input : Bytes)
      → length input ≤ n
      → skip_member skip s input ≡ skip_member skip' s input
  unfolding skip_member
  skip_member_same s input l = elim (Option-cases (parse_key input)) [
    | inl out ↦ rw (skip_member, out) refl
    | inr ((key, rest), found) ↦
        let h = parse_key-Shrinks n input l in
        let shorter : length rest ≤ n = rw found at h in rw (skip_member, found) (same rest shorter)
  ]

  skip_array_same :
      (input : Bytes) → length input ≤ suc n → skip_array skip input ≡ skip_array skip' input
  unfolding skip_array
  skip_array_same input l = elim (Bool-cases (consume 91 input).0) [
    | inr out ↦ rw (skip_array, out) refl
    | inl opened ↦
        rw (skip_array, opened)
          (read_first_same 93 (λ s b. skip b) (λ s b. skip' b) n (λ m s b k. skipping m b k)
            (λ s b. same b) tt (consume 91 input).1 (omega (arith, consume_taken 91 input opened)))
  ]

  skip_object_same :
      (input : Bytes) → length input ≤ suc n → skip_object skip input ≡ skip_object skip' input
  unfolding skip_object
  skip_object_same input l = elim (Bool-cases (consume 123 input).0) [
    | inr out ↦ rw (skip_object, out) refl
    | inl opened ↦
        rw (skip_object, opened)
          (read_first_same 125 (skip_member skip) (skip_member skip') n
            (skip_member-Shrinks skip skipping) skip_member_same tt (consume 123 input).1
            (omega (arith, consume_taken 123 input opened)))
  ]

  skip_at_same : (input : Bytes) → length input ≤ suc n → skip_at skip input ≡ skip_at skip' input
  unfolding skip_at
  skip_at_same [] l = refl
  skip_at_same (ch ∷ input) l =
      ground (arith, skip_object_same (ch ∷ input) l, skip_array_same (ch ∷ input) l)

-- `SkipValue` does not depend on its fuel, where that is more than the bytes that are left: however deep
-- values are nested, it ends by itself, with a value passed over or a refusal.
pub skip_nested_enough :
    (fuel fuel' : ℕ) (input : Bytes)
    → length input < fuel
    → length input < fuel'
    → skip_nested fuel input ≡ skip_nested fuel' input
unfolding skip_nested
skip_nested_enough zero fuel' input a b = absurd (omega arith)
skip_nested_enough (suc fuel) zero input a b = absurd (omega arith)
skip_nested_enough (suc fuel) (suc fuel') [] a b = refl
skip_nested_enough (suc fuel) (suc fuel') (ch ∷ input) a b =
    skip_at_same (skip_nested fuel) (skip_nested fuel') (skip_nested-Shrinks fuel) (length input)
      (λ rest l. skip_nested_enough fuel fuel' rest (omega arith) (omega arith))
      (skip_whitespace (ch ∷ input)) (skip_whitespace-length (ch ∷ input))
