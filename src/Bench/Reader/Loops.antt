-- ===== src/Bench/Reader/Loops.antt =====
-- The loops of the reader leave no more than they were given, and have enough fuel.
use distributed_cache.Prelude.{
  ℕ, zero, suc, ◌<◌, ◌≤◌, Bytes, ◌≡◌, refl, Option, length, arith, Bool-cases, Option-cases, inl,
  inr,
}
use distributed_cache.Bench.Json.{consume, parse_string}
use distributed_cache.Bench.Json.Fuel.{Shrinks, parse_string-Shrinks, consume-length, consume_taken}
use distributed_cache.Bench.Reader.{read_items, read_first, parse_key}

-- An operation of the reader leaves no more than it was given.
abbrev pub IsReading {ℓ κ} : {A : Type ℓ} {S : Type κ} → (S → Bytes → Option (A × Bytes)) → Type κ
IsReading f = (n : ℕ) (s : _) (input : Bytes) → length input ≤ n → Shrinks n (f s input)

module _ {ℓ} {S : Type ℓ} (close : ℕ) where
  pub read_items-Shrinks :
      (item : S → Bytes → Option (S × Bytes))
      → IsReading item
      → (n fuel : ℕ) (s : S) (input : Bytes) → length input ≤ n
      → Shrinks n (read_items close item fuel s input)
  unfolding read_items
  read_items-Shrinks item reading n zero s input l = tt
  read_items-Shrinks item reading n (suc fuel) s input l = elim (Option-cases (item s input)) [
    | inl out ↦ rw (read_items, out) tt
    | inr ((s', rest), found) ↦
        let h = reading n s input l in
        let shorter : length rest ≤ n = rw found at h in
        let left = (consume close rest).1 in
        rw (read_items, found)
          (elim (Bool-cases (consume close rest).0) [
            | inl closed ↦ rw closed (omega (arith, shorter, consume-length close rest))
            | inr more_items ↦ rw more_items (elim (Bool-cases (consume 44 left).0) [
              | inr out ↦ rw out tt
              | inl more ↦ rw more (
                  read_items-Shrinks item reading n fuel s' (consume 44 left).1
                    (omega (arith, shorter, consume-length close rest, consume-length 44 left)))
            ])
          ])
  ]

  -- Two loops are the same, where their items are, on what is left.
  pub read_items_same :
      (item item' : S → Bytes → Option (S × Bytes)) (n : ℕ)
      → IsReading item
      → ((s : S) (input : Bytes) → length input ≤ n → item s input ≡ item' s input)
      → (fuel fuel' : ℕ) (s : S) (input : Bytes) → length input ≤ n
      → length input < fuel
      → length input < fuel'
      → read_items close item fuel s input ≡ read_items close item' fuel' s input
  unfolding read_items
  read_items_same item item' n reading same zero fuel' s input l a b = absurd (omega arith)
  read_items_same item item' n reading same (suc fuel) zero s input l a b = absurd (omega arith)
  read_items_same item item' n reading same (suc fuel) (suc fuel') s input l a b =
      elim (Option-cases (item s input)) [
        | inl out ↦ rw (read_items, ← same s input l, out) refl
        | inr ((s', rest), found) ↦
            let h = reading (length input) s input (omega arith) in
            let shorter : length rest ≤ length input = rw found at h in
            let left = (consume close rest).1 in
            let lefts = consume-length close rest in
            rw (read_items, ← same s input l, found)
              (elim (Bool-cases (consume close rest).0) [
                | inl closed ↦ rw closed refl
                | inr more_items ↦ rw more_items (elim (Bool-cases (consume 44 left).0) [
                  | inr out ↦ rw out refl
                  | inl more ↦
                      let taken = consume_taken 44 left more in
                      rw more (
                        read_items_same item item' n reading same fuel fuel' s' (consume 44 left).1
                          (omega (arith, shorter, lefts, taken))
                          (omega (arith, shorter, lefts, taken))
                          (omega (arith, shorter, lefts, taken)))
                ])
              ])
      ]

  pub read_first-Shrinks :
      (item : S → Bytes → Option (S × Bytes))
      → IsReading item
      → (n : ℕ) (s : S) (input : Bytes) → length input ≤ n
      → Shrinks n (read_first close item s input)
  unfolding read_first
  read_first-Shrinks item reading n s input l =
      let left = (consume close input).1 in
      let lefts = consume-length close input in
      elim (Bool-cases (consume close input).0) [
        | inl closed ↦ rw (read_first, closed) (omega (arith, lefts))
        | inr more_items ↦
            rw (read_first, more_items)
              (read_items-Shrinks item reading n (suc (length left)) s left (omega (arith, lefts)))
      ]

  pub read_first_same :
      (item item' : S → Bytes → Option (S × Bytes)) (n : ℕ)
      → IsReading item
      → ((s : S) (input : Bytes) → length input ≤ n → item s input ≡ item' s input)
      → (s : S) (input : Bytes) → length input ≤ n
      → read_first close item s input ≡ read_first close item' s input
  unfolding read_first
  read_first_same item item' n reading same s input l =
      let left = (consume close input).1 in
      let fewer : length left ≤ n = omega (arith, consume-length close input) in
      elim (Bool-cases (consume close input).0) [
        | inl closed ↦ rw (read_first, closed) refl
        | inr more_items ↦
            rw (read_first, more_items)
              (read_items_same item item' n reading same (suc (length left)) (suc (length left)) s
                left fewer (omega arith) (omega arith))
      ]

pub parse_key-Shrinks : (n : ℕ) (input : Bytes) → length input ≤ n → Shrinks n (parse_key input)
unfolding parse_key
parse_key-Shrinks n input l = elim (Option-cases (parse_string input)) [
  | inl out ↦ rw (parse_key, out) tt
  | inr ((key, rest), found) ↦
      let h = parse_string-Shrinks n input l in
      let shorter : length rest ≤ n = rw found at h in
      rw (parse_key, found)
        (elim (Bool-cases (consume 58 rest).0) [
          | inl colon ↦ rw colon (omega (arith, shorter, consume-length 58 rest))
          | inr out ↦ rw out tt
        ])
]
