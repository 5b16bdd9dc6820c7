-- ===== src/Metrics/Order.antt =====
-- On the order of the names, and maps that are known by what is found in them.
use distributed_cache.Prelude.{
  Bytes, bytes_key, bytes_eqb, bytes_eqb_iff, bytes_ltb, bytes_ltb_irrefl, bytes_ltb_asymm,
  bytes_ltb_trans, bytes_ltb_total, ◌≡◌, ◌≢◌, refl, sym, ap, ◌∙◌, true, false, Option, none, some,
  [], ◌∷◌, arith, All, All-mono, Bool-cases, inl, inr, if◌then◌else◌,
}
use distributed_cache.Prelude.Map.{Map, lookup, lookup-All}
use distributed_cache.Metrics.{Double, Metric, fresh_metric, with_metric}

-- Being smaller is transitive.
bytes_ltb_lt_trans :
    (a b c : Bytes) → bytes_ltb a b ≡ true → bytes_ltb b c ≡ true → bytes_ltb a c ≡ true
bytes_ltb_lt_trans a b c h k = elim (Bool-cases (bytes_ltb a c)) [
  | inl t ↦ t
  | inr f ↦ absurd (
      ground (
        arith,
        h,
        bytes_ltb_trans c a b f (bytes_ltb_asymm a b h),
        k,
        f,
        bytes_ltb_asymm b c k,
        bytes_ltb_trans a b c (bytes_ltb_asymm a b h),
      ))
]

module _ {ℓ} {V : Type ℓ} where
  abbrev pub IsAfter : Bytes → Bytes × V → Type 0
  IsAfter k p = bytes_ltb k p.0 ≡ true

  abbrev pub IsSorted : Map Bytes V → Type 0
  IsSorted [] = Unit
  IsSorted (p ∷ m) = All (IsAfter p.0) m × IsSorted m

  lookup_after : (k : Bytes) (m : Map Bytes V) → All (IsAfter k) m → lookup k m ≡ none
  unfolding lookup
  lookup_after k [] a = refl
  lookup_after k (p ∷ m) a =
      ground (arith, a, lookup_after k m a.1, bytes_eqb_iff p.0 k, bytes_ltb_irrefl k)

  IsAfter-trans :
      (k : Bytes) (p : Bytes × V) (m : Map Bytes V)
      → bytes_ltb k p.0 ≡ true
      → All (IsAfter p.0) m
      → All (IsAfter k) (p ∷ m)
  IsAfter-trans k p m h a =
      (h, All-mono (IsAfter p.0) (IsAfter k) m (λ q g. bytes_ltb_lt_trans k p.0 q.0 h g) a)

  head_found : (p : Bytes × V) (m : Map Bytes V) → lookup p.0 (p ∷ m) ≡ some p.1
  unfolding lookup
  head_found p m = ground (arith, bytes_eqb_iff p.0 p.0)

  -- What is found behind the head stands after it.
  tail_found :
      (p : Bytes × V) (m : Map Bytes V) (k : Bytes) (v : V)
      → IsSorted (p ∷ m)
      → bytes_eqb p.0 k ≡ false
      → lookup k (p ∷ m) ≡ some v
      → bytes_ltb p.0 k ≡ true
  unfolding lookup
  tail_found p m k v s ne e = lookup-All (IsAfter p.0) k v m s.0 (ground (arith, ne, e))

  heads_agree :
      (p q : Bytes × V) (m n : Map Bytes V)
      → IsSorted (p ∷ m)
      → IsSorted (q ∷ n)
      → ((k : Bytes) → lookup k (p ∷ m) ≡ lookup k (q ∷ n))
      → bytes_eqb p.0 q.0 ≡ true
  heads_agree p q m n s t same = elim (Bool-cases (bytes_eqb p.0 q.0)) [
    | inl e ↦ e
    | inr ne ↦
        let below = tail_found p m q.0 q.1 s ne (same q.0 ∙ head_found q n) in
        let above =
          tail_found q n p.0 p.1 t
            (ground (arith, ne, bytes_eqb_iff p.0 q.0, bytes_eqb_iff q.0 p.0))
            (sym (same p.0) ∙ head_found p m) in
        absurd (ground (arith, below, above, bytes_ltb_asymm p.0 q.0 below))
  ]

  tails_agree :
      (p q : Bytes × V) (m n : Map Bytes V)
      → IsSorted (p ∷ m)
      → IsSorted (q ∷ n)
      → p.0 ≡ q.0
      → ((k : Bytes) → lookup k (p ∷ m) ≡ lookup k (q ∷ n))
      → (k : Bytes) → lookup k m ≡ lookup k n
  unfolding lookup
  tails_agree p q m n s t e same k = elim (Bool-cases (bytes_eqb p.0 k)) [
    | inl here ↦
        let at : p.0 ≡ k = (bytes_eqb_iff p.0 k).0 here in
        rw (← at) (lookup_after p.0 m s.0 ∙ sym (rw e (lookup_after q.0 n t.0)))
    | inr other ↦ ground (arith, other, e, same k)
  ]

  lookup_empty : (k : Bytes) → lookup {V = V} k [] ≡ none
  unfolding lookup
  lookup_empty k = refl

  nothing_found : (p : Bytes × V) (m : Map Bytes V) → lookup p.0 (p ∷ m) ≢ none
  nothing_found p m e = absurd (ground (arith, e, head_found p m))

  -- Maps in order that give the same answers are the same.
  pub lookup_ext :
      (m n : Map Bytes V)
      → IsSorted m
      → IsSorted n
      → ((k : Bytes) → lookup k m ≡ lookup k n)
      → m ≡ n
  lookup_ext [] [] s t same = refl
  lookup_ext [] (q ∷ n) s t same = absurd (nothing_found q n (sym (same q.0) ∙ lookup_empty q.0))
  lookup_ext (p ∷ m) [] s t same = absurd (nothing_found p m (same p.0 ∙ lookup_empty p.0))
  lookup_ext (p ∷ m) (q ∷ n) s t same =
      let keys : p.0 ≡ q.0 = (bytes_eqb_iff p.0 q.0).0 (heads_agree p q m n s t same) in
      let values : some p.1 ≡ some q.1 =
        sym (head_found p m) ∙ same p.0 ∙ (ap (λ k. lookup k (q ∷ n)) keys ∙ head_found q n) in
      let rest = lookup_ext m n s.1 t.1 (tails_agree p q m n s t keys same) in
      cc (keys, values, rest)

module _ {ℓ} {W : Type ℓ} ⦃d : Double W⦄ where
  -- The reference of a name: what is there, or a fresh metric.
  abbrev pub current : Option (Metric W) → Metric W
  current none = fresh_metric
  current (some m) = m

  with_metric-All :
      (b k : Bytes) (write : Metric W → Metric W) (m : Map Bytes (Metric W))
      → bytes_ltb b k ≡ true
      → All (IsAfter b) m
      → All (IsAfter b) (with_metric k write m)
  unfolding with_metric
  with_metric-All b k write [] h a = (h, tt)
  with_metric-All b k write (p ∷ m) h a = ground (arith, a, with_metric-All b k write m h a.1)

  pub with_metric-IsSorted :
      (k : Bytes) (write : Metric W → Metric W) (m : Map Bytes (Metric W))
      → IsSorted m
      → IsSorted (with_metric k write m)
  unfolding with_metric
  with_metric-IsSorted k write [] s = (tt, tt)
  with_metric-IsSorted k write (p ∷ m) s = elim (Bool-cases (bytes_ltb k p.0)) [
    | inl below ↦ rw below (IsAfter-trans k p m below s.0, s)
    | inr other ↦ rw other (elim (Bool-cases (bytes_ltb p.0 k)) [
      | inl above ↦
          rw above (with_metric-All p.0 k write m above s.0, with_metric-IsSorted k write m s.1)
      | inr same ↦ rw same s
    ])
  ]

  pub lookup-with_metric :
      (k j : Bytes) (write : Metric W → Metric W) (m : Map Bytes (Metric W))
      → IsSorted m
      → lookup j (with_metric k write m)
        ≡ (if bytes_eqb k j then some (write (current (lookup k m))) else lookup j m)
  unfolding with_metric lookup
  lookup-with_metric k j write [] s = refl
  lookup-with_metric k j write (p ∷ m) s = elim (Bool-cases (bytes_ltb k p.0)) [
    | inl below ↦
        let missing = lookup_after k (p ∷ m) (IsAfter-trans k p m below s.0) in
        ground (arith, below, missing)
    | inr other ↦ elim (Bool-cases (bytes_ltb p.0 k)) [
      | inl above ↦ ground (
        arith,
        other,
        above,
        lookup-with_metric k j write m s.1,
        bytes_eqb_iff p.0 k,
        bytes_eqb_iff p.0 j,
        bytes_eqb_iff k j,
        bytes_ltb_irrefl k,
      )
      | inr same ↦
          let e = bytes_ltb_total k p.0 other same in
          ground
            (arith, other, same, e, bytes_eqb_iff p.0 k, bytes_eqb_iff p.0 j, bytes_eqb_iff k j)
    ]
  ]
