-- ===== src/Core/Capacity/Victims.antt =====
-- What `SelectVictimKey` finds: a key of the store, from the segment that was asked for, unless that
-- segment is empty.
use distributed_cache.Prelude.{
  ℕ, suc, ◌+◌, ◌%◌, ◌<◌, ◌≡◌, refl, Bytes, bytes_key, Bool, true, false, not, none, some, List, [],
  ◌∷◌, arith, length, length-append, get_or, sum_by, All, All-append, All-mono, is_empty→eq,
  is_empty, if◌then◌else◌, inl, inr, Bool-cases, bytes_eqb_iff,
}
use distributed_cache.Prelude.Map.{lookup, lookup-All, IsDistinct, total_by}
use distributed_cache.Core.Eviction.{EvictionCandidate, select_victim}
use distributed_cache.Core.Eviction.Order.{select_victim-All}
use distributed_cache.Core.Entry.{ValueEntry}
use distributed_cache.Core.Store.{
  Stripe, Store, entries, protected_count, stripe_for, stripe_index_for_key, find,
}
use distributed_cache.Core.Store.Counters.{one, is_protected}
use distributed_cache.Core.Store.Placement.{IsPlaced, AllPlaced-get}
use distributed_cache.Core.Capacity.{
  candidate, candidates_in, candidates, select_victim_key, choose_victim,
}

-- The candidate is an entry of the stripe, and of the segment.
abbrev InStripe : Bool → Stripe → EvictionCandidate → Type 0
InStripe segment m c =
    (e : ValueEntry) × (lookup c.key m ≡ some e) × (e.in_protected_segment ≡ segment)

InStripe-cons :
    (segment : Bool) (k : Bytes) (e : ValueEntry) (m : Stripe) (c : EvictionCandidate)
    → lookup k m ≡ none
    → InStripe segment m c
    → InStripe segment ((k, e) ∷ m) c
unfolding lookup
InStripe-cons segment k e m c d (e', found, same) =
    (e', ground (arith, bytes_eqb_iff k c.key), same)

candidates_in-All :
    (segment : Bool) (m : Stripe)
    → IsDistinct m
    → All (InStripe segment m) (candidates_in segment m)
unfolding candidates_in lookup candidate
candidates_in-All segment [] d = tt
candidates_in-All segment ((k, e) ∷ m) d =
    let rest =
      All-mono (InStripe segment m) (InStripe segment ((k, e) ∷ m)) (candidates_in segment m)
        (λ c. InStripe-cons segment k e m c d.0) (candidates_in-All segment m d.1) in
    elim (Bool-cases (if e.in_protected_segment then segment else not segment)) [
      | inl mine ↦ rw mine ((e, ground (arith, bytes_eqb_iff k k), ground arith), rest)
      | inr other ↦ rw other rest
    ]

-- Both segments together are all entries.
length-candidates_in :
    (m : Stripe)
    → (length (candidates_in true m) ≡ total_by is_protected m)
      × (length (candidates_in true m) + length (candidates_in false m) ≡ total_by one m)
unfolding candidates_in
length-candidates_in [] = (refl, omega arith)
length-candidates_in ((k, e) ∷ m) = ground (arith, length-candidates_in m)

length-candidates :
    (ms : List Stripe)
    → (length (candidates true ms) ≡ sum_by (total_by is_protected) ms)
      × (length (candidates true ms) + length (candidates false ms) ≡ sum_by (total_by one) ms)
unfolding candidates
length-candidates [] = (refl, omega arith)
length-candidates (m ∷ ms) = omega (
  arith,
  length-append (candidates_in true m) (candidates true ms),
  length-append (candidates_in false m) (candidates false ms),
  length-candidates_in m,
  length-candidates ms,
)

candidates-All :
    (P : EvictionCandidate → Type 0) (segment : Bool) (ms : List Stripe)
    → ((k : ℕ) → k < length ms → All P (candidates_in segment (get_or ms k [])))
    → All P (candidates segment ms)
unfolding candidates
candidates-All P segment [] h = tt
candidates-All P segment (m ∷ ms) h =
    All-append P (candidates_in segment m) (candidates segment ms) (h 0 (omega arith))
      (candidates-All P segment ms (λ k lt. h (suc k) (omega arith)))

-- The key is found in the store, in the segment.
abbrev pub Found : (Bytes → ℕ) → Bool → Store → Bytes → Type 0
Found hash segment s key =
    (e : ValueEntry) × (find hash s key ≡ some e) × (e.in_protected_segment ≡ segment)

module _ (hash : Bytes → ℕ) (s : Store) (p : IsPlaced hash s) where
  Found-of_InStripe :
      (segment : Bool) (k : ℕ) (c : EvictionCandidate)
      → k < length s.stripes
      → InStripe segment (get_or s.stripes k []) c
      → Found hash segment s c.key
  unfolding find stripe_for stripe_index_for_key
  Found-of_InStripe segment k c lt (e, found, same) =
      let k' =
        lookup-All (λ q. hash q.0 % length s.stripes ≡ k) c.key e _
          (AllPlaced-get hash k s.stripes lt p).1 found in
      (e, rw k' found, same)

  Found-All :
      (segment : Bool) → All (λ c. Found hash segment s c.key) (candidates segment s.stripes)
  Found-All segment =
      candidates-All (λ c. Found hash segment s c.key) segment s.stripes
        λ k lt.
          All-mono (InStripe segment (get_or s.stripes k [])) (λ c. Found hash segment s c.key) _
            (λ c. Found-of_InStripe segment k c lt)
            (candidates_in-All segment _ (AllPlaced-get hash k s.stripes lt p).0)

  select_victim-Found :
      (segment : Bool) (cs : List EvictionCandidate)
      → All (λ c. Found hash segment s c.key) cs
      → is_empty (select_victim cs) ≡ false
      → Found hash segment s (select_victim cs)
  unfolding select_victim
  select_victim-Found segment [] h e = cc
  select_victim-Found segment (c ∷ cs) h e =
      let (v, is_key, found) = select_victim-All (λ c. Found hash segment s c.key) c cs h in
      rw is_key found

  select_victim-empty :
      (segment : Bool) (cs : List EvictionCandidate)
      → find hash s [] ≡ none
      → All (λ c. Found hash segment s c.key) cs
      → is_empty (select_victim cs) ≡ true
      → length cs ≡ 0
  select_victim-empty segment [] missing h e = refl
  select_victim-empty segment (c ∷ cs) missing h e =
      let (v, is_key, (entry, found, _)) =
        select_victim-All (λ c. Found hash segment s c.key) c cs h in
      cc (is_empty→eq _ e)

  -- What `SelectVictimKey` returns, if not empty, is a key of the store, in the segment.
  pub select_victim_key-Found :
      (segment : Bool)
      → is_empty (select_victim_key segment s) ≡ false
      → Found hash segment s (select_victim_key segment s)
  unfolding select_victim_key
  select_victim_key-Found segment h = select_victim-Found segment _ (Found-All segment) h

  -- With no entry under the empty key, the empty key is returned of an empty segment alone.
  pub select_victim_key-empty :
      (segment : Bool)
      → find hash s [] ≡ none
      → is_empty (select_victim_key segment s) ≡ true
      → length (candidates segment s.stripes) ≡ 0
  unfolding select_victim_key
  select_victim_key-empty segment missing h =
      select_victim-empty segment _ missing (Found-All segment) h

  -- A victim for the first loop is found as long as there is a protected entry.
  pub protected_victim-Found :
      find hash s [] ≡ none
      → 0 < protected_count s
      → Found hash true s (select_victim_key true s) × (is_empty (select_victim_key true s) ≡ false)
  unfolding protected_count
  protected_victim-Found missing some_entry =
      elim (Bool-cases (is_empty (select_victim_key true s))) [
        | inl none_left ↦ absurd (
            omega
              (arith, select_victim_key-empty true missing none_left, length-candidates s.stripes))
        | inr f ↦ (select_victim_key-Found true f, f)
      ]

  -- A victim for the second loop is found as long as there is an entry.
  pub choose_victim-Found :
      find hash s [] ≡ none
      → 0 < entries s
      → (e : ValueEntry) × (find hash s (choose_victim s) ≡ some e)
        × (is_empty (choose_victim s) ≡ false)
  unfolding choose_victim entries protected_count
  choose_victim-Found missing some_entry =
      elim (Bool-cases (is_empty (select_victim_key false s))) [
        | inl none_left ↦
            let ((e, found, _), named) = protected_victim-Found missing (
              omega (
                arith,
                select_victim_key-empty false missing none_left,
                length-candidates s.stripes,
              )) in
            rw none_left (e, found, named)
        | inr f ↦ rw f (let (e, found, _) = select_victim_key-Found false f in (e, found, f))
      ]
