-- ===== src/Core/Store/Placement.antt =====
-- Every entry lies in the stripe that its key hashes to, once.
use distributed_cache.Prelude.{
  ℕ, zero, suc, ◌+◌, ◌%◌, ◌<◌, ◌≡◌, refl, ℤ, Bytes, bytes_key, Option, none, List, [], ◌∷◌, arith,
  inl, inr, length, length-set, get_or, set, replicate, ◌&&◌, All, if◌then◌else◌, Bool-cases,
  Option-cases,
}
use distributed_cache.Prelude.Map.{
  lookup, insert, erase, IsDistinct, insert-IsDistinct, erase-IsDistinct, insert-All, erase-All,
}
use distributed_cache.Core.Entry.{ValueEntry, is_expired, fetch_sub}
use distributed_cache.Core.Store.{
  Stripe, Store, new_store, sweep_entries, sweep_section, stripe_index_for_key, stripe_for,
  with_stripe, find, set_section, drop_entry, get_section, demote_section, evict_section,
}

-- The entries of a stripe that have not expired.
abbrev pub live : ℕ → Stripe → Stripe
live now [] = []
live now ((k, e) ∷ m) = let rest = live now m in if is_expired e now then rest else (k, e) ∷ rest

-- The sweep keeps these.
pub sweep_entries-live : (now t q : ℕ) (m : Stripe) → (sweep_entries now m t q).0 ≡ live now m
unfolding sweep_entries
sweep_entries-live now t q [] = refl
sweep_entries-live now t q ((k, e) ∷ m) = rw (
    sweep_entries-live now (if is_expired e now then fetch_sub t else t)
      (if is_expired e now && e.in_protected_segment then fetch_sub q else q) m)

pub lookup-live-none :
    (now : ℕ) (j : Bytes) (m : Stripe) → lookup j m ≡ none → lookup j (live now m) ≡ none
unfolding lookup
lookup-live-none now j [] h = h
lookup-live-none now j ((k, e) ∷ m) h = ground (arith, lookup-live-none now j m)

module _ (hash : Bytes → ℕ) where
  -- The keys of a stripe are distinct and hash to its index, of `n` stripes.
  abbrev pub Fits : ℕ → ℕ → Stripe → Type 0
  Fits n i m = IsDistinct m × All (λ p. hash p.0 % n ≡ i) m

  -- So it is for all stripes from index `i` on.
  abbrev pub Placed : ℕ → ℕ → List Stripe → Type 0
  Placed n i [] = Unit {0}
  Placed n i (m ∷ ms) = Fits n i m × Placed n (suc i) ms

  abbrev pub AllPlaced : List Stripe → Type 0
  AllPlaced ms = Placed (length ms) 0 ms

  abbrev pub IsPlaced : Store → Type 0
  IsPlaced s = AllPlaced s.stripes

  Fits-cast : (n i j : ℕ) (m : Stripe) → i ≡ j → Fits n i m → Fits n j m
  Fits-cast n i j m e f = rw e at f

  Placed-set :
      (n i k : ℕ) (ms : List Stripe) (m : Stripe)
      → Fits n (i + k) m
      → Placed n i ms
      → Placed n i (set ms k m)
  Placed-set n i k [] m f p = tt
  Placed-set n i zero (m' ∷ ms) m f p = (Fits-cast n (i + zero) i m (omega arith) f, p.1)
  Placed-set n i (suc k) (m' ∷ ms) m f p =
      (p.0, Placed-set n (suc i) k ms m (Fits-cast n (i + suc k) (suc i + k) m (omega arith) f) p.1)

  pub Placed-get :
      (n i k : ℕ) (ms : List Stripe)
      → k < length ms
      → Placed n i ms
      → Fits n (i + k) (get_or ms k [])
  Placed-get n i k [] h p = elim h [ ]
  Placed-get n i zero (m ∷ ms) h p = Fits-cast n i (i + zero) m (omega arith) p.0
  Placed-get n i (suc k) (m ∷ ms) h p =
      Fits-cast n (suc i + k) (i + suc k) (get_or ms k []) (omega arith)
        (Placed-get n (suc i) k ms (omega arith) p.1)

  AllPlaced-set :
      (k : ℕ) (ms : List Stripe) (m : Stripe)
      → Fits (length ms) k m
      → AllPlaced ms
      → AllPlaced (set ms k m)
  AllPlaced-set k ms m f p =
      rw length-set
        (Placed-set (length ms) 0 k ms m (Fits-cast (length ms) k (0 + k) m (omega arith) f) p)

  pub AllPlaced-get :
      (k : ℕ) (ms : List Stripe)
      → k < length ms
      → AllPlaced ms
      → Fits (length ms) k (get_or ms k [])
  AllPlaced-get k ms h p =
      Fits-cast (length ms) (0 + k) k (get_or ms k []) (omega arith)
        (Placed-get (length ms) 0 k ms h p)

  Placed-replicate : (n i k : ℕ) → Placed n i (replicate k [])
  Placed-replicate n i zero = tt
  Placed-replicate n i (suc k) = ((tt, tt), Placed-replicate n (suc i) k)

  pub new_store-IsPlaced : (stripes max_entries : ℕ) → IsPlaced (new_store stripes max_entries)
  unfolding new_store
  new_store-IsPlaced stripes max_entries = Placed-replicate _ 0 _

  live-Fits : (n i now : ℕ) (m : Stripe) → Fits n i m → Fits n i (live now m)
  live-Fits n i now [] h = h
  live-Fits n i now ((k, e) ∷ m) h = elim (Bool-cases (is_expired e now)) [
    | inl gone ↦ rw gone (live-Fits n i now m (h.0.1, h.1.1))
    | inr kept ↦
        let rest = live-Fits n i now m (h.0.1, h.1.1) in
        rw kept ((lookup-live-none now k m h.0.0, rest.0), (h.1.0, rest.1))
  ]

module _ (hash : Bytes → ℕ) (s : Store) (key : Bytes) (some_stripe : 0 < length s.stripes) where
  pub stripe_for-Fits :
      IsPlaced hash s
      → Fits hash (length s.stripes) (hash key % length s.stripes) (stripe_for hash s key)
  unfolding stripe_for stripe_index_for_key
  stripe_for-Fits p = AllPlaced-get hash (hash key % length s.stripes) s.stripes (omega arith) p

  -- An entry of the key is written, or removed.
  insert-AllPlaced :
      (e : ValueEntry)
      → IsPlaced hash s
      → AllPlaced hash (with_stripe hash s key (insert key e (stripe_for hash s key)))
  unfolding with_stripe stripe_index_for_key
  insert-AllPlaced e p =
      let f = stripe_for-Fits p in
      AllPlaced-set hash _ _ _ (insert-IsDistinct key e _ f.0, insert-All _ key e _ refl f.1) p

  erase-AllPlaced :
      IsPlaced hash s → AllPlaced hash (with_stripe hash s key (erase key (stripe_for hash s key)))
  unfolding with_stripe stripe_index_for_key
  erase-AllPlaced p =
      let f = stripe_for-Fits p in
      AllPlaced-set hash _ _ _ (erase-IsDistinct key _ f.0, erase-All _ key _ f.1) p

  drop_entry-IsPlaced : (e : ValueEntry) → IsPlaced hash s → IsPlaced hash (drop_entry hash key e s)
  unfolding drop_entry
  drop_entry-IsPlaced e p = erase-AllPlaced p

  pub set_section-IsPlaced :
      (value : Bytes) (expires_at : Option ℤ) (now : ℕ)
      → IsPlaced hash s
      → IsPlaced hash (set_section hash key value expires_at now s)
  unfolding set_section
  set_section-IsPlaced value expires_at now p = elim (Option-cases (find hash s key)) [
    | inl new ↦ rw (new, set_section) (insert-AllPlaced _ p)
    | inr (old, found) ↦ rw (found, set_section) (insert-AllPlaced _ p)
  ]

  pub get_section-IsPlaced :
      (now : ℕ) → IsPlaced hash s → IsPlaced hash (get_section hash key now s).0
  unfolding get_section
  get_section-IsPlaced now p = elim (Option-cases (find hash s key)) [
    | inl miss ↦ rw (miss, get_section) p
    | inr (e, found) ↦
        rw (found, get_section)
          (elim (Bool-cases (is_expired e now)) [
            | inl gone ↦ rw gone (drop_entry-IsPlaced e p)
            | inr kept ↦ rw kept (insert-AllPlaced _ p)
          ])
  ]

  pub demote_section-IsPlaced : IsPlaced hash s → IsPlaced hash (demote_section hash key s)
  unfolding demote_section
  demote_section-IsPlaced p = elim (Option-cases (find hash s key)) [
    | inl miss ↦ rw (miss, demote_section) p
    | inr (e, found) ↦
        rw (found, demote_section)
          (elim (Bool-cases e.in_protected_segment) [
            | inl t ↦ rw t (insert-AllPlaced _ p)
            | inr f ↦ rw f p
          ])
  ]

  pub evict_section-IsPlaced : IsPlaced hash s → IsPlaced hash (evict_section hash key s)
  unfolding evict_section
  evict_section-IsPlaced p = elim (Option-cases (find hash s key)) [
    | inl miss ↦ rw (miss, evict_section) p
    | inr (e, found) ↦ rw (found, evict_section) (drop_entry-IsPlaced e p)
  ]

pub sweep_section-IsPlaced :
    (hash : Bytes → ℕ) (i now : ℕ) (s : Store)
    → i < length s.stripes
    → IsPlaced hash s
    → IsPlaced hash (sweep_section i now s)
unfolding sweep_section
sweep_section-IsPlaced hash i now s h p =
    let m = get_or s.stripes i [] in
    rw sweep_entries-live (
      AllPlaced-set hash i s.stripes (live now m)
        (live-Fits hash (length s.stripes) i now m (AllPlaced-get hash i s.stripes h p)) p)
