-- ===== src/Core/Store/Within.antt =====
-- A store within another: it holds no key that the other lacks, and no other value or expiry. This is
-- what the blocks of `EnforceCapacity` may do to a store.
use distributed_cache.Prelude.{
  ℕ, ◌%◌, ◌<◌, ◌≡◌, refl, Bytes, bytes_key, bytes_eqb, bytes_eqb_iff, Option, none, some, [], ◌∷◌,
  arith, length, length-set, get_or, get_or-set, nat_eqb_iff, if◌then◌else◌, inl, inr, Bool-cases,
  Option-cases,
}
use distributed_cache.Prelude.Map.{lookup, insert, IsDistinct}
use distributed_cache.Core.Entry.{ValueEntry, fetch_sub}
use distributed_cache.Core.Store.{
  Stripe, Store, stripe_for, stripe_index_for_key, find, drop_entry, demote_section, evict_section,
  sweep_section,
}
use distributed_cache.Core.Store.Reads.{written, find-insert, find-erase}
use distributed_cache.Core.Store.Placement.{
  live, lookup-live-none, sweep_entries-live, IsPlaced, stripe_for-Fits, AllPlaced-get,
}

-- The same value with the same expiry.
abbrev pub Matches : ValueEntry → Option ValueEntry → Type 0
Matches e o =
    (e' : ValueEntry) × (o ≡ some e') × (e'.value ≡ e.value) × (e'.expires_at ≡ e.expires_at)

pub record IsWithin (hash : Bytes → ℕ) (t s : Store) : Type 0 where
  pub at : (j : Bytes) (e : ValueEntry) → find hash t j ≡ some e → Matches e (find hash s j)

module _ {hash : Bytes → ℕ} where
  pub IsWithin-refl : (s : Store) → IsWithin hash s s
  IsWithin-refl s = record { at = λ j e h. (e, h, refl, refl) }

  pub IsWithin-trans : {s t u : Store} → IsWithin hash u t → IsWithin hash t s → IsWithin hash u s
  IsWithin-trans v w = record {
    at = λ j e h.
        let (e', h', value, expiry) = v.at j e h in
        let (e'', h'', value', expiry') = w.at j e' h' in (e'', h'', cc, cc);
  }

  -- What is missing stays missing.
  pub IsWithin-none :
      {s t : Store} (j : Bytes) → IsWithin hash t s → find hash s j ≡ none → find hash t j ≡ none
  IsWithin-none {t} j w h = elim (Option-cases (find hash t j)) [
    | inl n ↦ n
    | inr (e, found) ↦ let (e', h', _, _) = w.at j e found in cc
  ]

module _ (hash : Bytes → ℕ) (s : Store) (key : Bytes) (some_stripe : 0 < length s.stripes) where
  replace-IsWithin :
      (old e : ValueEntry) (a b : ℕ)
      → find hash s key ≡ some old
      → old.value ≡ e.value
      → old.expires_at ≡ e.expires_at
      → IsWithin hash (written hash s key some_stripe (insert key e (stripe_for hash s key)) a b) s
  replace-IsWithin old e a b found value expiry = record {
    at = λ j d h.
        let write = find-insert hash s key some_stripe e a b j in
        elim (Bool-cases (bytes_eqb key j)) [
          | inl same ↦
              let here = (bytes_eqb_iff key j).0 same in
              (old, rw (← here) found, ground (arith, write), ground (arith, write))
          | inr other ↦ (d, ground (arith, write), refl, refl)
        ];
  }

  pub demote_section-IsWithin : IsWithin hash (demote_section hash key s) s
  unfolding demote_section
  demote_section-IsWithin = elim (Option-cases (find hash s key)) [
    | inl miss ↦ rw (miss, demote_section) (IsWithin-refl s)
    | inr (e, found) ↦
        rw (found, demote_section)
          (elim (Bool-cases e.in_protected_segment) [
            | inl t ↦ rw t (replace-IsWithin e _ _ _ found refl refl)
            | inr f ↦ rw f (IsWithin-refl s)
          ])
  ]

  pub evict_section-IsWithin : IsPlaced hash s → IsWithin hash (evict_section hash key s) s
  unfolding evict_section drop_entry
  evict_section-IsWithin p = elim (Option-cases (find hash s key)) [
    | inl miss ↦ rw (miss, evict_section) (IsWithin-refl s)
    | inr (e, found) ↦
        rw (found, evict_section)
          (record {
            at = λ j d h. (
              d,
              ground (
                arith,
                find-erase hash s key some_stripe (fetch_sub s.total_entries)
                    (if e.in_protected_segment
                      then fetch_sub s.protected_entries
                      else s.protected_entries)
                    j (stripe_for-Fits hash s key some_stripe p).0,
              ),
              refl,
              refl,
            );
          })
  ]

lookup-live :
    (now : ℕ) (j : Bytes) (e : ValueEntry) (m : Stripe)
    → IsDistinct m
    → lookup j (live now m) ≡ some e
    → lookup j m ≡ some e
unfolding lookup
lookup-live now j e [] d h = h
lookup-live now j e ((k, e') ∷ m) d h =
    ground (arith, lookup-live now j e m d.1, lookup-live-none now k m d.0, bytes_eqb_iff k j)

pub sweep_section-IsWithin :
    (hash : Bytes → ℕ) (i now : ℕ) (s : Store)
    → i < length s.stripes
    → IsPlaced hash s
    → IsWithin hash (sweep_section i now s) s
unfolding sweep_section find stripe_for stripe_index_for_key
sweep_section-IsWithin hash i now s h p = record {
  at = λ j e found.
      let m = get_or s.stripes i [] in
      let k = hash j % length s.stripes in
      let found' =
        rw (length-set, sweep_entries-live, get_or-set s.stripes i k (live now m) [] h) at found in
      let kept = lookup-live now j e m (AllPlaced-get hash i s.stripes h p).0 in
      (e, ground (arith, found', kept, nat_eqb_iff i k), refl, refl);
}
