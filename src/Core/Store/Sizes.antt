-- ===== src/Core/Store/Sizes.antt =====
-- How many entries, and how many protected ones, each locked block leaves.
use distributed_cache.Prelude.{
  ℕ, ◌+◌, ◌≤◌, ◌<◌, ◌≡◌, ap, Bytes, bytes_key, ℤ, Option, some, [], ◌∷◌, arith, true, false, length,
  get_or, sum_by-set, sum_by_mono, inl, inr, Option-cases, Bool-cases,
}
use distributed_cache.Prelude.Map.{total_by, weight}
use distributed_cache.Core.Entry.{ValueEntry, is_expired}
use distributed_cache.Core.Store.Reads.{get-get_section}
use distributed_cache.Core.Store.{
  Stripe, Store, entries, protected_count, find, drop_entry, set_section, get_section, get,
  demote_section, evict_section, sweep_section,
}
use distributed_cache.Core.Store.Counters.{one, is_protected, weigh-insert, weigh-erase}
use distributed_cache.Core.Store.Placement.{live, sweep_entries-live}

protected_one : (e : ValueEntry) → is_protected e ≤ 1
protected_one e = ground arith

pub protected_count-le-entries : (s : Store) → protected_count s ≤ entries s
unfolding protected_count entries
protected_count-le-entries s =
    sum_by_mono (total_by is_protected) (total_by one) s.stripes
      λ m. sum_by_mono (λ p. is_protected p.1) (λ p. one p.1) m (λ p. protected_one p.1)

module _ (hash : Bytes → ℕ) (s : Store) (key : Bytes) (some_stripe : 0 < length s.stripes) where
  pub entries-set_section :
      (value : Bytes) (expires_at : Option ℤ) (now : ℕ)
      → entries (set_section hash key value expires_at now s) ≤ entries s + 1
  unfolding set_section entries
  entries-set_section value expires_at now = elim (Option-cases (find hash s key)) [
    | inl new ↦ rw (new, set_section) (omega (arith, weigh-insert hash s key some_stripe one _))
    | inr (old, found) ↦
        rw (found, set_section) (omega (arith, weigh-insert hash s key some_stripe one _))
  ]

  -- A demotion keeps the number of entries, and takes one protected entry away.
  pub entries-demote_section :
      (e : ValueEntry)
      → find hash s key ≡ some e
      → e.in_protected_segment ≡ true
      → (entries (demote_section hash key s) ≡ entries s)
        × (protected_count (demote_section hash key s) + 1 ≡ protected_count s)
  unfolding demote_section entries protected_count
  entries-demote_section e found p =
      let e' = record e { in_protected_segment = false; lfu_count = 1 } in
      let u = ap (weight one) found in
      let w = ap (weight is_protected) found in
      rw (found, demote_section)
        (rw p (
          omega (arith, u, weigh-insert hash s key some_stripe one e'),
          ground (arith, p, w, weigh-insert hash s key some_stripe is_protected e'),
        ))

  -- `Get` drops an expired entry, and adds none.
  pub entries-get : (now : ℕ) → entries (get hash key now s).0 ≤ entries s
  unfolding get_section drop_entry entries
  entries-get now =
      rw (get-get_section hash s key some_stripe now) (elim (Option-cases (find hash s key)) [
        | inl miss ↦ rw (miss, get_section) (omega arith)
        | inr (e, found) ↦
            let u = ap (weight one) found in
            rw (found, get_section)
              (elim (Bool-cases (is_expired e now)) [
                | inl gone ↦ rw gone (omega (arith, u, weigh-erase hash s key some_stripe one))
                | inr kept ↦ rw kept (omega (arith, u, weigh-insert hash s key some_stripe one _))
              ])
      ])

  -- An eviction takes one entry away.
  pub entries-evict_section :
      (e : ValueEntry)
      → find hash s key ≡ some e
      → entries (evict_section hash key s) + 1 ≡ entries s
  unfolding evict_section drop_entry entries
  entries-evict_section e found =
      let u = ap (weight one) found in
      rw (found, evict_section) (omega (arith, u, weigh-erase hash s key some_stripe one))

size-live : (now : ℕ) (m : Stripe) → total_by one (live now m) ≤ total_by one m
size-live now [] = omega arith
size-live now ((k, e) ∷ m) = ground (arith, size-live now m)

pub entries-sweep_section :
    (i now : ℕ) (s : Store) → i < length s.stripes → entries (sweep_section i now s) ≤ entries s
unfolding sweep_section entries
entries-sweep_section i now s h =
    let m = get_or s.stripes i [] in
    rw sweep_entries-live
      (omega (arith, size-live now m, sum_by-set (total_by one) s.stripes i (live now m) [] h))
