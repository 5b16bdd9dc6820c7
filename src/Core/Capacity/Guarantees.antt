-- ===== src/Core/Capacity/Guarantees.antt =====
-- What `Set` promises, evictions included, and what `Get` then returns.
use distributed_cache.Prelude.{
  ℕ, ◌+◌, ◌^◌, ◌<◌, ◌≤◌, ◌≡◌, ◌≢◌, ◌∙◌, ℤ, Bytes, Option, none, some, [], arith, length, inl, inr,
  Bool-cases, nat_eqb, leb,
}
use distributed_cache.Core.Entry.{add_ms}
use distributed_cache.Core.Store.{Store, entries, set_section, get}
use distributed_cache.Core.Store.Placement.{stripe_for-Fits}
use distributed_cache.Core.Store.Sizes.{
  protected_count-le-entries, entries-get, entries-set_section,
}
use distributed_cache.Core.Store.Threads.{IsValid, Block-IsValid, getting, setting}
use distributed_cache.Core.Store.Reads.{find-set_section_ne, get-get_section, find-get_ne}
use distributed_cache.Core.Capacity.{sweep_from, evict_until_fits, enforce_capacity, set_entry}
use distributed_cache.Core.Capacity.Loops.{
  IsReady, IsTrimmed, IsTrimmed-refl, IsTrimmed-trans, total_exact, sweep_from-IsTrimmed,
  demote_loop-IsTrimmed, evict_loop-IsTrimmed,
}

-- The expiry that `Set` stores.
abbrev pub expiry : Option ℤ → ℕ → Option ℤ
expiry none now = none
expiry (some ms) now = some (add_ms now ms)

module _ (hash : Bytes → ℕ) where
  evict_until_fits-IsTrimmed :
      (fuel : ℕ) (s : Store)
      → IsReady hash s
      → entries s < fuel
      → (t : Store) × (evict_until_fits hash fuel s ≡ some t)
        × IsTrimmed hash t s
        × (entries t ≤ t.max_entries)
  unfolding evict_until_fits
  evict_until_fits-IsTrimmed fuel s r h =
      let (t, ends, trimmed, _) =
        demote_loop-IsTrimmed fuel s r (omega (arith, protected_count-le-entries s)) in
      let (u, ends', trimmed', bounded) =
        evict_loop-IsTrimmed fuel t trimmed.ready (omega (arith, trimmed.fewer)) in
      (u, rw (ends, evict_until_fits) ends', IsTrimmed-trans trimmed' trimmed, bounded)

  pub enforce_capacity-IsTrimmed :
      (fuel now : ℕ) (s : Store)
      → IsReady hash s
      → entries s < fuel
      → (t : Store) × (enforce_capacity hash fuel now s ≡ some t)
        × IsTrimmed hash t s
        × (0 < t.max_entries → entries t ≤ t.max_entries)
  unfolding enforce_capacity
  enforce_capacity-IsTrimmed fuel now s r h = elim (Bool-cases (nat_eqb s.max_entries 0)) [
    | inl unlimited ↦ (s, rw unlimited, IsTrimmed-refl r, ground arith)
    | inr limited ↦ elim (Bool-cases (leb s.total_entries s.max_entries)) [
      | inl fits ↦ (s, rw (limited, fits), IsTrimmed-refl r, ground (arith, total_exact r))
      | inr over ↦
          let swept = sweep_from (length s.stripes) 0 now s in
          let w = sweep_from-IsTrimmed (length s.stripes) 0 now s (omega arith) r in
          elim (Bool-cases (leb swept.total_entries swept.max_entries)) [
            | inl fits ↦ (swept, rw (limited, over, fits), w, ground (arith, total_exact w.ready))
            | inr over' ↦
                let (t, ends, trimmed, bounded) =
                  evict_until_fits-IsTrimmed fuel swept w.ready (omega (arith, w.fewer)) in
                (t, rw (limited, over, over') ends, IsTrimmed-trans trimmed w, λ _. bounded)
          ]
    ]
  ]

  pub max-set_section :
      (key value : Bytes) (expires_at : Option ℤ) (now : ℕ) (s : Store)
      → (set_section hash key value expires_at now s).max_entries ≡ s.max_entries
  unfolding set_section
  max-set_section key value expires_at now s = ground arith

  pub set_section-IsReady :
      (key value : Bytes) (expires_at : Option ℤ) (now : ℕ) (s : Store)
      → key ≢ []
      → IsReady hash s
      → entries s + 1 < 2 ^ 64
      → IsReady hash (set_section hash key value expires_at now s)
  set_section-IsReady key value expires_at now s named r h = record {
    valid = Block-IsValid (setting key value expires_at now) r.valid;
    no_empty_key =
        find-set_section_ne hash s key r.valid.counted.nonempty value expires_at now [] named
        ∙ r.no_empty_key;
    small =
        omega (arith, entries-set_section hash s key r.valid.counted.nonempty value expires_at now);
  }

  get-IsValid :
      (key : Bytes) (now : ℕ) (s : Store) → IsValid hash s → IsValid hash (get hash key now s).0
  get-IsValid key now s v =
      rw (get-get_section hash s key v.counted.nonempty now) (Block-IsValid (getting key now) v)

  pub get-IsReady :
      (key : Bytes) (now : ℕ) (s : Store)
      → key ≢ []
      → IsReady hash s
      → IsReady hash (get hash key now s).0
  get-IsReady key now s named r = record {
    valid = get-IsValid key now s r.valid;
    no_empty_key =
        find-get_ne hash s key r.valid.counted.nonempty now [] named
          (stripe_for-Fits hash s key r.valid.counted.nonempty r.valid.placed).0
        ∙ r.no_empty_key;
    small = omega (arith, entries-get hash s key r.valid.counted.nonempty now, r.small);
  }

  pub set_entry-IsTrimmed :
      (key value : Bytes) (ttl : Option ℤ) (t_expiry t_touch t_sweep : ℕ) (s : Store)
      → key ≢ []
      → IsReady hash s
      → entries s + 1 < 2 ^ 64
      → (t : Store) × (set_entry hash key value ttl t_expiry t_touch t_sweep s ≡ some t)
        × IsTrimmed hash t (set_section hash key value (expiry ttl t_expiry) t_touch s)
        × (0 < t.max_entries → entries t ≤ t.max_entries)
  unfolding set_entry
  set_entry-IsTrimmed key value none t_expiry t_touch t_sweep s named r h =
      enforce_capacity-IsTrimmed _ t_sweep (set_section hash key value none t_touch s)
        (set_section-IsReady key value none t_touch s named r h) (omega arith)
  set_entry-IsTrimmed key value (some ms) t_expiry t_touch t_sweep s named r h =
      let at = some (add_ms t_expiry ms) in
      enforce_capacity-IsTrimmed _ t_sweep (set_section hash key value at t_touch s)
        (set_section-IsReady key value at t_touch s named r h) (omega arith)

  -- `Set` of a key that is not empty, on a valid store that has no entry under the empty key and
  -- fewer than 2^64 - 1 entries: its loops end, the store stays valid, with no entry under the empty
  -- key and the same capacity, and if there is a capacity, no more entries remain than it allows.
  pub set_entry_bounded :
      (key value : Bytes) (ttl : Option ℤ) (t_expiry t_touch t_sweep : ℕ) (s : Store)
      → key ≢ []
      → IsReady hash s
      → entries s + 1 < 2 ^ 64
      → (t : Store) × (set_entry hash key value ttl t_expiry t_touch t_sweep s ≡ some t)
        × IsReady hash t
        × (t.max_entries ≡ s.max_entries)
        × (0 < s.max_entries → entries t ≤ s.max_entries)
  set_entry_bounded key value ttl t_expiry t_touch t_sweep s named r h =
      let (t, ends, trimmed, bounded) =
        set_entry-IsTrimmed key value ttl t_expiry t_touch t_sweep s named r h in
      let same = trimmed.same_max ∙ max-set_section key value (expiry ttl t_expiry) t_touch s in
      (t, ends, trimmed.ready, same, λ limited. omega (arith, same, bounded))
