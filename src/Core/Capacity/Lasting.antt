-- ===== src/Core/Capacity/Lasting.antt =====
-- What `Get` returns after a `Set` with no time to live.
use distributed_cache.Prelude.{
  ℕ, ◌+◌, ◌^◌, ◌<◌, ◌≤◌, refl, ltb, ◌≡◌, ◌≢◌, ◌⊎◌, ◌∙◌, Bytes, false, none, some, [], arith,
  Bool-cases, nat_eqb, leb, true, length, inl, inr, Option-cases,
}
use distributed_cache.Core.Entry.{ValueEntry}
use distributed_cache.Core.Store.{Store, entries, find, set_section, get}
use distributed_cache.Core.Store.Reads.{find-set_section}
use distributed_cache.Core.Store.Within.{IsWithin}
use distributed_cache.Core.Capacity.{enforce_capacity, set_entry}
use distributed_cache.Core.Capacity.Loops.{IsReady, total_exact}
use distributed_cache.Core.Capacity.Guarantees.{
  max-set_section, set_section-IsReady, set_entry-IsTrimmed,
}
use distributed_cache.Core.Store.Sizes.{entries-set_section}
use distributed_cache.Core.Capacity.RoundTrip.{
  get_found, get-set_section, set_section-nonempty, get-set_entry_stored,
}

module _ (hash : Bytes → ℕ) where
  -- A store with room is only written to.
  set_entry_fits :
      (key value : Bytes) (t_expiry t_touch t_sweep : ℕ) (s : Store)
      → key ≢ []
      → IsReady hash s
      → entries s + 1 < 2 ^ 64
      → entries s < s.max_entries
      → set_entry hash key value none t_expiry t_touch t_sweep s
        ≡ some (set_section hash key value none t_touch s)
  unfolding set_entry enforce_capacity
  set_entry_fits key value t_expiry t_touch t_sweep s named r h room =
      let u = set_section hash key value none t_touch s in
      let same = max-set_section hash key value none t_touch s in
      let exact = total_exact (set_section-IsReady hash key value none t_touch s named r h) in
      let more = entries-set_section hash s key r.valid.counted.nonempty value none t_touch in
      let limited : nat_eqb u.max_entries 0 ≡ false = ground (arith, same) in
      let fits : leb u.total_entries u.max_entries ≡ true = ground (arith, same, exact, more) in
      rw (limited, fits) refl

  -- An entry that is left of a key that was set with no time to live.
  get_left :
      (key value : Bytes) (t_touch later : ℕ) (s t : Store) (e : ValueEntry)
      → 0 < length s.stripes
      → 0 < length t.stripes
      → IsWithin hash t (set_section hash key value none t_touch s)
      → find hash t key ≡ some e
      → (get hash key later t).1 ≡ some value
  get_left key value t_touch later s t e n l within found =
      let (e', found', same_value, same_time) = within.at key e found in
      let (w, written, is_value, is_expiry) = find-set_section hash s key n value none t_touch in
      get_found hash key later t e l found
      ∙ ground (arith, found', written, same_value, same_time, is_value, is_expiry)

  -- A key that was set with no time to live is read, unless the store had no room and evicted its entry.
  pub get-set_entry_forever :
      (key value : Bytes) (t_expiry t_touch t_sweep : ℕ) (s : Store)
      → key ≢ []
      → IsReady hash s
      → entries s + 1 < 2 ^ 64
      → (t : Store) × (set_entry hash key value none t_expiry t_touch t_sweep s ≡ some t)
        × (((later : ℕ) → (get hash key later t).1 ≡ some value)
            ⊎ ((0 < s.max_entries) × (s.max_entries ≤ entries s) × (find hash t key ≡ none)))
  get-set_entry_forever key value t_expiry t_touch t_sweep s named r h =
      let n = r.valid.counted.nonempty in
      elim (Bool-cases (nat_eqb s.max_entries 0)) [
        | inl unlimited ↦
            let (t, ends, reads, _) =
              get-set_entry_stored hash key value none t_expiry t_touch t_sweep s
                (ground (arith, unlimited)) n in
            (t, ends, inl reads)
        | inr limited ↦ elim (Bool-cases (ltb (entries s) s.max_entries)) [
          | inl room ↦ (
            set_section hash key value none t_touch s,
            set_entry_fits key value t_expiry t_touch t_sweep s named r h (ground (arith, room)),
            inl (λ later.
                get-set_section hash key value none t_touch later s n
                  (set_section-nonempty hash key value none t_touch s n)),
          )
          | inr full ↦
              let (t, ends, trimmed, _) =
                set_entry-IsTrimmed hash key value none t_expiry t_touch t_sweep s named r h in
              let l = trimmed.ready.valid.counted.nonempty in
              (
                t,
                ends,
                elim (Option-cases (find hash t key)) [
                  | inl evicted ↦ inr (ground (arith, limited), ground (arith, full), evicted)
                  | inr (e, found) ↦
                      inl (λ later. get_left key value t_touch later s t e n l trimmed.within found)
                ],
              )
        ]
      ]

  -- A key without an entry is not found.
  pub get-none :
      (key : Bytes) (now : ℕ) (s : Store) → find hash s key ≡ none → (get hash key now s).1 ≡ none
  unfolding get
  get-none key now s missing = rw (get, missing) refl
