-- ===== src/Core/Store/Reads.antt =====
-- What `find`, and so `Get`, returns after the locked blocks of `Set` and `Get`.
use distributed_cache.Prelude.{
  ℕ, ◌%◌, ◌<◌, ◌≡◌, ◌≢◌, refl, ap, ℤ, Option, Option-cases, Bytes, bytes_key, false, bytes_eqb_iff,
  bytes_eqb, none, some, [], arith, inl, inr, length, length-set, get_or, get_or-set, if◌then◌else◌,
  nat_eqb, Bool-cases,
}
use distributed_cache.Prelude.Map.{insert, erase, lookup-insert, lookup-erase, IsDistinct}
use distributed_cache.Core.Entry.{ValueEntry, is_expired, touch_entry, to_ns, fetch_sub}
use distributed_cache.Core.Store.{
  Stripe, Store, stripe_index_for_key, stripe_for, with_stripe, find, set_section, get_section,
  drop_entry, get,
}

module _ (hash : Bytes → ℕ) (s : Store) (key : Bytes) (some_stripe : 0 < length s.stripes) where
  -- `s` with the stripe of `key` replaced.
  abbrev pub written : Stripe → ℕ → ℕ → Store
  written m total protected = record s {
    stripes = with_stripe hash s key m;
    total_entries = total;
    protected_entries = protected;
  }

  -- A key of another stripe, or of this one.
  stripe_for-with_stripe :
      (m : Stripe) (a b : ℕ) (j : Bytes)
      → stripe_for hash (written m a b) j ≡ (
          if nat_eqb (stripe_index_for_key hash s key) (stripe_index_for_key hash s j)
          then m
          else stripe_for hash s j)
  unfolding with_stripe stripe_for stripe_index_for_key
  stripe_for-with_stripe m a b j =
      let i = hash key % length s.stripes in
      let i' = hash j % length s.stripes in
      rw length-set (get_or-set s.stripes i i' m [] (omega arith))

  -- The same index where the key is the same.
  same_index :
      (j : Bytes) → key ≡ j → stripe_index_for_key hash s key ≡ stripe_index_for_key hash s j
  same_index j e = ap (stripe_index_for_key hash s) e

  same_stripe :
      (j : Bytes)
      → stripe_index_for_key hash s key ≡ stripe_index_for_key hash s j
      → stripe_for hash s key ≡ stripe_for hash s j
  unfolding stripe_for
  same_stripe j e = ap (λ i. get_or s.stripes i []) e

  -- After a write of an entry of the key, every other key is found as before.
  pub find-insert :
      (e : ValueEntry) (a b : ℕ) (j : Bytes)
      → find hash (written (insert key e (stripe_for hash s key)) a b) j
        ≡ (if bytes_eqb key j then some e else find hash s j)
  unfolding find
  find-insert e a b j = rw (stripe_for-with_stripe _ a b j) (
      ground (
        arith,
        bytes_eqb_iff key j,
        same_index j,
        same_stripe j,
        lookup-insert key j e (stripe_for hash s key),
      ))

  pub find-erase :
      (a b : ℕ) (j : Bytes)
      → IsDistinct (stripe_for hash s key)
      → find hash (written (erase key (stripe_for hash s key)) a b) j
        ≡ (if bytes_eqb key j then none else find hash s j)
  unfolding find
  find-erase a b j d = rw (stripe_for-with_stripe _ a b j) (
      ground (
        arith,
        bytes_eqb_iff key j,
        same_index j,
        same_stripe j,
        lookup-erase key j (stripe_for hash s key) d,
      ))

  pub find-insert_self :
      (e : ValueEntry) (a b : ℕ)
      → find hash (written (insert key e (stripe_for hash s key)) a b) key ≡ some e
  find-insert_self e a b = ground (arith, bytes_eqb_iff key key, find-insert e a b key)

  pub find-insert_ne :
      (e : ValueEntry) (a b : ℕ) (j : Bytes)
      → key ≢ j
      → find hash (written (insert key e (stripe_for hash s key)) a b) j ≡ find hash s j
  find-insert_ne e a b j ne = ground (arith, bytes_eqb_iff key j, find-insert e a b j)

  -- `Set` changes no other key.
  pub find-set_section_ne :
      (value : Bytes) (expires_at : Option ℤ) (now : ℕ) (j : Bytes)
      → key ≢ j
      → find hash (set_section hash key value expires_at now s) j ≡ find hash s j
  unfolding set_section
  find-set_section_ne value expires_at now j ne = elim (Option-cases (find hash s key)) [
    | inl new ↦ rw (new, set_section) (find-insert_ne _ _ _ j ne)
    | inr (old, found) ↦ rw (found, set_section) (find-insert_ne _ _ _ j ne)
  ]

  -- At its own key it leaves the value and the expiry, whatever was there.
  pub find-set_section :
      (value : Bytes) (expires_at : Option ℤ) (now : ℕ)
      → (e : ValueEntry) × (find hash (set_section hash key value expires_at now s) key ≡ some e)
        × (e.value ≡ value)
        × (e.expires_at ≡ expires_at)
  unfolding set_section touch_entry
  find-set_section value expires_at now = elim (Option-cases (find hash s key)) [
    | inl new ↦ (
      record {
        value = value;
        expires_at = expires_at;
        lfu_count = 1;
        last_touch_ns = to_ns now;
        in_protected_segment = false;
      },
      rw (new, set_section) (find-insert_self _ _ _),
      refl,
      refl,
    )
    | inr (old, found) ↦
        let e' = record old { value = value; expires_at = expires_at } in
        (
          (touch_entry e' now s.protected_entries).0,
          rw (found, set_section) (find-insert_self _ _ _),
          refl,
          refl,
        )
  ]

  -- `Get` returns the value of an entry that has not expired.
  pub get_value :
      (now : ℕ)
      → (get hash key now s).1 ≡ elim (find hash s key) [
        | none ↦ none
        | some e ↦ if is_expired e now then none else some e.value
      ]
  unfolding get get_section touch_entry
  get_value now = ground arith

  pub get-get_section : (now : ℕ) → get hash key now s ≡ get_section hash key now s
  unfolding get get_section
  get-get_section now = ground arith

  -- `Get` changes no other key.
  pub find-get_ne :
      (now : ℕ) (j : Bytes)
      → key ≢ j
      → IsDistinct (stripe_for hash s key)
      → find hash (get hash key now s).0 j ≡ find hash s j
  unfolding get_section drop_entry
  find-get_ne now j ne d = rw get-get_section (elim (Option-cases (find hash s key)) [
    | inl miss ↦ rw (miss, get_section) refl
    | inr (e, found) ↦
        rw (found, get_section)
          (elim (Bool-cases (is_expired e now)) [
            | inl gone ↦ rw gone (
                ground (
                  arith,
                  bytes_eqb_iff key j,
                  find-erase (fetch_sub s.total_entries)
                      (if e.in_protected_segment
                        then fetch_sub s.protected_entries
                        else s.protected_entries)
                      j d,
                ))
            | inr kept ↦ rw kept (find-insert_ne _ _ _ j ne)
          ])
  ])
