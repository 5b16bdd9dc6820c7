-- ===== src/Bench/Load/Keeps.antt =====
-- A store that is large enough for its keys keeps them, if they have no time to live.
use distributed_cache.Prelude.{
  ℕ, suc, ◌+◌, ◌^◌, ◌<◌, ◌≤◌, Bytes, bytes_eqb, bytes_eqb_iff, bytes_key, nat_eqb, leb, ◌≡◌, ◌≢◌,
  refl, sym, ap, ◌∙◌, ℤ, true, false, Option, none, some, [], length, arith, Bool-cases, inl, inr,
  ◌⊎◌,
}
use distributed_cache.Prelude.Map.{weight, IsDistinct}
use distributed_cache.Core.Entry.{ValueEntry, is_expired, touch_entry}
use distributed_cache.Core.Store.{Store, entries, find, stripe_for, set_section, get_section, get}
use distributed_cache.Core.Store.Counters.{weigh-insert, one}
use distributed_cache.Core.Store.Placement.{stripe_for-Fits}
use distributed_cache.Core.Store.Reads.{
  find-set_section, find-set_section_ne, find-insert_self, get_value, get-get_section, find-get_ne,
}
use distributed_cache.Core.Store.Sizes.{entries-set_section, entries-get}
use distributed_cache.Core.Capacity.{enforce_capacity, set_entry}
use distributed_cache.Core.Capacity.Loops.{IsReady, total_exact}
use distributed_cache.Core.Capacity.Guarantees.{max-set_section, set_section-IsReady, get-IsReady}

-- An entry without a time to live.
abbrev IsKept : Option ValueEntry → Type 0
IsKept none = ⊥
IsKept (some e) = e.expires_at ≡ none

-- The keys `held 0` to `held (n - 1)` are there for good, and there are no more than `n` entries.
pub record Keeps (hash : Bytes → ℕ) (held : ℕ → Bytes) (n : ℕ) (s : Store) : Type 0 where
  pub ready : IsReady hash s
  pub few : entries s ≤ n
  pub kept : (i : ℕ) → i < n → IsKept (find hash s (held i))

module _ (hash : Bytes → ℕ) (s : Store) (key : Bytes) (some_stripe : 0 < length s.stripes) where
  -- `Set` of a key that is there adds no entry.
  entries-set_section_found :
      (value : Bytes) (expires_at : Option ℤ) (now : ℕ) (old : ValueEntry)
      → find hash s key ≡ some old
      → entries (set_section hash key value expires_at now s) ≡ entries s
  unfolding set_section entries
  entries-set_section_found value expires_at now old found =
      let u = ap (weight one) found in
      rw (found, set_section) (omega (arith, u, weigh-insert hash s key some_stripe one _))

  IsKept-set_section :
      (value : Bytes) (now : ℕ) (j : Bytes)
      → (key ≢ j → IsKept (find hash s j))
      → IsKept (find hash (set_section hash key value none now s) j)
  IsKept-set_section value now j before = elim (Bool-cases (bytes_eqb key j)) [
    | inl same ↦
        let (e, found, is_value, is_expiry) =
          find-set_section hash s key some_stripe value none now in
        let there : find hash (set_section hash key value none now s) j ≡ some e =
          ap (find hash (set_section hash key value none now s))
            (sym ((bytes_eqb_iff key j).0 same))
          ∙ found in
        rw there is_expiry
    | inr other ↦
        let differs : key ≢ j = ground (arith, bytes_eqb_iff key j, other) in
        rw (find-set_section_ne hash s key some_stripe value none now j differs) (before differs)
  ]

-- Where all fits, `Set` evicts nothing.
set_entry_fits :
    (hash : Bytes → ℕ) (key value : Bytes) (t_expiry t_touch t_sweep : ℕ) (s : Store)
    → IsReady hash (set_section hash key value none t_touch s)
    → entries (set_section hash key value none t_touch s) ≤ s.max_entries
    → set_entry hash key value none t_expiry t_touch t_sweep s
      ≡ some (set_section hash key value none t_touch s)
unfolding set_entry enforce_capacity
set_entry_fits hash key value t_expiry t_touch t_sweep s r l =
    let t = set_section hash key value none t_touch s in
    let same : t.max_entries ≡ s.max_entries = max-set_section hash key value none t_touch s in
    let within : leb t.total_entries t.max_entries ≡ true =
      ground (arith, total_exact r, same, l) in
    elim (Bool-cases (nat_eqb t.max_entries 0)) [
      | inl unlimited ↦ rw (set_entry, enforce_capacity, unlimited) refl
      | inr limited ↦ rw (set_entry, enforce_capacity, limited, within) refl
    ]

no_expiry : (e : ValueEntry) (now : ℕ) → e.expires_at ≡ none → is_expired e now ≡ false
unfolding is_expired
no_expiry e now h = ground (arith, h)

-- `Get` of a key that is there.
module _ (hash : Bytes → ℕ) (s : Store) (key : Bytes) (now : ℕ) (some_stripe : 0 < length s.stripes)
    (e : ValueEntry) (found : find hash s key ≡ some e) (forever : e.expires_at ≡ none) where
  get_some : (get hash key now s).1 ≢ none
  get_some missing =
      let live = no_expiry e now forever in
      let value = get_value hash s key some_stripe now in
      ground (arith, missing, value, found, live)

  max-get : (get hash key now s).0.max_entries ≡ s.max_entries
  unfolding get_section
  max-get =
      rw (get-get_section hash s key some_stripe now)
        (rw (found, get_section) (rw (no_expiry e now forever) refl))

  get_self :
      (e' : ValueEntry) × (find hash (get hash key now s).0 key ≡ some e') × (e'.expires_at ≡ none)
  unfolding get_section touch_entry
  get_self = (
    (touch_entry e now s.protected_entries).0,
    rw (get-get_section hash s key some_stripe now) (
        rw (found, get_section)
          (rw (no_expiry e now forever) (find-insert_self hash s key some_stripe _ _ _))),
    forever,
  )

  IsKept-get :
      (j : Bytes)
      → IsDistinct (stripe_for hash s key)
      → IsKept (find hash s j)
      → IsKept (find hash (get hash key now s).0 j)
  IsKept-get j d before = elim (Bool-cases (bytes_eqb key j)) [
    | inl same ↦
        let (e', there, still) = get_self in
        let at_j : find hash (get hash key now s).0 j ≡ some e' =
          ap (find hash (get hash key now s).0) (sym ((bytes_eqb_iff key j).0 same)) ∙ there in
        rw at_j still
    | inr other ↦
        let differs : key ≢ j = ground (arith, bytes_eqb_iff key j, other) in
        rw (find-get_ne hash s key some_stripe now j differs d) before
  ]

module _ (hash : Bytes → ℕ) (held : ℕ → Bytes) (named : (i : ℕ) → held i ≢ []) where
  set_section-IsKept :
      (n i : ℕ) (value : Bytes) (now : ℕ) (s : Store)
      → Keeps hash held n s
      → (j : ℕ) → (j < n) ⊎ (j ≡ i)
      → IsKept (find hash (set_section hash (held i) value none now s) (held j))
  set_section-IsKept n i value now s k j b =
      IsKept-set_section hash s (held i) k.ready.valid.counted.nonempty value now (held j)
        (λ differs. elim b [
          | inl below ↦ k.kept j below
          | inr same ↦ absurd (differs (ap held (sym same)))
        ])

  kept_found :
      (r : Option ValueEntry) → IsKept r → (e : ValueEntry) × (r ≡ some e) × (e.expires_at ≡ none)
  kept_found none k = absurd k
  kept_found (some e) k = (e, refl, k)

  -- `Set` of the next key, and of one that is there.
  pub set_entry_next :
      (n : ℕ) (value : Bytes) (t_expiry t_touch t_sweep : ℕ) (s : Store)
      → Keeps hash held n s
      → n < s.max_entries
      → n + 1 < 2 ^ 64
      → (t : Store) × (set_entry hash (held n) value none t_expiry t_touch t_sweep s ≡ some t)
        × Keeps hash held (suc n) t
        × (t.max_entries ≡ s.max_entries)
  set_entry_next n value t_expiry t_touch t_sweep s k room small =
      let t = set_section hash (held n) value none t_touch s in
      let r =
        set_section-IsReady hash (held n) value none t_touch s (named n) k.ready
          (omega (arith, k.few)) in
      let more =
        entries-set_section hash s (held n) k.ready.valid.counted.nonempty value none t_touch in
      (
        t,
        set_entry_fits hash (held n) value t_expiry t_touch t_sweep s r
            (omega (arith, more, k.few)),
        record {
          ready = r;
          few = omega (arith, more, k.few);
          kept = λ j b. set_section-IsKept n n value t_touch s k j (ground (arith, b));
        },
        max-set_section hash (held n) value none t_touch s,
      )

  pub set_entry_again :
      (n i : ℕ) (value : Bytes) (t_expiry t_touch t_sweep : ℕ) (s : Store)
      → Keeps hash held n s
      → i < n
      → n ≤ s.max_entries
      → n + 1 < 2 ^ 64
      → (t : Store) × (set_entry hash (held i) value none t_expiry t_touch t_sweep s ≡ some t)
        × Keeps hash held n t
        × (t.max_entries ≡ s.max_entries)
  set_entry_again n i value t_expiry t_touch t_sweep s k below room small =
      let t = set_section hash (held i) value none t_touch s in
      let r =
        set_section-IsReady hash (held i) value none t_touch s (named i) k.ready
          (omega (arith, k.few)) in
      let (old, found, _) = kept_found (find hash s (held i)) (k.kept i below) in
      let same =
        entries-set_section_found hash s (held i) k.ready.valid.counted.nonempty value none t_touch
          old found in
      (
        t,
        set_entry_fits hash (held i) value t_expiry t_touch t_sweep s r
            (omega (arith, same, k.few)),
        record {
          ready = r;
          few = omega (arith, same, k.few);
          kept = λ j b. set_section-IsKept n i value t_touch s k j (inl b);
        },
        max-set_section hash (held i) value none t_touch s,
      )

  -- `Get` of a key that is there returns a value, and keeps all.
  pub get_again :
      (n i now : ℕ) (s : Store)
      → Keeps hash held n s
      → i < n
      → ((get hash (held i) now s).1 ≢ none)
        × Keeps hash held n (get hash (held i) now s).0
        × ((get hash (held i) now s).0.max_entries ≡ s.max_entries)
  get_again n i now s k below =
      let nonempty = k.ready.valid.counted.nonempty in
      let (e, found, forever) = kept_found (find hash s (held i)) (k.kept i below) in
      let distinct = (stripe_for-Fits hash s (held i) nonempty k.ready.valid.placed).0 in
      (
        get_some hash s (held i) now nonempty e found forever,
        record {
          ready = get-IsReady hash (held i) now s (named i) k.ready;
          few = omega (arith, entries-get hash s (held i) nonempty now, k.few);
          kept = λ j b.
              IsKept-get hash s (held i) now nonempty e found forever (held j) distinct
                (k.kept j b);
        },
        max-get hash s (held i) now nonempty e found forever,
      )
