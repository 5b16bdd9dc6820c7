-- ===== src/Core/Capacity/RoundTrip.antt =====
-- What `Get` returns after `Set`.
use distributed_cache.Prelude.{
  ℕ, ◌+◌, ◌*◌, ◌^◌, ◌<◌, ◌≤◌, refl, ap, sub_ℕ, pos_part, neg_part, negsuc, ◌≡◌, ◌≢◌, ◌⊎◌, sym, ◌∙◌,
  ℤ, Bytes, Bool, false, Option, none, some, [], arith, length, if◌then◌else◌, inl, inr,
  Option-cases, leb_ℤ, pos,
}
use distributed_cache.Core.Entry.{ValueEntry, is_expired, add_ms, signed_64, ms_bits}
use distributed_cache.Core.Store.{Store, entries, find, set_section, get}
use distributed_cache.Core.Store.Reads.{find-set_section, find-set_section_ne, get_value}
use distributed_cache.Core.Store.Within.{IsWithin}
use distributed_cache.Core.Capacity.{enforce_capacity, set_entry}
use distributed_cache.Core.Capacity.Loops.{IsReady}
use distributed_cache.Core.Capacity.Guarantees.{expiry, max-set_section, set_entry-IsTrimmed}
use distributed_cache.Core.Store.Counters.{length-with_stripe}

-- Whether a point of time has come.
abbrev pub has_come : Option ℤ → ℕ → Bool
has_come none now = false
has_come (some t) now = leb_ℤ t (pos now)

is_expired-has_come : (e : ValueEntry) (now : ℕ) → is_expired e now ≡ has_come e.expires_at now
unfolding is_expired
is_expired-has_come e now = ground arith

-- The instant of expiry, as an integer without bounds.
abbrev pub deadline : Option ℤ → ℕ → Option ℤ
deadline none now = none
deadline (some (pos t)) now = some (pos (now + t * 1000000))
deadline (some (negsuc t)) now = some (sub_ℕ now ((t + 1) * 1000000))

-- The instant is one that the clock can stand for: a signed 64-bit number of nanoseconds.
abbrev pub InRange : Option ℤ → Type 0
InRange none = Unit
InRange (some z) = (pos_part z < 2 ^ 63) × (neg_part z ≤ 2 ^ 63)

expiry-deadline :
    (ttl : Option ℤ) (now : ℕ)
    → now < 2 ^ 63
    → InRange (deadline ttl now)
    → expiry ttl now ≡ deadline ttl now
unfolding add_ms signed_64 ms_bits
expiry-deadline none now l r = refl
expiry-deadline (some (pos t)) now l r = ap some (ground arith)
expiry-deadline (some (negsuc t)) now l r = ap some (ground arith)

module _ (hash : Bytes → ℕ) where
  pub get_found :
      (key : Bytes) (now : ℕ) (s : Store) (e : ValueEntry)
      → 0 < length s.stripes
      → find hash s key ≡ some e
      → (get hash key now s).1 ≡ (if has_come e.expires_at now then none else some e.value)
  get_found key now s e nonempty found =
      get_value hash s key nonempty now ∙ ground (arith, is_expired-has_come e now, found)

  get_missing :
      (key : Bytes) (now : ℕ) (s : Store)
      → 0 < length s.stripes
      → find hash s key ≡ none
      → (get hash key now s).1 ≡ none
  get_missing key now s nonempty missing =
      get_value hash s key nonempty now ∙ ground (arith, missing)

  -- `Get` in a trimmed store returns nothing or what it would have returned.
  get-IsWithin :
      (key : Bytes) (now : ℕ) (s t : Store)
      → 0 < length s.stripes
      → 0 < length t.stripes
      → IsWithin hash t s
      → ((get hash key now t).1 ≡ none) ⊎ ((get hash key now t).1 ≡ (get hash key now s).1)
  get-IsWithin key now s t n m w = elim (Option-cases (find hash t key)) [
    | inl missing ↦ inl (get_missing key now t m missing)
    | inr (e, found) ↦
        let (e', found', value, time) = w.at key e found in
        inr (
          get_found key now t e m found
          ∙ sym (get_found key now s e' n found' ∙ ground (arith, value, time)))
  ]

  pub get-set_section :
      (key value : Bytes) (expires_at : Option ℤ) (t_touch later : ℕ) (s : Store)
      → 0 < length s.stripes
      → 0 < length (set_section hash key value expires_at t_touch s).stripes
      → (get hash key later (set_section hash key value expires_at t_touch s)).1
        ≡ (if has_come expires_at later then none else some value)
  get-set_section key value expires_at t_touch later s n m =
      let (e, found, is_value, is_expiry) =
        find-set_section hash s key n value expires_at t_touch in
      get_found key later _ e m found ∙ rw (is_value, is_expiry)

  pub set_section-nonempty :
      (key value : Bytes) (expires_at : Option ℤ) (now : ℕ) (s : Store)
      → 0 < length s.stripes
      → 0 < length (set_section hash key value expires_at now s).stripes
  unfolding set_section
  set_section-nonempty key value expires_at now s n = elim (Option-cases (find hash s key)) [
    | inl new ↦ rw (new, set_section) (length-with_stripe hash s key n _)
    | inr (old, found) ↦ rw (found, set_section) (length-with_stripe hash s key n _)
  ]

  set_entry_unlimited :
      (key value : Bytes) (ttl : Option ℤ) (t_expiry t_touch t_sweep : ℕ) (s : Store)
      → s.max_entries ≡ 0
      → set_entry hash key value ttl t_expiry t_touch t_sweep s
        ≡ some (set_section hash key value (expiry ttl t_expiry) t_touch s)
  unfolding set_entry enforce_capacity
  set_entry_unlimited key value none t_expiry t_touch t_sweep s u =
      ground (arith, max-set_section hash key value none t_touch s)
  set_entry_unlimited key value (some ms) t_expiry t_touch t_sweep s u =
      ground (arith, max-set_section hash key value (some (add_ms t_expiry ms)) t_touch s)

  get_same :
      (j : Bytes) (later : ℕ) (s t : Store)
      → 0 < length s.stripes
      → 0 < length t.stripes
      → find hash t j ≡ find hash s j
      → (get hash j later t).1 ≡ (get hash j later s).1
  get_same j later s t n m same =
      get_value hash t j m later ∙ rw same (sym (get_value hash s j n later))

  -- What is read after `Set`, by the expiry that was stored.
  pub get-set_entry_stored :
      (key value : Bytes) (ttl : Option ℤ) (t_expiry t_touch t_sweep : ℕ) (s : Store)
      → s.max_entries ≡ 0
      → 0 < length s.stripes
      → (t : Store) × (set_entry hash key value ttl t_expiry t_touch t_sweep s ≡ some t)
        × ((later : ℕ)
            → (get hash key later t).1
              ≡ (if has_come (expiry ttl t_expiry) later then none else some value))
        × ((j : Bytes) (later : ℕ) → key ≢ j → (get hash j later t).1 ≡ (get hash j later s).1)
  get-set_entry_stored key value ttl t_expiry t_touch t_sweep s unlimited n =
      let at = expiry ttl t_expiry in
      let m = set_section-nonempty key value at t_touch s n in
      (
        set_section hash key value at t_touch s,
        set_entry_unlimited key value ttl t_expiry t_touch t_sweep s unlimited,
        λ later. get-set_section key value at t_touch later s n m,
        λ j later other.
            get_same j later s _ n m (find-set_section_ne hash s key n value at t_touch j other),
      )

  -- In a store without a capacity, and with a stripe at least, where the clock's reading is below 2^63 and
  -- the instant of expiry, the reading and the milliseconds to live, is within the signed 64-bit nanoseconds
  -- of the clock: `Set` succeeds; after it `Get` of the key returns the value before that instant and
  -- nothing from then on, or always the value if no time to live was given, and `Get` of any other key
  -- returns what it returned before.
  pub get-set_entry :
      (key value : Bytes) (ttl : Option ℤ) (t_expiry t_touch t_sweep : ℕ) (s : Store)
      → s.max_entries ≡ 0
      → 0 < length s.stripes
      → t_expiry < 2 ^ 63
      → InRange (deadline ttl t_expiry)
      → (t : Store) × (set_entry hash key value ttl t_expiry t_touch t_sweep s ≡ some t)
        × ((later : ℕ)
            → (get hash key later t).1
              ≡ (if has_come (deadline ttl t_expiry) later then none else some value))
        × ((j : Bytes) (later : ℕ) → key ≢ j → (get hash j later t).1 ≡ (get hash j later s).1)
  get-set_entry key value ttl t_expiry t_touch t_sweep s unlimited n early fits =
      let (t, ends, reads, others) =
        get-set_entry_stored key value ttl t_expiry t_touch t_sweep s unlimited n in
      (
        t,
        ends,
        λ later.
            reads later
            ∙ ap (λ at. if has_come at later then none else some value)
                (expiry-deadline ttl t_expiry early fits),
        others,
      )

  -- `Set` of a key that is not empty, on a valid store with any capacity, no entry under the empty key
  -- and fewer than 2^64 - 1 entries, succeeds; after it `Get` of the key returns nothing, or what it
  -- would return without a capacity (the new value, until the expiry that was stored comes), and `Get` of any other
  -- key returns nothing or what it returned before: evictions take entries away, and change no value.
  pub get-set_entry_bounded :
      (key value : Bytes) (ttl : Option ℤ) (t_expiry t_touch t_sweep : ℕ) (s : Store)
      → key ≢ []
      → IsReady hash s
      → entries s + 1 < 2 ^ 64
      → (t : Store) × (set_entry hash key value ttl t_expiry t_touch t_sweep s ≡ some t)
        × ((later : ℕ)
            → ((get hash key later t).1 ≡ none)
              ⊎ ((get hash key later t).1
                  ≡ (if has_come (expiry ttl t_expiry) later then none else some value)))
        × ((j : Bytes) (later : ℕ)
            → key ≢ j
            → ((get hash j later t).1 ≡ none) ⊎ ((get hash j later t).1 ≡ (get hash j later s).1))
  get-set_entry_bounded key value ttl t_expiry t_touch t_sweep s named r h =
      let at = expiry ttl t_expiry in
      let n = r.valid.counted.nonempty in
      let u = set_section hash key value at t_touch s in
      let m = set_section-nonempty key value at t_touch s n in
      let (t, ends, trimmed, _) =
        set_entry-IsTrimmed hash key value ttl t_expiry t_touch t_sweep s named r h in
      let l = trimmed.ready.valid.counted.nonempty in
      (
        t,
        ends,
        λ later. ground (
          arith,
          get-IsWithin key later u t m l trimmed.within,
          get-set_section key value at t_touch later s n m,
        ),
        λ j later other. ground (
          arith,
          get-IsWithin j later u t m l trimmed.within,
          get_same j later s u n m (find-set_section_ne hash s key n value at t_touch j other),
        ),
      )
