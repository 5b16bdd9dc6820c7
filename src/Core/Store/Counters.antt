-- ===== src/Core/Store/Counters.antt =====
-- Each locked block of the store keeps its atomic counters in step with its entries.
use distributed_cache.Prelude.{
  ℕ, zero, suc, ◌+◌, ◌-◌, ◌%◌, ◌^◌, ◌<◌, ◌≡◌, refl, ap, ℤ, Bytes, bytes_key, Option, none, some, [],
  ◌∷◌, arith, inl, inr, length, length-set, length-replicate, get_or, get_or-replicate, sum_by,
  sum_by-set, replicate, nat_eqb, if◌then◌else◌, Bool-cases, Option-cases,
}
use distributed_cache.Prelude.Map.{
  lookup, insert, erase, total_by, weight, total_by-insert, total_by-erase,
}
use distributed_cache.Core.Entry.{ValueEntry, is_expired, fetch_add, fetch_sub, touch_entry}
use distributed_cache.Core.Store.{
  Stripe, Store, new_store, entries, protected_count, sweep_entries, sweep_section,
  stripe_index_for_key, stripe_for, with_stripe, find, set_section, drop_entry, get_section,
  demote_section, evict_section,
}

-- The weight of an entry in the number of protected entries.
abbrev pub is_protected : ValueEntry → ℕ
is_protected e = if e.in_protected_segment then 1 else 0

abbrev pub one : ValueEntry → ℕ
one e = 1

-- The counters agree with the entries, modulo the counters' width.
pub record IsCounted (s : Store) : Type 0 where
  pub nonempty : 0 < length s.stripes
  pub total : s.total_entries ≡ entries s % 2 ^ 64
  pub protected : s.protected_entries ≡ protected_count s % 2 ^ 64

touch_entry-count :
    (e : ValueEntry) (now p n : ℕ)
    → p ≡ (n + is_protected e) % 2 ^ 64
    → (touch_entry e now p).1 ≡ (n + is_protected (touch_entry e now p).0) % 2 ^ 64
unfolding touch_entry
touch_entry-count e now p n h = ground arith

sweep_entries-count :
    (now t p n k : ℕ) (m : Stripe)
    → t ≡ (n + total_by one m) % 2 ^ 64
    → p ≡ (k + total_by is_protected m) % 2 ^ 64
    → let r = sweep_entries now m t p in
      (r.1 ≡ (n + total_by one r.0) % 2 ^ 64) × (r.2 ≡ (k + total_by is_protected r.0) % 2 ^ 64)
unfolding sweep_entries
sweep_entries-count now t p n k [] h g = (h, g)
sweep_entries-count now t p n k ((j, e) ∷ m) h g = elim (Bool-cases (is_expired e now)) [
  | inl gone ↦ rw gone (
      sweep_entries-count now (fetch_sub t) (if e.in_protected_segment then fetch_sub p else p) n k
        m (omega arith) (ground arith))
  | inr kept ↦ rw kept (
      omega (
        arith,
        sweep_entries-count now t p (n + 1) (k + is_protected e) m (omega arith) (omega arith),
      ))
]

module _ (hash : Bytes → ℕ) (s : Store) (key : Bytes) (some_stripe : 0 < length s.stripes) where
  weigh-with_stripe :
      (f : ValueEntry → ℕ) (m : Stripe)
      → sum_by (total_by f) (with_stripe hash s key m) + total_by f (stripe_for hash s key)
        ≡ sum_by (total_by f) s.stripes + total_by f m
  unfolding with_stripe stripe_for
  weigh-with_stripe f m =
      sum_by-set (total_by f) s.stripes (stripe_index_for_key hash s key) m [] (omega arith)

  pub weigh-insert :
      (f : ValueEntry → ℕ) (e : ValueEntry)
      → sum_by (total_by f) (with_stripe hash s key (insert key e (stripe_for hash s key)))
          + weight f (find hash s key)
        ≡ sum_by (total_by f) s.stripes + f e
  unfolding find
  weigh-insert f e = omega (
    arith,
    weigh-with_stripe f (insert key e (stripe_for hash s key)),
    total_by-insert f key e (stripe_for hash s key),
  )

  pub weigh-erase :
      (f : ValueEntry → ℕ)
      → sum_by (total_by f) (with_stripe hash s key (erase key (stripe_for hash s key)))
          + weight f (find hash s key)
        ≡ sum_by (total_by f) s.stripes
  unfolding find
  weigh-erase f = omega (
    arith,
    weigh-with_stripe f (erase key (stripe_for hash s key)),
    total_by-erase f key (stripe_for hash s key),
  )

  pub length-with_stripe : (m : Stripe) → 0 < length (with_stripe hash s key m)
  unfolding with_stripe
  length-with_stripe m = rw length-set some_stripe

  -- An entry of the key is written over, with the counter of protected entries brought up to date.
  replace-IsCounted :
      (old e : ValueEntry) (p : ℕ)
      → find hash s key ≡ some old
      → ((n : ℕ)
          → s.protected_entries ≡ (n + is_protected old) % 2 ^ 64
          → p ≡ (n + is_protected e) % 2 ^ 64)
      → IsCounted s
      → IsCounted (record s {
        stripes = with_stripe hash s key (insert key e (stripe_for hash s key));
        protected_entries = p;
      })
  unfolding entries protected_count
  replace-IsCounted old e p found update v =
      let w = ap (weight is_protected) found in
      let u = ap (weight one) found in
      let n = protected_count s - is_protected old in
      record {
        nonempty = length-with_stripe _;
        total = omega (arith, v.total, u, weigh-insert one e);
        protected = omega (
          arith,
          v.protected,
          w,
          weigh-insert is_protected e,
          weigh-erase is_protected,
          update n (omega (arith, v.protected, w, weigh-erase is_protected)),
        );
      }

  pub set_section-IsCounted :
      (value : Bytes) (expires_at : Option ℤ) (now : ℕ)
      → IsCounted s
      → IsCounted (set_section hash key value expires_at now s)
  unfolding set_section entries protected_count fetch_add
  set_section-IsCounted value expires_at now v = elim (Option-cases (find hash s key)) [
    | inl new ↦
        let w = ap (weight is_protected) new in
        let u = ap (weight one) new in
        rw (new, set_section)
          (record {
            nonempty = length-with_stripe _;
            total = omega (arith, v.total, u, weigh-insert one _);
            protected = omega (arith, v.protected, w, weigh-insert is_protected _);
          })
    | inr (old, found) ↦
        rw (found, set_section)
          (replace-IsCounted old _ _ found
            (touch_entry-count (record old { value = value; expires_at = expires_at }) now
              s.protected_entries)
            v)
  ]

  pub drop_entry-IsCounted :
      (e : ValueEntry)
      → find hash s key ≡ some e
      → IsCounted s
      → IsCounted (drop_entry hash key e s)
  unfolding drop_entry entries protected_count fetch_sub
  drop_entry-IsCounted e found v =
      let w = ap (weight is_protected) found in
      let u = ap (weight one) found in
      record {
        nonempty = length-with_stripe _;
        total = omega (arith, v.total, u, weigh-erase one);
        protected = ground (arith, v.protected, w, weigh-erase is_protected);
      }

  pub get_section-IsCounted : (now : ℕ) → IsCounted s → IsCounted (get_section hash key now s).0
  unfolding get_section
  get_section-IsCounted now v = elim (Option-cases (find hash s key)) [
    | inl miss ↦ rw (miss, get_section) v
    | inr (e, found) ↦
        rw (found, get_section)
          (elim (Bool-cases (is_expired e now)) [
            | inl gone ↦ rw gone (drop_entry-IsCounted e found v)
            | inr kept ↦
                rw kept
                  (replace-IsCounted e _ _ found (touch_entry-count e now s.protected_entries) v)
          ])
  ]

  pub demote_section-IsCounted : IsCounted s → IsCounted (demote_section hash key s)
  unfolding demote_section fetch_sub
  demote_section-IsCounted v = elim (Option-cases (find hash s key)) [
    | inl miss ↦ rw (miss, demote_section) v
    | inr (e, found) ↦
        rw (found, demote_section)
          (elim (Bool-cases e.in_protected_segment) [
            | inl t ↦ rw t (replace-IsCounted e _ _ found (λ n h. ground arith) v)
            | inr f ↦ rw f v
          ])
  ]

  pub evict_section-IsCounted : IsCounted s → IsCounted (evict_section hash key s)
  unfolding evict_section
  evict_section-IsCounted v = elim (Option-cases (find hash s key)) [
    | inl miss ↦ rw (miss, evict_section) v
    | inr (e, found) ↦ rw (found, evict_section) (drop_entry-IsCounted e found v)
  ]

pub sweep_section-IsCounted :
    (i now : ℕ) (s : Store) → i < length s.stripes → IsCounted s → IsCounted (sweep_section i now s)
unfolding sweep_section entries protected_count
sweep_section-IsCounted i now s h v =
    let m = get_or s.stripes i [] in
    let rest = λ (f : ValueEntry → ℕ). sum_by-set (total_by f) s.stripes i [] [] h in
    let swept =
      sweep_entries-count now s.total_entries s.protected_entries (entries s - total_by one m)
        (protected_count s - total_by is_protected m) m (omega (arith, v.total, rest one))
        (omega (arith, v.protected, rest is_protected)) in
    let m' = (sweep_entries now m s.total_entries s.protected_entries).0 in
    record {
      nonempty = rw length-set v.nonempty;
      total = omega (arith, swept.0, rest one, sum_by-set (total_by one) s.stripes i m' [] h);
      protected = omega (
        arith,
        swept.1,
        rest is_protected,
        sum_by-set (total_by is_protected) s.stripes i m' [] h,
      );
    }

weigh-replicate :
    (f : ValueEntry → ℕ) (n : ℕ) → sum_by (total_by f) (replicate {A = Stripe} n []) ≡ 0
weigh-replicate f zero = refl
weigh-replicate f (suc n) = omega (arith, weigh-replicate f n)

pub new_store-IsCounted : (stripes max_entries : ℕ) → IsCounted (new_store stripes max_entries)
unfolding new_store entries protected_count
new_store-IsCounted stripes max_entries = record {
  nonempty = grind (arith, length-replicate);
  total = omega (arith, weigh-replicate one (if nat_eqb stripes 0 then 1 else stripes));
  protected =
      omega (arith, weigh-replicate is_protected (if nat_eqb stripes 0 then 1 else stripes));
}

pub entries-new_store : (stripes max_entries : ℕ) → entries (new_store stripes max_entries) ≡ 0
unfolding new_store entries
entries-new_store stripes max_entries =
    weigh-replicate one (if nat_eqb stripes 0 then 1 else stripes)

pub find-new_store :
    (hash : Bytes → ℕ) (stripes max_entries : ℕ) (key : Bytes)
    → find hash (new_store stripes max_entries) key ≡ none
unfolding new_store find stripe_for lookup
find-new_store hash stripes max_entries key = ap (lookup key) (
    get_or-replicate (if nat_eqb stripes 0 then 1 else stripes)
      (stripe_index_for_key hash (new_store stripes max_entries) key) [])
