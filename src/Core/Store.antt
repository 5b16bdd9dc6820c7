-- ===== src/Core/Store.antt =====
-- src/core/concurrent_store.hpp and .cpp: the striped store. Each block of the code that holds one
-- stripe's exclusive lock is one function, a `…_section`. `EnforceCapacity` and `Set` are composed of
-- them in Core/Capacity.antt. The proofs are in the modules below.
pub mod Counters
pub mod Placement
pub mod Threads
pub mod Reads
pub mod Sizes
pub mod Within
use distributed_cache.Prelude.{
  ℕ, ◌/◌, ◌%◌, ℤ, Bytes, bytes_key, false, ◌&&◌, Option, none, some, List, [], ◌∷◌, length, get_or,
  set, replicate, sum_by, ltb, nat_eqb, if◌then◌else◌,
}
use distributed_cache.Prelude.Map.{Map, lookup, insert, erase, total_by}
use distributed_cache.Core.Entry.{ValueEntry, is_expired, fetch_add, fetch_sub, to_ns, touch_entry}

abbrev pub Stripe : Type 0
Stripe = Map Bytes ValueEntry

pub record Store : Type 0 where
  pub stripes : List Stripe
  pub max_entries : ℕ
  pub protected_entries_limit : ℕ
  pub total_entries : ℕ
  pub protected_entries : ℕ

-- The constructor.
unfoldable pub new_store : ℕ → ℕ → Store
new_store stripes max_entries = record {
  stripes = replicate (if nat_eqb stripes 0 then 1 else stripes) [];
  max_entries = max_entries;
  protected_entries_limit =
      if ltb 0 max_entries then (if ltb 1 (max_entries / 2) then max_entries / 2 else 1) else 0;
  total_entries = 0;
  protected_entries = 0;
}

-- The number of entries, and how many of them are protected.
unfoldable pub entries : Store → ℕ
entries s = sum_by (total_by (λ e. 1)) s.stripes

unfoldable pub protected_count : Store → ℕ
protected_count s = sum_by (total_by (λ e. if e.in_protected_segment then 1 else 0)) s.stripes

-- The body of the sweep's inner loop, over the entries of one stripe, with both counters.
unfoldable pub sweep_entries : ℕ → Stripe → ℕ → ℕ → Stripe × ℕ × ℕ
unfolding is_expired fetch_sub
sweep_entries now [] total protected = ([], total, protected)
sweep_entries now ((k, e) ∷ m) total protected =
    let gone = is_expired e now in
    let (m', total', protected') =
      sweep_entries now m (if gone then fetch_sub total else total)
        (if gone && e.in_protected_segment then fetch_sub protected else protected) in
    (if gone then m' else (k, e) ∷ m', total', protected')

unfoldable pub sweep_section : ℕ → ℕ → Store → Store
unfolding sweep_entries
sweep_section i now s =
    let (m, total, protected) =
      sweep_entries now (get_or s.stripes i []) s.total_entries s.protected_entries in
    record s { stripes = set s.stripes i m; total_entries = total; protected_entries = protected }

-- `std::hash<std::string>`.
module _ (hash : Bytes → ℕ) where
  unfoldable pub stripe_index_for_key : Store → Bytes → ℕ
  stripe_index_for_key s key = hash key % length s.stripes

  unfoldable pub stripe_for : Store → Bytes → Stripe
  unfolding stripe_index_for_key
  stripe_for s key = get_or s.stripes (stripe_index_for_key s key) []

  -- The stripes after a write to the stripe of a key.
  unfoldable pub with_stripe : Store → Bytes → Stripe → List Stripe
  unfolding stripe_index_for_key
  with_stripe s key m = set s.stripes (stripe_index_for_key s key) m

  -- `stripe.map.find(key)`
  unfoldable pub find : Store → Bytes → Option ValueEntry
  unfolding stripe_for
  find s key = lookup key (stripe_for s key)

  -- The locked block of `Set`.
  unfoldable pub set_section : Bytes → Bytes → Option ℤ → ℕ → Store → Store
  set_section key value expires_at now s = elim (find s key) [
    | some old ↦
        let (e, protected) =
          touch_entry (record old { value = value; expires_at = expires_at }) now
            s.protected_entries in
        record s {
          stripes = with_stripe s key (insert key e (stripe_for s key));
          protected_entries = protected;
        }
    | none ↦ record s {
      stripes = with_stripe s key (
          insert key
            (record {
              value = value;
              expires_at = expires_at;
              lfu_count = 1;
              last_touch_ns = to_ns now;
              in_protected_segment = false;
            })
            (stripe_for s key));
      total_entries = fetch_add s.total_entries;
    }
  ]

  -- The removal of an entry that was found: in `Get`, and in the eviction loop.
  unfoldable pub drop_entry : Bytes → ValueEntry → Store → Store
  drop_entry key e s = record s {
    stripes = with_stripe s key (erase key (stripe_for s key));
    protected_entries =
        if e.in_protected_segment then fetch_sub s.protected_entries else s.protected_entries;
    total_entries = fetch_sub s.total_entries;
  }

  -- The block of `Get` under the exclusive lock.
  unfoldable pub get_section : Bytes → ℕ → Store → Store × Option Bytes
  get_section key now s = elim (find s key) [
    | none ↦ (s, none)
    | some e ↦
        let (e', protected) = touch_entry e now s.protected_entries in
        if is_expired e now then (drop_entry key e s, none) else (
          record s {
            stripes = with_stripe s key (insert key e' (stripe_for s key));
            protected_entries = protected;
          },
          some e'.value,
        )
  ]

  -- `Get`: what is not found under the shared lock is not looked for again.
  unfoldable pub get : Bytes → ℕ → Store → Store × Option Bytes
  get key now s = elim (find s key) [ none ↦ (s, none) | some _ ↦ get_section key now s ]

  -- A round of the first loop of `EnforceCapacity`, under the lock.
  unfoldable pub demote_section : Bytes → Store → Store
  demote_section victim s = elim (find s victim) [
    | none ↦ s
    | some e ↦
        if e.in_protected_segment
        then record s {
          stripes = with_stripe s victim (
              insert victim (record e { in_protected_segment = false; lfu_count = 1 })
                (stripe_for s victim));
          protected_entries = fetch_sub s.protected_entries;
        }
        else s
  ]

  -- A round of the second loop, under the lock.
  unfoldable pub evict_section : Bytes → Store → Store
  evict_section victim s = elim (find s victim) [ none ↦ s | some e ↦ drop_entry victim e s ]
