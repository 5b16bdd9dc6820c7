-- ===== src/Core/Tests.antt =====
-- Runs of the store on concrete inputs, after tests/core/concurrent_store_test.cpp, and the theorems
-- of src/core at such inputs.
use mathlib.Core.List.{Mem}
use mathlib.Core.List.Perm
use distributed_cache.Prelude.{
  ℕ, suc, ◌-◌, ◌^◌, if◌then◌else◌, ◌≤◌, ◌<◌, ◌≡◌, ◌≢◌, ◌⊎◌, refl, pos, Bytes, bytes_key, bytes_ltb,
  codes, Bool, true, false, Option, none, some, List, [], ◌∷◌, arith,
}
use distributed_cache.Prelude.Map.{lookup, insert, erase}
use distributed_cache.Core.Eviction.{EvictionCandidate, score, score_ltb, select_victim}
use distributed_cache.Core.Eviction.Order.{NotBelow, select_victim_least, select_victim-perm}
use distributed_cache.Core.Entry.{is_expired, add_ms, touch_entry}
use distributed_cache.Core.Store.{
  Store, new_store, entries, sweep_section, find, stripe_for, with_stripe, set_section, drop_entry,
  get_section, get, demote_section, evict_section,
}
use distributed_cache.Core.Store.Threads.{
  IsValid, idle, then_block, setting, evicting, Interleaving-new_store,
}
use distributed_cache.Core.Capacity.{
  sweep_from, candidates, select_victim_key, choose_victim, demote_loop, evict_loop,
  evict_until_fits, enforce_capacity, set_entry,
}
use distributed_cache.Core.Capacity.Loops.{IsReady}
use distributed_cache.Core.Capacity.Guarantees.{set_entry_bounded, expiry}
use distributed_cache.Core.Capacity.RoundTrip.{has_come, get-set_entry, get-set_entry_bounded}

-- A hash for the runs: the length of the key.
abbrev test_hash : Bytes → ℕ
test_hash [] = 0
test_hash (c ∷ cs) = c

data Call : Type 0 where
  sets : Bytes → Call
  gets : Bytes → Call

-- The calls in order, each a nanosecond after the other; every `Set` writes one value.
run : ℕ → Store → List Call → Option Store
unfolding bytes_ltb score score_ltb set_entry set_section find stripe_for with_stripe touch_entry
    insert lookup erase get get_section drop_entry enforce_capacity sweep_from sweep_section
    evict_until_fits demote_loop evict_loop demote_section evict_section select_victim_key
    choose_victim candidates select_victim entries is_expired new_store add_ms
run now s [] = some s
run now s (sets k ∷ cs) = elim (set_entry test_hash k (codes "v") none now now now s) [
  | none ↦ none
  | some t ↦ run (suc now) t cs
]
run now s (gets k ∷ cs) = run (suc now) (get test_hash k now s).0 cs

holds : Option Store → Bytes → Bool
unfolding run
holds none k = false
holds (some s) k = elim (find test_hash s k) [ none ↦ false | some _ ↦ true ]

-- `DemotesProtectedEntriesUnderPressure`
abbrev pressed : Option Store
unfolding run
pressed = run 1 (new_store 1 3) (
    sets (codes "a")
    ∷ sets (codes "b")
    ∷ sets (codes "c")
    ∷ gets (codes "a")
    ∷ gets (codes "b")
    ∷ gets (codes "b")
    ∷ sets (codes "d")
    ∷ sets (codes "e")
    ∷ [])

demotes_under_pressure : (holds pressed (codes "a") ≡ false) × (holds pressed (codes "b") ≡ true)
unfolding holds run
demotes_under_pressure = (refl, refl)

-- With a capacity of one, a key that was read once keeps every later key out.
pinned :
    holds
      (run 1 (new_store 4 1) (sets (codes "a") ∷ gets (codes "a") ∷ sets (codes "b") ∷ []))
      (codes "b")
    ≡ false
unfolding holds run
pinned = refl

abbrev older : EvictionCandidate
older = record { key = codes "k"; lfu_count = 1; last_touch_ns = 5; in_protected_segment = false }

abbrev newer : EvictionCandidate
newer = record { key = codes "a"; lfu_count = 1; last_touch_ns = 9; in_protected_segment = false }

select_victim_least_example :
    (v : EvictionCandidate) × (select_victim (newer ∷ older ∷ []) ≡ v.key)
    × Mem v (newer ∷ older ∷ [])
    × ((x : EvictionCandidate) → Mem x (newer ∷ older ∷ []) → NotBelow x v)
select_victim_least_example = select_victim_least newer (older ∷ [])

select_victim-perm_example : select_victim (newer ∷ older ∷ []) ≡ select_victim (older ∷ newer ∷ [])
select_victim-perm_example = select_victim-perm _ _ (Perm.swap older newer [])

-- Two threads write, and a third evicts a key that it chose before.
abbrev written_twice : Store
written_twice = evict_section test_hash (codes "a") (
    set_section test_hash (codes "b") (codes "w") none 2
      (set_section test_hash (codes "a") (codes "v") none 1 (new_store 2 1)))

Interleaving-new_store_example : IsValid test_hash written_twice
Interleaving-new_store_example = Interleaving-new_store test_hash 2 1 (
    then_block (evicting (codes "a")) (
      then_block (setting (codes "b") (codes "w") none 2)
        (then_block (setting (codes "a") (codes "v") none 1) idle)))

fresh-IsReady :
    (stripes max_entries : ℕ)
    → find test_hash (new_store stripes max_entries) [] ≡ none
    → entries (new_store stripes max_entries) < 2 ^ 64
    → IsReady test_hash (new_store stripes max_entries)
fresh-IsReady stripes max_entries missing few = record {
  valid = Interleaving-new_store test_hash stripes max_entries idle;
  no_empty_key = missing;
  small = few;
}

small_cache : IsReady test_hash (new_store 2 1)
unfolding find stripe_for lookup new_store entries
small_cache = fresh-IsReady 2 1 refl (omega arith)

a_named : codes "a" ≢ []
a_named e = cc

set_entry_bounded_example :
    (t : Store) × (set_entry test_hash (codes "a") (codes "v") (some (pos 5)) 1 2 3 (new_store 2 1)
      ≡ some t)
    × IsReady test_hash t
    × (t.max_entries ≡ (new_store 2 1).max_entries)
    × (0 < (new_store 2 1).max_entries → entries t ≤ (new_store 2 1).max_entries)
unfolding new_store entries
set_entry_bounded_example =
    set_entry_bounded test_hash (codes "a") (codes "v") (some (pos 5)) 1 2 3 (new_store 2 1) a_named
      small_cache (omega arith)

get-set_entry_example :
    (t : Store) × (set_entry test_hash (codes "a") (codes "v") (some (pos 5)) 1 2 3 (new_store 2 0)
      ≡ some t)
    × ((later : ℕ)
        → (get test_hash (codes "a") later t).1
          ≡ (if has_come (some (pos 5000001)) later then none else some (codes "v")))
    × ((j : Bytes) (later : ℕ)
        → codes "a" ≢ j
        → (get test_hash j later t).1 ≡ (get test_hash j later (new_store 2 0)).1)
unfolding new_store add_ms
get-set_entry_example =
    get-set_entry test_hash (codes "a") (codes "v") (some (pos 5)) 1 2 3 (new_store 2 0) refl
      (omega arith) (omega arith) (omega arith, omega arith)

-- The longest time to live wraps around: the entry is expired at once.
longest_ttl : expiry (some (pos (2 ^ 63 - 1))) 5000000 ≡ some (pos 4000000)
unfolding add_ms
longest_ttl = refl

get-set_entry_bounded_example :
    (t : Store) × (set_entry test_hash (codes "a") (codes "v") none 1 2 3 (new_store 2 1) ≡ some t)
    × ((later : ℕ)
        → ((get test_hash (codes "a") later t).1 ≡ none)
          ⊎ ((get test_hash (codes "a") later t).1 ≡ some (codes "v")))
    × ((j : Bytes) (later : ℕ)
        → codes "a" ≢ j
        → ((get test_hash j later t).1 ≡ none)
          ⊎ ((get test_hash j later t).1 ≡ (get test_hash j later (new_store 2 1)).1))
unfolding new_store entries
get-set_entry_bounded_example =
    get-set_entry_bounded test_hash (codes "a") (codes "v") none 1 2 3 (new_store 2 1) a_named
      small_cache (omega arith)
