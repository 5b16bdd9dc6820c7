-- ===== src/Core/Capacity.antt =====
-- src/core/concurrent_store.cpp: `SelectVictimKey`, `EnforceCapacity` and `Set`. The proofs are in the
-- modules below.
pub mod Victims
pub mod Loops
pub mod Guarantees
pub mod RoundTrip
pub mod Lasting
use distributed_cache.Prelude.{
  is_empty, ℕ, zero, suc, ℤ, Bytes, Bool, true, false, not, ◌&&◌, Option, none, some, List, [], ◌∷◌,
  ◌++◌, length, ltb, leb, nat_eqb, if◌then◌else◌,
}
use distributed_cache.Core.Eviction.{EvictionCandidate, select_victim}
use distributed_cache.Core.Entry.{ValueEntry, add_ms}
use distributed_cache.Core.Store.{
  Stripe, Store, entries, sweep_section, set_section, demote_section, evict_section,
}

-- The sweep's outer loop: `left` stripes from index `i` on.
unfoldable pub sweep_from : ℕ → ℕ → ℕ → Store → Store
sweep_from zero i now s = s
sweep_from (suc left) i now s = sweep_from left (suc i) now (sweep_section i now s)

unfoldable pub candidate : Bytes → ValueEntry → EvictionCandidate
candidate k e = record {
  key = k;
  lfu_count = e.lfu_count;
  last_touch_ns = e.last_touch_ns;
  in_protected_segment = e.in_protected_segment;
}

-- The candidates of one stripe, and of all stripes.
unfoldable pub candidates_in : Bool → Stripe → List EvictionCandidate
unfolding candidate
candidates_in segment [] = []
candidates_in segment ((k, e) ∷ m) =
    let rest = candidates_in segment m in
    let mine = if e.in_protected_segment then segment else not segment in
    if mine then candidate k e ∷ rest else rest

unfoldable pub candidates : Bool → List Stripe → List EvictionCandidate
unfolding candidates_in
candidates segment [] = []
candidates segment (m ∷ ms) = candidates_in segment m ++ candidates segment ms

unfoldable pub select_victim_key : Bool → Store → Bytes
select_victim_key segment s = select_victim (candidates segment s.stripes)

-- The second loop's choice: an unprotected entry, or else a protected one.
unfoldable pub choose_victim : Store → Bytes
choose_victim s =
    let victim = select_victim_key false s in
    if is_empty victim then select_victim_key true s else victim

-- `std::hash<std::string>`.
module _ (hash : Bytes → ℕ) where
  -- The loops, on fuel: `none` means that the fuel ran out.
  unfoldable pub demote_loop : ℕ → Store → Option Store
  demote_loop zero s = none
  demote_loop (suc fuel) s =
      let victim = select_victim_key true s in
      let rest = demote_loop fuel (demote_section hash victim s) in
      if ltb s.max_entries s.total_entries && ltb s.protected_entries_limit s.protected_entries
      then (if is_empty victim then some s else rest)
      else some s

  unfoldable pub evict_loop : ℕ → Store → Option Store
  evict_loop zero s = none
  evict_loop (suc fuel) s =
      let victim = choose_victim s in
      let rest = evict_loop fuel (evict_section hash victim s) in
      if ltb s.max_entries s.total_entries
      then (if is_empty victim then some s else rest)
      else some s

  -- The part of `EnforceCapacity` after the sweep.
  unfoldable pub evict_until_fits : ℕ → Store → Option Store
  evict_until_fits fuel s = elim (demote_loop fuel s) [ none ↦ none | some t ↦ evict_loop fuel t ]

  unfoldable pub enforce_capacity : ℕ → ℕ → Store → Option Store
  enforce_capacity fuel now s =
      let swept = sweep_from (length s.stripes) 0 now s in
      if nat_eqb s.max_entries 0
      then some s
      else if leb s.total_entries s.max_entries
      then some s
      else if leb swept.total_entries swept.max_entries
      then some swept
      else evict_until_fits fuel swept

  -- `Set`, with the three readings of the clock: for the expiry, for the touch, for the sweep.
  -- One round more than there are entries is fuel enough.
  unfoldable pub set_entry : Bytes → Bytes → Option ℤ → ℕ → ℕ → ℕ → Store → Option Store
  set_entry key value ttl t_expiry t_touch t_sweep s =
      let expires_at = elim ttl as (λ _. Option ℤ) [
        | none ↦ none
        | some ms ↦ some (add_ms t_expiry ms)
      ] in
      let written = set_section hash key value expires_at t_touch s in
      enforce_capacity (suc (entries written)) t_sweep written
