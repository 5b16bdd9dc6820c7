-- ===== src/Core/Capacity/Loops.antt =====
-- The loops of `EnforceCapacity` end, within the fuel that `Set` gives them, and what they leave.
use distributed_cache.Prelude.{
  ℕ, zero, suc, ◌+◌, ◌^◌, ◌<◌, ◌≤◌, ◌≡◌, refl, ◌∙◌, Bytes, true, ◌&&◌, none, some, [], arith,
  length, length-set, inl, inr, Bool-cases, ltb,
}
use distributed_cache.Core.Store.{
  Store, entries, protected_count, find, drop_entry, sweep_section, demote_section, evict_section,
}
use distributed_cache.Core.Store.Sizes.{
  protected_count-le-entries, entries-demote_section, entries-evict_section, entries-sweep_section,
}
use distributed_cache.Core.Store.Threads.{
  IsValid, Block, sweeping, demoting, evicting, Block-IsValid,
}
use distributed_cache.Core.Store.Within.{
  IsWithin, IsWithin-refl, IsWithin-trans, IsWithin-none, demote_section-IsWithin,
  evict_section-IsWithin, sweep_section-IsWithin,
}
use distributed_cache.Core.Capacity.{
  select_victim_key, choose_victim, sweep_from, demote_loop, evict_loop,
}
use distributed_cache.Core.Capacity.Victims.{protected_victim-Found, choose_victim-Found}

-- A valid store, within the counters' range, with nothing under the empty key, which
-- `SelectVictimKey` returns for want of a victim.
pub record IsReady (hash : Bytes → ℕ) (s : Store) : Type 0 where
  pub valid : IsValid hash s
  pub no_empty_key : find hash s [] ≡ none
  pub small : entries s < 2 ^ 64

-- `t` is what eviction made of `s`.
pub record IsTrimmed (hash : Bytes → ℕ) (t s : Store) : Type 0 where
  pub ready : IsReady hash t
  pub within : IsWithin hash t s
  pub same_max : t.max_entries ≡ s.max_entries
  pub fewer : entries t ≤ entries s

max-demote_section :
    (hash : Bytes → ℕ) (k : Bytes) (s : Store)
    → (demote_section hash k s).max_entries ≡ s.max_entries
unfolding demote_section
max-demote_section hash k s = ground arith

max-evict_section :
    (hash : Bytes → ℕ) (k : Bytes) (s : Store)
    → (evict_section hash k s).max_entries ≡ s.max_entries
unfolding evict_section drop_entry
max-evict_section hash k s = ground arith

length-sweep_section :
    (i now : ℕ) (s : Store) → length (sweep_section i now s).stripes ≡ length s.stripes
unfolding sweep_section
length-sweep_section i now s = rw length-set

max-sweep_section : (i now : ℕ) (s : Store) → (sweep_section i now s).max_entries ≡ s.max_entries
unfolding sweep_section
max-sweep_section i now s = refl

module _ {hash : Bytes → ℕ} where
  pub total_exact : {s : Store} → IsReady hash s → s.total_entries ≡ entries s
  total_exact r = omega (arith, r.valid.counted.total, r.small)

  protected_exact : (s : Store) → IsReady hash s → s.protected_entries ≡ protected_count s
  protected_exact s r =
      omega (arith, r.valid.counted.protected, r.small, protected_count-le-entries s)

  pub IsTrimmed-refl : {s : Store} → IsReady hash s → IsTrimmed hash s s
  IsTrimmed-refl {s} r = record {
    ready = r;
    within = IsWithin-refl s;
    same_max = refl;
    fewer = omega arith;
  }

  pub IsTrimmed-trans :
      {s t u : Store} → IsTrimmed hash u t → IsTrimmed hash t s → IsTrimmed hash u s
  IsTrimmed-trans a b = record {
    ready = a.ready;
    within = IsWithin-trans a.within b.within;
    same_max = a.same_max ∙ b.same_max;
    fewer = omega arith;
  }

  IsTrimmed-Block :
      (s t : Store)
      → IsReady hash s
      → Block hash s t
      → IsWithin hash t s
      → t.max_entries ≡ s.max_entries
      → entries t ≤ entries s
      → IsTrimmed hash t s
  IsTrimmed-Block s t r b w m f = record {
    ready = record {
      valid = Block-IsValid b r.valid;
      no_empty_key = IsWithin-none [] w r.no_empty_key;
      small = omega (arith, r.small, f);
    };
    within = w;
    same_max = m;
    fewer = f;
  }

  pub sweep_from-IsTrimmed :
      (left i now : ℕ) (s : Store)
      → i + left ≡ length s.stripes
      → IsReady hash s
      → IsTrimmed hash (sweep_from left i now s) s
  unfolding sweep_from
  sweep_from-IsTrimmed zero i now s h r = IsTrimmed-refl r
  sweep_from-IsTrimmed (suc left) i now s h r =
      let t = sweep_section i now s in
      let step =
        IsTrimmed-Block s t r (sweeping i now (omega arith))
          (sweep_section-IsWithin hash i now s (omega arith) r.valid.placed)
          (max-sweep_section i now s) (entries-sweep_section i now s (omega arith)) in
      IsTrimmed-trans
        (sweep_from-IsTrimmed left (suc i) now t (omega (arith, length-sweep_section i now s))
          step.ready)
        step

  protected_left :
      (s : Store)
      → IsReady hash s
      → ltb s.protected_entries_limit s.protected_entries ≡ true
      → 0 < protected_count s
  protected_left s r h = ground (arith, protected_exact s r)

  -- The first loop ends, and when it leaves the store over its capacity, no more entries are
  -- protected than the limit allows.
  pub demote_loop-IsTrimmed :
      (fuel : ℕ) (s : Store)
      → IsReady hash s
      → protected_count s < fuel
      → (t : Store) × (demote_loop hash fuel s ≡ some t)
        × IsTrimmed hash t s
        × (t.max_entries < t.total_entries → t.protected_entries ≤ t.protected_entries_limit)
  unfolding demote_loop
  demote_loop-IsTrimmed zero s r h = absurd (omega arith)
  demote_loop-IsTrimmed (suc fuel) s r h =
      let limit = ltb s.protected_entries_limit s.protected_entries in
      elim (Bool-cases (ltb s.max_entries s.total_entries && limit)) [
        | inl over ↦
            let victim = select_victim_key true s in
            let next = demote_section hash victim s in
            let pos = protected_left s r (ground arith) in
            let ((e, hit, prot), named) =
              protected_victim-Found hash s r.valid.placed r.no_empty_key pos in
            let nonempty = r.valid.counted.nonempty in
            let sizes = entries-demote_section hash s victim nonempty e hit prot in
            let step =
              IsTrimmed-Block s next r (demoting victim)
                (demote_section-IsWithin hash s victim nonempty) (max-demote_section hash victim s)
                (omega (arith, sizes.0)) in
            let (t, ends, trimmed, limited) =
              demote_loop-IsTrimmed fuel next step.ready (omega (arith, sizes.1)) in
            (t, rw (over, named) ends, IsTrimmed-trans trimmed step, limited)
        | inr done ↦ (s, rw done, IsTrimmed-refl r, ground arith)
      ]

  -- The second loop ends with the store within its capacity.
  pub evict_loop-IsTrimmed :
      (fuel : ℕ) (s : Store)
      → IsReady hash s
      → entries s < fuel
      → (t : Store) × (evict_loop hash fuel s ≡ some t)
        × IsTrimmed hash t s
        × (entries t ≤ t.max_entries)
  unfolding evict_loop
  evict_loop-IsTrimmed zero s r h = absurd (omega arith)
  evict_loop-IsTrimmed (suc fuel) s r h = elim (Bool-cases (ltb s.max_entries s.total_entries)) [
    | inl over ↦
        let victim = choose_victim s in
        let next = evict_section hash victim s in
        let (e, hit, named) =
          choose_victim-Found hash s r.valid.placed r.no_empty_key
            (ground (arith, total_exact r)) in
        let nonempty = r.valid.counted.nonempty in
        let size = entries-evict_section hash s victim nonempty e hit in
        let step =
          IsTrimmed-Block s next r (evicting victim)
            (evict_section-IsWithin hash s victim nonempty r.valid.placed)
            (max-evict_section hash victim s) (omega (arith, size)) in
        let (t, ends, trimmed, bounded) =
          evict_loop-IsTrimmed fuel next step.ready (omega (arith, size)) in
        (t, rw (over, named) ends, IsTrimmed-trans trimmed step, bounded)
    | inr fits ↦ (s, rw fits, IsTrimmed-refl r, ground (arith, total_exact r))
  ]
