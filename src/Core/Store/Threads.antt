-- ===== src/Core/Store/Threads.antt =====
-- Threads take the stripes' locks in any order. Between `SelectVictimKey` and the lock, and between
-- the two locks of `Get`, other threads run: a victim may be gone by then.
use distributed_cache.Prelude.{ℕ, ◌<◌, Bytes, ℤ, Option, length}
use distributed_cache.Core.Store.{
  Store, new_store, set_section, get_section, sweep_section, demote_section, evict_section,
}
use distributed_cache.Core.Store.Counters.{
  IsCounted, new_store-IsCounted, set_section-IsCounted, get_section-IsCounted,
  sweep_section-IsCounted, demote_section-IsCounted, evict_section-IsCounted,
}
use distributed_cache.Core.Store.Placement.{
  IsPlaced, new_store-IsPlaced, set_section-IsPlaced, get_section-IsPlaced, sweep_section-IsPlaced,
  demote_section-IsPlaced, evict_section-IsPlaced,
}

-- The counters count, and each key lies once, in its stripe.
pub record IsValid (hash : Bytes → ℕ) (s : Store) : Type 0 where
  pub counted : IsCounted s
  pub placed : IsPlaced hash s

-- One locked block of some thread, at whatever victim the thread chose before it took the lock.
pub data Block (hash : Bytes → ℕ) (s : Store) : Store → Type 0 where
  setting :
      (key value : Bytes) (expires_at : Option ℤ) (now : ℕ)
      → Block hash s (set_section hash key value expires_at now s)
  getting : (key : Bytes) (now : ℕ) → Block hash s (get_section hash key now s).0
  sweeping : (i now : ℕ) → i < length s.stripes → Block hash s (sweep_section i now s)
  demoting : (victim : Bytes) → Block hash s (demote_section hash victim s)
  evicting : (victim : Bytes) → Block hash s (evict_section hash victim s)

-- The locked blocks of any number of threads, in some order.
pub data Interleaving (hash : Bytes → ℕ) (s : Store) : Store → Type 0 where
  idle : Interleaving hash s s
  then_block : {t u : Store} → Block hash t u → Interleaving hash s t → Interleaving hash s u

pub Block-IsValid :
    {hash : Bytes → ℕ} {s t : Store} → Block hash s t → IsValid hash s → IsValid hash t
Block-IsValid {hash} {s} (setting key value expires_at now) v = record {
  counted = set_section-IsCounted hash s key v.counted.nonempty value expires_at now v.counted;
  placed = set_section-IsPlaced hash s key v.counted.nonempty value expires_at now v.placed;
}
Block-IsValid {hash} {s} (getting key now) v = record {
  counted = get_section-IsCounted hash s key v.counted.nonempty now v.counted;
  placed = get_section-IsPlaced hash s key v.counted.nonempty now v.placed;
}
Block-IsValid {hash} {s} (sweeping i now h) v = record {
  counted = sweep_section-IsCounted i now s h v.counted;
  placed = sweep_section-IsPlaced hash i now s h v.placed;
}
Block-IsValid {hash} {s} (demoting victim) v = record {
  counted = demote_section-IsCounted hash s victim v.counted.nonempty v.counted;
  placed = demote_section-IsPlaced hash s victim v.counted.nonempty v.placed;
}
Block-IsValid {hash} {s} (evicting victim) v = record {
  counted = evict_section-IsCounted hash s victim v.counted.nonempty v.counted;
  placed = evict_section-IsPlaced hash s victim v.counted.nonempty v.placed;
}

Interleaving-IsValid :
    {hash : Bytes → ℕ} {s t : Store} → Interleaving hash s t → IsValid hash s → IsValid hash t
Interleaving-IsValid idle v = v
Interleaving-IsValid (then_block b r) v = Block-IsValid b (Interleaving-IsValid r v)

-- Whatever locked blocks threads run on a new store, in any order and at victims that may be out of
-- date, the two counters hold the number of entries and of protected entries modulo 2^64, and every
-- entry lies in the stripe that its key hashes to, with no key twice.
pub Interleaving-new_store :
    (hash : Bytes → ℕ) (stripes max_entries : ℕ) {t : Store}
    → Interleaving hash (new_store stripes max_entries) t
    → IsValid hash t
Interleaving-new_store hash stripes max_entries r = Interleaving-IsValid r (record {
  counted = new_store-IsCounted stripes max_entries;
  placed = new_store-IsPlaced hash stripes max_entries;
})
