-- ===== src/Bench/Load/Hits.antt =====
-- Every read of the benchmark finds its key.
use distributed_cache.Prelude.{
  ℕ, zero, suc, ◌+◌, ◌*◌, ◌%◌, ◌^◌, ◌<◌, ◌≤◌, Bytes, codes, ◌≡◌, ◌≢◌, refl, ap, ◌∙◌, Bool, Option,
  none, some, List, [], ◌∷◌, ◌++◌, length, All, arith, Bool-cases, inl, inr, if◌then◌else◌,
}
use mathlib.Core.Path.{subst}
use distributed_cache.Prelude.Decimal.{to_string}
use distributed_cache.Core.Store.{Store, new_store, entries}
use distributed_cache.Core.Store.Counters.{entries-new_store, find-new_store, new_store-IsCounted}
use distributed_cache.Core.Store.Placement.{new_store-IsPlaced}
use distributed_cache.Bench.Shares.{size_add}
use distributed_cache.Bench.Shares.Rounds.{size_add-exact}
use distributed_cache.Bench.Load.{
  key_name, Draw, Measured, warm_up, read_op, write_op, run_ops, run_load,
}
use distributed_cache.Bench.Load.Keeps.{Keeps, set_entry_next, set_entry_again, get_again}

key_name_named : (i : ℕ) → key_name i ≢ []
unfolding key_name
key_name_named i e = cc

-- What holds while the load runs, with room for all keys.
record Warm (hash : Bytes → ℕ) (n limit : ℕ) (s : Store) : Type 0 where
  keeps : Keeps hash key_name n s
  same_max : s.max_entries ≡ limit

-- After `done` operations.
pub record IsHit (hash : Bytes → ℕ) (key_space done : ℕ) (m : Measured) : Type 0 where
  pub keeps : Keeps hash key_name key_space m.store
  pub limit : m.store.max_entries ≡ key_space * 2
  pub counted : m.read_ops + m.write_ops ≡ done
  pub found_all : All (λ value. value ≢ none) m.found

module _ (hash : Bytes → ℕ) (key_space : ℕ) (fits : key_space * 2 < 2 ^ 64) where
  warm_up-Warm :
      (left i : ℕ) (times : ℕ → ℕ × ℕ) (s : Store)
      → i + left ≡ key_space
      → Warm hash i (key_space * 2) s
      → (t : Store) × (warm_up hash left i times s ≡ some t) × Warm hash key_space (key_space * 2) t
  unfolding warm_up
  warm_up-Warm zero i times s h w =
      (s, refl, subst (λ n. Warm hash n (key_space * 2) s) (omega arith) w)
  warm_up-Warm (suc left) i times s h w =
      let (t, ends, keeps, same) =
        set_entry_next hash key_name key_name_named i (codes "warm") (times i).0 (times i).0
          (times i).1 s w.keeps (omega (arith, w.same_max)) (omega arith) in
      let (u, ends', warm) =
        warm_up-Warm left (suc i) times t (omega arith)
          (record { keeps = keeps; same_max = same ∙ w.same_max }) in
      (u, rw (warm_up, ends) ends', warm)

  read_op-IsHit :
      (done : ℕ) (d : Draw) (m : Measured)
      → d.index < key_space
      → suc done < 2 ^ 64
      → IsHit hash key_space done m
      → IsHit hash key_space (suc done) (read_op hash d m)
  unfolding read_op
  read_op-IsHit done d m b small h =
      let (there, keeps, same) =
        get_again hash key_name key_name_named key_space d.index d.touched_at m.store h.keeps b in
      record {
        keeps = keeps;
        limit = same ∙ h.limit;
        counted = omega (arith, h.counted, size_add-exact m.read_ops 1 (omega (arith, h.counted)));
        found_all = (there, h.found_all);
      }

  write_op-IsHit :
      (done i : ℕ) (d : Draw) (m : Measured)
      → d.index < key_space
      → suc done < 2 ^ 64
      → IsHit hash key_space done m
      → (next : Measured) × (write_op hash i d m ≡ some next) × IsHit hash key_space (suc done) next
  unfolding write_op
  write_op-IsHit done i d m b small h =
      let (t, ends, keeps, same) =
        set_entry_again hash key_name key_name_named key_space d.index
          (codes "value_" ++ to_string i) d.touched_at d.touched_at d.swept_at m.store h.keeps b
          (omega (arith, h.limit)) (omega arith) in
      (
        record m { store = t; write_ops = size_add m.write_ops 1 },
        rw (write_op, ends) refl,
        record {
          keeps = keeps;
          limit = same ∙ h.limit;
          counted =
              omega (arith, h.counted, size_add-exact m.write_ops 1 (omega (arith, h.counted)));
          found_all = h.found_all;
        },
      )

  counted_as :
      {a b : ℕ} {m : Measured} → a ≡ b → IsHit hash key_space a m → IsHit hash key_space b m
  counted_as {a} {b} {m} e h = subst (λ n. IsHit hash key_space n m) e h

  run_ops_step :
      (d : Draw) (draws : List Draw) (i : ℕ) (m next : Measured)
      → (if d.do_read then some (read_op hash d m) else write_op hash i d m) ≡ some next
      → run_ops hash i (d ∷ draws) m ≡ run_ops hash (suc i) draws next
  unfolding run_ops
  run_ops_step d draws i m next e = rw (run_ops, e) refl

  -- An operation, of either kind.
  run_op-IsHit :
      (d : Draw) (done : ℕ) (m : Measured)
      → d.index < key_space
      → suc done < 2 ^ 64
      → IsHit hash key_space done m
      → (next : Measured) × ((if d.do_read then some (read_op hash d m) else write_op hash done d m)
          ≡ some next)
        × IsHit hash key_space (suc done) next
  run_op-IsHit d done m b small h =
      let pick : Bool → Option Measured =
        λ c. if c then some (read_op hash d m) else write_op hash done d m in
      elim (Bool-cases d.do_read) [
        | inl reads ↦ (read_op hash d m, ap pick reads, read_op-IsHit done d m b small h)
        | inr writes ↦
            let (next, step, hit) = write_op-IsHit done done d m b small h in
            (next, ap pick writes ∙ step, hit)
      ]

  run_ops-IsHit :
      (draws : List Draw) (done : ℕ) (m : Measured)
      → All (λ d. d.index < key_space) draws
      → done + length draws < 2 ^ 64
      → IsHit hash key_space done m
      → (last : Measured) × (run_ops hash done draws m ≡ some last)
        × IsHit hash key_space (done + length draws) last
  unfolding run_ops
  run_ops-IsHit [] done m a small h = (m, refl, counted_as (omega arith) h)
  run_ops-IsHit (d ∷ draws) done m a small h =
      let (next, step, hit') = run_op-IsHit d done m a.0 (omega arith) h in
      let (last, ends, hit) = run_ops-IsHit draws (suc done) next a.1 (omega arith) hit' in
      (last, run_ops_step d draws done m next step ∙ ends, counted_as (omega arith) hit)

  new_store-Warm :
      (stripes : ℕ) → Warm hash 0 (key_space * 2) (new_store stripes (key_space * 2 % 2 ^ 64))
  unfolding new_store
  new_store-Warm stripes =
      let limit = key_space * 2 % 2 ^ 64 in
      record {
        keeps = record {
          ready = record {
            valid = record {
              counted = new_store-IsCounted stripes limit;
              placed = new_store-IsPlaced hash stripes limit;
            };
            no_empty_key = find-new_store hash stripes limit [];
            small = omega (arith, entries-new_store stripes limit);
          };
          few = omega (arith, entries-new_store stripes limit);
          kept = λ i b. absurd (omega arith);
        };
        same_max = omega arith;
      }

-- The load of the benchmark, on a store of any number of stripes, with twice as many entries allowed as
-- there are keys, both below 2^64, and with any fewer than 2^64 operations on these keys, at any times:
-- every `Set` ends, each `Get` of the measured loop finds a value, the operations that are counted as
-- reads and as writes are as many as there are, and in the end there are no more entries than keys. So
-- the store evicts nothing while it is measured, and the benchmark measures no miss.
pub run_load-IsHit :
    (hash : Bytes → ℕ) (stripes key_space : ℕ) (times : ℕ → ℕ × ℕ) (draws : List Draw)
    → key_space * 2 < 2 ^ 64
    → length draws < 2 ^ 64
    → All (λ d. d.index < key_space) draws
    → (last : Measured) × (run_load hash stripes key_space times draws ≡ some last)
      × All (λ value. value ≢ none) last.found
      × (last.read_ops + last.write_ops ≡ length draws)
      × (entries last.store ≤ key_space)
unfolding run_load
run_load-IsHit hash stripes key_space times draws fits small drawn =
    let first = new_store stripes (key_space * 2 % 2 ^ 64) in
    let (warm, ends, w) =
      warm_up-Warm hash key_space fits key_space 0 times first (omega arith)
        (new_store-Warm hash key_space fits stripes) in
    let started : Measured = record { store = warm; read_ops = 0; write_ops = 0; found = [] } in
    let (last, ends', hit) =
      run_ops-IsHit hash key_space fits draws 0 started drawn (omega arith)
        (record { keeps = w.keeps; limit = w.same_max; counted = refl; found_all = tt }) in
    (last, rw (run_load, ends) ends', hit.found_all, omega (arith, hit.counted), hit.keeps.few)
