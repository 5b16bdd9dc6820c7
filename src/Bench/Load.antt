-- ===== src/Bench/Load.antt =====
-- src/bench/cache_bench.cpp: the load that `main` puts on the store: a `Set` of each key, and then the
-- measured operations. The proofs are in the modules below.
pub mod Keeps
pub mod Hits
use distributed_cache.Prelude.{
  ℕ, zero, suc, ◌*◌, ◌%◌, ◌^◌, Bytes, codes, Bool, true, false, Option, none, some, List, [], ◌∷◌,
  ◌++◌, if◌then◌else◌,
}
use distributed_cache.Prelude.Decimal.{to_string}
use distributed_cache.Core.Store.{Store, new_store, get}
use distributed_cache.Core.Capacity.{set_entry}
use distributed_cache.Bench.Shares.{size_add}

-- `keys[i]`
unfoldable pub key_name : ℕ → Bytes
unfolding to_string
key_name i = codes "key_" ++ to_string i

-- What the generators and the clock give a measured operation: `key_dist(rng)`, whether it reads, and the
-- clock's readings at the touch and at the sweep.
pub record Draw : Type 0 where
  pub index : ℕ
  pub do_read : Bool
  pub touched_at : ℕ
  pub swept_at : ℕ

-- The code drops what `Get` returns; here it is kept, the last first.
pub record Measured : Type 0 where
  pub store : Store
  pub read_ops : ℕ
  pub write_ops : ℕ
  pub found : List (Option Bytes)

module _ (hash : Bytes → ℕ) where
  -- The first `Set` of the keys, `left` keys from `i` on, at the clock's readings. `none` means that a loop
  -- of the store ran out of fuel.
  unfoldable pub warm_up : (left i : ℕ) → (ℕ → ℕ × ℕ) → Store → Option Store
  unfolding key_name set_entry
  warm_up zero i times s = some s
  warm_up (suc left) i times s =
      elim (set_entry hash (key_name i) (codes "warm") none (times i).0 (times i).0 (times i).1 s) [
        | none ↦ none
        | some t ↦ warm_up left (suc i) times t
      ]

  unfoldable pub read_op : Draw → Measured → Measured
  unfolding key_name get size_add
  read_op d m =
      let (store, value) = get hash (key_name d.index) d.touched_at m.store in
      record m { store = store; read_ops = size_add m.read_ops 1; found = value ∷ m.found }

  unfoldable pub write_op : ℕ → Draw → Measured → Option Measured
  unfolding key_name set_entry size_add
  write_op i d m =
      elim (set_entry hash (key_name d.index) (codes "value_" ++ to_string i) none d.touched_at
        d.touched_at d.swept_at m.store) [
          | none ↦ none
          | some store ↦ some (record m { store = store; write_ops = size_add m.write_ops 1 })
        ]

  -- The measured loop, from the operation `i` on.
  unfoldable pub run_ops : ℕ → List Draw → Measured → Option Measured
  unfolding read_op write_op
  run_ops i [] m = some m
  run_ops i (d ∷ draws) m = elim (if d.do_read then some (read_op d m) else write_op i d m) [
    | none ↦ none
    | some next ↦ run_ops (suc i) draws next
  ]

  -- The store that is made, warm, and after the measured loop.
  unfoldable pub run_load : (stripes key_space : ℕ) → (ℕ → ℕ × ℕ) → List Draw → Option Measured
  unfolding new_store warm_up run_ops
  run_load stripes key_space times draws =
      elim (warm_up key_space 0 times (new_store stripes (key_space * 2 % 2 ^ 64))) [
        | none ↦ none
        | some warm ↦
            run_ops 0 draws (record { store = warm; read_ops = 0; write_ops = 0; found = [] })
      ]
