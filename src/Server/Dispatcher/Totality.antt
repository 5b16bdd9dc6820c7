-- ===== src/Server/Dispatcher/Totality.antt =====
-- Every command ends, and keeps the store ready for the next one.
use distributed_cache.Prelude.{
  ℕ, ◌+◌, ◌^◌, ◌<◌, ◌≤◌, Bytes, bytes_eqb, codes, ◌≡◌, refl, inl, inr, Option, none, some, List, [],
  ◌∷◌, arith, Bool-cases, Option-cases,
}
use distributed_cache.Core.Store.{Store, entries, get}
use distributed_cache.Core.Store.Sizes.{entries-get, entries-set_section}
use distributed_cache.Core.Capacity.Loops.{IsReady}
use distributed_cache.Core.Capacity.Guarantees.{get-IsReady, set_entry-IsTrimmed}
use distributed_cache.Protocol.Resp.{RespCommand}
use distributed_cache.Server.Dispatcher.{
  CommandResult, ok, not_found, plain_result, to_upper, reply_to, dispatch_set, dispatch_get,
  run_set, run_get, dispatch_command, execute_command,
}

-- What a command gives: a store that is ready for the next, with one entry more at most.
pub record Gives {ℓ} {R : Type ℓ} (hash : Bytes → ℕ) (s : Store) (outcome : Option (Store × R))
    : Type ℓ where
  pub store : Store
  pub result : R
  pub ends : outcome ≡ some (store, result)
  pub ready : IsReady hash store
  pub grows : entries store ≤ entries s + 1

abbrev refused :
    {hash : Bytes → ℕ} {s : Store}
    → IsReady hash s
    → (r : CommandResult) → Gives hash s (some (s, r))
refused {hash} {s} ready r = record {
  store = s;
  result = r;
  ends = refl;
  ready = ready;
  grows = omega arith;
}

module _ (hash : Bytes → ℕ) (t_touch t_sweep : ℕ) (s : Store) (r : IsReady hash s) where
  dispatch_set-Gives :
      (key value : Bytes)
      → entries s + 1 < 2 ^ 64
      → Gives hash s (dispatch_set hash t_touch t_sweep key value s)
  unfolding dispatch_set
  dispatch_set-Gives [] value h = refused r _
  dispatch_set-Gives (c ∷ cs) value h =
      let (t, ends, trimmed, _) =
        set_entry-IsTrimmed hash (c ∷ cs) value none t_touch t_touch t_sweep s (λ e. cc) r h in
      record {
        store = t;
        result = plain_result ok none;
        ends = rw (dispatch_set, ends) refl;
        ready = trimmed.ready;
        grows = omega (
          arith,
          trimmed.fewer,
          entries-set_section hash s (c ∷ cs) r.valid.counted.nonempty value none t_touch,
        );
      }

  dispatch_get-Gives : (key : Bytes) → Gives hash s (some (dispatch_get hash t_touch t_sweep key s))
  unfolding dispatch_get
  dispatch_get-Gives [] = refused r _
  dispatch_get-Gives (c ∷ cs) =
      let ready = get-IsReady hash (c ∷ cs) t_touch s (λ e. cc) r in
      let few = entries-get hash s (c ∷ cs) r.valid.counted.nonempty t_touch in
      elim (Option-cases (get hash (c ∷ cs) t_touch s).1) [
        | inl miss ↦ record {
          store = (get hash (c ∷ cs) t_touch s).0;
          result = plain_result not_found none;
          ends = rw (dispatch_get, miss) refl;
          ready = ready;
          grows = omega (arith, few);
        }
        | inr (v, found) ↦ record {
          store = (get hash (c ∷ cs) t_touch s).0;
          result = plain_result ok (some v);
          ends = rw (dispatch_get, found) refl;
          ready = ready;
          grows = omega (arith, few);
        }
      ]

  run_set-Gives :
      (args : List Bytes)
      → entries s + 1 < 2 ^ 64
      → Gives hash s (run_set hash t_touch t_sweep args s)
  unfolding run_set
  run_set-Gives (key ∷ value ∷ []) h = dispatch_set-Gives key value h
  run_set-Gives [] h = refused r _
  run_set-Gives (a ∷ []) h = refused r _
  run_set-Gives (a ∷ b ∷ c ∷ d) h = refused r _

  run_get-Gives : (args : List Bytes) → Gives hash s (some (run_get hash t_touch t_sweep args s))
  unfolding run_get
  run_get-Gives (key ∷ []) = dispatch_get-Gives key
  run_get-Gives [] = refused r _
  run_get-Gives (a ∷ b ∷ c) = refused r _

  pub dispatch_command-Gives :
      (command : Bytes) (args : List Bytes)
      → entries s + 1 < 2 ^ 64
      → Gives hash s (dispatch_command hash t_touch t_sweep command args s)
  unfolding dispatch_command
  dispatch_command-Gives command args h =
      elim (Bool-cases (bytes_eqb (to_upper command) (codes "SET"))) [
        | inl set ↦ rw (dispatch_command, set) (run_set-Gives args h)
        | inr other ↦ elim (Bool-cases (bytes_eqb (to_upper command) (codes "GET"))) [
          | inl found ↦ rw (dispatch_command, other, found) (run_get-Gives args)
          | inr unknown ↦ rw (dispatch_command, other, unknown) (refused r _)
        ]
      ]

  -- On a valid store with fewer than 2^64 - 1 entries and none under the empty key, every command ends
  -- with a reply, whatever its name and arguments; the store stays valid, without an entry under the
  -- empty key, and has one entry more at most.
  pub execute_command-Gives :
      (cmd : RespCommand)
      → entries s + 1 < 2 ^ 64
      → Gives hash s (execute_command hash t_touch t_sweep cmd s)
  unfolding execute_command
  execute_command-Gives cmd h =
      let g = dispatch_command-Gives cmd.name cmd.args h in
      record {
        store = g.store;
        result = reply_to g.result.status g.result.value g.result.message;
        ends = rw (execute_command, g.ends) refl;
        ready = g.ready;
        grows = g.grows;
      }
