-- ===== src/Server/Dispatcher/Replies.antt =====
-- What the clients are told, over the wire.
use distributed_cache.Prelude.{
  ℕ, Bytes, bytes_eqb, codes, ◌≡◌, inl, inr, refl, Bool, true, false, none, some, List, [], ◌∷◌,
  arith, Bool-cases, Option-cases,
}
use distributed_cache.Core.Store.{Store, get}
use distributed_cache.Core.Capacity.{set_entry}
use distributed_cache.Server.Dispatcher.{
  CommandStatus, ok, not_found, error, invalid_key, unknown_command, CommandResult, to_upper,
  error_result, dispatch_set, dispatch_get, run_set, run_get, dispatch_command,
}

-- Whether the command failed.
abbrev pub is_failure : CommandStatus → Bool
is_failure ok = false
is_failure not_found = false
is_failure error = true
is_failure invalid_key = true
is_failure unknown_command = true

module _ (hash : Bytes → ℕ) (t_touch t_sweep : ℕ) where
  dispatch_set-is_failure :
      (key value : Bytes) (s t : Store) (r : CommandResult)
      → dispatch_set hash t_touch t_sweep key value s ≡ some (t, r)
      → is_failure r.status ≡ true
      → t ≡ s
  unfolding dispatch_set error_result
  dispatch_set-is_failure key value s t r e f =
      elim (Option-cases (set_entry hash key value none t_touch t_touch t_sweep s)) [
        | inl out ↦ ground (arith, e, f, out)
        | inr (u, found) ↦ ground (arith, e, f, found)
      ]

  dispatch_get-is_failure :
      (key : Bytes) (s : Store)
      → is_failure (dispatch_get hash t_touch t_sweep key s).1.status ≡ true
      → (dispatch_get hash t_touch t_sweep key s).0 ≡ s
  unfolding dispatch_get error_result
  dispatch_get-is_failure key s f = elim (Option-cases (get hash key t_touch s).1) [
    | inl out ↦ ground (arith, f, out)
    | inr (v, found) ↦ ground (arith, f, found)
  ]

  run_set-is_failure :
      (args : List Bytes) (s t : Store) (r : CommandResult)
      → run_set hash t_touch t_sweep args s ≡ some (t, r)
      → is_failure r.status ≡ true
      → t ≡ s
  unfolding run_set
  run_set-is_failure (key ∷ value ∷ []) s t r e f = dispatch_set-is_failure key value s t r e f
  run_set-is_failure [] s t r e f = ground (arith, e)
  run_set-is_failure (a ∷ []) s t r e f = ground (arith, e)
  run_set-is_failure (a ∷ b ∷ c ∷ d) s t r e f = ground (arith, e)

  run_get-is_failure :
      (args : List Bytes) (s : Store)
      → is_failure (run_get hash t_touch t_sweep args s).1.status ≡ true
      → (run_get hash t_touch t_sweep args s).0 ≡ s
  unfolding run_get
  run_get-is_failure (key ∷ []) s f = dispatch_get-is_failure key s f
  run_get-is_failure [] s f = refl
  run_get-is_failure (a ∷ b ∷ c) s f = refl

  -- A command that fails, whatever its name and its arguments, leaves the store as it was.
  pub dispatch_command-is_failure :
      (command : Bytes) (args : List Bytes) (s t : Store) (r : CommandResult)
      → dispatch_command hash t_touch t_sweep command args s ≡ some (t, r)
      → is_failure r.status ≡ true
      → t ≡ s
  unfolding dispatch_command
  dispatch_command-is_failure command args s t r e f =
      elim (Bool-cases (bytes_eqb (to_upper command) (codes "SET"))) [
        | inl set ↦ run_set-is_failure args s t r (ground (arith, e, set)) f
        | inr other ↦ elim (Bool-cases (bytes_eqb (to_upper command) (codes "GET"))) [
          | inl found ↦ ground (arith, e, f, other, found, run_get-is_failure args s)
          | inr unknown ↦ ground (arith, e, other, unknown)
        ]
      ]
