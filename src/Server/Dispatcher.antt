-- ===== src/Server/Dispatcher.antt =====
-- src/server/command_dispatcher.hpp and .cpp: the commands over the store, and their replies. The proofs
-- are in Replies below.
pub mod Replies
pub mod Totality
use distributed_cache.Prelude.{
  ℕ, ◌-◌, Bytes, bytes_eqb, is_empty, codes, Bool, ◌&&◌, Option, none, some, List, [], ◌∷◌, ◌++◌,
  map, leb, if◌then◌else◌,
}
use distributed_cache.Core.Store.{Store, get}
use distributed_cache.Core.Capacity.{set_entry}
use distributed_cache.Protocol.Resp.{RespCommand, crlf, encode_bulk_string}

pub data CommandStatus : Type 0 where
  ok not_found error invalid_key unknown_command : CommandStatus

pub record CommandResult : Type 0 where
  pub status : CommandStatus
  pub value : Option Bytes
  pub message : Bytes

-- `std::toupper` in the C locale.
unfoldable pub to_upper : Bytes → Bytes
to_upper value = map (λ ch. if leb 97 ch && leb ch 122 then ch - 32 else ch) value

unfoldable pub error_result : CommandStatus → Bytes → CommandResult
error_result status message = record { status = status; value = none; message = message }

abbrev pub plain_result : CommandStatus → Option Bytes → CommandResult
plain_result status value = record { status = status; value = value; message = [] }

-- `std::hash<std::string>`, and the readings of the clock: by `TouchEntry` or `Get`, and by the sweep.
module _ (hash : Bytes → ℕ) (t_touch t_sweep : ℕ) where
  -- The two commands, after the count of their arguments; `none` would be a `Set` that does not end.
  unfoldable pub dispatch_set : Bytes → Bytes → Store → Option (Store × CommandResult)
  unfolding error_result
  dispatch_set key value s =
      if is_empty key
      then some (s, error_result invalid_key (codes "key must not be empty"))
      else elim (set_entry hash key value none t_touch t_touch t_sweep s) [
        | none ↦ none
        | some t ↦ some (t, plain_result ok none)
      ]

  unfoldable pub dispatch_get : Bytes → Store → Store × CommandResult
  unfolding error_result
  dispatch_get key s =
      if is_empty key
      then (s, error_result invalid_key (codes "key must not be empty"))
      else (let (t, value) = get hash key t_touch s in
          elim value [
            | none ↦ (t, plain_result not_found none)
            | some v ↦ (t, plain_result ok (some v))
          ])

  unfoldable pub run_set : List Bytes → Store → Option (Store × CommandResult)
  unfolding dispatch_set
  run_set (key ∷ value ∷ []) s = dispatch_set key value s
  run_set [] s = some (s, error_result error (codes "wrong number of arguments"))
  run_set (_ ∷ []) s = some (s, error_result error (codes "wrong number of arguments"))
  run_set (_ ∷ _ ∷ _ ∷ _) s = some (s, error_result error (codes "wrong number of arguments"))

  unfoldable pub run_get : List Bytes → Store → Store × CommandResult
  unfolding dispatch_get
  run_get (key ∷ []) s = dispatch_get key s
  run_get [] s = (s, error_result error (codes "wrong number of arguments"))
  run_get (_ ∷ _ ∷ _) s = (s, error_result error (codes "wrong number of arguments"))

  unfoldable pub dispatch_command : Bytes → List Bytes → Store → Option (Store × CommandResult)
  unfolding run_set run_get to_upper
  dispatch_command command args s =
      let name = to_upper command in
      if bytes_eqb name (codes "SET")
      then run_set args s
      else if bytes_eqb name (codes "GET")
      then some (run_get args s)
      else some (s, error_result unknown_command (codes "unknown command"))

-- The reply to a result.
unfoldable pub reply_to : CommandStatus → Option Bytes → Bytes → Bytes
reply_to ok none message = codes "+OK" ++ crlf
reply_to ok (some value) message = encode_bulk_string value
reply_to not_found value message = codes "$-1" ++ crlf
reply_to error value message = codes "-ERR " ++ message ++ crlf
reply_to invalid_key value message = codes "-ERR " ++ message ++ crlf
reply_to unknown_command value message = codes "-ERR " ++ message ++ crlf

unfoldable pub execute_command : (Bytes → ℕ) → ℕ → ℕ → RespCommand → Store → Option (Store × Bytes)
unfolding dispatch_command reply_to
execute_command hash t_touch t_sweep cmd s =
    elim (dispatch_command hash t_touch t_sweep cmd.name cmd.args s) [
      | none ↦ none
      | some (t, result) ↦ some (t, reply_to result.status result.value result.message)
    ]
