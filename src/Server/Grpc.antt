-- ===== src/Server/Grpc.antt =====
-- src/protocol/grpc/cache_service.hpp and .cpp: the handlers of the gRPC service over the dispatcher. The
-- messages are those of proto/cache.proto. The proofs are in Agreement below.
pub mod Agreement
use distributed_cache.Prelude.{
  ℕ, Bytes, codes, Bool, true, false, Option, none, some, List, [], ◌∷◌,
}
use distributed_cache.Core.Store.{Store}
use distributed_cache.Server.Dispatcher.{
  CommandStatus, ok, not_found, error, invalid_key, unknown_command, CommandResult,
  dispatch_command,
}

-- `grpc::Status`, for what the handlers use of it.
pub data Status : Type 0 where
  status_ok : Status
  invalid_argument : (message : Bytes) → Status

pub record SetRequest : Type 0 where
  pub key : Bytes
  pub value : Bytes

-- The fields `ok` and `error`.
pub record SetResponse : Type 0 where
  pub is_ok : Bool
  pub error_text : Bytes

pub record GetRequest : Type 0 where
  pub key : Bytes

-- The fields `found`, `value` and `error`.
pub record GetResponse : Type 0 where
  pub is_found : Bool
  pub value : Bytes
  pub error_text : Bytes

-- A response as protobuf makes it.
abbrev pub new_set_response : SetResponse
new_set_response = record { is_ok = false; error_text = [] }

abbrev pub new_get_response : GetResponse
new_get_response = record { is_found = false; value = []; error_text = [] }

-- What the handlers make of the status, the value and the message of a result.
unfoldable pub answer_set : CommandStatus → Bytes → Status × SetResponse
answer_set invalid_key message =
    (invalid_argument message, record new_set_response { is_ok = false; error_text = message })
answer_set ok message = (status_ok, record new_set_response { is_ok = true })
answer_set not_found message =
    (status_ok, record new_set_response { is_ok = false; error_text = message })
answer_set error message =
    (status_ok, record new_set_response { is_ok = false; error_text = message })
answer_set unknown_command message =
    (status_ok, record new_set_response { is_ok = false; error_text = message })

unfoldable pub answer_get : CommandStatus → Option Bytes → Bytes → Status × GetResponse
answer_get invalid_key value message =
    (invalid_argument message, record new_get_response { is_found = false; error_text = message })
answer_get ok (some value) message =
    (status_ok, record new_get_response { is_found = true; value = value })
answer_get ok none message =
    (status_ok, record new_get_response { is_found = false; error_text = message })
answer_get not_found value message = (status_ok, record new_get_response { is_found = false })
answer_get error value message =
    (status_ok, record new_get_response { is_found = false; error_text = message })
answer_get unknown_command value message =
    (status_ok, record new_get_response { is_found = false; error_text = message })

-- `std::hash<std::string>`, and the readings of the clock.
module _ (hash : Bytes → ℕ) (t_touch t_sweep : ℕ) where
  unfoldable pub service_set : SetRequest → Store → Option (Store × (Status × SetResponse))
  service_set request s =
      elim (dispatch_command hash t_touch t_sweep (codes "SET") (request.key ∷ request.value ∷ [])
        s) [ none ↦ none | some (t, result) ↦ some (t, answer_set result.status result.message) ]

  unfoldable pub service_get : GetRequest → Store → Option (Store × (Status × GetResponse))
  service_get request s =
      elim (dispatch_command hash t_touch t_sweep (codes "GET") (request.key ∷ []) s) [
        | none ↦ none
        | some (t, result) ↦ some (t, answer_get result.status result.value result.message)
      ]
