-- ===== src/Server/Tests.antt =====
-- The theorems of src/server/command_dispatcher.cpp at concrete inputs.
mod Session
mod Start
mod Metrics
use distributed_cache.Prelude.{ℕ, ◌≡◌, refl, Bytes, codes, none, some, [], ◌∷◌, ◌++◌, length}
use distributed_cache.Core.Store.{Store, new_store}
use distributed_cache.Protocol.Resp.{crlf}
use distributed_cache.Server.Dispatcher.{
  error, to_upper, error_result, run_set, dispatch_command, reply_to, execute_command,
}
use distributed_cache.Server.Dispatcher.Replies.{dispatch_command-is_failure}
use distributed_cache.Server.Grpc.{SetRequest, GetRequest, service_set, service_get}
use distributed_cache.Server.Grpc.Agreement.{told, set_reply, get_reply, execute_command-service}

-- Some hash.
abbrev wire_hash : Bytes → ℕ
wire_hash key = length key

dispatch_command-is_failure_example : new_store 2 2 ≡ new_store 2 2
unfolding dispatch_command to_upper run_set error_result
dispatch_command-is_failure_example =
    dispatch_command-is_failure wire_hash 2 3 (codes "set") (codes "k" ∷ []) (new_store 2 2)
      (new_store 2 2)
      (record { status = error; value = none; message = codes "wrong number of arguments" }) refl
      refl

unknown_name :
    execute_command wire_hash 2 3 (record { name = codes "PING"; args = [] }) (new_store 2 2)
    ≡ some (new_store 2 2, codes "-ERR unknown command" ++ crlf)
unfolding execute_command dispatch_command to_upper error_result reply_to
unknown_name = refl

abbrev to_set : SetRequest
to_set = record { key = codes "k"; value = codes "v" }

abbrev to_get : GetRequest
to_get = record { key = [] }

execute_command-service_example :
    (execute_command wire_hash 2 3
        (record { name = codes "SET"; args = codes "k" ∷ codes "v" ∷ [] })
        (new_store 2 2)
      ≡ told set_reply (service_set wire_hash 2 3 to_set (new_store 2 2)))
    × (execute_command wire_hash 2 3 (record { name = codes "GET"; args = [] ∷ [] }) (new_store 2 2)
        ≡ told get_reply (service_get wire_hash 2 3 to_get (new_store 2 2)))
execute_command-service_example =
    execute_command-service wire_hash 2 3 to_set to_get (new_store 2 2)
