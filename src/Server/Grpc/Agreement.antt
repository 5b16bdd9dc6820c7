-- ===== src/Server/Grpc/Agreement.antt =====
-- The two protocols serve one cache.
use distributed_cache.Prelude.{
  ℕ, Bytes, is_empty, codes, ◌≡◌, refl, Option, none, some, [], ◌∷◌, ◌++◌, Bool-cases, Option-cases,
  inl, inr, if◌then◌else◌,
}
use distributed_cache.Core.Store.{Store, get}
use distributed_cache.Core.Capacity.{set_entry}
use distributed_cache.Protocol.Resp.{crlf, encode_bulk_string}
use distributed_cache.Server.Dispatcher.{
  to_upper, error_result, dispatch_set, dispatch_get, run_set, run_get, dispatch_command, reply_to,
  execute_command,
}
use distributed_cache.Server.Grpc.{
  Status, status_ok, invalid_argument, SetRequest, SetResponse, GetRequest, GetResponse, answer_set,
  answer_get, service_set, service_get,
}

-- What a RESP client would have read in place of a response.
abbrev pub set_reply : Status → SetResponse → Bytes
set_reply (invalid_argument message) response = codes "-ERR " ++ message ++ crlf
set_reply status_ok response =
    if response.is_ok then codes "+OK" ++ crlf else codes "-ERR " ++ response.error_text ++ crlf

abbrev pub get_reply : Status → GetResponse → Bytes
get_reply (invalid_argument message) response = codes "-ERR " ++ message ++ crlf
get_reply status_ok response =
    if response.is_found
    then encode_bulk_string response.value
    else if is_empty response.error_text
    then codes "$-1" ++ crlf
    else codes "-ERR " ++ response.error_text ++ crlf

-- The store, and the reply in place of the response.
abbrev pub told {ℓ} :
    {R : Type ℓ} → (Status → R → Bytes) → Option (Store × (Status × R)) → Option (Store × Bytes)
told reply none = none
told reply (some (t, answer)) = some (t, reply answer.0 answer.1)

module _ (hash : Bytes → ℕ) (t_touch t_sweep : ℕ) where
  execute_command-service_set :
      (request : SetRequest) (s : Store)
      → execute_command hash t_touch t_sweep
          (record { name = codes "SET"; args = request.key ∷ request.value ∷ [] })
          s
        ≡ told set_reply (service_set hash t_touch t_sweep request s)
  unfolding execute_command service_set dispatch_command to_upper run_set dispatch_set error_result
      reply_to answer_set
  execute_command-service_set request s = elim (Bool-cases (is_empty request.key)) [
    | inl unnamed ↦ rw (execute_command, service_set, dispatch_command, unnamed) refl
    | inr named ↦
        elim (Option-cases
          (set_entry hash request.key request.value none t_touch t_touch t_sweep s)) [
            | inl out ↦ rw (execute_command, service_set, dispatch_command, named, out) refl
            | inr (t, ends) ↦ rw (execute_command, service_set, dispatch_command, named, ends) refl
          ]
  ]

  execute_command-service_get :
      (request : GetRequest) (s : Store)
      → execute_command hash t_touch t_sweep
          (record { name = codes "GET"; args = request.key ∷ [] })
          s
        ≡ told get_reply (service_get hash t_touch t_sweep request s)
  unfolding execute_command service_get dispatch_command to_upper run_get dispatch_get error_result
      reply_to answer_get
  execute_command-service_get request s = elim (Bool-cases (is_empty request.key)) [
    | inl unnamed ↦ rw (unnamed, dispatch_get) refl
    | inr named ↦ elim (Option-cases (get hash request.key t_touch s).1) [
      | inl miss ↦ rw (named, miss, dispatch_get) refl
      | inr (v, found) ↦ rw (named, found, dispatch_get) refl
    ]
  ]

  -- A `Set` or a `Get` of the gRPC service, whatever the key, the value and the store, leaves the store as
  -- the RESP command with the same arguments does, and its status and response determine the reply
  -- that a RESP client would have read.
  pub execute_command-service :
      (to_set : SetRequest) (to_get : GetRequest) (s : Store)
      → (execute_command hash t_touch t_sweep
            (record { name = codes "SET"; args = to_set.key ∷ to_set.value ∷ [] })
            s
          ≡ told set_reply (service_set hash t_touch t_sweep to_set s))
        × (execute_command hash t_touch t_sweep
              (record { name = codes "GET"; args = to_get.key ∷ [] })
              s
            ≡ told get_reply (service_get hash t_touch t_sweep to_get s))
  execute_command-service to_set to_get s =
      (execute_command-service_set to_set s, execute_command-service_get to_get s)
