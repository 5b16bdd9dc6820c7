-- ===== src/Server/Session.antt =====
-- src/server/main.cpp: `HandleRespClient`, the loop of one connection, over the parser, the dispatcher
-- and the metrics. The socket is the list of what `recv` returns. The proofs are in the modules below.
pub mod Sending
pub mod Requests
pub mod Pipelines
pub mod Streams
pub mod Ending
use distributed_cache.Prelude.{
  ℕ, zero, suc, ◌+◌, ◌-◌, ◌*◌, Bytes, is_empty, nat_eqb, ltb, codes, Bool, not, ◌||◌, Option, none,
  some, List, [], ◌∷◌, ◌++◌, length, drop, if◌then◌else◌,
}
use distributed_cache.Core.Store.{Store}
use distributed_cache.Protocol.Resp.{RespCommand, crlf, parse_resp}
use distributed_cache.Metrics.{Double, PrometheusEndpoint, increment_counter}
use distributed_cache.Server.Dispatcher.{execute_command}

abbrev pub max_resp_frame_bytes : ℕ
max_resp_frame_bytes = 1048576

-- What `recv` returns, with the clock's reading where the code takes one.
pub data RecvResult : Type 0 where
  chunk : (bytes : Bytes) (now : ℕ) → RecvResult
  closed : RecvResult
  interrupted : RecvResult
  timed_out : (now : ℕ) → RecvResult
  failed : RecvResult

-- What the connection depends on: `std::hash`, the clock's readings of the store, the stop flag at each
-- of its loads, and whether `SendAll` sends each of the replies.
pub record Environment : Type 0 where
  pub hash : Bytes → ℕ
  pub readings : ℕ → ℕ
  pub stop : ℕ → Bool
  pub sends : ℕ → Bool
  pub idle_timeout : ℕ

-- The shared store and metrics, the replies that were sent, and how many commands were executed.
pub record Served {ℓ} (W : Type ℓ) : Type ℓ where
  pub store : Store
  pub metrics : PrometheusEndpoint W
  pub sent : List Bytes
  pub executed : ℕ

-- With the local variables; `checks` counts the loads of the stop flag.
pub record Session {ℓ} (W : Type ℓ) : Type ℓ where
  pub served : Served W
  pub buffer : Bytes
  pub last_activity : ℕ
  pub checks : ℕ

-- The end of the inner loop: by `break` or by its test, or by `return`.
pub data LoopEnd {ℓ} (W : Type ℓ) : Type ℓ where
  goes_on : Session W → LoopEnd W
  returned : Session W → LoopEnd W

abbrev pub checked {ℓ} : {W : Type ℓ} → Session W → Session W
checked s = record s { checks = s.checks + 1 }

abbrev pub replied {ℓ} : {W : Type ℓ} → Bytes → Served W → Served W
replied reply v = record v { sent = v.sent ++ reply ∷ [] }

module _ {ℓ} {W : Type ℓ} ⦃d : Double W⦄ (env : Environment) where
  -- `ExecuteCommand`, and the count of the request.
  unfoldable pub perform : RespCommand → Served W → Option (Served W × Bytes)
  perform cmd v =
      elim (execute_command env.hash (env.readings (2 * v.executed))
        (env.readings (2 * v.executed + 1)) cmd v.store) [
          | none ↦ none
          | some (store, response) ↦ some (
            record v {
              store = store;
              metrics =
                  increment_counter (codes "cache_resp_requests_total") d.one
                    (codes "Total RESP requests") v.metrics;
              executed = v.executed + 1;
            },
            response,
          )
        ]

  -- The inner loop, on fuel.
  unfoldable pub drain : ℕ → Session W → Option (LoopEnd W)
  drain zero s = none
  drain (suc fuel) s =
      let parsed = parse_resp s.buffer in
      if env.stop s.checks
      then some (goes_on (checked s))
      else if is_empty parsed.command.name || nat_eqb parsed.bytes_consumed 0
      then some (goes_on (checked s))
      else elim (perform parsed.command s.served) [
        | none ↦ none
        | some (v, response) ↦
            let left = drop parsed.bytes_consumed s.buffer in
            let next = record (checked s) { served = replied response v; buffer = left } in
            let rest = drain fuel next in
            if not (env.sends s.served.executed)
            then some (returned (record (checked s) { served = v }))
            else if is_empty left
            then some (goes_on next)
            else rest
      ]

  -- The reply to a frame that is too long; whether it is sent does not matter.
  unfoldable pub refuse_frame : Session W → Session W
  refuse_frame s =
      if env.sends s.served.executed
      then record s { served = replied (codes "-ERR invalid command" ++ crlf) s.served }
      else s

  -- A round of the outer loop, after its test.
  unfoldable pub on_recv : RecvResult → Session W → Option (LoopEnd W)
  unfolding refuse_frame
  on_recv closed s = some (returned s)
  on_recv interrupted s = some (goes_on s)
  on_recv failed s = some (returned s)
  on_recv (timed_out now) s =
      if ltb env.idle_timeout (now - s.last_activity) then some (returned s) else some (goes_on s)
  on_recv (chunk bytes now) s =
      let filled = record s { buffer = s.buffer ++ bytes; last_activity = now } in
      elim (drain (suc (length filled.buffer)) filled) [
        | none ↦ none
        | some (returned t) ↦ some (returned t)
        | some (goes_on t) ↦
            if ltb max_resp_frame_bytes (length t.buffer)
            then some (returned (refuse_frame t))
            else some (goes_on t)
      ]

  -- The outer loop: what is left of the session when `recv` has returned all this.
  unfoldable pub handle_resp_client : List RecvResult → Session W → Option (LoopEnd W)
  handle_resp_client [] s = some (goes_on s)
  handle_resp_client (r ∷ rs) s =
      if env.stop s.checks then some (returned (checked s)) else elim (on_recv r (checked s)) [
        | none ↦ none
        | some (returned t) ↦ some (returned t)
        | some (goes_on t) ↦ handle_resp_client rs t
      ]
