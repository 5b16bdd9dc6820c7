-- ===== src/Core/Coalescer/Tests.antt =====
-- The theorems of src/core/request_coalescer.cpp at concrete inputs.
use distributed_cache.Prelude.{ℕ, Bytes, bytes_key, codes, ◌≡◌, refl}
use distributed_cache.Prelude.Map.{lookup, insert}
use distributed_cache.Core.Coalescer.{
  Settled, value_set, returned, RequestCoalescer, new_coalescer, at, enter, Steps, enters, none_yet,
  and_then,
}
use distributed_cache.Core.Coalescer.SingleFlight.{single_flight}
use distributed_cache.Core.Coalescer.Completion.{Completes, completes}

-- Every call is about the same key.
abbrev one_key : ℕ → Bytes
one_key i = codes "k"

abbrev payload : ℕ → Settled
payload i = value_set (codes "v")

-- The call 4 works, the call 7 has joined it.
abbrev joined : RequestCoalescer
joined = enter one_key payload 7 (enter one_key payload 4 new_coalescer)

joined-Steps : Steps one_key payload new_coalescer joined
unfolding enter at lookup
joined-Steps = and_then (and_then none_yet (enters 4 refl)) (enters 7 refl)

abbrev first_call : ℕ
first_call = 4

single_flight_example : first_call ≡ first_call
unfolding enter at lookup insert
single_flight_example =
    single_flight one_key payload first_call first_call joined-Steps refl refl refl

joined_phase : joined.phase 7 ≡ returned 4
unfolding enter at lookup insert
joined_phase = refl

completes_example : Completes one_key payload 7 joined
completes_example = completes one_key payload 7 joined-Steps
