-- ===== src/Core/Coalescer.antt =====
-- src/core/request_coalescer.hpp and .cpp: `Execute`, by any number of threads. The two blocks under the
-- mutex and the work between them are one step each. The proofs are in the modules below.
pub mod SingleFlight
pub mod Completion
mod Tests
use distributed_cache.Prelude.{
  ℕ, Bytes, bytes_key, nat_eqb, ◌≡◌, Bool, true, false, Option, none, some, [], if◌then◌else◌,
}
use distributed_cache.Prelude.Map.{Map, lookup, insert, erase}

-- What the work gives: a value, or an exception.
pub data Settled : Type 0 where
  value_set : (value : Bytes) → Settled
  exception_set : (what : Bytes) → Settled

-- Where a call of `Execute` is: before the first block, at work outside the mutex, before the second
-- block, or back with the future of the call that works for it.
pub data Phase : Type 0 where
  calling : Phase
  working : Phase
  leaving : Phase
  returned : (leader : ℕ) → Phase

-- The calls are numbered; a promise has the number of the call that made it.
pub record RequestCoalescer : Type 0 where
  pub inflight : Map Bytes ℕ
  pub phase : ℕ → Phase
  pub promise : ℕ → Option Settled

abbrev pub new_coalescer : RequestCoalescer
new_coalescer = record { inflight = []; phase = λ i. calling; promise = λ i. none }

-- A function changed at one number.
unfoldable pub at {ℓ} : {A : Type ℓ} → ℕ → A → (ℕ → A) → ℕ → A
at i new f j = if nat_eqb i j then new else f j

-- The key of each call, and what its work would give.
module _ (key : ℕ → Bytes) (work : ℕ → Settled) where
  -- The first block: the future that is there, or a new promise.
  unfoldable pub enter : ℕ → RequestCoalescer → RequestCoalescer
  enter i c = elim (lookup (key i) c.inflight) [
    | some leader ↦ record c { phase = at i (returned leader) c.phase }
    | none ↦ record c { inflight = insert (key i) i c.inflight; phase = at i working c.phase }
  ]

  -- The work, with `set_value` or `set_exception`.
  unfoldable pub settle : ℕ → RequestCoalescer → RequestCoalescer
  settle i c = record c { promise = at i (some (work i)) c.promise; phase = at i leaving c.phase }

  -- The second block.
  unfoldable pub leave : ℕ → RequestCoalescer → RequestCoalescer
  leave i c = record c { inflight = erase (key i) c.inflight; phase = at i (returned i) c.phase }

  -- A step of one thread.
  pub data Step (c : RequestCoalescer) : RequestCoalescer → Type 0 where
    enters : (i : ℕ) → c.phase i ≡ calling → Step c (enter i c)
    settles : (i : ℕ) → c.phase i ≡ working → Step c (settle i c)
    leaves : (i : ℕ) → c.phase i ≡ leaving → Step c (leave i c)

  pub data Steps (c : RequestCoalescer) : RequestCoalescer → Type 0 where
    none_yet : Steps c c
    and_then : {d e : RequestCoalescer} → Steps c d → Step d e → Steps c e
