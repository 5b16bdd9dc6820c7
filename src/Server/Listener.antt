-- ===== src/Server/Listener.antt =====
-- src/server/main.cpp: `TryAcquireRespSlot` and the accept loop of `RunRespServer`; src/server/resp_worker.hpp.
-- The thread that accepts and the workers take turns in any order, at each access to the counter and
-- each call of `close`. The proofs are in the modules below.
pub mod Slots
pub mod Descriptors
pub mod Draining
mod Tests
use distributed_cache.Prelude.{
  ℕ, zero, suc, ◌+◌, ℤ, pos, negsuc, leb_ℤ, nat_eqb, ◌≡◌, Bool, true, false, ◌&&◌, List, [], ◌∷◌,
  ◌++◌, if◌then◌else◌,
}

-- The `int` of 32 bits: its successor, where there is one, and `fetch_sub(1)`.
unfoldable pub int_suc : ℤ → ℤ
int_suc (pos n) = pos (n + 1)
int_suc (negsuc zero) = pos 0
int_suc (negsuc (suc n)) = negsuc n

unfoldable pub int_pred : ℤ → ℤ
int_pred (pos zero) = negsuc 0
int_pred (pos (suc n)) = pos n
int_pred (negsuc n) = if nat_eqb n 2147483647 then pos 2147483647 else negsuc (n + 1)

unfoldable pub int_eqb : ℤ → ℤ → Bool
int_eqb a b = leb_ℤ a b && leb_ℤ b a

-- Where the accepting thread is: in `select` or `accept`; with a new descriptor; in the loop of
-- `TryAcquireRespSlot`, with the value it read last; refused; at the launch of a worker; and in `cleanup`,
-- before its two calls.
pub data Acceptor : Type 0 where
  waiting : Acceptor
  taken : (fd : ℕ) → Acceptor
  acquiring : (fd : ℕ) (current : ℤ) → Acceptor
  refusing : (fd : ℕ) → Acceptor
  launching : (fd : ℕ) → Acceptor
  cleaning : (fd : ℕ) → Acceptor
  giving_back : Acceptor
  stopped : Acceptor

-- A worker in its handler, or between `close` and `ReleaseRespSlot`.
pub data Worker : Type 0 where
  handling : (fd : ℕ) → Worker
  releasing : Worker

-- With the descriptors that were accepted and closed so far.
pub record Listener : Type 0 where
  pub active : ℤ
  pub acceptor : Acceptor
  pub workers : List Worker
  pub accepted : List ℕ
  pub closed : List ℕ

abbrev pub new_listener : Listener
new_listener = record {
  active = pos 0;
  acceptor = waiting;
  workers = [];
  accepted = [];
  closed = [];
}

unfoldable pub accept_fd : ℕ → Listener → Listener
accept_fd fd s = record s { acceptor = taken fd; accepted = fd ∷ s.accepted }

unfoldable pub close_fd : ℕ → Listener → Listener
close_fd fd s = record s { closed = fd ∷ s.closed }

-- `ReleaseRespSlot`
unfoldable pub release_resp_slot : Listener → Listener
release_resp_slot s = record s { active = int_pred s.active }

-- `TryAcquireRespSlot` until its loop.
unfoldable pub begin_acquire : ℤ → ℕ → Listener → Listener
begin_acquire max_clients fd s =
    if leb_ℤ max_clients (pos 0)
    then record s { acceptor = launching fd }
    else record s { acceptor = acquiring fd s.active }

-- A round of its loop; the exchange may fail although the counter has the value.
unfoldable pub acquire_round : ℤ → ℕ → ℤ → Bool → Listener → Listener
acquire_round max_clients fd current exchanges s =
    if leb_ℤ max_clients current
    then record s { acceptor = refusing fd }
    else if int_eqb s.active current && exchanges
    then record s { acceptor = launching fd; active = int_suc current }
    else record s { acceptor = acquiring fd s.active }

-- The loop's answer to a client without a slot.
unfoldable pub refuse_client : ℕ → Listener → Listener
unfolding close_fd
refuse_client fd s = record (close_fd fd s) { acceptor = waiting }

-- `StartRespWorker`: the launcher starts the worker, or throws, and then `cleanup` makes its two calls.
unfoldable pub launch_worker : ℕ → Listener → Listener
launch_worker fd s = record s { acceptor = waiting; workers = handling fd ∷ s.workers }

unfoldable pub fail_launch : ℕ → Listener → Listener
fail_launch fd s = record s { acceptor = cleaning fd }

unfoldable pub begin_cleanup : ℕ → Listener → Listener
unfolding close_fd
begin_cleanup fd s = record (close_fd fd s) { acceptor = giving_back }

unfoldable pub end_cleanup : Listener → Listener
unfolding release_resp_slot
end_cleanup s = record (release_resp_slot s) { acceptor = waiting }

-- The worker's two calls after its handler, for the worker between the others.
unfoldable pub end_handler : (before after : List Worker) → ℕ → Listener → Listener
unfolding close_fd
end_handler before after fd s = record (close_fd fd s) { workers = before ++ releasing ∷ after }

unfoldable pub end_worker : (before after : List Worker) → Listener → Listener
unfolding release_resp_slot
end_worker before after s = record (release_resp_slot s) { workers = before ++ after }

-- What a thread does next; `max_clients` is `max_resp_clients`.
pub data Step (max_clients : ℤ) (s : Listener) : Listener → Type 0 where
  accepts : (fd : ℕ) → s.acceptor ≡ waiting → Step max_clients s (accept_fd fd s)
  stops : s.acceptor ≡ waiting → Step max_clients s (record s { acceptor = stopped })
  begins : (fd : ℕ) → s.acceptor ≡ taken fd → Step max_clients s (begin_acquire max_clients fd s)
  tries :
      (fd : ℕ) (current : ℤ) (exchanges : Bool)
      → s.acceptor ≡ acquiring fd current
      → Step max_clients s (acquire_round max_clients fd current exchanges s)
  refuses : (fd : ℕ) → s.acceptor ≡ refusing fd → Step max_clients s (refuse_client fd s)
  launches : (fd : ℕ) → s.acceptor ≡ launching fd → Step max_clients s (launch_worker fd s)
  fails : (fd : ℕ) → s.acceptor ≡ launching fd → Step max_clients s (fail_launch fd s)
  cleans : (fd : ℕ) → s.acceptor ≡ cleaning fd → Step max_clients s (begin_cleanup fd s)
  gives_back : s.acceptor ≡ giving_back → Step max_clients s (end_cleanup s)
  finishes :
      (before after : List Worker) (fd : ℕ)
      → s.workers ≡ before ++ handling fd ∷ after
      → Step max_clients s (end_handler before after fd s)
  releases :
      (before after : List Worker)
      → s.workers ≡ before ++ releasing ∷ after
      → Step max_clients s (end_worker before after s)

pub data Steps (max_clients : ℤ) (s : Listener) : Listener → Type 0 where
  none_yet : Steps max_clients s s
  and_then : {t u : Listener} → Steps max_clients s t → Step max_clients t u → Steps max_clients s u
