-- ===== src/Server/Listener/Tests.antt =====
-- The theorems of src/server/main.cpp and src/server/resp_worker.hpp on the slots at a concrete run.
use distributed_cache.Prelude.{ℕ, pos, ◌≡◌, refl, true, [], ◌∷◌, arith}
use distributed_cache.Server.Listener.{
  launch_worker, int_suc, int_eqb, stopped, handling, Listener, new_listener, accept_fd,
  begin_acquire, acquire_round, accepts, stops, begins, tries, launches, Steps, none_yet, and_then,
}
use distributed_cache.Server.Listener.Slots.{IsCounted, Steps-IsCounted}
use distributed_cache.Server.Listener.Descriptors.{occurs}
use distributed_cache.Server.Listener.Draining.{Drains, drains}

-- One client is accepted and gets a worker; then the accepting thread stops, and the worker runs on.
abbrev one_worker : Listener
one_worker = record {
  active = pos 1;
  acceptor = stopped;
  workers = handling 5 ∷ [];
  accepted = 5 ∷ [];
  closed = [];
}

one_worker_runs : Steps (pos 2) new_listener one_worker
unfolding accept_fd launch_worker begin_acquire acquire_round int_suc int_eqb
one_worker_runs =
    and_then
      (and_then
        (and_then (and_then (and_then none_yet (accepts 5 refl)) (begins 5 refl))
          (tries 5 (pos 0) true refl))
        (launches 5 refl))
      (stops refl)

Steps-IsCounted_example : IsCounted 2 one_worker
Steps-IsCounted_example = Steps-IsCounted 2 (omega arith) one_worker_runs

drains_example :
    (d : Drains (pos 2) one_worker) × (d.final.active ≡ pos 0)
    × ((fd : ℕ) → occurs fd (5 ∷ []) ≡ occurs fd d.final.closed)
drains_example = drains 2 (omega arith) one_worker_runs
