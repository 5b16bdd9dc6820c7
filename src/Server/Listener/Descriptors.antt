-- ===== src/Server/Listener/Descriptors.antt =====
-- Every accepted descriptor is closed once.
use distributed_cache.Prelude.{
  ℕ, ◌+◌, ℤ, leb_ℤ, nat_eqb, ◌≡◌, refl, ap, Bool, ◌&&◌, List, [], ◌∷◌, ◌++◌, arith, if◌then◌else◌,
  Bool-cases, inl, inr,
}
use distributed_cache.Server.Listener.{
  refuse_client, launch_worker, fail_launch, begin_cleanup, end_cleanup, end_handler, end_worker,
  int_eqb, Acceptor, waiting, taken, acquiring, refusing, launching, cleaning, giving_back, stopped,
  Worker, handling, releasing, Listener, new_listener, accept_fd, begin_acquire, acquire_round,
  Step, accepts, stops, begins, tries, refuses, launches, fails, cleans, gives_back, finishes,
  releases, Steps, none_yet, and_then,
}

-- How often a descriptor is in a list, in the hands of the accepting thread, and in those of a worker.
abbrev pub occurs : ℕ → List ℕ → ℕ
occurs fd [] = 0
occurs fd (d ∷ ds) = (if nat_eqb d fd then 1 else 0) + occurs fd ds

abbrev pub in_hand : ℕ → Acceptor → ℕ
in_hand fd waiting = 0
in_hand fd (taken d) = if nat_eqb d fd then 1 else 0
in_hand fd (acquiring d current) = if nat_eqb d fd then 1 else 0
in_hand fd (refusing d) = if nat_eqb d fd then 1 else 0
in_hand fd (launching d) = if nat_eqb d fd then 1 else 0
in_hand fd (cleaning d) = if nat_eqb d fd then 1 else 0
in_hand fd giving_back = 0
in_hand fd stopped = 0

abbrev pub at_work : ℕ → List Worker → ℕ
at_work fd [] = 0
at_work fd (handling d ∷ ws) = (if nat_eqb d fd then 1 else 0) + at_work fd ws
at_work fd (releasing ∷ ws) = at_work fd ws

at_work-append :
    (fd : ℕ) (ws vs : List Worker) → at_work fd (ws ++ vs) ≡ at_work fd ws + at_work fd vs
at_work-append fd [] vs = omega arith
at_work-append fd (handling d ∷ ws) vs = omega (arith, at_work-append fd ws vs)
at_work-append fd (releasing ∷ ws) vs = at_work-append fd ws vs

-- The accepted ones are in hand, at work, or closed.
abbrev pub IsBalanced : ℕ → Listener → Type 0
IsBalanced fd s =
    occurs fd s.accepted ≡ in_hand fd s.acceptor + at_work fd s.workers + occurs fd s.closed

module _ (max_clients : ℤ) (fd : ℕ) where
  round-IsBalanced :
      (d : ℕ) (current : ℤ) (exchanges : Bool) (s : Listener)
      → s.acceptor ≡ acquiring d current
      → IsBalanced fd s
      → IsBalanced fd (acquire_round max_clients d current exchanges s)
  unfolding acquire_round
  round-IsBalanced d current exchanges s e b = elim (Bool-cases (leb_ℤ max_clients current)) [
    | inl full ↦ rw (acquire_round, full) (ground (arith, b, e))
    | inr free ↦ elim (Bool-cases (int_eqb s.active current && exchanges)) [
      | inl taken_over ↦ rw (acquire_round, free, taken_over) (ground (arith, b, e))
      | inr again ↦ rw (acquire_round, free, again) (ground (arith, b, e))
    ]
  ]

  Step-IsBalanced : {s t : Listener} → Step max_clients s t → IsBalanced fd s → IsBalanced fd t
  unfolding accept_fd refuse_client launch_worker fail_launch begin_cleanup end_cleanup end_handler
      end_worker begin_acquire
  Step-IsBalanced {s} (accepts d e) b = ground (arith, b, e)
  Step-IsBalanced {s} (stops e) b = ground (arith, b, e)
  Step-IsBalanced {s} (begins d e) b = ground (arith, b, e)
  Step-IsBalanced {s} (tries d current exchanges e) b = round-IsBalanced d current exchanges s e b
  Step-IsBalanced {s} (refuses d e) b = ground (arith, b, e)
  Step-IsBalanced {s} (launches d e) b = ground (arith, b, e)
  Step-IsBalanced {s} (fails d e) b = ground (arith, b, e)
  Step-IsBalanced {s} (cleans d e) b = ground (arith, b, e)
  Step-IsBalanced {s} (gives_back e) b = ground (arith, b, e)
  Step-IsBalanced {s} (finishes before after d e) b = omega (
    arith,
    b,
    ap (at_work fd) e,
    at_work-append fd before (handling d ∷ after),
    at_work-append fd before (releasing ∷ after),
  )
  Step-IsBalanced {s} (releases before after e) b = omega (
    arith,
    b,
    ap (at_work fd) e,
    at_work-append fd before after,
    at_work-append fd before (releasing ∷ after),
  )

  -- Whatever the threads do in any order, and whatever the limit, each descriptor has been accepted as
  -- often as it is in the hands of the accepting thread or of a worker, or was closed: none is closed
  -- twice for one `accept`, and none is lost.
  pub Steps-IsBalanced : {s : Listener} → Steps max_clients new_listener s → IsBalanced fd s
  Steps-IsBalanced none_yet = refl
  Steps-IsBalanced (and_then run step) = Step-IsBalanced step (Steps-IsBalanced run)
