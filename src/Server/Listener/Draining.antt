-- ===== src/Server/Listener/Draining.antt =====
-- The connections can always be brought to an end.
use distributed_cache.Prelude.{
  ℕ, ◌<◌, ℤ, pos, negsuc, leb_ℤ, ◌≡◌, refl, sym, ap, ◌∙◌, Bool, true, false, ◌&&◌, List, [], ◌∷◌,
  length, arith, Bool-cases, inl, inr,
}
use distributed_cache.Server.Listener.{
  refuse_client, launch_worker, begin_cleanup, end_cleanup, end_handler, end_worker, int_eqb,
  Acceptor, waiting, taken, acquiring, refusing, launching, cleaning, giving_back, stopped, Worker,
  handling, releasing, Listener, new_listener, begin_acquire, acquire_round, Step, begins, tries,
  refuses, launches, cleans, gives_back, finishes, releases, Steps, none_yet, and_then,
}
use distributed_cache.Server.Listener.Slots.{held_by, Steps-IsCounted}
use distributed_cache.Server.Listener.Descriptors.{occurs, in_hand, at_work, Steps-IsBalanced}

-- The accepting thread has no connection in hand.
abbrev pub is_quiet : Acceptor → Bool
is_quiet waiting = true
is_quiet (taken fd) = false
is_quiet (acquiring fd current) = false
is_quiet (refusing fd) = false
is_quiet (launching fd) = false
is_quiet (cleaning fd) = false
is_quiet giving_back = false
is_quiet stopped = true

int_eqb_refl : (a : ℤ) → int_eqb a a ≡ true
unfolding int_eqb
int_eqb_refl (pos n) = ground arith
int_eqb_refl (negsuc n) = ground arith

module _ (max_clients : ℤ) where
  -- Steps that accept nothing and leave no worker.
  pub record Drains (s : Listener) : Type 0 where
    pub final : Listener
    pub steps : Steps max_clients s final
    pub quiet : is_quiet final.acceptor ≡ true
    pub none_working : final.workers ≡ []
    pub none_accepted : final.accepted ≡ s.accepted

  Steps-append :
      {s t u : Listener} → Steps max_clients s t → Steps max_clients t u → Steps max_clients s u
  Steps-append run none_yet = run
  Steps-append run (and_then more step) = and_then (Steps-append run more) step

  first : {s t : Listener} → Step max_clients s t → t.accepted ≡ s.accepted → Drains t → Drains s
  first step same d = record {
    final = d.final;
    steps = Steps-append (and_then none_yet step) d.steps;
    quiet = d.quiet;
    none_working = d.none_working;
    none_accepted = d.none_accepted ∙ same;
  }

  workers-Drains :
      (ws : List Worker) (s : Listener) → s.workers ≡ ws → is_quiet s.acceptor ≡ true → Drains s
  unfolding end_handler end_worker
  workers-Drains [] s e q = record {
    final = s;
    steps = none_yet;
    quiet = q;
    none_working = e;
    none_accepted = refl;
  }
  workers-Drains (handling fd ∷ ws) s e q =
      first (finishes [] ws fd e) refl
        (first (releases [] ws refl) refl (workers-Drains ws _ refl q))
  workers-Drains (releasing ∷ ws) s e q = first (releases [] ws e) refl (workers-Drains ws _ refl q)

  refusing-Drains : (fd : ℕ) (s : Listener) → s.acceptor ≡ refusing fd → Drains s
  unfolding refuse_client
  refusing-Drains fd s e = first (refuses fd e) refl (workers-Drains s.workers _ refl refl)

  launching-Drains : (fd : ℕ) (s : Listener) → s.acceptor ≡ launching fd → Drains s
  unfolding launch_worker
  launching-Drains fd s e =
      first (launches fd e) refl (workers-Drains (handling fd ∷ s.workers) _ refl refl)

  giving_back-Drains : (s : Listener) → s.acceptor ≡ giving_back → Drains s
  unfolding end_cleanup
  giving_back-Drains s e = first (gives_back e) refl (workers-Drains s.workers _ refl refl)

  cleaning-Drains : (fd : ℕ) (s : Listener) → s.acceptor ≡ cleaning fd → Drains s
  unfolding begin_cleanup
  cleaning-Drains fd s e = first (cleans fd e) refl (giving_back-Drains _ refl)

  -- The exchange succeeds when the value that was read is still there.
  current-Drains : (fd : ℕ) (s : Listener) → s.acceptor ≡ acquiring fd s.active → Drains s
  unfolding acquire_round
  current-Drains fd s e = elim (Bool-cases (leb_ℤ max_clients s.active)) [
    | inl full ↦
        first (tries fd s.active true e) (rw (acquire_round, full) refl)
          (refusing-Drains fd _ (rw (acquire_round, full) refl))
    | inr free ↦
        first (tries fd s.active true e) (rw (acquire_round, free, int_eqb_refl s.active) refl)
          (launching-Drains fd _ (rw (acquire_round, free, int_eqb_refl s.active) refl))
  ]

  acquiring-Drains :
      (fd : ℕ) (current : ℤ) (s : Listener) → s.acceptor ≡ acquiring fd current → Drains s
  unfolding acquire_round
  acquiring-Drains fd current s e = elim (Bool-cases (leb_ℤ max_clients current)) [
    | inl full ↦
        first (tries fd current false e) (rw (acquire_round, full) refl)
          (refusing-Drains fd _ (rw (acquire_round, full) refl))
    | inr free ↦
        let misses : (int_eqb s.active current && false) ≡ false = ground arith in
        first (tries fd current false e) (rw (acquire_round, free, misses) refl)
          (current-Drains fd _ (rw (acquire_round, free, misses) refl))
  ]

  taken-Drains : (fd : ℕ) (s : Listener) → s.acceptor ≡ taken fd → Drains s
  unfolding begin_acquire
  taken-Drains fd s e = elim (Bool-cases (leb_ℤ max_clients (pos 0))) [
    | inl unlimited ↦
        first (begins fd e) (rw (begin_acquire, unlimited) refl)
          (launching-Drains fd _ (rw (begin_acquire, unlimited) refl))
    | inr limited ↦
        first (begins fd e) (rw (begin_acquire, limited) refl)
          (current-Drains fd _ (rw (begin_acquire, limited) refl))
  ]

  acceptor-Drains : (a : Acceptor) (s : Listener) → s.acceptor ≡ a → Drains s
  acceptor-Drains waiting s e = workers-Drains s.workers s refl (ap is_quiet e)
  acceptor-Drains (taken fd) s e = taken-Drains fd s e
  acceptor-Drains (acquiring fd current) s e = acquiring-Drains fd current s e
  acceptor-Drains (refusing fd) s e = refusing-Drains fd s e
  acceptor-Drains (launching fd) s e = launching-Drains fd s e
  acceptor-Drains (cleaning fd) s e = cleaning-Drains fd s e
  acceptor-Drains giving_back s e = giving_back-Drains s e
  acceptor-Drains stopped s e = workers-Drains s.workers s refl (ap is_quiet e)

-- Nobody has a connection.
in_hand_quiet : (fd : ℕ) (a : Acceptor) → is_quiet a ≡ true → (in_hand fd a ≡ 0) × (held_by a ≡ 0)
in_hand_quiet fd waiting q = (refl, refl)
in_hand_quiet fd (taken d) q = absurd (ground (arith, q))
in_hand_quiet fd (acquiring d current) q = absurd (ground (arith, q))
in_hand_quiet fd (refusing d) q = absurd (ground (arith, q))
in_hand_quiet fd (launching d) q = absurd (ground (arith, q))
in_hand_quiet fd (cleaning d) q = absurd (ground (arith, q))
in_hand_quiet fd giving_back q = absurd (ground (arith, q))
in_hand_quiet fd stopped q = (refl, refl)

-- With a positive limit, from every state that the threads can reach there are steps, none of them an
-- `accept`, after which no thread has a connection, every slot has been given back and every accepted
-- descriptor has been closed, as often as it was accepted.
pub drains :
    (limit : ℕ) {s : Listener}
    → 0 < limit
    → Steps (pos limit) new_listener s
    → (d : Drains (pos limit) s) × (d.final.active ≡ pos 0)
      × ((fd : ℕ) → occurs fd s.accepted ≡ occurs fd d.final.closed)
drains limit {s} some_limit run =
    let d = acceptor-Drains (pos limit) s.acceptor s refl in
    let whole = Steps-append (pos limit) run d.steps in
    let c = Steps-IsCounted limit some_limit whole in
    let none_held = (in_hand_quiet 0 d.final.acceptor d.quiet).1 in
    (
      d,
      c.exact ∙ ap pos (omega (arith, none_held, ap length d.none_working)),
      λ fd.
          ap (occurs fd) (sym d.none_accepted)
          ∙ omega (
            arith,
            Steps-IsBalanced (pos limit) fd whole,
            (in_hand_quiet fd d.final.acceptor d.quiet).0,
            ap (at_work fd) d.none_working,
          ),
    )
