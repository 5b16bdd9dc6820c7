-- ===== src/Server/Listener/Slots.antt =====
-- The counter is the number of the slots in use.
use distributed_cache.Prelude.{
  ℕ, suc, ◌+◌, ◌≤◌, ◌<◌, ℤ, pos, negsuc, leb_ℤ, ◌≡◌, refl, ap, ◌∙◌, Bool, true, ◌&&◌, ◌∷◌, ◌++◌,
  length, length-append, arith, Bool-cases, inl, inr,
}
use distributed_cache.Server.Listener.{
  refuse_client, launch_worker, fail_launch, begin_cleanup, end_cleanup, end_handler, end_worker,
  int_suc, int_pred, int_eqb, Acceptor, waiting, taken, acquiring, refusing, launching, cleaning,
  giving_back, stopped, handling, releasing, Listener, new_listener, accept_fd, begin_acquire,
  acquire_round, Step, accepts, stops, begins, tries, refuses, launches, fails, cleans, gives_back,
  finishes, releases, Steps, none_yet, and_then,
}

-- The slot that the accepting thread holds.
abbrev pub held_by : Acceptor → ℕ
held_by waiting = 0
held_by (taken fd) = 0
held_by (acquiring fd current) = 0
held_by (refusing fd) = 0
held_by (launching fd) = 1
held_by (cleaning fd) = 1
held_by giving_back = 1
held_by stopped = 0

abbrev pub slots : Listener → ℕ
slots s = held_by s.acceptor + length s.workers

pub record IsCounted (limit : ℕ) (s : Listener) : Type 0 where
  pub exact : s.active ≡ pos (slots s)
  pub bounded : slots s ≤ limit

-- A slot is given back.
release-IsCounted :
    (limit n : ℕ) (s t : Listener)
    → IsCounted limit s
    → slots s ≡ suc n
    → t.active ≡ int_pred s.active
    → slots t ≡ n
    → IsCounted limit t
unfolding int_pred
release-IsCounted limit n s t c e f g = record {
  exact = f ∙ ap int_pred (c.exact ∙ ap pos e) ∙ ap pos (ground (arith, g));
  bounded = omega (arith, c.bounded, e, g);
}

int_eqb_pos : (n : ℕ) (b : ℤ) → int_eqb (pos n) b ≡ true → b ≡ pos n
unfolding int_eqb
int_eqb_pos n (pos m) e = ap pos (ground (arith, e))
int_eqb_pos n (negsuc m) e = absurd (ground (arith, e))

module _ (limit : ℕ) (some_limit : 0 < limit) where
  acquire_round-IsCounted :
      (fd : ℕ) (current : ℤ) (exchanges : Bool) (s : Listener)
      → s.acceptor ≡ acquiring fd current
      → IsCounted limit s
      → IsCounted limit (acquire_round (pos limit) fd current exchanges s)
  unfolding acquire_round int_suc int_eqb
  acquire_round-IsCounted fd current exchanges s e c =
      elim (Bool-cases (leb_ℤ (pos limit) current)) [
        | inl full ↦
            rw (acquire_round, full)
              (record {
                exact = ground (arith, c.exact, e);
                bounded = ground (arith, c.bounded, e);
              })
        | inr free ↦ elim (Bool-cases (int_eqb s.active current && exchanges)) [
          | inl taken_over ↦
              rw (acquire_round, free, taken_over)
                (let now : s.active ≡ pos (length s.workers) = ground (arith, c.exact, e) in
                  let read : current ≡ pos (length s.workers) =
                    int_eqb_pos (length s.workers) current (ground (arith, taken_over, now)) in
                  record {
                    exact = ap int_suc read ∙ ap pos (omega arith);
                    bounded = ground (arith, free, read);
                  })
          | inr again ↦
              rw (acquire_round, free, again)
                (record {
                  exact = ground (arith, c.exact, e);
                  bounded = ground (arith, c.bounded, e);
                })
        ]
      ]

  Step-IsCounted : {s t : Listener} → Step (pos limit) s t → IsCounted limit s → IsCounted limit t
  unfolding accept_fd refuse_client launch_worker fail_launch begin_cleanup end_cleanup end_handler
      end_worker begin_acquire
  Step-IsCounted {s} (accepts fd e) c = record {
    exact = ground (arith, c.exact, e);
    bounded = ground (arith, c.bounded, e);
  }
  Step-IsCounted {s} (stops e) c = record {
    exact = ground (arith, c.exact, e);
    bounded = ground (arith, c.bounded, e);
  }
  Step-IsCounted {s} (begins fd e) c = record {
    exact = ground (arith, c.exact, e);
    bounded = ground (arith, c.bounded, e);
  }
  Step-IsCounted {s} (tries fd current exchanges e) c =
      acquire_round-IsCounted fd current exchanges s e c
  Step-IsCounted {s} (refuses fd e) c = record {
    exact = ground (arith, c.exact, e);
    bounded = ground (arith, c.bounded, e);
  }
  Step-IsCounted {s} (launches fd e) c = record {
    exact = ground (arith, c.exact, e);
    bounded = ground (arith, c.bounded, e);
  }
  Step-IsCounted {s} (fails fd e) c = record {
    exact = ground (arith, c.exact, e);
    bounded = ground (arith, c.bounded, e);
  }
  Step-IsCounted {s} (cleans fd e) c = record {
    exact = ground (arith, c.exact, e);
    bounded = ground (arith, c.bounded, e);
  }
  Step-IsCounted {s} (gives_back e) c =
      release-IsCounted limit (length s.workers) s _ c (ground (arith, e)) refl (omega arith)
  Step-IsCounted {s} (finishes before after fd e) c =
      let same : length (before ++ releasing ∷ after) ≡ length s.workers = omega (
        arith,
        length-append before (releasing ∷ after),
        length-append before (handling fd ∷ after),
        ap length e,
      ) in
      record { exact = rw (same) c.exact; bounded = rw (same) c.bounded }
  Step-IsCounted {s} (releases before after e) c =
      let fewer : length s.workers ≡ suc (length (before ++ after)) = omega (
        arith,
        length-append before (releasing ∷ after),
        length-append before after,
        ap length e,
      ) in
      release-IsCounted limit (held_by s.acceptor + length (before ++ after)) s _ c
        (omega (arith, fewer)) refl refl

  -- With a positive limit, whatever the accepting thread and the workers do in any order, launches that
  -- fail and exchanges that fail included, the counter is the number of workers that have not released
  -- their slot, and one more if the accepting thread holds a slot, and that is not above the limit.
  pub Steps-IsCounted : {s : Listener} → Steps (pos limit) new_listener s → IsCounted limit s
  Steps-IsCounted none_yet = record { exact = refl; bounded = omega arith }
  Steps-IsCounted (and_then run step) = Step-IsCounted step (Steps-IsCounted run)
