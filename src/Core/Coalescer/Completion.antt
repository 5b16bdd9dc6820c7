-- ===== src/Core/Coalescer/Completion.antt =====
-- No caller waits in vain.
use distributed_cache.Prelude.{
  ℕ, Bytes, bytes_key, nat_eqb_iff, ◌≡◌, ◌⊎◌, inl, inr, refl, some, Option-cases, arith,
}
use distributed_cache.Prelude.Map.{lookup}
use distributed_cache.Core.Coalescer.{
  Settled, Phase, calling, working, leaving, returned, RequestCoalescer, new_coalescer, at, enter,
  settle, leave, Step, enters, settles, leaves, Steps, none_yet, and_then,
}
use distributed_cache.Core.Coalescer.SingleFlight.{
  IsComing, IsCoherent, Step-IsCoherent, Steps-IsCoherent, new_coalescer-IsCoherent,
}

phase_cases :
    (f : Phase)
    → (f ≡ calling) ⊎ ((f ≡ working) ⊎ ((f ≡ leaving) ⊎ ((leader : ℕ) × (f ≡ returned leader))))
phase_cases calling = inl refl
phase_cases working = inr (inl refl)
phase_cases leaving = inr (inr (inl refl))
phase_cases (returned leader) = inr (inr (inr (leader, refl)))

module _ (key : ℕ → Bytes) (work : ℕ → Settled) where
  -- The call is back, with the future of a call for its key, which has been settled.
  pub record IsServed (i : ℕ) (c : RequestCoalescer) : Type 0 where
    pub leader : ℕ
    pub back : c.phase i ≡ returned leader
    pub same_key : key leader ≡ key i
    pub answer : c.promise leader ≡ some (work leader)

  -- More steps after which it is.
  pub record Completes (i : ℕ) (c : RequestCoalescer) : Type 0 where
    pub final : RequestCoalescer
    pub steps : Steps key work c final
    pub served : IsServed i final

  Steps-append :
      {c d e : RequestCoalescer} → Steps key work c d → Steps key work d e → Steps key work c e
  Steps-append run none_yet = run
  Steps-append run (and_then more step) = and_then (Steps-append run more) step

  after : {i : ℕ} {c d : RequestCoalescer} → Step key work c d → Completes i d → Completes i c
  after step g = record {
    final = g.final;
    steps = Steps-append (and_then none_yet step) g.steps;
    served = g.served;
  }

  returned-Completes :
      (i leader : ℕ) (c : RequestCoalescer)
      → c.phase i ≡ returned leader
      → key leader ≡ key i
      → IsComing key work leader c
      → Completes i c
  unfolding settle at
  returned-Completes i leader c e same (inr there) = record {
    final = c;
    steps = none_yet;
    served = record { leader = leader; back = e; same_key = same; answer = there };
  }
  returned-Completes i leader c e same (inl busy) = record {
    final = settle key work leader c;
    steps = and_then none_yet (settles leader busy);
    served = record {
      leader = leader;
      back = ground (arith, e, busy, nat_eqb_iff leader i);
      same_key = same;
      answer = ground (arith, nat_eqb_iff leader leader);
    };
  }

  leaving-Completes :
      (i : ℕ) (c : RequestCoalescer)
      → c.phase i ≡ leaving
      → c.promise i ≡ some (work i)
      → Completes i c
  unfolding leave at
  leaving-Completes i c e kept = after (leaves i e) (
      returned-Completes i i (leave key work i c) (ground (arith, nat_eqb_iff i i)) refl (inr kept))

  working-Completes : (i : ℕ) (c : RequestCoalescer) → c.phase i ≡ working → Completes i c
  unfolding settle at
  working-Completes i c e = after (settles i e) (
      leaving-Completes i (settle key work i c) (ground (arith, nat_eqb_iff i i))
        (ground (arith, nat_eqb_iff i i)))

  calling-Completes :
      (i : ℕ) (c : RequestCoalescer) → IsCoherent key work c → c.phase i ≡ calling → Completes i c
  unfolding enter at
  calling-Completes i c v e = after (enters i e) (elim (Option-cases (lookup (key i) c.inflight)) [
    | inl new ↦ working-Completes i (enter key work i c) (ground (arith, new, nat_eqb_iff i i))
    | inr (leader, found) ↦
        let back : (enter key work i c).phase i ≡ returned leader =
          ground (arith, found, nat_eqb_iff i i) in
        let w = Step-IsCoherent key work (enters i e) v in
        let (same, coming) = w.future i leader back in
        returned-Completes i leader (enter key work i c) back same coming
  ])

  IsCoherent-Completes : (i : ℕ) (c : RequestCoalescer) → IsCoherent key work c → Completes i c
  IsCoherent-Completes i c v = elim (phase_cases (c.phase i)) [
    | inl e ↦ calling-Completes i c v e
    | inr (inl e) ↦ working-Completes i c e
    | inr (inr (inl e)) ↦ leaving-Completes i c e (v.kept i e)
    | inr (inr (inr (leader, e))) ↦
        let (same, coming) = v.future i leader e in returned-Completes i leader c e same coming
  ]

  -- Whatever calls have run in any order, every call can still be completed: there are steps after which
  -- it is back, with the future of a call for the same key, and that future has been set to what the work
  -- of that call gives, a value or an exception.
  pub completes : {c : RequestCoalescer} (i : ℕ) → Steps key work new_coalescer c → Completes i c
  completes {c} i run =
      IsCoherent-Completes i c (Steps-IsCoherent key work run (new_coalescer-IsCoherent key work))
