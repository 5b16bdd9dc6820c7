-- ===== src/Bench/Coalescing/Bursts.antt =====
-- How often the backend is asked in a burst.
use distributed_cache.Prelude.{
  ℕ, zero, suc, ◌^◌, ◌<◌, ◌≤◌, Bytes, bytes_key, nat_eqb, nat_eqb_iff, ltb, ◌≡◌, ◌≢◌, ◌⊎◌, inl, inr,
  refl, sym, ap, ◌∙◌, Option, none, some, arith, Bool-cases, Option-cases,
}
use distributed_cache.Prelude.Map.{lookup}
use distributed_cache.Core.Coalescer.{
  Settled, Phase, calling, working, leaving, returned, RequestCoalescer, at, enter, settle, leave,
  enters, settles, leaves,
}
use distributed_cache.Core.Coalescer.SingleFlight.{
  IsCoherent, Step-IsCoherent, new_coalescer-IsCoherent,
}
use distributed_cache.Bench.Shares.Rounds.{size_add-exact}
use distributed_cache.Bench.Coalescing.{
  burst_key, payload, Burst, new_burst, request, hit, finish, requests, hits, finishes, BurstSteps,
  not_started, and_step, Joined,
}
use distributed_cache.Bench.Coalescing.Sums.{
  sum_below, sum_below_le, sum_below_all, sum_below_one, at_self, at_other, at-sum_below,
}

-- A call that asked, and one that has a hit.
abbrev asked : Phase → ℕ
asked calling = 0
asked working = 1
asked leaving = 1
asked (returned leader) = 1

abbrev answered : Option Settled → ℕ
answered none = 0
answered (some s) = 1

answered_one : (o : Option Settled) → answered o ≤ 1
answered_one none = omega arith
answered_one (some s) = omega arith

asked_one : (p : Phase) → asked p ≤ 1
asked_one calling = omega arith
asked_one working = omega arith
asked_one leaving = omega arith
asked_one (returned leader) = omega arith

-- What `enter` does to the phases.
record Entered (i : ℕ) (c d : RequestCoalescer) : Type 0 where
  phase_after : Phase
  phases : d.phase ≡ at i phase_after c.phase
  promises : d.promise ≡ c.promise
  one_asked : asked phase_after ≡ 1

enter-Entered :
    (key : ℕ → Bytes) (work : ℕ → Settled) (i : ℕ) (c : RequestCoalescer)
    → Entered i c (enter key work i c)
unfolding enter
enter-Entered key work i c = elim (Option-cases (lookup (key i) c.inflight)) [
  | inl new ↦
      rw (enter, new)
        (record { phase_after = working; phases = refl; promises = refl; one_asked = refl })
  | inr (leader, found) ↦
      rw (enter, found)
        (record { phase_after = returned leader; phases = refl; promises = refl; one_asked = refl })
]

module _ (burst n : ℕ) (small : n < 2 ^ 64) where
  abbrev same_key : ℕ → Bytes
  same_key j = burst_key burst

  abbrev same_work : ℕ → Settled
  same_work j = payload

  -- The counters count the calls that asked, and those whose work ran.
  record IsTallied (b : Burst) : Type 0 where
    coherent : IsCoherent same_key same_work b.coalescer
    hits_tally : b.backend_hits ≡ sum_below n (λ j. answered (b.coalescer.promise j))
    requests_tally : b.total_requests ≡ sum_below n (λ j. asked (b.coalescer.phase j))
    not_answered :
        (j : ℕ)
        → (b.coalescer.phase j ≡ calling) ⊎ (b.coalescer.phase j ≡ working)
        → b.coalescer.promise j ≡ none
    beyond : (j : ℕ) → n ≤ j → b.coalescer.phase j ≡ calling

  new_burst-IsTallied : IsTallied new_burst
  new_burst-IsTallied = record {
    coherent = new_coalescer-IsCoherent same_key same_work;
    hits_tally = sym (none_below n);
    requests_tally = sym (none_below n);
    not_answered = λ j h. refl;
    beyond = λ j l. refl;
  }
    where
      none_below : (m : ℕ) → sum_below m (λ j. 0) ≡ 0
      none_below zero = refl
      none_below (suc m) = omega (arith, none_below m)

  -- The phases of the other calls.
  elsewhere :
      (i j : ℕ) (after : Phase) (b : Burst) {f : ℕ → Phase}
      → i < n
      → n ≤ j
      → f ≡ at i after b.coalescer.phase
      → f j ≡ b.coalescer.phase j
  elsewhere i j after b l k phases =
      ap (λ g. g j) phases
      ∙ at_other i j after b.coalescer.phase (λ e. absurd (omega (arith, e, l, k)))

  still_none :
      (i j : ℕ) (after : Phase) (b : Burst) {f : ℕ → Phase}
      → IsTallied b
      → b.coalescer.phase i ≡ calling
      → (f j ≡ calling) ⊎ (f j ≡ working)
      → f ≡ at i after b.coalescer.phase
      → b.coalescer.promise j ≡ none
  still_none i j after b t e h phases = elim (Bool-cases (nat_eqb i j)) [
    | inl same ↦ rw (← (nat_eqb_iff i j).0 same) (t.not_answered i (inl e))
    | inr other ↦
        let ne : i ≢ j = ground (arith, other) in
        let back = sym (ap (λ g. g j) phases ∙ at_other i j after b.coalescer.phase ne) in
        t.not_answered j (elim h [ inl c ↦ inl (back ∙ c) | inr w ↦ inr (back ∙ w) ])
  ]

  -- A call that is past its work does not wait for it.
  not_waiting :
      (i j : ℕ) (after : Phase) (b : Burst)
      → after ≢ calling
      → after ≢ working
      → (at i after b.coalescer.phase j ≡ calling) ⊎ (at i after b.coalescer.phase j ≡ working)
      → (i ≢ j) × ((b.coalescer.phase j ≡ calling) ⊎ (b.coalescer.phase j ≡ working))
  not_waiting i j after b a w h = elim (Bool-cases (nat_eqb i j)) [
    | inl same ↦
        let here : at i after b.coalescer.phase j ≡ after =
          ap (at i after b.coalescer.phase) (sym ((nat_eqb_iff i j).0 same))
          ∙ at_self i after b.coalescer.phase in
        elim h [ inl c ↦ absurd (a (sym here ∙ c)) | inr d ↦ absurd (w (sym here ∙ d)) ]
    | inr other ↦
        let ne : i ≢ j = ground (arith, other) in
        let back = sym (at_other i j after b.coalescer.phase ne) in
        (ne, elim h [ inl c ↦ inl (back ∙ c) | inr d ↦ inr (back ∙ d) ])
  ]

  -- A call that is not calling is one of the burst's.
  one_of : (i : ℕ) (b : Burst) → IsTallied b → b.coalescer.phase i ≢ calling → i < n
  one_of i b t busy = elim (Bool-cases (ltb i n)) [
    | inl within ↦ ground (arith, within)
    | inr out ↦ absurd (busy (t.beyond i (ground (arith, out))))
  ]

  request-IsTallied :
      (i : ℕ) (b : Burst)
      → i < n
      → b.coalescer.phase i ≡ calling
      → IsTallied b
      → IsTallied (request burst n i b)
  unfolding request
  request-IsTallied i b l e t =
      let c = b.coalescer in
      let entered = enter-Entered same_key same_work i c in
      let bound = sum_below_le n (λ j. asked (c.phase j)) (λ j. asked_one (c.phase j)) in
      let tally = at-sum_below asked n i entered.phase_after c.phase l in
      let after = ap (λ f. sum_below n (λ j. asked (f j))) entered.phases in
      let most =
        sum_below_le n (λ j. asked (at i entered.phase_after c.phase j))
          (λ j. asked_one (at i entered.phase_after c.phase j)) in
      record {
        coherent = Step-IsCoherent same_key same_work (enters i e) t.coherent;
        hits_tally =
            t.hits_tally ∙ ap (λ f. sum_below n (λ j. answered (f j))) (sym entered.promises);
        requests_tally = omega (
          arith,
          t.requests_tally,
          tally,
          after,
          most,
          entered.one_asked,
          ap asked e,
          size_add-exact b.total_requests 1
              (omega (arith, t.requests_tally, tally, most, entered.one_asked, ap asked e)),
        );
        not_answered = λ j h.
            ap (λ f. f j) entered.promises
            ∙ still_none i j entered.phase_after b t e h entered.phases;
        beyond = λ j k. elsewhere i j entered.phase_after b l k entered.phases ∙ t.beyond j k;
      }

  hit-IsTallied :
      (i : ℕ) (b : Burst)
      → b.coalescer.phase i ≡ working
      → IsTallied b
      → IsTallied (hit burst n i b)
  unfolding hit settle
  hit-IsTallied i b e t =
      let c = b.coalescer in
      let l = one_of i b t (λ h. cc) in
      let tally = at-sum_below answered n i (some payload) c.promise l in
      let most =
        sum_below_le n (λ j. answered (at i (some payload) c.promise j))
          (λ j. answered_one (at i (some payload) c.promise j)) in
      let before = ap answered (t.not_answered i (inr e)) in
      record {
        coherent = Step-IsCoherent same_key same_work (settles i e) t.coherent;
        hits_tally = omega (
          arith,
          t.hits_tally,
          tally,
          before,
          size_add-exact b.backend_hits 1 (omega (arith, t.hits_tally, tally, most, before)),
        );
        requests_tally =
            omega (arith, t.requests_tally, at-sum_below asked n i leaving c.phase l, ap asked e);
        not_answered = λ j h.
            let (ne, before_j) = not_waiting i j leaving b (λ x. cc) (λ x. cc) h in
            at_other i j (some payload) c.promise ne ∙ t.not_answered j before_j;
        beyond = λ j k. elsewhere i j leaving b l k refl ∙ t.beyond j k;
      }

  finish-IsTallied :
      (i : ℕ) (b : Burst)
      → b.coalescer.phase i ≡ leaving
      → IsTallied b
      → IsTallied (finish burst n i b)
  unfolding finish leave
  finish-IsTallied i b e t =
      let c = b.coalescer in
      let l = one_of i b t (λ h. cc) in
      record {
        coherent = Step-IsCoherent same_key same_work (leaves i e) t.coherent;
        hits_tally = t.hits_tally;
        requests_tally =
            omega
              (arith, t.requests_tally, at-sum_below asked n i (returned i) c.phase l, ap asked e);
        not_answered =
            λ j h. t.not_answered j (not_waiting i j (returned i) b (λ x. cc) (λ x. cc) h).1;
        beyond = λ j k. elsewhere i j (returned i) b l k refl ∙ t.beyond j k;
      }

  BurstSteps-IsTallied : {b : Burst} → BurstSteps burst n new_burst b → IsTallied b
  BurstSteps-IsTallied not_started = new_burst-IsTallied
  BurstSteps-IsTallied (and_step {c} run (requests i l e)) =
      request-IsTallied i c l e (BurstSteps-IsTallied run)
  BurstSteps-IsTallied (and_step {c} run (hits i e)) =
      hit-IsTallied i c e (BurstSteps-IsTallied run)
  BurstSteps-IsTallied (and_step {c} run (finishes i e)) =
      finish-IsTallied i c e (BurstSteps-IsTallied run)

  -- The leader of a joined call has its hit.
  leader_answered :
      (leader : ℕ) (b : Burst)
      → IsTallied b
      → Joined n b
      → (b.coalescer.phase leader ≡ working) ⊎ (b.coalescer.promise leader ≡ some payload)
      → 1 ≤ sum_below n (λ j. answered (b.coalescer.promise j))
  leader_answered leader b t joined (inl w) =
      let l = one_of leader b t (λ x. cc) in absurd (ground (arith, w, joined.back leader l))
  leader_answered leader b t joined (inr found) =
      let l =
        one_of leader b t (λ x. absurd (ground (arith, found, t.not_answered leader (inl x)))) in
      omega
        (arith, sum_below_one n leader (λ j. answered (b.coalescer.promise j)) l, ap answered found)

  no_future :
      (b : Burst) → IsTallied b → Joined n b → (k : Bytes) → lookup k b.coalescer.inflight ≡ none
  no_future b t joined k = elim (Option-cases (lookup k b.coalescer.inflight)) [
    | inl missing ↦ missing
    | inr (p, found) ↦
        let (_, active) = t.coherent.owned k p found in
        let l = one_of p b t (λ x. absurd (ground (arith, x, active))) in
        absurd (ground (arith, active, joined.back p l))
  ]

  -- After a burst of at least one call, of fewer than 2^64, whatever the order of its steps: the backend
  -- was asked at least once and at most once for a call, every call is counted, and no future is left in
  -- the coalescer's map, so that the next burst finds it as a new one.
  pub calls_counted :
      {b : Burst}
      → 0 < n
      → BurstSteps burst n new_burst b
      → Joined n b
      → (1 ≤ b.backend_hits)
        × (b.backend_hits ≤ n)
        × (b.total_requests ≡ n)
        × ((k : Bytes) → lookup k b.coalescer.inflight ≡ none)
  calls_counted {b} pos run joined =
      let t = BurstSteps-IsTallied run in
      let all =
        sum_below_all n (λ j. asked (b.coalescer.phase j)) (λ j l. ap asked (joined.back j l)) in
      let most =
        sum_below_le n (λ j. answered (b.coalescer.promise j))
          (λ j. answered_one (b.coalescer.promise j)) in
      let leader = joined.leader 0 in
      let (same, coming) = t.coherent.future 0 leader (joined.back 0 pos) in
      let least = leader_answered leader b t joined coming in
      (
        omega (arith, least, t.hits_tally),
        omega (arith, most, t.hits_tally),
        omega (arith, all, t.requests_tally),
        no_future b t joined,
      )
