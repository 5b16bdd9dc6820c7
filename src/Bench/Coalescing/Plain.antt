-- ===== src/Bench/Coalescing/Plain.antt =====
-- src/bench/cache_bench.cpp: `MeasureCoalescingBehavior` without the coalescer.
use distributed_cache.Prelude.{
  ℕ, zero, suc, ◌-◌, ◌*◌, ◌^◌, ◌<◌, ◌≤◌, ltb, ◌≡◌, refl, sym, ap, ◌∙◌, arith, true, if◌then◌else◌,
}
use distributed_cache.Core.Coalescer.{at}
use distributed_cache.Bench.Shares.{size_add, size_sub}
use distributed_cache.Bench.Shares.Rounds.{size_add-exact, size_sub-exact}
use distributed_cache.Bench.Coalescing.{Ratio, coalescing_result}
use distributed_cache.Bench.Coalescing.Result.{report}
use distributed_cache.Bench.Coalescing.Sums.{sum_below, sum_below_le, sum_below_all, at-sum_below}

-- A worker before it counts its request, before its work counts the hit, and after.
pub data PlainWorker : Type 0 where
  waiting : PlainWorker
  at_work : PlainWorker
  done : PlainWorker

pub record PlainBurst : Type 0 where
  pub worker : ℕ → PlainWorker
  pub backend_hits : ℕ
  pub total_requests : ℕ

abbrev pub new_plain_burst : PlainBurst
new_plain_burst = record { worker = λ i. waiting; backend_hits = 0; total_requests = 0 }

unfoldable pub plain_request : ℕ → PlainBurst → PlainBurst
unfolding at size_add
plain_request i b = record b {
  worker = at i at_work b.worker;
  total_requests = size_add b.total_requests 1;
}

unfoldable pub plain_hit : ℕ → PlainBurst → PlainBurst
unfolding at size_add
plain_hit i b = record b { worker = at i done b.worker; backend_hits = size_add b.backend_hits 1 }

pub data PlainSteps (concurrency : ℕ) : PlainBurst → Type 0 where
  not_started : PlainSteps concurrency new_plain_burst
  asks :
      {b : PlainBurst} (i : ℕ)
      → i < concurrency
      → b.worker i ≡ waiting
      → PlainSteps concurrency b
      → PlainSteps concurrency (plain_request i b)
  works :
      {b : PlainBurst} (i : ℕ)
      → i < concurrency
      → b.worker i ≡ at_work
      → PlainSteps concurrency b
      → PlainSteps concurrency (plain_hit i b)

-- The bursts one after the other, each until every worker is joined, with both counters after them.
pub data PlainMeasurement (concurrency : ℕ)
    : (bursts backend_hits total_requests : ℕ) → Type 0 where
  no_burst : PlainMeasurement concurrency 0 0 0
  one_more :
      {bursts backend_hits total_requests : ℕ} {b : PlainBurst}
      → PlainMeasurement concurrency bursts backend_hits total_requests
      → PlainSteps concurrency b
      → ((i : ℕ) → i < concurrency → b.worker i ≡ done)
      → PlainMeasurement concurrency
          (suc bursts)
          (size_add backend_hits b.backend_hits)
          (size_add total_requests b.total_requests)

abbrev begun : PlainWorker → ℕ
begun waiting = 0
begun at_work = 1
begun done = 1

abbrev ended : PlainWorker → ℕ
ended waiting = 0
ended at_work = 0
ended done = 1

begun_one : (w : PlainWorker) → begun w ≤ 1
begun_one waiting = omega arith
begun_one at_work = omega arith
begun_one done = omega arith

ended_one : (w : PlainWorker) → ended w ≤ 1
ended_one waiting = omega arith
ended_one at_work = omega arith
ended_one done = omega arith

module _ (n : ℕ) (small : n < 2 ^ 64) where
  record IsCounted (b : PlainBurst) : Type 0 where
    hits_tally : b.backend_hits ≡ sum_below n (λ j. ended (b.worker j))
    requests_tally : b.total_requests ≡ sum_below n (λ j. begun (b.worker j))

  none_below : (m : ℕ) → sum_below m (λ j. 0) ≡ 0
  none_below zero = refl
  none_below (suc m) = omega (arith, none_below m)

  PlainSteps-IsCounted : {b : PlainBurst} → PlainSteps n b → IsCounted b
  unfolding plain_request plain_hit
  PlainSteps-IsCounted not_started = record {
    hits_tally = sym (none_below n);
    requests_tally = sym (none_below n);
  }
  PlainSteps-IsCounted (asks {b} i l e run) =
      let t = PlainSteps-IsCounted run in
      let tally = at-sum_below begun n i at_work b.worker l in
      let most =
        sum_below_le n (λ j. begun (at i at_work b.worker j))
          (λ j. begun_one (at i at_work b.worker j)) in
      let before = ap begun e in
      record {
        hits_tally =
            omega (arith, t.hits_tally, at-sum_below ended n i at_work b.worker l, ap ended e);
        requests_tally = omega (
          arith,
          t.requests_tally,
          tally,
          before,
          size_add-exact b.total_requests 1 (omega (arith, t.requests_tally, tally, most, before)),
        );
      }
  PlainSteps-IsCounted (works {b} i l e run) =
      let t = PlainSteps-IsCounted run in
      let tally = at-sum_below ended n i done b.worker l in
      let most =
        sum_below_le n (λ j. ended (at i done b.worker j))
          (λ j. ended_one (at i done b.worker j)) in
      let before = ap ended e in
      record {
        hits_tally = omega (
          arith,
          t.hits_tally,
          tally,
          before,
          size_add-exact b.backend_hits 1 (omega (arith, t.hits_tally, tally, most, before)),
        );
        requests_tally =
            omega (arith, t.requests_tally, at-sum_below begun n i done b.worker l, ap begun e);
      }

  pub PlainMeasurement_counts :
      {bursts found made : ℕ}
      → PlainMeasurement n bursts found made
      → bursts * n < 2 ^ 64
      → (found ≡ bursts * n) × (made ≡ bursts * n)
  PlainMeasurement_counts no_burst h = (omega arith, omega arith)
  PlainMeasurement_counts (one_more {bursts} {backend_hits} {total_requests} {b} before run joined)
        h =
      let (all_hits, all_asked) = PlainMeasurement_counts before (omega (arith, h)) in
      let t = PlainSteps-IsCounted run in
      let hits = sum_below_all n (λ j. ended (b.worker j)) (λ j l. ap ended (joined j l)) in
      let asked = sum_below_all n (λ j. begun (b.worker j)) (λ j l. ap begun (joined j l)) in
      let th = t.hits_tally in
      let tr = t.requests_tally in
      (
        omega (
          arith,
          h,
          all_hits,
          hits,
          th,
          size_add-exact backend_hits b.backend_hits (omega (arith, h, all_hits, hits, th)),
        ),
        omega (
          arith,
          h,
          all_asked,
          asked,
          tr,
          size_add-exact total_requests b.total_requests (omega (arith, h, all_asked, asked, tr)),
        ),
      )

  at_least_bursts : (bursts : ℕ) → 0 < n → bursts ≤ bursts * n
  at_least_bursts zero pos = omega arith
  at_least_bursts (suc bursts) pos = omega (arith, at_least_bursts bursts pos)

  -- Without the coalescer every request is a hit: the report has the requests beyond one for each burst, and
  -- the ratio of none to all. No counter and no subtraction wraps around.
  pub coalescing_result_plain {ℓ} :
      {D : Type ℓ} (d : Ratio D) {bursts found made : ℕ}
      → 0 < n
      → 0 < bursts
      → bursts * n < 2 ^ 64
      → PlainMeasurement n bursts found made
      → coalescing_result d bursts found made ≡ (record {
        duplicate_backend_hits = d.from_size (bursts * n - bursts);
        coalescing_hit_ratio = d.div (d.from_size 0) (d.from_size (bursts * n));
      })
  unfolding coalescing_result
  coalescing_result_plain d {bursts} {found} {made} pos some_burst h m =
      let (all_hits, all_asked) = PlainMeasurement_counts m h in
      let some_request = at_least_bursts bursts pos in
      let some_made : 0 < made = omega (arith, all_asked, some_request) in
      let asked : ltb 0 made ≡ true = ground (arith, some_made) in
      let duplicates : (if ltb bursts found then size_sub found bursts else 0)
          ≡ bursts * n - bursts =
        ground (arith, all_hits, size_sub-exact found bursts) in
      let others : size_sub made found ≡ 0 =
        omega (arith, all_hits, all_asked, size_sub-exact made found) in
      let ratio : (if ltb 0 made
            then d.div (d.from_size (size_sub made found)) (d.from_size made)
            else d.zero_ratio)
          ≡ d.div (d.from_size 0) (d.from_size (bursts * n)) =
        rw asked (
          ap (λ x. d.div (d.from_size x) (d.from_size made)) others
          ∙ ap (λ x. d.div (d.from_size 0) (d.from_size x)) all_asked) in
      report (ap d.from_size duplicates) ratio
