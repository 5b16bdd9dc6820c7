-- ===== src/Bench/Tests/Coalescing.antt =====
-- The theorem on `MeasureCoalescingBehavior` of src/bench/cache_bench.cpp at a concrete input.
use distributed_cache.Prelude.{ℕ, zero, suc, ◌*◌, ◌-◌, ◌/◌, ◌<◌, ◌≤◌, ◌≡◌, refl, arith}
use distributed_cache.Prelude.Map.{lookup, insert}
use distributed_cache.Core.Coalescer.{returned, at, enter, settle, leave}
use distributed_cache.Bench.Shares.{size_add}
use distributed_cache.Bench.Coalescing.{
  Ratio, Burst, new_burst, burst_key, request, hit, finish, BurstSteps, requests, hits, finishes,
  not_started, and_step, Joined, Measurement, no_burst, one_more, coalescing_result,
}
use distributed_cache.Bench.Coalescing.Plain.{
  PlainWorker, waiting, at_work, done, PlainBurst, new_plain_burst, plain_request, plain_hit,
  PlainSteps, asks, works, PlainMeasurement,
}
use distributed_cache.Bench.Coalescing.Plain
use distributed_cache.Bench.Coalescing.Compared.{
  coalescing_bursts, coalescing_concurrency, coalescing_compared,
}

-- Percentages, in whole numbers.
abbrev percentage : Ratio ℕ
percentage = record { from_size = λ n. n; zero_ratio = 0; div = λ a b. 100 * a / b }

-- Two threads ask, one works for both.
abbrev after_burst : Burst
after_burst = finish 0 2 0 (hit 0 2 0 (request 0 2 1 (request 0 2 0 new_burst)))

burst_runs : BurstSteps 0 2 new_burst after_burst
unfolding request hit finish enter settle leave at burst_key lookup insert
burst_runs =
    and_step
      (and_step
        (and_step (and_step not_started (requests 0 (omega arith) refl))
          (requests 1 (omega arith) refl))
        (hits 0 refl))
      (finishes 0 refl)

back_to_zero : (i : ℕ) → i < 2 → after_burst.coalescer.phase i ≡ returned 0
unfolding request hit finish enter settle leave at burst_key lookup insert
back_to_zero zero l = refl
back_to_zero (suc zero) l = refl
back_to_zero (suc (suc i)) l = absurd (omega arith)

after_burst-Joined : Joined 2 after_burst
after_burst-Joined = record { leader = λ i. 0; back = back_to_zero }

abbrev measured :
    Measurement 2 1 (size_add 0 after_burst.backend_hits) (size_add 0 after_burst.total_requests)
measured = one_more no_burst burst_runs after_burst-Joined

-- Without the coalescer both work.
abbrev after_plain_burst : PlainBurst
after_plain_burst = plain_hit 1 (plain_request 1 (plain_hit 0 (plain_request 0 new_plain_burst)))

plain_burst_runs : PlainSteps 2 after_plain_burst
unfolding plain_request plain_hit at
plain_burst_runs = works 1 (omega arith) refl (
    asks 1 (omega arith) refl
      (works 0 (omega arith) refl (asks 0 (omega arith) refl Plain.not_started)))

plain_burst-done : (i : ℕ) → i < 2 → after_plain_burst.worker i ≡ done
unfolding plain_request plain_hit at
plain_burst-done zero l = refl
plain_burst-done (suc zero) l = refl
plain_burst-done (suc (suc i)) l = absurd (omega arith)

abbrev plain_measured :
    PlainMeasurement 2 1
      (size_add 0 after_plain_burst.backend_hits)
      (size_add 0 after_plain_burst.total_requests)
plain_measured = Plain.one_more Plain.no_burst plain_burst_runs plain_burst-done

-- With 1999 operations and one stripe, one burst of two threads.
one_burst : Measurement (coalescing_concurrency 1) (coalescing_bursts 1999) 1 2
unfolding coalescing_concurrency coalescing_bursts request hit finish enter settle leave at
    burst_key lookup insert size_add
one_burst = measured

plain_one_burst : PlainMeasurement (coalescing_concurrency 1) (coalescing_bursts 1999) 2 2
unfolding coalescing_concurrency coalescing_bursts plain_request plain_hit at size_add
plain_one_burst = plain_measured

-- The requests of both measurements.
abbrev two_requests : ℕ
two_requests = 2

coalescing_compared_example :
    (two_requests ≡ two_requests)
    × (1 ≤ 2)
    × (coalescing_bursts 1999 ≤ 1)
    × (two_requests ≡ two_requests)
    × (coalescing_result percentage (coalescing_bursts 1999) 1 2 ≡ (record {
      duplicate_backend_hits = 1 - coalescing_bursts 1999;
      coalescing_hit_ratio = 100 * (2 - 1) / 2;
    }))
    × (coalescing_result percentage (coalescing_bursts 1999) 2 2 ≡ (record {
      duplicate_backend_hits = 2 - coalescing_bursts 1999;
      coalescing_hit_ratio = 100 * 0 / 2;
    }))
coalescing_compared_example = coalescing_compared percentage 1999 1 one_burst plain_one_burst

-- One hit for two requests.
half_hit :
    coalescing_result percentage 1 1 2
    ≡ (record { duplicate_backend_hits = 0; coalescing_hit_ratio = 50 })
unfolding coalescing_result
half_hit = refl
