-- ===== src/Bench/Coalescing/Compared.antt =====
-- src/bench/cache_bench.cpp: how often `main` has the coalescing measured, without the coalescer and with it.
use distributed_cache.Prelude.{
  ℕ, zero, suc, ◌-◌, ◌*◌, ◌/◌, ◌%◌, ◌^◌, ◌<◌, ◌≤◌, ltb, ◌≡◌, ◌∙◌, sym, ap, arith, if◌then◌else◌,
}
use distributed_cache.Bench.Coalescing.{Ratio, Measurement, coalescing_result}
use distributed_cache.Bench.Coalescing.Result.{
  report, reported, Measurement_counts, coalescing_result_exact,
}
use distributed_cache.Bench.Coalescing.Plain.{
  PlainMeasurement, PlainMeasurement_counts, coalescing_result_plain,
}

unfoldable pub coalescing_bursts : (ops : ℕ) → ℕ
coalescing_bursts ops =
    let most = if ltb (ops / 1000) 20 then ops / 1000 else 20 in if ltb 1 most then most else 1

unfoldable pub coalescing_concurrency : (stripes : ℕ) → ℕ
coalescing_concurrency stripes =
    let twice = stripes * 2 % 2 ^ 64 in
    let most = if ltb twice 8 then twice else 8 in if ltb 2 most then most else 2

coalescing_bursts_range : (ops : ℕ) → (0 < coalescing_bursts ops) × (coalescing_bursts ops ≤ 20)
unfolding coalescing_bursts
coalescing_bursts_range ops = (ground arith, ground arith)

coalescing_concurrency_range :
    (stripes : ℕ) → (1 < coalescing_concurrency stripes) × (coalescing_concurrency stripes ≤ 8)
unfolding coalescing_concurrency
coalescing_concurrency_range stripes = (ground arith, ground arith)

few : (bursts n : ℕ) → n ≤ 8 → bursts * n ≤ bursts * 8
few zero n l = omega arith
few (suc bursts) n l = omega (arith, few bursts n l)

-- Both measurements of `main`, with any number of operations and of stripes, whatever the order of the
-- steps of the workers: as many requests are made with the coalescer as without it; the backend is asked no
-- more often with it than without it, and at least once in each burst; without it, it is asked at each
-- request. Both reports are exact: the duplicates are the hits beyond one for each burst, and the ratio is
-- that of the requests that were no hit to all requests. No counter and no subtraction wraps around.
pub coalescing_compared {ℓ} :
    {D : Type ℓ} (d : Ratio D) (ops stripes : ℕ) {hits_on requests_on hits_off requests_off : ℕ}
    → Measurement (coalescing_concurrency stripes) (coalescing_bursts ops) hits_on requests_on
    → PlainMeasurement
        (coalescing_concurrency stripes)
        (coalescing_bursts ops)
        hits_off
        requests_off
    → (requests_on ≡ requests_off)
      × (hits_on ≤ hits_off)
      × (coalescing_bursts ops ≤ hits_on)
      × (hits_off ≡ requests_off)
      × (coalescing_result d (coalescing_bursts ops) hits_on requests_on ≡ (record {
        duplicate_backend_hits = d.from_size (hits_on - coalescing_bursts ops);
        coalescing_hit_ratio =
            d.div (d.from_size (requests_on - hits_on)) (d.from_size requests_on);
      }))
      × (coalescing_result d (coalescing_bursts ops) hits_off requests_off ≡ (record {
        duplicate_backend_hits = d.from_size (hits_off - coalescing_bursts ops);
        coalescing_hit_ratio = d.div (d.from_size 0) (d.from_size requests_off);
      }))
coalescing_compared d ops stripes {hits_on} {requests_on} {hits_off} {requests_off} on off =
    let bursts = coalescing_bursts ops in
    let n = coalescing_concurrency stripes in
    let (some_burst, at_most_20) = coalescing_bursts_range ops in
    let (several, at_most_8) = coalescing_concurrency_range stripes in
    let small : n < 2 ^ 64 = omega (arith, at_most_8) in
    let all_small : bursts * n < 2 ^ 64 = omega (arith, at_most_20, few bursts n at_most_8) in
    let pos : 0 < n = omega (arith, several) in
    let (least, most, made) = Measurement_counts pos small on all_small in
    let (each, asked) = PlainMeasurement_counts n small off all_small in
    let (_, _, result) = coalescing_result_exact d pos some_burst small all_small on in
    let plain = coalescing_result_plain n small d pos some_burst all_small off in
    (
      omega (arith, made, asked),
      omega (arith, most, each),
      least,
      omega (arith, each, asked),
      result
          ∙ sym (
              ap
                (λ x.
                  reported (d.from_size (hits_on - bursts))
                    (d.div (d.from_size (x - hits_on)) (d.from_size x)))
                made),
      plain
          ∙ report (ap (λ x. d.from_size (x - bursts)) (sym each))
              (ap (λ x. d.div (d.from_size 0) (d.from_size x)) (sym asked)),
    )
