-- ===== src/Bench/Coalescing/Result.antt =====
-- What the benchmark reports on the coalescer.
use distributed_cache.Prelude.{
  ℕ, ◌-◌, ◌*◌, ◌^◌, ◌<◌, ◌≤◌, ltb, ◌≡◌, ◌∙◌, arith, if◌then◌else◌, true, ap,
}
use distributed_cache.Bench.Shares.{size_sub}
use distributed_cache.Bench.Shares.Rounds.{size_add-exact, size_sub-exact}
use distributed_cache.Bench.Coalescing.{
  Measurement, no_burst, one_more, Ratio, CoalescingBenchmarkResult, coalescing_result,
}
use distributed_cache.Bench.Coalescing.Bursts.{calls_counted}

pub Measurement_counts :
    {n bursts found made : ℕ}
    → 0 < n
    → n < 2 ^ 64
    → Measurement n bursts found made
    → bursts * n < 2 ^ 64
    → (bursts ≤ found) × (found ≤ bursts * n) × (made ≡ bursts * n)
Measurement_counts pos small no_burst h = (omega arith, omega arith, omega arith)
Measurement_counts {n} pos small
      (one_more {bursts} {backend_hits} {total_requests} {b} before run joined) h =
    let (least, most, all) = Measurement_counts pos small before (omega (arith, h)) in
    let (least', most', all', _) = calls_counted bursts n small pos run joined in
    let found_exact = size_add-exact backend_hits b.backend_hits (omega (arith, h, most, most')) in
    let made_exact = size_add-exact total_requests b.total_requests (omega (arith, h, all, all')) in
    (
      omega (arith, found_exact, least, least'),
      omega (arith, found_exact, most, most'),
      omega (arith, made_exact, all, all'),
    )

abbrev pub reported {ℓ} : {D : Type ℓ} → D → D → CoalescingBenchmarkResult D
reported a b = record { duplicate_backend_hits = a; coalescing_hit_ratio = b }

pub report {ℓ} : {D : Type ℓ} {a b c e : D} → a ≡ c → b ≡ e → reported a b ≡ reported c e
report p q = cc

-- The measurement with the coalescer, of at least one burst of at least one thread, with fewer than 2^64
-- requests in all, whatever the order of the steps in each burst: the backend is asked at least once in
-- each burst and at most once for a request, and the report is exact: the duplicates are the hits beyond
-- one for each burst, and the ratio is that of the requests that were no hit to all requests. No
-- subtraction and no counter wraps around.
pub coalescing_result_exact {ℓ} :
    {D : Type ℓ} (d : Ratio D) {n bursts found made : ℕ}
    → 0 < n
    → 0 < bursts
    → n < 2 ^ 64
    → bursts * n < 2 ^ 64
    → Measurement n bursts found made
    → (bursts ≤ found)
      × (found ≤ bursts * n)
      × (coalescing_result d bursts found made ≡ (record {
        duplicate_backend_hits = d.from_size (found - bursts);
        coalescing_hit_ratio = d.div (d.from_size (bursts * n - found)) (d.from_size (bursts * n));
      }))
unfolding coalescing_result
coalescing_result_exact d {n} {bursts} {found} {made} pos some_burst small h m =
    let (least, most, all) = Measurement_counts pos small m h in
    let asked : ltb 0 made ≡ true = ground (arith, all) in
    let duplicates : (if ltb bursts found then size_sub found bursts else 0) ≡ found - bursts =
      ground (arith, size_sub-exact found bursts) in
    let others : size_sub made found ≡ bursts * n - found =
      omega (arith, all, size_sub-exact made found) in
    let ratio : (if ltb 0 made
          then d.div (d.from_size (size_sub made found)) (d.from_size made)
          else d.zero_ratio)
        ≡ d.div (d.from_size (bursts * n - found)) (d.from_size (bursts * n)) =
      rw asked (
        ap (λ x. d.div (d.from_size x) (d.from_size made)) others
        ∙ ap (λ x. d.div (d.from_size (bursts * n - found)) (d.from_size x)) all) in
    (least, most, report (ap d.from_size duplicates) ratio)
