-- ===== src/Bench/Coalescing.antt =====
-- src/bench/cache_bench.cpp: `MeasureCoalescingBehavior`. The proofs are in the modules below.
pub mod Sums
pub mod Bursts
pub mod Result
pub mod Plain
pub mod Compared
use distributed_cache.Prelude.{
  ℕ, zero, suc, ◌+◌, ◌-◌, ◌<◌, Bytes, codes, ltb, ◌≡◌, if◌then◌else◌, ◌++◌,
}
use distributed_cache.Prelude.Decimal.{to_string}
use distributed_cache.Core.Coalescer.{
  Settled, value_set, Phase, calling, working, leaving, returned, RequestCoalescer, new_coalescer,
  enter, settle, leave,
}
use distributed_cache.Bench.Shares.{size_add, size_sub}

-- All that the code does with a `double` here.
pub record Ratio {ℓ} (D : Type ℓ) : Type ℓ where
  pub from_size : ℕ → D
  pub zero_ratio : D
  pub div : D → D → D

pub record CoalescingBenchmarkResult {ℓ} (D : Type ℓ) : Type ℓ where
  pub duplicate_backend_hits : D
  pub coalescing_hit_ratio : D

-- The key of a burst, and what the work gives.
unfoldable pub burst_key : ℕ → Bytes
unfolding to_string
burst_key burst = codes "coalescing_key_" ++ to_string burst

abbrev pub payload : Settled
payload = value_set (codes "payload")

-- The coalescer during a burst, and what the burst adds to the two counters.
pub record Burst : Type 0 where
  pub coalescer : RequestCoalescer
  pub backend_hits : ℕ
  pub total_requests : ℕ

abbrev pub new_burst : Burst
new_burst = record { coalescer = new_coalescer; backend_hits = 0; total_requests = 0 }

-- A step of one of the burst's threads, which all call `Execute` with the burst's key: a thread counts its
-- request and enters; works, and counts the hit; or leaves.
module _ (burst concurrency : ℕ) where
  unfoldable pub request : ℕ → Burst → Burst
  unfolding burst_key enter size_add
  request i b = record b {
    coalescer = enter (λ j. burst_key burst) (λ j. payload) i b.coalescer;
    total_requests = size_add b.total_requests 1;
  }

  unfoldable pub hit : ℕ → Burst → Burst
  unfolding burst_key settle size_add
  hit i b = record b {
    coalescer = settle (λ j. burst_key burst) (λ j. payload) i b.coalescer;
    backend_hits = size_add b.backend_hits 1;
  }

  unfoldable pub finish : ℕ → Burst → Burst
  unfolding burst_key leave
  finish i b = record b { coalescer = leave (λ j. burst_key burst) (λ j. payload) i b.coalescer }

  pub data BurstStep (b : Burst) : Burst → Type 0 where
    requests : (i : ℕ) → i < concurrency → b.coalescer.phase i ≡ calling → BurstStep b (request i b)
    hits : (i : ℕ) → b.coalescer.phase i ≡ working → BurstStep b (hit i b)
    finishes : (i : ℕ) → b.coalescer.phase i ≡ leaving → BurstStep b (finish i b)

  pub data BurstSteps (b : Burst) : Burst → Type 0 where
    not_started : BurstSteps b b
    and_step : {c d : Burst} → BurstSteps b c → BurstStep c d → BurstSteps b d

-- Every thread is joined.
pub record Joined (concurrency : ℕ) (b : Burst) : Type 0 where
  pub leader : ℕ → ℕ
  pub back : (i : ℕ) → i < concurrency → b.coalescer.phase i ≡ returned (leader i)

-- The bursts one after the other, with both counters after them.
pub data Measurement (concurrency : ℕ) : (bursts backend_hits total_requests : ℕ) → Type 0 where
  no_burst : Measurement concurrency 0 0 0
  one_more :
      {bursts backend_hits total_requests : ℕ} {b : Burst}
      → Measurement concurrency bursts backend_hits total_requests
      → BurstSteps bursts concurrency new_burst b
      → Joined concurrency b
      → Measurement concurrency
          (suc bursts)
          (size_add backend_hits b.backend_hits)
          (size_add total_requests b.total_requests)

-- What is made of the counters.
unfoldable pub coalescing_result {ℓ} :
    {D : Type ℓ} → Ratio D → (bursts hits requests : ℕ) → CoalescingBenchmarkResult D
unfolding size_sub
coalescing_result d bursts found asked = record {
  duplicate_backend_hits = d.from_size (if ltb bursts found then size_sub found bursts else 0);
  coalescing_hit_ratio =
      if ltb 0 asked
      then d.div (d.from_size (size_sub asked found)) (d.from_size asked)
      else d.zero_ratio;
}
