-- ===== src/Bench/Report/Rows.antt =====
-- The results of the scenarios have the requests that were planned.
use distributed_cache.Prelude.{
  ℕ, zero, suc, ◌+◌, ◌<◌, ◌≡◌, refl, sym, ap, ◌∙◌, some, List, [], ◌∷◌, length, get_elem?, map,
  arith,
}
use distributed_cache.Bench.Shares.{ScenarioSpec}
use distributed_cache.Bench.Shares.Rounds.{total}
use distributed_cache.Bench.Setup.{Conversions, Plan}
use distributed_cache.Bench.Setup.Accepted.{IsReady}
use distributed_cache.Bench.Report.{
  Interpolation, ScenarioResult, Totals, scenario_result, scenario_results,
}

-- The numbers from an index on.
abbrev from : ℕ → List ℕ → List ℕ
from zero rs = rs
from (suc i) [] = []
from (suc i) (r ∷ rs) = from i rs

from_next :
    (i : ℕ) (rs : List ℕ)
    → i < length rs
    → (r : ℕ) × (get_elem? rs i ≡ some r) × (from i rs ≡ r ∷ from (suc i) rs)
from_next zero [] l = absurd (omega arith)
from_next zero (r ∷ rs) l = (r, refl, refl)
from_next (suc i) [] l = absurd (omega arith)
from_next (suc i) (r ∷ rs) l = from_next i rs (omega arith)

from_end : (i : ℕ) (rs : List ℕ) → i ≡ length rs → from i rs ≡ []
from_end zero [] e = refl
from_end zero (r ∷ rs) e = absurd (omega arith)
from_end (suc i) [] e = refl
from_end (suc i) (r ∷ rs) e = from_end i rs (omega arith)

module _ {ℓ} {D : Type ℓ} (d : Interpolation D) (t : Totals d) where
  scenario_results_from :
      (specs : List ScenarioSpec) (requests : List ℕ) (i : ℕ)
      → i + length specs ≡ length requests
      → (rows : List (ScenarioResult D)) × (scenario_results d t requests i specs ≡ some rows)
        × (map (λ row. row.requests) rows ≡ from i requests)
        × (map (λ row. row.name) rows ≡ map (λ s. s.name) specs)
  unfolding scenario_results scenario_result
  scenario_results_from [] requests i e = ([], refl, sym (from_end i requests (omega arith)), refl)
  scenario_results_from (spec ∷ specs) requests i e =
      let (r, found, next) = from_next i requests (omega arith) in
      let (rows, ends, asked, names) = scenario_results_from specs requests (suc i) (omega arith) in
      (
        scenario_result d t spec r ∷ rows,
        rw (scenario_results, found, ends) refl,
        ap (λ rs. r ∷ rs) asked ∙ sym next,
        ap (λ ns. spec.name ∷ ns) names,
      )

-- For a plan that is ready every scenario has a result under its name, no index is out of bounds, and the requests of the results add up to the operations.
module _ {ℓ} {D : Type ℓ} (d : Interpolation D) ⦃c : Conversions D⦄ (t : Totals d) where
  scenario_results-IsReady :
      (p : Plan D)
      → IsReady p
      → (rows : List (ScenarioResult D)) × (scenario_results d t p.scenario_requests 0
            p.scenario_specs
          ≡ some rows)
        × (map (λ row. row.name) rows ≡ map (λ s. s.name) p.scenario_specs)
        × (total (map (λ row. row.requests) rows) ≡ p.config.ops)
  scenario_results-IsReady p h =
      let each = h.one_each in
      let (rows, found, asked, names) =
        scenario_results_from d t p.scenario_specs p.scenario_requests 0 (omega arith) in
      (rows, found, names, ap total asked ∙ h.all_given)
