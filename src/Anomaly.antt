-- ===== src/Anomaly.antt =====
-- agent-backend/app/core/anomaly.py: the baseline of a service's error ratio and the score of a
-- window against it. The index of baselines and the arithmetic that World leaves out are parameters;
-- the score that is logged, rounded, is left out.
pub mod Gate
mod Tests
use ai_devops_copilot.Base.{
  ℕ, suc, String, Bool, true, false, not, ◌&&◌, ◌||◌, Option, none, some, List, [], ◌∷◌, codes,
  lower, is_infix, length, ltb, if◌then◌else◌,
}
use ai_devops_copilot.Base.Effects.{Eff, Reply, ok, raised, ◌>>=◌, try_call, pure}
use ai_devops_copilot.World.{World}

-- a document of `devops-baselines`
pub record Baseline (R : Type 0) : Type 0 where
  pub mean_error_ratio : R
  pub std_error_ratio : R
  pub sample_count : ℕ

-- what the client answers for the index, and the functions of floats that only this file uses;
-- `search_ratios` hands back the error ratio of each incident of a service since a number of days
pub record Baselines (es : World) : Type 0 where
  pub get : String → Eff es.State (Reply (Option (Baseline es.floats.Real)))
  pub index : String → Baseline es.floats.Real → Eff es.State (Reply (Unit {0}))
  pub search_ratios : String → ℕ → Eff es.State (Reply (List (Option es.floats.Real)))
  pub plus : es.floats.Real → es.floats.Real → es.floats.Real
  pub sqrt : es.floats.Real → es.floats.Real
  pub round6 : es.floats.Real → es.floats.Real

abbrev pub min_samples : ℕ
min_samples = 5

module _ (es : World) (baselines : Baselines es) where
  open es use {floats, State}
  open floats use {Real, lit, lt, minus, times, over}
  open baselines use {get, index, search_ratios, plus, sqrt, round6}

  unfoldable pub get_baseline : String → Eff State (Option (Baseline Real))
  get_baseline service = try_call (get service) (λ found. found) (λ e. none)

  unfoldable pub score_against : Real → Option (Baseline Real) → Real
  score_against error_ratio none = lit 0 1
  score_against error_ratio (some baseline) =
      if ltb baseline.sample_count min_samples
      then lit 0 1
      else if lt baseline.std_error_ratio (lit 1 1_000_000)
      then if lt (lit 0 1) error_ratio then lit 10 1 else lit 0 1
      else over (minus error_ratio baseline.mean_error_ratio) baseline.std_error_ratio

  unfoldable pub compute_anomaly_score : String → Real → Eff State Real
  unfolding get_baseline score_against
  compute_anomaly_score service error_ratio s =
      let (baseline, s1) = get_baseline service s in (score_against error_ratio baseline, s1)

  -- `sum(xs)`, from a total on
  unfoldable pub sum : Real → List Real → Real
  sum total [] = total
  sum total (x ∷ xs) = sum (plus total x) xs

  -- `[(x - mean) ** 2 for x in error_ratios]`
  unfoldable pub squares : Real → List Real → List Real
  squares mean [] = []
  squares mean (x ∷ xs) = times (minus x mean) (minus x mean) ∷ squares mean xs

  unfoldable pub baseline_of : List Real → Baseline Real
  unfolding sum squares
  baseline_of error_ratios =
      let n = lit (length error_ratios) 1 in
      let mean = over (sum (lit 0 1) error_ratios) n in
      let variance = over (sum (lit 0 1) (squares mean error_ratios)) n in
      record {
        mean_error_ratio = round6 mean;
        std_error_ratio = round6 (sqrt variance);
        sample_count = length error_ratios;
      }

  unfoldable pub update_baseline : String → List Real → Eff State (Unit {0})
  unfolding baseline_of
  update_baseline service [] = pure tt
  update_baseline service (x ∷ xs) =
      try_call (index service (baseline_of (x ∷ xs))) (λ u. tt) (λ e. tt)

  unfoldable pub present : List (Option Real) → List Real
  present [] = []
  present (none ∷ ratios) = present ratios
  present (some ratio ∷ ratios) = ratio ∷ present ratios

  unfoldable pub refresh_found : String → Reply (List (Option Real)) → Eff State (Unit {0})
  unfolding present update_baseline
  refresh_found service (ok ratios) = update_baseline service (present ratios)
  refresh_found service (raised e) = pure tt

  unfoldable pub refresh_baseline_for_service : String → ℕ → Eff State (Unit {0})
  unfolding refresh_found
  refresh_baseline_for_service service lookback_days = do
    found ← search_ratios service lookback_days
    refresh_found service found
