-- ===== src/Anomaly/Tests.antt =====
-- A service that has been seen three times.
use ai_devops_copilot.Base.{ℕ, ◌+◌, ◌≡◌, refl, true, some, arith, contains, [], ◌∷◌}
use ai_devops_copilot.Base.Effects.{ok}
use ai_devops_copilot.Fixtures.{memory}
use ai_devops_copilot.Fixtures.Requests.{standard, quiet, crash}
use ai_devops_copilot.Anomaly.{Baselines, compute_anomaly_score, get_baseline, score_against}
use ai_devops_copilot.Anomaly.Gate.{IsOrdered, compute_anomaly_score-validate}
use ai_devops_copilot.Safety.{validate}
use ai_devops_copilot.Safety.Types.{Request}
use ai_devops_copilot.Safety.Denials.{Denied}

abbrev young : Baselines memory
young = record {
  get = λ service db.
      (ok (some (record { mean_error_ratio = 100; std_error_ratio = 50; sample_count = 3 })), db);
  index = λ service baseline db. (ok tt, db);
  search_ratios = λ service days db. (ok [], db);
  plus = λ a b. a + b;
  sqrt = λ a. a;
  round6 = λ a. a;
}

thousandths-IsOrdered : IsOrdered memory.floats
thousandths-IsOrdered = record { ge-zero = refl; lt-two = refl }

abbrev scored : Request ℕ
scored = record (crash "restart_pod" true) { anomaly_score = 0 }

is_zero : scored.anomaly_score ≡ (compute_anomaly_score memory young "sample-app" 900 quiet).0
unfolding compute_anomaly_score get_baseline score_against
is_zero = refl

is_destructive : contains ("restart_pod" ∷ "rollback" ∷ "scale_up" ∷ []) "restart_pod" ≡ true
unfolding contains
is_destructive = refl

few :
    (get_baseline memory young "sample-app" quiet).0
    ≡ some (record { mean_error_ratio = 100; std_error_ratio = 50; sample_count = 3 })
unfolding get_baseline
few = refl

compute_anomaly_score-validate_example :
    Denied (validate memory standard scored quiet).0
    × ((validate memory standard scored quiet).1 ≡ quiet)
unfolding get_baseline
compute_anomaly_score-validate_example =
    compute_anomaly_score-validate memory young thousandths-IsOrdered standard scored 900 quiet
      quiet is_destructive (omega arith) is_zero
