-- ===== src/Anomaly/Gate.antt =====
-- What a score without a baseline does to the safety stack.
use ai_devops_copilot.Base.{◌<◌, ◌≡◌, refl, ◌∙◌, true, Option, none, some, lt→ltb}
use ai_devops_copilot.World.{World, Floats}
use ai_devops_copilot.Actions.{IsDestructive}
use ai_devops_copilot.Policy.{Policy}
use ai_devops_copilot.Anomaly.{
  Baseline, Baselines, get_baseline, score_against, compute_anomaly_score,
}
use ai_devops_copilot.Safety.Types.{Request, deny}
use ai_devops_copilot.Safety.Gates.{proposed_type, anomaly_gate}
use ai_devops_copilot.Safety.{outcome, propose, gates, validate}
use ai_devops_copilot.Safety.Denials.{Denied}

-- what the gate relies on of the floats 0.0 and 2.0
pub record IsOrdered (fl : Floats) : Type 0 where
  pub ge-zero : fl.ge (fl.lit 0 1) (fl.lit 0 1) ≡ true
  pub lt-two : fl.lt (fl.lit 0 1) (fl.lit 2 1) ≡ true

-- no baseline, or one of too few samples
abbrev pub Untrusted : {R : Type 0} → Option (Baseline R) → Type 0
Untrusted none = Unit
Untrusted (some baseline) = baseline.sample_count < 5

module _ (es : World) (baselines : Baselines es) where
  score_against-Untrusted :
      (error_ratio : es.floats.Real) (baseline : Option (Baseline es.floats.Real))
      → Untrusted baseline
      → score_against es baselines error_ratio baseline ≡ es.floats.lit 0 1
  unfolding score_against
  score_against-Untrusted error_ratio none h = refl
  score_against-Untrusted error_ratio (some baseline) h = rw (lt→ltb baseline.sample_count 5 h) refl

  -- A destructive proposal is denied, and nothing is read or written for it, where its anomaly
  -- score was computed without a baseline, or from one of fewer than five samples.
  pub compute_anomaly_score-validate :
      (laws : IsOrdered es.floats) (policy : Policy) (req : Request es.floats.Real)
      (error_ratio : es.floats.Real) (s later : es.State)
      → IsDestructive (proposed_type req.proposed_action)
      → Untrusted (get_baseline es baselines req.service s).0
      → req.anomaly_score ≡ (compute_anomaly_score es baselines req.service error_ratio s).0
      → let (result, after) = validate es policy req later in Denied result × (after ≡ later)
  unfolding compute_anomaly_score validate gates propose anomaly_gate outcome deny
  compute_anomaly_score-validate laws policy req error_ratio s later d untrusted scored =
      let zero_score =
        scored
        ∙ score_against-Untrusted error_ratio (get_baseline es baselines req.service s).0
            untrusted in
      rw (zero_score, d, laws.ge-zero, laws.lt-two) ((refl, refl), refl)
