-- ===== src/Safety/Denials.antt =====
-- The two shapes of a result of `validate`.
use ai_devops_copilot.Base.{◌≡◌, refl, true, false, ◌⊎◌, inl, inr, arith}
use ai_devops_copilot.Base.Effects.{Eff}
use ai_devops_copilot.World.{World}
use ai_devops_copilot.Policy.{Policy}
use ai_devops_copilot.Safety.Types.{
  Request, SafetyResult, Progress, Flow, stop, go, all_checks_passed, ◌>>=◌, >>=-eq-stop,
}
use ai_devops_copilot.Safety.Gates.{
  anomaly_gate, causality_gate, cascade_guard, policy_gate, loop_gate, idempotency_gate,
  namespace_gate, severity_gate, blast_radius_gate, rate_gate, budget_gate,
}
use ai_devops_copilot.Safety.{outcome, propose, guard, gates, validate}

abbrev pub Denied : SafetyResult → Type 0
Denied r = (r.allowed ≡ false) × (r.action ≡ "no_action")

-- if it stops, it denies
pub record IsDenying {S : Type 0} (m : Eff S Flow) : Type 0 where
  pub at : (s : S) (r : SafetyResult) → (m s).0 ≡ stop r → Denied r

IsDenying-bind :
    {S : Type 0} (m : Eff S Flow) (f : Progress → Eff S Flow)
    → IsDenying m
    → ((p : Progress) → IsDenying (f p))
    → IsDenying (m >>= f)
IsDenying-bind m f d k = record {
  at = λ s r h. elim (>>=-eq-stop m f s h) [
    | inl e ↦ d.at s r e
    | inr (p, e) ↦ (k p).at (m s).1 r e
  ];
}

module _ (w : World) (policy : Policy) (req : Request w.floats.Real) (p : Progress) where
  anomaly-denies : IsDenying (anomaly_gate w policy req p)
  unfolding anomaly_gate
  anomaly-denies = record { at = λ s r h. ground arith }

  causality-denies : IsDenying (causality_gate w policy req p)
  unfolding causality_gate
  causality-denies = record { at = λ s r h. ground arith }

  cascade-denies : IsDenying (cascade_guard w policy req p)
  unfolding cascade_guard
  cascade-denies = record { at = λ s r h. ground arith }

  policy-denies : IsDenying (policy_gate w policy req p)
  unfolding policy_gate
  policy-denies = record { at = λ s r h. cc }

  loop-denies : IsDenying (loop_gate w policy req p)
  unfolding loop_gate
  loop-denies = record { at = λ s r h. ground arith }

  idempotency-denies : IsDenying (idempotency_gate w policy req p)
  unfolding idempotency_gate
  idempotency-denies = record { at = λ s r h. ground arith }

  namespace-denies : IsDenying (namespace_gate w policy req p)
  unfolding namespace_gate
  namespace-denies = record { at = λ s r h. ground arith }

  severity-denies : IsDenying (severity_gate w policy req p)
  unfolding severity_gate
  severity-denies = record { at = λ s r h. ground arith }

  blast_radius-denies : IsDenying (blast_radius_gate w policy req p)
  unfolding blast_radius_gate
  blast_radius-denies = record { at = λ s r h. ground arith }

  rate-denies : IsDenying (rate_gate w policy req p)
  unfolding rate_gate
  rate-denies = record { at = λ s r h. ground arith }

  budget-denies : IsDenying (budget_gate w policy req p)
  unfolding budget_gate
  budget-denies = record { at = λ s r h. ground arith }

ruleset denials = (
  IsDenying-bind, anomaly-denies, causality-denies, cascade-denies, policy-denies, loop-denies,
  idempotency-denies, namespace-denies, severity-denies, blast_radius-denies, rate-denies,
  budget-denies,
)

module _ (w : World) (policy : Policy) (req : Request w.floats.Real) where
  propose-denies : (p : Progress) → IsDenying (propose w policy req p)
  unfolding propose
  propose-denies p = search denials depth 12

  guard-denies : (p : Progress) → IsDenying (guard w policy req p)
  unfolding guard
  guard-denies p = search denials depth 16

  pub gates-denies : (p : Progress) → IsDenying (gates w policy req p)
  unfolding gates
  gates-denies p =
      IsDenying-bind (propose w policy req p) (guard w policy req) (propose-denies p) guard-denies

abbrev pub Shape : SafetyResult → Type 0
Shape r = (r.allowed ≡ true) × (r.reason ≡ all_checks_passed) ⊎ Denied r

outcome-Shape :
    (flow : Flow) → ((r : SafetyResult) → flow ≡ stop r → Denied r) → Shape (outcome flow)
unfolding outcome
outcome-Shape (stop r) d = inr (d r refl)
outcome-Shape (go p) d = inl (refl, refl)

-- Every result either allows the action, with the reason of all checks passed, or denies it and turns
-- it into `no_action`.
pub validate-Shape :
    (w : World) (policy : Policy) (req : Request w.floats.Real) (s : w.State)
    → Shape (validate w policy req s).0
unfolding validate
validate-Shape w policy req s =
    outcome-Shape (gates w policy req _ s).0 (λ r. (gates-denies w policy req _).at s r)
