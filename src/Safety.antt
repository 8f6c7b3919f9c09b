-- ===== src/Safety.antt =====
-- agent-backend/app/core/safety.py: `validate`, the chain of gates between a proposed action and its
-- execution.
pub mod Types
pub mod Gates
pub mod Guarded
pub mod Cleared
pub mod Denials
pub mod Override
mod Tests
use ai_devops_copilot.Base.{true, []}
use ai_devops_copilot.Base.Effects.{Eff}
use ai_devops_copilot.World.{World}
use ai_devops_copilot.Policy.{Policy}
use Types.{Request, SafetyResult, Progress, Flow, stop, go, all_checks_passed, ◌>>=◌}
use Gates.{
  proposed_type, anomaly_gate, causality_gate, cascade_guard, policy_gate, loop_gate,
  idempotency_gate, namespace_gate, severity_gate, blast_radius_gate, rate_gate, budget_gate,
}

-- the `return` of the source, early or last
unfoldable pub outcome : Flow → SafetyResult
outcome (stop r) = r
outcome (go p) = record {
  allowed = true;
  action = p.action_type;
  reason = all_checks_passed;
  checks = p.checks;
}

module _ (w : World) (policy : Policy) (req : Request w.floats.Real) where
  open w use {State}

  -- the gates up to the policy decision, before the store is asked about loops
  unfoldable pub propose : Progress → Eff State Flow
  propose p₀ = do
    p₁ ← anomaly_gate w policy req p₀
    p₂ ← causality_gate w policy req p₁
    p₃ ← cascade_guard w policy req p₂
    policy_gate w policy req p₃

  unfoldable pub guard : Progress → Eff State Flow
  guard p₀ = do
    p₁ ← loop_gate w policy req p₀
    p₂ ← idempotency_gate w policy req p₁
    p₃ ← namespace_gate w policy req p₂
    p₄ ← severity_gate w policy req p₃
    p₅ ← blast_radius_gate w policy req p₄
    p₆ ← rate_gate w policy req p₅
    budget_gate w policy req p₆

  unfoldable pub gates : Progress → Eff State Flow
  gates p = propose p >>= guard

  abbrev pub start : Progress
  start = record { action_type = proposed_type req.proposed_action; checks = [] }

  unfoldable pub validate : Eff State SafetyResult
  unfolding outcome
  validate s = let (flow, s') = gates start s in (outcome flow, s')
