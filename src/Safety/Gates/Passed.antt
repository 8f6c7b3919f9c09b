-- ===== src/Safety/Gates/Passed.antt =====
-- What each gate has checked when it goes on, and what it does to the action.
use ai_devops_copilot.Base.{◌<◌, ◌==◌, ◌≡◌, true, false, ◌⊎◌, [], ◌∷◌, arith, contains}
use ai_devops_copilot.Actions.{safe_actions, IsDestructive}
use ai_devops_copilot.World.{World}
use ai_devops_copilot.Policy.{Policy, action}
use ai_devops_copilot.Decision.{apply_policy}
use ai_devops_copilot.MemoryStore.Incidents.{minutes, count_unresolved_actions}
use ai_devops_copilot.MemoryStore.Locks.{try_acquire_action_lock}
use ai_devops_copilot.LoopDetector.{check_loop}
use ai_devops_copilot.Safety.Types.{Request, Progress, go}
use ai_devops_copilot.Safety.Gates.{
  proposed_namespace, rate_limit_of, blast_radius_ok, count_budget, anomaly_gate, causality_gate,
  cascade_guard, policy_gate, loop_gate, idempotency_gate, namespace_gate, severity_gate,
  blast_radius_gate, rate_gate, budget_gate,
}

module _ (w : World) (policy : Policy) (req : Request w.floats.Real) (p : Progress) (s : w.State)
    {q : Progress} where
  pub anomaly-go :
      (anomaly_gate w policy req p s).0 ≡ go q
      → (q.action_type ≡ p.action_type)
        × (IsDestructive p.action_type
            → w.floats.ge req.anomaly_score (w.floats.lit 0 1) ≡ true
            → w.floats.lt req.anomaly_score (w.floats.lit 2 1) ≡ false)
  unfolding anomaly_gate
  anomaly-go h = ground arith

  pub causality-go :
      (causality_gate w policy req p s).0 ≡ go q
      → (q.action_type ≡ p.action_type)
        × ((contains safe_actions p.action_type ≡ true) ⊎ (req.causality_verified ≡ true))
  unfolding causality_gate
  causality-go h = ground arith

  pub cascade-go :
      (cascade_guard w policy req p s).0 ≡ go q
      → (q.action_type ≡ p.action_type) ⊎ (q.action_type ≡ "notify")
  unfolding cascade_guard
  cascade-go h = ground arith

  pub policy-go :
      (policy_gate w policy req p s).0 ≡ go q
      → q.action_type
        ≡ (apply_policy policy p.action_type req.error_type req.severity req.confidence).action
  unfolding policy_gate
  policy-go h = ground arith

  pub loop-go :
      (loop_gate w policy req p s).0 ≡ go q
      → ((check_loop w req.service req.error_type 60 s).0.freeze ≡ false)
        × (((q.action_type ≡ p.action_type)
              × ((check_loop w req.service req.error_type 60 s).0.loop_detected ≡ false))
            ⊎ (q.action_type ≡ "notify"))
  unfolding loop_gate
  loop-go h = ground arith

  pub idempotency-go :
      (idempotency_gate w policy req p s).0 ≡ go q
      → (q.action_type ≡ p.action_type)
        × ((contains safe_actions p.action_type ≡ true)
            ⊎ ((try_acquire_action_lock w req.service p.action_type
                  policy.global.idempotency_window_seconds s).0
                ≡ true))
  unfolding idempotency_gate
  idempotency-go h = ground arith

  pub namespace-go :
      (namespace_gate w policy req p s).0 ≡ go q
      → (q.action_type ≡ p.action_type)
        × (contains policy.global.protected_namespaces (proposed_namespace req.proposed_action)
            ≡ false)
  unfolding namespace_gate
  namespace-go h = ground arith

  pub severity-go :
      (severity_gate w policy req p s).0 ≡ go q
      → (q.action_type ≡ p.action_type)
        × (IsDestructive p.action_type
            → (contains ("high" ∷ "critical" ∷ []) req.severity ≡ true)
              × ((req.confidence == "low") ≡ false))
  unfolding severity_gate
  severity-go h = ground arith

  pub blast_radius-go :
      (blast_radius_gate w policy req p s).0 ≡ go q
      → (q.action_type ≡ p.action_type)
        × (IsDestructive p.action_type
            → contains ("high" ∷ "critical" ∷ []) req.blast_radius_score ≡ true
            → blast_radius_ok w policy req ≡ true)
  unfolding blast_radius_gate
  blast_radius-go h = ground arith

  pub rate-go :
      (rate_gate w policy req p s).0 ≡ go q
      → (q.action_type ≡ p.action_type)
        × (IsDestructive p.action_type
            → 0 < rate_limit_of (action policy p.action_type)
            → (count_unresolved_actions w req.service req.error_type (minutes 10) s).0
              < rate_limit_of (action policy p.action_type))
  unfolding rate_gate
  rate-go h = ground arith

  pub budget-go :
      (budget_gate w policy req p s).0 ≡ go q
      → (q.action_type ≡ p.action_type)
        × (IsDestructive p.action_type
            → (count_budget w policy req ("restart_pod" ∷ "rollback" ∷ "scale_up" ∷ []) s).0
              < policy.global.action_budget_per_hour)
  unfolding budget_gate
  budget-go h = ground arith
