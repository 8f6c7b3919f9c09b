-- ===== src/Safety/Override.antt =====
-- The policy gate may put a table action in the place of a safe one, after the gates that judge the
-- proposed action have looked at the safe one.
use ai_devops_copilot.Base.{String, ◌≡◌, refl, true, false, List, ◌∷◌, arith, contains}
use ai_devops_copilot.Actions.{safe_actions, destructive_actions}
use ai_devops_copilot.World.{World}
use ai_devops_copilot.Policy.{Policy, lookup_decision}
use ai_devops_copilot.Decision.{apply_policy}
use ai_devops_copilot.Safety.Types.{
  Request, Progress, Flow, go, note, causality_check, policy_check,
}
use ai_devops_copilot.Safety.Gates.{anomaly_gate, causality_gate, cascade_guard, policy_gate}
use ai_devops_copilot.Safety.{propose}

abbrev pub GoesOnWith : String → Flow → Type 0
GoesOnWith a flow = (q : Progress) × (flow ≡ go q) × (q.action_type ≡ a)

module _ (w : World) (policy : Policy) (req : Request w.floats.Real) (p : Progress) (s : w.State)
    (safe : contains safe_actions p.action_type ≡ true)
    (harmless : contains destructive_actions p.action_type ≡ false) where
  -- If a safe action is proposed that the matching row does not list, the first four gates go on
  -- with the first action of that row, whatever it is, and whatever the anomaly score and the
  -- causality verdict are.
  pub propose_overrides :
      (first : String) (rest : List String)
      → lookup_decision policy req.error_type req.severity req.confidence ≡ first ∷ rest
      → contains (first ∷ rest) p.action_type ≡ false
      → GoesOnWith first (propose w policy req p s).0
  unfolding propose anomaly_gate causality_gate cascade_guard policy_gate apply_policy note
  propose_overrides first rest row unlisted = (
    note (record (note p (causality_check true)) { action_type = first })
        (policy_check false first),
    ground arith,
    refl,
  )
