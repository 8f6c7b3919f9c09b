-- ===== src/Approval/Required.antt =====
-- Which actions go ahead without a human.
use ai_devops_copilot.Base.{String, ◌==◌, ◌≡◌, true, false, Option, [], ◌∷◌, arith, contains}
use ai_devops_copilot.Actions.{IsDestructive}
use ai_devops_copilot.Approval.{requires_approval, is_critical}

-- For a destructive action, no approval is asked for exactly if the service is not marked critical,
-- the action is not a rollback, the blast radius is neither high nor critical, and the confidence
-- is high.
pub requires_approval_iff :
    (action_type service confidence score : String) (criticality : Option String)
    → IsDestructive action_type
    → ((requires_approval action_type service confidence score criticality).0 ≡ false
        → (is_critical criticality ≡ false)
          × ((action_type == "rollback") ≡ false)
          × (contains ("high" ∷ "critical" ∷ []) score ≡ false)
          × ((confidence == "high") ≡ true))
      × ((is_critical criticality ≡ false)
          → ((action_type == "rollback") ≡ false)
          → (contains ("high" ∷ "critical" ∷ []) score ≡ false)
          → ((confidence == "high") ≡ true)
          → (requires_approval action_type service confidence score criticality).0 ≡ false)
unfolding requires_approval
requires_approval_iff action_type service confidence score criticality d =
    (λ h. ground arith, λ a b c e. ground arith)
