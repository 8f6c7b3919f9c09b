-- ===== src/Decision.antt =====
-- agent-backend/app/core/decision.py: the policy check of one proposed action.
pub mod Table
use ai_devops_copilot.Base.{
  String, ◌≡◌, refl, Bool, true, false, ◌⊎◌, inl, inr, List, [], ◌∷◌, arith, contains,
  if◌then◌else◌, contains-cons_self,
}
use ai_devops_copilot.Policy.{Policy, lookup_decision}

-- `reason`, by its message
pub data Reason : Type 0 where
  no_policy : Reason
  allowed_by : (action error_type severity confidence : String) → Reason
  overridden_to : (action : String) → (allowed : List String) → (override : String) → Reason

pub record DecisionResult : Type 0 where
  pub allowed : Bool
  pub action : String
  pub original : String
  pub reason : Reason

-- `if not allowed:` … `if proposed_action in allowed:` … `override = allowed[0]`
unfoldable pub decide : List String → String → String → String → String → DecisionResult
decide [] proposed error_type severity confidence = record {
  allowed = false;
  action = "no_action";
  original = proposed;
  reason = no_policy;
}
decide (override ∷ rest) proposed error_type severity confidence =
    if contains (override ∷ rest) proposed
    then record {
      allowed = true;
      action = proposed;
      original = proposed;
      reason = allowed_by proposed error_type severity confidence;
    }
    else record {
      allowed = false;
      action = override;
      original = proposed;
      reason = overridden_to proposed (override ∷ rest) override;
    }

unfoldable pub apply_policy : Policy → String → String → String → String → DecisionResult
unfolding decide
apply_policy policy proposed error_type severity confidence =
    decide (lookup_decision policy error_type severity confidence) proposed error_type severity
      confidence

abbrev pub Verdict : List String → String → DecisionResult → Type 0
Verdict allowed proposed r =
    (r.original ≡ proposed)
    × (contains allowed r.action ≡ true ⊎ (allowed ≡ []) × (r.action ≡ "no_action"))
    × (r.allowed ≡ true → (r.action ≡ proposed) × (contains allowed proposed ≡ true))
    × (contains allowed proposed ≡ true → r.allowed ≡ true)

decide-Verdict :
    (allowed : List String) (proposed error_type severity confidence : String)
    → Verdict allowed proposed (decide allowed proposed error_type severity confidence)
unfolding decide
decide-Verdict [] proposed error_type severity confidence = unfold contains in ground arith
decide-Verdict (a ∷ rest) proposed error_type severity confidence =
    ground (arith, contains-cons_self a rest)

-- The action that comes out stands in the allowed list of the matching row, or is `no_action` where
-- that list is empty; the decision says "allowed" exactly for a proposed action that stands in the
-- list, and then it is the action that comes out.
pub apply_policy-Verdict :
    (policy : Policy) (proposed error_type severity confidence : String)
    → Verdict
        (lookup_decision policy error_type severity confidence)
        proposed
        (apply_policy policy proposed error_type severity confidence)
unfolding apply_policy
apply_policy-Verdict policy proposed error_type severity confidence =
    decide-Verdict (lookup_decision policy error_type severity confidence) proposed error_type
      severity confidence
