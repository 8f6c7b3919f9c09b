-- ===== src/Safety/Cleared.antt =====
-- What stands behind a destructive action that `validate` lets through.
use ai_devops_copilot.Base.{String, ◌≡◌, refl, true, false, ◌⊎◌, inl, inr, contains, ◌∙◌}
use mathlib.Core.Path.{subst}
use ai_devops_copilot.Actions.{safe_actions, destructive_actions, IsDestructive}
use ai_devops_copilot.World.{World}
use ai_devops_copilot.Policy.{Policy, lookup_decision}
use ai_devops_copilot.Decision.{apply_policy, apply_policy-Verdict}
use ai_devops_copilot.Safety.Types.{Request, Progress, Flow, stop, go, >>=-eq-go}
use ai_devops_copilot.Safety.Gates.{proposed_type, anomaly_gate, causality_gate, cascade_guard}
use ai_devops_copilot.Safety.Gates.Passed.{anomaly-go, causality-go, policy-go}
use ai_devops_copilot.Safety.{outcome, propose, guard, gates, start, validate}
use ai_devops_copilot.Safety.Denials.{gates-denies}
use ai_devops_copilot.Safety.Guarded.{
  NotLooping, Locked, Unprotected, Severe, Contained, BelowRate, WithinBudget, guard-Clears,
}

not-no_action : (a : String) → IsDestructive a → a ≡ "no_action" → ⊥
unfolding contains
not-no_action a d e = let d' : contains destructive_actions "no_action" ≡ true = rw e at d in cc

module _ (w : World) (policy : Policy) (req : Request w.floats.Real) where
  abbrev pub InTable : String → Type 0
  InTable a = contains (lookup_decision policy req.error_type req.severity req.confidence) a ≡ true

  abbrev pub Verified : String → Type 0
  Verified proposed = (contains safe_actions proposed ≡ true) ⊎ (req.causality_verified ≡ true)

  abbrev pub Anomalous : String → Type 0
  Anomalous proposed =
      IsDestructive proposed
      → w.floats.ge req.anomaly_score (w.floats.lit 0 1) ≡ true
      → w.floats.lt req.anomaly_score (w.floats.lit 2 1) ≡ false

  -- what the first four gates leave behind
  record Proposed (p₀ q : Progress) : Type 0 where
    verified : Verified p₀.action_type
    anomalous : Anomalous p₀.action_type
    from : String
    decided :
        q.action_type ≡ (apply_policy policy from req.error_type req.severity req.confidence).action

  propose-go :
      (p₀ : Progress) (s : w.State) {q : Progress}
      → (propose w policy req p₀ s).0 ≡ go q
      → Proposed p₀ q
  unfolding propose
  propose-go p₀ s h =
      let (p₁, h₁, r₁) = >>=-eq-go (anomaly_gate w policy req p₀) _ s h in
      let (e₁, anomalous) = anomaly-go w policy req p₀ s h₁ in
      let (p₂, h₂, r₂) = >>=-eq-go (causality_gate w policy req p₁) _ _ r₁ in
      let (e₂, verified) = causality-go w policy req p₁ _ h₂ in
      let (p₃, h₃, r₃) = >>=-eq-go (cascade_guard w policy req p₂) _ _ r₂ in
      record {
        verified = rw e₁ at verified;
        anomalous = anomalous;
        from = p₃.action_type;
        decided = policy-go w policy req p₃ _ r₃;
      }

  in_table : (p₀ q : Progress) → Proposed p₀ q → IsDestructive q.action_type → InTable q.action_type
  in_table p₀ q pr d =
      let verdict =
        apply_policy-Verdict policy pr.from req.error_type req.severity req.confidence in
      elim verdict.1 [
        | inl listed ↦ rw pr.decided listed
        | inr (_, none_left) ↦ absurd (not-no_action q.action_type d (pr.decided ∙ none_left))
      ]

  -- what has been checked of an action `a` that is let through where `proposed` was asked for
  pub record Cleared (proposed a : String) : Type 0 where
    pub listed : InTable a
    pub verified : Verified proposed
    pub anomalous : Anomalous proposed
    pub not_looping : NotLooping w policy req a
    pub locked : Locked w policy req a
    pub unprotected : Unprotected w policy req a
    pub severe : Severe w policy req a
    pub contained : Contained w policy req a
    pub below_rate : BelowRate w policy req a
    pub within_budget : WithinBudget w policy req a

  gates-Cleared :
      (p₀ q : Progress) (s : w.State)
      → (gates w policy req p₀ s).0 ≡ go q
      → IsDestructive q.action_type
      → Cleared p₀.action_type q.action_type
  unfolding gates
  gates-Cleared p₀ q s h d =
      let (p, e, h') = >>=-eq-go (propose w policy req p₀) (guard w policy req) s h in
      let (same, (quiet, (lock, (open_ns, (grave, (within, (rate, budget))))))) =
        (guard-Clears w policy req p).at _ q h' d in
      let pr = propose-go p₀ s e in
      record {
        listed = rw same (in_table p₀ p pr (subst IsDestructive same d));
        verified = pr.verified;
        anomalous = pr.anomalous;
        not_looping = quiet;
        locked = lock;
        unprotected = open_ns;
        severe = grave;
        contained = within;
        below_rate = rate;
        within_budget = budget;
      }

  outcome-Cleared :
      (flow : Flow) (s : w.State)
      → (gates w policy req (start w policy req) s).0 ≡ flow
      → IsDestructive (outcome flow).action
      → Cleared (proposed_type req.proposed_action) (outcome flow).action
  unfolding outcome
  outcome-Cleared (go q) s h d = gates-Cleared (start w policy req) q s h d
  outcome-Cleared (stop r) s h d =
      let denied = (gates-denies w policy req (start w policy req)).at s r h in
      absurd (not-no_action r.action d denied.1)

  -- A destructive action that leaves `validate` stands in the matching row of the policy table,
  -- and has passed the loop check, the lock, the namespace, severity and blast-radius gates, the
  -- rate limit and the budget; unless a safe action was proposed, causality was verified, and
  -- where a destructive one was proposed with a score of at least 0, the score is not below 2.
  pub validate-Cleared :
      (s : w.State)
      → IsDestructive (validate w policy req s).0.action
      → Cleared (proposed_type req.proposed_action) (validate w policy req s).0.action
  unfolding validate
  validate-Cleared s d = outcome-Cleared (gates w policy req (start w policy req) s).0 s refl d
