-- ===== src/Safety/Types.antt =====
-- agent-backend/app/core/safety.py: the request, the result, and the early return of `validate`.
-- A gate works on the current action type and the entries of `checks` so far; it stops with a
-- result, or goes on.
use ai_devops_copilot.Base.{
  ℕ, String, ◌≡◌, refl, Bool, false, ℤ, Option, ◌⊎◌, inl, inr, List, [], ◌∷◌, ◌++◌,
}
use ai_devops_copilot.Base.Effects.{Eff}
use ai_devops_copilot.LoopDetector.{LoopReason}

-- the two keys of `proposed_action` that are read, each of which may be missing
pub record ProposedAction : Type 0 where
  pub type : Option String
  pub namespace : Option String

-- the arguments of `validate`; `Real` is the type of floats
pub record Request (Real : Type 0) : Type 0 where
  pub service : String
  pub environment : String
  pub error_type : String
  pub severity : String
  pub confidence : String
  pub proposed_action : ProposedAction
  pub causality_verified : Bool
  pub cascade_depth : ℕ
  pub anomaly_score : Real
  pub blast_radius_score : String

-- An entry of `checks`, in the order of insertion. The rounded score is left out.
pub data Check : Type 0 where
  anomaly_check causality_check : (passed : Bool) → Check
  cascade_check : (downgraded : Bool) (depth : ℕ) → Check
  policy_check : (allowed : Bool) (action : String) → Check
  loop_check : (detected freeze : Bool) (count : ℤ) (escalated : Bool) → Check
  idempotency_skipped : Check
  idempotency_check : (acquired : Bool) (ttl : ℕ) → Check
  namespace_check : String → Check
  severity_check : (action severity confidence : String) → Check
  blast_radius_check : (score : String) (passed : Bool) → Check
  rate_check : (count limit : ℕ) → Check
  budget_check : (used limit : ℕ) → Check

-- `reason`, by its message
pub data Reason : Type 0 where
  anomaly_gate causality_not_verified : (action : String) → Reason
  loop_freeze : LoopReason → Reason
  idempotency : (service action : String) (ttl : ℕ) → Reason
  namespace_isolation : (namespace : String) → Reason
  severity_gate : (action severity confidence : String) → Reason
  blast_radius_gate : (score confidence severity : String) → Reason
  rate_limit : (action : String) (count limit : ℕ) → Reason
  action_budget : (used limit : ℕ) → Reason
  all_checks_passed : Reason

pub record SafetyResult : Type 0 where
  pub allowed : Bool
  pub action : String
  pub reason : Reason
  pub checks : List Check

pub record Progress : Type 0 where
  pub action_type : String
  pub checks : List Check

pub data Flow : Type 0 where
  stop : SafetyResult → Flow
  go : Progress → Flow

unfoldable pub note : Progress → Check → Progress
note p check = record p { checks = p.checks ++ check ∷ [] }

-- every denial has this shape
unfoldable pub deny : Reason → Progress → Flow
deny reason p =
    stop (record { allowed = false; action = "no_action"; reason = reason; checks = p.checks })

module _ {S : Type 0} where
  abbrev continue : Flow → (Progress → Eff S Flow) → Eff S Flow
  continue (stop r) f s = (stop r, s)
  continue (go p) f s = f p s

  infixl 5 ◌>>=◌
  abbrev pub ◌>>=◌ : Eff S Flow → (Progress → Eff S Flow) → Eff S Flow
  m >>= f = λ s. let (flow, s') = m s in continue flow f s'

  continue-eq-go :
      (flow : Flow) (f : Progress → Eff S Flow) (s : S) {q : Progress}
      → (continue flow f s).0 ≡ go q
      → (p : Progress) × (flow ≡ go p) × ((f p s).0 ≡ go q)
  continue-eq-go (stop r) f s h = cc
  continue-eq-go (go p) f s h = (p, refl, h)

  -- a chain that goes on went on at every gate
  pub >>=-eq-go :
      (m : Eff S Flow) (f : Progress → Eff S Flow) (s : S) {q : Progress}
      → ((m >>= f) s).0 ≡ go q
      → (p : Progress) × ((m s).0 ≡ go p) × ((f p (m s).1).0 ≡ go q)
  >>=-eq-go m f s h = continue-eq-go (m s).0 f (m s).1 h

  continue-eq-stop :
      (flow : Flow) (f : Progress → Eff S Flow) (s : S) {r : SafetyResult}
      → (continue flow f s).0 ≡ stop r
      → (flow ≡ stop r) ⊎ ((p : Progress) × ((f p s).0 ≡ stop r))
  continue-eq-stop (stop r') f s h = inl h
  continue-eq-stop (go p) f s h = inr (p, h)

  -- a chain that stops stopped at its first gate, or later
  pub >>=-eq-stop :
      (m : Eff S Flow) (f : Progress → Eff S Flow) (s : S) {r : SafetyResult}
      → ((m >>= f) s).0 ≡ stop r
      → ((m s).0 ≡ stop r) ⊎ ((p : Progress) × ((f p (m s).1).0 ≡ stop r))
  >>=-eq-stop m f s h = continue-eq-stop (m s).0 f (m s).1 h
