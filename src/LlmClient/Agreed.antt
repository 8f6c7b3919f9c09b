-- ===== src/LlmClient/Agreed.antt =====
-- agent-backend/app/llm/client.py: `analyze` as a whole, and its vote of two models.
use mathlib.Core.Path.{subst}
use ai_devops_copilot.Base.{
  All, eq_refl, [], ◌∷◌, String, ◌==◌, eq_iff, ◌≡◌, refl, sym, ap, true, false, ◌⊎◌, inl, inr,
  Option, none, some, List, contains, Bool-cases, arith,
}
use ai_devops_copilot.Actions.{destructive_actions}
use ai_devops_copilot.LlmClient.{Failure, Attempt, answered, failed}
use ai_devops_copilot.LlmClient.Models.{Settings, keys_for, model_chain}
use ai_devops_copilot.LlmClient.Result.{
  LlmResult, CrossValidation, action_type_of, downgrade, first_or,
}
use ai_devops_copilot.LlmClient.Analysis.{
  Client, Incoming, returned, high_severity, compare_answers, analyze_with_model, after_secondary,
  cross_validate_with, cross_validate, needs_check, finish, analyze, named, other_model,
  skipped_check,
}
use ai_devops_copilot.Evaluator.{known_actions}
use ai_devops_copilot.LlmClient.Known.{
  Proposed, Proposed-Known, Known, Returns, analyze_rule, finish-Known,
}

-- what the first model of the chain that is not this one can be
abbrev Other : String → List String → Option String → Type 0
Other primary chain none = All (λ m. m ≡ primary) chain
Other primary chain (some m) = (contains chain m ≡ true) × ((m == primary) ≡ false)

other_model-Other :
    (primary : String) (chain : List String) → Other primary chain (other_model primary chain)
unfolding other_model contains
other_model-Other primary [] = tt
other_model-Other primary (m ∷ ms) = elim (Bool-cases (m == primary)) [
  | inl e ↦ rw e (later (other_model primary ms) ((eq_iff _ _).0 e) (other_model-Other primary ms))
  | inr e ↦ rw e (ground (arith, eq_refl m), e)
]
  where
    later :
        (found : Option String)
        → m ≡ primary
        → Other primary ms found
        → Other primary (m ∷ ms) found
    later none e h = (e, h)
    later (some found) e h = (ground (arith, h.0), h.1)

-- there is no other model, or one of the models has no name
abbrev pub IsAlone : String → List String → Type 0
IsAlone model chain = All (λ m. m ≡ model) chain ⊎ (contains chain "" ≡ true)

-- what the model is that is asked for a second answer
abbrev Second : String → List String → Option String → Type 0
Second primary chain none = IsAlone primary chain
Second primary chain (some m) = (contains chain m ≡ true) × ((m == primary) ≡ false)

named-Second :
    (primary : String) (chain : List String) (found : Option String)
    → Other primary chain found
    → Second primary chain (named found)
unfolding named
named-Second primary chain none h = inl h
named-Second primary chain (some m) (known, other) = elim (Bool-cases (m == "")) [
  | inl e ↦ rw e (inr (subst (λ x. contains chain x ≡ true) ((eq_iff _ _).0 e) known))
  | inr e ↦ rw e (known, other)
]

module _ {S : Type 0} (client : Client S) (settings : Settings) (incoming : Incoming) where
  -- how a destructive action of a model was checked: another model of the chain was asked, and has
  -- answered with the same action, or with a failure; or there is no other model
  pub data Vote (model action : String) (check : Option CrossValidation) : Type 0 where
    agreeing :
        (second key : String) (answer : LlmResult) (s : S)
        → contains (model_chain settings) second ≡ true
        → (second == model) ≡ false
        → (analyze_with_model client settings incoming second key s).0 ≡ answered answer
        → action_type_of "no_action" answer ≡ action
        → check
          ≡ some (record {
            agreed = true;
            secondary_model = some second;
            secondary_action = some action;
            skipped = false;
            downgraded = false;
          })
        → Vote model action check
    silent :
        (second key : String) (failure : Failure) (s : S)
        → contains (model_chain settings) second ≡ true
        → (second == model) ≡ false
        → (analyze_with_model client settings incoming second key s).0 ≡ failed failure
        → check
          ≡ some (record {
            agreed = true;
            secondary_model = some second;
            secondary_action = none;
            skipped = true;
            downgraded = false;
          })
        → Vote model action check
    alone :
        IsAlone model (model_chain settings)
        → check
          ≡ some (record {
            agreed = true;
            secondary_model = none;
            secondary_action = none;
            skipped = true;
            downgraded = false;
          })
        → Vote model action check

  abbrev Checked : String → LlmResult → Type 0
  Checked model result =
      contains destructive_actions (action_type_of "no_action" result) ≡ true
      → Vote model (action_type_of "no_action" result) result.cross_validation

  -- a model of the chain has proposed the action, and it was checked
  abbrev pub Voted : LlmResult → Type 0
  Voted result =
      (model : String) × (primary : LlmResult) × Proposed client settings incoming model primary
      × (action_type_of "no_action" primary ≡ action_type_of "no_action" result)
      × Vote model (action_type_of "no_action" result) result.cross_validation

  abbrev VotedIfGrave : LlmResult → Type 0
  VotedIfGrave result =
      contains destructive_actions (action_type_of "no_action" result) ≡ true
      → contains high_severity incoming.severity ≡ true
      → Voted result

  -- the action is that of the first model, or a notification
  abbrev Kept : LlmResult → LlmResult → Type 0
  Kept primary result =
      contains destructive_actions (action_type_of "no_action" result) ≡ true
      → action_type_of "no_action" primary ≡ action_type_of "no_action" result

  compare_answers-Checked :
      (model second key : String) (primary answer : LlmResult) (s : S)
      → contains (model_chain settings) second ≡ true
      → (second == model) ≡ false
      → (analyze_with_model client settings incoming second key s).0 ≡ answered answer
      → let result = compare_answers model second primary answer in
        Kept primary result × Checked model result
  unfolding compare_answers downgrade action_type_of contains
  compare_answers-Checked model second key primary answer s known other e =
      let proposed = action_type_of "no_action" primary in
      elim (Bool-cases (proposed == action_type_of "no_action" answer)) [
        | inl same ↦
            let own : action_type_of "no_action" answer ≡ proposed = sym ((eq_iff _ _).0 same) in
            rw same (
              λ d. refl,
              λ d. agreeing second key answer s known other e own (
                  ap
                    (λ a. some (record {
                      agreed = true;
                      secondary_model = some second;
                      secondary_action = some a;
                      skipped = false;
                      downgraded = false;
                    }))
                    own),
            )
        | inr differ ↦ rw differ (λ d. absurd (ground arith), λ d. absurd (ground arith))
      ]

  after_secondary-Checked :
      (model second key : String) (primary : LlmResult) (a : Attempt LlmResult) (s : S)
      → contains (model_chain settings) second ≡ true
      → (second == model) ≡ false
      → (analyze_with_model client settings incoming second key s).0 ≡ a
      → let result = after_secondary client settings incoming model second primary a in
        Kept primary result × Checked model result
  unfolding after_secondary skipped_check action_type_of
  after_secondary-Checked model second key primary (failed failure) s known other e =
      (λ d. refl, λ d. silent second key failure s known other e refl)
  after_secondary-Checked model second key primary (answered answer) s known other e =
      compare_answers-Checked model second key primary answer s known other e

  cross_validate_with-Checked :
      (model : String) (primary : LlmResult) (other : Option String) (s : S)
      → Second model (model_chain settings) other
      → let (result, s') = cross_validate_with client settings incoming model primary other s in
        Kept primary result × Checked model result
  unfolding cross_validate_with skipped_check action_type_of
  cross_validate_with-Checked model primary none s h = (λ d. refl, λ d. alone h refl)
  cross_validate_with-Checked model primary (some second) s (known, other) =
      let key = first_or "" (keys_for settings second) in
      after_secondary-Checked model second key primary
        (analyze_with_model client settings incoming second key s).0 s known other refl

  unneeded :
      (r : LlmResult)
      → needs_check client settings incoming r ≡ false
      → contains destructive_actions (action_type_of "no_action" r) ≡ true
      → contains high_severity incoming.severity ≡ true
      → ⊥
  unfolding needs_check
  unneeded r e d h = ground arith

  finish-Voted :
      (model : String) (r : LlmResult) (s : S)
      → Proposed client settings incoming model r
      → Returns VotedIfGrave (finish client settings incoming model (model_chain settings) r s).0
  unfolding finish cross_validate
  finish-Voted model r s proposed =
      let chain = model_chain settings in
      let other = named (other_model model chain) in
      let (kept, checked) =
        cross_validate_with-Checked model r other s
          (named-Second model chain (other_model model chain) (other_model-Other model chain)) in
      elim (Bool-cases (needs_check client settings incoming r)) [
        | inl e ↦ rw e (λ d h. (model, r, proposed, kept d, checked d))
        | inr e ↦ rw e (λ d h. absurd (unneeded r e d h))
      ]

  -- Whatever the models write, the action of an answer that `analyze` returns is one that the
  -- program knows.
  pub analyze-Known :
      (s : S) (r : LlmResult)
      → (analyze client settings incoming s).0 ≡ returned r
      → contains known_actions (action_type_of "no_action" r) ≡ true
  analyze-Known s r e = subst (Returns Known) e (
      analyze_rule client settings incoming Known
        (λ model r' s' p.
          finish-Known client settings incoming model (model_chain settings) r' s'
            (Proposed-Known client settings incoming model r' p))
        s)

  -- Where the severity is high or critical, a destructive action that `analyze` returns was proposed
  -- by a model of the chain, and it carries a cross-validation that tells what came of a second one:
  -- another model of the chain was asked and has proposed the same action; or it was asked and has
  -- failed, or there is no other model with a name, and the check is marked as skipped.
  pub analyze-Agreed :
      (s : S) (r : LlmResult)
      → (analyze client settings incoming s).0 ≡ returned r
      → contains destructive_actions (action_type_of "no_action" r) ≡ true
      → contains high_severity incoming.severity ≡ true
      → Voted r
  analyze-Agreed s r e =
      subst (Returns VotedIfGrave) e
        (analyze_rule client settings incoming VotedIfGrave finish-Voted s)
