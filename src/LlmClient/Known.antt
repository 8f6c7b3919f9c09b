-- ===== src/LlmClient/Known.antt =====
-- agent-backend/app/llm/client.py: what can be said of every answer that `analyze` returns, whatever
-- the models write.
use mathlib.Core.Path.{subst}
use ai_devops_copilot.Base.{
  eq_refl, String, ◌==◌, ◌≡◌, refl, true, false, inl, inr, Option, arith, none, some, List, [], ◌∷◌,
  contains, Bool-cases, if◌then◌else◌,
}
use ai_devops_copilot.LlmClient.{Failure, Attempt, answered, failed}
use ai_devops_copilot.LlmClient.Models.{Settings, keys_for, model_chain}
use ai_devops_copilot.LlmClient.Result.{
  LlmResult, ProposedAction, action_type_of, reject, downgrade, first_or, guard_llm_result, name_or,
  proposed_name,
}
use ai_devops_copilot.LlmClient.Analysis.{
  Client, Incoming, Analysed, returned, raised, raised_nothing, raise_last, is_valid,
  compare_answers, settle, ask, last_answer, first_answer, analyze_with_model, after_secondary,
  cross_validate_with, cross_validate, needs_check, finish, after_key, try_keys, try_models,
  analyze, named, other_model,
}
use ai_devops_copilot.Evaluator.{known_actions, validate_response, validate_causes, validate_cause}

abbrev pub Known : LlmResult → Type 0
Known result = contains known_actions (action_type_of "no_action" result) ≡ true

abbrev pub Returns : (LlmResult → Type 0) → Analysed → Type 0
Returns P (returned result) = P result
Returns P (raised failure) = Unit
Returns P raised_nothing = Unit

abbrev Answers : Attempt LlmResult → Type 0
Answers (answered result) = Known result
Answers (failed failure) = Unit

validate_cause-Known :
    (r : LlmResult) (cause : String)
    → is_valid (validate_cause r cause) ≡ true
    → contains known_actions (action_type_of "" r) ≡ true
unfolding validate_cause is_valid
validate_cause-Known r cause h = ground arith

validate_response-Known :
    (r : LlmResult)
    → is_valid (validate_response r) ≡ true
    → contains known_actions (action_type_of "" r) ≡ true
unfolding validate_response is_valid
validate_response-Known r = go r.root_causes
  where
    go :
        (causes : List String)
        → is_valid (validate_causes r causes) ≡ true
        → contains known_actions (action_type_of "" r) ≡ true
    go [] h = ground arith
    go (cause ∷ causes) h = validate_cause-Known r cause h

-- an answer without an action is not known, so the default does not matter
known-default :
    (p : Option ProposedAction)
    → contains known_actions (proposed_name "" p) ≡ true
    → contains known_actions (proposed_name "no_action" p) ≡ true
unfolding proposed_name contains
known-default none h = refl
known-default (some p) h = go p.action h
  where
    go :
        (action : Option String)
        → contains known_actions (name_or "" action) ≡ true
        → contains known_actions (name_or "no_action" action) ≡ true
    go none h = refl
    go (some name) h = h

module _ {S : Type 0} (client : Client S) (settings : Settings) (incoming : Incoming) where
  valid-Known : (r : LlmResult) → is_valid (validate_response r) ≡ true → Known r
  unfolding action_type_of
  valid-Known r e = known-default r.proposed_action (validate_response-Known r e)

  settle-Known : (r : LlmResult) → Known (settle client settings incoming r)
  unfolding settle reject action_type_of contains
  settle-Known r = elim (Bool-cases (is_valid (validate_response r))) [
    | inl e ↦ rw e (valid-Known r e)
    | inr e ↦ rw e refl
  ]

  last_answer-Known : (a : Attempt LlmResult) → Answers (last_answer client settings incoming a)
  unfolding last_answer
  last_answer-Known (answered result) = settle-Known (guard_llm_result incoming.key_events result)
  last_answer-Known (failed failure) = tt

  first_answer-Known :
      (model key : String) (a : Attempt LlmResult) (s : S)
      → Answers (first_answer client settings incoming model key a s).0
  unfolding first_answer
  first_answer-Known model key (failed failure) s = tt
  first_answer-Known model key (answered result) s =
      let guarded = guard_llm_result incoming.key_events result in
      elim (Bool-cases (is_valid (validate_response guarded))) [
        | inl e ↦ rw e (valid-Known guarded e)
        | inr e ↦ rw e (last_answer-Known (ask client settings incoming model key true s).0)
      ]

  analyze_with_model-Known :
      (model key : String) (s : S)
      → Answers (analyze_with_model client settings incoming model key s).0
  unfolding analyze_with_model
  analyze_with_model-Known model key s =
      let (first, s1) = ask client settings incoming model key false s in
      first_answer-Known model key first s1

  -- one of the models of the chain has given this answer, to one of the keys
  abbrev pub Proposed : String → LlmResult → Type 0
  Proposed model r =
      (contains (model_chain settings) model ≡ true)
      × ((key : String) × (s : S) × ((analyze_with_model client settings incoming model key s).0
            ≡ answered r))

  pub Proposed-Known : (model : String) (r : LlmResult) → Proposed model r → Known r
  Proposed-Known model r (known, (key, s, e)) =
      subst Answers e (analyze_with_model-Known model key s)

  -- A property of whatever `finish` makes of an answer holds of what the loops return.
  module _ (P : LlmResult → Type 0)
      (finished : (model : String) (r : LlmResult) (s : S)
        → Proposed model r
        → Returns P (finish client settings incoming model (model_chain settings) r s).0) where
    abbrev chain : List String
    chain = model_chain settings

    after_key_rule :
        (again : Option Failure → S → Analysed × S) (model : String) (a : Attempt LlmResult) (s : S)
        → ((r : LlmResult) → a ≡ answered r → Proposed model r)
        → ((last : Option Failure) (s' : S) → Returns P (again last s').0)
        → Returns P (after_key client settings incoming again model chain a s).0
    unfolding after_key
    after_key_rule again model (answered result) s h k = finished model result s (h result refl)
    after_key_rule again model (failed failure) s h k =
        elim failure.next_key
          as (λ x. Returns P (if x then again (some failure) s else (raised failure, s)).0) [
            | true ↦ k (some failure) s
            | false ↦ tt
          ]

    try_keys_rule :
        (again : Option Failure → S → Analysed × S) (model : String) (keys : List String)
        (last : Option Failure) (s : S)
        → contains chain model ≡ true
        → ((last : Option Failure) (s' : S) → Returns P (again last s').0)
        → Returns P (try_keys client settings incoming again chain model keys last s).0
    unfolding try_keys
    try_keys_rule again model [] last s m k = k last s
    try_keys_rule again model (key ∷ keys) last s m k =
        let (r, s1) = analyze_with_model client settings incoming model key s in
        after_key_rule (try_keys client settings incoming again chain model keys) model r s1
          (λ result e. (m, (key, s, e))) (λ last' s'. try_keys_rule again model keys last' s' m k)

    try_models_rule :
        (models : List String) (last : Option Failure) (s : S)
        → ((m : String) → contains models m ≡ true → contains chain m ≡ true)
        → Returns P (try_models client settings incoming chain models last s).0
    unfolding try_models raise_last contains
    try_models_rule [] none s sub = tt
    try_models_rule [] (some failure) s sub = tt
    try_models_rule (model ∷ models) last s sub =
        try_keys_rule (try_models client settings incoming chain models) model
          (keys_for settings model) last s (sub model (ground (arith, eq_refl model)))
          (λ last' s'. try_models_rule models last' s' (λ m h. sub m (ground (arith, h))))

    pub analyze_rule : (s : S) → Returns P (analyze client settings incoming s).0
    unfolding analyze
    analyze_rule s = try_models_rule (model_chain settings) none s (λ m h. h)

  compare_answers-Known :
      (model secondary : String) (primary answer : LlmResult)
      → Known primary
      → Known (compare_answers model secondary primary answer)
  unfolding compare_answers downgrade action_type_of contains
  compare_answers-Known model secondary primary answer h =
      elim (Bool-cases (action_type_of "no_action" primary == action_type_of "no_action" answer)) [
        | inl e ↦ rw e h
        | inr e ↦ rw e refl
      ]

  after_secondary-Known :
      (model secondary : String) (primary : LlmResult) (a : Attempt LlmResult)
      → Known primary
      → Known (after_secondary client settings incoming model secondary primary a)
  unfolding after_secondary action_type_of
  after_secondary-Known model secondary primary (failed failure) h = h
  after_secondary-Known model secondary primary (answered answer) h =
      compare_answers-Known model secondary primary answer h

  cross_validate_with-Known :
      (model : String) (primary : LlmResult) (other : Option String) (s : S)
      → Known primary
      → Known (cross_validate_with client settings incoming model primary other s).0
  unfolding cross_validate_with action_type_of
  cross_validate_with-Known model primary none s h = h
  cross_validate_with-Known model primary (some secondary) s h =
      let key = first_or "" (keys_for settings secondary) in
      after_secondary-Known model secondary primary
        (analyze_with_model client settings incoming secondary key s).0 h

  pub finish-Known :
      (model : String) (chain : List String) (r : LlmResult) (s : S)
      → Known r
      → Returns Known (finish client settings incoming model chain r s).0
  unfolding finish cross_validate
  finish-Known model chain r s h = elim (Bool-cases (needs_check client settings incoming r)) [
    | inl e ↦ rw e (cross_validate_with-Known model r (named (other_model model chain)) s h)
    | inr e ↦ rw e h
  ]
