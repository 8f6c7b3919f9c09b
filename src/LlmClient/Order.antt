-- ===== src/LlmClient/Order.antt =====
-- agent-backend/app/llm/client.py: the order in which `analyze` asks, as one list.
use mathlib.Core.Path.{subst}
use ai_devops_copilot.Base.{
  String, ◌≡◌, ◌≢◌, refl, true, false, Option, none, some, List, [], ◌∷◌, ◌++◌, map, if◌then◌else◌,
  inl, inr, Bool-cases, split_commas,
}
use ai_devops_copilot.Base.Effects.{Eff}
use ai_devops_copilot.LlmClient.{Failure, Attempt, answered, failed}
use ai_devops_copilot.LlmClient.Models.{
  Settings, keys_for, model_chain, or_default, raw_keys, provider, trimmed,
}
use ai_devops_copilot.LlmClient.Result.{LlmResult}
use ai_devops_copilot.LlmClient.Analysis.{
  needs_check, Client, Incoming, Analysed, returned, raised, raised_nothing, raise_last,
  analyze_with_model, finish, after_key, try_keys, try_models, analyze,
}

-- every model with each of its keys, the models in the order of the chain
abbrev pub candidates : Settings → List String → List (String × String)
candidates settings [] = []
candidates settings (model ∷ models) =
    map (λ key. (model, key)) (keys_for settings model) ++ candidates settings models

module _ {S : Type 0} (client : Client S) (settings : Settings) (incoming : Incoming) where
  -- an answer ends the search, and so does a failure that another key cannot help
  abbrev pub answer_or_go_on :
      (Option Failure → Eff S Analysed) → String → Attempt LlmResult → Eff S Analysed
  answer_or_go_on next model (answered result) s =
      finish client settings incoming model (model_chain settings) result s
  answer_or_go_on next model (failed failure) s =
      if failure.next_key then next (some failure) s else (raised failure, s)

  -- the first candidate with which the search ends; without one, the last failure
  abbrev pub first_answering : List (String × String) → Option Failure → Eff S Analysed
  first_answering [] last s = (raise_last last, s)
  first_answering ((model, key) ∷ rest) last s =
      let (r, s1) = analyze_with_model client settings incoming model key s in
      answer_or_go_on (first_answering rest) model r s1

  after_key-first_answering :
      (again : Option Failure → Eff S Analysed) (rest : List (String × String)) (model key : String)
      (last : Option Failure) (s : S)
      → ((last' : Option Failure) (s' : S) → again last' s' ≡ first_answering rest last' s')
      → let (r, s1) = analyze_with_model client settings incoming model key s in
        after_key client settings incoming again model (model_chain settings) r s1
        ≡ first_answering ((model, key) ∷ rest) last s
  unfolding after_key
  after_key-first_answering again rest model key last s h =
      let (r, s1) = analyze_with_model client settings incoming model key s in go r s1
    where
      go :
          (r : Attempt LlmResult) (s1 : S)
          → after_key client settings incoming again model (model_chain settings) r s1
            ≡ answer_or_go_on (first_answering rest) model r s1
      go (answered result) s1 = refl
      go (failed failure) s1 = rw (h (some failure) s1) refl

  try_keys-first_answering :
      (again : Option Failure → Eff S Analysed) (rest : List (String × String)) (model : String)
      (keys : List String) (last : Option Failure) (s : S)
      → ((last' : Option Failure) (s' : S) → again last' s' ≡ first_answering rest last' s')
      → try_keys client settings incoming again (model_chain settings) model keys last s
        ≡ first_answering (map (λ key. (model, key)) keys ++ rest) last s
  unfolding try_keys
  try_keys-first_answering again rest model [] last s h = h last s
  try_keys-first_answering again rest model (key ∷ keys) last s h =
      after_key-first_answering
        (try_keys client settings incoming again (model_chain settings) model keys)
        (map (λ key. (model, key)) keys ++ rest) model key last s
        (λ last' s'. try_keys-first_answering again rest model keys last' s' h)

  try_models-first_answering :
      (models : List String) (last : Option Failure) (s : S)
      → try_models client settings incoming (model_chain settings) models last s
        ≡ first_answering (candidates settings models) last s
  unfolding try_models
  try_models-first_answering [] last s = refl
  try_models-first_answering (model ∷ models) last s =
      try_keys-first_answering (try_models client settings incoming (model_chain settings) models)
        (candidates settings models) model (keys_for settings model) last s
        (try_models-first_answering models)

  -- The two loops of `analyze` are one search: over every key of the primary model, then over those
  -- of each fallback, it ends with the first answer, or with the first failure that another key
  -- cannot help, or else with the last failure.
  pub analyze-first_answering :
      (s : S)
      → analyze client settings incoming s
        ≡ first_answering (candidates settings (model_chain settings)) none s
  unfolding analyze
  analyze-first_answering s = try_models-first_answering (model_chain settings) none s

  abbrev IsNamed : Analysed → Type 0
  IsNamed (returned result) = Unit
  IsNamed (raised failure) = Unit
  IsNamed raised_nothing = ⊥

  finish-IsNamed :
      (model : String) (chain : List String) (r : LlmResult) (s : S)
      → IsNamed (finish client settings incoming model chain r s).0
  unfolding finish
  finish-IsNamed model chain r s = elim (Bool-cases (needs_check client settings incoming r)) [
    | inl e ↦ rw e tt
    | inr e ↦ rw e tt
  ]

  answer_or_go_on-IsNamed :
      (next : Option Failure → Eff S Analysed) (model : String) (a : Attempt LlmResult) (s : S)
      → ((failure : Failure) (s' : S) → IsNamed (next (some failure) s').0)
      → IsNamed (answer_or_go_on next model a s).0
  answer_or_go_on-IsNamed next model (answered result) s h =
      finish-IsNamed model (model_chain settings) result s
  answer_or_go_on-IsNamed next model (failed failure) s h =
      elim failure.next_key
        as (λ x. IsNamed (if x then next (some failure) s else (raised failure, s)).0) [
          | true ↦ h failure s
          | false ↦ tt
        ]

  first_answering-IsNamed :
      (rest : List (String × String)) (failure : Failure) (s : S)
      → IsNamed (first_answering rest (some failure) s).0
  unfolding raise_last
  first_answering-IsNamed [] failure s = tt
  first_answering-IsNamed ((model, key) ∷ rest) failure s =
      let (r, s1) = analyze_with_model client settings incoming model key s in
      answer_or_go_on-IsNamed (first_answering rest) model r s1 (first_answering-IsNamed rest)

  nonempty-IsNamed :
      (model : String) (keys : List String) (default : String) (rest : List (String × String))
      (s : S)
      → IsNamed
          (first_answering (map (λ key. (model, key)) (or_default default keys) ++ rest) none s).0
  unfolding or_default
  nonempty-IsNamed model [] default rest s =
      let (r, s1) = analyze_with_model client settings incoming model default s in
      answer_or_go_on-IsNamed (first_answering rest) model r s1 (first_answering-IsNamed rest)
  nonempty-IsNamed model (key ∷ keys) default rest s =
      let (r, s1) = analyze_with_model client settings incoming model key s in
      let others = map (λ key. (model, key)) keys ++ rest in
      answer_or_go_on-IsNamed (first_answering others) model r s1 (first_answering-IsNamed others)

  analyze-IsNamed : (s : S) → IsNamed (analyze client settings incoming s).0
  unfolding model_chain keys_for
  analyze-IsNamed s = rw (analyze-first_answering s) (
      nonempty-IsNamed settings.llm_model
        (trimmed (split_commas (raw_keys settings (provider settings.llm_model))))
        settings.llm_api_key _ s)

  -- What `analyze` raises is the exception of a call: there is always a model with a key to ask.
  pub analyze-Raises : (s : S) → (analyze client settings incoming s).0 ≢ raised_nothing
  analyze-Raises s e = subst IsNamed e (analyze-IsNamed s)
