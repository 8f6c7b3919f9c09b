-- ===== src/LlmClient/Analysis.antt =====
-- agent-backend/app/llm/client.py: one model with its second chance, the cross-validation by a second
-- model, and `analyze` over the models and their keys. The tool loop of a provider's SDK is a
-- parameter, which is told whether the prompt is the strict one, and so are the clock, the jitter and
-- `sleep`. Log lines and metrics are left out.
use Prim.Native.String.{◌++◌}
use ai_devops_copilot.Base.{
  ℕ, String, ◌==◌, Bool, true, false, not, ◌&&◌, Option, none, some, List, [], ◌∷◌, contains, strip,
  codes, decimal, length, if◌then◌else◌,
}
use ai_devops_copilot.Base.Effects.{Eff}
use ai_devops_copilot.Actions.{destructive_actions}
use ai_devops_copilot.LlmClient.{Failure, Attempt, answered, failed, call_with_retry}
use ai_devops_copilot.LlmClient.Models.{Settings, keys_for, model_chain}
use ai_devops_copilot.LlmClient.Result.{
  LlmResult, CrossValidation, action_type_of, first_or, guard_llm_result, reject, downgrade,
}
use ai_devops_copilot.Evaluator.{
  Verdict, valid, no_causes, short_cause, no_verb, unknown_action, validate_response,
}

-- `call` is one of `_call_gemini`, `_call_openai` and `_call_anthropic`, with a model and a key;
-- `repr` is that of Python's strings
pub record Client (State : Type 0) : Type 0 where
  pub call : String → String → Bool → Eff State (Attempt LlmResult)
  pub monotonic : Eff State ℕ
  pub jitter : Eff State ℕ
  pub sleep : ℕ → State → State
  pub repr : String → String

-- what the arguments of `analyze` say of the incident
pub record Incoming : Type 0 where
  pub service : String
  pub severity : String
  pub key_events : List String

-- `raised_nothing` is `raise last_exc` where no exception was kept
pub data Analysed : Type 0 where
  returned : LlmResult → Analysed
  raised : Failure → Analysed
  raised_nothing : Analysed

abbrev pub high_severity : List String
high_severity = "high" ∷ "critical" ∷ []

unfoldable pub raise_last : Option Failure → Analysed
raise_last none = raised_nothing
raise_last (some failure) = raised failure

-- the first model of the chain that is not the primary one
unfoldable pub other_model : String → List String → Option String
other_model primary [] = none
other_model primary (m ∷ ms) =
    let rest = other_model primary ms in if m == primary then rest else some m

-- `not secondary_model`, for a name that is `None` or empty
unfoldable pub named : Option String → Option String
named none = none
named (some name) = if name == "" then none else some name

-- the cross-validation that could not be done
unfoldable pub skipped_check : Option String → CrossValidation
skipped_check secondary = record {
  agreed = true;
  secondary_model = secondary;
  secondary_action = none;
  skipped = true;
  downgraded = false;
}

unfoldable pub reason_of : (String → String) → LlmResult → Verdict → String
reason_of repr result valid = ""
reason_of repr result no_causes = "root_causes is empty"
reason_of repr result short_cause =
    let cause = strip (first_or "" result.root_causes) in
    "root cause too short (" ++ decimal (length (codes cause)) ++ " chars): " ++ repr cause
reason_of repr result no_verb =
    "suggestion has no actionable verb: " ++ repr (strip result.suggestion)
reason_of repr result unknown_action = "unknown action type: " ++ repr (action_type_of "" result)

unfoldable pub is_valid : Verdict → Bool
is_valid valid = true
is_valid verdict = false

unfoldable pub compare_answers : String → String → LlmResult → LlmResult → LlmResult
compare_answers primary_model secondary primary answer =
    let primary_action = action_type_of "no_action" primary in
    let secondary_action = action_type_of "no_action" answer in
    let agreed = primary_action == secondary_action in
    let checked = record primary {
      cross_validation = some (record {
        agreed = agreed;
        secondary_model = some secondary;
        secondary_action = some secondary_action;
        skipped = false;
        downgraded = not agreed;
      });
    } in
    if agreed
    then checked
    else downgrade
        ("cross-model disagreement: " ++ primary_model ++ " proposed '" ++ primary_action
          ++ "' but " ++ secondary ++ " proposed '" ++ secondary_action ++ "'")
        checked

module _ {S : Type 0} (client : Client S) (settings : Settings) (incoming : Incoming) where
  -- what becomes of an answer once no attempt is left
  unfoldable pub settle : LlmResult → LlmResult
  settle result =
      if is_valid (validate_response result)
      then result
      else reject incoming.service (reason_of client.repr result (validate_response result)) result

  unfoldable pub ask : String → String → Bool → Eff S (Attempt LlmResult)
  ask model key strict s =
      let (r, s1) =
        call_with_retry (client.call model key strict) client.monotonic client.jitter client.sleep
          s in
      (r.0, s1)

  unfoldable pub last_answer : Attempt LlmResult → Attempt LlmResult
  unfolding settle
  last_answer (failed failure) = failed failure
  last_answer (answered result) = answered (settle (guard_llm_result incoming.key_events result))

  -- the first answer, or the second one, which the strict prompt asks for
  unfoldable pub first_answer : String → String → Attempt LlmResult → Eff S (Attempt LlmResult)
  unfolding ask last_answer
  first_answer model key (failed failure) s = (failed failure, s)
  first_answer model key (answered result) s =
      let guarded = guard_llm_result incoming.key_events result in
      let (second, s1) = ask model key true s in
      if is_valid (validate_response guarded)
      then (answered guarded, s)
      else (last_answer second, s1)

  unfoldable pub analyze_with_model : String → String → Eff S (Attempt LlmResult)
  unfolding first_answer
  analyze_with_model model key s =
      let (first, s1) = ask model key false s in first_answer model key first s1

  unfoldable pub after_secondary : String → String → LlmResult → Attempt LlmResult → LlmResult
  after_secondary primary_model secondary primary (failed failure) = record primary {
    cross_validation = some (skipped_check (some secondary));
  }
  after_secondary primary_model secondary primary (answered result) =
      compare_answers primary_model secondary primary result

  unfoldable pub cross_validate_with : String → LlmResult → Option String → Eff S LlmResult
  unfolding after_secondary
  cross_validate_with primary_model primary none s =
      (record primary { cross_validation = some (skipped_check none) }, s)
  cross_validate_with primary_model primary (some secondary) s =
      let (answer, s1) =
        analyze_with_model secondary (first_or "" (keys_for settings secondary)) s in
      (after_secondary primary_model secondary primary answer, s1)

  unfoldable pub cross_validate : String → List String → LlmResult → Eff S LlmResult
  unfolding cross_validate_with
  cross_validate primary_model chain primary =
      cross_validate_with primary_model primary (named (other_model primary_model chain))

  unfoldable pub needs_check : LlmResult → Bool
  needs_check result =
      contains destructive_actions (action_type_of "no_action" result)
      && contains high_severity incoming.severity

  unfoldable pub finish : String → List String → LlmResult → Eff S Analysed
  unfolding needs_check cross_validate
  finish model chain result s =
      let (checked, s1) = cross_validate model chain result s in
      if needs_check result then (returned checked, s1) else (returned result, s)

  -- `again` is the rest of the loops, with the exception kept so far
  unfoldable pub after_key :
      (Option Failure → Eff S Analysed) → String → List String → Attempt LlmResult → Eff S Analysed
  unfolding finish
  after_key again model chain (answered result) s = finish model chain result s
  after_key again model chain (failed failure) s =
      if failure.next_key then again (some failure) s else (raised failure, s)

  unfoldable pub try_keys :
      (Option Failure → Eff S Analysed)
      → List String
      → String
      → List String
      → Option Failure
      → Eff S Analysed
  unfolding after_key
  try_keys again chain model [] last s = again last s
  try_keys again chain model (key ∷ keys) last s =
      let (r, s1) = analyze_with_model model key s in
      after_key (try_keys again chain model keys) model chain r s1

  unfoldable pub try_models : List String → List String → Option Failure → Eff S Analysed
  unfolding try_keys
  try_models chain [] last s = (raise_last last, s)
  try_models chain (model ∷ models) last s =
      try_keys (try_models chain models) chain model (keys_for settings model) last s

  unfoldable pub analyze : Eff S Analysed
  unfolding try_models
  analyze = let chain = model_chain settings in try_models chain chain none
