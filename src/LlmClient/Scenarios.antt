-- ===== src/LlmClient/Scenarios.antt =====
-- Two models: the first one proposes a restart, but its second key is the one that works; the other
-- one proposes to notify, or fails.
use ai_devops_copilot.Base.{
  ℕ, suc, String, ◌==◌, ◌≡◌, ◌≢◌, refl, ap, Bool, true, false, none, some, [], ◌∷◌, contains,
  if◌then◌else◌, strip, to_lower, lower, skip_spaces, split_commas, push_first, clip, reverse_text,
  backwards,
}
use ai_devops_copilot.Actions.{destructive_actions}
use ai_devops_copilot.Base.Effects.{Eff}
use ai_devops_copilot.LlmClient.{
  Failure, Attempt, answered, failed, call_with_retry, attempts_from, after_attempt, is_retriable,
}
use ai_devops_copilot.LlmClient.Models.{
  Settings, keys_for, model_chain, provider, trimmed, or_default, without, raw_keys,
  starts_with_any,
}
use ai_devops_copilot.LlmClient.Result.{
  LlmResult, action_type_of, downgrade, first_or, guard_llm_result, proposed_name, name_or,
  proposed_or_empty, reject,
}
use ai_devops_copilot.LlmClient.Analysis.{
  Client, Incoming, returned, raised_nothing, high_severity, raise_last, is_valid, compare_answers,
  settle, ask, last_answer, first_answer, analyze_with_model, after_secondary, cross_validate_with,
  cross_validate, needs_check, finish, after_key, try_keys, try_models, analyze, named, other_model,
  skipped_check,
}
use ai_devops_copilot.Evaluator.{
  known_actions, validate_response, validate_causes, validate_cause, has_verb, any_verb, is_verb,
  words, same_codes, backwards_codes,
}
use ai_devops_copilot.LlmClient.Agreed.{analyze-Known, analyze-Agreed, Voted}
use ai_devops_copilot.LlmClient.Order.{
  analyze-first_answering, analyze-Raises, candidates, first_answering,
}

abbrev limited : Failure
limited = record { transient = false; rate_limit = false; retry_after = none; next_key = true }

abbrev proposal : String → LlmResult
proposal name = record {
  root_causes = "the process runs out of memory" ∷ [];
  suggestion = "Restart the pod";
  proposed_action =
      some (record { action = some name; target = none; reason = none; namespace = none });
  cross_validation = none;
}

abbrev call : String → String → String → Bool → Eff ℕ (Attempt LlmResult)
call secondary model key strict s = (
  if key == "k1"
      then failed limited
      else if model == "gemini-a"
      then answered (proposal "restart_pod")
      else answered (proposal secondary),
  suc s,
)

abbrev client : String → Client ℕ
client secondary = record {
  call = call secondary;
  monotonic = λ s. (0, s);
  jitter = λ s. (0, s);
  sleep = λ d s. s;
  repr = λ text. text;
}

abbrev settings : Settings
settings = record {
  llm_model = "gemini-a";
  llm_model_fallback = "gpt-b,";
  google_api_keys = "k1, k2";
  openai_api_keys = "";
  anthropic_api_keys = "";
  llm_api_key = "k3";
}

abbrev incoming : Incoming
incoming = record { service = "payments"; severity = "critical"; key_events = [] }

abbrev confirmed : LlmResult
confirmed = record (proposal "restart_pod") {
  cross_validation = some (record {
    agreed = true;
    secondary_model = some "gpt-b";
    secondary_action = some "restart_pod";
    skipped = false;
    downgraded = false;
  });
}

keys :
    candidates settings (model_chain settings)
    ≡ ("gemini-a", "k1") ∷ ("gemini-a", "k2") ∷ ("gpt-b", "k3") ∷ []
unfolding keys_for model_chain provider trimmed or_default without raw_keys starts_with_any
    split_commas push_first strip skip_spaces clip reverse_text backwards
keys = refl

-- the second key of the first model answers, and the other model agrees
agreed_run : analyze (client "restart_pod") settings incoming 0 ≡ (returned confirmed, 3)
unfolding keys_for model_chain provider trimmed or_default without raw_keys starts_with_any
    split_commas push_first strip skip_spaces clip reverse_text backwards call_with_retry
    attempts_from after_attempt is_retriable action_type_of downgrade first_or guard_llm_result
    proposed_name name_or proposed_or_empty reject raise_last is_valid compare_answers settle ask
    last_answer first_answer analyze_with_model after_secondary cross_validate_with cross_validate
    needs_check finish after_key try_keys try_models analyze named other_model skipped_check
    validate_response validate_causes validate_cause has_verb any_verb is_verb words same_codes
    backwards_codes contains to_lower lower
agreed_run = refl

analyze-Known_example : contains known_actions (action_type_of "no_action" confirmed) ≡ true
analyze-Known_example =
    analyze-Known (client "restart_pod") settings incoming 0 confirmed (ap (λ x. x.0) agreed_run)

is_restart : contains destructive_actions (action_type_of "no_action" confirmed) ≡ true
unfolding contains action_type_of proposed_name name_or
is_restart = refl

is_high : contains high_severity "critical" ≡ true
unfolding contains
is_high = refl

analyze-Agreed_example : Voted (client "restart_pod") settings incoming confirmed
analyze-Agreed_example =
    analyze-Agreed (client "restart_pod") settings incoming 0 confirmed (ap (λ x. x.0) agreed_run)
      is_restart is_high

analyze-first_answering_example :
    analyze (client "notify") settings incoming 0
    ≡ first_answering
        (client "notify")
        settings
        incoming
        (candidates settings (model_chain settings))
        none
        0
analyze-first_answering_example = analyze-first_answering (client "notify") settings incoming 0

analyze-Raises_example : (analyze (client "notify") settings incoming 0).0 ≢ raised_nothing
analyze-Raises_example = analyze-Raises (client "notify") settings incoming 0
