-- ===== src/Api/Ping.antt =====
-- agent-backend/app/api/routes.py: `admin_llm_status` and `admin_llm_ping`. The calls of the models are a
-- parameter, and the state of Vault is left out.
use ai_devops_copilot.Base.{
  ℕ, suc, String, ◌==◌, Bool, false, not, ◌||◌, Option, none, some, List, [], ◌∷◌, map, length,
  clip, split_commas, if◌then◌else◌, sorted,
}
use ai_devops_copilot.Base.Effects.{Eff}
use ai_devops_copilot.LlmClient.Models.{
  Settings, Provider, provider, keys_for, model_chain, trimmed,
}
use ai_devops_copilot.LlmClient.Result.{first_or}

pub record ModelView : Type 0 where
  pub model : String
  pub provider : Provider
  pub key_count : ℕ

pub record LlmStatus : Type 0 where
  pub model_chain : List ModelView
  pub google_keys : ℕ
  pub anthropic_keys : ℕ
  pub openai_keys : ℕ
  pub generic_llm_api_key : ℕ

unfoldable pub count_keys : List String → ℕ
count_keys [] = 0
count_keys (key ∷ keys) = let rest = count_keys keys in if key == "" then rest else suc rest

-- `_count`
unfoldable pub count_entries : String → ℕ
count_entries raw = length (trimmed (split_commas raw))

unfoldable pub admin_llm_status : Settings → LlmStatus
unfolding count_keys count_entries
admin_llm_status settings = record {
  model_chain =
      map
        (λ m. record {
          model = m;
          provider = provider m;
          key_count = count_keys (keys_for settings m);
        })
        (model_chain settings);
  google_keys = count_entries settings.google_api_keys;
  anthropic_keys = count_entries settings.anthropic_api_keys;
  openai_keys = count_entries settings.openai_api_keys;
  generic_llm_api_key = if settings.llm_api_key == "" then 0 else 1;
}

-- what a model answers to the ping: the keys of its result with the root cause, or an exception by its
-- type and its text
pub data PingReply : Type 0 where
  replied : (keys : List String) (root_cause : String) → PingReply
  failed : (error_type error : String) → PingReply

pub data PingOutcome : Type 0 where
  no_key : PingOutcome
  ok : (response_keys : List String) (root_cause : String) → PingOutcome
  error : (error_type error : String) → PingOutcome

pub record PingAttempt : Type 0 where
  pub model : String
  pub provider : Provider
  pub outcome : PingOutcome

pub record PingAnswer : Type 0 where
  pub first_ok_model : Option String
  pub attempts : List PingAttempt

unfoldable pub attempt_with : String → PingOutcome → PingAttempt
attempt_with model outcome = record { model = model; provider = provider model; outcome = outcome }

unfoldable pub before : PingAttempt → PingAnswer → PingAnswer
before attempt answer = record answer { attempts = attempt ∷ answer.attempts }

unfoldable pub any_key : List String → Bool
any_key [] = false
any_key (key ∷ keys) = not (key == "") || any_key keys

module _ {State : Type 0} (call : Provider → String → String → Eff State PingReply)
    (settings : Settings) where
  -- the loop ends with the first model that answers; `later` is the rest of it
  unfoldable pub after_reply : String → PingReply → Eff State PingAnswer → Eff State PingAnswer
  unfolding attempt_with before
  after_reply model (replied keys root_cause) later s =
      let attempt = attempt_with model (ok (sorted keys) (clip 60 root_cause)) in
      (record { first_ok_model = some model; attempts = attempt ∷ [] }, s)
  after_reply model (failed error_type text) later s =
      let (answer, s1) = later s in
      (before (attempt_with model (error error_type (clip 400 text))) answer, s1)

  unfoldable pub ping_models : List String → Eff State PingAnswer
  unfolding after_reply any_key
  ping_models [] s = (record { first_ok_model = none; attempts = [] }, s)
  ping_models (model ∷ models) s =
      let keys = keys_for settings model in
      let (skipped, s1) = ping_models models s in
      let (reply, s2) = call (provider model) model (first_or "" keys) s in
      let (answer, s3) = after_reply model reply (ping_models models) s2 in
      if any_key keys then (answer, s3) else (before (attempt_with model no_key) skipped, s1)

  unfoldable pub admin_llm_ping : Eff State PingAnswer
  unfolding ping_models
  admin_llm_ping s = ping_models (model_chain settings) s
