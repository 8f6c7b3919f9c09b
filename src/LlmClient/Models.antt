-- ===== src/LlmClient/Models.antt =====
-- agent-backend/app/llm/client.py: which models are asked, in which order, and with which keys.
use text.Mathlib.Text.{starts_with}
use ai_devops_copilot.Base.{
  String, ◌==◌, Bool, false, ◌||◌, List, [], ◌∷◌, strip, split_commas, if◌then◌else◌,
}

-- `settings`, by the fields that are read here; a key list that is unset is the empty text
pub record Settings : Type 0 where
  pub llm_model : String
  pub llm_model_fallback : String
  pub google_api_keys : String
  pub openai_api_keys : String
  pub anthropic_api_keys : String
  pub llm_api_key : String

pub data Provider : Type 0 where
  google openai anthropic : Provider

unfoldable pub starts_with_any : List String → String → Bool
starts_with_any [] name = false
starts_with_any (prefix ∷ prefixes) name = starts_with name prefix || starts_with_any prefixes name

unfoldable pub provider : String → Provider
provider model_name =
    if starts_with_any ("gemini" ∷ "gemma" ∷ []) model_name
    then google
    else if starts_with_any ("gpt-" ∷ "o1-" ∷ "o3-" ∷ "o4-" ∷ []) model_name
    then openai
    else anthropic

-- `[p.strip() for p in parts if p.strip()]`
unfoldable pub trimmed : List String → List String
trimmed [] = []
trimmed (part ∷ parts) =
    let rest = trimmed parts in let part' = strip part in if part' == "" then rest else part' ∷ rest

unfoldable pub raw_keys : Settings → Provider → String
raw_keys settings google = settings.google_api_keys
raw_keys settings openai = settings.openai_api_keys
raw_keys settings anthropic = settings.anthropic_api_keys

-- `keys or [default]`
unfoldable pub or_default : String → List String → List String
or_default default [] = default ∷ []
or_default default (key ∷ keys) = key ∷ keys

unfoldable pub keys_for : Settings → String → List String
keys_for settings model_name =
    or_default settings.llm_api_key
      (trimmed (split_commas (raw_keys settings (provider model_name))))

unfoldable pub without : String → List String → List String
without name [] = []
without name (m ∷ ms) = let rest = without name ms in if m == name then rest else m ∷ rest

unfoldable pub model_chain : Settings → List String
model_chain settings =
    settings.llm_model
    ∷ (if settings.llm_model_fallback == ""
        then []
        else without settings.llm_model (trimmed (split_commas settings.llm_model_fallback)))
