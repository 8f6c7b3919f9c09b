-- ===== src/LlmClient/Providers.antt =====
-- agent-backend/app/llm/client.py: the call of a model by its provider, as `analyze` makes it. The SDKs,
-- the prompt and `_parse_json` are parameters.
use ai_devops_copilot.Base.{ℕ, String, Bool, Option, none, some, List, []}
use ai_devops_copilot.Base.Effects.{Eff}
use ai_devops_copilot.LlmClient.{Failure, Attempt, answered, failed}
use ai_devops_copilot.LlmClient.Models.{Provider, google, openai, anthropic, provider}
use ai_devops_copilot.LlmClient.Result.{LlmResult}
use ai_devops_copilot.LlmClient.Analysis.{Client}
use ai_devops_copilot.LlmClient.ToolLoop.{
  ToolUse, ToolResult, Spoken, Message, Response, call_anthropic,
}
use ai_devops_copilot.LlmClient.ChatLoops.{
  ChatMessage, Choice, GeminiResponse, call_openai, call_gemini,
}

-- requests take a model and a key; `prompt` is `build_user_prompt`, told whether it is the strict one
pub record Sdk (S : Type 0) : Type 0 where
  pub execute : ToolUse → Eff S String
  pub invalid_json : Failure
  pub anthropic_create : String → String → List Message → Eff S (Attempt Response)
  pub openai_create : String → String → List ChatMessage → Eff S (Attempt Choice)
  pub gemini_text : String → String → String → Eff S (Attempt GeminiResponse)
  pub gemini_results : String → String → List ToolResult → Eff S (Attempt GeminiResponse)
  pub system_prompt : String
  pub prompt : Bool → String
  pub parse_json : String → Attempt LlmResult

-- `{}`
abbrev pub empty_result : LlmResult
empty_result = record {
  root_causes = [];
  suggestion = "";
  proposed_action = none;
  cross_validation = none;
}

module _ {S : Type 0} (sdk : Sdk S) where
  open sdk use {
    execute, invalid_json, anthropic_create, openai_create, gemini_text, gemini_results,
    system_prompt, prompt, parse_json,
  }

  unfoldable pub read_text : Option String → Attempt LlmResult
  read_text none = answered empty_result
  read_text (some text) = parse_json text

  unfoldable pub read_spoken : Attempt Spoken → Attempt LlmResult
  unfolding read_text
  read_spoken (failed failure) = failed failure
  read_spoken (answered spoken) = read_text spoken.text

  unfoldable pub spoken_of : Provider → String → String → String → Eff S (Attempt Spoken)
  spoken_of google model key content =
      call_gemini execute (gemini_text model key) (gemini_results model key) content
  spoken_of openai model key content =
      call_openai execute invalid_json (openai_create model key) system_prompt content
  spoken_of anthropic model key content =
      call_anthropic execute (anthropic_create model key) content

  unfoldable pub call_model : String → String → Bool → Eff S (Attempt LlmResult)
  unfolding read_spoken spoken_of
  call_model model key strict s =
      let (spoken, s1) = spoken_of (provider model) model key (prompt strict) s in
      (read_spoken spoken, s1)

  -- the client that `analyze` works with
  unfoldable pub client_of : Eff S ℕ → Eff S ℕ → (ℕ → S → S) → (String → String) → Client S
  unfolding call_model
  client_of monotonic jitter sleep repr = record {
    call = call_model;
    monotonic = monotonic;
    jitter = jitter;
    sleep = sleep;
    repr = repr;
  }
