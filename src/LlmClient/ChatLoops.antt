-- ===== src/LlmClient/ChatLoops.antt =====
-- agent-backend/app/llm/client.py: the tool loops of OpenAI, which keeps the conversation as a list of
-- messages, and of Gemini, whose SDK keeps it.
use ai_devops_copilot.Base.{
  ℕ, zero, suc, String, ◌==◌, Bool, true, false, not, ◌||◌, Option, none, some, List, [], ◌∷◌, ◌++◌,
  map, if◌then◌else◌,
}
use ai_devops_copilot.Base.Effects.{Eff}
use ai_devops_copilot.LlmClient.{Failure, Attempt, answered, failed}
use ai_devops_copilot.LlmClient.Tools.{ToolInput}
use ai_devops_copilot.LlmClient.ToolLoop.{
  ToolUse, ToolResult, Spoken, max_tool_rounds, run_tools, names_of,
}

-- the arguments are `none` where `json.loads` of them raises
pub record FunctionCall : Type 0 where
  pub id : String
  pub name : String
  pub arguments : Option ToolInput

pub data ChatMessage : Type 0 where
  system_message user_message : String → ChatMessage
  assistant_message : (content : String) → List FunctionCall → ChatMessage
  tool_message : ToolResult → ChatMessage

-- `choices[0]`; a content that is null is empty
pub record Choice : Type 0 where
  pub finishes_for_tools : Bool
  pub content : String
  pub calls : List FunctionCall

unfoldable pub text_or_object : String → String
text_or_object text = if text == "" then "{}" else text

unfoldable pub some_text : String → Option String
some_text text = if text == "" then none else some text

unfoldable pub last_content : Option Choice → Option String
unfolding some_text
last_content none = none
last_content (some choice) = some_text choice.content

unfoldable pub no_calls : List FunctionCall → Bool
no_calls [] = true
no_calls (call ∷ calls) = false

-- an answer of Gemini; reading its text may raise
pub record GeminiResponse : Type 0 where
  pub calls : List ToolUse
  pub text : Attempt String

module _ {S : Type 0} (execute : ToolUse → Eff S String) (invalid_json : Failure) where
  -- the tools of an answer in its order, each with its message, up to arguments that are no JSON
  unfoldable pub run_call : FunctionCall → Option ToolInput → Eff S (Attempt ToolResult)
  run_call call none s = (failed invalid_json, s)
  run_call call (some input) s =
      let (output, s1) = execute (record { id = call.id; name = call.name; input = input }) s in
      (answered (record { tool_use_id = call.id; content = output }), s1)

  unfoldable pub after_call :
      Attempt ToolResult → Eff S (Attempt (List ToolResult)) → Eff S (Attempt (List ToolResult))
  after_call (failed failure) later s = (failed failure, s)
  after_call (answered result) later s = with_result result (later s)
    where
      with_result : ToolResult → Attempt (List ToolResult) × S → Attempt (List ToolResult) × S
      with_result result (failed failure, s') = (failed failure, s')
      with_result result (answered results, s') = (answered (result ∷ results), s')

  unfoldable pub run_calls : List FunctionCall → Eff S (Attempt (List ToolResult))
  unfolding run_call after_call
  run_calls [] s = (answered [], s)
  run_calls (call ∷ calls) s =
      let (attempt, s1) = run_call call call.arguments s in after_call attempt (run_calls calls) s1

  module _ (create : List ChatMessage → Eff S (Attempt Choice)) where
    unfoldable pub after_tools :
        List ChatMessage
        → List String
        → Choice
        → Attempt (List ToolResult)
        → (List ChatMessage → List String → Eff S (Attempt Spoken))
        → Eff S (Attempt Spoken)
    after_tools messages log choice (failed failure) again s = (failed failure, s)
    after_tools messages log choice (answered results) again s =
        again (messages ++ assistant_message choice.content choice.calls ∷ map tool_message results)
          (log ++ map (λ call. call.name) choice.calls) s

    unfoldable pub after_choice :
        List ChatMessage
        → List String
        → Attempt Choice
        → (Choice → List ChatMessage → List String → Eff S (Attempt Spoken))
        → Eff S (Attempt Spoken)
    unfolding run_calls after_tools text_or_object no_calls
    after_choice messages log (failed failure) again s = (failed failure, s)
    after_choice messages log (answered choice) again s =
        let (results, s1) = run_calls choice.calls s in
        let continued = after_tools messages log choice results (again choice) s1 in
        if not choice.finishes_for_tools || no_calls choice.calls
        then (
          answered (record { text = some (text_or_object choice.content); tool_calls = log }),
          s,
        )
        else continued

    unfoldable pub openai_rounds :
        ℕ → List ChatMessage → List String → Option Choice → Eff S (Attempt Spoken)
    unfolding after_choice last_content
    openai_rounds zero messages log last s =
        (answered (record { text = last_content last; tool_calls = log }), s)
    openai_rounds (suc rounds) messages log last s =
        let (attempt, s1) = create messages s in
        after_choice messages log attempt
          (λ choice messages' log'. openai_rounds rounds messages' log' (some choice)) s1

    -- `_call_openai`
    unfoldable pub call_openai : String → String → Eff S (Attempt Spoken)
    unfolding openai_rounds
    call_openai system_prompt user_content s =
        openai_rounds max_tool_rounds
          (system_message system_prompt ∷ user_message user_content ∷ []) [] none s

module _ {S : Type 0} (execute : ToolUse → Eff S String)
    (send_text : String → Eff S (Attempt GeminiResponse))
    (send_results : List ToolResult → Eff S (Attempt GeminiResponse)) where
  unfoldable pub spoken_by : List String → Attempt String → Attempt Spoken
  unfolding some_text
  spoken_by log (failed failure) = failed failure
  spoken_by log (answered text) = answered (record { text = some_text text; tool_calls = log })

  unfoldable pub gemini_rounds : ℕ → List String → Attempt GeminiResponse → Eff S (Attempt Spoken)
  unfolding spoken_by run_tools names_of
  gemini_rounds rounds log (failed failure) s = (failed failure, s)
  gemini_rounds zero log (answered response) s = (spoken_by log response.text, s)
  gemini_rounds (suc rounds) log (answered response) s = elim response.calls [
    | [] ↦ (spoken_by log response.text, s)
    | wanted ∷ others ↦
        let (results, s1) = run_tools execute (wanted ∷ others) s in
        let (next, s2) = send_results results s1 in
        gemini_rounds rounds (log ++ names_of execute (wanted ∷ others)) next s2
  ]

  -- `_call_gemini`
  unfoldable pub call_gemini : String → Eff S (Attempt Spoken)
  unfolding gemini_rounds
  call_gemini user_content s =
      let (response, s1) = send_text user_content s in gemini_rounds max_tool_rounds [] response s1
