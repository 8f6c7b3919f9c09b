-- ===== src/LlmClient/ToolLoop.antt =====
-- agent-backend/app/llm/client.py: the loops in which a model asks for tools before it answers. A request
-- to a provider's SDK is a parameter, and so is the execution of a tool. A loop hands back the text that
-- `_parse_json` is to read, `none` for the empty result, with the names of the tools it has run; the
-- parsing of that text is left to the caller.
use ai_devops_copilot.Base.{
  ℕ, zero, suc, String, Bool, Option, none, some, List, [], ◌∷◌, ◌++◌, map, if◌then◌else◌,
}
use ai_devops_copilot.Base.Effects.{Eff}
use ai_devops_copilot.LlmClient.{Attempt, answered, failed}
use ai_devops_copilot.LlmClient.Tools.{ToolInput}

abbrev pub max_tool_rounds : ℕ
max_tool_rounds = 3

pub record ToolUse : Type 0 where
  pub id : String
  pub name : String
  pub input : ToolInput

-- the text of an answer, and the log of the tools
pub record Spoken : Type 0 where
  pub text : Option String
  pub tool_calls : List String

pub record ToolResult : Type 0 where
  pub tool_use_id : String
  pub content : String

-- a block of an answer of Anthropic; any other kind is passed over
pub data Block : Type 0 where
  text_block : String → Block
  tool_block : ToolUse → Block
  other_block : Block

pub data Message : Type 0 where
  user_text : String → Message
  assistant_blocks : List Block → Message
  tool_results : List ToolResult → Message

pub record Response : Type 0 where
  pub stops_for_tools : Bool
  pub content : List Block

-- the text of the first text block
unfoldable pub first_text : List Block → Option String
first_text [] = none
first_text (text_block text ∷ blocks) = some text
first_text (tool_block wanted ∷ blocks) = first_text blocks
first_text (other_block ∷ blocks) = first_text blocks

unfoldable pub text_or_braces : Option String → String
text_or_braces none = "{}"
text_or_braces (some text) = text

-- what goes back into the conversation: text and tool uses
unfoldable pub assistant_content : List Block → List Block
assistant_content [] = []
assistant_content (text_block text ∷ blocks) = text_block text ∷ assistant_content blocks
assistant_content (tool_block wanted ∷ blocks) = tool_block wanted ∷ assistant_content blocks
assistant_content (other_block ∷ blocks) = assistant_content blocks

unfoldable pub tool_uses : List Block → List ToolUse
tool_uses [] = []
tool_uses (text_block text ∷ blocks) = tool_uses blocks
tool_uses (tool_block wanted ∷ blocks) = wanted ∷ tool_uses blocks
tool_uses (other_block ∷ blocks) = tool_uses blocks

unfoldable pub last_text : Option Response → Option String
unfolding first_text
last_text none = none
last_text (some response) = first_text response.content

module _ {S : Type 0} (execute : ToolUse → Eff S String) where
  -- the tools of an answer, in its order
  unfoldable pub run_tools : List ToolUse → Eff S (List ToolResult)
  run_tools [] s = ([], s)
  run_tools (wanted ∷ uses) s =
      let (output, s1) = execute wanted s in
      let (results, s2) = run_tools uses s1 in
      (record { tool_use_id = wanted.id; content = output } ∷ results, s2)

  unfoldable pub names_of : List ToolUse → List String
  names_of uses = map (λ wanted. wanted.name) uses

  module _ (create : List Message → Eff S (Attempt Response)) where
    -- what is done with an answer; `again` is the next round
    unfoldable pub after_response :
        List Message
        → List String
        → Attempt Response
        → (Response → List Message → List String → Eff S (Attempt Spoken))
        → Eff S (Attempt Spoken)
    unfolding run_tools names_of text_or_braces first_text assistant_content tool_uses
    after_response messages log (failed failure) again s = (failed failure, s)
    after_response messages log (answered response) again s =
        let uses = tool_uses response.content in
        let (results, s1) = run_tools uses s in
        let messages' =
          messages
          ++ assistant_blocks (assistant_content response.content) ∷ tool_results results ∷ [] in
        if response.stops_for_tools then again response messages' (log ++ names_of uses) s1 else (
          answered (record {
            text = some (text_or_braces (first_text response.content));
            tool_calls = log;
          }),
          s,
        )

    -- `for _ in range(_MAX_TOOL_ROUNDS)`, with the answer of the round before
    unfoldable pub anthropic_rounds :
        ℕ → List Message → List String → Option Response → Eff S (Attempt Spoken)
    unfolding after_response last_text
    anthropic_rounds zero messages log last s =
        (answered (record { text = last_text last; tool_calls = log }), s)
    anthropic_rounds (suc rounds) messages log last s =
        let (attempt, s1) = create messages s in
        after_response messages log attempt
          (λ response messages' log'. anthropic_rounds rounds messages' log' (some response)) s1

    -- `_call_anthropic`
    unfoldable pub call_anthropic : String → Eff S (Attempt Spoken)
    unfolding anthropic_rounds
    call_anthropic user_content s =
        anthropic_rounds max_tool_rounds (user_text user_content ∷ []) [] none s
