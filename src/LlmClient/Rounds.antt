-- ===== src/LlmClient/Rounds.antt =====
-- What the tool loops send: a bounded number of requests, and in the loop of Anthropic each tool use
-- followed by its result.
use ai_devops_copilot.Base.{
  ℕ, zero, suc, String, ◌≡◌, refl, ap, ◌∙◌, true, false, Option, none, some, List, [], ◌∷◌, ◌++◌,
  map, if◌then◌else◌,
}
use ai_devops_copilot.Base.Effects.{Eff}
use ai_devops_copilot.LlmClient.{Attempt, answered, failed}
use ai_devops_copilot.LlmClient.ToolLoop.{
  max_tool_rounds, ToolUse, ToolResult, Block, text_block, tool_block, other_block, Message,
  user_text, assistant_blocks, tool_results, Response, Spoken, assistant_content, tool_uses,
  run_tools, names_of, first_text, text_or_braces, after_response, anthropic_rounds, call_anthropic,
}

abbrev wanted_ids : List ToolUse → List String
wanted_ids wanted = map (λ w. w.id) wanted

abbrev answered_ids : List ToolResult → List String
answered_ids results = map (λ r. r.tool_use_id) results

-- the message that follows has the results of the tools that the blocks ask for, in their order
abbrev pub IsFollowed : List Block → List Message → Type 0
IsFollowed blocks (tool_results results ∷ messages) =
    wanted_ids (tool_uses blocks) ≡ answered_ids results
IsFollowed blocks messages = wanted_ids (tool_uses blocks) ≡ []

abbrev pub IsPaired : List Message → Type 0
IsPaired [] = Unit
IsPaired (user_text text ∷ messages) = IsPaired messages
IsPaired (tool_results results ∷ messages) = IsPaired messages
IsPaired (assistant_blocks blocks ∷ messages) = IsFollowed blocks messages × IsPaired messages

IsFollowed-append :
    (blocks next : List Block) (messages rest : List Message)
    → IsFollowed blocks messages
    → IsFollowed blocks (messages ++ assistant_blocks next ∷ rest)
IsFollowed-append blocks next [] rest h = h
IsFollowed-append blocks next (user_text text ∷ messages) rest h = h
IsFollowed-append blocks next (assistant_blocks others ∷ messages) rest h = h
IsFollowed-append blocks next (tool_results results ∷ messages) rest h = h

IsPaired-append :
    (messages : List Message) (blocks : List Block) (results : List ToolResult)
    → IsPaired messages
    → wanted_ids (tool_uses blocks) ≡ answered_ids results
    → IsPaired (messages ++ assistant_blocks blocks ∷ tool_results results ∷ [])
IsPaired-append [] blocks results h e = (e, tt)
IsPaired-append (user_text text ∷ messages) blocks results h e =
    IsPaired-append messages blocks results h e
IsPaired-append (tool_results others ∷ messages) blocks results h e =
    IsPaired-append messages blocks results h e
IsPaired-append (assistant_blocks others ∷ messages) blocks results (f, h) e = (
  IsFollowed-append others blocks messages (tool_results results ∷ []) f,
  IsPaired-append messages blocks results h e,
)

-- what is sent back asks for the tools that the answer asked for
tool_uses-assistant_content :
    (blocks : List Block) → tool_uses (assistant_content blocks) ≡ tool_uses blocks
unfolding tool_uses assistant_content
tool_uses-assistant_content [] = refl
tool_uses-assistant_content (text_block text ∷ blocks) = tool_uses-assistant_content blocks
tool_uses-assistant_content (tool_block wanted ∷ blocks) =
    ap (λ rest. wanted ∷ rest) (tool_uses-assistant_content blocks)
tool_uses-assistant_content (other_block ∷ blocks) = tool_uses-assistant_content blocks

module _ {S : Type 0} (execute : ToolUse → Eff S String)
    (create : List Message → Eff S (Attempt Response)) (P : ℕ → S → Type 0)
    (execute_keeps : (n : ℕ) (s : S) (wanted : ToolUse) → P n s → P n (execute wanted s).1)
    (create_keeps : (n : ℕ) (s : S) (messages : List Message)
      → IsPaired messages
      → P (suc n) s
      → P n (create messages s).1) where
  run_tools-ids :
      (wanted : List ToolUse) (s : S)
      → wanted_ids wanted ≡ answered_ids (run_tools execute wanted s).0
  unfolding run_tools
  run_tools-ids [] s = refl
  run_tools-ids (w ∷ wanted) s = ap (λ ids. w.id ∷ ids) (run_tools-ids wanted (execute w s).1)

  run_tools-keeps :
      (n : ℕ) (wanted : List ToolUse) (s : S) → P n s → P n (run_tools execute wanted s).1
  unfolding run_tools
  run_tools-keeps n [] s p = p
  run_tools-keeps n (w ∷ wanted) s p =
      run_tools-keeps n wanted (execute w s).1 (execute_keeps n s w p)

  abbrev Ends : S → Type 0
  Ends s = (left : ℕ) × P left s

  after_response-Ends :
      (n : ℕ) (messages : List Message) (log : List String) (attempt : Attempt Response)
      (again : Response → List Message → List String → Eff S (Attempt Spoken)) (s : S)
      → IsPaired messages
      → P n s
      → ((response : Response) (messages' : List Message) (log' : List String) (s' : S)
          → IsPaired messages'
          → P n s'
          → Ends (again response messages' log' s').1)
      → Ends (after_response execute create messages log attempt again s).1
  unfolding after_response
  after_response-Ends n messages log (failed failure) again s h p later = (n, p)
  after_response-Ends n messages log (answered response) again s h p later =
      let wanted = tool_uses response.content in
      let results = (run_tools execute wanted s).0 in
      let s1 = (run_tools execute wanted s).1 in
      let sent = assistant_content response.content in
      let ids =
        ap (λ w. wanted_ids w) (tool_uses-assistant_content response.content)
        ∙ run_tools-ids wanted s in
      let messages' = messages ++ assistant_blocks sent ∷ tool_results results ∷ [] in
      let next =
        later response messages' (log ++ names_of execute wanted) s1
          (IsPaired-append messages sent results h ids) (run_tools-keeps n wanted s p) in
      let spoken : Attempt Spoken =
        answered (record {
          text = some (text_or_braces (first_text response.content));
          tool_calls = log;
        }) in
      elim response.stops_for_tools
        as (λ x.
          Ends
            (if x
              then again response messages' (log ++ names_of execute wanted) s1
              else (spoken, s)).1) [ true ↦ next | false ↦ (n, p) ]

  anthropic_rounds-Ends :
      (n : ℕ) (messages : List Message) (log : List String) (last : Option Response) (s : S)
      → IsPaired messages
      → P n s
      → Ends (anthropic_rounds execute create n messages log last s).1
  unfolding anthropic_rounds
  anthropic_rounds-Ends zero messages log last s h p = (0, p)
  anthropic_rounds-Ends (suc n) messages log last s h p =
      after_response-Ends n messages log (create messages s).0 _ (create messages s).1 h
        (create_keeps n s messages h p)
        (λ response messages' log' s' h' p'.
          anthropic_rounds-Ends n messages' log' (some response) s' h' p')

  -- `_call_anthropic` makes at most three requests, and in each of them every message that asks for tools
  -- is followed by their results, in the same order: a property of the state with a count, which each
  -- such request takes from one more to the count itself and which tools keep, holds at the end with
  -- some count, if it holds with three at the start.
  pub call_anthropic-Ends :
      (user_content : String) (s : S)
      → P max_tool_rounds s
      → (left : ℕ) × P left (call_anthropic execute create user_content s).1
  unfolding call_anthropic
  call_anthropic-Ends user_content s p =
      anthropic_rounds-Ends max_tool_rounds (user_text user_content ∷ []) [] none s tt p
