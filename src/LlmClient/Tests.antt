-- ===== src/LlmClient/Tests.antt =====
-- A provider that is overloaded twice; the state counts the calls and holds the clock.
use ai_devops_copilot.Base.{
  ℕ, suc, ◌+◌, ◌≤◌, String, ◌≡◌, refl, true, false, none, List, [], ◌∷◌, arith, length, All, ltb,
  if◌then◌else◌,
}
use ai_devops_copilot.Base.Effects.{Eff}
use ai_devops_copilot.LlmClient.{
  Failure, Attempt, answered, failed, is_retriable, retry_max_delay, delay_for, wait_and_retry,
  after_attempt, attempts_from, call_with_retry,
}
use ai_devops_copilot.LlmClient.ToolLoop.{ToolUse, Message, Response, tool_block, call_anthropic}
use ai_devops_copilot.LlmClient.Rounds.{call_anthropic-Ends}
use ai_devops_copilot.LlmClient.Retry.{call_with_retry-IsShort}

abbrev overloaded : Failure
overloaded = record { transient = true; rate_limit = false; retry_after = none; next_key = false }

abbrev forbidden : Failure
forbidden = record { transient = false; rate_limit = false; retry_after = none; next_key = false }

abbrev call : Eff (ℕ × ℕ) (Attempt String)
call s = (if ltb s.0 2 then failed overloaded else answered "ok", (suc s.0, s.1))

abbrev clock : Eff (ℕ × ℕ) ℕ
clock s = (s.1, s)

abbrev jitter : Eff (ℕ × ℕ) ℕ
jitter s = (7, s)

abbrev sleep : ℕ → ℕ × ℕ → ℕ × ℕ
sleep d s = (s.0, s.1 + d)

third_time :
    call_with_retry call clock jitter sleep (0, 0)
    ≡ ((answered "ok", 500_007 ∷ 1_000_007 ∷ []), (3, 1_500_014))
unfolding call_with_retry attempts_from after_attempt wait_and_retry delay_for is_retriable
third_time = refl

call_with_retry-IsShort_example :
    (length (call_with_retry call clock jitter sleep (0, 0)).0.1 ≤ 2)
    × All (λ d. d ≤ retry_max_delay) (call_with_retry call clock jitter sleep (0, 0)).0.1
call_with_retry-IsShort_example =
    call_with_retry-IsShort call clock jitter sleep (λ s. omega arith) (0, 0)

abbrev events_wanted : ToolUse
events_wanted = record {
  id = "t1";
  name = "get_k8s_events";
  input = record { query = ""; lookback_minutes = none; level = none; namespace = none };
}

-- a model that asks for the events again and again; the state counts the requests
abbrev asks_again : List Message → Eff ℕ (Attempt Response)
asks_again messages n =
    (answered (record { stops_for_tools = true; content = tool_block events_wanted ∷ [] }), suc n)

abbrev no_events : ToolUse → Eff ℕ String
no_events wanted n = ("No k8s events found", n)

-- the third time, the tool is run and its result is not sent; there is no text
gives_up : call_anthropic no_events asks_again "what is wrong?" 0 ≡ (
  answered (record {
    text = none;
    tool_calls = "get_k8s_events" ∷ "get_k8s_events" ∷ "get_k8s_events" ∷ [];
  }),
  3,
)
unfolding call_anthropic
gives_up = refl

call_anthropic-Ends_example :
    (left : ℕ) × ((call_anthropic no_events asks_again "what is wrong?" 0).1 + left ≡ 3)
call_anthropic-Ends_example =
    call_anthropic-Ends no_events asks_again (λ n s. s + n ≡ 3) (λ n s wanted p. p)
      (λ n s messages paired p. let e : s + suc n ≡ 3 = p in omega arith) "what is wrong?" 0
      (omega arith)
