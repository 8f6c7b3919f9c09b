-- ===== src/LlmClient.antt =====
-- agent-backend/app/llm/client.py: `_call_with_retry`. The provider's SDK, the clock, the random
-- jitter and `asyncio.sleep` are parameters. An exception is what the three tests of the file read
-- off it. Times count microseconds.
pub mod Retry
pub mod Models
pub mod Result
pub mod Analysis
pub mod Tools
pub mod ToolLoop
pub mod ChatLoops
pub mod Providers
pub mod Rounds
pub mod Known
pub mod Agreed
pub mod Order
mod Tests
mod Scenarios
use ai_devops_copilot.Base.{
  ℕ, zero, suc, ◌+◌, ◌-◌, ◌*◌, ◌^◌, min, Bool, true, false, not, ◌||◌, Option, none, some, List, [],
  ◌∷◌, leb, if◌then◌else◌,
}
use ai_devops_copilot.Base.Effects.{Eff, pure, ◌>>=◌}

abbrev pub retry_max_attempts : ℕ
retry_max_attempts = 3

abbrev pub retry_base_delay : ℕ
retry_base_delay = 500_000

abbrev pub retry_max_delay : ℕ
retry_max_delay = 8_000_000

abbrev pub retry_total_budget : ℕ
retry_total_budget = 20_000_000

-- `_is_transient_server`, `_is_rate_limit`, `_parse_retry_after` and `_is_retriable` of an exception
pub record Failure : Type 0 where
  pub transient : Bool
  pub rate_limit : Bool
  pub retry_after : Option ℕ
  pub next_key : Bool

pub data Attempt (A : Type 0) : Type 0 where
  answered : A → Attempt A
  failed : Failure → Attempt A

unfoldable pub is_retriable : Failure → Bool
is_retriable failure = failure.transient || failure.rate_limit

unfoldable pub rate_limit_delay : ℕ → Option ℕ → ℕ
rate_limit_delay attempt (some hinted) = min hinted retry_max_delay
rate_limit_delay attempt none = min (2 ^ attempt * 1_000_000) retry_max_delay

module _ {S A : Type 0} (call : Eff S (Attempt A)) (monotonic jitter : Eff S ℕ)
    (sleep : ℕ → S → S) where
  -- the delay before the next attempt; only a transient failure draws a jitter
  unfoldable pub delay_for : ℕ → Failure → Eff S ℕ
  unfolding rate_limit_delay
  delay_for attempt failure =
      if failure.rate_limit
      then pure (rate_limit_delay attempt failure.retry_after)
      else do extra ← jitter; pure (min (retry_base_delay * 2 ^ attempt) retry_max_delay + extra)

  -- What is handed back is the answer or the exception that is raised, with the delays that were
  -- logged; `again` is the loop from the next attempt on.
  unfoldable pub wait_and_retry :
      Eff S (Attempt A × List ℕ) → ℕ → Failure → Eff S (Attempt A × List ℕ)
  wait_and_retry again attempt failure s =
      let (delay, s1) = delay_for attempt failure s in
      let (r, s2) = again (sleep delay s1) in ((r.0, delay ∷ r.1), s2)

  unfoldable pub after_attempt :
      Eff S (Attempt A × List ℕ) → ℕ → ℕ → Attempt A → Eff S (Attempt A × List ℕ)
  unfolding wait_and_retry
  after_attempt again attempt started (answered a) s = ((answered a, []), s)
  after_attempt again attempt started (failed failure) s =
      let (t, s1) = monotonic s in
      if not (is_retriable failure)
      then ((failed failure, []), s)
      else if leb (started + retry_total_budget) t
      then ((failed failure, []), s1)
      else wait_and_retry again attempt failure s1

  -- `left` counts the attempts after this one; the last one is handed back as it is
  unfoldable pub attempts_from : ℕ → ℕ → ℕ → Eff S (Attempt A × List ℕ)
  attempts_from zero attempt started s = let (a, s1) = call s in ((a, []), s1)
  attempts_from (suc left) attempt started s =
      let (a, s1) = call s in
      after_attempt (attempts_from left (suc attempt) started) attempt started a s1

  unfoldable pub call_with_retry : Eff S (Attempt A × List ℕ)
  call_with_retry s =
      let (started, s1) = monotonic s in attempts_from (retry_max_attempts - 1) 0 started s1
