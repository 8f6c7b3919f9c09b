-- ===== src/LlmClient/Retry.antt =====
-- How long a call with retries can take, and which failures are not tried again.
use ai_devops_copilot.Base.{
  ℕ, zero, suc, ◌+◌, ◌^◌, ◌≤◌, ◌≡◌, false, inl, inr, Option, none, some, List, [], arith, length,
  All, leb, Bool-cases,
}
use ai_devops_copilot.Base.Effects.{Eff}
use ai_devops_copilot.LlmClient.{
  Failure, Attempt, answered, failed, is_retriable, retry_max_delay, retry_base_delay, delay_for,
  wait_and_retry, after_attempt, attempts_from, call_with_retry, rate_limit_delay,
  retry_total_budget,
}

power-le : (attempt : ℕ) → attempt ≤ 2 → 2 ^ attempt ≤ 4
power-le zero h = omega arith
power-le (suc zero) h = omega arith
power-le (suc (suc zero)) h = omega arith
power-le (suc (suc (suc attempt))) h = absurd (omega (arith, h))

rate_limit_delay-le :
    (attempt : ℕ) (hint : Option ℕ) → rate_limit_delay attempt hint ≤ retry_max_delay
unfolding rate_limit_delay
rate_limit_delay-le attempt (some hinted) = omega arith
rate_limit_delay-le attempt none = omega arith

module _ {S A : Type 0} (call : Eff S (Attempt A)) (monotonic jitter : Eff S ℕ) (sleep : ℕ → S → S)
    (small : (s : S) → (jitter s).0 ≤ retry_base_delay) where
  -- at most `left` delays, none longer than the cap
  abbrev IsShort : ℕ → Attempt A × List ℕ → Type 0
  IsShort left r = (length r.1 ≤ left) × All (λ d. d ≤ retry_max_delay) r.1

  delay_for-le :
      (attempt : ℕ) (failure : Failure) (s : S)
      → attempt ≤ 2
      → (delay_for call monotonic jitter sleep attempt failure s).0 ≤ retry_max_delay
  unfolding delay_for
  delay_for-le attempt failure s h = elim (Bool-cases failure.rate_limit) [
    | inl e ↦ rw e (rate_limit_delay-le attempt failure.retry_after)
    | inr e ↦ rw e (omega (arith, small s, power-le attempt h))
  ]

  wait_and_retry-IsShort :
      (again : Eff S (Attempt A × List ℕ)) (left attempt : ℕ) (failure : Failure) (s : S)
      → attempt ≤ 2
      → ((s' : S) → IsShort left (again s').0)
      → IsShort (suc left) (wait_and_retry call monotonic jitter sleep again attempt failure s).0
  unfolding wait_and_retry
  wait_and_retry-IsShort again left attempt failure s h k =
      let waited =
        sleep (delay_for call monotonic jitter sleep attempt failure s).0
          (delay_for call monotonic jitter sleep attempt failure s).1 in
      let (few, short) = k waited in (omega (arith, few), (delay_for-le attempt failure s h, short))

  after_attempt-IsShort :
      (again : Eff S (Attempt A × List ℕ)) (left attempt started : ℕ) (a : Attempt A) (s : S)
      → attempt ≤ 2
      → ((s' : S) → IsShort left (again s').0)
      → IsShort (suc left) (after_attempt call monotonic jitter sleep again attempt started a s).0
  unfolding after_attempt
  after_attempt-IsShort again left attempt started (answered a) s h k = (omega arith, tt)
  after_attempt-IsShort again left attempt started (failed failure) s h k =
      elim (Bool-cases (is_retriable failure)) [
        | inr e ↦ rw e (omega arith, tt)
        | inl e ↦ elim (Bool-cases (leb (started + retry_total_budget) (monotonic s).0)) [
          | inl over ↦ rw (e, over) (omega arith, tt)
          | inr within ↦
              rw (e, within) (wait_and_retry-IsShort again left attempt failure (monotonic s).1 h k)
        ]
      ]

  attempts_from-IsShort :
      (left attempt started : ℕ) (s : S)
      → left + attempt ≤ 2
      → IsShort left (attempts_from call monotonic jitter sleep left attempt started s).0
  unfolding attempts_from
  attempts_from-IsShort zero attempt started s h = (omega arith, tt)
  attempts_from-IsShort (suc left) attempt started s h =
      after_attempt-IsShort (attempts_from call monotonic jitter sleep left (suc attempt) started)
        left attempt started (call s).0 (call s).1 (omega (arith, h))
        (λ s'. attempts_from-IsShort left (suc attempt) started s' (omega (arith, h)))

  -- If the jitter is at most the base delay, a call waits at most twice, and never for longer than
  -- eight seconds.
  pub call_with_retry-IsShort :
      (s : S)
      → let (_, delays) = (call_with_retry call monotonic jitter sleep s).0 in
        (length delays ≤ 2) × All (λ d. d ≤ retry_max_delay) delays
  unfolding call_with_retry
  call_with_retry-IsShort s =
      attempts_from-IsShort 2 0 (monotonic s).0 (monotonic s).1 (omega arith)

module _ {S A : Type 0} (call : Eff S (Attempt A)) (monotonic jitter : Eff S ℕ)
    (sleep : ℕ → S → S) where
  abbrev first : S → Attempt A × S
  first s = call (monotonic s).1

  -- An answer of the first attempt is handed on, and so is a failure of it that is neither
  -- transient nor a rate limit: without a delay, and without a second call.
  pub call_with_retry-Once :
      (s : S)
      → ((a : A)
          → (first s).0 ≡ answered a
          → call_with_retry call monotonic jitter sleep s ≡ ((answered a, []), (first s).1))
        × ((f : Failure)
            → (first s).0 ≡ failed f
            → is_retriable f ≡ false
            → call_with_retry call monotonic jitter sleep s ≡ ((failed f, []), (first s).1))
  unfolding call_with_retry attempts_from after_attempt
  call_with_retry-Once s = (λ a e. rw e, λ f e n. rw (e, n))
