-- ===== src/Watcher/Dispatch.antt =====
-- What `_dispatch_loop` starts, over any sequence of events: no key twice within the cooldown, and
-- no more than the limit within a minute.
use ai_devops_copilot.Base.{
  ℕ, suc, ◌+◌, ◌≤◌, ◌<◌, String, ◌≡◌, refl, List, [], ◌∷◌, ◌++◌, arith, ltb, length, if◌then◌else◌,
  length-append,
}
use ai_devops_copilot.Watcher.{
  Settings, WatcherEvent, State, initial, record_dispatch, minute, expire, Verdict, cooled,
  rate_limited, dispatched, dispatch,
}
use ai_devops_copilot.Watcher.Turn.{expired, dispatch-Ending, cool, limited, go}

-- an analysis that was started
pub record Started : Type 0 where
  pub service : String
  pub reason : String
  pub at : ℕ

unfoldable pub log_verdict : WatcherEvent → ℕ → Verdict → List Started → List Started
log_verdict event now cooled log = log
log_verdict event now rate_limited log = log
log_verdict event now dispatched log =
    record { service = event.service; reason = event.reason; at = now } ∷ log

-- the loop over the events that it takes from the queue, each with the time at which it does; the
-- log, newest first, is what `create_task` was called for
unfoldable pub run :
    Settings → List (ℕ × WatcherEvent) → State → List Started → State × List Started
unfolding log_verdict
run settings [] state log = (state, log)
run settings ((now, event) ∷ events) state log =
    let (verdict, state') = dispatch settings now event state in
    run settings events state' (log_verdict event now verdict log)

-- the clock never goes back, and stands at `t` or before when the loop starts and at `u` at its end
abbrev pub IsOrdered : ℕ → List (ℕ × WatcherEvent) → ℕ → Type 0
IsOrdered t [] u = t ≤ u
IsOrdered t ((now, event) ∷ events) u = (t ≤ now) × IsOrdered now events u

-- how many of the times lie within the minute before `now`
unfoldable pub within_minute : ℕ → List ℕ → ℕ
within_minute now [] = 0
within_minute now (t ∷ times) =
    let rest = within_minute now times in if ltb (t + minute) now then rest else suc rest

unfoldable pub times : List Started → List ℕ
times [] = []
times (d ∷ log) = d.at ∷ times log

within_minute-le-length : (now : ℕ) (ts : List ℕ) → within_minute now ts ≤ length ts
unfolding within_minute
within_minute-le-length now [] = omega arith
within_minute-le-length now (t ∷ ts) = ground (arith, within_minute-le-length now ts)

within_minute-append :
    (now : ℕ) (ts : List ℕ) (t : ℕ) → within_minute now (ts ++ t ∷ []) ≡ within_minute now (t ∷ ts)
unfolding within_minute
within_minute-append now [] t = refl
within_minute-append now (x ∷ ts) t = ground (arith, within_minute-append now ts t)

-- what has expired lies outside of every later minute
within_minute-expire :
    (now later : ℕ) (ts : List ℕ)
    → now ≤ later
    → within_minute later (expire now ts) ≡ within_minute later ts
unfolding within_minute expire
within_minute-expire now later [] le = refl
within_minute-expire now later (t ∷ ts) le = ground (arith, within_minute-expire now later ts le)

length-expire-le : (now : ℕ) (ts : List ℕ) → length (expire now ts) ≤ length ts
unfolding expire
length-expire-le now [] = omega arith
length-expire-le now (t ∷ ts) = ground (arith, length-expire-le now ts)

module _ (settings : Settings) where
  -- the window holds what matters of the log, and fits the limit
  pub record IsBounded (now : ℕ) (state : State) (log : List Started) : Type 0 where
    pub held :
        (later : ℕ)
        → now ≤ later
        → within_minute later (times log) ≤ within_minute later state.rate_window
    pub fits : length state.rate_window ≤ settings.rate_limit_per_min

  later-IsBounded :
      (t now : ℕ) (state : State) (log : List Started)
      → t ≤ now
      → IsBounded t state log
      → IsBounded now state log
  later-IsBounded t now state log le b = record {
    held = λ later l. b.held later (omega (arith, le, l));
    fits = b.fits;
  }

  expired-IsBounded :
      (t now : ℕ) (state : State) (log : List Started)
      → t ≤ now
      → IsBounded t state log
      → IsBounded now (expired now state) log
  expired-IsBounded t now state log le b = record {
    held = λ later l.
        rw (within_minute-expire now later state.rate_window l)
          (b.held later (omega (arith, le, l)));
    fits = omega (arith, b.fits, length-expire-le now state.rate_window);
  }

  recorded-IsBounded :
      (now : ℕ) (event : WatcherEvent) (state : State) (log : List Started)
      → length state.rate_window < settings.rate_limit_per_min
      → IsBounded now state log
      → IsBounded now
          (record_dispatch event.service event.reason now state)
          (log_verdict event now dispatched log)
  unfolding record_dispatch log_verdict times within_minute
  recorded-IsBounded now event state log room b = record {
    held =
        λ later l. ground (arith, b.held later l, within_minute-append later state.rate_window now);
    fits = omega (arith, room, length-append state.rate_window (now ∷ []));
  }

  dispatch-IsBounded :
      (t now : ℕ) (event : WatcherEvent) (state : State) (log : List Started)
      → t ≤ now
      → IsBounded t state log
      → let (verdict, state') = dispatch settings now event state in
        IsBounded now state' (log_verdict event now verdict log)
  unfolding log_verdict
  dispatch-IsBounded t now event state log le b = elim (dispatch-Ending settings now event state) [
    | cool c r ↦ rw r (later-IsBounded t now state log le b)
    | limited f r ↦ rw r (expired-IsBounded t now state log le b)
    | go n room r ↦ rw r (
        recorded-IsBounded now event (expired now state) log room
          (expired-IsBounded t now state log le b))
  ]

  run-IsBounded :
      (t u : ℕ) (events : List (ℕ × WatcherEvent)) (state : State) (log : List Started)
      → IsOrdered t events u
      → IsBounded t state log
      → let (state', log') = run settings events state log in IsBounded u state' log'
  unfolding run
  run-IsBounded t u [] state log o b = record {
    held = λ later le. b.held later (omega (arith, o, le));
    fits = b.fits;
  }
  run-IsBounded t u ((now, event) ∷ events) state log o b =
      run-IsBounded now u events _ _ o.1 (dispatch-IsBounded t now event state log o.0 b)

  initial-IsBounded : IsBounded 0 initial []
  unfolding times within_minute
  initial-IsBounded = record { held = λ later le. omega arith; fits = omega arith }

  -- At no time do more analyses than the limit lie within the last minute, as long as the clock
  -- does not go back.
  pub run-RateLimited :
      (now : ℕ) (events : List (ℕ × WatcherEvent))
      → IsOrdered 0 events now
      → within_minute now (times (run settings events initial []).1) ≤ settings.rate_limit_per_min
  run-RateLimited now events o =
      let b = run-IsBounded 0 now events initial [] o initial-IsBounded in
      omega (
        arith,
        b.held now (omega arith),
        b.fits,
        within_minute-le-length now (run settings events initial []).0.rate_window,
      )
