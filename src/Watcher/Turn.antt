-- ===== src/Watcher/Turn.antt =====
-- The three ways a turn of the loop can end, with what they need and what they leave.
use ai_devops_copilot.Base.{ℕ, ◌≤◌, ◌<◌, ◌≡◌, true, false, inl, inr, arith, leb, length, Bool-cases}
use ai_devops_copilot.Watcher.{
  Settings, WatcherEvent, State, within_cooldown, record_dispatch, expire, rate_limit_exceeded,
  Verdict, cooled, rate_limited, dispatched, dispatch,
}

abbrev pub expired : ℕ → State → State
expired now state = record state { rate_window = expire now state.rate_window }

module _ (settings : Settings) (now : ℕ) (event : WatcherEvent) (state : State) where
  pub data Ending (r : Verdict × State) : Type 0 where
    cool :
        within_cooldown settings event.service event.reason now state ≡ true
        → r ≡ (cooled, state)
        → Ending r
    limited :
        settings.rate_limit_per_min ≤ length (expired now state).rate_window
        → r ≡ (rate_limited, expired now state)
        → Ending r
    go :
        within_cooldown settings event.service event.reason now state ≡ false
        → length (expired now state).rate_window < settings.rate_limit_per_min
        → r ≡ (dispatched, record_dispatch event.service event.reason now (expired now state))
        → Ending r

  pub dispatch-Ending : Ending (dispatch settings now event state)
  unfolding dispatch rate_limit_exceeded
  dispatch-Ending =
      elim (Bool-cases (within_cooldown settings event.service event.reason now state)) [
        | inl c ↦ cool c (ground arith)
        | inr n ↦
            elim (Bool-cases
              (leb settings.rate_limit_per_min (length (expire now state.rate_window)))) [
                | inl full ↦ limited (ground arith) (ground arith)
                | inr room ↦ go n (ground arith) (ground arith)
              ]
      ]
