-- ===== src/Watcher/Progress.antt =====
-- The watcher is never stuck: what holds an event back wears off.
use ai_devops_copilot.Base.{
  ℕ, ◌+◌, ◌≤◌, ◌<◌, String, ◌≡◌, refl, true, false, some, List, [], ◌∷◌, arith, All, All-append,
  ltb, leb, if◌then◌else◌,
}
use ai_devops_copilot.Watcher.{
  Settings, WatcherEvent, Cooldowns, State, initial, same_key, last_of, set_last, is_recent,
  within_cooldown, record_dispatch, minute, expire, rate_limit_exceeded, dispatched, dispatch,
}
use ai_devops_copilot.Watcher.Turn.{dispatch-Ending, cool, limited, go}
use ai_devops_copilot.Watcher.Dispatch.{IsOrdered, run}

abbrev NotAfter : ℕ → List ℕ → Type 0
NotAfter u times = All (λ t. t ≤ u) times

abbrev NotedBy : ℕ → Cooldowns → Type 0
NotedBy u cooldowns = All (λ e. e.2 ≤ u) cooldowns

-- all that the state remembers happened by then
abbrev IsPast : ℕ → State → Type 0
IsPast u state = NotAfter u state.rate_window × NotedBy u state.cooldowns

NotAfter-later : (t u : ℕ) (times : List ℕ) → t ≤ u → NotAfter t times → NotAfter u times
NotAfter-later t u [] le h = tt
NotAfter-later t u (x ∷ times) le (h, rest) =
    (omega (arith, le, h), NotAfter-later t u times le rest)

NotedBy-later :
    (t u : ℕ) (cooldowns : Cooldowns) → t ≤ u → NotedBy t cooldowns → NotedBy u cooldowns
NotedBy-later t u [] le h = tt
NotedBy-later t u ((s, r, at) ∷ cooldowns) le (h, rest) =
    (omega (arith, le, h), NotedBy-later t u cooldowns le rest)

expire-NotAfter : (now u : ℕ) (times : List ℕ) → NotAfter u times → NotAfter u (expire now times)
unfolding expire
expire-NotAfter now u [] h = tt
expire-NotAfter now u (t ∷ times) (h, rest) =
    elim (ltb (t + minute) now) as (λ x. NotAfter u (if x then expire now times else t ∷ times)) [
      | true ↦ expire-NotAfter now u times rest
      | false ↦ (h, rest)
    ]

expire_all :
    (now u : ℕ) (times : List ℕ) → u + minute < now → NotAfter u times → expire now times ≡ []
unfolding expire
expire_all now u [] lt h = refl
expire_all now u (t ∷ times) lt (h, rest) =
    let gone : ltb (t + minute) now ≡ true = ground (arith, lt, h) in
    rw gone (expire_all now u times lt rest)

set_last-NotedBy :
    (s r : String) (now : ℕ) (cooldowns : Cooldowns)
    → NotedBy now cooldowns
    → NotedBy now (set_last s r now cooldowns)
unfolding set_last
set_last-NotedBy s r now [] h = (omega arith, tt)
set_last-NotedBy s r now ((s', r', at) ∷ cooldowns) (h, rest) =
    elim (same_key s' r' s r)
      as (λ x.
        NotedBy now
          (if x then (s', r', now) ∷ cooldowns else (s', r', at) ∷ set_last s r now cooldowns)) [
            | true ↦ (omega arith, rest)
            | false ↦ (h, set_last-NotedBy s r now cooldowns rest)
          ]

last_of-cooled :
    (cooldown now u : ℕ) (s r : String) (cooldowns : Cooldowns)
    → u + cooldown ≤ now
    → NotedBy u cooldowns
    → is_recent cooldown now (last_of s r cooldowns) ≡ false
unfolding is_recent last_of
last_of-cooled cooldown now u s r [] le h = refl
last_of-cooled cooldown now u s r ((s', r', at) ∷ cooldowns) le (h, rest) =
    let old : ltb now (at + cooldown) ≡ false = ground (arith, le, h) in
    elim (same_key s' r' s r)
      as (λ x. is_recent cooldown now (if x then some at else last_of s r cooldowns) ≡ false) [
        | true ↦ old
        | false ↦ last_of-cooled cooldown now u s r cooldowns le rest
      ]

module _ (settings : Settings) where
  dispatch-IsPast :
      (t now : ℕ) (event : WatcherEvent) (state : State)
      → t ≤ now
      → IsPast t state
      → IsPast now (dispatch settings now event state).1
  unfolding record_dispatch
  dispatch-IsPast t now event state le (window, noted) =
      let window' = NotAfter-later t now state.rate_window le window in
      let noted' = NotedBy-later t now state.cooldowns le noted in
      let left = expire-NotAfter now now state.rate_window window' in
      elim (dispatch-Ending settings now event state) [
        | cool c r ↦ rw r (window', noted')
        | limited f r ↦ rw r (left, noted')
        | go n room r ↦ rw r (
          All-append (λ x. x ≤ now) (expire now state.rate_window) (now ∷ []) left
              (omega arith, tt),
          set_last-NotedBy event.service event.reason now state.cooldowns noted',
        )
      ]

  run-IsPast :
      (t u : ℕ) (events : List (ℕ × WatcherEvent)) (state : State) (log : _)
      → IsOrdered t events u
      → IsPast t state
      → IsPast u (run settings events state log).0
  unfolding run
  run-IsPast t u [] state log le (window, noted) =
      (NotAfter-later t u state.rate_window le window, NotedBy-later t u state.cooldowns le noted)
  run-IsPast t u ((now, event) ∷ events) state log (le, o) past =
      run-IsPast now u events _ _ o (dispatch-IsPast t now event state le past)

  -- Whatever the watcher has taken from the queue by a time, with a clock that does not go back, an
  -- event that it takes when the cooldown and more than a minute have passed since is analysed, as long
  -- as the limit allows any analysis at all.
  pub run-dispatch :
      (u now : ℕ) (events : List (ℕ × WatcherEvent)) (event : WatcherEvent)
      → IsOrdered 0 events u
      → u + settings.cooldown ≤ now
      → u + minute < now
      → 0 < settings.rate_limit_per_min
      → (dispatch settings now event (run settings events initial []).0).0 ≡ dispatched
  unfolding dispatch within_cooldown rate_limit_exceeded
  run-dispatch u now events event o cooled over limit =
      let state = (run settings events initial []).0 in
      let (window, noted) = run-IsPast 0 u events initial [] o (tt, tt) in
      let free =
        last_of-cooled settings.cooldown now u event.service event.reason state.cooldowns cooled
          noted in
      let room : leb settings.rate_limit_per_min 0 ≡ false = ground (arith, limit) in
      rw free (rw (expire_all now u state.rate_window over window) (rw room refl))
