-- ===== src/Watcher/Spacing.antt =====
-- The cooldown table of `_dispatch_loop`: analyses of one service for one reason stand apart.
use ai_devops_copilot.Base.{
  ℕ, ◌+◌, ◌≤◌, String, eq_iff, eq_refl, ◌≡◌, refl, true, false, inl, inr, some, List, [], ◌∷◌,
  arith, All, Bool-cases, if◌then◌else◌,
}
use ai_devops_copilot.Watcher.{
  Settings, WatcherEvent, Cooldowns, State, initial, same_key, last_of, set_last, within_cooldown,
  is_recent, record_dispatch, dispatch,
}
use ai_devops_copilot.Watcher.Turn.{expired, dispatch-Ending, cool, limited, go}
use ai_devops_copilot.Watcher.Dispatch.{Started, log_verdict, run}

last_of-set_last :
    (s r : String) (now : ℕ) (cooldowns : Cooldowns) (service reason : String)
    → last_of service reason (set_last s r now cooldowns)
      ≡ (if same_key s r service reason then some now else last_of service reason cooldowns)
unfolding last_of set_last same_key
last_of-set_last s r now [] service reason = refl
last_of-set_last s r now ((s', r', at) ∷ rest) service reason = ground (
  arith,
  last_of-set_last s r now rest service reason,
  eq_iff s' s,
  eq_iff s s',
  eq_iff s' service,
  eq_iff s service,
  eq_iff r' r,
  eq_iff r' reason,
  eq_iff r reason,
)

same_key_symm :
    (s r service reason : String)
    → same_key s r service reason ≡ true
    → same_key service reason s r ≡ true
unfolding same_key
same_key_symm s r service reason h =
    ground (arith, eq_iff s service, eq_iff r reason, eq_iff service s, eq_iff reason r)

module _ (settings : Settings) where
  -- earlier analyses of the same service for the same reason lie at least the cooldown back
  abbrev pub Apart : Started → List Started → Type 0
  Apart d =
      All (λ e.
        same_key e.service e.reason d.service d.reason ≡ true → e.at + settings.cooldown ≤ d.at)

  abbrev pub AllApart : List Started → Type 0
  AllApart [] = Unit
  AllApart (d ∷ log) = Apart d log × AllApart log

  -- the table has an entry for each analysis of the log, no older than it
  abbrev Noted : State → List Started → Type 0
  Noted state =
      All
        (λ e. (last : ℕ) × (last_of e.service e.reason state.cooldowns ≡ some last) × (e.at ≤ last))

  abbrev IsNoted : State → Started → Type 0
  IsNoted state e =
      (last : ℕ) × (last_of e.service e.reason state.cooldowns ≡ some last) × (e.at ≤ last)

  -- an analysis that the table has an entry for, before one that the cooldown lets through
  within_cooldown-le :
      (now : ℕ) (service reason : String) (state : State) (e : Started)
      → within_cooldown settings service reason now state ≡ false
      → IsNoted state e
      → same_key e.service e.reason service reason ≡ true
      → e.at + settings.cooldown ≤ now
  unfolding within_cooldown is_recent same_key
  within_cooldown-le now service reason state e h (last, found, le) same =
      ground (arith, eq_iff e.service service, eq_iff e.reason reason, found)

  within_cooldown-Apart :
      (now : ℕ) (service reason : String) (state : State) (log : List Started)
      → within_cooldown settings service reason now state ≡ false
      → Noted state log
      → Apart (record { service = service; reason = reason; at = now }) log
  within_cooldown-Apart now service reason state [] h n = tt
  within_cooldown-Apart now service reason state (e ∷ log) h n = (
    within_cooldown-le now service reason state e h n.0,
    within_cooldown-Apart now service reason state log h n.1,
  )

  recorded-IsNoted :
      (now : ℕ) (service reason : String) (state : State) (e : Started)
      → within_cooldown settings service reason now state ≡ false
      → IsNoted state e
      → IsNoted (record_dispatch service reason now state) e
  unfolding record_dispatch same_key
  recorded-IsNoted now service reason state e h (last, found, le) =
      elim (Bool-cases (same_key service reason e.service e.reason)) [
        | inl same ↦ (
          now,
          rw (last_of-set_last service reason now state.cooldowns e.service e.reason, same),
          omega (
            arith,
            within_cooldown-le now service reason state e h (last, found, le)
                (same_key_symm service reason e.service e.reason same),
          ),
        )
        | inr other ↦ (
          last,
          rw (last_of-set_last service reason now state.cooldowns e.service e.reason, other) found,
          le,
        )
      ]

  recorded-Noted :
      (now : ℕ) (service reason : String) (state : State) (log : List Started)
      → within_cooldown settings service reason now state ≡ false
      → Noted state log
      → Noted (record_dispatch service reason now state) log
  recorded-Noted now service reason state [] h n = tt
  recorded-Noted now service reason state (e ∷ log) h n = (
    recorded-IsNoted now service reason state e h n.0,
    recorded-Noted now service reason state log h n.1,
  )

  recorded-Now :
      (now : ℕ) (service reason : String) (state : State)
      → IsNoted
          (record_dispatch service reason now state)
          (record { service = service; reason = reason; at = now })
  unfolding record_dispatch same_key
  recorded-Now now service reason state = (
    now,
    rw (
      last_of-set_last service reason now state.cooldowns service reason,
      eq_refl service,
      eq_refl reason,
    ),
    omega arith,
  )

  dispatch-AllApart :
      (now : ℕ) (event : WatcherEvent) (state : State) (log : List Started)
      → Noted state log
      → AllApart log
      → let (verdict, state') = dispatch settings now event state in
        Noted state' (log_verdict event now verdict log)
        × AllApart (log_verdict event now verdict log)
  unfolding log_verdict within_cooldown
  dispatch-AllApart now event state log n a = elim (dispatch-Ending settings now event state) [
    | cool c r ↦ rw r (n, a)
    | limited f r ↦ rw r (n, a)
    | go h room r ↦ rw r (
      (
        recorded-Now now event.service event.reason (expired now state),
        recorded-Noted now event.service event.reason (expired now state) log h n,
      ),
      (within_cooldown-Apart now event.service event.reason (expired now state) log h n, a),
    )
  ]

  run-AllApart_from :
      (events : List (ℕ × WatcherEvent)) (state : State) (log : List Started)
      → Noted state log
      → AllApart log
      → AllApart (run settings events state log).1
  unfolding run
  run-AllApart_from [] state log n a = a
  run-AllApart_from ((now, event) ∷ events) state log n a =
      let (n', a') = dispatch-AllApart now event state log n a in run-AllApart_from events _ _ n' a'

  -- Of all the analyses that the loop starts, any two of the same service for the same reason lie
  -- at least the cooldown apart.
  pub run-AllApart :
      (events : List (ℕ × WatcherEvent)) → AllApart (run settings events initial []).1
  run-AllApart events = run-AllApart_from events initial [] tt tt
