-- ===== src/Watcher.antt =====
-- agent-backend/app/watchers/k8s_event_watcher.py: from a Kubernetes event to a dispatched analysis.
-- The settings come from the environment; times count microseconds of the monotonic clock.
pub mod Names
pub mod Turn
pub mod Dispatch
pub mod Spacing
pub mod Progress
pub mod Overflow
pub mod Accepted
pub mod Evidence
pub mod Watching
pub mod Relevant
mod Tests
use ai_devops_copilot.Base.{
  strip, clip, ℕ, ◌+◌, String, ◌==◌, Bool, true, false, ◌&&◌, Option, none, some, List, [], ◌∷◌,
  ◌++◌, contains, ltb, leb, length, if◌then◌else◌,
}
use ai_devops_copilot.Watcher.Names.{resolve_service}

abbrev pub critical_reasons : List String
critical_reasons =
    "OOMKilled" ∷ "CrashLoopBackOff" ∷ "ImagePullBackOff" ∷ "ErrImagePull" ∷ "FailedScheduling"
    ∷ "NodeNotReady" ∷ "Evicted" ∷ "MemoryPressure" ∷ "DiskPressure" ∷ "PIDPressure"
    ∷ "NetworkUnavailable" ∷ []

abbrev pub warning_reasons : List String
warning_reasons = "Unhealthy" ∷ "BackOff" ∷ "Failed" ∷ "FailedMount" ∷ "Killing" ∷ []

abbrev pub ignore_reasons : List String
ignore_reasons =
    "Pulled" ∷ "Created" ∷ "Started" ∷ "Scheduled" ∷ "SuccessfulCreate" ∷ "SuccessfulRescale"
    ∷ "SuccessfulDelete" ∷ "Synced" ∷ "Pulling" ∷ []

pub data Severity : Type 0 where
  critical warning ignore : Severity

unfoldable pub severity_for : String → Severity
severity_for reason =
    if contains critical_reasons reason
    then critical
    else if contains warning_reasons reason
    then warning
    else ignore

-- the module's constants that are read from the environment
pub record Settings : Type 0 where
  pub namespace : String
  pub cooldown : ℕ
  pub queue_maxsize : ℕ
  pub rate_limit_per_min : ℕ

pub record WatcherEvent : Type 0 where
  pub namespace : String
  pub reason : String
  pub severity : Severity
  pub message : String
  pub involved_kind : String
  pub involved_name : String
  pub service : String
  pub count : ℕ
  pub received_at : ℕ
  pub first_seen : Option String
  pub last_seen : Option String

-- the object that the stream yields; an attribute that is missing or None is `none`
pub record RawEvent : Type 0 where
  pub reason : Option String
  pub involved_object : Option (Option String × Option String)
  pub message : Option String
  pub count : Option ℕ
  pub first_timestamp : Option String
  pub last_timestamp : Option String

-- `x or default`
unfoldable pub or_else {ℓ} : {A : Type ℓ} → Option A → A → A
or_else none a = a
or_else (some x) a = x

-- `int(count or 1)`
unfoldable pub count_or_one : Option ℕ → ℕ
count_or_one none = 1
count_or_one (some n) = if leb n 0 then 1 else n

unfoldable pub classify_involved :
    Settings
    → ℕ
    → RawEvent
    → String
    → Severity
    → Option (Option String × Option String)
    → Option WatcherEvent
unfolding or_else count_or_one
classify_involved settings now event reason severity none = none
classify_involved settings now event reason severity (some (kind, name)) =
    elim (resolve_service (or_else kind "") (or_else name "")) [
      | none ↦ none
      | some service ↦
          if service == ""
          then none
          else some (record {
            namespace = settings.namespace;
            reason = reason;
            severity = severity;
            message = clip 500 (or_else event.message "");
            involved_kind = or_else kind "";
            involved_name = or_else name "";
            service = service;
            count = count_or_one event.count;
            received_at = now;
            first_seen = event.first_timestamp;
            last_seen = event.last_timestamp;
          })
    ]

unfoldable pub classify_severity : Settings → ℕ → RawEvent → String → Severity → Option WatcherEvent
unfolding classify_involved
classify_severity settings now event reason ignore = none
classify_severity settings now event reason severity =
    classify_involved settings now event reason severity event.involved_object

unfoldable pub classify_event : Settings → ℕ → RawEvent → Option WatcherEvent
unfolding classify_severity or_else
classify_event settings now event =
    let reason = strip (or_else event.reason "") in
    if reason == ""
    then none
    else if contains ignore_reasons reason
    then none
    else classify_severity settings now event reason (severity_for reason)

-- `_State.cooldowns`, by service and reason
abbrev pub Cooldowns : Type 0
Cooldowns = List (String × String × ℕ)

pub record State : Type 0 where
  pub cooldowns : Cooldowns
  pub rate_window : List ℕ

abbrev pub initial : State
initial = record { cooldowns = []; rate_window = [] }

unfoldable pub same_key : String → String → String → String → Bool
same_key s r service reason = (s == service) && (r == reason)

unfoldable pub last_of : String → String → Cooldowns → Option ℕ
last_of service reason [] = none
last_of service reason ((s, r, at) ∷ rest) =
    if same_key s r service reason then some at else last_of service reason rest

unfoldable pub set_last : String → String → ℕ → Cooldowns → Cooldowns
set_last service reason now [] = (service, reason, now) ∷ []
set_last service reason now ((s, r, at) ∷ rest) =
    if same_key s r service reason
    then (s, r, now) ∷ rest
    else (s, r, at) ∷ set_last service reason now rest

-- `(now - last) < COOLDOWN_SECONDS`
unfoldable pub is_recent : ℕ → ℕ → Option ℕ → Bool
is_recent cooldown now none = false
is_recent cooldown now (some last) = ltb now (last + cooldown)

unfoldable pub within_cooldown : Settings → String → String → ℕ → State → Bool
unfolding is_recent
within_cooldown settings service reason now state =
    is_recent settings.cooldown now (last_of service reason state.cooldowns)

unfoldable pub record_dispatch : String → String → ℕ → State → State
record_dispatch service reason now state = record {
  cooldowns = set_last service reason now state.cooldowns;
  rate_window = state.rate_window ++ now ∷ [];
}

abbrev pub minute : ℕ
minute = 60_000_000

-- `while rate_window and rate_window[0] < now - 60.0: popleft()`
unfoldable pub expire : ℕ → List ℕ → List ℕ
expire now [] = []
expire now (t ∷ window) =
    let rest = expire now window in if ltb (t + minute) now then rest else t ∷ window

unfoldable pub rate_limit_exceeded : Settings → ℕ → State → Bool × State
rate_limit_exceeded settings now state =
    let window = expire now state.rate_window in
    (leb settings.rate_limit_per_min (length window), record state { rate_window = window })

-- how one turn of `_dispatch_loop` ends
pub data Verdict : Type 0 where
  cooled rate_limited dispatched : Verdict

after_rate : WatcherEvent → ℕ → Bool → State → Verdict × State
after_rate event now true state = (rate_limited, state)
after_rate event now false state =
    (dispatched, record_dispatch event.service event.reason now state)

unfoldable pub dispatch : Settings → ℕ → WatcherEvent → State → Verdict × State
unfolding after_rate
dispatch settings now event state =
    if within_cooldown settings event.service event.reason now state
    then (cooled, state)
    else let (exceeded, state') = rate_limit_exceeded settings now state in
      after_rate event now exceeded state'

-- `asyncio.Queue.full()`; a queue with no positive size is never full
unfoldable pub is_full {ℓ} : {A : Type ℓ} → ℕ → List A → Bool
is_full maxsize queue = ltb 0 maxsize && leb maxsize (length queue)

unfoldable pub put_nowait {ℓ} : {A : Type ℓ} → ℕ → A → List A → Option (List A)
put_nowait maxsize event queue = if is_full maxsize queue then none else some (queue ++ event ∷ [])

-- `get_nowait()`, with QueueEmpty passed over
unfoldable pub without_oldest {ℓ} : {A : Type ℓ} → List A → List A
without_oldest [] = []
without_oldest (oldest ∷ queue) = queue

unfoldable pub enqueue_or_drop {ℓ} : {A : Type ℓ} → ℕ → List A → A → List A
unfolding put_nowait is_full without_oldest
enqueue_or_drop maxsize queue event =
    let retried =
      or_else (put_nowait maxsize event (without_oldest queue)) (without_oldest queue) in
    or_else (put_nowait maxsize event queue) retried
