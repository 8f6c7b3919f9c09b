-- ===== src/Watcher/Accepted.antt =====
-- What `classify_event` lets into the queue.
use ai_devops_copilot.Base.{strip, ℕ, String, ◌==◌, ◌≡◌, refl, false, Option, none, some, arith}
use ai_devops_copilot.Watcher.{
  Severity, critical, warning, ignore, severity_for, Settings, WatcherEvent, RawEvent,
  classify_event, classify_involved, classify_severity, or_else,
}
use ai_devops_copilot.Watcher.Names.{resolve_service}

pub record IsAccepted (event : WatcherEvent) : Type 0 where
  pub severe : severity_for event.reason ≡ event.severity
  pub listed : event.severity ≡ ignore → ⊥
  pub resolved : resolve_service event.involved_kind event.involved_name ≡ some event.service
  pub named : (event.service == "") ≡ false

module _ (settings : Settings) (now : ℕ) (raw : RawEvent) (reason : String)
    (event : WatcherEvent) where
  involved-IsAccepted :
      (severity : Severity) (involved : Option (Option String × Option String))
      → severity_for reason ≡ severity
      → (severity ≡ ignore → ⊥)
      → classify_involved settings now raw reason severity involved ≡ some event
      → IsAccepted event
  unfolding classify_involved
  involved-IsAccepted severity none e n h = ground arith
  involved-IsAccepted severity (some (kind, name)) e n h = ground arith

  severity-IsAccepted :
      (severity : Severity)
      → severity_for reason ≡ severity
      → classify_severity settings now raw reason severity ≡ some event
      → IsAccepted event
  unfolding classify_severity
  severity-IsAccepted ignore e h = ground arith
  severity-IsAccepted critical e h =
      involved-IsAccepted critical raw.involved_object e (λ x. ground (arith, x)) h
  severity-IsAccepted warning e h =
      involved-IsAccepted warning raw.involved_object e (λ x. ground (arith, x)) h

-- An event that is let in has a reason of one of the two lists, with the severity of that list, and
-- a service that its object resolves to, which is not the empty name.
classify_event-IsAccepted :
    (settings : Settings) (now : ℕ) (raw : RawEvent) (event : WatcherEvent)
    → classify_event settings now raw ≡ some event
    → IsAccepted event
unfolding classify_event
classify_event-IsAccepted settings now raw event h =
    let reason = strip (or_else raw.reason "") in
    severity-IsAccepted settings now raw reason event (severity_for reason) refl (ground arith)
