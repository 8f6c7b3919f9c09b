-- ===== src/Watcher/Relevant.antt =====
-- An event of the cluster that is passed on as evidence is always among the lines that are analysed.
use ai_devops_copilot.Base.{
  ℕ, String, ◌==◌, ◌≡◌, refl, ap, ◌∙◌, true, not, ◌&&◌, Option, none, some, List, [], ◌∷◌, take,
  lower, to_lower, Bool-cases, inl, inr,
}
use ai_devops_copilot.Base.Effects.{Eff}
use ai_devops_copilot.Evaluator.{same_codes}
use ai_devops_copilot.LogProcessor.{
  Log, level_in, high_signal_levels, with_level, or_all, extract_relevant,
}
use ai_devops_copilot.Agent.{with_events}
use ai_devops_copilot.Watcher.{Severity, critical, warning, ignore, WatcherEvent}
use ai_devops_copilot.Watcher.Evidence.{
  PodCache, Evidence, level_of, log_of, pod_of, with_status, with_pod, normalize_event,
  evidence_list,
}

level_of-high :
    (severity : Severity) (log : Log)
    → log.level ≡ level_of severity
    → level_in high_signal_levels log ≡ true
unfolding level_in same_codes lower to_lower level_of
level_of-high critical log e = rw e refl
level_of-high warning log e = rw e refl
level_of-high ignore log e = rw e refl

-- a line of a high level that comes first stays first
extract_relevant-first :
    (log : Log) (logs : List Log)
    → level_in high_signal_levels log ≡ true
    → extract_relevant (with_events true (log ∷ []) logs)
      ≡ log ∷ take 49 (with_level high_signal_levels logs)
unfolding extract_relevant with_events with_level or_all
extract_relevant-first log logs h = rw h refl

log_of-message : (now : String) (event : WatcherEvent) → (log_of now event).message ≡ event.message
unfolding log_of
log_of-message now event = refl

log_of-level :
    (now : String) (event : WatcherEvent) → (log_of now event).level ≡ level_of event.severity
unfolding log_of
log_of-level now event = refl

with_status-log :
    (evidence : Evidence) (namespace pod : String) (cache : PodCache) (status : Option ℕ)
    → (with_status evidence namespace pod cache status).0.log ≡ evidence.log
unfolding with_status
with_status-log evidence namespace pod cache none = refl
with_status-log evidence namespace pod cache (some restarts) = refl

module _ {S : Type 0} (read_pod_status : String → String → Eff S (Option ℕ))
    (now_iso : Eff S String) where
  with_pod-log :
      (evidence : Evidence) (namespace : String) (pod : Option String) (cache : PodCache) (s : S)
      → (with_pod read_pod_status now_iso evidence namespace pod cache s).0.0.log ≡ evidence.log
  unfolding with_pod
  with_pod-log evidence namespace none cache s = refl
  with_pod-log evidence namespace (some pod) cache s =
      let status = (read_pod_status namespace pod s).0 in
      elim (Bool-cases (not (pod == "") && not (namespace == ""))) [
        | inl e ↦ rw e (with_status-log evidence namespace pod cache status)
        | inr e ↦ rw e refl
      ]

  -- The evidence of an event is one line with the event's message, and whatever else is logged, it is the
  -- first of the lines that the error type, the severity and the key events are read from.
  pub evidence_list-extract_relevant :
      (event : WatcherEvent) (cache : PodCache) (s : S) (logs : List Log)
      → let ((events, cache'), s') = evidence_list read_pod_status now_iso true event cache s in
        (log : Log) × (events ≡ log ∷ [])
        × (log.message ≡ event.message)
        × (extract_relevant (with_events true events logs)
            ≡ log ∷ take 49 (with_level high_signal_levels logs))
  unfolding evidence_list normalize_event
  evidence_list-extract_relevant event cache s logs =
      let (now, s1) = now_iso s in
      let evidence : Evidence = record {
        log = log_of now event;
        pod_name = pod_of event;
        restart_count = none;
        restart_count_delta = none;
      } in
      let kept = with_pod-log evidence event.namespace (pod_of event) cache s1 in
      let log =
        (with_pod read_pod_status now_iso evidence event.namespace (pod_of event) cache
          s1).0.0.log in
      (
        log,
        refl,
        ap (λ l. l.message) kept ∙ log_of-message now event,
        extract_relevant-first log logs
            (level_of-high event.severity log (ap (λ l. l.level) kept ∙ log_of-level now event)),
      )
