-- ===== src/Watcher/Tests.antt =====
-- The watcher at concrete events.
use ai_devops_copilot.Base.{
  lower, strip, skip_spaces, clip, reverse_text, ℕ, String, ◌≡◌, ◌≤◌, refl, true, Option, none,
  some, List, [], ◌∷◌, take, arith, contains,
}
use ai_devops_copilot.Watcher.{
  warning, dispatched, Settings, WatcherEvent, initial, critical, RawEvent, classify_event,
  classify_severity, classify_involved, or_else, count_or_one, severity_for, dispatch, last_of,
  set_last, within_cooldown, is_recent, record_dispatch, expire, rate_limit_exceeded, same_key,
}
use ai_devops_copilot.Watcher.Names.{resolve_service, strip_pod_suffix, before_segment}
use ai_devops_copilot.Watcher.Dispatch.{run, times, within_minute, run-RateLimited, log_verdict}
use ai_devops_copilot.Watcher.Spacing.{AllApart, run-AllApart}
use ai_devops_copilot.Base.Effects.{Eff}
use ai_devops_copilot.Fixtures.Logs.{texts, crash_logs}
use ai_devops_copilot.LogProcessor.{unwrap, Log, high_signal_levels, with_level, extract_relevant}
use ai_devops_copilot.LogProcessor.Lines.{detect_error_type}
use ai_devops_copilot.Agent.{with_events}
use ai_devops_copilot.Watcher.Evidence.{same_pod, normalize_event, evidence_list}
use ai_devops_copilot.Watcher.Relevant.{evidence_list-extract_relevant}
use ai_devops_copilot.Watcher.Watching.{ended, broken, entered, run_watch_loop}
use ai_devops_copilot.Watcher.Progress.{run-dispatch}
use ai_devops_copilot.Watcher.Overflow.{enqueue_all, enqueue_all-Newest}
use ai_devops_copilot.Causality.{join, any_infix}

abbrev settings : Settings
settings = record {
  namespace = "spyroom";
  cooldown = 300_000_000;
  queue_maxsize = 100;
  rate_limit_per_min = 2;
}

abbrev crashed : String → WatcherEvent
crashed service = record {
  namespace = "spyroom";
  reason = "OOMKilled";
  severity = critical;
  message = "";
  involved_kind = "Deployment";
  involved_name = service;
  service = service;
  count = 1;
  received_at = 0;
  first_seen = none;
  last_seen = none;
}

-- the second one falls to the cooldown, the last one to the limit
abbrev burst : List (ℕ × WatcherEvent)
burst = (1, crashed "room") ∷ (2, crashed "room") ∷ (3, crashed "chat") ∷ (4, crashed "auth") ∷ []

burst_starts : times (run settings burst initial []).1 ≡ 3 ∷ 1 ∷ []
unfolding run dispatch within_cooldown is_recent last_of same_key rate_limit_exceeded expire
    record_dispatch set_last log_verdict times
burst_starts = refl

pod_name : strip_pod_suffix "room-service-6c5685cc89-n6clv" ≡ "room-service"
unfolding strip_pod_suffix reverse_text before_segment
pod_name = refl

run-RateLimited_example : within_minute 4 (times (run settings burst initial []).1) ≤ 2
run-RateLimited_example = run-RateLimited settings 4 burst (omega arith)

run-AllApart_example : AllApart settings (run settings burst initial []).1
run-AllApart_example = run-AllApart settings burst

enqueue_all-Newest_example : enqueue_all {A = ℕ} 2 [] (1 ∷ 2 ∷ 3 ∷ []) ≡ 2 ∷ 3 ∷ []
enqueue_all-Newest_example = enqueue_all-Newest 2 (1 ∷ 2 ∷ 3 ∷ []) (omega arith)

abbrev raw : RawEvent
raw = record {
  reason = some " OOMKilled";
  involved_object = some (some "Pod", some "room-6c56-n6clv");
  message = none;
  count = none;
  first_timestamp = none;
  last_timestamp = none;
}

abbrev seen : WatcherEvent
seen = record (crashed "room") { involved_kind = "Pod"; involved_name = "room-6c56-n6clv" }

classified : classify_event settings 0 raw ≡ some seen
unfolding classify_event classify_severity classify_involved or_else count_or_one severity_for
    resolve_service strip strip_pod_suffix skip_spaces reverse_text before_segment clip contains
classified = refl

-- two minutes after the burst, the service that fell to the limit is analysed
run-dispatch_example :
    (dispatch settings 600_000_000 (crashed "auth") (run settings burst initial []).0).0
    ≡ dispatched
run-dispatch_example =
    run-dispatch settings 4 600_000_000 burst (crashed "auth") (omega arith) (omega arith)
      (omega arith) (omega arith)

-- a container that crashes in a loop, as the kubelet reports it
abbrev backing_off : WatcherEvent
backing_off = record {
  namespace = "spyroom";
  reason = "BackOff";
  severity = warning;
  message = "Back-off restarting failed container";
  involved_kind = "Pod";
  involved_name = "room-6c56-n6clv";
  service = "room";
  count = 3;
  received_at = 0;
  first_seen = none;
  last_seen = none;
}

abbrev restarts : String → String → Eff ℕ (Option ℕ)
restarts namespace pod n = (some n, n)

abbrev now_iso : Eff ℕ String
now_iso n = ("2024-01-01T10:00:00", n)

-- four restarts since the last look
looks_again :
    (normalize_event restarts now_iso backing_off
      (("spyroom", "room-6c56-n6clv", 3) ∷ [])
      7).0.0.restart_count_delta
    ≡ some 4
unfolding normalize_event same_pod
looks_again = refl

-- the word "failed" makes it a failed test
misread :
    detect_error_type texts ((normalize_event restarts now_iso backing_off [] 7).0.0.log ∷ [])
    ≡ "test_failure"
unfolding normalize_event detect_error_type any_infix lower join unwrap
misread = refl

evidence_list-extract_relevant_example :
    let ((events, cache'), s') = evidence_list restarts now_iso true backing_off [] 7 in
    (log : Log) × (events ≡ log ∷ [])
    × (log.message ≡ backing_off.message)
    × (extract_relevant (with_events true events crash_logs)
        ≡ log ∷ take 49 (with_level high_signal_levels crash_logs))
evidence_list-extract_relevant_example =
    evidence_list-extract_relevant restarts now_iso backing_off [] 7 crash_logs

-- two errors, a stream that ends by itself, and another error
pauses :
    (run_watch_loop settings 30_000_000
      (record { objects = []; end = broken "reset" }
        ∷ record { objects = []; end = broken "reset" }
        ∷ record { objects = []; end = ended }
        ∷ record { objects = []; end = broken "reset" }
        ∷ [])
      entered).0
    ≡ 1_000_000 ∷ 2_000_000 ∷ 0 ∷ 1_000_000 ∷ []
unfolding run_watch_loop
pauses = refl
