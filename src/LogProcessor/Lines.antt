-- ===== src/LogProcessor/Lines.antt =====
-- agent-backend/app/log_processor/parser.py and classifier.py: error type, key events, severity.
use Prim.Native.String.{◌++◌ as ◌<>◌}
use ai_devops_copilot.Base.{
  ℕ, String, ◌==◌, not, ◌&&◌, ◌||◌, List, [], ◌∷◌, Dict, lower, map, contains, clip, ◌++◌, length,
  leb, if◌then◌else◌,
}
use ai_devops_copilot.Causality.{any_infix, join}
use ai_devops_copilot.LogProcessor.{Log, Texts, unwrap}

-- `_PATTERNS`, in lower case
abbrev pub patterns : Dict (List String)
patterns =
    (
      "dependency_error",
      "connection refused" ∷ "timeout" ∷ "econnrefused" ∷ "no such host" ∷ "dns" ∷ [],
    )
    ∷ (
      "build_failure",
      "build fail" ∷ "compilation error" ∷ "syntax error" ∷ "import error" ∷ "modulenotfound" ∷ [],
    )
    ∷ ("test_failure", "asserterror" ∷ "assertionerror" ∷ "test fail" ∷ "failed" ∷ "pytest" ∷ [])
    ∷ ("runtime_crash", "traceback" ∷ "exception" ∷ "panic" ∷ "segfault" ∷ "oom" ∷ "killed" ∷ [])
    ∷ []

abbrev pub critical_keywords : List String
critical_keywords = "panic" ∷ "oom" ∷ "killed" ∷ "segfault" ∷ "data loss" ∷ "corruption" ∷ []

abbrev pub high_keywords : List String
high_keywords = "exception" ∷ "traceback" ∷ "build fail" ∷ "test fail" ∷ "connection refused" ∷ []

abbrev pub medium_keywords : List String
medium_keywords = "warning" ∷ "timeout" ∷ "retry" ∷ "deprecated" ∷ []

unfoldable pub first_pattern : Dict (List String) → List ℕ → String
first_pattern [] text = "unknown"
first_pattern ((name, words) ∷ rest) text =
    if any_infix words text then name else first_pattern rest text

unfoldable pub line_of : Log → String
line_of log = log.message <> " " <> log.event <> " " <> log.error

unfoldable pub detect_error_type : Texts → List Log → String
unfolding line_of first_pattern
detect_error_type texts logs =
    first_pattern patterns (lower (join (map (λ log. line_of (unwrap texts log)) logs)))

-- `classify_severity`
unfoldable pub classify_severity : List Log → String → String
classify_severity logs error_type =
    let combined = lower (join (map (λ log. log.message) logs)) in
    if any_infix critical_keywords combined
    then "critical"
    else if contains ("runtime_crash" ∷ "build_failure" ∷ []) error_type
        || any_infix high_keywords combined
    then "high"
    else if any_infix medium_keywords combined
    then "medium"
    else "low"

-- `_readable`
unfoldable pub readable : Texts → Log → String
readable texts log =
    if not (log.event == "") && not (log.endpoint == "") && not (log.status == "")
    then log.event <> " " <> log.endpoint <> " → " <> log.status
    else if not (log.event == "") && not (log.endpoint == "")
    then log.event <> " " <> log.endpoint
    else if not (log.message == "")
    then clip 120 log.message
    else clip 120 (texts.to_text log)

abbrev pub max_events : ℕ
max_events = 10

unfoldable pub add_event : String → List String → List String
add_event entry events =
    if not (entry == "") && not (contains events entry) then events ++ entry ∷ [] else events

unfoldable pub key_events_from : Texts → List String → List Log → List String
unfolding add_event readable
key_events_from texts events [] = events
key_events_from texts events (log ∷ logs) =
    let events' = add_event (readable texts (unwrap texts log)) events in
    let rest = key_events_from texts events' logs in
    if leb max_events (length events') then events' else rest

unfoldable pub extract_key_events : Texts → List Log → List String
unfolding key_events_from
extract_key_events texts logs = key_events_from texts [] logs
