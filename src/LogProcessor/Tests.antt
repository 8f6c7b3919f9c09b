-- ===== src/LogProcessor/Tests.antt =====
-- Two requests that were served, and nine errors four minutes later.
use ai_devops_copilot.Base.{is_infix, contains, clip, decimal, lower, ◌≡◌, refl, ◌≤◌, some, [], ◌∷◌}
use ai_devops_copilot.Fixtures.{thousandths}
use ai_devops_copilot.Fixtures.Logs.{texts, numbers, crash_logs}
use ai_devops_copilot.LogProcessor.Lines.{detect_error_type, classify_severity, extract_key_events}
use ai_devops_copilot.LogProcessor.Summary.{
  priority, is_alike, timed_of, group_from, deduplicated, summarize,
}
use ai_devops_copilot.LogProcessor.Counted.{counted, groups_alike, logs_alike, group_from-Counted}
use ai_devops_copilot.LogProcessor.Timeline.{
  build_timeline, seconds_of, detect_change_point, span_of,
}
use ai_devops_copilot.LogProcessor.{unwrap, level_in, parse_inner}
use ai_devops_copilot.Evaluator.{same_codes}
use ai_devops_copilot.Causality.{join, any_infix}

jumps :
    (summarize texts thousandths numbers crash_logs).change_point_description
    ≡ some "error rate jumped from 0% to 100% at t-0m"
unfolding summarize span_of timed_of parse_inner detect_change_point seconds_of build_timeline
    level_in same_codes lower decimal
jumps = refl

crashes : detect_error_type texts crash_logs ≡ "runtime_crash"
unfolding detect_error_type any_infix lower join unwrap
crashes = refl

is_severe : classify_severity crash_logs "runtime_crash" ≡ "critical"
unfolding classify_severity any_infix lower join
is_severe = refl

events : extract_key_events texts crash_logs ≡ "request served" ∷ "container OOMKilled" ∷ []
unfolding extract_key_events unwrap clip contains
events = refl

lines :
    deduplicated texts thousandths numbers 30 crash_logs
    ≡ "request served — 2×" ∷ "container OOMKilled — 9×" ∷ []
unfolding deduplicated is_alike priority is_infix lower decimal
lines = refl

group_from-Counted_example :
    let groups = group_from texts 30 [] crash_logs in
    (counted "container OOMKilled" 8 groups
      ≡ logs_alike texts 30 "container OOMKilled" 8 crash_logs)
    × (groups_alike "container OOMKilled" 8 groups ≤ 1)
group_from-Counted_example = group_from-Counted texts 30 crash_logs "container OOMKilled" 8
