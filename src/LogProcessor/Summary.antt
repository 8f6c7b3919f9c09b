-- ===== src/LogProcessor/Summary.antt =====
-- agent-backend/app/log_processor/summarizer.py: `summarize`. Lines that read alike and fall into the
-- same stretch of time are one group. Python gives the endpoints of the set in no certain order; here
-- they come in that of their last line.
use Prim.Native.String.{◌++◌}
use ai_devops_copilot.Base.{
  ℕ, suc, ◌-◌, ◌/◌, String, ◌==◌, Bool, true, false, not, ◌&&◌, ◌||◌, Option, none, some, List, [],
  ◌∷◌, map, codes, lower, is_infix, set_add, take, length, eqb, ltb, leb, decimal, if◌then◌else◌,
}
use ai_devops_copilot.World.{Floats}
use ai_devops_copilot.LogProcessor.{
  Log, Texts, parse_inner, level_in, error_levels, high_signal_levels, with_level, or_all,
}
use ai_devops_copilot.LogProcessor.Timeline.{
  Numbers, TimelineBucket, Timed, span_of, seconds_of, build_timeline, detect_change_point,
}

pub record LogSummary (R : Type 0) : Type 0 where
  pub total_events : ℕ
  pub error_count : ℕ
  pub warning_count : ℕ
  pub unique_endpoints : List String
  pub error_ratio : R
  pub deduplicated_events : List String
  pub time_span_minutes : R
  pub has_only_noise : Bool
  pub error_timeline : List (TimelineBucket R)
  pub change_point_minutes_ago : Option R
  pub change_point_description : Option String

-- `_to_readable`, with the masking of ids and addresses
unfoldable pub to_readable : Texts → Log → String
to_readable texts log =
    if not (log.event == "") && not (log.endpoint == "") && not (log.status == "")
    then texts.mask (log.event ++ " " ++ log.endpoint ++ " → " ++ log.status)
    else if not (log.event == "") && not (log.endpoint == "")
    then texts.mask (log.event ++ " " ++ log.endpoint)
    else if not (log.message == "")
    then texts.mask log.message
    else texts.mask (texts.to_text log)

unfoldable pub unique_endpoints : List Log → List String
unique_endpoints [] = []
unique_endpoints (log ∷ logs) =
    let rest = unique_endpoints logs in
    if log.endpoint == "" then rest else set_add log.endpoint rest

-- the lines that are more than a health check
unfoldable pub non_noise : List Log → List Log
non_noise [] = []
non_noise (log ∷ logs) =
    let rest = non_noise logs in
    if not (log.event == "health_check") || level_in high_signal_levels log
    then log ∷ rest
    else rest

unfoldable pub is_empty : List Log → Bool
is_empty [] = true
is_empty (log ∷ logs) = false

-- a group: its readable line, its stretch of time, and how many lines it has
abbrev pub Group : Type 0
Group = String × ℕ × ℕ

-- whether a group's key is this one
unfoldable pub is_alike : String → ℕ → String → ℕ → Bool
is_alike line bucket other stretch = (other == line) && eqb stretch bucket

unfoldable pub add_line : String → ℕ → List Group → List Group
add_line line bucket [] = (line, bucket, 1) ∷ []
add_line line bucket ((other, stretch, n) ∷ groups) =
    let rest = add_line line bucket groups in
    if is_alike line bucket other stretch
    then (other, stretch, suc n) ∷ groups
    else (other, stretch, n) ∷ rest

-- the stretch of time that a log falls into; 0 for a log without a time
unfoldable pub stretch_of : ℕ → Option ℕ → ℕ
stretch_of bucket_seconds none = 0
stretch_of bucket_seconds (some t) = t / 1_000_000 / bucket_seconds

unfoldable pub group_from : Texts → ℕ → List Group → List Log → List Group
unfolding add_line stretch_of to_readable
group_from texts bucket_seconds groups [] = groups
group_from texts bucket_seconds groups (log ∷ logs) =
    group_from texts bucket_seconds
      (add_line (to_readable texts log) (stretch_of bucket_seconds (texts.parse_ts log.timestamp))
        groups)
      logs

unfoldable pub line_of : Group → String
line_of (line, stretch, n) = if ltb 1 n then line ++ " — " ++ decimal n ++ "×" else line

-- `priority`
unfoldable pub priority : String → ℕ
priority line =
    let text = lower line in
    if is_infix (codes "error") text
      || is_infix (codes "critical") text
      || is_infix (codes "500") text
    then 0
    else if is_infix (codes "warning") text || is_infix (codes "warn") text
    then 1
    else 2

-- `deduped.sort(key=priority)`, which keeps the order of equals
unfoldable pub place : String → List String → List String
place line [] = line ∷ []
place line (other ∷ lines) =
    if leb (priority line) (priority other) then line ∷ other ∷ lines else other ∷ place line lines

unfoldable pub by_priority : List String → List String
unfolding place
by_priority [] = []
by_priority (line ∷ lines) = place line (by_priority lines)

abbrev pub max_lines : ℕ
max_lines = 20

unfoldable pub timed_of : Texts → List Log → Timed
timed_of texts [] = []
timed_of texts (log ∷ logs) =
    let rest = timed_of texts logs in
    elim (texts.parse_ts log.timestamp) [ none ↦ rest | some t ↦ (t, log) ∷ rest ]

module _ (texts : Texts) (fl : Floats) (numbers : Numbers fl) where
  open fl use {Real, lit, lt, over}
  open numbers use {le, round2, round4}

  unfoldable pub adaptive_bucket_seconds : Real → ℕ
  adaptive_bucket_seconds minutes =
      if le minutes (lit 2 1)
      then 10
      else if le minutes (lit 10 1)
      then 30
      else if le minutes (lit 30 1)
      then 60
      else 300

  unfoldable pub minutes_of : Option (ℕ × ℕ) → Real
  minutes_of none = lit 0 1
  minutes_of (some (first, last)) = over (seconds_of fl numbers (last - first)) (lit 60 1)

  unfoldable pub timeline_of : Timed → Option (ℕ × ℕ) → List (TimelineBucket Real)
  timeline_of timed none = []
  timeline_of timed (some (first, last)) =
      if lt (lit 0 1) (over (seconds_of fl numbers (last - first)) (lit 60 1))
      then build_timeline fl numbers timed first last
      else []

  unfoldable pub change_of : Option (ℕ × ℕ) → List (TimelineBucket Real) → Option (Real × String)
  change_of none timeline = none
  change_of (some (first, last)) timeline = detect_change_point fl numbers (last - first) timeline

  -- the lines of the groups, the severe ones first
  unfoldable pub deduplicated : ℕ → List Log → List String
  unfolding group_from line_of by_priority
  deduplicated bucket_seconds logs =
      take max_lines (by_priority (map line_of (group_from texts bucket_seconds [] logs)))

  unfoldable pub summarize_parsed : List Log → LogSummary Real
  unfolding adaptive_bucket_seconds minutes_of timeline_of change_of deduplicated
  summarize_parsed parsed =
      let timed = timed_of texts parsed in
      let minutes = minutes_of (span_of timed) in
      let errors = length (with_level error_levels parsed) in
      let timeline = timeline_of timed (span_of timed) in
      let change = change_of (span_of timed) timeline in
      record {
        total_events = length parsed;
        error_count = errors;
        warning_count = length (with_level ("warning" ∷ []) parsed);
        unique_endpoints = unique_endpoints parsed;
        error_ratio = round4 (over (lit errors 1) (lit (length parsed) 1));
        deduplicated_events =
            deduplicated (adaptive_bucket_seconds minutes) (or_all (non_noise parsed) parsed);
        time_span_minutes = round2 minutes;
        has_only_noise = is_empty (non_noise parsed);
        error_timeline = timeline;
        change_point_minutes_ago = elim change [ none ↦ none | some c ↦ some c.0 ];
        change_point_description = elim change [ none ↦ none | some c ↦ some c.1 ];
      }

  unfoldable pub summarize : List Log → LogSummary Real
  unfolding summarize_parsed
  summarize [] = record {
    total_events = 0;
    error_count = 0;
    warning_count = 0;
    unique_endpoints = [];
    error_ratio = lit 0 1;
    deduplicated_events = [];
    time_span_minutes = lit 0 1;
    has_only_noise = true;
    error_timeline = [];
    change_point_minutes_ago = none;
    change_point_description = none;
  }
  summarize (log ∷ logs) = summarize_parsed (map (parse_inner texts) (log ∷ logs))
