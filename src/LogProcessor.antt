-- ===== src/LogProcessor.antt =====
-- agent-backend/app/log_processor: which log lines matter, what kind of error they show, how severe it
-- is, and a summary of them. The JSON of a line, its masking by regular expressions, ISO dates and
-- `str` of a dict are parameters. A log is a dict of which these keys are read; a missing key is the
-- empty text. Texts are compared without case, as the code does by `upper` and `lower`.
pub mod Lines
pub mod Timeline
pub mod Summary
pub mod Ranked
pub mod Counted
mod Tests
use text.Mathlib.Text.{starts_with}
use Prim.Native.String.{◌++◌}
use ai_devops_copilot.Base.{
  ℕ, String, ◌==◌, Bool, true, false, not, ◌&&◌, ◌||◌, Option, none, some, List, [], ◌∷◌, codes,
  lower, is_infix, take, if◌then◌else◌,
}
use ai_devops_copilot.Evaluator.{same_codes}

pub record Log : Type 0 where
  pub level : String
  pub event : String
  pub endpoint : String
  pub status : String
  pub message : String
  pub error : String
  pub timestamp : String

-- `loads` of a text that begins with a brace is the overlay of its keys on a log, or `none` where it
-- raises; `parse_ts` is `_parse_ts`, in microseconds since the epoch
pub record Texts : Type 0 where
  pub loads : String → Option (Log → Log)
  pub mask : String → String
  pub parse_ts : String → Option ℕ
  pub to_text : Log → String

unfoldable pub overlay : Log → Option (Log → Log) → Log
overlay log none = log
overlay log (some merge) = merge log

-- `_unwrap` of parser.py
unfoldable pub unwrap : Texts → Log → Log
unfolding overlay
unwrap texts log =
    if starts_with "{" log.message then overlay log (texts.loads log.message) else log

unfoldable pub without_message : Log → Option (Log → Log) → Log
without_message log none = log
without_message log (some merge) = record (merge log) { message = "" }

-- `_parse_inner` of summarizer.py
unfoldable pub parse_inner : Texts → Log → Log
unfolding without_message
parse_inner texts log =
    if starts_with "{" log.message then without_message log (texts.loads log.message) else log

-- `level.upper() in names`, for names in lower case
unfoldable pub level_in : List String → Log → Bool
level_in [] log = false
level_in (name ∷ names) log = same_codes (codes name) (lower log.level) || level_in names log

abbrev pub error_levels : List String
error_levels = "error" ∷ "critical" ∷ []

abbrev pub high_signal_levels : List String
high_signal_levels = "error" ∷ "critical" ∷ "warning" ∷ []

abbrev pub max_logs : ℕ
max_logs = 50

unfoldable pub with_level : List String → List Log → List Log
unfolding level_in
with_level names [] = []
with_level names (log ∷ logs) =
    let rest = with_level names logs in if level_in names log then log ∷ rest else rest

unfoldable pub or_all : List Log → List Log → List Log
or_all [] logs = logs
or_all (log ∷ kept) logs = log ∷ kept

-- `extract_relevant`
unfoldable pub extract_relevant : List Log → List Log
unfolding with_level or_all
extract_relevant logs = take max_logs (or_all (with_level high_signal_levels logs) logs)
