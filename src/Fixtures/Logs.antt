-- ===== src/Fixtures/Logs.antt =====
-- Logs of a service that crashes, with clock times in place of ISO dates and thousandths in place of
-- floats.
use ai_devops_copilot.Base.{
  ℕ, zero, suc, ◌+◌, ◌/◌, String, ◌==◌, none, some, List, [], ◌∷◌, ◌++◌, leb, decimal,
  if◌then◌else◌,
}
use ai_devops_copilot.Fixtures.{thousandths}
use ai_devops_copilot.LogProcessor.{Log, Texts}
use ai_devops_copilot.LogProcessor.Timeline.{Numbers}

abbrev pub texts : Texts
texts = record {
  loads = λ text. none;
  mask = λ text. text;
  parse_ts = λ text.
      if text == "10:00" then some 0 else if text == "10:04" then some 240_000_000 else none;
  to_text = λ log. log.message;
}

abbrev pub numbers : Numbers thousandths
numbers = record {
  plus = λ a b. a + b;
  le = leb;
  round1 = λ a. a;
  round2 = λ a. a;
  round3 = λ a. a;
  round4 = λ a. a;
  percent = λ a. a / 10;
  show = λ a. decimal (a / 1000);
}

abbrev pub line : String → String → String → Log
line level message timestamp = record {
  level = level;
  event = "";
  endpoint = "";
  status = "";
  message = message;
  error = "";
  timestamp = timestamp;
}

abbrev pub copies : ℕ → Log → List Log
copies zero log = []
copies (suc n) log = log ∷ copies n log

abbrev pub crash_logs : List Log
crash_logs =
    copies 2 (line "INFO" "request served" "10:00")
    ++ copies 9 (line "ERROR" "container OOMKilled" "10:04")
