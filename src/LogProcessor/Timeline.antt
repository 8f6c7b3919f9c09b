-- ===== src/LogProcessor/Timeline.antt =====
-- agent-backend/app/log_processor/summarizer.py: the rate of errors over four buckets of the window,
-- and the bucket at which it jumps. What Python does with floats beyond World is a parameter.
use Prim.Native.String.{◌++◌}
use ai_devops_copilot.Base.{
  ℕ, suc, ◌+◌, ◌-◌, ◌*◌, max, min, String, Bool, ◌&&◌, Option, none, some, List, [], ◌∷◌, length,
  eqb, decimal, if◌then◌else◌,
}
use ai_devops_copilot.World.{Floats}
use ai_devops_copilot.LogProcessor.{Log, level_in, error_levels}

-- `percent r` is `int(r * 100)`, and `show` is `str`
pub record Numbers (fl : Floats) : Type 0 where
  pub plus : fl.Real → fl.Real → fl.Real
  pub le : fl.Real → fl.Real → Bool
  pub round1 : fl.Real → fl.Real
  pub round2 : fl.Real → fl.Real
  pub round3 : fl.Real → fl.Real
  pub round4 : fl.Real → fl.Real
  pub percent : fl.Real → ℕ
  pub show : fl.Real → String

pub record TimelineBucket (R : Type 0) : Type 0 where
  pub bucket : String
  pub error_count : ℕ
  pub total_count : ℕ
  pub error_rate : R

abbrev pub timeline_buckets : ℕ
timeline_buckets = 4

-- the logs that have a time, in microseconds
abbrev pub Timed : Type 0
Timed = List (ℕ × Log)

unfoldable pub earliest : ℕ → Timed → ℕ
earliest t [] = t
earliest t ((u, log) ∷ timed) = earliest (min t u) timed

unfoldable pub latest : ℕ → Timed → ℕ
latest t [] = t
latest t ((u, log) ∷ timed) = latest (max t u) timed

-- the first and the last time, where at least two logs have one
unfoldable pub span_of : Timed → Option (ℕ × ℕ)
unfolding earliest latest
span_of [] = none
span_of (x ∷ []) = none
span_of ((t, log) ∷ y ∷ timed) = some (earliest t (y ∷ timed), latest t (y ∷ timed))

unfoldable pub count_errors : Timed → ℕ
count_errors [] = 0
count_errors ((t, log) ∷ timed) =
    let rest = count_errors timed in if level_in error_levels log then suc rest else rest

module _ (fl : Floats) (numbers : Numbers fl) where
  open fl use {Real, lit, lt, ge, minus, times, over}
  open numbers use {plus, le, round1, round3, percent, show}

  unfoldable pub seconds_of : ℕ → Real
  seconds_of t = lit t 1_000_000

  unfoldable pub in_bucket : Bool → Real → Real → ℕ → Bool
  unfolding seconds_of
  in_bucket last start end t =
      if last
      then ge (seconds_of t) start && le (seconds_of t) end
      else ge (seconds_of t) start && lt (seconds_of t) end

  unfoldable pub bucket_logs : Bool → Real → Real → Timed → Timed
  unfolding in_bucket
  bucket_logs last start end [] = []
  bucket_logs last start end ((t, log) ∷ timed) =
      let rest = bucket_logs last start end timed in
      if in_bucket last start end t then (t, log) ∷ rest else rest

  unfoldable pub rate_of : ℕ → ℕ → Real
  rate_of errors total = if eqb total 0 then lit 0 1 else round3 (over (lit errors 1) (lit total 1))

  unfoldable pub label_of : Real → String
  label_of minutes_from_end =
      if lt (lit 0 1) minutes_from_end then "t-" ++ show minutes_from_end ++ "m" else "t-0m"

  -- bucket number `i` of the window from `first` to `last`
  unfoldable pub bucket_at : Timed → ℕ → ℕ → Real → ℕ → TimelineBucket Real
  unfolding bucket_logs rate_of label_of count_errors
  bucket_at timed first last bucket_seconds i =
      let start = plus (seconds_of first) (times (lit i 1) bucket_seconds) in
      let end = plus start bucket_seconds in
      let logs = bucket_logs (eqb i (timeline_buckets - 1)) start end timed in
      record {
        bucket = label_of (round1 (over (minus (seconds_of last) end) (lit 60 1)));
        error_count = count_errors logs;
        total_count = length logs;
        error_rate = rate_of (count_errors logs) (length logs);
      }

  unfoldable pub buckets_from : Timed → ℕ → ℕ → Real → List ℕ → List (TimelineBucket Real)
  unfolding bucket_at
  buckets_from timed first last bucket_seconds [] = []
  buckets_from timed first last bucket_seconds (i ∷ is) =
      bucket_at timed first last bucket_seconds i ∷ buckets_from timed first last bucket_seconds is

  -- `_build_timeline`, for a window from `first` to `last`
  unfoldable pub build_timeline : Timed → ℕ → ℕ → List (TimelineBucket Real)
  unfolding buckets_from
  build_timeline timed first last =
      let total_seconds = seconds_of (last - first) in
      if lt total_seconds (lit 1 1)
      then []
      else buckets_from timed first last (over total_seconds (lit timeline_buckets 1))
          (0 ∷ 1 ∷ 2 ∷ 3 ∷ [])

  -- the change-point in bucket `i`
  unfoldable pub change_at : ℕ → ℕ → TimelineBucket Real → TimelineBucket Real → Real × String
  change_at duration i previous current =
      let total_seconds = seconds_of duration in
      let bucket_seconds = over total_seconds (lit timeline_buckets 1) in
      let minutes_ago =
        round1 (over (minus total_seconds (times (lit (2 * i + 1) 2) bucket_seconds)) (lit 60 1)) in
      (
        minutes_ago,
        "error rate jumped from "
            ++ decimal (percent previous.error_rate)
            ++ "% to "
            ++ decimal (percent current.error_rate)
            ++ "% at t-"
            ++ show minutes_ago
            ++ "m",
      )

  unfoldable pub change_from :
      ℕ → ℕ → TimelineBucket Real → List (TimelineBucket Real) → Option (Real × String)
  unfolding change_at
  change_from duration i previous [] = none
  change_from duration i previous (current ∷ rest) =
      let later = change_from duration (suc i) current rest in
      if lt (lit 2 10) (minus current.error_rate previous.error_rate)
      then some (change_at duration i previous current)
      else later

  -- `_detect_change_point`
  unfoldable pub detect_change_point : ℕ → List (TimelineBucket Real) → Option (Real × String)
  unfolding change_from
  detect_change_point duration [] = none
  detect_change_point duration (first ∷ rest) = change_from duration 1 first rest
