-- ===== src/LoopDetector.antt =====
-- agent-backend/app/core/loop_detector.py
use ai_devops_copilot.Base.{ℕ, String, Bool, true, false, ℤ, pos, negsuc, leb, if◌then◌else◌}
use ai_devops_copilot.Base.Effects.{Eff, pure, ◌>>=◌}
use ai_devops_copilot.World.{World}
use ai_devops_copilot.MemoryStore.Incidents.{minutes, count_unresolved_actions, is_service_frozen}

abbrev pub freeze_threshold : ℕ
freeze_threshold = 5

abbrev pub escalate_threshold : ℕ
escalate_threshold = 3

-- `reason`, by its message
pub data LoopReason : Type 0 where
  frozen : (service : String) → LoopReason
  repeated : (count window_minutes : ℕ) (service error_type : String) → LoopReason
  escalating : (count window_minutes : ℕ) → LoopReason
  no_loop : LoopReason

pub record LoopCheckResult : Type 0 where
  pub loop_detected : Bool
  pub freeze : Bool
  pub count : ℤ
  pub reason : LoopReason

unfoldable pub judge_count : String → String → ℕ → ℕ → LoopCheckResult
judge_count service error_type window count =
    if leb freeze_threshold count
    then record {
      loop_detected = true;
      freeze = true;
      count = pos count;
      reason = repeated count window service error_type;
    }
    else if leb escalate_threshold count
    then record {
      loop_detected = true;
      freeze = false;
      count = pos count;
      reason = escalating count window;
    }
    else record { loop_detected = false; freeze = false; count = pos count; reason = no_loop }

module _ (es : World) where
  open es use {State}

  count_loop : String → String → ℕ → Bool → Eff State LoopCheckResult
  count_loop service error_type window true =
      pure
        (record { loop_detected = true; freeze = true; count = negsuc 0; reason = frozen service })
  count_loop service error_type window false = do
    count ← count_unresolved_actions es service error_type (minutes window)
    pure (judge_count service error_type window count)

  unfoldable pub check_loop : String → String → ℕ → Eff State LoopCheckResult
  unfolding count_loop
  check_loop service error_type window = do
    is_frozen ← is_service_frozen es service
    count_loop service error_type window is_frozen
