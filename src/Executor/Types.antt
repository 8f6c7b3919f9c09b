-- ===== src/Executor/Types.antt =====
-- agent-backend/app/core/action_executor.py: results, commands, and the judgement of a rollout.
use Prim.Native.String.{◌++◌ as ◌<>◌}
use ai_devops_copilot.Base.{
  ℕ, zero, suc, ◌*◌, String, ◌==◌, Bool, true, false, ◌&&◌, Option, none, some, List, [], ◌∷◌,
  contains, ltb, if◌then◌else◌,
}
use ai_devops_copilot.Cluster.{Run, completed, not_found, timed_out, raised, Manifest}
use ai_devops_copilot.Rollback.{Snapshots, desired_of, ready_of}

pub data Status : Type 0 where
  success partial failed dry_run_ok skipped executing critical_intervention_required : Status

-- `error`
pub data Failure : Type 0 where
  kubectl_not_available : Failure
  unknown_action_type : (action_type : String) → Failure
  dry_run_failed apply_failed : (stderr : String) → Failure

pub record ExecutionResult : Type 0 where
  pub action_id : String
  pub action_type : String
  pub status : Status
  pub intended : ℕ
  pub achieved : ℕ
  pub error : Option Failure
  pub rollback_triggered : Bool

abbrev pub noop_actions : List String
noop_actions = "notify" ∷ "no_action" ∷ []

-- microseconds
abbrev pub poll_interval : ℕ
poll_interval = 5_000_000

abbrev pub poll_max : ℕ
poll_max = 90_000_000

unfoldable pub build_command : String → String → String → List String
build_command action_type service namespace =
    let base = "-n" ∷ namespace ∷ [] in
    if contains ("restart_pod" ∷ "trigger_retry" ∷ []) action_type
    then "rollout" ∷ "restart" ∷ ("deployment/" <> service) ∷ base
    else if action_type == "rollback"
    then "rollout" ∷ "undo" ∷ ("deployment/" <> service) ∷ base
    else if action_type == "scale_up"
    then "scale" ∷ "deployment" ∷ service ∷ "--replicas=3" ∷ base
    else []

unfoldable pub lease_id : String → String
lease_id action_id = "action:" <> action_id

-- return code 0 with the stdout, or another code (-1 for an exception) with the stderr
pub data Finished : Type 0 where
  fine : (out : String) → Finished
  bad : (err : String) → Finished

unfoldable pub finished : Run → Finished
finished (completed zero out err) = fine out
finished (completed (suc n) out err) = bad err
finished not_found = bad "kubectl not found"
finished timed_out = bad "kubectl timed out"
finished (raised text) = bad text

-- `kubectl version --client` went through
unfoldable pub available : Run → Bool
available (completed zero out err) = true
available run = false

unfoldable pub counts_of : Option Manifest → ℕ × ℕ
counts_of none = (1, 0)
counts_of (some spec) = (desired_of spec.replicas, ready_of spec.ready_replicas)

abbrev pub plain : String → Status → Option Failure → String → ExecutionResult
plain action_id status error action_type = record {
  action_id = action_id;
  action_type = action_type;
  status = status;
  intended = 0;
  achieved = 0;
  error = error;
  rollback_triggered = false;
}

-- `intended > 0 and (achieved / intended) < 0.5`
unfoldable pub too_few : ℕ → ℕ → Bool
too_few intended achieved = ltb 0 intended && ltb (2 * achieved) intended

-- the result, the snapshots, and whether the background task was started
abbrev pub Answer : Type 0
Answer = ExecutionResult × Snapshots × Bool
