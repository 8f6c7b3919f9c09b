-- ===== src/Safety/Tests.antt =====
-- The safety chain at concrete requests, on the store in memory.
use ai_devops_copilot.Base.{◌≡◌, refl, true, false, [], contains, arith}
use ai_devops_copilot.Fixtures.{memory, running}
use ai_devops_copilot.Fixtures.Requests.{standard, quiet, crash}
use ai_devops_copilot.Decision.{apply_policy}
use ai_devops_copilot.MemoryStore.Incidents.{
  find_recent_actions, count_unresolved_actions, is_service_frozen,
}
use ai_devops_copilot.MemoryStore.Locks.{try_acquire_action_lock}
use ai_devops_copilot.LoopDetector.{check_loop, judge_count}
use ai_devops_copilot.Policy.{action, lookup_decision, first_match, row_matches, all_severities}
use ai_devops_copilot.Policy.Defaults.{missing, reload_policy}
use ai_devops_copilot.Policy.Validation.{IsValid, reload_policy-IsValid}
use ai_devops_copilot.Decision.Table.{CrashRow, default_table-CrashRow}
use ai_devops_copilot.Safety.Gates.{
  anomaly_gate, causality_gate, cascade_guard, policy_gate, loop_gate, idempotency_gate,
  namespace_gate, severity_gate, blast_radius_gate, rate_gate, budget_gate, count_budget,
  blast_radius_ok,
}
use ai_devops_copilot.Safety.{start, propose, guard, gates, validate}
use ai_devops_copilot.Safety.Cleared.{Cleared, validate-Cleared}
use ai_devops_copilot.Safety.Override.{GoesOnWith, propose_overrides}

-- opens what a run of `validate` computes with
every_gate : Unit {0}
unfolding running validate gates propose guard anomaly_gate causality_gate cascade_guard policy_gate
    loop_gate idempotency_gate namespace_gate severity_gate blast_radius_gate rate_gate budget_gate
    apply_policy lookup_decision first_match row_matches contains check_loop is_service_frozen
    count_unresolved_actions try_acquire_action_lock find_recent_actions count_budget action
    judge_count blast_radius_ok
every_gate = tt

validate_runs : (validate memory standard (crash "restart_pod" true) quiet).0.action ≡ "restart_pod"
unfolding every_gate
validate_runs = refl

validate-Cleared_example :
    Cleared memory standard
      (crash "restart_pod" true)
      "restart_pod"
      (validate memory standard (crash "restart_pod" true) quiet).0.action
validate-Cleared_example =
    validate-Cleared memory standard (crash "restart_pod" true) quiet
      (unfold every_gate contains in refl)

propose_overrides_example :
    GoesOnWith "restart_pod"
      (propose memory standard
        (crash "notify" false)
        (start memory standard (crash "notify" false))
        quiet).0
propose_overrides_example =
    propose_overrides memory standard (crash "notify" false)
      (start memory standard (crash "notify" false)) quiet (unfold contains in refl)
      (unfold contains in refl) "restart_pod" [] (unfold every_gate in refl)
      (unfold contains in refl)

-- the whole chain: an unverified `notify` comes out as a restart
notify_restarts : (validate memory standard (crash "notify" false) quiet).0.action ≡ "restart_pod"
unfolding every_gate
notify_restarts = refl

default_table-CrashRow_example : CrashRow "runtime_crash" "critical" "high"
default_table-CrashRow_example =
    default_table-CrashRow "rollback" "runtime_crash" "critical" "high" (unfold contains in refl)
      (unfold contains first_match row_matches in refl)

standard-IsValid : IsValid standard
unfolding contains all_severities
standard-IsValid = record {
  thresholds = omega arith;
  known = (record { confidence = refl; severities = refl }, tt);
}

reload_policy-IsValid_example : IsValid (reload_policy standard missing)
reload_policy-IsValid_example = reload_policy-IsValid standard missing standard-IsValid
