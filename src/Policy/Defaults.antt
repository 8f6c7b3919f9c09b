-- ===== src/Policy/Defaults.antt =====
-- agent-backend/app/core/policy.py: `_DEFAULTS`, `load_policy` and `reload_policy`.
use ai_devops_copilot.Base.{String, pos, true, false, List, [], ◌∷◌}
use ai_devops_copilot.Policy.{
  Policy, DecisionRow, RawAction, RawPolicy, yaml_error, not_a_mapping, malformed, Result, ok,
  raised, build_from_dict,
}

abbrev row : String → String → String → List String → DecisionRow
row error_type severity confidence allowed = record {
  match_error_type = error_type;
  match_severity = severity;
  match_confidence = confidence;
  allowed = allowed;
}

abbrev pub default_table : List DecisionRow
default_table =
    row "runtime_crash" "critical" "high" ("restart_pod" ∷ "rollback" ∷ [])
    ∷ row "runtime_crash" "high" "high" ("restart_pod" ∷ [])
    ∷ row "runtime_crash" "high" "medium" ("notify" ∷ [])
    ∷ row "runtime_crash" "medium" "*" ("notify" ∷ "no_action" ∷ [])
    ∷ row "build_failure" "high" "high" ("trigger_retry" ∷ [])
    ∷ row "build_failure" "*" "*" ("notify" ∷ "no_action" ∷ [])
    ∷ row "dependency_error" "*" "*" ("notify" ∷ "no_action" ∷ [])
    ∷ row "test_failure" "*" "*" ("notify" ∷ "no_action" ∷ [])
    ∷ row "unknown" "*" "*" ("no_action" ∷ [])
    ∷ row "*" "*" "*" ("notify" ∷ "no_action" ∷ [])
    ∷ []

abbrev guarded : List String
guarded = "kube-system" ∷ "monitoring" ∷ "kube-public" ∷ []

abbrev default_actions : List (String × RawAction)
default_actions =
    (
      "restart_pod",
      record {
        min_confidence = "medium";
        allowed_severities = "high" ∷ "critical" ∷ [];
        deny_namespaces = guarded;
        max_per_service_per_10min = pos 3;
        require_snapshot = true;
      },
    )
    ∷ (
      "rollback",
      record {
        min_confidence = "high";
        allowed_severities = "high" ∷ "critical" ∷ [];
        deny_namespaces = guarded;
        max_per_service_per_10min = pos 1;
        require_snapshot = true;
      },
    )
    ∷ (
      "scale_up",
      record {
        min_confidence = "medium";
        allowed_severities = "high" ∷ "critical" ∷ [];
        deny_namespaces = guarded;
        max_per_service_per_10min = pos 5;
        require_snapshot = false;
      },
    )
    ∷ (
      "trigger_retry",
      record {
        min_confidence = "medium";
        allowed_severities = "medium" ∷ "high" ∷ "critical" ∷ [];
        deny_namespaces = [];
        max_per_service_per_10min = pos 5;
        require_snapshot = false;
      },
    )
    ∷ (
      "notify",
      record {
        min_confidence = "low";
        allowed_severities = "low" ∷ "medium" ∷ "high" ∷ "critical" ∷ [];
        deny_namespaces = [];
        max_per_service_per_10min = pos 0;
        require_snapshot = false;
      },
    )
    ∷ (
      "no_action",
      record {
        min_confidence = "low";
        allowed_severities = "low" ∷ "medium" ∷ "high" ∷ "critical" ∷ [];
        deny_namespaces = [];
        max_per_service_per_10min = pos 0;
        require_snapshot = false;
      },
    )
    ∷ []

abbrev pub defaults : RawPolicy
defaults = record {
  actions = default_actions;
  decision_table = default_table;
  global = record {
    action_budget_per_hour = pos 5;
    loop_freeze_threshold = pos 5;
    loop_escalate_threshold = pos 3;
    approval_expiry_seconds = pos 300;
    idempotency_window_seconds = pos 120;
    lease_ttl_seconds = pos 60;
    lease_renewal_seconds = pos 20;
    protected_namespaces = guarded;
  };
}

-- What stands at the policy path: no file, a text that YAML refuses, a text that is no mapping, a
-- mapping whose fields have other types than the schema's, or a mapping.
pub data Source : Type 0 where
  missing unparsable scalar mistyped : Source
  mapping : RawPolicy → Source

unfoldable pub load_policy : Source → Result Policy
load_policy missing = build_from_dict defaults
load_policy unparsable = raised yaml_error
load_policy scalar = raised not_a_mapping
load_policy mistyped = raised malformed
load_policy (mapping raw) = build_from_dict raw

-- the new value of `current_policy`, which the call also returns
unfoldable pub adopt : Policy → Result Policy → Policy
adopt current (ok new_policy) = new_policy
adopt current (raised e) = current

unfoldable pub reload_policy : Policy → Source → Policy
unfolding adopt
reload_policy current source = adopt current (load_policy source)
