-- ===== src/Fixtures/Requests.antt =====
-- A policy, an empty store and a request for a crash, at which the safety stack is tried out.
use ai_devops_copilot.Base.{ℕ, String, Bool, true, none, some, [], ◌∷◌}
use ai_devops_copilot.Fixtures.{Db}
use ai_devops_copilot.Policy.{Policy}
use ai_devops_copilot.Policy.Defaults.{default_table}
use ai_devops_copilot.Safety.Types.{Request}

abbrev pub standard : Policy
standard = record {
  actions =
      (
        "restart_pod",
        record {
          min_confidence = "medium";
          allowed_severities = "high" ∷ "critical" ∷ [];
          deny_namespaces = "kube-system" ∷ [];
          max_per_service_per_10min = 3;
          require_snapshot = true;
        },
      )
      ∷ [];
  decision_table = default_table;
  global = record {
    action_budget_per_hour = 5;
    loop_freeze_threshold = 5;
    loop_escalate_threshold = 3;
    approval_expiry_seconds = 300;
    idempotency_window_seconds = 120;
    lease_ttl_seconds = 60;
    lease_renewal_seconds = 20;
    protected_namespaces = "kube-system" ∷ [];
  };
}

abbrev pub quiet : Db
quiet = record { clock = 1_700_000_000_000_000; incidents = []; locks = []; leases = []; jobs = [] }

abbrev pub crash : String → Bool → Request ℕ
crash proposed verified = record {
  service = "sample-app";
  environment = "dev";
  error_type = "runtime_crash";
  severity = "high";
  confidence = "high";
  proposed_action = record { type = some proposed; namespace = none };
  causality_verified = verified;
  cascade_depth = 0;
  anomaly_score = 3000;
  blast_radius_score = "low";
}
