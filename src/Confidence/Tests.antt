-- ===== src/Confidence/Tests.antt =====
-- A crash that has been resolved before.
use ai_devops_copilot.Base.{ℕ, ◌≡◌, refl, false, none, [], ◌∷◌, contains}
use ai_devops_copilot.Fixtures.{Db, memory, running}
use ai_devops_copilot.World.{Incident}
use ai_devops_copilot.MemoryStore.Incidents.{find_similar_incidents, similar}
use ai_devops_copilot.LogProcessor.Summary.{LogSummary}
use ai_devops_copilot.Confidence.{
  add_if, score_signals, boost, count_resolved, label_of, labelled, score_confidence,
}
use ai_devops_copilot.Confidence.Breakdown.{IsExplained, score_confidence-IsExplained}

abbrev resolved : Incident
resolved = record {
  incident_id = "i1";
  timestamp = 0;
  service = "shop";
  environment = "dev";
  error_type = "runtime_crash";
  severity = "high";
  proposed_type = "restart_pod";
  action_state = "completed";
  outcome = "resolved";
  incident_chain_id = none;
  upstream_incident_id = none;
  cascade_depth = none;
  cascade_path = [];
}

abbrev db : Db
db = record { clock = 0; incidents = resolved ∷ resolved ∷ []; locks = []; leases = []; jobs = [] }

abbrev summary : LogSummary ℕ
summary = record {
  total_events = 20;
  error_count = 5;
  warning_count = 0;
  unique_endpoints = [];
  error_ratio = 500;
  deduplicated_events = [];
  time_span_minutes = 0;
  has_only_noise = false;
  error_timeline = [];
  change_point_minutes_ago = none;
  change_point_description = none;
}

-- every signal counts
scored : (score_confidence memory summary "runtime_crash" "high" "shop" db).0.1 ≡ 11
unfolding score_confidence score_signals add_if boost count_resolved labelled label_of contains
    find_similar_incidents similar running
scored = refl

score_confidence-IsExplained_example :
    IsExplained (score_confidence memory summary "runtime_crash" "high" "shop" db).0
score_confidence-IsExplained_example =
    score_confidence-IsExplained memory summary "runtime_crash" "high" "shop" db
