-- ===== src/Agent.antt =====
-- agent-backend/app/core/agent.py: `run_analysis`, from the logs of a service to an action that is
-- executed, that waits for a human, or that is not taken. The query of the log index,
-- the annotations of the cluster, `uuid4` and the write of a document are parameters. Slack, metrics
-- and log lines are left out.
pub mod Assess
pub mod Pipeline
pub mod Reported
pub mod Routing
mod Tests
use Prim.Native.String.{◌++◌}
use mathlib.Core.List.{◌++◌ as ◌followed_by◌}
use ai_devops_copilot.Base.{
  ℕ, suc, String, ◌==◌, Bool, true, false, not, ◌&&◌, Option, none, some, List, [], ◌∷◌, Dict,
  contains, lookup, if◌then◌else◌,
}
use ai_devops_copilot.Base.Effects.{Eff, Reply}
use ai_devops_copilot.Actions.{safe_actions}
use ai_devops_copilot.World.{World, Floats, Incident}
use ai_devops_copilot.Policy.{Policy}
use ai_devops_copilot.MemoryStore.Incidents.{
  find_recent_incidents_for_chain, link_incident_to_chain,
}
use ai_devops_copilot.Cluster.{Cluster}
use ai_devops_copilot.Rollback.{Snapshots}
use ai_devops_copilot.Executor.Types.{ExecutionResult}
use ai_devops_copilot.Executor.{execute_async}
use ai_devops_copilot.Approval.{
  Signer, ApprovalRequest, Pending, create_approval_request, requires_approval, ApprovalReason,
  not_needed, rollback_always, critical_service, wide_blast, unsure,
}
use ai_devops_copilot.BlastRadius.{
  DepMap, DepGraphCache, Score, low, medium, high, critical, compute_blast_radius,
}
use ai_devops_copilot.Confidence.{score_confidence}
use ai_devops_copilot.Platforms.{Platforms, PlatformConfig}
use ai_devops_copilot.LogProcessor.{Log, Texts, extract_relevant}
use ai_devops_copilot.LogProcessor.Lines.{detect_error_type, extract_key_events, classify_severity}
use ai_devops_copilot.LogProcessor.Timeline.{Numbers}
use ai_devops_copilot.LogProcessor.Summary.{LogSummary, summarize}
use ai_devops_copilot.LlmClient.Models.{Settings}
use ai_devops_copilot.LlmClient.Result.{LlmResult, first_or}
use ai_devops_copilot.LlmClient.Analysis.{Client, Incoming, Analysed, returned, raised, analyze}
use ai_devops_copilot.Anomaly.{Baselines, compute_anomaly_score}
use ai_devops_copilot.Causality.{CausalityResult, validate_causality, dependency_map, listed}
use ai_devops_copilot.Impact.{schedule_verification}
use ai_devops_copilot.Correlation.{Rollouts, Tunables, Cache, DeploymentCorrelationResult}
use ai_devops_copilot.Audit.{record_analysis}
use ai_devops_copilot.Safety.Types.{Request, SafetyResult, ProposedAction}
use ai_devops_copilot.Safety.{validate}

-- the platform of a request, and what the log processor makes of its logs
pub record Evidence (R : Type 0) : Type 0 where
  pub platform : PlatformConfig
  pub namespace : String
  pub error_type : String
  pub severity : String
  pub key_events : List String
  pub summary : LogSummary R

pub record AnalysisRequest : Type 0 where
  pub service : String
  pub environment : String
  pub lookback_minutes : ℕ
  pub platform : Option String
  pub namespace : Option String
  pub pod_name : Option String
  pub k8s_events : List Log

pub record Backend : Type 1 where
  pub cluster : Cluster
  pub baselines : Baselines cluster.es
  pub client : Client cluster.es.State
  pub settings : Settings
  pub signer : Signer
  pub registry : Platforms
  pub fetch_logs : PlatformConfig → String → AnalysisRequest → Eff cluster.es.State (List Log)
  pub k8s_events_as_evidence : Bool
  pub texts : Texts
  pub numbers : Numbers cluster.es.floats
  pub k8s_dependencies : cluster.es.State → Option DepMap
  pub criticality : String → Eff cluster.es.State (Option String)
  pub rollouts : Rollouts cluster.es
  pub tunables : Tunables
  pub uuid4 : Eff cluster.es.State String
  pub index_incident : String → Incident → Eff cluster.es.State (Reply String)

-- the module globals of the parts
pub record Globals (R : Type 0) : Type 0 where
  pub snapshots : Snapshots
  pub pending : Pending
  pub graph_cache : Option DepGraphCache
  pub rollout_cache : Cache R

-- what is known once the safety stack has answered
pub record Assessment (R : Type 0) : Type 0 where
  pub evidence : Evidence R
  pub confidence : String
  pub blast_radius_score : String
  pub action_target : String
  pub deployments : DeploymentCorrelationResult R
  pub upstream : Option Incident
  pub cascade_depth : ℕ
  pub safety : SafetyResult

pub record Routed : Type 0 where
  pub approval : Option ApprovalRequest
  pub execution : Option ExecutionResult

pub record Chain : Type 0 where
  pub chain_id : Option String
  pub upstream_incident_id : Option String
  pub depth : ℕ
  pub path : List String

pub record Report (R : Type 0) : Type 0 where
  pub assessment : Assessment R
  pub criticality : Option String
  pub routed : Routed
  pub action_state : String
  pub incident_id : String
  pub chain : Chain

-- `no_platform` is the StopIteration of an empty registry, and `no_logs` is the answer for an empty
-- window, with `no_action`
pub data AnalysisResult (R : Type 0) : Type 0 where
  no_platform no_logs : AnalysisResult R
  analysed : Report R → AnalysisResult R

-- `req.namespace or _platform.namespace`
unfoldable pub namespace_of : PlatformConfig → AnalysisRequest → String
namespace_of platform req = elim req.namespace [
  | none ↦ platform.namespace
  | some name ↦ if name == "" then platform.namespace else name
]

-- the events of the cluster come before the logs
unfoldable pub with_events : Bool → List Log → List Log → List Log
with_events true events logs = events followed_by logs
with_events false events logs = logs

-- what the parsers make of the logs of a request
unfoldable pub evidence_of :
    Texts
    → (fl : Floats) → Numbers fl
    → PlatformConfig
    → AnalysisRequest
    → List Log
    → Evidence fl.Real
evidence_of texts fl numbers platform req raw_logs =
    let relevant = extract_relevant raw_logs in
    let error_type = detect_error_type texts relevant in
    record {
      platform = platform;
      namespace = namespace_of platform req;
      error_type = error_type;
      severity = classify_severity relevant error_type;
      key_events = extract_key_events texts relevant;
      summary = summarize texts fl numbers raw_logs;
    }

unfoldable pub score_name : Score → String
score_name low = "low"
score_name medium = "medium"
score_name high = "high"
score_name critical = "critical"

unfoldable pub reason_text : ApprovalReason → String
reason_text not_needed = ""
reason_text rollback_always = "rollback actions always require human approval"
reason_text (critical_service service) = "service " ++ service ++ " is criticality=critical"
reason_text (wide_blast score) = "blast-radius=" ++ score ++ " — action affects multiple services"
reason_text (unsure confidence) =
    "destructive action with confidence=" ++ confidence ++ " requires approval"

unfoldable pub heuristic_cause : String → String → String
heuristic_cause error_type first_event =
    if error_type == "dependency_error"
    then "dependency failure suspected from log pattern: " ++ first_event
    else if error_type == "runtime_crash"
    then "runtime crash detected: " ++ first_event
    else if error_type == "build_failure"
    then "build failure pattern: " ++ first_event
    else "unclassified error pattern: " ++ first_event

-- `_heuristic_llm_result`
unfoldable pub heuristic_llm_result : String → String → List String → LlmResult
unfolding heuristic_cause
heuristic_llm_result service error_type key_events = record {
  root_causes = heuristic_cause error_type (first_or "no events captured" key_events) ∷ [];
  suggestion =
      "Manual investigation required.  LLM unavailable — heuristic "
      ++ "fallback proposed 'notify' as the conservative action.  Inspect "
      ++ "logs and k8s events directly.";
  proposed_action = some (record {
    action = some "notify";
    target = some service;
    reason = some "LLM unavailable; defaulting to notify per heuristic policy";
    namespace = none;
  });
  cross_validation = none;
}

unfoldable pub result_or : LlmResult → Analysed → LlmResult
result_or fallback (returned result) = result
result_or fallback failure = fallback

-- the keys of the proposal that the safety stack reads
unfoldable pub proposal_of : LlmResult → ProposedAction
proposal_of result = elim result.proposed_action [
  | none ↦ record { type = none; namespace = none }
  | some proposed ↦ record { type = proposed.action; namespace = proposed.namespace }
]

-- the first recent incident of a service that this one depends on
unfoldable pub upstream_match : List String → List Incident → Option Incident
upstream_match services [] = none
upstream_match services (incident ∷ incidents) =
    let rest = upstream_match services incidents in
    if contains services incident.service then some incident else rest

unfoldable pub depth_below : Option Incident → ℕ
depth_below none = 0
depth_below (some incident) = elim incident.cascade_depth [ none ↦ 1 | some depth ↦ suc depth ]

unfoldable pub target_or : String → Option String → String
target_or service none = service
target_or service (some target) = if target == "" then service else target

unfoldable pub state_of : Routed → String
state_of routed = elim routed.approval [
  | some request ↦ "awaiting_approval"
  | none ↦ elim routed.execution [ some result ↦ "executing" | none ↦ "pending" ]
]
