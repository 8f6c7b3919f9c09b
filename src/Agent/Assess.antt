-- ===== src/Agent/Assess.antt =====
-- agent-backend/app/core/agent.py: what `run_analysis` does from the evidence to the answer of the
-- safety stack.
use ai_devops_copilot.Base.{ℕ, String, Option, some, List, Dict, lookup}
use ai_devops_copilot.Base.Effects.{Eff}
use ai_devops_copilot.Policy.{Policy}
use ai_devops_copilot.MemoryStore.Incidents.{find_recent_incidents_for_chain}
use ai_devops_copilot.Platforms.Services.{declared_dependencies}
use ai_devops_copilot.BlastRadius.{compute_blast_radius}
use ai_devops_copilot.Confidence.{score_confidence}
use ai_devops_copilot.LlmClient.Result.{LlmResult, first_or}
use ai_devops_copilot.LlmClient.Analysis.{Incoming, analyze}
use ai_devops_copilot.Anomaly.{compute_anomaly_score}
use ai_devops_copilot.Causality.{CausalityResult, validate_causality, dependency_map, listed}
use ai_devops_copilot.Correlation.Analysis.{analyze_deployment_correlation}
use ai_devops_copilot.Safety.Types.{Request}
use ai_devops_copilot.Safety.{validate}
use ai_devops_copilot.Agent.{
  Backend, AnalysisRequest, Evidence, Globals, Assessment, score_name, heuristic_llm_result,
  result_or, proposal_of, upstream_match, depth_below, target_or,
}

module _ (backend : Backend) (policy : Policy) (req : AnalysisRequest) where
  open backend use {cluster, baselines, client, settings, rollouts, tunables}
  open cluster use {es, monotonic}
  open es use {State, floats}

  -- what `DEPENDENCY_MAP` is built from
  unfoldable pub platforms : Option (Dict (List String))
  platforms = some (declared_dependencies backend.registry)

  unfoldable pub ask_model : Evidence floats.Real → Eff State LlmResult
  ask_model evidence s =
      let incoming : Incoming = record {
        service = req.service;
        severity = evidence.severity;
        key_events = evidence.key_events;
      } in
      let (answer, s1) = analyze client settings incoming s in
      (
        result_or (heuristic_llm_result req.service evidence.error_type evidence.key_events) answer,
        s1,
      )

  -- the request to the safety stack
  unfoldable pub safety_request :
      Evidence floats.Real
      → String
      → LlmResult
      → CausalityResult
      → ℕ
      → floats.Real
      → String
      → Request floats.Real
  safety_request evidence confidence result causality depth anomaly_score score = record {
    service = req.service;
    environment = req.environment;
    error_type = evidence.error_type;
    severity = evidence.severity;
    confidence = confidence;
    proposed_action = proposal_of result;
    causality_verified = causality.verified;
    cascade_depth = depth;
    anomaly_score = anomaly_score;
    blast_radius_score = score;
  }

  -- from the evidence to the answer of the safety stack
  unfoldable pub assess :
      Evidence floats.Real
      → Globals floats.Real
      → State
      → (Assessment floats.Real × Globals floats.Real) × State
  unfolding platforms
  assess evidence globals s =
      let ((confidence, confidence_score, _), s1) =
        score_confidence es evidence.summary evidence.error_type evidence.severity req.service s in
      let (result, s2) = ask_model evidence s1 in
      let causality =
        validate_causality floats platforms evidence.summary.deduplicated_events
          evidence.summary.error_ratio (first_or "" result.root_causes) req.service in
      let (t, s3) = monotonic s2 in
      let (blast, graph_cache) =
        compute_blast_radius req.service (backend.k8s_dependencies s3) t (dependency_map platforms)
          globals.graph_cache in
      let score = score_name blast.score in
      let ((deployments, rollout_cache), s3') =
        analyze_deployment_correlation es rollouts tunables req.service evidence.namespace
          evidence.summary.change_point_minutes_ago confidence_score score globals.rollout_cache
          s3 in
      let (anomaly_score, s4) =
        compute_anomaly_score es baselines req.service evidence.summary.error_ratio s3' in
      let (now, s5) = es.now s4 in
      let (recent, s6) = find_recent_incidents_for_chain es now 10 s5 in
      let upstream =
        upstream_match (listed (lookup req.service (dependency_map platforms))) recent in
      let (safety, s7) =
        validate es policy
          (safety_request evidence confidence result causality (depth_below upstream) anomaly_score
            score)
          s6 in
      (
        (
          record {
            evidence = evidence;
            confidence = confidence;
            blast_radius_score = score;
            action_target = target_or req.service causality.action_target;
            deployments = deployments;
            upstream = upstream;
            cascade_depth = depth_below upstream;
            safety = safety;
          },
          record globals { graph_cache = graph_cache; rollout_cache = rollout_cache },
        ),
        s7,
      )
