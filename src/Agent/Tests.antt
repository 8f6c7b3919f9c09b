-- ===== src/Agent/Tests.antt =====
-- A crash of a service, with a model that proposes to restart it.
use ai_devops_copilot.Base.{
  set_add, decimal, leb, insert, split_commas, push_first, strip, skip_spaces, clip, reverse_text,
  backwards, to_lower, lower, is_infix, is_prefix, sorted, ℕ, ◌+◌, String, ◌≡◌, refl, true, false,
  Option, none, some, [], ◌∷◌, contains, lookup,
}
use ai_devops_copilot.Base.Effects.{ok, raised}
use ai_devops_copilot.Fixtures.{Db, thousandths, running}
use ai_devops_copilot.Fixtures.Logs.{texts, numbers, crash_logs}
use ai_devops_copilot.Platforms.{
  default_platform, resolve, asked, or_next, for_service, declares, first_platform, is_dry_run,
}
use ai_devops_copilot.Fixtures.Kube.{kube}
use ai_devops_copilot.Fixtures.Requests.{standard, quiet}
use ai_devops_copilot.Executor.Types.{
  ExecutionResult, executing, finished, available, build_command,
}
use ai_devops_copilot.Executor.Polling.{run as run_command, kubectl_available}
use ai_devops_copilot.Executor.{
  execute_async, prepare, with_command, after_dry_run, apply, after_apply, start_poll,
}
use ai_devops_copilot.Rollback.{
  capture_snapshot, capture_output, run_kubectl, output_of, desired_of,
}
use ai_devops_copilot.Confidence.{
  score_confidence, score_signals, add_if, boost, count_resolved, labelled, label_of,
}
use ai_devops_copilot.MemoryStore.Incidents.{
  find_similar_incidents, similar, find_recent_incidents_for_chain, between, find_recent_actions,
  count_unresolved_actions, is_service_frozen,
}
use ai_devops_copilot.MemoryStore.Locks.{try_acquire_action_lock}
use ai_devops_copilot.MemoryStore.Leases.{try_acquire_lease}
use ai_devops_copilot.MemoryStore.Jobs.{enqueue_verification}
use ai_devops_copilot.Correlation.{entry_at}
use ai_devops_copilot.Correlation.Analysis.{analyze_deployment_correlation}
use ai_devops_copilot.Impact.{schedule_verification}
use ai_devops_copilot.Audit.{record_analysis, save_incident, incident_of}
use ai_devops_copilot.LoopDetector.{check_loop, judge_count}
use ai_devops_copilot.Decision.{apply_policy}
use ai_devops_copilot.Policy.{action, lookup_decision, first_match, row_matches}
use ai_devops_copilot.Safety.Gates.{
  anomaly_gate, causality_gate, cascade_guard, policy_gate, loop_gate, idempotency_gate,
  namespace_gate, severity_gate, blast_radius_gate, rate_gate, budget_gate, count_budget,
  blast_radius_ok,
}
use ai_devops_copilot.Safety.{propose, guard, gates, validate}
use ai_devops_copilot.Anomaly.{compute_anomaly_score, get_baseline, score_against}
use ai_devops_copilot.Causality.{
  validate_causality, labels_of, any_infix, add_quiet, judge, redirect, join, dependency_map,
  listed,
}
use ai_devops_copilot.BlastRadius.{
  compute_blast_radius, get_dep_map, transitive_dependents, search, get, add_services,
  add_dependents, add_dependent, visit, visit_all, direct_dependents, listing, score_from_count,
}
use ai_devops_copilot.Evaluator.{
  validate_response, validate_causes, validate_cause, has_verb, any_verb, is_verb, words,
  same_codes, backwards_codes,
}
use ai_devops_copilot.LlmClient.Analysis.{
  is_valid, ask, first_answer, analyze_with_model, cross_validate_with, cross_validate, needs_check,
  finish, after_key, try_keys, try_models, analyze, named, other_model, skipped_check,
}
use ai_devops_copilot.Approval.{
  ApprovalRequest, requires_approval, create_approval_request, new_request,
}
use ai_devops_copilot.LlmClient.{
  answered, call_with_retry, attempts_from, after_attempt, is_retriable,
}
use ai_devops_copilot.LlmClient.Models.{
  keys_for, model_chain, provider, trimmed, or_default, without, raw_keys, starts_with_any,
}
use ai_devops_copilot.LlmClient.Result.{
  LlmResult, action_type_of, first_or, guard_llm_result, proposed_name, name_or,
}
use ai_devops_copilot.Agent.{
  score_name, heuristic_llm_result, heuristic_cause, result_or, proposal_of, upstream_match,
  depth_below, target_or, state_of, reason_text, Backend, AnalysisRequest, Evidence, Globals,
  namespace_of, with_events, evidence_of, Report, AnalysisResult, analysed,
}
use ai_devops_copilot.Agent.Assess.{assess, ask_model, safety_request}
use ai_devops_copilot.Agent.Pipeline.{
  run_analysis, on_platform, with_logs, settle, conclude, needs_human, ask_human, act, route, link,
}
use ai_devops_copilot.Agent.Routing.{
  Executed, Ran, Untouched, run_analysis-Executed, run_analysis-Waiting,
}
use ai_devops_copilot.LogProcessor.Lines.{detect_error_type, classify_severity}
use ai_devops_copilot.LogProcessor.{unwrap, parse_inner, extract_relevant}
use ai_devops_copilot.LogProcessor.Summary.{priority, timed_of, is_alike, non_noise, summarize}
use ai_devops_copilot.LogProcessor.Timeline.{seconds_of, span_of}
use ai_devops_copilot.Platforms.Services.{declared_dependencies}

abbrev request : AnalysisRequest
request = record {
  service = "shop";
  environment = "staging";
  lookback_minutes = 30;
  platform = none;
  namespace = none;
  pod_name = none;
  k8s_events = [];
}

abbrev evidence : Evidence ℕ
evidence = evidence_of texts thousandths numbers default_platform request crash_logs

abbrev proposal : String → LlmResult
proposal name = record {
  root_causes = "the process runs out of memory" ∷ [];
  suggestion = "Restart the pod";
  proposed_action =
      some (record { action = some name; target = none; reason = none; namespace = none });
  cross_validation = none;
}

abbrev backend : Option String → Backend
backend criticality = record {
  cluster = kube 2;
  baselines = record {
    get = λ service db. (
      ok (some (record { mean_error_ratio = 100; std_error_ratio = 50; sample_count = 10 })),
      db,
    );
    index = λ service baseline db. (ok tt, db);
    search_ratios = λ service days db. (ok [], db);
    plus = λ a b. a + b;
    sqrt = λ a. a;
    round6 = λ a. a;
  };
  client = record {
    call = λ model key strict db. (answered (proposal "restart_pod"), db);
    monotonic = λ db. (0, db);
    jitter = λ db. (0, db);
    sleep = λ d db. db;
    repr = λ text. text;
  };
  settings = record {
    llm_model = "gemini-a";
    llm_model_fallback = "";
    google_api_keys = "k1";
    openai_api_keys = "";
    anthropic_api_keys = "";
    llm_api_key = "";
  };
  signer = record {
    fixed3 = λ t. "";
    hmac = λ secret text. text;
    secret = "s";
    expiry_seconds = 300;
  };
  registry = ("default", default_platform) ∷ [];
  fetch_logs = λ platform namespace req db. (crash_logs, db);
  k8s_events_as_evidence = false;
  texts = texts;
  numbers = numbers;
  k8s_dependencies = λ db. none;
  criticality = λ service db. (criticality, db);
  rollouts = record {
    list_deployments = λ namespace db. (raised "unreachable", db);
    monotonic = λ db. (0, db);
    minutes_since = λ now t. 0;
    le = leb;
    round2 = λ m. m;
    fixed1 = λ m. "";
  };
  tunables = record { window_minutes = 15; confidence_threshold = 7; production_namespaces = [] };
  uuid4 = λ db. ("u1", db);
  index_incident = λ id doc db. (ok id, db);
}

abbrev fresh : Globals ℕ
fresh = record { snapshots = []; pending = []; graph_cache = none; rollout_cache = [] }

abbrev run : Option String → (AnalysisResult ℕ × Globals ℕ) × Db
run criticality = run_analysis (backend criticality) standard request fresh quiet

-- opens what a run of `run_analysis` computes with
every_stage : Unit {0}
unfolding on_platform resolve asked or_next for_service declares first_platform namespace_of
    with_events evidence_of is_dry_run running contains lookup insert analyze_deployment_correlation
    entry_at run_analysis with_logs settle conclude assess ask_model safety_request needs_human
    ask_human act route link score_name heuristic_llm_result heuristic_cause result_or proposal_of
    upstream_match depth_below target_or state_of reason_text score_confidence score_signals add_if
    boost count_resolved labelled label_of find_similar_incidents similar
    find_recent_incidents_for_chain between keys_for model_chain provider trimmed or_default without
    raw_keys starts_with_any split_commas push_first strip skip_spaces clip reverse_text backwards
    call_with_retry attempts_from after_attempt is_retriable action_type_of first_or
    guard_llm_result proposed_name name_or is_valid ask first_answer analyze_with_model
    cross_validate_with cross_validate needs_check finish after_key try_keys try_models analyze
    named other_model skipped_check validate_response validate_causes validate_cause has_verb
    any_verb is_verb words same_codes backwards_codes to_lower lower validate_causality labels_of
    any_infix is_infix is_prefix add_quiet judge redirect join dependency_map listed
    compute_blast_radius get_dep_map transitive_dependents search get add_services add_dependents
    add_dependent visit visit_all direct_dependents listing sorted score_from_count
    compute_anomaly_score get_baseline score_against validate gates propose guard anomaly_gate
    causality_gate cascade_guard policy_gate loop_gate idempotency_gate namespace_gate severity_gate
    blast_radius_gate rate_gate budget_gate apply_policy lookup_decision first_match row_matches
    check_loop is_service_frozen count_unresolved_actions try_acquire_action_lock
    find_recent_actions count_budget action judge_count blast_radius_ok requires_approval
    create_approval_request new_request execute_async prepare with_command after_dry_run apply
    after_apply start_poll run_command kubectl_available finished available build_command
    capture_snapshot capture_output run_kubectl output_of desired_of try_acquire_lease
    schedule_verification enqueue_verification record_analysis save_incident incident_of
every_stage = tt

abbrev report : Option String → Report ℕ
report criticality = (settle (backend criticality) standard request evidence fresh quiet).0.0

reported : (criticality : Option String) → (run criticality).0.0 ≡ analysed (report criticality)
unfolding run_analysis on_platform with_logs resolve with_events lookup
reported criticality = refl

abbrev started : ExecutionResult
started = record {
  action_id = "u1";
  action_type = "restart_pod";
  status = executing;
  intended = 0;
  achieved = 0;
  error = none;
  rollback_triggered = false;
}

restarted : (report none).routed.execution ≡ some started
unfolding every_stage classify_severity extract_relevant summarize parse_inner non_noise is_alike
    span_of timed_of seconds_of priority decimal detect_error_type unwrap declared_dependencies
    set_add
restarted = refl

run_analysis-Executed_example :
    Executed (report none).assessment (report none).criticality
    × Ran (backend none) standard request (report none).assessment started
run_analysis-Executed_example =
    run_analysis-Executed (backend none) standard request fresh quiet (report none) started
      (reported none) restarted

-- the same crash of a critical service
abbrev request_made : ApprovalRequest
request_made =
    (create_approval_request (backend none).signer "u1" "pending" "shop" "restart_pod" "shop"
      "service shop is criticality=critical" quiet.clock quiet.clock []).0

waits : (report (some "critical")).routed.approval ≡ some request_made
unfolding every_stage classify_severity extract_relevant summarize parse_inner non_noise is_alike
    span_of timed_of seconds_of priority decimal detect_error_type unwrap declared_dependencies
    set_add
waits = refl

run_analysis-Waiting_example :
    let ((_, globals), db) = run (some "critical") in
    (((report (some "critical")).assessment.safety.allowed ≡ true)
      × ((report (some "critical")).routed.execution ≡ none)
      × (lookup request_made.approval_id globals.pending ≡ some request_made))
    × Untouched (backend (some "critical")) standard request (report (some "critical")) globals db
run_analysis-Waiting_example =
    run_analysis-Waiting (backend (some "critical")) standard request fresh quiet
      (report (some "critical")) request_made (reported (some "critical")) waits
