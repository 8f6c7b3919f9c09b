-- ===== src/Agent/Pipeline.antt =====
-- agent-backend/app/core/agent.py: the stages of `run_analysis` around the safety stack.
use ai_devops_copilot.Base.{
  String, Bool, true, false, not, ◌&&◌, Option, none, some, List, [], ◌∷◌, ◌++◌, contains,
  if◌then◌else◌, ◌==◌,
}
use ai_devops_copilot.Base.Effects.{Eff}
use ai_devops_copilot.Actions.{safe_actions}
use ai_devops_copilot.World.{Incident}
use ai_devops_copilot.Policy.{Policy}
use ai_devops_copilot.MemoryStore.Incidents.{link_incident_to_chain}
use ai_devops_copilot.Platforms.{PlatformConfig, resolve, is_dry_run}
use ai_devops_copilot.LogProcessor.{Log}
use ai_devops_copilot.Executor.{execute_async}
use ai_devops_copilot.Approval.{
  ApprovalRequest, create_approval_request, requires_approval, ApprovalReason, not_needed,
}
use ai_devops_copilot.Impact.{schedule_verification}
use ai_devops_copilot.Audit.{record_analysis}
use ai_devops_copilot.Agent.{
  Backend, AnalysisRequest, Evidence, Globals, Assessment, Routed, Chain, Report, AnalysisResult,
  no_platform, no_logs, analysed, namespace_of, with_events, evidence_of, reason_text, state_of,
}
use ai_devops_copilot.Agent.Assess.{assess}

module _ (backend : Backend) (policy : Policy) (req : AnalysisRequest) where
  open backend use {cluster, signer, uuid4}
  open cluster use {es}
  open es use {State, floats}

  -- whether a human is asked, and why
  unfoldable pub needs_human : Assessment floats.Real → Option String → Bool × ApprovalReason
  needs_human a criticality =
      if a.safety.allowed && not (contains safe_actions a.safety.action)
      then requires_approval a.safety.action req.service a.confidence a.blast_radius_score
          criticality
      else (false, not_needed)

  unfoldable pub ask_human :
      Assessment floats.Real
      → ApprovalReason
      → Globals floats.Real
      → State
      → (ApprovalRequest × Globals floats.Real) × State
  ask_human a reason globals s =
      let (approval_id, s1) = uuid4 s in
      let (now, s2) = es.now s1 in
      let (later, s3) = es.now s2 in
      let (request, pending) =
        create_approval_request signer approval_id "pending" req.service a.safety.action
          a.action_target (reason_text reason) now later globals.pending in
      ((request, record globals { pending = pending }), s3)

  -- runs the action on its target, and has the impact verified later
  unfoldable pub act :
      Assessment floats.Real
      → String
      → Globals floats.Real
      → State
      → (Routed × Globals floats.Real) × State
  act a action_id globals s =
      let ((result, snapshots, _), s1) =
        execute_async cluster policy.global action_id a.safety.action a.action_target "default"
          (is_dry_run a.evidence.platform req.environment) globals.snapshots s in
      let (queued, s2) =
        schedule_verification es action_id req.service req.environment
          a.evidence.summary.error_ratio 120 s1 in
      (
        (
          record { approval = none; execution = some result },
          record globals { snapshots = snapshots },
        ),
        s2,
      )

  -- the action goes to a human, or is run, or is a safe one that needs neither
  unfoldable pub route :
      Assessment floats.Real
      → Bool × ApprovalReason
      → Globals floats.Real
      → State
      → (Routed × Globals floats.Real) × State
  unfolding ask_human act
  route a (true, reason) globals s =
      let ((request, globals1), s1) = ask_human a reason globals s in
      let (action_id, s2) = uuid4 s1 in
      ((record { approval = some request; execution = none }, globals1), s2)
  route a (false, reason) globals s =
      let (action_id, s1) = uuid4 s in
      if contains safe_actions a.safety.action
      then ((record { approval = none; execution = none }, globals), s1)
      else act a action_id globals s1

  unfoldable pub chain_id_of : Option String → Eff State String
  chain_id_of none s = uuid4 s
  chain_id_of (some id) s = if id == "" then uuid4 s else (id, s)

  unfoldable pub link : Assessment floats.Real → String → Option Incident → Eff State Chain
  unfolding chain_id_of
  link a incident_id none s =
      (record { chain_id = none; upstream_incident_id = none; depth = 0; path = [] }, s)
  link a incident_id (some upstream) s =
      let (chain_id, s1) = chain_id_of upstream.incident_chain_id s in
      let path = upstream.cascade_path ++ req.service ∷ [] in
      let (_, s2) =
        link_incident_to_chain es incident_id chain_id upstream.incident_id a.cascade_depth path
          s1 in
      (
        record {
          chain_id = some chain_id;
          upstream_incident_id = some upstream.incident_id;
          depth = a.cascade_depth;
          path = path;
        },
        s2,
      )

  -- records the analysis, and links the incident to the one that caused it
  unfoldable pub conclude :
      Evidence floats.Real
      → Assessment floats.Real
      → Option String
      → Routed
      → Globals floats.Real
      → State
      → (Report floats.Real × Globals floats.Real) × State
  unfolding link
  conclude evidence a criticality routed globals s =
      let (incident_id, s1) =
        record_analysis es backend.index_incident uuid4
          (record {
            service = req.service;
            environment = req.environment;
            error_type = evidence.error_type;
            severity = evidence.severity;
            proposed_type = a.safety.action;
            action_state = some (state_of routed);
          })
          s in
      let (chain, s2) = link a incident_id a.upstream s1 in
      (
        (
          record {
            assessment = a;
            criticality = criticality;
            routed = routed;
            action_state = state_of routed;
            incident_id = incident_id;
            chain = chain;
          },
          globals,
        ),
        s2,
      )

  unfoldable pub settle :
      Evidence floats.Real
      → Globals floats.Real
      → State
      → (Report floats.Real × Globals floats.Real) × State
  unfolding needs_human route conclude
  settle evidence globals s =
      let ((a, globals1), s1) = assess backend policy req evidence globals s in
      let (criticality, s2) = backend.criticality req.service s1 in
      let ((routed, globals2), s3) = route a (needs_human a criticality) globals1 s2 in
      conclude evidence a criticality routed globals2 s3

  unfoldable pub with_logs :
      PlatformConfig
      → List Log
      → Globals floats.Real
      → State
      → (AnalysisResult floats.Real × Globals floats.Real) × State
  unfolding settle
  with_logs platform [] globals s = ((no_logs, globals), s)
  with_logs platform (log ∷ logs) globals s =
      let evidence = evidence_of backend.texts floats backend.numbers platform req (log ∷ logs) in
      let ((report, globals1), s1) = settle evidence globals s in ((analysed report, globals1), s1)

  unfoldable pub on_platform :
      Option PlatformConfig
      → Globals floats.Real
      → State
      → (AnalysisResult floats.Real × Globals floats.Real) × State
  unfolding with_logs
  on_platform none globals s = ((no_platform, globals), s)
  on_platform (some platform) globals s =
      let (logs, s1) = backend.fetch_logs platform (namespace_of platform req) req s in
      with_logs platform (with_events backend.k8s_events_as_evidence req.k8s_events logs) globals s1

  unfoldable pub run_analysis :
      Globals floats.Real → State → (AnalysisResult floats.Real × Globals floats.Real) × State
  unfolding on_platform
  run_analysis globals s =
      on_platform (resolve req.platform (some req.service) backend.registry) globals s
