-- ===== src/Agent/Routing.antt =====
-- Which analyses end in an execution, and which wait for a human.
use mathlib.Core.Path.{subst}
use ai_devops_copilot.Base.{
  eq_refl, lookup-insert, String, ◌==◌, ◌≡◌, refl, ◌∙◌, ap, Bool, true, false, inl, inr, Option,
  none, some, [], ◌∷◌, arith, contains, lookup, Bool-cases,
}
use ai_devops_copilot.Actions.{safe_actions, IsDestructive}
use ai_devops_copilot.Policy.{Policy}
use ai_devops_copilot.Platforms.{is_dry_run}
use ai_devops_copilot.Executor.Types.{ExecutionResult}
use ai_devops_copilot.Approval.{
  new_request, create_approval_request, ApprovalRequest, ApprovalReason, is_critical,
}
use ai_devops_copilot.Approval.Required.{requires_approval_iff}
use ai_devops_copilot.Safety.Denials.{Shape, validate-Shape}
use ai_devops_copilot.Agent.{
  Backend, AnalysisRequest, Evidence, Globals, Assessment, Routed, Report, analysed, Snapshots,
  execute_async,
}
use ai_devops_copilot.Agent.Assess.{assess}
use ai_devops_copilot.Agent.Pipeline.{
  needs_human, ask_human, route, settle, run_analysis, act, conclude,
}
use ai_devops_copilot.Agent.Reported.{run_analysis-Reports}

-- what `requires_approval` has to find for an action that goes ahead without a human
abbrev pub Unattended : {R : Type 0} → Assessment R → Option String → Type 0
Unattended a criticality =
    (is_critical criticality ≡ false)
    × ((a.safety.action == "rollback") ≡ false)
    × (contains ("high" ∷ "critical" ∷ []) a.blast_radius_score ≡ false)
    × ((a.confidence == "high") ≡ true)

abbrev pub Executed : {R : Type 0} → Assessment R → Option String → Type 0
Executed a criticality =
    (a.safety.allowed ≡ true)
    × (contains safe_actions a.safety.action ≡ false)
    × (IsDestructive a.safety.action → Unattended a criticality)

no_action-safe : contains safe_actions "no_action" ≡ true
unfolding contains
no_action-safe = refl

module _ (backend : Backend) (policy : Policy) (req : AnalysisRequest) where
  open backend use {cluster}
  open cluster use {es}
  open es use {State, floats}

  -- the result is what the executor answers to the action that is let through, on its target
  abbrev pub Ran : Assessment floats.Real → ExecutionResult → Type 0
  Ran a result =
      (action_id : String) × (snapshots : Snapshots) × (s : State) × (result
        ≡ (execute_async cluster policy.global action_id a.safety.action a.action_target "default"
            (is_dry_run a.evidence.platform req.environment) snapshots s).0.0)

  route-execution :
      (a : Assessment floats.Real) (human : Bool × ApprovalReason) (globals : Globals floats.Real)
      (s : State) (result : ExecutionResult)
      → (route backend policy req a human globals s).0.0.execution ≡ some result
      → (human.0 ≡ false) × (contains safe_actions a.safety.action ≡ false) × Ran a result
  unfolding route act
  route-execution a (true, reason) globals s result e = absurd (ground arith)
  route-execution a (false, reason) globals s result e =
      elim (Bool-cases (contains safe_actions a.safety.action)) [
        | inl safe ↦ absurd (ground arith)
        | inr unsafe ↦
            let (action_id, s1) = backend.uuid4 s in
            let ran : some
                  (execute_async cluster policy.global action_id a.safety.action a.action_target
                    "default" (is_dry_run a.evidence.platform req.environment) globals.snapshots
                    s1).0.0
                ≡ some result =
              rw unsafe at e in
            (refl, unsafe, (action_id, globals.snapshots, s1, cc))
      ]

  allowed-needs :
      (a : Assessment floats.Real) (criticality : Option String)
      → Shape a.safety
      → (needs_human backend policy req a criticality).0 ≡ false
      → contains safe_actions a.safety.action ≡ false
      → Executed a criticality
  unfolding needs_human
  allowed-needs a criticality (inr denied) n unsafe =
      let safe = ap (contains safe_actions) denied.1 ∙ no_action-safe in absurd (ground arith)
  allowed-needs a criticality (inl (allowed, _)) n unsafe = (
    allowed,
    unsafe,
    λ d.
        (requires_approval_iff a.safety.action req.service a.confidence a.blast_radius_score
            criticality d).0
          (ground arith),
  )

  assess-Shape :
      (evidence : Evidence floats.Real) (globals : Globals floats.Real) (s : State)
      → Shape (assess backend policy req evidence globals s).0.0.safety
  unfolding assess
  assess-Shape evidence globals s = validate-Shape es policy _ _

  route-Executed :
      (a : Assessment floats.Real) (criticality : Option String) (globals : Globals floats.Real)
      (s : State) (result : ExecutionResult)
      → Shape a.safety
      → (route backend policy req a
          (needs_human backend policy req a criticality)
          globals
          s).0.0.execution
        ≡ some result
      → Executed a criticality × Ran a result
  route-Executed a criticality globals s result shape e =
      let human = needs_human backend policy req a criticality in
      let (unasked, unsafe, ran) = route-execution a human globals s result e in
      (allowed-needs a criticality shape unasked unsafe, ran)

  abbrev ExecutedReport : Report floats.Real → Globals floats.Real → State → Type 0
  ExecutedReport report globals s =
      (result : ExecutionResult)
      → report.routed.execution ≡ some result
      → Executed report.assessment report.criticality × Ran report.assessment result

  settle-Executed :
      (evidence : Evidence floats.Real) (globals : Globals floats.Real) (s : State)
      → let (settled, s') = settle backend policy req evidence globals s in
        ExecutedReport settled.0 settled.1 s'
  unfolding settle conclude
  settle-Executed evidence globals s result =
      let ((a, globals1), s1) = assess backend policy req evidence globals s in
      let (criticality, s2) = backend.criticality req.service s1 in
      route-Executed a criticality globals1 s2 result (assess-Shape evidence globals s)

  -- What `run_analysis` has executed is the action that the safety stack let through, on the target
  -- of the assessment, and its result is the executor's answer to that; the action is not a safe one; if it is destructive, the service is not marked critical, the action is no rollback, the
  -- blast radius is neither high nor critical, and the confidence is high.
  pub run_analysis-Executed :
      (globals : Globals floats.Real) (s : State) (report : Report floats.Real)
      (result : ExecutionResult)
      → (run_analysis backend policy req globals s).0.0 ≡ analysed report
      → report.routed.execution ≡ some result
      → Executed report.assessment report.criticality × Ran report.assessment result
  run_analysis-Executed globals s report result e =
      run_analysis-Reports backend policy req ExecutedReport settle-Executed globals s report e
        result

  ask_human-lookup :
      (a : Assessment floats.Real) (reason : ApprovalReason) (globals : Globals floats.Real)
      (s : State)
      → let ((request, globals'), s') = ask_human backend policy req a reason globals s in
        lookup request.approval_id globals'.pending ≡ some request
  unfolding ask_human create_approval_request new_request
  ask_human-lookup a reason globals s =
      let (approval_id, s1) = backend.uuid4 s in
      rw (lookup-insert approval_id approval_id _ globals.pending, eq_refl approval_id) refl

  -- from one state to another by nothing but asking for ids and for the time
  pub data OnlyAsks (s : State) : State → Type 0 where
    stays : OnlyAsks s s
    asks_id : (t : State) → OnlyAsks s t → OnlyAsks s (backend.uuid4 t).1
    asks_time : (t : State) → OnlyAsks s t → OnlyAsks s (es.now t).1

  abbrev Waiting : Assessment floats.Real → Routed → ApprovalRequest → Globals floats.Real → Type 0
  Waiting a routed request globals =
      (a.safety.allowed ≡ true)
      × (routed.execution ≡ none)
      × (lookup request.approval_id globals.pending ≡ some request)

  route-approval :
      (a : Assessment floats.Real) (human : Bool × ApprovalReason) (globals : Globals floats.Real)
      (s : State) (request : ApprovalRequest)
      → (human.0 ≡ true → a.safety.allowed ≡ true)
      → let ((routed, globals'), s') = route backend policy req a human globals s in
        routed.approval ≡ some request → Waiting a routed request globals' × OnlyAsks s s'
  unfolding route ask_human
  route-approval a (true, reason) globals s request allowed e =
      let created : ApprovalRequest = (ask_human backend policy req a reason globals s).0.0 in
      let pending = (ask_human backend policy req a reason globals s).0.1.pending in
      let same : created ≡ request = cc in
      let s1 = (backend.uuid4 s).1 in
      let s2 = (es.now s1).1 in
      (
        (
          allowed refl,
          refl,
          subst (λ r. lookup r.approval_id pending ≡ some r) same
              (ask_human-lookup a reason globals s),
        ),
        asks_id (es.now s2).1 (asks_time s2 (asks_time s1 (asks_id s stays))),
      )
  route-approval a (false, reason) globals s request allowed e =
      elim (Bool-cases (contains safe_actions a.safety.action)) [
        | inl safe ↦ absurd (ground arith)
        | inr unsafe ↦ absurd (ground arith)
      ]

  needs_human-allowed :
      (a : Assessment floats.Real) (criticality : Option String)
      → (needs_human backend policy req a criticality).0 ≡ true
      → a.safety.allowed ≡ true
  unfolding needs_human
  needs_human-allowed a criticality e = ground arith

  -- Between the assessment and the record of the incident, only ids and the time are asked for.
  abbrev pub Untouched : Report floats.Real → Globals floats.Real → State → Type 0
  Untouched report globals s' =
      (evidence : Evidence floats.Real) × (globals0 : Globals floats.Real) × (s0 after : State)
      × let ((a, _), s1) = assess backend policy req evidence globals0 s0 in
        let (criticality, s2) = backend.criticality req.service s1 in
        OnlyAsks s2 after
        × (((report, globals), s')
            ≡ conclude backend policy req evidence a criticality report.routed globals after)

  abbrev WaitingReport : Report floats.Real → Globals floats.Real → State → Type 0
  WaitingReport report globals s' =
      (request : ApprovalRequest)
      → report.routed.approval ≡ some request
      → Waiting report.assessment report.routed request globals × Untouched report globals s'

  settle-Waiting :
      (evidence : Evidence floats.Real) (globals : Globals floats.Real) (s : State)
      → let (settled, s') = settle backend policy req evidence globals s in
        WaitingReport settled.0 settled.1 s'
  unfolding settle conclude
  settle-Waiting evidence globals s request e =
      let ((a, globals1), s1) = assess backend policy req evidence globals s in
      let (criticality, s2) = backend.criticality req.service s1 in
      let human = needs_human backend policy req a criticality in
      let (waiting, asked) =
        route-approval a human globals1 s2 request (needs_human-allowed a criticality) e in
      let s3 = (route backend policy req a human globals1 s2).1 in
      (waiting, (evidence, globals, s, s3, (asked, refl)))

  -- Where `run_analysis` asks for an approval, the safety stack has let the action through, no
  -- execution is reported, nothing but ids and the time is asked for between the assessment, with the
  -- criticality of the service, and the record of the incident, and the request is in the store of
  -- requests, under its id, when the analysis ends.
  pub run_analysis-Waiting :
      (globals : Globals floats.Real) (s : State) (report : Report floats.Real)
      (request : ApprovalRequest)
      → let ((result, globals'), s') = run_analysis backend policy req globals s in
        result ≡ analysed report
        → report.routed.approval ≡ some request
        → ((report.assessment.safety.allowed ≡ true)
            × (report.routed.execution ≡ none)
            × (lookup request.approval_id globals'.pending ≡ some request))
          × Untouched report globals' s'
  run_analysis-Waiting globals s report request e =
      run_analysis-Reports backend policy req WaitingReport settle-Waiting globals s report e
        request
