-- ===== src/Safety/Gates.antt =====
-- agent-backend/app/core/safety.py: the gates of `validate`, in the order of the source. The policy
-- is the one in force during the call.
pub mod Passed
use ai_devops_copilot.Base.{
  ℕ, ◌+◌, String, ◌==◌, Bool, true, false, not, ◌&&◌, ◌||◌, Option, none, some, List, [], ◌∷◌,
  contains, ltb, leb, length, if◌then◌else◌,
}
use ai_devops_copilot.Base.Effects.{Eff, pure, ◌>>=◌}
use ai_devops_copilot.Actions.{safe_actions, destructive_actions}
use ai_devops_copilot.World.{World, Incident}
use ai_devops_copilot.Policy.{Policy, ActionPolicy, action}
use ai_devops_copilot.Decision.{apply_policy}
use ai_devops_copilot.MemoryStore.Incidents.{
  seconds, minutes, find_recent_actions, count_unresolved_actions,
}
use ai_devops_copilot.MemoryStore.Locks.{try_acquire_action_lock}
use ai_devops_copilot.LoopDetector.{LoopCheckResult, check_loop}
use ai_devops_copilot.Safety.Types.{
  Request, ProposedAction, anomaly_check, causality_check, cascade_check, policy_check, loop_check,
  idempotency_skipped, idempotency_check, namespace_check, severity_check, blast_radius_check,
  rate_check, budget_check, anomaly_gate as anomaly_denied, causality_not_verified, loop_freeze,
  idempotency, namespace_isolation, severity_gate as severity_denied,
  blast_radius_gate as blast_radius_denied, rate_limit as rate_denied, action_budget, Progress,
  Flow, go, note, deny,
}

-- `proposed_action.get("type", "no_action")`, `proposed_action.get("namespace", "default")`
abbrev pub get_or : Option String → String → String
get_or none d = d
get_or (some v) d = v

abbrev pub proposed_type : ProposedAction → String
proposed_type p = get_or p.type "no_action"

abbrev pub proposed_namespace : ProposedAction → String
proposed_namespace p = get_or p.namespace "default"

abbrev is_empty : List Incident → Bool
is_empty [] = true
is_empty (doc ∷ docs) = false

unfoldable pub severity_rank : String → ℕ
severity_rank s =
    if s == "critical" then 3 else if s == "high" then 2 else if s == "medium" then 1 else 0

unfoldable pub confidence_rank : String → ℕ
confidence_rank c = if c == "high" then 2 else if c == "medium" then 1 else 0

-- `_blast_severity_required[score]`, for the two scores at which the gate looks
unfoldable pub required_severity : String → String
required_severity score = if score == "critical" then "critical" else "high"

unfoldable pub rate_limit_of : Option ActionPolicy → ℕ
rate_limit_of none = 0
rate_limit_of (some policy) = policy.max_per_service_per_10min

module _ (w : World) (policy : Policy) (req : Request w.floats.Real) where
  open w use {State, floats}
  open floats use {ge, lt, lit}

  unfoldable pub anomaly_gate : Progress → Eff State Flow
  unfolding note deny
  anomaly_gate p =
      if contains destructive_actions p.action_type && ge req.anomaly_score (lit 0 1)
      then pure (
          if lt req.anomaly_score (lit 2 1)
          then deny (anomaly_denied p.action_type)
              (note p (anomaly_check (ge req.anomaly_score (lit 2 1))))
          else go (note p (anomaly_check (ge req.anomaly_score (lit 2 1)))))
      else pure (go p)

  unfoldable pub causality_gate : Progress → Eff State Flow
  unfolding note deny
  causality_gate p =
      if not req.causality_verified && not (contains safe_actions p.action_type)
      then pure (deny (causality_not_verified p.action_type) (note p (causality_check false)))
      else pure (go (note p (causality_check true)))

  unfoldable pub downgrade : Progress → List Incident → Progress
  unfolding note
  downgrade p in_flight =
      if is_empty in_flight
      then note p (cascade_check false req.cascade_depth)
      else note (record p { action_type = "notify" }) (cascade_check true req.cascade_depth)

  unfoldable pub cascade_guard : Progress → Eff State Flow
  unfolding downgrade
  cascade_guard p =
      if ltb 0 req.cascade_depth && not (contains safe_actions p.action_type)
      then (do
        in_flight ← find_recent_actions w req.service p.action_type ("executing" ∷ []) (seconds 300)
        pure (go (downgrade p in_flight)))
      else pure (go p)

  unfoldable pub policy_gate : Progress → Eff State Flow
  unfolding note
  policy_gate p =
      let decision = apply_policy policy p.action_type req.error_type req.severity req.confidence in
      pure (
        go (
          note (record p { action_type = decision.action })
            (policy_check decision.allowed decision.action)))

  unfoldable pub after_loop : Progress → LoopCheckResult → Flow
  unfolding note deny
  after_loop p loop =
      if loop.freeze
      then deny (loop_freeze loop.reason)
          (note p (loop_check loop.loop_detected true loop.count false))
      else if loop.loop_detected
      then go (note (record p { action_type = "notify" }) (loop_check true false loop.count true))
      else go (note p (loop_check false false loop.count false))

  unfoldable pub loop_gate : Progress → Eff State Flow
  unfolding after_loop
  loop_gate p = do loop ← check_loop w req.service req.error_type 60; pure (after_loop p loop)

  unfoldable pub after_lock : Progress → ℕ → Bool → Flow
  unfolding note deny
  after_lock p ttl acquired =
      if acquired
      then go (note p (idempotency_check true ttl))
      else deny (idempotency req.service p.action_type ttl) (note p (idempotency_check false ttl))

  unfoldable pub idempotency_gate : Progress → Eff State Flow
  unfolding after_lock note
  idempotency_gate p =
      let ttl = policy.global.idempotency_window_seconds in
      if contains safe_actions p.action_type then pure (go (note p idempotency_skipped)) else (do
        acquired ← try_acquire_action_lock w req.service p.action_type ttl
        pure (after_lock p ttl acquired))

  unfoldable pub namespace_gate : Progress → Eff State Flow
  unfolding note deny
  namespace_gate p =
      let namespace = proposed_namespace req.proposed_action in
      let q = note p (namespace_check namespace) in
      if contains policy.global.protected_namespaces namespace
      then pure (deny (namespace_isolation namespace) q)
      else pure (go q)

  unfoldable pub severity_gate : Progress → Eff State Flow
  unfolding note deny
  severity_gate p =
      let q = note p (severity_check p.action_type req.severity req.confidence) in
      if contains destructive_actions p.action_type
        && (not (contains ("high" ∷ "critical" ∷ []) req.severity) || (req.confidence == "low"))
      then pure (deny (severity_denied p.action_type req.severity req.confidence) q)
      else pure (go q)

  -- both scores ask for the confidence "high"
  unfoldable pub blast_radius_ok : Bool
  unfolding severity_rank confidence_rank required_severity
  blast_radius_ok =
      leb (confidence_rank "high") (confidence_rank req.confidence)
      && leb (severity_rank (required_severity req.blast_radius_score)) (severity_rank req.severity)

  unfoldable pub blast_radius_gate : Progress → Eff State Flow
  unfolding note deny
  blast_radius_gate p =
      let score = req.blast_radius_score in
      if contains destructive_actions p.action_type && contains ("high" ∷ "critical" ∷ []) score
      then pure (
          if blast_radius_ok
          then go (note p (blast_radius_check score true))
          else deny (blast_radius_denied score req.confidence req.severity)
              (note p (blast_radius_check score false)))
      else pure (go (note p (blast_radius_check score true)))

  unfoldable pub after_rate : Progress → ℕ → ℕ → Flow
  unfolding note deny
  after_rate p limit count =
      let q = note p (rate_check count limit) in
      if leb limit count then deny (rate_denied p.action_type count limit) q else go q

  unfoldable pub rate_gate : Progress → Eff State Flow
  unfolding after_rate rate_limit_of
  rate_gate p =
      let limit = rate_limit_of (action policy p.action_type) in
      if contains destructive_actions p.action_type && ltb 0 limit
      then (do
        count ← count_unresolved_actions w req.service req.error_type (minutes 10)
        pure (after_rate p limit count))
      else pure (go p)

  -- the loop over `_DESTRUCTIVE_ACTIONS`; the service is the text "*"
  unfoldable pub count_budget : List String → Eff State ℕ
  count_budget [] = pure 0
  count_budget (atype ∷ rest) = do
    recent ← find_recent_actions w "*" atype ("completed" ∷ "executing" ∷ []) (seconds 3600)
    used ← count_budget rest
    pure (length recent + used)

  unfoldable pub after_budget : Progress → ℕ → Flow
  unfolding note deny
  after_budget p used =
      let limit = policy.global.action_budget_per_hour in
      let q = note p (budget_check used limit) in
      if leb limit used then deny (action_budget used limit) q else go q

  unfoldable pub budget_gate : Progress → Eff State Flow
  unfolding after_budget
  budget_gate p =
      if contains destructive_actions p.action_type
      then (do used ← count_budget destructive_actions; pure (after_budget p used))
      else pure (go p)
