-- ===== src/MemoryStore/Incidents.antt =====
-- agent-backend/app/services/memory_store.py: the incident documents. `timestamp` ranges such as
-- `now-120s` are read at the server's `now`.
use ai_devops_copilot.Base.{
  ℕ, ◌-◌, ◌*◌, String, ◌==◌, Bool, true, false, ◌&&◌, Option, none, some, List, [], ◌∷◌, contains,
  leb, ltb,
}
use ai_devops_copilot.Base.Effects.{Eff, Reply, ok, raised, pure, ◌>>=◌, try_call}
use ai_devops_copilot.World.{World, Incident, Hits}

abbrev pub seconds : ℕ → ℕ
seconds n = n * 1_000_000

abbrev pub minutes : ℕ → ℕ
minutes n = seconds (n * 60)

unfoldable pub since : ℕ → ℕ → Incident → Bool
since window now doc = leb (now - window) doc.timestamp

unfoldable pub recent_action : String → String → List String → ℕ → ℕ → Incident → Bool
unfolding since
recent_action service action_type states within now doc =
    (doc.service == service)
    && (doc.proposed_type == action_type)
    && contains states doc.action_state
    && since within now doc

unfoldable pub unresolved_action : String → String → ℕ → ℕ → Incident → Bool
unfolding since
unresolved_action service error_type window now doc =
    (doc.service == service) && (doc.error_type == error_type) && since window now doc

abbrev pub critical_state : String
critical_state = "CRITICAL_INTERVENTION_REQUIRED"

unfoldable pub frozen_service : String → ℕ → Incident → Bool
frozen_service service now doc = (doc.service == service) && (doc.action_state == critical_state)

unfoldable pub similar : String → String → ℕ → Incident → Bool
similar error_type service now doc = (doc.error_type == error_type) && (doc.service == service)

unfoldable pub between : ℕ → ℕ → ℕ → Incident → Bool
between from until now doc = leb from doc.timestamp && leb doc.timestamp until

unfoldable pub has_id : String → ℕ → Incident → Bool
has_id incident_id now doc = doc.incident_id == incident_id

abbrev sources : Hits → List Incident
sources hits = hits.sources

abbrev first : Hits → Option Incident
first hits = elim hits.sources [ [] ↦ none | doc ∷ rest ↦ some doc ]

module _ (es : World) where
  open es use {State, search_incidents, count_incidents, update_incident}

  unfoldable pub find_recent_actions : String → String → List String → ℕ → Eff State (List Incident)
  find_recent_actions service action_type states within =
      try_call (search_incidents (recent_action service action_type states within) 50) sources
        (λ e. [])

  unfoldable pub count_unresolved_actions : String → String → ℕ → Eff State ℕ
  count_unresolved_actions service error_type window =
      try_call (count_incidents (unresolved_action service error_type window)) (λ n. n) (λ e. 0)

  unfoldable pub is_service_frozen : String → Eff State Bool
  is_service_frozen service =
      try_call (search_incidents (frozen_service service) 1) (λ hits. ltb 0 hits.total) (λ e. false)

  unfoldable pub get_recent_incidents : ℕ → Eff State (List Incident)
  get_recent_incidents limit = try_call (search_incidents (λ now doc. true) limit) sources (λ e. [])

  unfoldable pub find_similar_incidents : String → String → ℕ → Eff State (List Incident)
  find_similar_incidents error_type service top_k =
      try_call (search_incidents (similar error_type service) top_k) sources (λ e. [])

  unfoldable pub find_recent_incidents_for_chain : ℕ → ℕ → Eff State (List Incident)
  find_recent_incidents_for_chain timestamp lookback_minutes =
      try_call (search_incidents (between (timestamp - minutes lookback_minutes) timestamp) 50)
        sources (λ e. [])

  unfoldable pub get_incident : String → Eff State (Option Incident)
  get_incident incident_id = try_call (search_incidents (has_id incident_id) 1) first (λ e. none)

  -- finds the document, then updates it; what is not found is left
  unfoldable pub update_found : (Incident → Incident) → Reply Hits → Eff State (Unit {0})
  update_found fields (ok hits) = elim (first hits) [
    | none ↦ pure tt
    | some doc ↦ try_call (update_incident doc.incident_id fields) (λ u. tt) (λ e. tt)
  ]
  update_found fields (raised e) = pure tt

  unfoldable pub update : String → (Incident → Incident) → Eff State (Unit {0})
  unfolding update_found
  update incident_id fields = do
    found ← search_incidents (has_id incident_id) 1
    update_found fields found

  unfoldable pub link_incident_to_chain :
      String → String → String → ℕ → List String → Eff State (Unit {0})
  unfolding update
  link_incident_to_chain incident_id chain_id upstream_id depth path = update incident_id (λ doc.
      record doc {
        incident_chain_id = some chain_id;
        upstream_incident_id = some upstream_id;
        cascade_depth = some depth;
        cascade_path = path;
      })
