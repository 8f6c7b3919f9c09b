-- ===== src/Audit.antt =====
-- agent-backend/app/core/audit.py: the record of an analysis, with `save_incident` of
-- agent-backend/app/services/memory_store.py. The write of a document and `uuid4` are parameters; a
-- document has the fields that the program reads back.
use ai_devops_copilot.Base.{ℕ, String, Option, none, some, []}
use ai_devops_copilot.Base.Effects.{Eff, Reply, ◌>>=◌, try_call, pure}
use ai_devops_copilot.World.{World, Incident}

-- the arguments of `record_analysis` that come back in queries
pub record Analysis : Type 0 where
  pub service : String
  pub environment : String
  pub error_type : String
  pub severity : String
  pub proposed_type : String
  pub action_state : Option String

module _ (es : World) (index_incident : String → Incident → Eff es.State (Reply String))
    (uuid4 : Eff es.State String) where
  -- the id that the client answers with, or the document's own
  unfoldable pub save_incident : Incident → Eff es.State String
  save_incident incident =
      try_call (index_incident incident.incident_id incident) (λ id. id) (λ e. incident.incident_id)

  unfoldable pub incident_of : Analysis → String → ℕ → Incident
  incident_of analysis incident_id timestamp = record {
    incident_id = incident_id;
    timestamp = timestamp;
    service = analysis.service;
    environment = analysis.environment;
    error_type = analysis.error_type;
    severity = analysis.severity;
    proposed_type = analysis.proposed_type;
    action_state = elim analysis.action_state [ none ↦ "pending" | some state ↦ state ];
    outcome = "unknown";
    incident_chain_id = none;
    upstream_incident_id = none;
    cascade_depth = none;
    cascade_path = [];
  }

  unfoldable pub record_analysis : Analysis → Eff es.State String
  unfolding save_incident incident_of
  record_analysis analysis = do
    incident_id ← uuid4
    timestamp ← es.now
    saved ← save_incident (incident_of analysis incident_id timestamp)
    pure incident_id
