-- ===== src/Api/Tests.antt =====
-- A service that two incidents have frozen: a restart and a rollback.
use ai_devops_copilot.Base.{
  ◌⊎◌, strip, push_first, split_commas, contains, ℕ, String, ◌==◌, ◌≡◌, refl, ap, Bool, true, false,
  none, some, List, [], ◌∷◌, length, take, if◌then◌else◌,
}
use ai_devops_copilot.Base.Effects.{ok}
use ai_devops_copilot.World.{Incident, Hits}
use ai_devops_copilot.Fixtures.{Db, memory, select}
use ai_devops_copilot.MemoryStore.Incidents.{
  frozen_service, has_id, update, recent_action, find_recent_actions, is_service_frozen,
}
use ai_devops_copilot.LlmClient.Models.{
  without, starts_with_any, provider, raw_keys, trimmed, or_default, keys_for, model_chain,
  Settings,
}
use ai_devops_copilot.Api.{done, require_admin_key, http_error}
use ai_devops_copilot.Api.Unfreeze.{unfreeze_service}
use ai_devops_copilot.Api.Frozen.{Documents, matching}
use ai_devops_copilot.Api.Unfrozen.{Cleans, IsAdmitted, unfreeze_service-Cleans}
use ai_devops_copilot.Api.Ping.{replied, failed, admin_llm_ping}

select-matching :
    (test : Incident → Bool) (docs : List Incident) → select test docs ≡ matching test docs
unfolding select
select-matching test [] = refl
select-matching test (doc ∷ docs) =
    elim (test doc)
      as (λ x.
        (if x then doc ∷ select test docs else select test docs)
        ≡ (if x then doc ∷ matching test docs else matching test docs)) [
          | true ↦ ap (λ rest. doc ∷ rest) (select-matching test docs)
          | false ↦ select-matching test docs
        ]

abbrev store : Documents memory
store = record {
  docs = λ db. db.incidents;
  clock = λ db. db.clock;
  search_finds = λ test n db.
      let hits : List Incident → Hits =
        λ found. record { total = length found; sources = take n found } in
      ap (λ found. (ok (hits found), db)) (select-matching (test db.clock) db.incidents);
  update_changes = λ incident_id change db. refl;
}

abbrev frozen_by : String → String → Incident
frozen_by incident_id action_type = record {
  incident_id = incident_id;
  timestamp = 0;
  service = "shop";
  environment = "dev";
  error_type = "runtime_crash";
  severity = "high";
  proposed_type = action_type;
  action_state = "CRITICAL_INTERVENTION_REQUIRED";
  outcome = "unknown";
  incident_chain_id = none;
  upstream_incident_id = none;
  cascade_depth = none;
  cascade_path = [];
}

abbrev db : Db
db = record {
  clock = 0;
  incidents = frozen_by "i1" "restart_pod" ∷ frozen_by "i2" "rollback" ∷ [];
  locks = [];
  leases = [];
  jobs = [];
}

-- only the restart is found
unfreezes : (unfreeze_service memory "" none "shop" db).0 ≡ done ("i1" ∷ [])
unfolding unfreeze_service require_admin_key find_recent_actions select recent_action contains
unfreezes = refl

-- the service is still frozen
stays_frozen :
    let (answer, db') = unfreeze_service memory "" none "shop" db in
    (is_service_frozen memory "shop" db').0 ≡ true
unfolding unfreeze_service is_service_frozen select require_admin_key find_recent_actions
    recent_action contains update has_id frozen_service
stays_frozen = refl

unfreeze_service-Cleans_example :
    let (answer, db') = unfreeze_service memory "" none "shop" db in
    Cleans memory store "shop" db db' answer
    × (IsAdmitted memory store "" none
        ⊎ (answer ≡ http_error 401 "Invalid or missing X-Admin-Key header."))
unfreeze_service-Cleans_example = unfreeze_service-Cleans memory store "" none "shop" db

abbrev settings : Settings
settings = record {
  llm_model = "gemini-a";
  llm_model_fallback = "claude-b";
  google_api_keys = "k1";
  openai_api_keys = "";
  anthropic_api_keys = "k2";
  llm_api_key = "";
}

-- the first model fails, and the second one answers
pings :
    let (answer, s) =
      admin_llm_ping {State = ℕ}
        (λ provider model key n.
          if model == "gemini-a"
          then (failed "NotFound" "404", n)
          else (replied ("root_cause" ∷ []) "ping", n))
        settings
        0 in
    answer.first_ok_model ≡ some "claude-b"
unfolding admin_llm_ping model_chain keys_for or_default trimmed split_commas raw_keys provider
    starts_with_any push_first strip without
pings = refl
