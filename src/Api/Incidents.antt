-- ===== src/Api/Incidents.antt =====
-- agent-backend/app/api/routes.py: the status of an incident and its timeline. A document is what
-- `get_incident` hands back, with the fields that are read here; `timestamp` is its ISO text, and a text
-- that is missing or null is empty.
use Prim.Native.String.{◌++◌}
use mathlib.Core.List.{◌++◌ as ◌followed_by◌}
use ai_devops_copilot.Base.{
  ℕ, zero, suc, String, ◌==◌, Bool, true, false, not, ◌&&◌, Option, none, some, List, [], ◌∷◌, map,
  contains, clip,
}
use ai_devops_copilot.Actions.{safe_actions}
use ai_devops_copilot.Api.{Http, done, http_error}

pub record ToolCall : Type 0 where
  pub tool : String
  pub args_summary : String
  pub result_summary : String
  pub called_at : Option String

pub record Document : Type 0 where
  pub timestamp : String
  pub service : String
  pub action_state : Option String
  pub outcome : Option String
  pub action_type : String
  pub target : Option String
  pub safety_decision : String
  pub safety_reason : String
  pub confidence_hint : String
  pub error_type : String
  pub change_point_description : String
  pub tool_calls : List ToolCall
  pub mttr_seconds : Option String

pub record IncidentStatus : Type 0 where
  pub incident_id : String
  pub service : String
  pub action_state : String
  pub outcome : String
  pub safety_decision : String
  pub safety_reason : String

-- `incident.get(key, default)`
unfoldable pub or_text : String → Option String → String
or_text default none = default
or_text default (some text) = text

unfoldable pub not_found_incident : {A : Type 0} → String → Http A
not_found_incident incident_id = http_error 404 ("incident '" ++ incident_id ++ "' not found")

unfoldable pub get_incident_status : String → Option Document → Http IncidentStatus
unfolding or_text not_found_incident
get_incident_status incident_id none = not_found_incident incident_id
get_incident_status incident_id (some doc) = done (record {
  incident_id = incident_id;
  service = doc.service;
  action_state = or_text "unknown" doc.action_state;
  outcome = or_text "unknown" doc.outcome;
  safety_decision = doc.safety_decision;
  safety_reason = doc.safety_reason;
})

unfoldable pub skip_chars : ℕ → String → String
skip_chars zero s = s
skip_chars (suc n) String.[] = ""
skip_chars (suc n) (String.◌∷◌ c s) = skip_chars n s

-- `iso[11:19]`
unfoldable pub fmt_ts : String → String
unfolding skip_chars
fmt_ts iso = clip 8 (skip_chars 11 iso)

pub record Event : Type 0 where
  pub t : String
  pub event : String
  pub detail : String

unfoldable pub event_if : Bool → Event → List Event
event_if true event = event ∷ []
event_if false event = []

unfoldable pub tool_event : String → ToolCall → Event
unfolding fmt_ts or_text
tool_event base_ts call = record {
  t = fmt_ts (or_text base_ts call.called_at);
  event = "tool_call";
  detail = call.tool ++ "(" ++ clip 60 call.args_summary ++ ") → " ++ clip 60 call.result_summary;
}

unfoldable pub impact_detail : String → Option String → String
impact_detail outcome none = "outcome=" ++ outcome
impact_detail outcome (some mttr) = "outcome=" ++ outcome ++ ", mttr=" ++ mttr ++ "s"

unfoldable pub timeline_of : Document → List Event
unfolding event_if tool_event impact_detail
timeline_of doc =
    let now = fmt_ts doc.timestamp in
    let outcome = or_text "" doc.outcome in
    let spike =
      event_if (not (doc.change_point_description == ""))
        (record { t = now; event = "error_rate_spike"; detail = doc.change_point_description }) in
    let started : Event = record {
      t = now;
      event = "analysis_started";
      detail = "confidence=" ++ doc.confidence_hint ++ ", error_type=" ++ doc.error_type;
    } in
    let safety =
      event_if (not (doc.safety_decision == "")) (record {
        t = now;
        event = "safety_" ++ doc.safety_decision;
        detail = doc.safety_reason;
      }) in
    let acted =
      event_if (not (doc.action_type == "") && not (contains safe_actions doc.action_type))
        (record {
          t = now;
          event = "action_started";
          detail = doc.action_type ++ " " ++ or_text doc.service doc.target;
        }) in
    let verified = event_if (not (outcome == "")) (record {
      t = now;
      event = "impact_verified";
      detail = impact_detail outcome doc.mttr_seconds;
    }) in
    spike
    followed_by (started ∷ map (tool_event doc.timestamp) doc.tool_calls
        followed_by safety
        followed_by acted
        followed_by verified)

-- `get_incident_timeline`; the answer has the service and the timeline
unfoldable pub get_incident_timeline : String → Option Document → Http (String × List Event)
unfolding timeline_of not_found_incident
get_incident_timeline incident_id none = not_found_incident incident_id
get_incident_timeline incident_id (some doc) = done (doc.service, timeline_of doc)
