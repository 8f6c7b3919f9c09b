-- ===== src/LlmClient/Tools.antt =====
-- agent-backend/app/llm/tools.py: `execute_tool` and the three tools. The searches of Elasticsearch and
-- the list of the events of a namespace are parameters: a query is what the body asks for, and a
-- missing package or configuration of Kubernetes is an exception of the list. Times count microseconds.
use Prim.Native.String.{◌++◌}
use ai_devops_copilot.Base.{
  ℕ, ◌-◌, String, ◌==◌, not, Option, none, some, List, [], ◌∷◌, map, take, clip, decimal, ltb,
  if◌then◌else◌,
}
use ai_devops_copilot.Base.Effects.{Eff, Reply, ok, raised}
use ai_devops_copilot.MemoryStore.Incidents.{minutes}
use ai_devops_copilot.Platforms.{Platforms}
use ai_devops_copilot.Platforms.Services.{namespace_for}

-- the arguments that a model gives; `int` of a text that is no number raises
pub record ToolInput : Type 0 where
  pub query : String
  pub lookback_minutes : Option (Reply ℕ)
  pub level : Option String
  pub namespace : Option String

-- `matching` is the text to search for, or `none` for errors; `level` is `none` for any level
pub record LogQuery : Type 0 where
  pub lookback_minutes : ℕ
  pub service : String
  pub level : Option String
  pub matching : Option String

-- `source` is `str` of the whole document
pub record LogHit : Type 0 where
  pub timestamp : String
  pub level : Option String
  pub message : String
  pub event : String
  pub source : String

pub record Frequency : Type 0 where
  pub total : ℕ
  pub by_endpoint : List (String × ℕ)

pub record K8sEvent : Type 0 where
  pub time : Option ℕ
  pub kind : String
  pub reason : String
  pub message : String
  pub involved_object : Option String

pub record ToolStore (S : Type 0) : Type 0 where
  pub search : LogQuery → Eff S (Reply (List LogHit))
  pub frequency : LogQuery → Eff S (Reply Frequency)
  pub list_events : String → Option String → Eff S (Reply (List K8sEvent))
  pub now : Eff S ℕ
  pub strftime : ℕ → String

unfoldable pub lines_of : List String → String
lines_of [] = ""
lines_of (line ∷ []) = line
lines_of (line ∷ next ∷ lines) = line ++ "\n" ++ lines_of (next ∷ lines)

unfoldable pub text_of_hit : LogHit → String
text_of_hit hit =
    if not (hit.message == "")
    then hit.message
    else if not (hit.event == "")
    then hit.event
    else hit.source

unfoldable pub level_or : Option String → String
level_or none = "?"
level_or (some level) = level

unfoldable pub hit_line : LogHit → String
unfolding text_of_hit level_or
hit_line hit =
    "[" ++ clip 19 hit.timestamp ++ "] " ++ level_or hit.level ++ ": " ++ clip 120 (text_of_hit hit)

unfoldable pub hits_text : String → List LogHit → String
unfolding lines_of hit_line
hits_text query [] = "No logs found matching '" ++ query ++ "'"
hits_text query (hit ∷ hits) = lines_of (map hit_line (hit ∷ hits))

unfoldable pub endpoint_line : String × ℕ → String
endpoint_line (endpoint, count) = "  " ++ endpoint ++ ": " ++ decimal count ++ " errors"

unfoldable pub frequency_text : String → ℕ → Frequency → String
unfolding lines_of endpoint_line
frequency_text service lookback f = elim f.by_endpoint [
  | [] ↦
      "No errors found for '"
      ++ service
      ++ "' in the last "
      ++ decimal lookback
      ++ " minutes (total hits: "
      ++ decimal f.total
      ++ ")"
  | bucket ∷ buckets ↦ lines_of (
      ("Error frequency for '"
        ++ service
        ++ "' (last "
        ++ decimal lookback
        ++ "m, "
        ++ decimal f.total
        ++ " total errors):")
      ∷ map endpoint_line (bucket ∷ buckets))
]

unfoldable pub object_or : Option String → String
object_or none = "unknown"
object_or (some name) = name

unfoldable pub event_lines : (ℕ → String) → ℕ → List K8sEvent → List String
unfolding object_or
event_lines strftime cutoff [] = []
event_lines strftime cutoff (event ∷ events) =
    let rest = event_lines strftime cutoff events in
    let line : ℕ → String = λ t.
      "["
      ++ strftime t
      ++ "] "
      ++ event.kind
      ++ "/"
      ++ event.reason
      ++ ": "
      ++ event.message
      ++ " (object: "
      ++ object_or event.involved_object
      ++ ")" in
    elim event.time [ none ↦ rest | some t ↦ if ltb t cutoff then rest else line t ∷ rest ]

unfoldable pub events_text : String → String → ℕ → List String → String
unfolding lines_of
events_text service namespace lookback [] =
    "No k8s events found for '"
    ++ service
    ++ "' in namespace '"
    ++ namespace
    ++ "' in the last "
    ++ decimal lookback
    ++ "m"
events_text service namespace lookback (line ∷ lines) = lines_of (take 20 (line ∷ lines))

-- `except Exception as exc: return f"tool error: {exc}"`
unfoldable pub or_error : {A : Type 0} → (A → String) → Reply A → String
or_error text (ok a) = text a
or_error text (raised e) = "tool error: " ++ e

unfoldable pub level_filter : Option String → Option String
level_filter none = none
level_filter (some level) = if level == "any" then none else some level

unfoldable pub namespace_or_default : Platforms → String → Option String → String
namespace_or_default registry service none = namespace_for service "default" registry
namespace_or_default registry service (some namespace) =
    if namespace == "" then namespace_for service "default" registry else namespace

module _ {S : Type 0} (store : ToolStore S) (registry : Platforms) where
  open store use {search, frequency, list_events, now, strftime}

  unfoldable pub search_logs : String → ℕ → Option String → String → Eff S String
  unfolding hits_text or_error
  search_logs query lookback level service s =
      let (reply, s1) =
        search
          (record {
            lookback_minutes = lookback;
            service = service;
            level = level;
            matching = some query;
          })
          s in
      (or_error (hits_text query) reply, s1)

  unfoldable pub get_error_frequency : ℕ → String → Eff S String
  unfolding frequency_text or_error
  get_error_frequency lookback service s =
      let (reply, s1) =
        frequency
          (record { lookback_minutes = lookback; service = service; level = none; matching = none })
          s in
      (or_error (frequency_text service lookback) reply, s1)

  unfoldable pub events_or_unavailable : String → String → ℕ → ℕ → Reply (List K8sEvent) → String
  unfolding events_text event_lines
  events_or_unavailable service namespace lookback t (ok events) =
      events_text service namespace lookback (event_lines strftime (t - minutes lookback) events)
  events_or_unavailable service namespace lookback t (raised e) = "k8s events unavailable"

  unfoldable pub get_k8s_events : String → ℕ → String → Eff S String
  unfolding events_or_unavailable
  get_k8s_events namespace lookback service s =
      let (t, s1) = now s in
      let (reply, s2) =
        list_events namespace
          (if service == "" then none else some ("involvedObject.name=" ++ service)) s1 in
      (events_or_unavailable service namespace lookback t reply, s2)

  unfoldable pub with_lookback : (ℕ → Eff S String) → ℕ → Option (Reply ℕ) → Eff S String
  with_lookback tool lookback none s = tool lookback s
  with_lookback tool lookback (some (ok n)) s = tool n s
  with_lookback tool lookback (some (raised e)) s = ("tool error: " ++ e, s)

  unfoldable pub execute_tool : String → ToolInput → String → ℕ → Eff S String
  unfolding with_lookback search_logs get_error_frequency get_k8s_events level_filter
      namespace_or_default
  execute_tool name input service lookback =
      if name == "search_logs"
      then with_lookback (λ n. search_logs input.query n (level_filter input.level) service)
          lookback input.lookback_minutes
      else if name == "get_error_frequency"
      then with_lookback (λ n. get_error_frequency n service) lookback input.lookback_minutes
      else if name == "get_k8s_events"
      then with_lookback
          (λ n. get_k8s_events (namespace_or_default registry service input.namespace) n service)
          lookback input.lookback_minutes
      else λ s. ("unknown tool: " ++ name, s)
