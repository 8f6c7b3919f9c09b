-- ===== src/Watcher/Evidence.antt =====
-- agent-backend/app/services/k8s_evidence.py and `_run_analysis_for_event` of
-- watchers/k8s_event_watcher.py: an event as a line of log, and the request for its analysis. The status
-- of a pod, read from the API of Kubernetes, and the clock are parameters.
use ai_devops_copilot.Base.{
  ℕ, ◌-◌, String, ◌==◌, Bool, true, false, not, ◌&&◌, Option, none, some, List, [], ◌∷◌, length,
  leb, if◌then◌else◌,
}
use ai_devops_copilot.Base.Effects.{Eff}
use ai_devops_copilot.LogProcessor.{Log}
use ai_devops_copilot.Agent.{AnalysisRequest}
use ai_devops_copilot.Watcher.{Severity, critical, warning, ignore, WatcherEvent}

-- `_DEFAULT_POD_STATUS_CACHE`: namespace, pod and restarts, in the order of insertion
abbrev pub PodCache : Type 0
PodCache = List (String × String × ℕ)

abbrev pub pod_cache_max : ℕ
pod_cache_max = 256

unfoldable pub same_pod : String → String → String → String → Bool
same_pod namespace pod namespace' pod' = (namespace == namespace') && (pod == pod')

unfoldable pub known_restarts : String → String → PodCache → Option ℕ
known_restarts namespace pod [] = none
known_restarts namespace pod ((n, p, restarts) ∷ cache) =
    let rest = known_restarts namespace pod cache in
    if same_pod n p namespace pod then some restarts else rest

unfoldable pub set_restarts : String → String → ℕ → PodCache → PodCache
set_restarts namespace pod restarts [] = (namespace, pod, restarts) ∷ []
set_restarts namespace pod restarts ((n, p, old) ∷ cache) =
    let rest = set_restarts namespace pod restarts cache in
    if same_pod n p namespace pod then (n, p, restarts) ∷ cache else (n, p, old) ∷ rest

unfoldable pub without_first : PodCache → PodCache
without_first [] = []
without_first (entry ∷ cache) = cache

-- `_cache_evict_if_full`
unfoldable pub evict_if_full : Option ℕ → PodCache → PodCache
unfolding without_first
evict_if_full (some restarts) cache = cache
evict_if_full none cache = if leb pod_cache_max (length cache) then without_first cache else cache

-- the restarts since the last look; 0 at first sight
unfoldable pub restarts_since : Option ℕ → ℕ → ℕ
restarts_since none restarts = 0
restarts_since (some previous) restarts = restarts - previous

-- the log line, and the fields that only describe the pod
pub record Evidence : Type 0 where
  pub log : Log
  pub pod_name : Option String
  pub restart_count : Option ℕ
  pub restart_count_delta : Option ℕ

unfoldable pub level_of : Severity → String
level_of critical = "ERROR"
level_of warning = "WARNING"
level_of ignore = "WARNING"

unfoldable pub seen_or : String → Option String → String
seen_or now none = now
seen_or now (some seen) = if seen == "" then now else seen

-- the line as the log processor reads it: `event`, `status` and `error` are not among its keys
unfoldable pub log_of : String → WatcherEvent → Log
unfolding level_of seen_or
log_of now event = record {
  level = level_of event.severity;
  event = "";
  endpoint = "";
  status = "";
  message = event.message;
  error = "";
  timestamp = seen_or now event.last_seen;
}

unfoldable pub pod_of : WatcherEvent → Option String
pod_of event = if event.involved_kind == "Pod" then some event.involved_name else none

-- what the status of the pod adds, where it could be read
unfoldable pub with_status : Evidence → String → String → PodCache → Option ℕ → Evidence × PodCache
unfolding known_restarts set_restarts evict_if_full restarts_since
with_status evidence namespace pod cache none = (evidence, cache)
with_status evidence namespace pod cache (some restarts) =
    let previous = known_restarts namespace pod cache in
    (
      record evidence {
        restart_count = some restarts;
        restart_count_delta = some (restarts_since previous restarts);
      },
      set_restarts namespace pod restarts (evict_if_full previous cache),
    )

module _ {S : Type 0} (read_pod_status : String → String → Eff S (Option ℕ))
    (now_iso : Eff S String) where
  unfoldable pub with_pod :
      Evidence → String → Option String → PodCache → Eff S (Evidence × PodCache)
  unfolding with_status
  with_pod evidence namespace none cache s = ((evidence, cache), s)
  with_pod evidence namespace (some pod) cache s =
      let (status, s1) = read_pod_status namespace pod s in
      if not (pod == "") && not (namespace == "")
      then (with_status evidence namespace pod cache status, s1)
      else ((evidence, cache), s)

  unfoldable pub normalize_event : WatcherEvent → PodCache → Eff S (Evidence × PodCache)
  unfolding log_of pod_of with_pod
  normalize_event event cache s =
      let (now, s1) = now_iso s in
      let evidence : Evidence = record {
        log = log_of now event;
        pod_name = pod_of event;
        restart_count = none;
        restart_count_delta = none;
      } in
      with_pod evidence event.namespace (pod_of event) cache s1

  unfoldable pub evidence_list : Bool → WatcherEvent → PodCache → Eff S (List Log × PodCache)
  unfolding normalize_event
  evidence_list false event cache s = (([], cache), s)
  evidence_list true event cache s =
      let ((evidence, cache'), s1) = normalize_event event cache s in
      ((evidence.log ∷ [], cache'), s1)

  -- the request that `_run_analysis_for_event` makes
  unfoldable pub request_for :
      Bool → ℕ → WatcherEvent → PodCache → Eff S (AnalysisRequest × PodCache)
  unfolding evidence_list
  request_for as_evidence lookback event cache s =
      let ((events, cache'), s1) = evidence_list as_evidence event cache s in
      (
        (
          record {
            service = event.service;
            environment = "dev";
            lookback_minutes = lookback;
            platform = none;
            namespace = some event.namespace;
            pod_name = pod_of event;
            k8s_events = events;
          },
          cache',
        ),
        s1,
      )
