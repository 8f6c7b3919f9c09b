-- ===== src/Correlation/Analysis.antt =====
-- agent-backend/app/core/deployment_correlation.py: fetching the events, and what is made of them.
use Prim.Native.String.{◌++◌}
use ai_devops_copilot.Base.{
  ℕ, ◌-◌, String, Bool, true, false, not, ◌&&◌, ◌||◌, Option, none, some, List, [], ◌∷◌, leb, ltb,
  if◌then◌else◌,
}
use ai_devops_copilot.Base.Effects.{Eff, Reply, ok, raised}
use ai_devops_copilot.World.{World}
use ai_devops_copilot.Correlation.{
  DeploymentEvent, RollbackCandidate, k8s_api, unavailable, DeploymentCorrelationResult, Deployment,
  Rollouts, Tunables, Cache, cache_ttl, entry_at, put_entry, matches_service,
  extract_rollout_timestamp, is_known, is_production,
}

module _ (es : World) (rollouts : Rollouts es) (tunables : Tunables) where
  open es use {State, floats}
  open floats use {Real, lit, lt, minus}
  open rollouts use {list_deployments, monotonic, minutes_since, le, round2, fixed1}

  -- the events of a list of deployments, as the clock stands
  unfoldable pub event_of : ℕ → Deployment → ℕ → DeploymentEvent Real
  event_of now deployment rolled_out = record {
    deployment_name = deployment.name;
    image_tag = deployment.image;
    rolled_out_at = rolled_out;
    deployment_age_minutes = minutes_since now rolled_out;
    minutes_before_incident = none;
  }

  unfoldable pub events_of : String → ℕ → List Deployment → List (DeploymentEvent Real)
  unfolding event_of
  events_of service now [] = []
  events_of service now (d ∷ ds) =
      let rest = events_of service now ds in
      if matches_service service d
      then elim (extract_rollout_timestamp d) [ none ↦ rest | some t ↦ event_of now d t ∷ rest ]
      else rest

  abbrev pub Fetched : Type 0
  Fetched = Option (List (DeploymentEvent Real)) × Cache Real

  unfoldable pub cache_get :
      Option (ℕ × List (DeploymentEvent Real)) → Eff State (Option (List (DeploymentEvent Real)))
  cache_get none s = (none, s)
  cache_get (some (fetched_at, events)) s =
      let (t, s1) = monotonic s in
      (if ltb (t - fetched_at) cache_ttl then some events else none, s1)

  unfoldable pub after_list :
      String → String → Cache Real → Reply (Option (List Deployment)) → Eff State Fetched
  unfolding events_of
  after_list namespace service cache (raised e) s = ((none, cache), s)
  after_list namespace service cache (ok none) s = ((none, cache), s)
  after_list namespace service cache (ok (some deployments)) s =
      let (now, s1) = es.now s in
      let events = events_of service now deployments in
      let (t, s2) = monotonic s1 in
      ((some events, put_entry (namespace, service) (t, events) cache), s2)

  unfoldable pub after_cache :
      String → String → Cache Real → Option (List (DeploymentEvent Real)) → Eff State Fetched
  unfolding after_list
  after_cache namespace service cache (some events) s = ((some events, cache), s)
  after_cache namespace service cache none s =
      let (reply, s1) = list_deployments namespace s in after_list namespace service cache reply s1

  unfoldable pub fetch_deployments : String → String → Cache Real → Eff State Fetched
  unfolding after_cache cache_get
  fetch_deployments namespace service cache s =
      let (cached, s1) = cache_get (entry_at (namespace, service) cache) s in
      after_cache namespace service cache cached s1

  unfoldable pub is_recent : ℕ → DeploymentEvent Real → Bool
  is_recent window e = le e.deployment_age_minutes (lit window 1)

  -- whether the rollout came before the change-point, and within the window of it
  unfoldable pub precedes : ℕ → Real → DeploymentEvent Real → Bool
  precedes window change_point e =
      lt change_point e.deployment_age_minutes
      && le (minus e.deployment_age_minutes change_point) (lit window 1)

  -- what is written to a recent event
  unfoldable pub annotate : Option Real → DeploymentEvent Real → DeploymentEvent Real
  annotate none e = record e { minutes_before_incident = none }
  annotate (some change_point) e =
      if lt change_point e.deployment_age_minutes
      then record e {
        minutes_before_incident = some (round2 (minus e.deployment_age_minutes change_point));
      }
      else e

  unfoldable pub annotate_all :
      ℕ → Option Real → List (DeploymentEvent Real) → List (DeploymentEvent Real)
  unfolding annotate
  annotate_all window change_point [] = []
  annotate_all window change_point (e ∷ events) =
      (if is_recent window e then annotate change_point e else e)
      ∷ annotate_all window change_point events

  unfoldable pub recent_of : ℕ → List (DeploymentEvent Real) → List (DeploymentEvent Real)
  unfolding is_recent
  recent_of window [] = []
  recent_of window (e ∷ events) =
      let rest = recent_of window events in if is_recent window e then e ∷ rest else rest

  unfoldable pub is_suspect : ℕ → Option Real → DeploymentEvent Real → Bool
  unfolding precedes
  is_suspect window none e = true
  is_suspect window (some change_point) e = precedes window change_point e

  -- `deployment_suspected`, over the recent events
  unfoldable pub suspected : ℕ → Option Real → List (DeploymentEvent Real) → Bool
  unfolding is_suspect
  suspected window change_point [] = false
  suspected window change_point (e ∷ events) =
      is_suspect window change_point e || suspected window change_point events

  -- the event of the least gap so far, with the gap; the first one of equals
  unfoldable pub closer :
      DeploymentEvent Real × Real → DeploymentEvent Real → Option Real → DeploymentEvent Real × Real
  closer best e none = best
  closer best e (some m) = if lt m best.1 then (e, m) else best

  unfoldable pub closest_from :
      DeploymentEvent Real × Real → List (DeploymentEvent Real) → DeploymentEvent Real × Real
  unfolding closer
  closest_from best [] = best
  closest_from best (e ∷ events) = closest_from (closer best e e.minutes_before_incident) events

  unfoldable pub start_with :
      DeploymentEvent Real
      → List (DeploymentEvent Real)
      → Option (DeploymentEvent Real × Real)
      → Option Real
      → Option (DeploymentEvent Real × Real)
  unfolding closest_from
  start_with e events rest none = rest
  start_with e events rest (some m) = some (closest_from (e, m) events)

  unfoldable pub closest : List (DeploymentEvent Real) → Option (DeploymentEvent Real × Real)
  unfolding start_with
  closest [] = none
  closest (e ∷ events) = start_with e events (closest events) e.minutes_before_incident

  unfoldable pub candidate_of : String → DeploymentEvent Real × Real → RollbackCandidate
  candidate_of score (top, gap) = record {
    deployment = top.deployment_name;
    current_image = top.image_tag;
    recommended_action = "rollback";
    reason =
        "Error spike detected "
        ++ fixed1 gap
        ++ "m after rollout of "
        ++ top.image_tag
        ++ " ("
        ++ top.deployment_name
        ++ ")";
    blast_radius_score = score;
    auto_executable = false;
  }

  unfoldable pub candidate_for :
      String → Option (DeploymentEvent Real × Real) → Option RollbackCandidate
  unfolding candidate_of
  candidate_for score none = none
  candidate_for score (some top) = some (candidate_of score top)

  unfoldable pub can_recommend : Bool → ℕ → Option Real → List (DeploymentEvent Real) → Bool
  unfolding suspected
  can_recommend production confidence change_point recent =
      suspected tunables.window_minutes change_point recent
      && is_known change_point
      && leb tunables.confidence_threshold confidence
      && not production

  unfoldable pub recommend :
      Bool → ℕ → Option Real → String → List (DeploymentEvent Real) → Option RollbackCandidate
  unfolding can_recommend candidate_for
  recommend production confidence change_point score recent =
      if can_recommend production confidence change_point recent
      then candidate_for score (closest (annotate_all tunables.window_minutes change_point recent))
      else none

  unfoldable pub correlate :
      Bool
      → ℕ
      → Option Real
      → String
      → Option (List (DeploymentEvent Real))
      → DeploymentCorrelationResult Real
  unfolding recommend
  correlate production confidence change_point score none = record {
    deployment_timeline = [];
    deployment_suspected = false;
    rollback_candidate = none;
    source = unavailable;
    correlation_window_minutes = tunables.window_minutes;
  }
  correlate production confidence change_point score (some events) =
      let recent = recent_of tunables.window_minutes events in
      record {
        deployment_timeline = annotate_all tunables.window_minutes change_point recent;
        deployment_suspected = suspected tunables.window_minutes change_point recent;
        rollback_candidate = recommend production confidence change_point score recent;
        source = k8s_api;
        correlation_window_minutes = tunables.window_minutes;
      }

  -- the events that the cache holds are those that were written to
  unfoldable pub write_back :
      String × String → Option Real → Option (List (DeploymentEvent Real)) → Cache Real → Cache Real
  unfolding annotate_all
  write_back key change_point none cache = cache
  write_back key change_point (some events) cache = elim (entry_at key cache) [
    | none ↦ cache
    | some entry ↦
        put_entry key (entry.0, annotate_all tunables.window_minutes change_point events) cache
  ]

  unfoldable pub analyze_deployment_correlation :
      (service namespace : String)
      → Option Real
      → (confidence : ℕ) → (score : String) → Cache Real
      → State
      → (DeploymentCorrelationResult Real × Cache Real) × State
  unfolding fetch_deployments correlate write_back
  analyze_deployment_correlation service namespace change_point confidence score cache s =
      let production = is_production tunables.production_namespaces namespace in
      let ((events, cache1), s1) = fetch_deployments namespace service cache s in
      (
        (
          correlate production confidence change_point score events,
          write_back (namespace, service) change_point events cache1,
        ),
        s1,
      )
