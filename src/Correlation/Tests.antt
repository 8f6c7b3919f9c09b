-- ===== src/Correlation/Tests.antt =====
-- A rollout five minutes ago, an error spike two minutes ago; then a second analysis out of the
-- cache, whose error spike lies before the rollout.
use ai_devops_copilot.Base.{
  ℕ, ◌-◌, ◌/◌, String, ◌≡◌, refl, sym, ap, false, Option, none, some, [], ◌∷◌, leb, lookup, lower,
  to_lower, strip, skip_spaces, reverse_text, backwards, inl, inr,
}
use ai_devops_copilot.Base.Effects.{ok}
use ai_devops_copilot.Fixtures.{memory}
use ai_devops_copilot.Fixtures.Requests.{quiet}
use ai_devops_copilot.Evaluator.{same_codes}
use ai_devops_copilot.Correlation.{
  DeploymentEvent, RollbackCandidate, Deployment, Rollouts, Tunables, Cache, entry_at, put_entry,
  same_key, has_label, matches_service, or_else, updated_at, newer, newest_transition,
  extract_rollout_timestamp, is_known, is_production,
}
use ai_devops_copilot.Correlation.Analysis.{
  event_of, events_of, cache_get, after_list, after_cache, fetch_deployments, is_recent, precedes,
  annotate, annotate_all, recent_of, is_suspect, suspected, closer, closest_from, start_with,
  closest, candidate_of, candidate_for, can_recommend, recommend, correlate, write_back,
  analyze_deployment_correlation,
}
use ai_devops_copilot.Correlation.Gates.{In, Gated, analyze_deployment_correlation-Gated}

abbrev shop : Deployment
shop = record {
  name = "shop";
  labels = [];
  image = "shop:2";
  creation_timestamp = none;
  conditions =
      record {
        type = "Progressing";
        last_update_time = some 1_699_999_700_000_000;
        last_transition_time = none;
      }
      ∷ [];
}

-- minutes in thousandths
abbrev rollouts : Rollouts memory
rollouts = record {
  list_deployments = λ namespace db. (ok (some (shop ∷ [])), db);
  monotonic = λ db. (db.clock, db);
  minutes_since = λ now t. (now - t) / 60_000;
  le = leb;
  round2 = λ m. m;
  fixed1 = λ m. "3.0";
}

abbrev tunables : Tunables
tunables = record {
  window_minutes = 15;
  confidence_threshold = 7;
  production_namespaces = "production" ∷ "prod" ∷ [];
}

abbrev rolled_out : Option ℕ → DeploymentEvent ℕ
rolled_out gap = record {
  deployment_name = "shop";
  image_tag = "shop:2";
  rolled_out_at = 1_699_999_700_000_000;
  deployment_age_minutes = 5000;
  minutes_before_incident = gap;
}

abbrev candidate : RollbackCandidate
candidate = record {
  deployment = "shop";
  current_image = "shop:2";
  recommended_action = "rollback";
  reason = "Error spike detected 3.0m after rollout of shop:2 (shop)";
  blast_radius_score = "low";
  auto_executable = false;
}

-- opens what an analysis computes with
opened : Unit {0}
unfolding event_of events_of cache_get after_list after_cache fetch_deployments is_recent precedes
    annotate annotate_all recent_of is_suspect suspected closer closest_from start_with closest
    candidate_of candidate_for can_recommend recommend correlate write_back
    analyze_deployment_correlation entry_at put_entry same_key has_label matches_service or_else
    updated_at newer newest_transition extract_rollout_timestamp is_known is_production same_codes
    lower to_lower strip skip_spaces reverse_text backwards lookup
opened = tt

abbrev Answer : Type 0
Answer = Option RollbackCandidate

abbrev suggested : String → Option ℕ → Answer
suggested namespace change_point =
    (analyze_deployment_correlation memory rollouts tunables "shop" namespace change_point 8 "low"
      [] quiet).0.0.rollback_candidate

in_dev : suggested "dev" (some 2000) ≡ some candidate
unfolding opened
in_dev = refl

in_production : suggested " Prod" (some 2000) ≡ none
unfolding opened
in_production = refl

-- without a change-point the rollout is suspected, and nothing is recommended
without_change_point : suggested "dev" none ≡ none
unfolding opened
without_change_point = refl

-- the gap of the first analysis stays on the event, although the spike of the second one is older
-- than the rollout
abbrev stale : Cache ℕ
stale =
    (analyze_deployment_correlation memory rollouts tunables "shop" "dev" (some 2000) 8 "low" []
      quiet).0.1

kept_gap :
    (analyze_deployment_correlation memory rollouts tunables "shop" "dev"
      (some 9000)
      8
      "low"
      stale
      quiet).0.0.deployment_timeline
    ≡ rolled_out (some 3000) ∷ []
unfolding opened
kept_gap = refl

fetched_fresh :
    (fetch_deployments memory rollouts tunables "dev" "shop" [] quiet).0.0
    ≡ some (rolled_out none ∷ [])
unfolding opened
fetched_fresh = refl

fresh : (e : DeploymentEvent ℕ) → In e (rolled_out none ∷ []) → e.minutes_before_incident ≡ none
fresh e (inl same) = ap (λ o. o.minutes_before_incident) (sym same)
fresh e (inr nothing) = elim nothing [ ]

analyze_deployment_correlation-Gated_example :
    Gated memory rollouts tunables
      (λ e. In e (rolled_out none ∷ []))
      (is_production ("production" ∷ "prod" ∷ []) "dev")
      8
      (some 2000)
      candidate
analyze_deployment_correlation-Gated_example =
    analyze_deployment_correlation-Gated memory rollouts tunables "shop" "dev" (some 2000) 8 "low"
      [] quiet (rolled_out none ∷ []) candidate fetched_fresh fresh in_dev
