-- ===== src/Correlation.antt =====
-- agent-backend/app/core/deployment_correlation.py: whether a rollout precedes the error spike. The
-- kubernetes client, the two clocks and the arithmetic of ages are parameters. An event is an object
-- that the cache and the answer share: what is written to it by one analysis is read by the next, so
-- the events go back into the cache. The settings read from the environment are a record.
pub mod Analysis
pub mod Closest
pub mod Gates
mod Tests
use Prim.Native.String.{◌++◌}
use ai_devops_copilot.Base.{
  ℕ, ◌+◌, ◌-◌, max, String, ◌==◌, Bool, true, false, not, ◌&&◌, ◌||◌, Option, none, some, List, [],
  ◌∷◌, Dict, codes, lower, strip, lookup, leb, ltb, if◌then◌else◌,
}
use ai_devops_copilot.Base.Effects.{Eff, Reply, ok, raised}
use ai_devops_copilot.World.{World, Floats}
use ai_devops_copilot.Evaluator.{same_codes}

pub record DeploymentEvent (R : Type 0) : Type 0 where
  pub deployment_name : String
  pub image_tag : String
  pub rolled_out_at : ℕ
  pub deployment_age_minutes : R
  pub minutes_before_incident : Option R

pub record RollbackCandidate : Type 0 where
  pub deployment : String
  pub current_image : String
  pub recommended_action : String
  pub reason : String
  pub blast_radius_score : String
  pub auto_executable : Bool

pub data Source : Type 0 where
  k8s_api unavailable : Source

pub record DeploymentCorrelationResult (R : Type 0) : Type 0 where
  pub deployment_timeline : List (DeploymentEvent R)
  pub deployment_suspected : Bool
  pub rollback_candidate : Option RollbackCandidate
  pub source : Source
  pub correlation_window_minutes : ℕ

-- a condition and a Deployment of the client, by the fields that are read
pub record Condition : Type 0 where
  pub type : String
  pub last_update_time : Option ℕ
  pub last_transition_time : Option ℕ

pub record Deployment : Type 0 where
  pub name : String
  pub labels : Dict String
  pub conditions : List Condition
  pub creation_timestamp : Option ℕ
  pub image : String

-- `minutes_since now t` is `round((now - t).total_seconds() / 60.0, 2)`; `list_deployments` answers
-- `none` where the package or its configuration is missing
pub record Rollouts (es : World) : Type 0 where
  pub list_deployments : String → Eff es.State (Reply (Option (List Deployment)))
  pub monotonic : Eff es.State ℕ
  pub minutes_since : ℕ → ℕ → es.floats.Real
  pub le : es.floats.Real → es.floats.Real → Bool
  pub round2 : es.floats.Real → es.floats.Real
  pub fixed1 : es.floats.Real → String

-- the names of production namespaces are stripped and in lower case
pub record Tunables : Type 0 where
  pub window_minutes : ℕ
  pub confidence_threshold : ℕ
  pub production_namespaces : List String

abbrev pub Cache : Type 0 → Type 0
Cache R = List ((String × String) × (ℕ × List (DeploymentEvent R)))

-- `_CACHE_TTL_SECONDS`, in microseconds
abbrev pub cache_ttl : ℕ
cache_ttl = 30_000_000

unfoldable pub same_key : String × String → String × String → Bool
same_key (a, b) (c, d) = (a == c) && (b == d)

unfoldable pub entry_at :
    {R : Type 0} → String × String → Cache R → Option (ℕ × List (DeploymentEvent R))
entry_at key [] = none
entry_at key ((other, entry) ∷ cache) =
    let rest = entry_at key cache in if same_key other key then some entry else rest

unfoldable pub put_entry :
    {R : Type 0} → String × String → ℕ × List (DeploymentEvent R) → Cache R → Cache R
put_entry key entry [] = (key, entry) ∷ []
put_entry key entry ((other, old) ∷ cache) =
    let rest = put_entry key entry cache in
    if same_key other key then (other, entry) ∷ cache else (other, old) ∷ rest

unfoldable pub has_label : String → Dict String → List String → Bool
has_label service labels [] = false
has_label service labels (key ∷ keys) =
    let rest = has_label service labels keys in
    elim (lookup key labels) [ none ↦ rest | some value ↦ (value == service) || rest ]

unfoldable pub matches_service : String → Deployment → Bool
unfolding has_label
matches_service service deployment =
    (deployment.name == service)
    || has_label service deployment.labels
        ("app" ∷ "app.kubernetes.io/name" ∷ "devops-copilot/service" ∷ [])

unfoldable pub or_else : Option ℕ → Option ℕ → Option ℕ
or_else (some t) other = some t
or_else none other = other

-- the first condition of the type that has an update time
unfoldable pub updated_at : String → List Condition → Option ℕ
updated_at type [] = none
updated_at type (c ∷ cs) =
    let rest = updated_at type cs in
    if c.type == type then or_else c.last_update_time rest else rest

unfoldable pub newer : Option ℕ → Option ℕ → Option ℕ
newer none other = other
newer (some t) none = some t
newer (some t) (some u) = some (max t u)

unfoldable pub newest_transition : List Condition → Option ℕ
unfolding newer
newest_transition [] = none
newest_transition (c ∷ cs) = newer c.last_transition_time (newest_transition cs)

unfoldable pub extract_rollout_timestamp : Deployment → Option ℕ
unfolding or_else updated_at newest_transition
extract_rollout_timestamp deployment = or_else (updated_at "Progressing" deployment.conditions) (
    or_else (updated_at "Available" deployment.conditions)
      (or_else (newest_transition deployment.conditions) deployment.creation_timestamp))

unfoldable pub is_known : {R : Type 0} → Option R → Bool
is_known none = false
is_known (some x) = true

-- `namespace.strip().lower() in _PROD_NAMESPACES`
unfoldable pub is_production : List String → String → Bool
is_production [] namespace = false
is_production (name ∷ names) namespace =
    same_codes (codes name) (lower (strip namespace)) || is_production names namespace
