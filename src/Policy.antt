-- ===== src/Policy.antt =====
-- agent-backend/app/core/policy.py: the policy object, its validators, the built-in defaults, and
-- the reload. What YAML and pydantic make of a file (its parse, and the types of its fields) comes
-- as a `Source`; the validators that the file declares are functions here.
pub mod Lookup
pub mod Validation
pub mod Defaults
use ai_devops_copilot.Base.{
  ℕ, zero, suc, String, ◌==◌, Bool, true, false, ◌&&◌, ◌||◌, Option, none, some, List, [], ◌∷◌, ℤ,
  pos, negsuc, contains, if◌then◌else◌,
}

pub record ActionPolicy : Type 0 where
  pub min_confidence : String
  pub allowed_severities : List String
  pub deny_namespaces : List String
  pub max_per_service_per_10min : ℕ
  pub require_snapshot : Bool

pub record DecisionRow : Type 0 where
  pub match_error_type : String
  pub match_severity : String
  pub match_confidence : String
  pub allowed : List String

pub record GlobalPolicy : Type 0 where
  pub action_budget_per_hour : ℕ
  pub loop_freeze_threshold : ℕ
  pub loop_escalate_threshold : ℕ
  pub approval_expiry_seconds : ℕ
  pub idempotency_window_seconds : ℕ
  pub lease_ttl_seconds : ℕ
  pub lease_renewal_seconds : ℕ
  pub protected_namespaces : List String

pub record Policy : Type 0 where
  pub actions : List (String × ActionPolicy)
  pub decision_table : List DecisionRow
  pub global : GlobalPolicy

-- `self.actions[name]`; `none` is the KeyError
unfoldable pub find_action : String → List (String × ActionPolicy) → Option ActionPolicy
find_action name [] = none
find_action name ((key, policy) ∷ rest) = if key == name then some policy else find_action name rest

unfoldable pub action : Policy → String → Option ActionPolicy
unfolding find_action
action policy name = find_action name policy.actions

unfoldable pub matches : String → String → Bool
matches pattern value = (pattern == "*") || (pattern == value)

unfoldable pub row_matches : DecisionRow → String → String → String → Bool
unfolding matches
row_matches row error_type severity confidence =
    matches row.match_error_type error_type
    && matches row.match_severity severity
    && matches row.match_confidence confidence

unfoldable pub first_match : List DecisionRow → String → String → String → List String
first_match [] error_type severity confidence = []
first_match (row ∷ rows) error_type severity confidence =
    if row_matches row error_type severity confidence
    then row.allowed
    else first_match rows error_type severity confidence

unfoldable pub lookup_decision : Policy → String → String → String → List String
lookup_decision policy = first_match policy.decision_table

-- What a policy mapping holds before the validators run.
pub record RawAction : Type 0 where
  pub min_confidence : String
  pub allowed_severities : List String
  pub deny_namespaces : List String
  pub max_per_service_per_10min : ℤ
  pub require_snapshot : Bool

pub record RawGlobal : Type 0 where
  pub action_budget_per_hour : ℤ
  pub loop_freeze_threshold : ℤ
  pub loop_escalate_threshold : ℤ
  pub approval_expiry_seconds : ℤ
  pub idempotency_window_seconds : ℤ
  pub lease_ttl_seconds : ℤ
  pub lease_renewal_seconds : ℤ
  pub protected_namespaces : List String

pub record RawPolicy : Type 0 where
  pub actions : List (String × RawAction)
  pub decision_table : List DecisionRow
  pub global : RawGlobal

pub data PolicyError : Type 0 where
  invalid_confidence invalid_severities negative_rate not_positive : PolicyError
  yaml_error not_a_mapping malformed : PolicyError

-- `PolicyValidationError` with what raised it.
pub data Result {ℓ} (T : Type ℓ) : Type ℓ where
  raised : PolicyError → Result T
  ok : T → Result T

module _ {ℓ κ} {T : Type ℓ} {U : Type κ} where
  infixl 5 ◌>>=◌
  -- a validator runs only if the one before it has not raised
  abbrev pub ◌>>=◌ : Result T → (T → Result U) → Result U
  raised why >>= next = raised why
  ok value >>= next = next value

abbrev pub confidence_values : List String
confidence_values = "low" ∷ "medium" ∷ "high" ∷ []

abbrev pub severity_values : List String
severity_values = "low" ∷ "medium" ∷ "high" ∷ "critical" ∷ []

-- the `Literal` type of `min_confidence`
unfoldable pub check_confidence : String → Result String
check_confidence v = if contains confidence_values v then ok v else raised invalid_confidence

-- `_validate_severities`: `bad` is empty
unfoldable pub all_severities : List String → Bool
all_severities [] = true
all_severities (s ∷ rest) = contains severity_values s && all_severities rest

unfoldable pub validate_severities : List String → Result (List String)
validate_severities v = if all_severities v then ok v else raised invalid_severities

unfoldable pub non_negative : ℤ → Result ℕ
non_negative (pos n) = ok n
non_negative (negsuc n) = raised negative_rate

unfoldable pub positive : ℤ → Result ℕ
positive (pos zero) = raised not_positive
positive (pos (suc n)) = ok (suc n)
positive (negsuc n) = raised not_positive

unfoldable pub validate_action : RawAction → Result ActionPolicy
validate_action raw = do
  confidence ← check_confidence raw.min_confidence
  severities ← validate_severities raw.allowed_severities
  rate ← non_negative raw.max_per_service_per_10min
  ok (record {
    min_confidence = confidence;
    allowed_severities = severities;
    deny_namespaces = raw.deny_namespaces;
    max_per_service_per_10min = rate;
    require_snapshot = raw.require_snapshot;
  })

unfoldable pub validate_actions : List (String × RawAction) → Result (List (String × ActionPolicy))
validate_actions [] = ok []
validate_actions ((name, raw) ∷ rest) = do
  policy ← validate_action raw
  policies ← validate_actions rest
  ok ((name, policy) ∷ policies)

unfoldable pub validate_global : RawGlobal → Result GlobalPolicy
validate_global raw = do
  budget ← positive raw.action_budget_per_hour
  freeze ← positive raw.loop_freeze_threshold
  escalate ← positive raw.loop_escalate_threshold
  expiry ← positive raw.approval_expiry_seconds
  window ← positive raw.idempotency_window_seconds
  ttl ← positive raw.lease_ttl_seconds
  renewal ← positive raw.lease_renewal_seconds
  ok (record {
    action_budget_per_hour = budget;
    loop_freeze_threshold = freeze;
    loop_escalate_threshold = escalate;
    approval_expiry_seconds = expiry;
    idempotency_window_seconds = window;
    lease_ttl_seconds = ttl;
    lease_renewal_seconds = renewal;
    protected_namespaces = raw.protected_namespaces;
  })

unfoldable pub build_from_dict : RawPolicy → Result Policy
build_from_dict raw = do
  actions ← validate_actions raw.actions
  global ← validate_global raw.global
  ok (record { actions = actions; decision_table = raw.decision_table; global = global })
