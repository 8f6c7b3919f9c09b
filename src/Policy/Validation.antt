-- ===== src/Policy/Validation.antt =====
-- What the validators guarantee of a policy that is in force.
use ai_devops_copilot.Base.{◌<◌, String, ◌≡◌, refl, true, List, [], ◌∷◌, arith, contains}
use mathlib.Core.Path.{subst}
use ai_devops_copilot.Policy.Defaults.{
  Source, missing, unparsable, scalar, mistyped, mapping, defaults, adopt, load_policy,
  reload_policy,
}
use ai_devops_copilot.Policy.{
  Policy, ActionPolicy, GlobalPolicy, RawAction, RawGlobal, RawPolicy, Result, ok, ◌>>=◌,
  confidence_values, check_confidence, all_severities, validate_severities, positive,
  validate_action, validate_actions, validate_global, build_from_dict,
}

pub record IsPositive (global : GlobalPolicy) : Type 0 where
  pub budget : 0 < global.action_budget_per_hour
  pub freeze : 0 < global.loop_freeze_threshold
  pub escalate : 0 < global.loop_escalate_threshold
  pub expiry : 0 < global.approval_expiry_seconds
  pub window : 0 < global.idempotency_window_seconds
  pub ttl : 0 < global.lease_ttl_seconds
  pub renewal : 0 < global.lease_renewal_seconds

pub record IsKnown (policy : ActionPolicy) : Type 0 where
  pub confidence : contains confidence_values policy.min_confidence ≡ true
  pub severities : all_severities policy.allowed_severities ≡ true

abbrev AllKnown : List (String × ActionPolicy) → Type 0
AllKnown [] = Unit
AllKnown ((name, policy) ∷ rest) = IsKnown policy × AllKnown rest

pub record IsValid (policy : Policy) : Type 0 where
  pub thresholds : IsPositive policy.global
  pub known : AllKnown policy.actions

ok_inj {ℓ} : {A : Type ℓ} {a b : A} → ◌≡◌ {A = Result A} (ok a) (ok b) → a ≡ b
ok_inj h = cc

-- where a chain of validators ends well, its first one did
module _ {ℓ κ} {T : Type ℓ} {U : Type κ} (next : T → Result U) where
  split-ok :
      (first : Result T) {last : U}
      → (first >>= next) ≡ ok last
      → (value : T) × (first ≡ ok value) × (next value ≡ ok last)
  split-ok (Result.raised e) h = cc
  split-ok (ok value) h = (value, refl, h)

validate_action-IsKnown :
    (raw : RawAction) (policy : ActionPolicy) → validate_action raw ≡ ok policy → IsKnown policy
unfolding validate_action check_confidence validate_severities
validate_action-IsKnown raw policy h = ground arith

validate_actions-AllKnown :
    (raws : List (String × RawAction)) (policies : List (String × ActionPolicy))
    → validate_actions raws ≡ ok policies
    → AllKnown policies
unfolding validate_actions
validate_actions-AllKnown [] policies h = subst AllKnown (ok_inj h) tt
validate_actions-AllKnown ((name, raw) ∷ raws) policies h =
    let (policy, e, h') = split-ok _ (validate_action raw) h in
    let (rest, e', h'') = split-ok _ (validate_actions raws) h' in
    subst AllKnown (ok_inj h'')
      (validate_action-IsKnown raw policy e, validate_actions-AllKnown raws rest e')

validate_global-IsPositive :
    (raw : RawGlobal) (global : GlobalPolicy) → validate_global raw ≡ ok global → IsPositive global
unfolding validate_global positive
validate_global-IsPositive raw global h = ground arith

-- A policy that the build accepts has positive global thresholds, and every action in it has a
-- known confidence level and known severities.
pub build_from_dict-IsValid :
    (raw : RawPolicy) (policy : Policy) → build_from_dict raw ≡ ok policy → IsValid policy
unfolding build_from_dict
build_from_dict-IsValid raw policy h =
    let (actions, e, h') = split-ok _ (validate_actions raw.actions) h in
    let (global, e', h'') = split-ok _ (validate_global raw.global) h' in
    subst IsValid (ok_inj h'') (record {
      thresholds = validate_global-IsPositive raw.global global e';
      known = validate_actions-AllKnown raw.actions actions e;
    })

adopted :
    (current : Policy) (r : Result Policy)
    → IsValid current
    → ((policy : Policy) → r ≡ ok policy → IsValid policy)
    → IsValid (adopt current r)
unfolding adopt
adopted current (ok policy) v h = h policy refl
adopted current (Result.raised e) v h = v

-- A policy in force that is valid stays valid over a reload from any source: what does not parse or
-- validate leaves it in place.
pub reload_policy-IsValid :
    (current : Policy) (source : Source) → IsValid current → IsValid (reload_policy current source)
unfolding reload_policy load_policy
reload_policy-IsValid current missing v =
    adopted current (build_from_dict defaults) v (build_from_dict-IsValid defaults)
reload_policy-IsValid current (mapping raw) v =
    adopted current (build_from_dict raw) v (build_from_dict-IsValid raw)
reload_policy-IsValid current unparsable v = v
reload_policy-IsValid current scalar v = v
reload_policy-IsValid current mistyped v = v
