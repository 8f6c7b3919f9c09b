-- ===== src/Platforms/Validation.antt =====
-- What the validators of a platform let through.
use ai_devops_copilot.Base.{
  String, ◌≡◌, refl, true, inl, inr, Option, none, some, List, [], ◌∷◌, All, contains, Bool-cases,
}
use ai_devops_copilot.Platforms.{
  PlatformConfig, ServiceSpec, RawPlatform, RawService, criticalities, validate_service, cons_both,
  validate_services, or_list, first_of, common, validate_environments, validate_dry_run,
  with_services, validate_platform,
}

abbrev pub NonEmpty : List String → Type 0
NonEmpty [] = ⊥
NonEmpty (x ∷ xs) = Unit

-- environments, at least one of which is a dry run, and criticalities that are known
abbrev pub IsValid : PlatformConfig → Type 0
IsValid config =
    NonEmpty config.environments
    × NonEmpty config.dry_run_envs
    × All (λ s. contains criticalities s.criticality ≡ true) config.services

-- P of what there is
abbrev pub Holds {ℓ} : {A : Type ℓ} → (A → Type 0) → Option A → Type 0
Holds P none = Unit
Holds P (some a) = P a

abbrev Known : List ServiceSpec → Type 0
Known services = All (λ s. contains criticalities s.criticality ≡ true) services

or_list-NonEmpty : (xs ys : List String) → NonEmpty ys → NonEmpty (or_list xs ys)
unfolding or_list
or_list-NonEmpty [] ys h = h
or_list-NonEmpty (x ∷ xs) ys h = tt

first_of-NonEmpty : (xs : List String) → NonEmpty xs → NonEmpty (first_of xs)
unfolding first_of
first_of-NonEmpty [] h = h
first_of-NonEmpty (x ∷ xs) h = tt

validate_environments-NonEmpty :
    (envs : Option (List String)) → NonEmpty (validate_environments envs)
unfolding validate_environments
validate_environments-NonEmpty none = tt
validate_environments-NonEmpty (some envs) = or_list-NonEmpty envs ("dev" ∷ []) tt

validate_dry_run-NonEmpty :
    (envs : List String) (dry : Option (List String))
    → NonEmpty envs
    → NonEmpty (validate_dry_run envs dry)
unfolding validate_dry_run
validate_dry_run-NonEmpty envs none h = tt
validate_dry_run-NonEmpty envs (some dry) h =
    or_list-NonEmpty (common envs (or_list dry ("dev" ∷ []))) (first_of envs)
      (first_of-NonEmpty envs h)

pub medium-known : contains criticalities "medium" ≡ true
unfolding contains
medium-known = refl

validate_service-Known :
    (raw : RawService)
    → Holds (λ s. contains criticalities s.criticality ≡ true) (validate_service raw)
unfolding validate_service
validate_service-Known raw = go raw.criticality
  where
    go :
        (c : Option String)
        → Holds
            (λ s. contains criticalities s.criticality ≡ true)
            (validate_service (record raw { criticality = c }))
    go none = medium-known
    go (some c) = elim (Bool-cases (contains criticalities c)) [ inl e ↦ rw e e | inr e ↦ rw e tt ]

cons_both-Known :
    (s : Option ServiceSpec) (rest : Option (List ServiceSpec))
    → Holds (λ s. contains criticalities s.criticality ≡ true) s
    → Holds Known rest
    → Holds Known (cons_both s rest)
unfolding cons_both
cons_both-Known none rest h k = tt
cons_both-Known (some s) none h k = tt
cons_both-Known (some s) (some rest) h k = (h, k)

validate_services-Known : (raws : List RawService) → Holds Known (validate_services raws)
unfolding validate_services
validate_services-Known [] = tt
validate_services-Known (raw ∷ raws) =
    cons_both-Known (validate_service raw) (validate_services raws) (validate_service-Known raw)
      (validate_services-Known raws)

with_services-IsValid :
    (raw : RawPlatform) (services : Option (List ServiceSpec))
    → Holds Known services
    → Holds IsValid (with_services raw services)
unfolding with_services
with_services-IsValid raw none h = tt
with_services-IsValid raw (some services) h =
    let envs = validate_environments-NonEmpty raw.environments in
    (
      envs,
      validate_dry_run-NonEmpty (validate_environments raw.environments) raw.dry_run_envs envs,
      h,
    )

pub validate_platform-IsValid : (raw : RawPlatform) → Holds IsValid (validate_platform raw)
unfolding validate_platform
validate_platform-IsValid raw =
    with_services-IsValid raw (validate_services raw.services)
      (validate_services-Known raw.services)
