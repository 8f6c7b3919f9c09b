-- ===== src/Platforms/Usable.antt =====
-- What a loaded registry promises to the analysis pipeline.
use ai_devops_copilot.Base.{
  String, ◌==◌, ◌≡◌, refl, true, false, Option, none, some, List, [], ◌∷◌, All, lookup, insert,
  if◌then◌else◌,
}
use ai_devops_copilot.Platforms.{
  PlatformConfig, File, unreadable, parsed, validate_platform, Platforms, add_platform, load_files,
  seed_fallback, load, for_service, first_platform, or_next, asked, resolve, declares,
}
use ai_devops_copilot.Platforms.Validation.{IsValid, Holds, medium-known, validate_platform-IsValid}

abbrev AllValid : Platforms → Type 0
AllValid platforms = All (λ p. IsValid p.1) platforms

insert-AllValid :
    (name : String) (config : PlatformConfig) (platforms : Platforms)
    → IsValid config
    → AllValid platforms
    → AllValid (insert name config platforms)
unfolding insert
insert-AllValid name config [] v h = (v, tt)
insert-AllValid name config ((other, old) ∷ platforms) v h =
    elim (other == name)
      as (λ x.
        AllValid (
          if x then (other, config) ∷ platforms else (other, old) ∷ insert name config platforms)) [
            | true ↦ (v, h.1)
            | false ↦ (h.0, insert-AllValid name config platforms v h.1)
          ]

add_platform-AllValid :
    (config : Option PlatformConfig) (platforms : Platforms)
    → Holds IsValid config
    → AllValid platforms
    → AllValid (add_platform config platforms)
unfolding add_platform
add_platform-AllValid none platforms v h = h
add_platform-AllValid (some config) platforms v h = insert-AllValid config.name config platforms v h

load_files-AllValid :
    (files : List File) (platforms : Platforms)
    → AllValid platforms
    → AllValid (load_files files platforms)
unfolding load_files
load_files-AllValid [] platforms h = h
load_files-AllValid (unreadable ∷ files) platforms h = load_files-AllValid files platforms h
load_files-AllValid (parsed raw ∷ files) platforms h =
    load_files-AllValid files (add_platform (validate_platform raw) platforms)
      (add_platform-AllValid (validate_platform raw) platforms (validate_platform-IsValid raw) h)

-- there is a platform, and all are valid
abbrev IsUsable : Platforms → Type 0
IsUsable [] = ⊥
IsUsable (p ∷ platforms) = AllValid (p ∷ platforms)

seed_fallback-IsUsable :
    (platforms : Platforms) → AllValid platforms → IsUsable (seed_fallback platforms)
unfolding seed_fallback
seed_fallback-IsUsable [] h = ((tt, tt, (medium-known, (medium-known, tt))), tt)
seed_fallback-IsUsable (p ∷ platforms) h = h

load-IsUsable : (files : Option (List File)) → IsUsable (load files)
unfolding load
load-IsUsable none = seed_fallback-IsUsable [] tt
load-IsUsable (some files) =
    seed_fallback-IsUsable (load_files files []) (load_files-AllValid files [] tt)

lookup-IsValid :
    (name : String) (platforms : Platforms)
    → AllValid platforms
    → Holds IsValid (lookup name platforms)
unfolding lookup
lookup-IsValid name [] h = tt
lookup-IsValid name ((other, config) ∷ platforms) h =
    elim (other == name)
      as (λ x. Holds IsValid (if x then some config else lookup name platforms)) [
        | true ↦ h.0
        | false ↦ lookup-IsValid name platforms h.1
      ]

for_service-IsValid :
    (service : String) (platforms : Platforms)
    → AllValid platforms
    → Holds IsValid (for_service service platforms)
unfolding for_service
for_service-IsValid service [] h = tt
for_service-IsValid service ((name, config) ∷ platforms) h =
    elim (declares service config.services)
      as (λ x. Holds IsValid (if x then some config else for_service service platforms)) [
        | true ↦ h.0
        | false ↦ for_service-IsValid service platforms h.1
      ]

asked-IsValid :
    (find : String → Option PlatformConfig) (key : Option String)
    → ((name : String) → Holds IsValid (find name))
    → Holds IsValid (asked find key)
unfolding asked
asked-IsValid find none h = tt
asked-IsValid find (some key) h =
    elim (key == "") as (λ x. Holds IsValid (if x then none else find key)) [
      | true ↦ tt
      | false ↦ h key
    ]

-- an answer, which is valid
abbrev Answers : Option PlatformConfig → Type 0
Answers found = (config : PlatformConfig) × (found ≡ some config) × IsValid config

or_next-Answers :
    (found other : Option PlatformConfig)
    → Holds IsValid found
    → Answers other
    → Answers (or_next found other)
unfolding or_next
or_next-Answers none other h k = k
or_next-Answers (some config) other h k = (config, refl, h)

first_platform-Answers :
    (platforms : Platforms) → IsUsable platforms → Answers (first_platform platforms)
unfolding first_platform
first_platform-Answers [] h = absurd h
first_platform-Answers ((name, config) ∷ platforms) h = (config, refl, h.0)

IsUsable→AllValid : (platforms : Platforms) → IsUsable platforms → AllValid platforms
IsUsable→AllValid [] h = absurd h
IsUsable→AllValid (p ∷ platforms) h = h

resolve-Answers :
    (platform service : Option String) (platforms : Platforms)
    → IsUsable platforms
    → Answers (resolve platform service platforms)
unfolding resolve
resolve-Answers platform service platforms h =
    let valid = IsUsable→AllValid platforms h in
    or_next-Answers (asked (λ name. lookup name platforms) platform) _
      (asked-IsValid (λ name. lookup name platforms) platform
        (λ name. lookup-IsValid name platforms valid))
      (or_next-Answers (asked (λ name. for_service name platforms) service) _
        (asked-IsValid (λ name. for_service name platforms) service
          (λ name. for_service-IsValid name platforms valid))
        (or_next-Answers (lookup "default" platforms) _ (lookup-IsValid "default" platforms valid)
          (first_platform-Answers platforms h)))

-- Whatever files the directory holds, and whether it exists, `resolve` finds a platform for every
-- request: one with an environment, with an environment for dry runs, and with known criticalities.
pub load-resolve :
    (files : Option (List File)) (platform service : Option String)
    → (config : PlatformConfig) × (resolve platform service (load files) ≡ some config)
      × IsValid config
load-resolve files platform service =
    resolve-Answers platform service (load files) (load-IsUsable files)
