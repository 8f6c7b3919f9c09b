-- ===== src/Platforms/Named.antt =====
-- The keys of a loaded registry are the names of its platforms, so a platform that a search finds is
-- the one that its name gives.
use ai_devops_copilot.Base.{
  String, ◌==◌, ◌≡◌, refl, sym, ap, ◌∙◌, ◌⊎◌, inl, inr, false, Option, none, some, List, [], ◌∷◌,
  lookup, insert, lookup-insert, Bool-cases, arith, eq_iff, eq_refl,
}
use ai_devops_copilot.Base.Words.{normalized}
use ai_devops_copilot.Platforms.{
  PlatformConfig, File, unreadable, parsed, validate_platform, Platforms, add_platform, load_files,
  seed_fallback, load, for_service, declares, resolve, asked, or_next,
}
use ai_devops_copilot.Platforms.Projects.{
  get_by_gitlab_project, with_project, same_project, target_of,
}

abbrev IsNamed : Platforms → Type 0
IsNamed [] = Unit
IsNamed ((name, config) ∷ platforms) =
    (name ≡ config.name) × (lookup name platforms ≡ none) × IsNamed platforms

insert-IsNamed :
    (config : PlatformConfig) (platforms : Platforms)
    → IsNamed platforms
    → IsNamed (insert config.name config platforms)
unfolding insert lookup
insert-IsNamed config [] h = (refl, refl, tt)
insert-IsNamed config ((name, old) ∷ platforms) (same, fresh, h) =
    elim (Bool-cases (name == config.name)) [
      | inl e ↦ rw e ((eq_iff _ _).0 e, fresh, h)
      | inr e ↦
          let apart : (config.name == name) ≡ false =
            ground (arith, eq_iff config.name name, eq_refl name) in
          let fresh' : lookup name (insert config.name config platforms) ≡ none =
            lookup-insert config.name name config platforms ∙ (rw apart fresh) in
          rw e (same, fresh', insert-IsNamed config platforms h)
    ]

add_platform-IsNamed :
    (config : Option PlatformConfig) (platforms : Platforms)
    → IsNamed platforms
    → IsNamed (add_platform config platforms)
unfolding add_platform
add_platform-IsNamed none platforms h = h
add_platform-IsNamed (some config) platforms h = insert-IsNamed config platforms h

load_files-IsNamed :
    (files : List File) (platforms : Platforms)
    → IsNamed platforms
    → IsNamed (load_files files platforms)
unfolding load_files
load_files-IsNamed [] platforms h = h
load_files-IsNamed (unreadable ∷ files) platforms h = load_files-IsNamed files platforms h
load_files-IsNamed (parsed raw ∷ files) platforms h =
    load_files-IsNamed files (add_platform (validate_platform raw) platforms)
      (add_platform-IsNamed (validate_platform raw) platforms h)

seed_fallback-IsNamed :
    (platforms : Platforms) → IsNamed platforms → IsNamed (seed_fallback platforms)
unfolding seed_fallback lookup
seed_fallback-IsNamed [] h = (refl, refl, tt)
seed_fallback-IsNamed (p ∷ platforms) h = h

load-IsNamed : (files : Option (List File)) → IsNamed (load files)
unfolding load
load-IsNamed none = seed_fallback-IsNamed [] tt
load-IsNamed (some files) =
    seed_fallback-IsNamed (load_files files []) (load_files-IsNamed files [] tt)

-- the platform is one of the registry's
abbrev IsListed : PlatformConfig → Platforms → Type 0
IsListed config [] = ⊥
IsListed config ((name, other) ∷ platforms) = (other ≡ config) ⊎ IsListed config platforms

IsListed-lookup :
    (config : PlatformConfig) (platforms : Platforms)
    → IsNamed platforms
    → IsListed config platforms
    → lookup config.name platforms ≡ some config
unfolding lookup
IsListed-lookup config [] h found = absurd found
IsListed-lookup config ((name, other) ∷ platforms) (same, fresh, h) (inl e) =
    let named : name ≡ config.name = same ∙ ap (λ c. c.name) e in
    rw named (rw (eq_refl config.name) (ap some e))
IsListed-lookup config ((name, other) ∷ platforms) (same, fresh, h) (inr found) =
    let rest = IsListed-lookup config platforms h found in
    elim (Bool-cases (name == config.name)) [
      | inl e ↦
          let named : name ≡ config.name = (eq_iff _ _).0 e in
          let clash = sym (ap (λ k. lookup k platforms) named) ∙ fresh in absurd (ground arith)
      | inr e ↦ rw e rest
    ]

with_project-IsListed :
    (project : String) (platforms : Platforms) (config : PlatformConfig)
    → with_project project platforms ≡ some config
    → IsListed config platforms
unfolding with_project
with_project-IsListed project [] config e = absurd (ground arith)
with_project-IsListed project ((name, other) ∷ platforms) config e =
    elim (Bool-cases (same_project (target_of other.gitlab_project) project)) [
      | inl hit ↦ inl (cc)
      | inr miss ↦ inr (with_project-IsListed project platforms config (ground arith))
    ]

for_service-IsListed :
    (service : String) (platforms : Platforms) (config : PlatformConfig)
    → for_service service platforms ≡ some config
    → IsListed config platforms
unfolding for_service
for_service-IsListed service [] config e = absurd (ground arith)
for_service-IsListed service ((name, other) ∷ platforms) config e =
    elim (Bool-cases (declares service other.services)) [
      | inl hit ↦ inl cc
      | inr miss ↦ inr (for_service-IsListed service platforms config (ground arith))
    ]

-- A platform that a loaded registry finds by a GitLab project is the one that its name resolves to,
-- whatever service is asked for, unless the name is empty.
pub get_by_gitlab_project-resolve :
    (files : Option (List File)) (project : String) (config : PlatformConfig)
    (service : Option String)
    → get_by_gitlab_project project (load files) ≡ some config
    → (config.name == "") ≡ false
    → resolve (some config.name) service (load files) ≡ some config
unfolding get_by_gitlab_project resolve asked or_next
get_by_gitlab_project-resolve files project config service e named =
    elim (Bool-cases (project == "")) [
      | inl empty ↦ absurd (ground arith)
      | inr full ↦
          let found =
            with_project-IsListed (normalized project) (load files) config (ground arith) in
          rw named (rw (IsListed-lookup config (load files) (load-IsNamed files) found) refl)
    ]

-- A platform that a loaded registry finds by a service is the one that its name resolves to, whatever
-- service is asked for, unless the name is empty.
pub for_service-resolve :
    (files : Option (List File)) (owned : String) (config : PlatformConfig)
    (service : Option String)
    → for_service owned (load files) ≡ some config
    → (config.name == "") ≡ false
    → resolve (some config.name) service (load files) ≡ some config
unfolding resolve asked or_next
for_service-resolve files owned config service e named =
    let found = for_service-IsListed owned (load files) config e in
    rw named (rw (IsListed-lookup config (load files) (load-IsNamed files) found) refl)
