-- ===== src/Platforms.antt =====
-- agent-backend/app/platforms/registry.py: the registry of platforms. Reading the YAML files and
-- pydantic's typing of the fields are parameters: a file either cannot be read as a platform, or
-- gives the fields that it has. A validator does not run on a field that is missing.
pub mod Validation
pub mod Usable
pub mod Services
pub mod Projects
pub mod Named
pub mod Dependencies
mod Tests
use ai_devops_copilot.Base.{
  String, ◌==◌, Bool, true, false, ◌&&◌, ◌||◌, Option, none, some, List, [], ◌∷◌, Dict, contains,
  lookup, insert, if◌then◌else◌,
}

pub record ServiceSpec : Type 0 where
  pub name : String
  pub depends_on : List String
  pub criticality : String

pub record PlatformConfig : Type 0 where
  pub name : String
  pub namespace : String
  pub environments : List String
  pub dry_run_envs : List String
  pub services : List ServiceSpec
  pub gitlab_project : Option String

pub record RawService : Type 0 where
  pub name : String
  pub depends_on : List String
  pub criticality : Option String

pub record RawPlatform : Type 0 where
  pub name : String
  pub namespace : String
  pub environments : Option (List String)
  pub dry_run_envs : Option (List String)
  pub services : List RawService
  pub gitlab_project : Option String

pub data File : Type 0 where
  unreadable : File
  parsed : RawPlatform → File

abbrev pub criticalities : List String
criticalities = "low" ∷ "medium" ∷ "high" ∷ "critical" ∷ []

-- `_check_criticality`; `none` is the ValueError
unfoldable pub validate_service : RawService → Option ServiceSpec
validate_service raw = elim raw.criticality [
  | none ↦ some (record { name = raw.name; depends_on = raw.depends_on; criticality = "medium" })
  | some c ↦
      if contains criticalities c
      then some (record { name = raw.name; depends_on = raw.depends_on; criticality = c })
      else none
]

unfoldable pub cons_both :
    Option ServiceSpec → Option (List ServiceSpec) → Option (List ServiceSpec)
cons_both none rest = none
cons_both (some service) none = none
cons_both (some service) (some services) = some (service ∷ services)

unfoldable pub validate_services : List RawService → Option (List ServiceSpec)
unfolding validate_service cons_both
validate_services [] = some []
validate_services (raw ∷ raws) = cons_both (validate_service raw) (validate_services raws)

-- `v or default`
unfoldable pub or_list : List String → List String → List String
or_list [] default = default
or_list (x ∷ xs) default = x ∷ xs

unfoldable pub common : List String → List String → List String
common envs [] = []
common envs (e ∷ es) = let rest = common envs es in if contains envs e then e ∷ rest else rest

unfoldable pub first_of : List String → List String
first_of [] = []
first_of (x ∷ xs) = x ∷ []

unfoldable pub validate_environments : Option (List String) → List String
unfolding or_list
validate_environments none = "dev" ∷ []
validate_environments (some envs) = or_list envs ("dev" ∷ [])

-- `_non_empty_list`, then `_dry_run_subset`
unfoldable pub validate_dry_run : List String → Option (List String) → List String
unfolding or_list common first_of
validate_dry_run envs none = "dev" ∷ []
validate_dry_run envs (some dry) = or_list (common envs (or_list dry ("dev" ∷ []))) (first_of envs)

unfoldable pub with_services : RawPlatform → Option (List ServiceSpec) → Option PlatformConfig
unfolding validate_environments validate_dry_run
with_services raw none = none
with_services raw (some services) =
    let envs = validate_environments raw.environments in
    some (record {
      name = raw.name;
      namespace = raw.namespace;
      environments = envs;
      dry_run_envs = validate_dry_run envs raw.dry_run_envs;
      services = services;
      gitlab_project = raw.gitlab_project;
    })

unfoldable pub validate_platform : RawPlatform → Option PlatformConfig
unfolding with_services validate_services
validate_platform raw = with_services raw (validate_services raw.services)

abbrev pub Platforms : Type 0
Platforms = Dict PlatformConfig

abbrev pub default_platform : PlatformConfig
default_platform = record {
  name = "default";
  namespace = "default";
  environments = "dev" ∷ "staging" ∷ "production" ∷ [];
  dry_run_envs = "dev" ∷ [];
  services =
      record { name = "sample-app"; depends_on = "elasticsearch" ∷ []; criticality = "medium" }
      ∷ record { name = "agent-backend"; depends_on = "elasticsearch" ∷ []; criticality = "medium" }
      ∷ [];
  gitlab_project = none;
}

unfoldable pub add_platform : Option PlatformConfig → Platforms → Platforms
add_platform none platforms = platforms
add_platform (some config) platforms = insert config.name config platforms

-- the files in order; one that cannot be read or is not valid is skipped
unfoldable pub load_files : List File → Platforms → Platforms
unfolding add_platform validate_platform
load_files [] platforms = platforms
load_files (unreadable ∷ files) platforms = load_files files platforms
load_files (parsed raw ∷ files) platforms =
    load_files files (add_platform (validate_platform raw) platforms)

unfoldable pub seed_fallback : Platforms → Platforms
seed_fallback [] = (default_platform.name, default_platform) ∷ []
seed_fallback (p ∷ platforms) = p ∷ platforms

-- `load`, and `reload`; `none` is a directory that does not exist
unfoldable pub load : Option (List File) → Platforms
unfolding load_files seed_fallback
load none = seed_fallback []
load (some files) = seed_fallback (load_files files [])

unfoldable pub declares : String → List ServiceSpec → Bool
declares service [] = false
declares service (s ∷ services) = (s.name == service) || declares service services

unfoldable pub for_service : String → Platforms → Option PlatformConfig
unfolding declares
for_service service [] = none
for_service service ((name, config) ∷ platforms) =
    let rest = for_service service platforms in
    if declares service config.services then some config else rest

unfoldable pub first_platform : Platforms → Option PlatformConfig
first_platform [] = none
first_platform ((name, config) ∷ platforms) = some config

unfoldable pub or_next : Option PlatformConfig → Option PlatformConfig → Option PlatformConfig
or_next (some config) other = some config
or_next none other = other

-- a key that is `None` or empty finds nothing
unfoldable pub asked : (String → Option PlatformConfig) → Option String → Option PlatformConfig
asked find none = none
asked find (some key) = if key == "" then none else find key

-- `resolve`; `none` is the StopIteration of an empty registry
unfoldable pub resolve : Option String → Option String → Platforms → Option PlatformConfig
unfolding asked or_next for_service first_platform
resolve platform service platforms = or_next (asked (λ name. lookup name platforms) platform) (
    or_next (asked (λ name. for_service name platforms) service)
      (or_next (lookup "default" platforms) (first_platform platforms)))

unfoldable pub is_dry_run : PlatformConfig → String → Bool
is_dry_run config environment = contains config.dry_run_envs environment
