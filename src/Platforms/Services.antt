-- ===== src/Platforms/Services.antt =====
-- agent-backend/app/platforms/service_registry.py: the services of all platforms as one list, and the
-- dependencies that they declare.
use ai_devops_copilot.Base.{
  String, ◌==◌, Option, none, some, List, [], ◌∷◌, ◌++◌, Dict, lookup, insert, sorted,
  if◌then◌else◌,
}
use ai_devops_copilot.Causality.{listed, union}
use ai_devops_copilot.Platforms.{ServiceSpec, PlatformConfig, Platforms, for_service}

unfoldable pub all_services : Platforms → List ServiceSpec
all_services [] = []
all_services ((name, config) ∷ platforms) = config.services ++ all_services platforms

-- `PlatformConfig.get_service`
unfoldable pub get_service : String → List ServiceSpec → Option ServiceSpec
get_service name [] = none
get_service name (service ∷ services) =
    let rest = get_service name services in if service.name == name then some service else rest

unfoldable pub or_spec : Option ServiceSpec → Option ServiceSpec → Option ServiceSpec
or_spec (some service) other = some service
or_spec none other = other

unfoldable pub find_service : String → Platforms → Option ServiceSpec
unfolding get_service or_spec
find_service name [] = none
find_service name ((key, config) ∷ platforms) =
    or_spec (get_service name config.services) (find_service name platforms)

-- `out[svc.name]` becomes the union of what it holds and `depends_on`, where there is any
unfoldable pub add_dependencies : ServiceSpec → Dict (List String) → Dict (List String)
add_dependencies service out = elim service.depends_on [
  | [] ↦ out
  | dep ∷ deps ↦
      insert service.name
        (sorted (union (union [] (listed (lookup service.name out))) (dep ∷ deps))) out
]

unfoldable pub add_all : List ServiceSpec → Dict (List String) → Dict (List String)
unfolding add_dependencies
add_all [] out = out
add_all (service ∷ services) out = add_all services (add_dependencies service out)

unfoldable pub add_platforms : Platforms → Dict (List String) → Dict (List String)
unfolding add_all
add_platforms [] out = out
add_platforms ((name, config) ∷ platforms) out =
    add_platforms platforms (add_all config.services out)

-- `dependency_map`
unfoldable pub declared_dependencies : Platforms → Dict (List String)
unfolding add_platforms
declared_dependencies platforms = add_platforms platforms []

unfoldable pub namespace_or : String → Option PlatformConfig → String
namespace_or default none = default
namespace_or default (some config) = config.namespace

-- `namespace_for`; `find_platform` is `for_service`
unfoldable pub namespace_for : String → String → Platforms → String
unfolding namespace_or
namespace_for service default platforms = namespace_or default (for_service service platforms)
