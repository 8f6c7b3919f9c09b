-- ===== src/Platforms/Dependencies.antt =====
-- Which dependencies the merged map holds: those of the static map and those that a platform declares.
use ai_devops_copilot.Base.{String, ◌==◌, Bool, false, ◌&&◌, ◌||◌, List, [], ◌∷◌, Dict, contains}
use ai_devops_copilot.Platforms.{ServiceSpec, Platforms}

-- whether one of the services has the name and lists the dependency
unfoldable pub declares_dependency : String → String → List ServiceSpec → Bool
declares_dependency name dep [] = false
declares_dependency name dep (service ∷ services) =
    ((service.name == name) && contains service.depends_on dep)
    || declares_dependency name dep services

-- whether one of the platforms declares it
unfoldable pub needs : String → String → Platforms → Bool
unfolding declares_dependency
needs name dep [] = false
needs name dep ((key, config) ∷ platforms) =
    declares_dependency name dep config.services || needs name dep platforms

-- whether an entry of a map has the key and lists the dependency
unfoldable pub holds : String → String → Dict (List String) → Bool
holds name dep [] = false
holds name dep ((key, deps) ∷ map) = ((key == name) && contains deps dep) || holds name dep map
