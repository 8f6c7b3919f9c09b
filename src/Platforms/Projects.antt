-- ===== src/Platforms/Projects.antt =====
-- agent-backend/app/platforms/registry.py: `get_by_gitlab_project`.
use Prim.Native.String.{◌++◌}
use ai_devops_copilot.Base.{
  String, ◌==◌, Bool, not, ◌&&◌, ◌||◌, Option, none, some, [], ◌∷◌, if◌then◌else◌,
}
use ai_devops_copilot.Base.Words.{normalized, ends_with, last_segment}
use ai_devops_copilot.Platforms.{PlatformConfig, Platforms}

unfoldable pub target_of : Option String → String
target_of none = normalized ""
target_of (some project) = normalized project

-- the same path, one below the other, or the same last part
unfoldable pub same_project : String → String → Bool
same_project target project =
    not (target == "")
    && ((target == project)
        || ends_with ("/" ++ project) target
        || ends_with ("/" ++ target) project
        || (last_segment target == last_segment project))

unfoldable pub with_project : String → Platforms → Option PlatformConfig
unfolding target_of same_project
with_project project [] = none
with_project project ((name, config) ∷ platforms) =
    let rest = with_project project platforms in
    if same_project (target_of config.gitlab_project) project then some config else rest

unfoldable pub get_by_gitlab_project : String → Platforms → Option PlatformConfig
unfolding with_project
get_by_gitlab_project project platforms =
    if project == "" then none else with_project (normalized project) platforms
