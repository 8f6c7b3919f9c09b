-- ===== src/Platforms/Tests.antt =====
-- Two files, one of which cannot be read; the other one names dry runs that it has no environment for.
use ai_devops_copilot.Base.{
  strip, ◌≡◌, refl, Option, none, some, List, [], ◌∷◌, contains, lookup, insert,
}
use ai_devops_copilot.Platforms.{
  PlatformConfig, RawPlatform, File, unreadable, parsed, validate_service, cons_both,
  validate_services, or_list, first_of, common, validate_environments, validate_dry_run,
  with_services, validate_platform, add_platform, load_files, seed_fallback, load, for_service,
  declares, first_platform, or_next, asked, resolve,
}
use ai_devops_copilot.Platforms.Validation.{IsValid}
use ai_devops_copilot.Platforms.Usable.{load-resolve}
use ai_devops_copilot.Platforms.Projects.{get_by_gitlab_project}
use ai_devops_copilot.Base.Words.{last_segment, ends_with, normalized}

abbrev spyroom : RawPlatform
spyroom = record {
  name = "spyroom";
  namespace = "spy";
  environments = some ("production" ∷ []);
  dry_run_envs = some ("staging" ∷ []);
  services = record { name = "room"; depends_on = []; criticality = some "high" } ∷ [];
  gitlab_project = some "group/room-service";
}

abbrev files : Option (List File)
files = some (unreadable ∷ parsed spyroom ∷ [])

abbrev config : PlatformConfig
config = record {
  name = "spyroom";
  namespace = "spy";
  environments = "production" ∷ [];
  dry_run_envs = "production" ∷ [];
  services = record { name = "room"; depends_on = []; criticality = "high" } ∷ [];
  gitlab_project = some "group/room-service";
}

-- a service that no platform declares goes to the first platform
unknown_service : resolve none (some "shop") (load files) ≡ some config
unfolding validate_service cons_both validate_services or_list first_of common validate_environments
    validate_dry_run with_services validate_platform add_platform load_files seed_fallback load
    for_service declares first_platform or_next asked resolve contains lookup insert
unknown_service = refl

load-resolve_example :
    (config : PlatformConfig) × (resolve (some "nobody") (some "room") (load files) ≡ some config)
    × IsValid config
load-resolve_example = load-resolve files (some "nobody") (some "room")

find_by_project : get_by_gitlab_project "Group/Room" (load files) ≡ none
unfolding get_by_gitlab_project load contains insert normalized strip ends_with last_segment
find_by_project = refl
