-- ===== src/Webhook/Tests.antt =====
-- A deployment of the shop that fails in GitLab.
use ai_devops_copilot.Base.{
  clip, strip, insert, is_infix, ◌≡◌, refl, ◌⊎◌, Option, none, some, List, [], ◌∷◌, contains,
  String,
}
use ai_devops_copilot.Platforms.{RawPlatform, File, parsed, load}
use ai_devops_copilot.Webhook.{
  is_failed, Payload, Accepted, accepted, handle_pipeline_failure, extract_failing_service,
}
use ai_devops_copilot.Webhook.Routed.{IsFailure, Asks, handle_pipeline_failure-Asks}
use ai_devops_copilot.Base.Words.{normalized}
use ai_devops_copilot.Platforms.Projects.{get_by_gitlab_project}

abbrev secret : String
secret = "secret"

abbrev shop : RawPlatform
shop = record {
  name = "shop";
  namespace = "shop-prod";
  environments = none;
  dry_run_envs = none;
  services =
      record { name = "auth"; depends_on = []; criticality = none }
      ∷ record { name = "auth-service"; depends_on = "redis" ∷ []; criticality = none }
      ∷ [];
  gitlab_project = some "Group/Shop";
}

abbrev files : Option (List File)
files = some (parsed shop ∷ [])

abbrev payload : Payload
payload = record {
  object_kind = some "pipeline";
  status = "failed";
  path_with_namespace = "group/shop";
  project_name = "shop";
  builds =
      record { status = "success"; name = "test-auth" }
      ∷ record { status = "failed"; name = "Deploy-auth-service-canary" }
      ∷ [];
  commit_id = "0123456789";
  workflow_run = none;
  workflow_action = "";
}

abbrev answered : Accepted
answered = record {
  service = "auth-service";
  platform = "shop";
  namespace = "shop-prod";
  commit_sha = "01234567";
  request = record {
    service = "auth-service";
    environment = "dev";
    lookback_minutes = 15;
    platform = some "shop";
    namespace = some "shop-prod";
    pod_name = none;
    k8s_events = [];
  };
}

is_accepted :
    handle_pipeline_failure "secret" (some "secret") (load files) (some payload) ≡ accepted answered
unfolding handle_pipeline_failure is_failed contains extract_failing_service get_by_gitlab_project
    load insert normalized strip is_infix clip
is_accepted = refl

handle_pipeline_failure-Asks_example :
    ((secret ≡ "") ⊎ (some secret ≡ some secret))
    × ((p : Payload) × (some payload ≡ some p) × IsFailure p × Asks files answered)
handle_pipeline_failure-Asks_example =
    handle_pipeline_failure-Asks files "secret" (some "secret") (some payload) answered is_accepted
