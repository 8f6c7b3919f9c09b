-- ===== src/Webhook.antt =====
-- agent-backend/app/api/v1/webhooks.py, with the helpers of integrations/gitlab.py: a failed pipeline of
-- GitLab or GitHub becomes a request for an analysis, which runs in the background. The JSON of the
-- body is a parameter; a field that is missing is the empty text, which the code takes for it.
pub mod Routed
pub mod Services
mod Tests
use text.Mathlib.Text.{starts_with}
use Prim.Native.String.{◌++◌}
use ai_devops_copilot.Base.{
  ℕ, String, ◌==◌, Bool, true, false, not, ◌&&◌, Option, none, some, List, [], ◌∷◌, map, contains,
  codes, is_infix, clip, length, ltb, if◌then◌else◌,
}
use ai_devops_copilot.Base.Words.{lowered, hyphenated, last_segment, without_prefix}
use ai_devops_copilot.Platforms.{PlatformConfig, Platforms, for_service}
use ai_devops_copilot.Platforms.Projects.{get_by_gitlab_project}
use ai_devops_copilot.Agent.{AnalysisRequest}

pub record Build : Type 0 where
  pub status : String
  pub name : String

pub record Workflow : Type 0 where
  pub conclusion : String
  pub repository : String
  pub head_sha : String

pub record Payload : Type 0 where
  pub object_kind : Option String
  pub status : String
  pub path_with_namespace : String
  pub project_name : String
  pub builds : List Build
  pub commit_id : String
  pub workflow_run : Option Workflow
  pub workflow_action : String

-- what the payload says has failed; the platform is the one that is known for it
pub record Failure : Type 0 where
  pub service : Option String
  pub platform : Option PlatformConfig
  pub project_path : String
  pub commit_sha : String

pub data Routing : Type 0 where
  skip : (reason : String) → Routing
  failure : Failure → Routing

pub record Accepted : Type 0 where
  pub service : String
  pub platform : String
  pub namespace : String
  pub commit_sha : String
  pub request : AnalysisRequest

-- 403, 400, an exception that nobody handles, the answer that nothing is done, and the answer to a
-- request that is analysed
pub data WebhookResponse : Type 0 where
  forbidden bad_request unhandled : WebhookResponse
  skipped : (reason : String) → WebhookResponse
  accepted : Accepted → WebhookResponse

unfoldable pub is_ascii : List ℕ → Bool
is_ascii [] = true
is_ascii (c ∷ cs) = ltb c 128 && is_ascii cs

-- `hmac.compare_digest` of two texts: its TypeError, where one of them is not ASCII, is `none`
unfoldable pub compare_digest : String → String → Option Bool
unfolding is_ascii
compare_digest a b = if is_ascii (codes a) && is_ascii (codes b) then some (a == b) else none

unfoldable pub text_or_empty : Option String → String
text_or_empty none = ""
text_or_empty (some text) = text

unfoldable pub verify_webhook_token : String → Option String → Option Bool
unfolding compare_digest text_or_empty
verify_webhook_token expected header =
    if expected == "" then some true else compare_digest expected (text_or_empty header)

abbrev pub stage_prefixes : List String
stage_prefixes = "test-" ∷ "build-" ∷ "push-" ∷ "deploy-" ∷ "lint-" ∷ "scan-" ∷ []

unfoldable pub without_stage : List String → String → String
without_stage [] name = name
without_stage (prefix ∷ prefixes) name =
    let rest = without_stage prefixes name in
    if starts_with prefix name then without_prefix (codes prefix) name else rest

-- the known services whose names the text contains
unfoldable pub named_in : String → List String → List String
named_in text [] = []
named_in text (service ∷ services) =
    let rest = named_in text services in
    if not (service == "") && is_infix (codes service) (codes text) then service ∷ rest else rest

-- `max(matches, key=len)`
unfoldable pub longest : String → List String → String
longest best [] = best
longest best (other ∷ others) =
    longest (if ltb (length (codes best)) (length (codes other)) then other else best) others

-- where no known service is named: the text itself, if no services are known
unfoldable pub unmatched : List String → String → Option String
unmatched [] text = if text == "" then none else some text
unmatched (service ∷ services) text = none

unfoldable pub best_match : List String → String → List String → Option String
unfolding longest unmatched
best_match known text [] = unmatched known text
best_match known text (service ∷ services) = some (longest service services)

unfoldable pub service_of_build : List String → Build → Option String
unfolding without_stage named_in best_match
service_of_build known build =
    let stripped = without_stage stage_prefixes (lowered build.name) in
    if contains known stripped
    then some stripped
    else best_match known stripped (named_in stripped known)

unfoldable pub is_failed : String → Bool
is_failed status = contains ("failed" ∷ "canceled" ∷ []) status

unfoldable pub or_service : Option String → Option String → Option String
or_service (some service) other = some service
or_service none other = other

-- the first failing build that gives a service
unfoldable pub service_of_builds : List String → List Build → Option String
unfolding service_of_build is_failed or_service
service_of_builds known [] = none
service_of_builds known (build ∷ builds) =
    let rest = service_of_builds known builds in
    if is_failed build.status then or_service (service_of_build known build) rest else rest

unfoldable pub service_of_project : String → Option String
service_of_project name =
    let candidate = last_segment (hyphenated (lowered name)) in
    if candidate == "" then none else some candidate

unfoldable pub extract_failing_service : Payload → List String → Option String
unfolding service_of_builds service_of_project or_service
extract_failing_service payload known =
    or_service (service_of_builds known payload.builds) (service_of_project payload.project_name)

-- `_gitlab_project_path`
unfoldable pub gitlab_project_path : Payload → String
gitlab_project_path payload =
    if payload.path_with_namespace == "" then payload.project_name else payload.path_with_namespace

-- `_extract_service_github`
unfoldable pub extract_service_github : Workflow → Option String
extract_service_github run =
    if run.repository == "" then none else some (hyphenated (lowered run.repository))

unfoldable pub service_names : Option PlatformConfig → List String
service_names none = []
service_names (some config) = map (λ s. s.name) config.services

unfoldable pub gitlab_failure : Platforms → Payload → String → Routing
unfolding gitlab_project_path service_names
gitlab_failure registry payload kind =
    let path = gitlab_project_path payload in
    let platform = get_by_gitlab_project path registry in
    if not (kind == "pipeline")
    then skip "not a pipeline event"
    else if not (is_failed payload.status)
    then skip ("pipeline status=" ++ payload.status)
    else failure (record {
      service = extract_failing_service payload (service_names platform);
      platform = platform;
      project_path = path;
      commit_sha = clip 8 payload.commit_id;
    })

unfoldable pub github_failure : Platforms → Payload → Workflow → Routing
unfolding text_or_empty
github_failure registry payload run =
    let service = extract_service_github run in
    if not (payload.workflow_action == "completed")
    then skip "workflow not completed yet"
    else if not (run.conclusion == "failure")
    then skip ("conclusion=" ++ run.conclusion)
    else failure (record {
      service = service;
      platform = for_service (text_or_empty service) registry;
      project_path = "";
      commit_sha = clip 8 run.head_sha;
    })

unfoldable pub without_kind : Platforms → Payload → Option Workflow → Routing
unfolding github_failure
without_kind registry payload none = skip "unrecognised webhook format"
without_kind registry payload (some run) = github_failure registry payload run

unfoldable pub with_kind : Platforms → Payload → Option String → Routing
unfolding gitlab_failure without_kind
with_kind registry payload none = without_kind registry payload payload.workflow_run
with_kind registry payload (some kind) = gitlab_failure registry payload kind

-- `text or None`
unfoldable pub text_or_none : String → Option String
text_or_none text = if text == "" then none else some text

unfoldable pub platform_name : Option PlatformConfig → String
platform_name none = ""
platform_name (some config) = config.name

unfoldable pub platform_namespace : Option PlatformConfig → String
platform_namespace none = ""
platform_namespace (some config) = config.namespace

unfoldable pub accept : String → Failure → WebhookResponse
unfolding text_or_none platform_name platform_namespace
accept service f =
    if service == ""
    then skipped "could not determine failing service from payload"
    else accepted (record {
      service = service;
      platform = platform_name f.platform;
      namespace = platform_namespace f.platform;
      commit_sha = f.commit_sha;
      request = record {
        service = service;
        environment = "dev";
        lookback_minutes = 15;
        platform = text_or_none (platform_name f.platform);
        namespace = text_or_none (platform_namespace f.platform);
        pod_name = none;
        k8s_events = [];
      };
    })

unfoldable pub answer : Routing → WebhookResponse
unfolding accept text_or_empty
answer (skip reason) = skipped reason
answer (failure f) = accept (text_or_empty f.service) f

unfoldable pub with_payload : Platforms → Option Payload → WebhookResponse
unfolding with_kind answer
with_payload registry none = bad_request
with_payload registry (some payload) = answer (with_kind registry payload payload.object_kind)

-- what is answered once the token has been looked at
unfoldable pub after_token : Option Bool → WebhookResponse → WebhookResponse
after_token none response = unhandled
after_token (some true) response = response
after_token (some false) response = forbidden

-- `handle_pipeline_failure`; the payload is `none` where the body is no JSON
unfoldable pub handle_pipeline_failure :
    String → Option String → Platforms → Option Payload → WebhookResponse
unfolding verify_webhook_token with_payload after_token
handle_pipeline_failure secret header registry payload =
    after_token (verify_webhook_token secret header) (with_payload registry payload)
