-- ===== src/Webhook/Routed.antt =====
-- What an accepted webhook asks for.
use mathlib.Core.Path.{subst}
use ai_devops_copilot.Base.{
  String, ◌==◌, ◌≡◌, refl, ap, ◌∙◌, ◌⊎◌, inl, inr, true, false, Option, none, some, List,
  Bool-cases, arith, eq_iff, sym, Bool, contains,
}
use ai_devops_copilot.Platforms.{PlatformConfig, File, load, resolve}
use ai_devops_copilot.Platforms.Named.{get_by_gitlab_project-resolve, for_service-resolve}
use ai_devops_copilot.Agent.{AnalysisRequest, namespace_of}
use ai_devops_copilot.Webhook.{
  Payload, Workflow, Failure, Routing, skip, failure, Accepted, accepted, WebhookResponse,
  after_token, compare_digest, verify_webhook_token, is_failed, gitlab_project_path,
  extract_service_github, gitlab_failure, github_failure, without_kind, with_kind, text_or_none,
  text_or_empty, platform_name, platform_namespace, accept, answer, with_payload,
  handle_pipeline_failure,
}

-- the payload reports a pipeline that has failed or was canceled, or a workflow that has failed
abbrev pub IsFailure : Payload → Type 0
IsFailure payload =
    ((payload.object_kind ≡ some "pipeline")
      × ((payload.status ≡ "failed") ⊎ (payload.status ≡ "canceled")))
    ⊎ ((payload.object_kind ≡ none)
        × (payload.workflow_action ≡ "completed")
        × ((run : Workflow) × (payload.workflow_run ≡ some run) × (run.conclusion ≡ "failure")))

-- the platform of a failure is the one that its name resolves to
abbrev IsKnown : Option (List File) → Failure → Type 0
IsKnown files f =
    (config : PlatformConfig) (service : Option String)
    → f.platform ≡ some config
    → (config.name == "") ≡ false
    → resolve (some config.name) service (load files) ≡ some config

abbrev Routes : Option (List File) → Payload → Routing → Type 0
Routes files payload (skip reason) = Unit
Routes files payload (failure f) = IsFailure payload × IsKnown files f

failed-or-canceled :
    (status : String) → is_failed status ≡ true → (status ≡ "failed") ⊎ (status ≡ "canceled")
unfolding is_failed contains
failed-or-canceled status h = elim (Bool-cases ("failed" == status)) [
  | inl e ↦ inl (sym ((eq_iff _ _).0 e))
  | inr e ↦ inr (sym ((eq_iff _ _).0 (ground (arith, h, e))))
]

gitlab_failure-Routes :
    (files : Option (List File)) (payload : Payload) (kind : String)
    → payload.object_kind ≡ some kind
    → Routes files payload (gitlab_failure (load files) payload kind)
unfolding gitlab_failure
gitlab_failure-Routes files payload kind e = elim (Bool-cases (kind == "pipeline")) [
  | inr other ↦ rw other tt
  | inl pipeline ↦ elim (Bool-cases (is_failed payload.status)) [
    | inr passed ↦ rw pipeline (rw passed tt)
    | inl failed ↦ rw pipeline (
        rw failed (
          inl (e ∙ ap some ((eq_iff _ _).0 pipeline), failed-or-canceled payload.status failed),
          λ config service found named.
              get_by_gitlab_project-resolve files (gitlab_project_path payload) config service found
                named,
        ))
  ]
]

github_failure-Routes :
    (files : Option (List File)) (payload : Payload) (run : Workflow)
    → payload.object_kind ≡ none
    → payload.workflow_run ≡ some run
    → Routes files payload (github_failure (load files) payload run)
unfolding github_failure
github_failure-Routes files payload run kind e =
    elim (Bool-cases (payload.workflow_action == "completed")) [
      | inr other ↦ rw other tt
      | inl completed ↦ elim (Bool-cases (run.conclusion == "failure")) [
        | inr passed ↦ rw completed (rw passed tt)
        | inl failed ↦ rw completed (
            rw failed (
              inr (kind, (eq_iff _ _).0 completed, (run, e, (eq_iff _ _).0 failed)),
              λ config service found named.
                  for_service-resolve files (text_or_empty (extract_service_github run)) config
                    service found named,
            ))
      ]
    ]

without_kind-Routes :
    (files : Option (List File)) (payload : Payload) (run : Option Workflow)
    → payload.object_kind ≡ none
    → payload.workflow_run ≡ run
    → Routes files payload (without_kind (load files) payload run)
unfolding without_kind
without_kind-Routes files payload none kind e = tt
without_kind-Routes files payload (some run) kind e = github_failure-Routes files payload run kind e

with_kind-Routes :
    (files : Option (List File)) (payload : Payload) (kind : Option String)
    → payload.object_kind ≡ kind
    → Routes files payload (with_kind (load files) payload kind)
unfolding with_kind
with_kind-Routes files payload none e =
    without_kind-Routes files payload payload.workflow_run e refl
with_kind-Routes files payload (some kind) e = gitlab_failure-Routes files payload kind e

-- the request asks for the service in the development environment, and either the failure has no
-- platform with a name, or the request is for that platform and its namespace
abbrev pub Asks : Option (List File) → Accepted → Type 0
Asks files a =
    ((a.service == "") ≡ false)
    × (a.request.service ≡ a.service)
    × (a.request.environment ≡ "dev")
    × ((a.platform ≡ "")
        ⊎ ((config : PlatformConfig) × (resolve a.request.platform (some a.request.service)
                (load files)
              ≡ some config)
            × (config.name ≡ a.platform)
            × (namespace_of config a.request ≡ config.namespace)))

abbrev Answered : Option (List File) → Payload → WebhookResponse → Type 0
Answered files payload (accepted a) = IsFailure payload × Asks files a
Answered files payload response = Unit

namespace_of-own :
    (config : PlatformConfig) (request : AnalysisRequest)
    → request.namespace ≡ text_or_none config.namespace
    → namespace_of config request ≡ config.namespace
unfolding namespace_of text_or_none
namespace_of-own config request e = elim (Bool-cases (config.namespace == "")) [
  | inl empty ↦ let none_given : request.namespace ≡ none = rw empty at e in rw none_given refl
  | inr full ↦
      let given : request.namespace ≡ some config.namespace = rw full at e in
      rw given (rw full refl)
]

platform-Asked :
    (files : Option (List File)) (platform : Option PlatformConfig) (request : AnalysisRequest)
    → ((config : PlatformConfig) (service : Option String)
        → platform ≡ some config
        → (config.name == "") ≡ false
        → resolve (some config.name) service (load files) ≡ some config)
    → request.platform ≡ text_or_none (platform_name platform)
    → request.namespace ≡ text_or_none (platform_namespace platform)
    → (platform_name platform ≡ "")
      ⊎ ((config : PlatformConfig) × (resolve request.platform (some request.service) (load files)
            ≡ some config)
          × (config.name ≡ platform_name platform)
          × (namespace_of config request ≡ config.namespace))
unfolding platform_name platform_namespace text_or_none
platform-Asked files none request known asked own = inl refl
platform-Asked files (some config) request known asked own = elim (Bool-cases (config.name == "")) [
  | inl e ↦ inl ((eq_iff _ _).0 e)
  | inr named ↦
      let given : request.platform ≡ some config.name = rw named at asked in
      inr (
        config,
        rw given (known config (some request.service) refl named),
        refl,
        namespace_of-own config request own,
      )
]

accept-Asks :
    (files : Option (List File)) (payload : Payload) (service : String) (f : Failure)
    → IsFailure payload
    → IsKnown files f
    → Answered files payload (accept service f)
unfolding accept
accept-Asks files payload service f failed known = elim (Bool-cases (service == "")) [
  | inl empty ↦ rw empty tt
  | inr full ↦
      rw full (failed, (full, refl, refl, platform-Asked files f.platform _ known refl refl))
]

answer-Asks :
    (files : Option (List File)) (payload : Payload) (routing : Routing)
    → Routes files payload routing
    → Answered files payload (answer routing)
unfolding answer
answer-Asks files payload (skip reason) h = tt
answer-Asks files payload (failure f) (failed, known) =
    accept-Asks files payload (text_or_empty f.service) f failed known

with_payload-Asks :
    (files : Option (List File)) (payload : Option Payload) (a : Accepted)
    → with_payload (load files) payload ≡ accepted a
    → (p : Payload) × (payload ≡ some p) × IsFailure p × Asks files a
unfolding with_payload
with_payload-Asks files none a e = absurd (ground arith)
with_payload-Asks files (some payload) a e =
    let answered =
      answer-Asks files payload (with_kind (load files) payload payload.object_kind)
        (with_kind-Routes files payload payload.object_kind refl) in
    let (failed, asks) = subst (Answered files payload) e answered in (payload, refl, failed, asks)

verify_webhook_token-IsSecret :
    (secret : String) (header : Option String)
    → verify_webhook_token secret header ≡ some true
    → (secret ≡ "") ⊎ (header ≡ some secret)
unfolding verify_webhook_token compare_digest text_or_empty
verify_webhook_token-IsSecret secret header h = elim (Bool-cases (secret == "")) [
  | inl e ↦ inl ((eq_iff _ _).0 e)
  | inr e ↦ go header (rw e at h)
]
  where
    go :
        (given : Option String)
        → compare_digest secret (text_or_empty given) ≡ some true
        → (secret ≡ "") ⊎ (given ≡ some secret)
    go none k = inl ((eq_iff _ _).0 (ground (arith, k)))
    go (some text) k = inr (ap some (sym ((eq_iff _ _).0 (ground (arith, k)))))

after_token-accepted :
    (token : Option Bool) (response : WebhookResponse) (a : Accepted)
    → after_token token response ≡ accepted a
    → (token ≡ some true) × (response ≡ accepted a)
unfolding after_token
after_token-accepted none response a e = absurd (ground arith)
after_token-accepted (some true) response a e = (refl, e)
after_token-accepted (some false) response a e = absurd (ground arith)

-- A webhook is only accepted where the secret is empty or is what the header gives, and where its
-- payload reports a pipeline that has failed or was canceled, or a workflow that has failed. The
-- analysis that it starts is for the service of the answer, in the development environment; where
-- the answer names a platform, that platform of the loaded registry is the one the analysis resolves
-- to, with its namespace.
pub handle_pipeline_failure-Asks :
    (files : Option (List File)) (secret : String) (header : Option String)
    (payload : Option Payload) (a : Accepted)
    → handle_pipeline_failure secret header (load files) payload ≡ accepted a
    → ((secret ≡ "") ⊎ (header ≡ some secret))
      × ((p : Payload) × (payload ≡ some p) × IsFailure p × Asks files a)
unfolding handle_pipeline_failure
handle_pipeline_failure-Asks files secret header payload a e =
    let (verified, routed) =
      after_token-accepted (verify_webhook_token secret header) (with_payload (load files) payload)
        a e in
    (verify_webhook_token-IsSecret secret header verified, with_payload-Asks files payload a routed)
