-- ===== src/Webhook/Services.antt =====
-- Which service a failed pipeline of GitLab is about.
use ai_devops_copilot.Base.{
  All, String, ◌≡◌, ◌⊎◌, true, Option, none, some, List, [], ◌∷◌, contains, codes, is_infix,
}
use ai_devops_copilot.Base.Words.{lowered}
use ai_devops_copilot.Webhook.{Build, stage_prefixes, without_stage}

-- what `_extract_failing_service` compares with the known services
abbrev pub text_of : Build → String
text_of build = without_stage stage_prefixes (lowered build.name)

abbrev pub HasFailed : Build → Type 0
HasFailed build = (build.status ≡ "failed") ⊎ (build.status ≡ "canceled")

abbrev pub Inside : String → String → Type 0
Inside service text = is_infix (codes service) (codes text) ≡ true

-- a known service that the text is, or has in it
abbrev pub Named : List String → String → String → Type 0
Named known text service =
    (contains known service ≡ true) × ((text ≡ service) ⊎ Inside service text)

-- one of the builds has failed and names the service
abbrev pub NamedIn : List String → List Build → String → Type 0
NamedIn known [] service = ⊥
NamedIn known (build ∷ builds) service =
    (HasFailed build × Named known (text_of build) service) ⊎ NamedIn known builds service

-- none of the services has a name that the text has in it
abbrev pub NamesNone : String → List String → Type 0
NamesNone text services = All (λ service. Inside service text → service ≡ "") services

abbrev pub NoneNamed : List String → List Build → Type 0
NoneNamed known builds = All (λ build. HasFailed build → NamesNone (text_of build) known) builds

-- what an answer says of the text
abbrev Answers : List String → String → Option String → Type 0
Answers known text none = NamesNone text known
Answers known text (some service) = Named known text service

-- what an answer says of the builds
abbrev AnswersAll : List String → List Build → Option String → Type 0
AnswersAll known builds none = NoneNamed known builds
AnswersAll known builds (some service) = NamedIn known builds service
