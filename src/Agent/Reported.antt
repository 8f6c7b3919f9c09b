-- ===== src/Agent/Reported.antt =====
-- What is true of everything that `settle` reports is true of everything that `run_analysis` reports.
use mathlib.Core.Path.{subst}
use ai_devops_copilot.Base.{◌≡◌, Option, none, some, List, [], ◌∷◌}
use ai_devops_copilot.Policy.{Policy}
use ai_devops_copilot.Platforms.{PlatformConfig, resolve}
use ai_devops_copilot.LogProcessor.{Log}
use ai_devops_copilot.Agent.{
  Backend, AnalysisRequest, Evidence, Globals, Report, AnalysisResult, no_platform, no_logs,
  analysed, namespace_of, with_events,
}
use ai_devops_copilot.Agent.Pipeline.{settle, with_logs, on_platform, run_analysis}

abbrev pub Reports :
    {R S : Type 0} → (Report R → Globals R → S → Type 0) → AnalysisResult R → Globals R → S → Type 0
Reports P no_platform globals s = Unit
Reports P no_logs globals s = Unit
Reports P (analysed report) globals s = P report globals s

module _ (backend : Backend) (policy : Policy) (req : AnalysisRequest) where
  open backend use {cluster}
  open cluster use {es}
  open es use {State, floats}

  with_logs-Reports :
      (P : Report floats.Real → Globals floats.Real → State → Type 0)
      → ((evidence : Evidence floats.Real) (globals : Globals floats.Real) (s : State)
          → let (settled, s') = settle backend policy req evidence globals s in
            P settled.0 settled.1 s')
      → (platform : PlatformConfig) (logs : List Log) (globals : Globals floats.Real) (s : State)
      → let (settled, s') = with_logs backend policy req platform logs globals s in
        Reports P settled.0 settled.1 s'
  unfolding with_logs
  with_logs-Reports P settled platform [] globals s = tt
  with_logs-Reports P settled platform (log ∷ logs) globals s = settled _ globals s

  on_platform-Reports :
      (P : Report floats.Real → Globals floats.Real → State → Type 0)
      → ((evidence : Evidence floats.Real) (globals : Globals floats.Real) (s : State)
          → let (settled, s') = settle backend policy req evidence globals s in
            P settled.0 settled.1 s')
      → (platform : Option PlatformConfig) (globals : Globals floats.Real) (s : State)
      → let (settled, s') = on_platform backend policy req platform globals s in
        Reports P settled.0 settled.1 s'
  unfolding on_platform
  on_platform-Reports P settled none globals s = tt
  on_platform-Reports P settled (some platform) globals s =
      let (logs, s1) = backend.fetch_logs platform (namespace_of platform req) req s in
      with_logs-Reports P settled platform
        (with_events backend.k8s_events_as_evidence req.k8s_events logs) globals s1

  pub run_analysis-Reports :
      (P : Report floats.Real → Globals floats.Real → State → Type 0)
      → ((evidence : Evidence floats.Real) (globals : Globals floats.Real) (s : State)
          → let (settled, s') = settle backend policy req evidence globals s in
            P settled.0 settled.1 s')
      → (globals : Globals floats.Real) (s : State) (report : Report floats.Real)
      → (run_analysis backend policy req globals s).0.0 ≡ analysed report
      → P report
          (run_analysis backend policy req globals s).0.1
          (run_analysis backend policy req globals s).1
  unfolding run_analysis
  run_analysis-Reports P settled globals s report e =
      let ((result, globals'), s') = run_analysis backend policy req globals s in
      subst (λ r. Reports P r globals' s') e
        (on_platform-Reports P settled (resolve req.platform (some req.service) backend.registry)
          globals s)
