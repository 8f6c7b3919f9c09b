-- ===== src/Cluster.antt =====
-- What the executor and the rollback run on: the memory store of World, `subprocess.run` of a
-- kubectl command, the monotonic clock, `asyncio.sleep`, and the json module. They are parameters.
-- Times count microseconds.
use ai_devops_copilot.Base.{ℕ, String, Option, List, Dict}
use ai_devops_copilot.Base.Effects.{Eff}
use ai_devops_copilot.World.{World}

-- how `subprocess.run` ends: with a return code, or with one of the exceptions that are caught
pub data Run : Type 0 where
  completed : (returncode : ℕ) → (stdout stderr : String) → Run
  not_found timed_out : Run
  raised : (text : String) → Run

-- the JSON of a Deployment, by the parts that the program reads or removes; a missing key is `none`
pub record Manifest : Type 0 where
  pub replicas : Option ℕ
  pub images : List (Option String)
  pub ready_replicas : Option ℕ
  pub metadata : Dict String
  pub annotations : Dict String
  pub rest : String

pub record Cluster : Type 1 where
  pub es : World
  pub kubectl : List String → Option String → Eff es.State Run
  pub monotonic : Eff es.State ℕ
  pub sleep : ℕ → es.State → es.State
  pub isoformat : Eff es.State String
  pub loads : String → Option Manifest
  pub dumps : Manifest → String
