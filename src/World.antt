-- ===== src/World.antt =====
-- What the code runs on and does not implement: the Elasticsearch client and the clock that
-- agent-backend/app/services/memory_store.py calls, and Python's floats. They are a parameter:
-- operations, each of which answers or raises, on a state that other processes may change too. A
-- query body is the condition that it puts on a document (with the server's `now`), and a script is
-- the change that it makes. Times count microseconds.
use ai_devops_copilot.Base.{ℕ, String, Bool, Option, List}
use ai_devops_copilot.Base.Effects.{Reply, Eff}

-- a document of `devops-incidents-*`, with the fields that the program reads back
pub record Incident : Type 0 where
  pub incident_id : String
  pub timestamp : ℕ
  pub service : String
  pub environment : String
  pub error_type : String
  pub severity : String
  pub proposed_type : String
  pub action_state : String
  pub outcome : String
  pub incident_chain_id : Option String
  pub upstream_incident_id : Option String
  pub cascade_depth : Option ℕ
  pub cascade_path : List String

pub record Hits : Type 0 where
  pub total : ℕ
  pub sources : List Incident

-- a document of `devops-action-locks`
pub record Lock : Type 0 where
  pub service : String
  pub action_type : String
  pub expires_at : ℕ
  pub owner : String

-- a document of `devops-leases`
pub record Lease : Type 0 where
  pub owner : String
  pub expires_at : ℕ

-- a document of `devops-pending-verifications`; `R` is the type of floats
pub record Job (R : Type 0) : Type 0 where
  pub incident_id : String
  pub service : String
  pub environment : String
  pub baseline_error_ratio : R
  pub verify_after : ℕ

-- `resp["result"]` of an update
pub data UpdateResult : Type 0 where
  updated noop : UpdateResult

-- Comparisons are given one by one, since on a NaN `a >= b` is not the negation of `a < b`.
-- `lit n d` is the literal n / d.
pub record Floats : Type 1 where
  pub Real : Type 0
  pub lit : ℕ → ℕ → Real
  pub lt : Real → Real → Bool
  pub ge : Real → Real → Bool
  pub minus : Real → Real → Real
  pub times : Real → Real → Real
  pub over : Real → Real → Real

pub record World : Type 1 where
  pub floats : Floats
  pub State : Type 0
  pub hostname : String
  pub sha256_hex : String → String
  pub now : Eff State ℕ
  pub search_incidents : (ℕ → Incident → Bool) → ℕ → Eff State (Reply Hits)
  pub count_incidents : (ℕ → Incident → Bool) → Eff State (Reply ℕ)
  pub update_incident : String → (Incident → Incident) → Eff State (Reply (Unit {0}))
  pub create_lock : String → Lock → Eff State (Reply (Unit {0}))
  pub delete_lock : String → Eff State (Reply (Unit {0}))
  pub create_lease : String → Lease → Eff State (Reply (Unit {0}))
  pub update_lease : String → (Lease → Option Lease) → Eff State (Reply UpdateResult)
  pub delete_leases : (String → Lease → Bool) → Eff State (Reply (Unit {0}))
  pub search_leases : (Lease → Bool) → ℕ → Eff State (Reply (List String))
  pub index_job : String → Job floats.Real → Eff State (Reply (Unit {0}))
  pub search_jobs : (Job floats.Real → Bool) → ℕ → Eff State (Reply (List (Job floats.Real)))
  pub delete_job : String → Eff State (Reply (Unit {0}))
