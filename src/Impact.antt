-- ===== src/Impact.antt =====
-- agent-backend/app/core/impact.py: whether an action has resolved the incident, as a queue of jobs
-- that a sweeper works off. Fetching and summarising the logs of a service is a parameter, as is the
-- environment's `sleep`. A task that the code starts is a function of its own, and the event that
-- stops the sweeper is left out: `run_sweeps` is a number of turns of its loop. A job has all its keys:
-- the three calls under the lease handle their exceptions themselves, so nothing else raises there.
pub mod Exclusion
mod Tests
use Prim.Native.String.{◌++◌}
use ai_devops_copilot.Base.{
  ℕ, zero, suc, String, ◌==◌, Bool, true, false, Option, none, some, List, [], ◌∷◌, if◌then◌else◌,
}
use ai_devops_copilot.Base.Effects.{Eff, Reply, ok, raised, ◌>>=◌, pure}
use ai_devops_copilot.World.{World, Incident, Job}
use ai_devops_copilot.Policy.{GlobalPolicy}
use ai_devops_copilot.MemoryStore.Incidents.{seconds, update}
use ai_devops_copilot.MemoryStore.Leases.{try_acquire_lease, release_lease}
use ai_devops_copilot.MemoryStore.Jobs.{
  enqueue_verification, claim_due_verifications, delete_verification_job,
}

-- `none` is a window without logs; what `summarize` makes of a window is read as its error ratio
pub record Logs (es : World) : Type 0 where
  pub error_ratio : String → String → ℕ → Eff es.State (Reply (Option es.floats.Real))
  pub sleep : ℕ → es.State → es.State

pub data Outcome : Type 0 where
  resolved partial unresolved : Outcome

unfoldable pub outcome_name : Outcome → String
outcome_name resolved = "resolved"
outcome_name partial = "partial"
outcome_name unresolved = "unresolved"

-- `{"outcome": outcome, "action_state": "verified"}`
unfoldable pub verified_as : Outcome → Incident → Incident
unfolding outcome_name
verified_as outcome doc = record doc { outcome = outcome_name outcome; action_state = "verified" }

abbrev pub sweep_interval : ℕ
sweep_interval = 30

-- Tells whether the job went into the queue; where it did not, the task is started.
unfoldable pub schedule_verification :
    (es : World)
    → (incident_id service environment : String) → es.floats.Real
    → ℕ
    → Eff es.State Bool
schedule_verification es incident_id service environment baseline delay_seconds =
    enqueue_verification es incident_id service environment baseline delay_seconds

module _ (es : World) (logs : Logs es) (policy : GlobalPolicy) where
  open es use {floats, State, hostname}
  open floats use {Real, lit, lt, times}

  unfoldable pub judge_ratio : Real → Reply (Option Real) → Outcome
  judge_ratio baseline (raised e) = unresolved
  judge_ratio baseline (ok none) = unresolved
  judge_ratio baseline (ok (some current)) =
      if lt current (lit 3 10)
      then resolved
      else if lt current (times baseline (lit 5 10))
      then partial
      else unresolved

  unfoldable pub verify_resolution : String → String → Real → ℕ → Eff State Outcome
  unfolding judge_ratio
  verify_resolution service environment baseline window_minutes s =
      let (reply, s1) = logs.error_ratio service environment window_minutes s in
      (judge_ratio baseline reply, s1)

  -- `_verify_and_update`
  unfoldable pub verify_and_update : String → String → String → Real → ℕ → Eff State (Unit {0})
  unfolding verify_resolution
  verify_and_update incident_id service environment baseline delay_seconds s =
      let (outcome, s1) =
        verify_resolution service environment baseline 2 (logs.sleep (seconds delay_seconds) s) in
      update es incident_id (verified_as outcome) s1

  -- what is done under the lease
  unfoldable pub verify_job : Job Real → Eff State (Unit {0})
  unfolding verify_resolution
  verify_job job = do
    outcome ← verify_resolution job.service job.environment job.baseline_error_ratio 2
    u ← update es job.incident_id (verified_as outcome)
    delete_verification_job es job.incident_id

  unfoldable pub under_lease : String → Eff State (Unit {0}) → Bool → Eff State (Unit {0})
  under_lease lease_id work false = pure tt
  under_lease lease_id work true = do u ← work; release_lease es lease_id hostname

  unfoldable pub process_one_verification : Job Real → Eff State (Unit {0})
  unfolding under_lease verify_job
  process_one_verification job =
      let lease_id = "verify:" ++ job.incident_id in
      let leased = (do
        acquired ← try_acquire_lease es lease_id hostname policy.lease_ttl_seconds
        under_lease lease_id (verify_job job) acquired) in
      if job.incident_id == "" then pure tt else leased

  unfoldable pub process_all : List (Job Real) → Eff State (Unit {0})
  unfolding process_one_verification
  process_all [] = pure tt
  process_all (job ∷ jobs) = do u ← process_one_verification job; process_all jobs

  unfoldable pub sweep : Eff State (Unit {0})
  unfolding process_all
  sweep = do jobs ← claim_due_verifications es 20; process_all jobs

  -- `run_verification_sweeper`
  unfoldable pub run_sweeps : ℕ → Eff State (Unit {0})
  unfolding sweep
  run_sweeps zero s = (tt, s)
  run_sweeps (suc turns) s =
      let (u, s1) = sweep s in run_sweeps turns (logs.sleep (seconds sweep_interval) s1)
