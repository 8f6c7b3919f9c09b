-- ===== src/MemoryStore/Jobs.antt =====
-- agent-backend/app/services/memory_store.py: the queue of verification jobs.
use ai_devops_copilot.Base.{ℕ, ◌+◌, String, Bool, true, false, List, [], leb}
use ai_devops_copilot.Base.Effects.{Eff, ◌>>=◌, try_call}
use ai_devops_copilot.World.{World, Job}
use ai_devops_copilot.MemoryStore.Incidents.{seconds}

module _ (es : World) where
  open es use {floats, State, now, index_job, search_jobs, delete_job}

  unfoldable pub due : ℕ → Job floats.Real → Bool
  due now_unix job = leb job.verify_after now_unix

  unfoldable pub enqueue_verification : String → String → String → floats.Real → ℕ → Eff State Bool
  enqueue_verification incident_id service environment ratio delay_seconds = do
    t ← now
    try_call
        (index_job incident_id (record {
          incident_id = incident_id;
          service = service;
          environment = environment;
          baseline_error_ratio = ratio;
          verify_after = t + seconds delay_seconds;
        }))
        (λ u. true) (λ e. false)

  unfoldable pub claim_due_verifications : ℕ → Eff State (List (Job floats.Real))
  unfolding due
  claim_due_verifications limit = do
    t ← now
    try_call (search_jobs (due t) limit) (λ jobs. jobs) (λ e. [])

  unfoldable pub delete_verification_job : String → Eff State (Unit {0})
  delete_verification_job incident_id = try_call (delete_job incident_id) (λ u. tt) (λ e. tt)
