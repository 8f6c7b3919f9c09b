-- ===== src/Impact/Exclusion.antt =====
-- One replica verifies, the others leave the job alone.
use Prim.Native.String.{◌++◌}
use ai_devops_copilot.Base.{
  String, ◌==◌, ◌≡◌, refl, ◌∙◌, false, Bool, Option, some, ℕ, List, [], ◌∷◌,
}
use ai_devops_copilot.Base.Effects.{Eff, Reply, ok, raised, try_call}
use ai_devops_copilot.World.{World, Lease, Job, Hits, Incident}
use ai_devops_copilot.Policy.{GlobalPolicy}
use ai_devops_copilot.MemoryStore.Incidents.{update, update_found, has_id}
use ai_devops_copilot.MemoryStore.Leases.{try_acquire_lease, release_lease}
use ai_devops_copilot.MemoryStore.Leases.Exclusion.{IsLeaseStore}
use ai_devops_copilot.Impact.{Logs, process_one_verification, verify_job}

abbrev lease_of : String → String
lease_of incident_id = "verify:" ++ incident_id

-- What the verification relies on: none of its calls writes to the index of leases, and a deletion by
-- query leaves no document that matches it.
pub record Verifies (es : World) (logs : Logs es) (lease_at : es.State → String → Option Lease)
    : Type 0 where
  pub logs-keeps :
      (service environment : String) (minutes : ℕ) (s : es.State) (id : String)
      → lease_at (logs.error_ratio service environment minutes s).1 id ≡ lease_at s id
  pub search-keeps :
      (test : ℕ → Incident → Bool) (n : ℕ) (s : es.State) (id : String)
      → lease_at (es.search_incidents test n s).1 id ≡ lease_at s id
  pub update-keeps :
      (incident_id : String) (fields : Incident → Incident) (s : es.State) (id : String)
      → lease_at (es.update_incident incident_id fields s).1 id ≡ lease_at s id
  pub delete_job-keeps :
      (incident_id : String) (s : es.State) (id : String)
      → lease_at (es.delete_job incident_id s).1 id ≡ lease_at s id
  pub delete-removes :
      (s : es.State) (test : String → Lease → Bool) (id : String) (left : Lease)
      → lease_at (es.delete_leases test s).1 id ≡ some left
      → test id left ≡ false

module _ (es : World) (logs : Logs es) (policy : GlobalPolicy)
    (lease_at : es.State → String → Option Lease) (laws : IsLeaseStore es lease_at)
    (calls : Verifies es logs lease_at) (job : Job es.floats.Real) (s : es.State)
    (identified : (job.incident_id == "") ≡ false) where
  abbrev asked : es.State
  asked = (try_acquire_lease es (lease_of job.incident_id) es.hostname policy.lease_ttl_seconds s).1

  -- a call that may raise leaves what it leaves, whatever becomes of its answer
  tried :
      {A : Type 0} {B : Type 0} (view : es.State → B) (call : Eff es.State (Reply A)) (t : es.State)
      → view (try_call call (λ u. tt) (λ e. tt) t).1 ≡ view (call t).1
  tried view call t = go (call t)
    where
      go :
          {A : Type 0} (r : Reply A × es.State)
          → view (try_call (λ t'. r) (λ u. tt) (λ e. tt) t).1 ≡ view r.1
      go (ok x, t') = refl
      go (raised e, t') = refl

  after_call :
      {A : Type 0} (id : String) (call : Eff es.State (Reply A)) (t : es.State)
      → lease_at (call t).1 id ≡ lease_at t id
      → lease_at (try_call call (λ u. tt) (λ e. tt) t).1 id ≡ lease_at t id
  after_call id call t h = tried (λ u. lease_at u id) call t ∙ h

  update_found-keeps :
      (id : String) (fields : Incident → Incident) (found : Reply Hits) (t : es.State)
      → lease_at (update_found es fields found t).1 id ≡ lease_at t id
  unfolding update_found
  update_found-keeps id fields (raised e) t = refl
  update_found-keeps id fields (ok hits) t = go hits.sources
    where
      go :
          (docs : List Incident)
          → lease_at
              (update_found es fields (ok (record { total = hits.total; sources = docs })) t).1
              id
            ≡ lease_at t id
      go [] = refl
      go (doc ∷ docs) =
          after_call id (es.update_incident doc.incident_id fields) t
            (calls.update-keeps doc.incident_id fields t id)

  update-keeps :
      (id incident_id : String) (fields : Incident → Incident) (t : es.State)
      → lease_at (update es incident_id fields t).1 id ≡ lease_at t id
  unfolding update
  update-keeps id incident_id fields t =
      let (found, t1) = es.search_incidents (has_id incident_id) 1 t in
      update_found-keeps id fields found t1 ∙ calls.search-keeps (has_id incident_id) 1 t id

  -- what is true of the call where the lease was free
  abbrev pub Verified : Type 0
  Verified =
      let id = lease_of job.incident_id in
      let worked = (verify_job es logs policy job asked).1 in
      let after = process_one_verification es logs policy job s in
      (lease : Lease) × (lease.owner ≡ es.hostname)
      × (lease_at asked id ≡ some lease)
      × (lease_at worked id ≡ some lease)
      × (after ≡ release_lease es id es.hostname worked)
      × ((left : Lease) → lease_at after.1 id ≡ some left → (left.owner == es.hostname) ≡ false)
