-- ===== src/MemoryStore/Leases/Exclusion.antt =====
-- What the lease calls promise to the holder of a lease, on a store that answers.
use ai_devops_copilot.Base.{
  ℕ, ◌+◌, String, ◌==◌, ◌≡◌, refl, ◌∙◌, Bool, true, false, Option, none, some, List, [], ◌∷◌, All,
  eq_refl,
}
use ai_devops_copilot.Base.Effects.{Eff, ok, raised, pure, ◌>>=◌}
use ai_devops_copilot.World.{World, Lease, noop}
use ai_devops_copilot.MemoryStore.Incidents.{seconds}
use ai_devops_copilot.MemoryStore.Locks.{is_conflict}
use ai_devops_copilot.MemoryStore.Leases.{
  held_by, renew_script, try_acquire_lease, renew_lease, release_lease,
}

-- What the code relies on: creating a document under an id that is taken is answered by a conflict
-- and creates nothing, an update whose script does nothing is answered by `noop`, and a deletion by
-- query spares the documents that do not match it.
pub record IsLeaseStore (es : World) (lease_at : es.State → String → Option Lease) : Type 0 where
  pub now-keeps : (s : es.State) (id : String) → lease_at (es.now s).1 id ≡ lease_at s id
  pub create-free :
      (s : es.State) (id : String) (lease : Lease)
      → lease_at s id ≡ none
      → ((es.create_lease id lease s).0 ≡ ok tt)
        × (lease_at (es.create_lease id lease s).1 id ≡ some lease)
  pub create-held :
      (s : es.State) (id : String) (lease held : Lease)
      → lease_at s id ≡ some held
      → (message : String) × ((es.create_lease id lease s).0 ≡ raised message)
        × (is_conflict message ≡ true)
        × (lease_at (es.create_lease id lease s).1 id ≡ some held)
  pub update-noop :
      (s : es.State) (id : String) (script : Lease → Option Lease) (held : Lease)
      → lease_at s id ≡ some held
      → script held ≡ none
      → ((es.update_lease id script s).0 ≡ ok noop)
        × (lease_at (es.update_lease id script s).1 id ≡ some held)
  pub delete-spares :
      (s : es.State) (test : String → Lease → Bool) (id : String) (held : Lease)
      → lease_at s id ≡ some held
      → test id held ≡ false
      → lease_at (es.delete_leases test s).1 id ≡ some held

pub data LeaseCall : Type 0 where
  acquire renew : (owner : String) → (ttl_seconds : ℕ) → LeaseCall
  release : (owner : String) → LeaseCall

abbrev pub caller : LeaseCall → String
caller (acquire owner ttl) = owner
caller (renew owner ttl) = owner
caller (release owner) = owner

module _ (es : World) (lease_id : String) where
  -- whether the caller may go on; a release says nothing, and counts as no
  unfoldable pub perform : LeaseCall → Eff es.State Bool
  perform (acquire owner ttl) = try_acquire_lease es lease_id owner ttl
  perform (renew owner ttl) = renew_lease es lease_id owner ttl
  perform (release owner) = do released ← release_lease es lease_id owner; pure false

  unfoldable pub perform_all : List LeaseCall → Eff es.State (List Bool)
  perform_all [] = pure []
  perform_all (call ∷ calls) = do
    answer ← perform call
    answers ← perform_all calls
    pure (answer ∷ answers)

  module _ (lease_at : es.State → String → Option Lease) (laws : IsLeaseStore es lease_at) where
    -- On a store that keeps its promises, a lease that is not there goes to the one that asks for it.
    pub try_acquire_lease-Free :
        (owner : String) (ttl : ℕ) (s : es.State)
        → lease_at s lease_id ≡ none
        → let (got, s') = try_acquire_lease es lease_id owner ttl s in
          (got ≡ true)
          × (lease : Lease) × (lease_at s' lease_id ≡ some lease)
          × (lease.owner ≡ owner)
    unfolding try_acquire_lease
    try_acquire_lease-Free owner ttl s free =
        let t = es.now s in
        let lease : Lease = record { owner = owner; expires_at = t.0 + seconds ttl } in
        let (fine, made) = laws.create-free t.1 lease_id lease (laws.now-keeps s lease_id ∙ free) in
        (rw fine, lease, made, refl)

    -- a call of somebody else is refused, and leaves the lease
    perform-Rival :
        (call : LeaseCall) (held : Lease) (s : es.State)
        → (held.owner == caller call) ≡ false
        → lease_at s lease_id ≡ some held
        → ((perform call s).0 ≡ false) × (lease_at (perform call s).1 lease_id ≡ some held)
    unfolding perform try_acquire_lease renew_lease release_lease renew_script held_by
    perform-Rival (acquire owner ttl) held s ne at =
        let t = es.now s in
        let (message, refused, conflict, kept) =
          laws.create-held t.1 lease_id (record { owner = owner; expires_at = t.0 + seconds ttl })
            held (laws.now-keeps s lease_id ∙ at) in
        (rw (refused, conflict), kept)
    perform-Rival (renew owner ttl) held s ne at =
        let t = es.now s in
        let (answer, kept) =
          laws.update-noop t.1 lease_id (renew_script owner (t.0 + seconds ttl)) held
            (laws.now-keeps s lease_id ∙ at) (rw ne) in
        (rw answer, kept)
    perform-Rival (release owner) held s ne at = (
      refl,
      laws.delete-spares s (held_by lease_id owner) lease_id held at (rw (eq_refl lease_id, ne)),
    )

    -- On a store that keeps its promises, as long as a lease is there, calls of others, in any number and order, are all answered with
    -- no, and the lease stays as it is.
    pub perform_all-Rivals :
        (calls : List LeaseCall) (held : Lease) (s : es.State)
        → All (λ call. (held.owner == caller call) ≡ false) calls
        → lease_at s lease_id ≡ some held
        → let (answers, s') = perform_all calls s in
          All (λ answer. answer ≡ false) answers × (lease_at s' lease_id ≡ some held)
    unfolding perform_all
    perform_all-Rivals [] held s rivals at = (tt, at)
    perform_all-Rivals (call ∷ calls) held s rivals at =
        let (refused, kept) = perform-Rival call held s rivals.0 at in
        let (all_refused, kept') = perform_all-Rivals calls held (perform call s).1 rivals.1 kept in
        ((refused, all_refused), kept')
