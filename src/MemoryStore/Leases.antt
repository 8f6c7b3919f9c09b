-- ===== src/MemoryStore/Leases.antt =====
-- agent-backend/app/services/memory_store.py: execution leases.
pub mod Exclusion
mod Tests
use ai_devops_copilot.Base.{
  ℕ, ◌+◌, ◌-◌, String, ◌==◌, Bool, true, false, ◌&&◌, ◌||◌, Option, none, some, List, [], ◌∷◌,
  lower, is_infix, codes, ltb, if◌then◌else◌,
}
use ai_devops_copilot.Base.Effects.{Eff, Reply, ok, raised, pure, ◌>>=◌, try_call}
use ai_devops_copilot.World.{World, Lease, UpdateResult, updated, noop}
use ai_devops_copilot.MemoryStore.Incidents.{seconds}
use ai_devops_copilot.MemoryStore.Locks.{is_conflict}

-- `"404" in msg or "not_found" in msg`
unfoldable pub is_missing : String → Bool
unfolding lower is_infix
is_missing message =
    is_infix (codes "404") (lower message) || is_infix (codes "not_found") (lower message)

-- the script of `renew_lease`; `none` is `ctx.op = 'noop'`
unfoldable pub renew_script : String → ℕ → Lease → Option Lease
renew_script owner new_expires lease =
    if lease.owner == owner then some (record lease { expires_at = new_expires }) else none

-- the query of `release_lease`, with `owner` as a field that is matched whole
unfoldable pub held_by : String → String → String → Lease → Bool
held_by lease_id owner id lease = (id == lease_id) && (lease.owner == owner)

unfoldable pub expired_before : ℕ → Lease → Bool
expired_before cutoff lease = ltb lease.expires_at cutoff

abbrev renewed : UpdateResult → Bool
renewed updated = true
renewed noop = false

module _ (es : World) where
  open es use {State, now, create_lease, update_lease, delete_leases, search_leases}

  unfoldable pub try_acquire_lease : String → String → ℕ → Eff State Bool
  try_acquire_lease lease_id owner ttl_seconds = do
    t ← now
    try_call
        (create_lease lease_id (record { owner = owner; expires_at = t + seconds ttl_seconds }))
        (λ u. true) (λ e. if is_conflict e then false else true)

  unfoldable pub renew_lease : String → String → ℕ → Eff State Bool
  renew_lease lease_id owner ttl_seconds = do
    t ← now
    try_call (update_lease lease_id (renew_script owner (t + seconds ttl_seconds))) renewed
        (λ e. if is_missing e then false else true)

  unfoldable pub release_lease : String → String → Eff State (Unit {0})
  release_lease lease_id owner =
      try_call (delete_leases (held_by lease_id owner)) (λ u. tt) (λ e. tt)

  recover_found : ℕ → Reply (List String) → Eff State (List String)
  recover_found cutoff (ok []) = pure []
  recover_found cutoff (ok (id ∷ ids)) =
      try_call (delete_leases (λ i lease. expired_before cutoff lease)) (λ u. id ∷ ids) (λ e. [])
  recover_found cutoff (raised e) = pure []

  -- finds the leases whose time ran out `older_than` ago, and deletes them
  unfoldable pub recover_orphaned_leases : ℕ → Eff State (List String)
  unfolding recover_found
  recover_orphaned_leases older_than = do
    t ← now
    found ← search_leases (expired_before (t - seconds older_than)) 100
    recover_found (t - seconds older_than) found
