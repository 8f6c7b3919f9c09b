-- ===== src/MemoryStore/Leases/Tests.antt =====
-- The lease laws on the store in memory.
use ai_devops_copilot.Base.{◌≡◌, refl, false, some, List, [], ◌∷◌, All}
use ai_devops_copilot.Fixtures.{Db, memory, find}
use ai_devops_copilot.Fixtures.Leases.{lease_at, memory-IsLeaseStore}
use ai_devops_copilot.World.{Lease}
use ai_devops_copilot.MemoryStore.Leases.Exclusion.{
  LeaseCall, acquire, renew, release, perform_all, perform_all-Rivals,
}

abbrev job : Lease
job = record { owner = "pod-a"; expires_at = 60_000_000 }

abbrev empty : Db
empty = record { clock = 0; incidents = []; locks = []; leases = []; jobs = [] }

abbrev busy : Db
busy = record empty { leases = ("job", job) ∷ [] }

abbrev rivals : List LeaseCall
rivals = acquire "pod-b" 60 ∷ renew "pod-b" 60 ∷ release "pod-c" ∷ []

perform_all-Rivals_example :
    All (λ answer. answer ≡ false) (perform_all memory "job" rivals busy).0
    × (lease_at (perform_all memory "job" rivals busy).1 "job" ≡ some job)
unfolding find
perform_all-Rivals_example =
    perform_all-Rivals memory "job" lease_at memory-IsLeaseStore rivals job busy
      (refl, (refl, (refl, tt))) refl
