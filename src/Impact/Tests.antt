-- ===== src/Impact/Tests.antt =====
-- Two jobs: the lease of the first one is with another replica.
use ai_devops_copilot.Base.{ℕ, ◌+◌, refl, some, [], ◌∷◌}
use ai_devops_copilot.Base.Effects.{ok}
use ai_devops_copilot.Fixtures.{Db, memory}
use ai_devops_copilot.Fixtures.Leases.{lease_at, find-discarded}
use ai_devops_copilot.Fixtures.Requests.{quiet}
use ai_devops_copilot.World.{Lease, Job}
use ai_devops_copilot.MemoryStore.Leases.{try_acquire_lease}
use ai_devops_copilot.Impact.{Logs}
use ai_devops_copilot.Impact.Exclusion.{Verifies}

abbrev logs : Logs memory
logs = record {
  error_ratio = λ service environment minutes db. (ok (some 200), db);
  sleep = λ d db. record db { clock = db.clock + d };
}

abbrev theirs : Lease
theirs = record { owner = "pod-b"; expires_at = 60_000_000 }

abbrev busy : Db
busy = record quiet { leases = ("verify:i1", theirs) ∷ [] }

abbrev first : Job ℕ
first = record {
  incident_id = "i1";
  service = "shop";
  environment = "dev";
  baseline_error_ratio = 800;
  verify_after = 0;
}

abbrev calls : Verifies memory logs lease_at
calls = record {
  logs-keeps = λ service environment minutes db id. refl;
  search-keeps = λ test n db id. refl;
  update-keeps = λ incident_id fields db id. refl;
  delete_job-keeps = λ incident_id db id. refl;
  delete-removes = λ db test id left h. find-discarded test db.leases id left h;
}

abbrev asked_in : Db → Db
asked_in db = (try_acquire_lease memory "verify:i1" "pod-a" 60 db).1
