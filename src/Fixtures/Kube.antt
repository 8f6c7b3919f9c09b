-- ===== src/Fixtures/Kube.antt =====
-- A kubectl whose commands all succeed, on a deployment of two replicas of which `ready` are up,
-- and a clock that only sleeping moves.
use ai_devops_copilot.Base.{ℕ, ◌+◌, String, ◌≡◌, refl, Option, none, some, [], ◌∷◌, arith}
use ai_devops_copilot.World.{Lease}
use ai_devops_copilot.Fixtures.{Db, memory, find, update_in, write_in}
use ai_devops_copilot.Cluster.{Cluster, completed, Manifest}
use ai_devops_copilot.Rollback.Waiting.{IsClock}

abbrev pub empty : Db
empty = record { clock = 0; incidents = []; locks = []; leases = []; jobs = [] }

abbrev pub shop : ℕ → Manifest
shop ready = record {
  replicas = some 2;
  images = some "shop:1" ∷ [];
  ready_replicas = some ready;
  metadata = ("uid", "u1") ∷ ("name", "shop") ∷ [];
  annotations = [];
  rest = "";
}

-- every command succeeds
abbrev pub kube : ℕ → Cluster
kube ready = record {
  es = memory;
  kubectl = λ args stdin db. (completed 0 "out" "", db);
  monotonic = λ db. (db.clock, db);
  sleep = λ d db. record db { clock = db.clock + d };
  isoformat = λ db. ("now", db);
  loads = λ text. some (shop ready);
  dumps = λ spec. "spec";
}

abbrev pub clock_at : Db → ℕ
clock_at db = db.clock

update_in-clock :
    (db : Db) (id : String) (script : Lease → Option Lease) (held : Option Lease)
    → clock_at (update_in db id script held).1 ≡ clock_at db
unfolding update_in write_in
update_in-clock db id script none = refl
update_in-clock db id script (some lease) = ground arith

pub kube-IsClock : (ready : ℕ) → IsClock (kube ready) clock_at
kube-IsClock ready = record {
  read = λ s. refl;
  monotonic-le = λ s. omega arith;
  kubectl-le = λ args stdin s. omega arith;
  now-le = λ s. omega arith;
  update_lease-le = λ id script s. omega (arith, update_in-clock s id script (find id s.leases));
  sleep-le = λ d s. omega arith;
}
