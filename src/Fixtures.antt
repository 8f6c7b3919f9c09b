-- ===== src/Fixtures.antt =====
-- A small Elasticsearch in memory, with the clock and fixed-point numbers in place of floats
-- (thousandths): the parameter of the development at which its theorems are tried out.
pub mod Kube
pub mod Leases
pub mod Logs
pub mod Requests
use ai_devops_copilot.Base.{
  ℕ, ◌-◌, ◌*◌, ◌/◌, String, ◌==◌, Bool, true, false, Option, none, some, List, [], ◌∷◌, map, take,
  length, ltb, leb, contains, if◌then◌else◌,
}
use ai_devops_copilot.Base.Effects.{Reply, ok, raised}
use ai_devops_copilot.World.{World, Floats, Incident, Lease, Job, UpdateResult, updated, noop}

abbrev pub thousandths : Floats
thousandths = record {
  Real = ℕ;
  lit = λ n d. n * 1000 / d;
  lt = ltb;
  ge = λ a b. leb b a;
  minus = λ a b. a - b;
  times = λ a b. a * b / 1000;
  over = λ a b. a * 1000 / b;
}

pub record Db : Type 0 where
  pub clock : ℕ
  pub incidents : List Incident
  pub locks : List String
  pub leases : List (String × Lease)
  pub jobs : List (Job ℕ)

unfoldable pub select {ℓ} : {A : Type ℓ} → (A → Bool) → List A → List A
select test [] = []
select test (x ∷ xs) = let rest = select test xs in if test x then x ∷ rest else rest

abbrev pub not_same : String → String → Bool
not_same a b = if a == b then false else true

unfoldable pub find : String → List (String × Lease) → Option Lease
find id [] = none
find id ((key, lease) ∷ rest) = if key == id then some lease else find id rest

unfoldable pub store : String → Lease → List (String × Lease) → List (String × Lease)
store id lease [] = (id, lease) ∷ []
store id lease ((key, old) ∷ rest) =
    if key == id then (key, lease) ∷ rest else (key, old) ∷ store id lease rest

unfoldable pub discard : (String → Lease → Bool) → List (String × Lease) → List (String × Lease)
discard test [] = []
discard test ((key, lease) ∷ rest) =
    let kept = discard test rest in if test key lease then kept else (key, lease) ∷ kept

unfoldable pub ids : (Lease → Bool) → List (String × Lease) → List String
ids test [] = []
ids test ((key, lease) ∷ rest) =
    let found = ids test rest in if test lease then key ∷ found else found

abbrev pub conflict : String
conflict = "409 version_conflict_engine_exception"

unfoldable pub create_in : Db → String → Lease → Option Lease → Reply (Unit {0}) × Db
create_in db id lease (some held) = (raised conflict, db)
create_in db id lease none = (ok tt, record db { leases = (id, lease) ∷ db.leases })

unfoldable pub write_in : Db → String → Option Lease → Reply UpdateResult × Db
write_in db id none = (ok noop, db)
write_in db id (some lease) = (ok updated, record db { leases = store id lease db.leases })

unfoldable pub update_in :
    Db → String → (Lease → Option Lease) → Option Lease → Reply UpdateResult × Db
unfolding write_in
update_in db id script none = (raised "404 document_missing", db)
update_in db id script (some lease) = write_in db id (script lease)

-- opened where the store has to run
unfoldable pub running : Unit {0}
unfolding select find store discard ids create_in update_in
running = tt

abbrev pub memory : World
memory = record {
  floats = thousandths;
  State = Db;
  hostname = "pod-a";
  sha256_hex = λ text. text;
  now = λ db. (db.clock, db);
  search_incidents = λ test n db.
      let found = select (test db.clock) db.incidents in
      (ok (record { total = length found; sources = take n found }), db);
  count_incidents = λ test db. (ok (length (select (test db.clock) db.incidents)), db);
  update_incident = λ id change db. (
    ok tt,
    record db {
      incidents = map (λ doc. if doc.incident_id == id then change doc else doc) db.incidents;
    },
  );
  create_lock = λ id lock db.
      if contains db.locks id
      then (raised conflict, db)
      else (ok tt, record db { locks = id ∷ db.locks });
  delete_lock = λ id db. (ok tt, record db { locks = select (λ key. not_same key id) db.locks });
  create_lease = λ id lease db. create_in db id lease (find id db.leases);
  update_lease = λ id script db. update_in db id script (find id db.leases);
  delete_leases = λ test db. (ok tt, record db { leases = discard test db.leases });
  search_leases = λ test n db. (ok (take n (ids test db.leases)), db);
  index_job = λ id job db. (ok tt, record db { jobs = job ∷ db.jobs });
  search_jobs = λ test n db. (ok (take n (select test db.jobs)), db);
  delete_job =
      λ id db. (ok tt, record db { jobs = select (λ job. not_same job.incident_id id) db.jobs });
}
