-- ===== src/Fixtures/Leases.antt =====
-- The lease laws hold of the store in memory.
use mathlib.Core.Path.{subst}
use ai_devops_copilot.Base.{
  Bool-cases, ◌==◌, inl, inr, String, eq_iff, eq_refl, ◌≡◌, refl, Bool, true, false, Option, some,
  List, [], ◌∷◌, arith, is_infix, lower, to_lower, is_prefix,
}
use ai_devops_copilot.Fixtures.{Db, memory, find, discard, create_in, update_in, write_in, conflict}
use ai_devops_copilot.World.{Lease}
use ai_devops_copilot.MemoryStore.Locks.{is_conflict}
use ai_devops_copilot.MemoryStore.Leases.Exclusion.{IsLeaseStore}

abbrev pub lease_at : Db → String → Option Lease
lease_at db id = find id db.leases

find-discard :
    (test : String → Lease → Bool) (leases : List (String × Lease)) (id : String) (held : Lease)
    → find id leases ≡ some held
    → test id held ≡ false
    → find id (discard test leases) ≡ some held
unfolding find discard
find-discard test [] id held h spared = ground arith
find-discard test ((key, lease) ∷ rest) id held h spared =
    ground (arith, eq_iff key id, find-discard test rest id held)

is_conflict-conflict : is_conflict conflict ≡ true
unfolding is_conflict lower to_lower is_infix is_prefix
is_conflict-conflict = refl

pub memory-IsLeaseStore : IsLeaseStore memory lease_at
unfolding find create_in update_in write_in
memory-IsLeaseStore = record {
  now-keeps = λ db id. refl;
  create-free = λ db id lease free. rw free (refl, rw (eq_refl id));
  create-held = λ db id lease held at. (conflict, rw at, is_conflict-conflict, rw at at);
  update-noop = λ db id script held at e. (rw (at, e), rw (at, e) at);
  delete-spares = λ db test id held at e. find-discard test db.leases id held at e;
}

pub find-discarded :
    (test : String → Lease → Bool) (leases : List (String × Lease)) (id : String) (left : Lease)
    → find id (discard test leases) ≡ some left
    → test id left ≡ false
unfolding find discard
find-discarded test [] id left h = absurd (ground arith)
find-discarded test ((key, lease) ∷ rest) id left h = elim (Bool-cases (test key lease)) [
  | inl e ↦ find-discarded test rest id left (rw e at h)
  | inr e ↦
      let kept : find id ((key, lease) ∷ discard test rest) ≡ some left = rw e at h in
      elim (Bool-cases (key == id)) [
        | inl same ↦
            let found : some lease ≡ some left = rw same at kept in
            let own : lease ≡ left = cc in
            subst (λ l. test id l ≡ false) own
              (subst (λ k. test k lease ≡ false) ((eq_iff key id).0 same) e)
        | inr other ↦ find-discarded test rest id left (rw other at kept)
      ]
]
