-- ===== src/Rollback/Restored.antt =====
-- What a rollback restores: the snapshot of its own action, without what the cluster assigns.
use ai_devops_copilot.Base.{
  String, ◌==◌, ◌≡◌, refl, true, Option, none, some, List, [], ◌∷◌, arith, Dict, lookup, remove,
  lookup-remove, lookup-insert_self, contains, Option-cases, inl, inr, if◌then◌else◌, Bool, false,
  ap,
}
use ai_devops_copilot.Cluster.{Cluster, Manifest}
use ai_devops_copilot.Rollback.{
  Snapshots, runtime_keys, pop_all, strip_runtime_fields, saved_spec, run_kubectl, get_args,
  capture_snapshot, restore_args, rollback, capture_output, entry_of, Eff, wait_for_running,
}
use ai_devops_copilot.Rollback.Waiting.{IsSeenRunning, wait_for_running-IsSeenRunning}

lookup-pop_all :
    (ks : List String) (metadata : Dict String) (k : String)
    → lookup k (pop_all ks metadata) ≡ (if contains ks k then none else lookup k metadata)
unfolding pop_all contains
lookup-pop_all [] metadata k = refl
lookup-pop_all (j ∷ ks) metadata k =
    ground (arith, lookup-pop_all ks (remove j metadata) k, lookup-remove j k metadata)

abbrev pub revision : String
revision = "deployment.kubernetes.io/revision"

abbrev pub assigned : List String
assigned = "resourceVersion" ∷ "uid" ∷ "generation" ∷ "managedFields" ∷ "creationTimestamp" ∷ []

-- no status, none of the metadata that the cluster assigns, no revision number, and all else
pub record IsRestorable (spec applied : Manifest) : Type 0 where
  pub metadata :
      (k : String)
      → lookup k applied.metadata ≡ (if contains assigned k then none else lookup k spec.metadata)
  pub annotations :
      (k : String)
      → lookup k applied.annotations ≡ (if revision == k then none else lookup k spec.annotations)
  pub ready_replicas : applied.ready_replicas ≡ none
  pub replicas : applied.replicas ≡ spec.replicas
  pub images : applied.images ≡ spec.images
  pub rest : applied.rest ≡ spec.rest

strip_runtime_fields-IsRestorable :
    (spec : Manifest) → IsRestorable spec (strip_runtime_fields spec)
unfolding strip_runtime_fields runtime_keys
strip_runtime_fields-IsRestorable spec = record {
  metadata = λ k. lookup-pop_all assigned spec.metadata k;
  annotations = λ k. lookup-remove revision k spec.annotations;
  ready_replicas = refl;
  replicas = refl;
  images = refl;
  rest = refl;
}

module _ (cluster : Cluster) (action_id service namespace : String) (snapshots : Snapshots) where
  open cluster use {es, loads}

  -- what runs the command of a rollback and waits for the deployment
  abbrev pub run_and_wait : List String → String → Eff es.State Bool
  run_and_wait args stdin s =
      let (output, s1) = run_kubectl cluster args (some stdin) s in
      elim output [ none ↦ (false, s1) | some out ↦ wait_for_running cluster service namespace s1 ]

  rollback-saved :
      (snapshots' : Snapshots) (spec : Manifest) (s : es.State)
      → saved_spec (lookup action_id snapshots') ≡ some spec
      → rollback cluster action_id service namespace snapshots' s
        ≡ run_and_wait
            ("apply" ∷ "-f" ∷ "-" ∷ "-n" ∷ namespace ∷ [])
            (cluster.dumps (strip_runtime_fields spec))
            s
  unfolding rollback restore_args
  rollback-saved snapshots' spec s e =
      ap
        (λ saved.
          let (args, stdin) = restore_args cluster service namespace saved in
          let (output, s1) = run_kubectl cluster args stdin s in
          let r : Bool × es.State = elim output [
            | none ↦ (false, s1)
            | some out ↦ wait_for_running cluster service namespace s1
          ] in
          r)
        e

  -- If `kubectl get` answers with a deployment when the snapshot is captured, a later rollback of
  -- the same action applies one that differs from it in nothing but its status, the metadata that the
  -- cluster assigns and the revision number, which are left out, and then waits for it, as long as
  -- the store of snapshots is left alone.
  pub capture_snapshot-restore :
      (s later : es.State) (output : String) (spec : Manifest)
      → (run_kubectl cluster (get_args cluster service namespace) none s).0 ≡ some output
      → loads output ≡ some spec
      → let (_, snapshots') =
          (capture_snapshot cluster action_id service namespace snapshots s).0 in
        (applied : Manifest) × IsRestorable spec applied
        × (rollback cluster action_id service namespace snapshots' later
            ≡ run_and_wait
                ("apply" ∷ "-f" ∷ "-" ∷ "-n" ∷ namespace ∷ [])
                (cluster.dumps applied)
                later)
  unfolding capture_snapshot saved_spec capture_output entry_of
  capture_snapshot-restore s later output spec ran parsed = (
    strip_runtime_fields spec,
    strip_runtime_fields-IsRestorable spec,
    let snapshots' = (capture_snapshot cluster action_id service namespace snapshots s).0.1 in
        rollback-saved snapshots' spec later (
          rw (
            ran,
            capture_output,
            parsed,
            saved_spec,
            lookup-insert_self action_id
                (entry_of cluster action_id service namespace output
                  (cluster.isoformat
                    (run_kubectl cluster (get_args cluster service namespace) none s).1).0
                  spec)
                snapshots,
          )),
  )

  pub data Restored (last : es.State) : Type 0 where
    restored :
        (args : List String) (stdin : Option String) (output : String) (s : es.State)
        → (args, stdin)
          ≡ restore_args cluster service namespace (saved_spec (lookup action_id snapshots))
        → (run_kubectl cluster args stdin s).0 ≡ some output
        → IsSeenRunning cluster service namespace last
        → Restored last

  -- A rollback that answers true has run its command with success, and the last thing it did was
  -- to see the deployment with all its replicas ready.
  pub rollback-Restored :
      (s : es.State)
      → (rollback cluster action_id service namespace snapshots s).0 ≡ true
      → Restored (rollback cluster action_id service namespace snapshots s).1
  unfolding rollback
  rollback-Restored s h =
      let (args, stdin) =
        restore_args cluster service namespace (saved_spec (lookup action_id snapshots)) in
      elim (Option-cases (run_kubectl cluster args stdin s).0) [
        | inl e ↦ absurd (ground arith)
        | inr (output, e) ↦
            rw (rollback, e)
              (restored args stdin output s refl e (
                wait_for_running-IsSeenRunning cluster service namespace
                  (run_kubectl cluster args stdin s).1 (ground arith)))
      ]
