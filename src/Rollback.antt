-- ===== src/Rollback.antt =====
-- agent-backend/app/core/rollback.py: snapshots of a deployment, and the way back to one.
-- `_SNAPSHOTS` is an argument and a result. A poll loop runs on fuel.
pub mod Waiting
pub mod Restored
mod Tests
use ai_devops_copilot.Base.{
  ℕ, zero, suc, ◌+◌, String, ◌==◌, Bool, true, false, Option, none, some, List, [], ◌∷◌, Dict,
  lookup, insert, remove, eqb, leb, ltb, if◌then◌else◌,
}
use Prim.Native.String.{◌++◌}
use ai_devops_copilot.Base.Effects.{Eff}
use ai_devops_copilot.Cluster.{Cluster, Run, completed, not_found, timed_out, raised, Manifest}

pub record RollbackEntry : Type 0 where
  pub action_id : String
  pub service : String
  pub previous_image : String
  pub previous_replicas : ℕ
  pub spec_hash : String
  pub captured_at : String
  pub namespace : String
  pub raw_spec : Option Manifest

abbrev pub Snapshots : Type 0
Snapshots = Dict RollbackEntry

-- microseconds
abbrev pub rollback_poll_interval : ℕ
rollback_poll_interval = 3_000_000

abbrev pub rollback_poll_timeout : ℕ
rollback_poll_timeout = 90_000_000

-- `spec.get("replicas", 1) or 1`
unfoldable pub desired_of : Option ℕ → ℕ
desired_of none = 1
desired_of (some n) = if eqb n 0 then 1 else n

-- `status.get("readyReplicas") or 0`
unfoldable pub ready_of : Option ℕ → ℕ
ready_of none = 0
ready_of (some n) = n

-- `containers[0].get("image", "unknown") if containers else "unknown"`
unfoldable pub image_of : List (Option String) → String
image_of (some image ∷ images) = image
image_of images = "unknown"

-- the stdout of a run that ended well
unfoldable pub output_of : Run → Option String
output_of (completed zero out err) = some out
output_of run = none

unfoldable pub runtime_keys : List String
runtime_keys = "resourceVersion" ∷ "uid" ∷ "generation" ∷ "managedFields" ∷ "creationTimestamp" ∷ []

unfoldable pub pop_all : List String → Dict String → Dict String
pop_all [] metadata = metadata
pop_all (k ∷ ks) metadata = pop_all ks (remove k metadata)

unfoldable pub strip_runtime_fields : Manifest → Manifest
strip_runtime_fields spec = record spec {
  ready_replicas = none;
  metadata = pop_all runtime_keys spec.metadata;
  annotations = remove "deployment.kubernetes.io/revision" spec.annotations;
}

unfoldable pub saved_spec : Option RollbackEntry → Option Manifest
saved_spec none = none
saved_spec (some entry) = entry.raw_spec

abbrev pub is_up : Option Bool → Bool
is_up none = false
is_up (some b) = b

module _ (cluster : Cluster) where
  open cluster use {es, kubectl, monotonic, sleep, isoformat, loads, dumps}

  unfoldable pub run_kubectl : List String → Option String → Eff es.State (Option String)
  run_kubectl args stdin s = let (run, s') = kubectl args stdin s in (output_of run, s')

  abbrev pub get_args : String → String → List String
  get_args service namespace =
      "get" ∷ "deployment" ∷ service ∷ "-n" ∷ namespace ∷ "-o" ∷ "json" ∷ []

  unfoldable pub entry_of : String → String → String → String → String → Manifest → RollbackEntry
  entry_of action_id service namespace output captured_at spec = record {
    action_id = action_id;
    service = service;
    previous_image = image_of spec.images;
    previous_replicas = elim spec.replicas [ none ↦ 1 | some n ↦ n ];
    spec_hash = es.sha256_hex output;
    captured_at = captured_at;
    namespace = namespace;
    raw_spec = some spec;
  }

  unfoldable pub capture_output :
      String
      → String
      → String
      → Snapshots
      → Option String
      → Eff es.State (Option RollbackEntry × Snapshots)
  unfolding entry_of
  capture_output action_id service namespace snapshots none s = ((none, snapshots), s)
  capture_output action_id service namespace snapshots (some output) s = elim (loads output) [
    | none ↦ ((none, snapshots), s)
    | some spec ↦
        let (captured_at, s') = isoformat s in
        let entry = entry_of action_id service namespace output captured_at spec in
        ((some entry, insert action_id entry snapshots), s')
  ]

  -- `sha256_hex` gives the first 16 digits here
  unfoldable pub capture_snapshot :
      String → String → String → Snapshots → Eff es.State (Option RollbackEntry × Snapshots)
  unfolding capture_output
  capture_snapshot action_id service namespace snapshots s =
      let (output, s') = run_kubectl (get_args service namespace) none s in
      capture_output action_id service namespace snapshots output s'

  unfoldable pub get_deployment_status : String → String → Eff es.State (Option Manifest)
  get_deployment_status service namespace s =
      let (output, s') = run_kubectl (get_args service namespace) none s in
      (elim output [ none ↦ none | some out ↦ loads out ], s')

  unfoldable pub is_running : Option Manifest → Bool
  is_running none = false
  is_running (some spec) = leb (desired_of spec.replicas) (ready_of spec.ready_replicas)

  -- one turn of the loop, with the rest of it; `none` where the fuel has run out
  unfoldable pub wait_turn :
      Eff es.State (Option Bool) → String → String → ℕ → Eff es.State (Option Bool)
  wait_turn again service namespace deadline s =
      let (t, s1) = monotonic s in
      if leb deadline t
      then (some false, s1)
      else let (spec, s2) = get_deployment_status service namespace s1 in
        if is_running spec then (some true, s2) else again (sleep rollback_poll_interval s2)

  unfoldable pub wait_loop : ℕ → String → String → ℕ → Eff es.State (Option Bool)
  wait_loop zero service namespace deadline s = (none, s)
  wait_loop (suc fuel) service namespace deadline s =
      wait_turn (wait_loop fuel service namespace deadline) service namespace deadline s

  -- 90 seconds hold 30 turns of 3 seconds, and one more turn sees the deadline
  unfoldable pub wait_for_running : String → String → Eff es.State Bool
  wait_for_running service namespace s =
      let (t, s1) = monotonic s in
      let (r, s2) = wait_loop 31 service namespace (t + rollback_poll_timeout) s1 in (is_up r, s2)

  -- the command that restores: the snapshot on stdin, or `rollout undo` where there is none
  unfoldable pub restore_args : String → String → Option Manifest → List String × Option String
  restore_args service namespace none =
      ("rollout" ∷ "undo" ∷ ("deployment/" ++ service) ∷ "-n" ∷ namespace ∷ [], none)
  restore_args service namespace (some spec) =
      ("apply" ∷ "-f" ∷ "-" ∷ "-n" ∷ namespace ∷ [], some (dumps (strip_runtime_fields spec)))

  -- The two paths differ in the command; after it, both wait for the deployment.
  unfoldable pub rollback : String → String → String → Snapshots → Eff es.State Bool
  rollback action_id service namespace snapshots s =
      let (args, stdin) =
        restore_args service namespace (saved_spec (lookup action_id snapshots)) in
      let (output, s1) = run_kubectl args stdin s in
      elim output [ none ↦ (false, s1) | some out ↦ wait_for_running service namespace s1 ]
