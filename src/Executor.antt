-- ===== src/Executor.antt =====
-- agent-backend/app/core/action_executor.py: running an action with kubectl, polling the rollout,
-- and rolling back. `_SNAPSHOTS` is an argument and a result; the background task is a function of
-- its own. The poll loop runs on fuel. In `_background_poll_and_finalize` nothing that is modelled
-- raises, so its `except` branch is left out. `execution_result` is not a field of Incident.
pub mod Types
pub mod Polling
pub mod Ending
pub mod Verdicts
pub mod Guards
pub mod DryRun
mod Tests
use Prim.Native.String.{◌++◌ as ◌<>◌}
use ai_devops_copilot.Base.{
  ℕ, zero, suc, ◌+◌, ◌-◌, ◌*◌, String, ◌==◌, Bool, true, false, not, ◌&&◌, ◌||◌, Option, none, some,
  List, [], ◌∷◌, ◌++◌, contains, eqb, leb, ltb, if◌then◌else◌,
}
use ai_devops_copilot.Base.Effects.{Eff}
use ai_devops_copilot.World.{Incident}
use ai_devops_copilot.Policy.{GlobalPolicy}
use ai_devops_copilot.MemoryStore.Incidents.{seconds, update}
use ai_devops_copilot.MemoryStore.Leases.{try_acquire_lease, renew_lease, release_lease}
use ai_devops_copilot.Cluster.{Cluster, Run, completed, not_found, timed_out, raised, Manifest}
use ai_devops_copilot.Rollback.{
  Snapshots, desired_of, ready_of, get_args, capture_snapshot, rollback,
}
use ai_devops_copilot.Executor.Types.{
  Status, success, partial, failed, dry_run_ok, skipped, executing, critical_intervention_required,
  Failure, kubectl_not_available, unknown_action_type, dry_run_failed, apply_failed,
  ExecutionResult, noop_actions, poll_interval, poll_max, build_command, lease_id, Finished, fine,
  bad, finished, available, counts_of, plain, too_few, Answer,
}
use ai_devops_copilot.Executor.Polling.{run, kubectl_available, get_deployment_replicas, poll_ready}

module _ (cluster : Cluster) (policy : GlobalPolicy) where
  open cluster use {es}

  -- the status after the poll, with whether a rollback went through
  unfoldable pub conclude :
      (action_id service namespace : String) → Snapshots → ℕ × ℕ → Eff es.State (Status × Bool)
  conclude action_id service namespace snapshots counts s =
      if not (too_few counts.0 counts.1)
      then (if leb counts.0 counts.1 then (success, false) else (partial, false), s)
      else let (rolled, s') = rollback cluster action_id service namespace snapshots s in
        (if rolled then (partial, true) else (critical_intervention_required, false), s')

  -- the result of an action that has been applied, once its rollout has been polled
  unfoldable pub poll_and_conclude :
      (action_id action_type service namespace : String) → Snapshots → Eff es.State ExecutionResult
  poll_and_conclude action_id action_type service namespace snapshots s =
      let (counts, s1) = poll_ready cluster policy action_id service namespace s in
      let ((status, rolled), s2) = conclude action_id service namespace snapshots counts s1 in
      (
        record {
          action_id = action_id;
          action_type = action_type;
          status = status;
          intended = counts.0;
          achieved = counts.1;
          error = none;
          rollback_triggered = rolled;
        },
        s2,
      )

  unfoldable pub after_apply :
      (action_id action_type : String)
      → (Snapshots → Eff es.State Answer)
      → Snapshots
      → Finished
      → Eff es.State Answer
  after_apply action_id action_type next snapshots (bad err) s =
      ((plain action_id failed (some (apply_failed err)) action_type, snapshots, false), s)
  after_apply action_id action_type next snapshots (fine out) s = next snapshots s

  -- What comes after the dry run: the result of a failed apply, or what is done after a good one.
  unfoldable pub apply :
      (action_id action_type service namespace : String)
      → List String
      → (Snapshots → Eff es.State Answer)
      → Snapshots
      → Eff es.State Answer
  apply action_id action_type service namespace cmd_args next snapshots s =
      let ((entry, snapshots'), s1) =
        capture_snapshot cluster action_id service namespace snapshots s in
      let (r, s2) = run cluster policy cmd_args s1 in
      after_apply action_id action_type next snapshots' r s2

  unfoldable pub after_dry_run :
      (action_id action_type : String)
      → Eff es.State Answer
      → Snapshots
      → Finished
      → Eff es.State Answer
  after_dry_run action_id action_type next snapshots (bad err) s =
      ((plain action_id failed (some (dry_run_failed err)) action_type, snapshots, false), s)
  after_dry_run action_id action_type next snapshots (fine out) s = next s

  unfoldable pub with_command :
      (action_id action_type : String)
      → List String
      → (List String → Eff es.State Answer)
      → Snapshots
      → Eff es.State Answer
  with_command action_id action_type [] next snapshots s = (
    (plain action_id failed (some (unknown_action_type action_type)) action_type, snapshots, false),
    s,
  )
  with_command action_id action_type (arg ∷ args) next snapshots s =
      let (r, s') = run cluster policy (arg ∷ args ++ "--dry-run=server" ∷ []) s in
      after_dry_run action_id action_type (next (arg ∷ args)) snapshots r s'

  -- the guards that the two ways of executing share, up to the dry run on the server
  unfoldable pub prepare :
      (action_id action_type service namespace : String)
      → (List String → Eff es.State Answer)
      → Snapshots
      → Eff es.State Answer
  prepare action_id action_type service namespace next snapshots s =
      let (there, s1) = kubectl_available cluster policy s in
      if there
      then with_command action_id action_type (build_command action_type service namespace) next
          snapshots s1
      else (
        (plain action_id skipped (some kubectl_not_available) action_type, snapshots, false),
        s1,
      )

  -- the part of the synchronous call after a good dry run
  unfoldable pub apply_and_poll :
      (action_id action_type service namespace : String)
      → Bool
      → Snapshots
      → List String
      → Eff es.State Answer
  apply_and_poll action_id action_type service namespace true snapshots cmd_args s =
      ((plain action_id dry_run_ok none action_type, snapshots, false), s)
  apply_and_poll action_id action_type service namespace false snapshots cmd_args s =
      apply action_id action_type service namespace cmd_args
        (λ snapshots' s'.
          let (result, s'') =
            poll_and_conclude action_id action_type service namespace snapshots' s' in
          ((result, snapshots', false), s''))
        snapshots s

  unfoldable pub execute_sync :
      (action_id action_type service namespace : String) → Bool → Snapshots → Eff es.State Answer
  execute_sync action_id action_type service namespace dry_run snapshots s =
      if contains noop_actions action_type
      then ((plain action_id skipped none action_type, snapshots, false), s)
      else prepare action_id action_type service namespace
          (apply_and_poll action_id action_type service namespace dry_run snapshots) snapshots s

  -- the part of the asynchronous call after a good apply
  unfoldable pub start_poll : (action_id action_type : String) → Snapshots → Eff es.State Answer
  start_poll action_id action_type snapshots s =
      let (got, s') =
        try_acquire_lease es (lease_id action_id) es.hostname policy.lease_ttl_seconds s in
      ((plain action_id executing none action_type, snapshots, got), s')

  unfoldable pub execute_async :
      (action_id action_type service namespace : String) → Bool → Snapshots → Eff es.State Answer
  execute_async action_id action_type service namespace dry_run snapshots s =
      if contains noop_actions action_type || dry_run
      then execute_sync action_id action_type service namespace dry_run snapshots s
      else prepare action_id action_type service namespace
          (λ cmd_args.
            apply action_id action_type service namespace cmd_args
              (start_poll action_id action_type) snapshots)
          snapshots s

  -- `_background_poll_and_finalize`; a lease that is held is released at the end
  unfoldable pub state_after : Status → String
  state_after critical_intervention_required = "CRITICAL_INTERVENTION_REQUIRED"
  state_after status = "completed"

  -- `if incident_id: await update_incident(…)`
  unfoldable pub record_state : Option String → String → Eff es.State (Unit {0})
  record_state none state s = (tt, s)
  record_state (some incident_id) state s =
      if incident_id == ""
      then (tt, s)
      else update es incident_id (λ doc. record doc { action_state = state }) s

  unfoldable pub background_poll_and_finalize :
      (action_id action_type service namespace : String)
      → Option String
      → Snapshots
      → Eff es.State ExecutionResult
  background_poll_and_finalize action_id action_type service namespace incident_id snapshots s =
      let (result, s1) = poll_and_conclude action_id action_type service namespace snapshots s in
      let (_, s2) = record_state incident_id (state_after result.status) s1 in
      let (_, s3) = release_lease es (lease_id action_id) es.hostname s2 in (result, s3)
