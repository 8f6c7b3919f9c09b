-- ===== src/Executor/Tests.antt =====
-- Actions on a small deployment.
use ai_devops_copilot.Base.{ℕ, ◌+◌, ◌≡◌, refl, true, false, some, [], contains, inl}
use ai_devops_copilot.Policy.{GlobalPolicy}
use ai_devops_copilot.Fixtures.{Db}
use ai_devops_copilot.Fixtures.Kube.{empty, kube, clock_at, kube-IsClock}
use ai_devops_copilot.Rollback.{
  run_kubectl, capture_snapshot, capture_output, output_of, desired_of, ready_of,
}
use ai_devops_copilot.Executor.Types.{
  success, poll_max, build_command, finished, available, counts_of, too_few,
}
use ai_devops_copilot.Executor.Polling.{
  run, kubectl_available, get_deployment_replicas, poll_loop, poll_turn, after_counts, poll_ready,
}
use ai_devops_copilot.Executor.{
  conclude, poll_and_conclude, apply, after_apply, after_dry_run, with_command, prepare,
  apply_and_poll, execute_sync,
}
use ai_devops_copilot.Executor.Ending.{poll_ready-Ends}
use ai_devops_copilot.Executor.Verdicts.{IsCoherent, execute_sync-IsCoherent}
use ai_devops_copilot.Executor.DryRun.{IsInert, execute_sync-Inert}

abbrev policy : GlobalPolicy
policy = record {
  action_budget_per_hour = 5;
  loop_freeze_threshold = 5;
  loop_escalate_threshold = 3;
  approval_expiry_seconds = 300;
  idempotency_window_seconds = 120;
  lease_ttl_seconds = 60;
  lease_renewal_seconds = 20;
  protected_namespaces = [];
}

restarted :
    (execute_sync (kube 2) policy "a1" "restart_pod" "shop" "dev" false [] empty).0.0.status
    ≡ success
unfolding execute_sync prepare with_command after_dry_run apply_and_poll apply after_apply conclude
    poll_and_conclude poll_ready poll_loop poll_turn after_counts get_deployment_replicas run
    kubectl_available finished available counts_of too_few build_command capture_snapshot
    capture_output run_kubectl output_of desired_of ready_of contains
restarted = refl

poll_ready-Ends_example :
    (counts : ℕ × ℕ) × ((poll_loop (kube 1) policy 19 "a1" "shop" "dev" (0 + poll_max) 0 empty).0
      ≡ some counts)
    × ((poll_ready (kube 1) policy "a1" "shop" "dev" empty).0 ≡ counts)
poll_ready-Ends_example =
    poll_ready-Ends (kube 1) policy "a1" "shop" "dev" clock_at (kube-IsClock 1) empty

execute_sync-IsCoherent_example :
    IsCoherent (execute_sync (kube 0) policy "a1" "restart_pod" "shop" "dev" false [] empty).0.0
execute_sync-IsCoherent_example =
    execute_sync-IsCoherent (kube 0) policy "a1" "restart_pod" "shop" "dev" false [] empty

abbrev Unmoved : Db → Type 0
Unmoved db = db.clock ≡ 0

kube-IsInert : IsInert (kube 0) policy Unmoved
unfolding kubectl_available run
kube-IsInert = record { version = λ s p. p; trial = λ args s p. p }

execute_sync-Inert_example :
    Unmoved (execute_sync (kube 0) policy "a1" "restart_pod" "shop" "dev" true [] empty).1
execute_sync-Inert_example =
    execute_sync-Inert (kube 0) policy Unmoved kube-IsInert "a1" "restart_pod" "shop" "dev" true []
      empty (inl refl) refl
