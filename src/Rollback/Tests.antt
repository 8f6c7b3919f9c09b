-- ===== src/Rollback/Tests.antt =====
-- Snapshots and rollbacks of a small deployment.
use ai_devops_copilot.Base.{◌≡◌, refl, true, [], ◌∷◌, lookup}
use ai_devops_copilot.Rollback.{
  saved_spec, run_kubectl, capture_snapshot, restore_args, rollback, wait_loop, wait_turn,
  wait_for_running, output_of, get_deployment_status, is_running, desired_of, ready_of, Manifest,
}
use ai_devops_copilot.Rollback.Restored.{
  IsRestorable, run_and_wait, capture_snapshot-restore, Restored, rollback-Restored,
}
use ai_devops_copilot.Fixtures.Kube.{empty, shop, kube}

capture_snapshot-restore_example :
    let (_, snapshots) = (capture_snapshot (kube 2) "a1" "shop" "dev" [] empty).0 in
    (applied : Manifest) × IsRestorable (shop 2) applied
    × (rollback (kube 2) "a1" "shop" "dev" snapshots empty
        ≡ run_and_wait
            (kube 2)
            "a1"
            "shop"
            "dev"
            []
            ("apply" ∷ "-f" ∷ "-" ∷ "-n" ∷ "dev" ∷ [])
            "spec"
            empty)
unfolding run_kubectl output_of
capture_snapshot-restore_example =
    capture_snapshot-restore (kube 2) "a1" "shop" "dev" [] empty empty "out" (shop 2) refl refl

went_back : (rollback (kube 2) "a1" "shop" "dev" [] empty).0 ≡ true
unfolding rollback run_kubectl output_of restore_args saved_spec lookup wait_for_running wait_loop
    wait_turn get_deployment_status is_running desired_of ready_of
went_back = refl

rollback-Restored_example :
    Restored (kube 2) "a1" "shop" "dev" [] (rollback (kube 2) "a1" "shop" "dev" [] empty).1
rollback-Restored_example = rollback-Restored (kube 2) "a1" "shop" "dev" [] empty went_back
