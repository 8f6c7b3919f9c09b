-- ===== src/Executor/Verdicts.antt =====
-- What the status of a result says.
use ai_devops_copilot.Base.{
  ℕ, ◌*◌, ◌≤◌, ◌<◌, String, ◌≡◌, refl, Bool, true, false, inl, inr, List, arith, contains, leb,
  Bool-cases,
}
use ai_devops_copilot.Base.Effects.{Eff}
use ai_devops_copilot.Policy.{GlobalPolicy}
use ai_devops_copilot.Cluster.{Cluster}
use ai_devops_copilot.Rollback.{Snapshots, rollback, capture_snapshot}
use ai_devops_copilot.Executor.Types.{
  Status, success, partial, critical_intervention_required, ExecutionResult, too_few, fine, bad,
  Answer, noop_actions,
}
use ai_devops_copilot.Executor.Polling.{run, poll_ready}
use ai_devops_copilot.Executor.{
  conclude, poll_and_conclude, apply, after_apply, apply_and_poll, execute_sync,
}
use ai_devops_copilot.Executor.Guards.{Guards, prepare_rule}

-- what each status says of the counts and of the rollback
abbrev pub Says : Status → ℕ → ℕ → Bool → Type 0
Says success intended achieved rolled = (intended ≤ achieved) × (rolled ≡ false)
Says partial intended achieved true = 2 * achieved < intended
Says partial intended achieved false = (achieved < intended) × (intended ≤ 2 * achieved)
Says critical_intervention_required intended achieved rolled =
    (2 * achieved < intended) × (rolled ≡ false)
Says status intended achieved rolled = (intended ≡ 0) × (achieved ≡ 0) × (rolled ≡ false)

abbrev pub IsCoherent : ExecutionResult → Type 0
IsCoherent r = Says r.status r.intended r.achieved r.rollback_triggered

module _ (cluster : Cluster) (policy : GlobalPolicy)
    (action_id action_type service namespace : String) where
  open cluster use {es}

  conclude-Says :
      (snapshots : Snapshots) (intended achieved : ℕ) (s : es.State)
      → let (status, rolled) =
          (conclude cluster policy action_id service namespace snapshots
            (intended, achieved)
            s).0 in
        Says status intended achieved rolled
  unfolding conclude too_few
  conclude-Says snapshots intended achieved s =
      let (rolled, s') = rollback cluster action_id service namespace snapshots s in
      elim (Bool-cases (too_few intended achieved)) [
        | inl few ↦ elim (Bool-cases rolled) [
          | inl back ↦ rw (few, back) (ground arith)
          | inr stuck ↦ rw (few, stuck) (ground arith)
        ]
        | inr many ↦ elim (Bool-cases (leb intended achieved)) [
          | inl all ↦ rw (many, all) (ground arith)
          | inr some_left ↦ rw (many, some_left) (ground arith)
        ]
      ]

  poll_and_conclude-IsCoherent :
      (snapshots : Snapshots) (s : es.State)
      → IsCoherent
          (poll_and_conclude cluster policy action_id action_type service namespace snapshots s).0
  unfolding poll_and_conclude
  poll_and_conclude-IsCoherent snapshots s =
      let (counts, s1) = poll_ready cluster policy action_id service namespace s in
      conclude-Says snapshots counts.0 counts.1 s1

  apply-IsCoherent :
      (cmd_args : List String) (next : Snapshots → Eff es.State Answer) (snapshots : Snapshots)
      (s : es.State)
      → ((snapshots' : Snapshots) (s' : es.State) → IsCoherent (next snapshots' s').0.0)
      → IsCoherent
          (apply cluster policy action_id action_type service namespace cmd_args next snapshots
            s).0.0
  unfolding apply after_apply
  apply-IsCoherent cmd_args next snapshots s k =
      let ((_, snapshots'), s1) =
        capture_snapshot cluster action_id service namespace snapshots s in
      let (r, s2) = run cluster policy cmd_args s1 in
      elim r
        as (λ x.
          IsCoherent (after_apply cluster policy action_id action_type next snapshots' x s2).0.0) [
            | bad err ↦ (refl, refl, refl)
            | fine out ↦ k snapshots' s2
          ]

  guards :
      Guards cluster policy action_id action_type service namespace
        (λ s. Unit {0})
        (λ r. IsCoherent r.0.0)
  guards = record {
    version = λ s p. tt;
    trial = λ args s p. tt;
    skip = λ snapshots s p. (refl, refl, refl);
    fail = λ error snapshots s p. (refl, refl, refl);
  }

  apply_and_poll-IsCoherent :
      (dry_run : Bool) (snapshots : Snapshots) (cmd_args : List String) (s : es.State)
      → IsCoherent
          (apply_and_poll cluster policy action_id action_type service namespace dry_run snapshots
            cmd_args s).0.0
  unfolding apply_and_poll
  apply_and_poll-IsCoherent true snapshots cmd_args s = (refl, refl, refl)
  apply_and_poll-IsCoherent false snapshots cmd_args s =
      apply-IsCoherent cmd_args _ snapshots s
        (λ snapshots' s'. poll_and_conclude-IsCoherent snapshots' s')

  -- In every result of the synchronous call, "success" means that all replicas were ready and
  -- nothing was rolled back; a rollback that went through makes it "partial", and a failed one
  -- critical, both with fewer than half of the replicas ready; all other statuses come without
  -- counts.
  pub execute_sync-IsCoherent :
      (dry_run : Bool) (snapshots : Snapshots) (s : es.State)
      → IsCoherent
          (execute_sync cluster policy action_id action_type service namespace dry_run snapshots
            s).0.0
  unfolding execute_sync
  execute_sync-IsCoherent dry_run snapshots s =
      elim (Bool-cases (contains noop_actions action_type)) [
        | inl e ↦ rw e (refl, refl, refl)
        | inr e ↦ rw e (
            prepare_rule cluster policy action_id action_type service namespace (λ s'. Unit {0})
              (λ r. IsCoherent r.0.0) guards _ snapshots s tt
              (λ args s' out e p. apply_and_poll-IsCoherent dry_run snapshots args _))
      ]
