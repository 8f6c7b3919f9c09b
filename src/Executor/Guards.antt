-- ===== src/Executor/Guards.antt =====
-- A rule for the guards before an action: what holds of every early end, and of every way on,
-- holds of the call.
use ai_devops_copilot.Base.{
  String, ◌≡◌, refl, false, some, List, [], ◌∷◌, ◌++◌, Bool-cases, inl, inr,
}
use ai_devops_copilot.Base.Effects.{Eff}
use ai_devops_copilot.Policy.{GlobalPolicy}
use ai_devops_copilot.Cluster.{Cluster}
use ai_devops_copilot.Rollback.{Snapshots}
use ai_devops_copilot.Executor.Types.{
  failed, skipped, Failure, kubectl_not_available, unknown_action_type, dry_run_failed, Finished,
  fine, bad, Answer, plain, build_command,
}
use ai_devops_copilot.Executor.Polling.{run, kubectl_available}
use ai_devops_copilot.Executor.{after_dry_run, with_command, prepare}

abbrev pub dry : List String → List String
dry args = args ++ "--dry-run=server" ∷ []

module _ (cluster : Cluster) (policy : GlobalPolicy)
    (action_id action_type service namespace : String) where
  open cluster use {es}

  -- `P` holds of the state on the way, and `Q` of every end
  pub record Guards (P : es.State → Type 0) (Q : Answer × es.State → Type 0) : Type 0 where
    pub version : (s : es.State) → P s → P (kubectl_available cluster policy s).1
    pub trial : (args : List String) (s : es.State) → P s → P (run cluster policy (dry args) s).1
    pub skip :
        (snapshots : Snapshots) (s : es.State)
        → P s
        → Q (
          (plain action_id skipped (some kubectl_not_available) action_type, snapshots, false),
          s,
        )
    pub fail :
        (error : Failure) (snapshots : Snapshots) (s : es.State)
        → P s
        → Q ((plain action_id failed (some error) action_type, snapshots, false), s)

  module _ (P : es.State → Type 0) (Q : Answer × es.State → Type 0) (g : Guards P Q) where
    -- what comes after a good dry run
    abbrev pub Next : (List String → Eff es.State Answer) → Type 0
    Next next =
        (args : List String) (s : es.State) (out : String)
        → (run cluster policy (dry args) s).0 ≡ fine out
        → P s
        → Q (next args (run cluster policy (dry args) s).1)

    after_dry_run_rule :
        (args : List String) (next : List String → Eff es.State Answer) (snapshots : Snapshots)
        (s : es.State) (r : Finished)
        → (run cluster policy (dry args) s).0 ≡ r
        → P s
        → Next next
        → Q (
            after_dry_run cluster policy action_id action_type
              (next args)
              snapshots
              r
              (run cluster policy (dry args) s).1)
    unfolding after_dry_run
    after_dry_run_rule args next snapshots s (bad err) e p k =
        g.fail (dry_run_failed err) snapshots (run cluster policy (dry args) s).1 (g.trial args s p)
    after_dry_run_rule args next snapshots s (fine out) e p k = k args s out e p

    with_command_rule :
        (args : List String) (next : List String → Eff es.State Answer) (snapshots : Snapshots)
        (s : es.State)
        → P s
        → Next next
        → Q (with_command cluster policy action_id action_type args next snapshots s)
    unfolding with_command
    with_command_rule [] next snapshots s p k =
        g.fail (unknown_action_type action_type) snapshots s p
    with_command_rule (arg ∷ args) next snapshots s p k =
        after_dry_run_rule (arg ∷ args) next snapshots s (run cluster policy (dry (arg ∷ args)) s).0
          refl p k

    pub prepare_rule :
        (next : List String → Eff es.State Answer) (snapshots : Snapshots) (s : es.State)
        → P s
        → Next next
        → Q (prepare cluster policy action_id action_type service namespace next snapshots s)
    unfolding prepare
    prepare_rule next snapshots s p k =
        let (there, s1) = kubectl_available cluster policy s in
        elim (Bool-cases there) [
          | inl e ↦
              rw (prepare, e)
                (with_command_rule (build_command action_type service namespace) next snapshots s1
                  (g.version s p) k)
          | inr e ↦ rw (prepare, e) (g.skip snapshots s1 (g.version s p))
        ]
