-- ===== src/Executor/DryRun.antt =====
-- A dry run changes nothing, and nothing is applied that the server has refused in a dry run.
use ai_devops_copilot.Base.{
  String, ◌≡◌, Bool, true, false, ◌||◌, List, arith, contains, Bool-cases, ◌⊎◌, inl, inr,
}
use ai_devops_copilot.Policy.{GlobalPolicy}
use ai_devops_copilot.Cluster.{Cluster}
use ai_devops_copilot.Rollback.{Snapshots}
use ai_devops_copilot.Executor.Types.{fine, noop_actions}
use ai_devops_copilot.Executor.Polling.{run, kubectl_available}
use ai_devops_copilot.Executor.{apply, apply_and_poll, execute_sync, start_poll, execute_async}
use ai_devops_copilot.Executor.Guards.{dry, Guards, prepare_rule}

module _ (cluster : Cluster) (policy : GlobalPolicy) where
  open cluster use {es}

  -- what asking kubectl for its version, and dry runs on the server, leave as it is
  pub record IsInert (P : es.State → Type 0) : Type 0 where
    pub version : (s : es.State) → P s → P (kubectl_available cluster policy s).1
    pub trial : (args : List String) (s : es.State) → P s → P (run cluster policy (dry args) s).1

  -- the server refuses every dry run
  abbrev pub Refuses : Type 0
  Refuses =
      (args : List String) (s : es.State) (out : String)
      → (run cluster policy (dry args) s).0 ≡ fine out
      → ⊥

  module _ (P : es.State → Type 0) (inert : IsInert P)
      (action_id action_type service namespace : String) where
    guards : Guards cluster policy action_id action_type service namespace P (λ r. P r.1)
    guards = record {
      version = inert.version;
      trial = inert.trial;
      skip = λ snapshots s p. p;
      fail = λ error snapshots s p. p;
    }

    -- Whatever asking for the version and dry runs on the server leave as it is, a call with
    -- `dry_run` leaves as it is, and so does any call while the server refuses the dry runs.
    pub execute_sync-Inert :
        (dry_run : Bool) (snapshots : Snapshots) (s : es.State)
        → (dry_run ≡ true) ⊎ Refuses
        → P s
        → P
            (execute_sync cluster policy action_id action_type service namespace dry_run snapshots
              s).1
    unfolding execute_sync apply_and_poll
    execute_sync-Inert dry_run snapshots s why p =
        elim (Bool-cases (contains noop_actions action_type)) [
          | inl e ↦ rw (execute_sync, e) p
          | inr e ↦
              rw (execute_sync, e)
                (prepare_rule cluster policy action_id action_type service namespace P (λ r. P r.1)
                  guards
                  (apply_and_poll cluster policy action_id action_type service namespace dry_run
                    snapshots)
                  snapshots s p (next dry_run why))
        ]
      where
        next :
            (dry_run : Bool)
            → (dry_run ≡ true) ⊎ Refuses
            → (args : List String) (s' : es.State) (out : String)
            → (run cluster policy (dry args) s').0 ≡ fine out
            → P s'
            → P
                (apply_and_poll cluster policy action_id action_type service namespace dry_run
                  snapshots args
                  (run cluster policy (dry args) s').1).1
        next true why args s' out e p' = inert.trial args s' p'
        next false (inl wet) args s' out e p' = ground (arith, wet)
        next false (inr refuses) args s' out e p' = absurd (refuses args s' out e)

    -- Whatever asking for the version and dry runs on the server leave as it is, the asynchronous
    -- call leaves as it is if it is called with `dry_run`, or while the server refuses the dry runs.
    execute_async-Inert :
        (dry_run : Bool) (snapshots : Snapshots) (s : es.State)
        → (dry_run ≡ true) ⊎ Refuses
        → P s
        → P
            (execute_async cluster policy action_id action_type service namespace dry_run snapshots
              s).1
    unfolding execute_async
    execute_async-Inert dry_run snapshots s why p =
        elim (Bool-cases (contains noop_actions action_type || dry_run)) [
          | inl e ↦ rw (execute_async, e) (execute_sync-Inert dry_run snapshots s why p)
          | inr e ↦
              rw (execute_async, e)
                (prepare_rule cluster policy action_id action_type service namespace P (λ r. P r.1)
                  guards
                  (λ cmd_args.
                    apply cluster policy action_id action_type service namespace cmd_args
                      (start_poll cluster policy action_id action_type) snapshots)
                  snapshots s p
                  (λ args s' out fine_run p'. absurd (refuse why e args s' out fine_run)))
        ]
      where
        refuse :
            (dry_run ≡ true) ⊎ Refuses
            → (contains noop_actions action_type || dry_run) ≡ false
            → Refuses
        refuse (inl set) clear args s' out e = ground (arith, set, clear)
        refuse (inr refuses) clear args s' out e = refuses args s' out e
