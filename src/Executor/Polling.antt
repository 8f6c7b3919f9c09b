-- ===== src/Executor/Polling.antt =====
-- agent-backend/app/core/action_executor.py: kubectl, and the poll of a rollout that renews the lease.
use ai_devops_copilot.Base.{
  ℕ, zero, suc, ◌+◌, String, ◌==◌, Bool, not, Option, none, some, List, [], ◌∷◌, leb, ltb,
  if◌then◌else◌,
}
use ai_devops_copilot.Base.Effects.{Eff}
use ai_devops_copilot.Policy.{GlobalPolicy}
use ai_devops_copilot.MemoryStore.Incidents.{seconds}
use ai_devops_copilot.MemoryStore.Leases.{renew_lease}
use ai_devops_copilot.Cluster.{Cluster}
use ai_devops_copilot.Rollback.{get_args}
use ai_devops_copilot.Executor.Types.{
  poll_interval, poll_max, lease_id, Finished, fine, bad, finished, available, counts_of,
}

abbrev pub counts_or_none : Option (ℕ × ℕ) → ℕ × ℕ
counts_or_none none = (1, 0)
counts_or_none (some counts) = counts

module _ (cluster : Cluster) (policy : GlobalPolicy) where
  open cluster use {es, kubectl, monotonic, sleep, loads}

  unfoldable pub run : List String → Eff es.State Finished
  run args s = let (r, s') = kubectl args none s in (finished r, s')

  unfoldable pub kubectl_available : Eff es.State Bool
  kubectl_available s =
      let (r, s') = kubectl ("version" ∷ "--client" ∷ []) none s in (available r, s')

  replicas_in : Finished → ℕ × ℕ
  replicas_in (bad err) = (1, 0)
  replicas_in (fine out) = if out == "" then (1, 0) else counts_of (loads out)

  unfoldable pub get_deployment_replicas : String → String → Eff es.State (ℕ × ℕ)
  unfolding replicas_in
  get_deployment_replicas service namespace s =
      let (r, s') = run (get_args cluster service namespace) s in (replicas_in r, s')

  -- `again` is the loop with the time of the last renewal; `none` where the fuel has run out
  unfoldable pub after_counts :
      (ℕ → Eff es.State (Option (ℕ × ℕ))) → String → ℕ → ℕ × ℕ → Eff es.State (Option (ℕ × ℕ))
  after_counts again action_id last_renew counts s =
      if leb counts.0 counts.1
      then (some counts, s)
      else let (t, s1) = monotonic s in
        if ltb t (last_renew + seconds policy.lease_renewal_seconds)
        then again last_renew (sleep poll_interval s1)
        else let (held, s2) =
            renew_lease es (lease_id action_id) es.hostname policy.lease_ttl_seconds s1 in
          if not held
          then (some counts, s2)
          else let (t', s3) = monotonic s2 in again t' (sleep poll_interval s3)

  -- the look after the deadline
  unfoldable pub last_look : String → String → Eff es.State (Option (ℕ × ℕ))
  last_look service namespace s =
      let (counts, s') = get_deployment_replicas service namespace s in (some counts, s')

  unfoldable pub poll_turn :
      (ℕ → Eff es.State (Option (ℕ × ℕ)))
      → (action_id service namespace : String) (deadline last_renew : ℕ)
      → Eff es.State (Option (ℕ × ℕ))
  poll_turn again action_id service namespace deadline last_renew s =
      let (t, s1) = monotonic s in
      if leb deadline t
      then last_look service namespace s1
      else let (counts, s2) = get_deployment_replicas service namespace s1 in
        after_counts again action_id last_renew counts s2

  unfoldable pub poll_loop :
      ℕ
      → (action_id service namespace : String) (deadline last_renew : ℕ)
      → Eff es.State (Option (ℕ × ℕ))
  poll_loop zero action_id service namespace deadline last_renew s = (none, s)
  poll_loop (suc fuel) action_id service namespace deadline last_renew s =
      poll_turn (poll_loop fuel action_id service namespace deadline) action_id service namespace
        deadline last_renew s

  -- 90 seconds hold 18 turns of 5 seconds, and one more turn sees the deadline
  unfoldable pub poll_ready : (action_id service namespace : String) → Eff es.State (ℕ × ℕ)
  poll_ready action_id service namespace s =
      let (t, s1) = monotonic s in
      let (t', s2) = monotonic s1 in
      let (r, s3) = poll_loop 19 action_id service namespace (t + poll_max) t' s2 in
      (counts_or_none r, s3)
