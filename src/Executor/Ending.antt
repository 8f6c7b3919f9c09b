-- ===== src/Executor/Ending.antt =====
-- `_poll_ready` ends within its fuel.
use ai_devops_copilot.Base.{
  ℕ, zero, suc, ◌+◌, ◌*◌, ◌≤◌, String, ◌≡◌, ap, refl, Option, none, some, arith, ltb, leb, le→leb,
  Bool-cases, inl, inr,
}
use ai_devops_copilot.Base.Effects.{Eff}
use ai_devops_copilot.Policy.{GlobalPolicy}
use ai_devops_copilot.MemoryStore.Incidents.{seconds}
use ai_devops_copilot.MemoryStore.Leases.{renew_lease, renew_script}
use ai_devops_copilot.Cluster.{Cluster}
use ai_devops_copilot.Rollback.{get_args}
use ai_devops_copilot.Rollback.Waiting.{IsClock}
use ai_devops_copilot.Executor.Types.{poll_interval, poll_max, lease_id}
use ai_devops_copilot.Executor.Polling.{
  run, get_deployment_replicas, last_look, after_counts, poll_turn, poll_loop, poll_ready,
  counts_or_none,
}

module _ (cluster : Cluster) (policy : GlobalPolicy) (action_id service namespace : String) where
  open cluster use {es}

  module _ (clock_at : es.State → ℕ) (laws : IsClock cluster clock_at) where
    replicas-le :
        (s : es.State)
        → clock_at s ≤ clock_at (get_deployment_replicas cluster policy service namespace s).1
    unfolding get_deployment_replicas run
    replicas-le s = laws.kubectl-le (get_args cluster service namespace) none s

    renew_lease-le :
        (id owner : String) (ttl : ℕ) (s : es.State)
        → clock_at s ≤ clock_at (renew_lease es id owner ttl s).1
    unfolding renew_lease
    renew_lease-le id owner ttl s =
        let (t, s1) = es.now s in
        omega
          (arith, laws.now-le s, laws.update_lease-le id (renew_script owner (t + seconds ttl)) s1)

    abbrev Ends : Option (ℕ × ℕ) → Type 0
    Ends r = (counts : ℕ × ℕ) × (r ≡ some counts)

    after_counts-Ends :
        (again : ℕ → Eff es.State (Option (ℕ × ℕ))) (last_renew : ℕ) (counts : ℕ × ℕ) (s : es.State)
        → ((last : ℕ) (s' : es.State)
            → clock_at s + poll_interval ≤ clock_at s'
            → Ends (again last s').0)
        → Ends (after_counts cluster policy again action_id last_renew counts s).0
    unfolding after_counts
    after_counts-Ends again last_renew counts s k =
        let (t, s1) = cluster.monotonic s in
        let (held, s2) =
          renew_lease es (lease_id action_id) es.hostname policy.lease_ttl_seconds s1 in
        elim (Bool-cases (leb counts.0 counts.1)) [
          | inl enough ↦ rw enough (counts, refl)
          | inr few ↦
              elim (Bool-cases (ltb t (last_renew + seconds policy.lease_renewal_seconds))) [
                | inl fresh ↦
                    rw (few, fresh)
                      (k last_renew (cluster.sleep poll_interval s1)
                        (omega (arith, laws.monotonic-le s, laws.sleep-le poll_interval s1)))
                | inr due ↦ elim (Bool-cases held) [
                  | inl kept ↦
                      rw (few, due, kept)
                        (k (cluster.monotonic s2).0
                          (cluster.sleep poll_interval (cluster.monotonic s2).1)
                          (omega (
                            arith,
                            laws.monotonic-le s,
                            laws.monotonic-le s2,
                            renew_lease-le (lease_id action_id) es.hostname policy.lease_ttl_seconds
                                s1,
                            laws.sleep-le poll_interval (cluster.monotonic s2).1,
                          )))
                  | inr lost ↦ rw (few, due, lost) (counts, refl)
                ]
              ]
        ]

    poll_loop-Ends :
        (fuel deadline last_renew : ℕ) (s : es.State)
        → deadline ≤ clock_at s + fuel * poll_interval
        → Ends
            (poll_loop cluster policy
              (suc fuel)
              action_id
              service
              namespace
              deadline
              last_renew
              s).0
    unfolding poll_loop poll_turn last_look
    poll_loop-Ends zero deadline last_renew s h = (
      (get_deployment_replicas cluster policy service namespace (cluster.monotonic s).1).0,
      rw (le→leb deadline (cluster.monotonic s).0 (omega (arith, h, laws.read s))),
    )
    poll_loop-Ends (suc fuel) deadline last_renew s h =
        let s1 = (cluster.monotonic s).1 in
        let (counts, s2) = get_deployment_replicas cluster policy service namespace s1 in
        elim (Bool-cases (leb deadline (cluster.monotonic s).0)) [
          | inl late ↦ rw late (counts, refl)
          | inr early ↦ rw early (
              after_counts-Ends
                (poll_loop cluster policy (suc fuel) action_id service namespace deadline)
                last_renew counts s2
                (λ last s' later.
                  poll_loop-Ends fuel deadline last s'
                    (omega (arith, h, later, laws.monotonic-le s, replicas-le s1))))
        ]

    -- On a clock that never goes back and whose sleeps take at least their time, the loop of
    -- `_poll_ready` ends by its own tests, and the call answers what the loop does.
    pub poll_ready-Ends :
        (s : es.State)
        → let (t, s1) = cluster.monotonic s in
          let (t', s2) = cluster.monotonic s1 in
          (counts : ℕ × ℕ) × ((poll_loop cluster policy 19 action_id service namespace
              (t + poll_max)
              t'
              s2).0
            ≡ some counts)
          × ((poll_ready cluster policy action_id service namespace s).0 ≡ counts)
    unfolding poll_ready
    poll_ready-Ends s =
        let (t, s1) = cluster.monotonic s in
        let (t', s2) = cluster.monotonic s1 in
        let (counts, e) =
          poll_loop-Ends 18 (t + poll_max) t' s2
            (omega (arith, laws.read s, laws.monotonic-le s, laws.monotonic-le s1)) in
        (counts, e, ap counts_or_none e)
