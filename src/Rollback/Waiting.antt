-- ===== src/Rollback/Waiting.antt =====
-- `_wait_for_running` ends within its fuel on a clock that advances, and what its answer means.
use ai_devops_copilot.Base.{
  ℕ, zero, suc, ◌+◌, ◌*◌, ◌≤◌, String, ◌≡◌, ap, refl, Bool, true, false, Option, none, some, List,
  arith, leb, le→leb, Bool-cases, inl, inr, sym, ◌∙◌,
}
use ai_devops_copilot.World.{Lease}
use ai_devops_copilot.Cluster.{Cluster, Manifest}
use ai_devops_copilot.Rollback.{
  rollback_poll_interval, rollback_poll_timeout, run_kubectl, get_args, get_deployment_status,
  is_running, wait_turn, wait_loop, wait_for_running, is_up, desired_of, ready_of,
}

-- The clock never goes back, and a sleep takes at least its time.
pub record IsClock (cluster : Cluster) (clock_at : cluster.es.State → ℕ) : Type 0 where
  pub read : (s : cluster.es.State) → (cluster.monotonic s).0 ≡ clock_at s
  pub monotonic-le : (s : cluster.es.State) → clock_at s ≤ clock_at (cluster.monotonic s).1
  pub kubectl-le :
      (args : List String) (stdin : Option String) (s : cluster.es.State)
      → clock_at s ≤ clock_at (cluster.kubectl args stdin s).1
  pub now-le : (s : cluster.es.State) → clock_at s ≤ clock_at (cluster.es.now s).1
  pub update_lease-le :
      (id : String) (script : Lease → Option Lease) (s : cluster.es.State)
      → clock_at s ≤ clock_at (cluster.es.update_lease id script s).1
  pub sleep-le : (d : ℕ) (s : cluster.es.State) → clock_at s + d ≤ clock_at (cluster.sleep d s)

is_up-eq-some : (r : Option Bool) → is_up r ≡ true → r ≡ some true
is_up-eq-some none h = ground (arith, h)
is_up-eq-some (some b) h = ap some h

-- a deployment with at least one replica ready, and with as many as it asks for
pub record AllReady (spec : Manifest) : Type 0 where
  pub ready : ℕ
  pub reported : spec.ready_replicas ≡ some ready
  pub one : 1 ≤ ready
  pub all : (wanted : ℕ) → spec.replicas ≡ some wanted → wanted ≤ ready

ready-AllReady :
    (spec : Manifest) (wanted ready : Option ℕ)
    → spec.replicas ≡ wanted
    → spec.ready_replicas ≡ ready
    → leb (desired_of wanted) (ready_of ready) ≡ true
    → AllReady spec
unfolding desired_of ready_of
ready-AllReady spec none none e f h = ground (arith, h)
ready-AllReady spec (some zero) none e f h = ground (arith, h)
ready-AllReady spec (some (suc n)) none e f h = ground (arith, h)
ready-AllReady spec none (some m) e f h = record {
  ready = m;
  reported = f;
  one = ground (arith, h);
  all = λ wanted g. absurd (ground arith);
}
ready-AllReady spec (some n) (some m) e f h = record {
  ready = m;
  reported = f;
  one = ground (arith, h);
  all = λ wanted g. let same : some n ≡ some wanted = sym e ∙ g in ground (arith, h);
}

module _ (cluster : Cluster) (service namespace : String) where
  open cluster use {es}

  is_running-AllReady :
      (seen : Option Manifest)
      → is_running cluster seen ≡ true
      → (spec : Manifest) × (seen ≡ some spec) × AllReady spec
  unfolding is_running
  is_running-AllReady none h = ground (arith, h)
  is_running-AllReady (some spec) h =
      (spec, refl, ready-AllReady spec spec.replicas spec.ready_replicas refl refl h)

  -- the last thing that was done was to look at the deployment, and it had its replicas ready
  pub record IsSeenRunning (last : es.State) : Type 0 where
    pub before : es.State
    pub spec : Manifest
    pub seen : (get_deployment_status cluster service namespace before).0 ≡ some spec
    pub ready : AllReady spec
    pub now : last ≡ (get_deployment_status cluster service namespace before).1

  wait_loop-IsSeenRunning :
      (fuel deadline : ℕ) (s : es.State)
      → (wait_loop cluster fuel service namespace deadline s).0 ≡ some true
      → IsSeenRunning (wait_loop cluster fuel service namespace deadline s).1
  unfolding wait_loop wait_turn
  wait_loop-IsSeenRunning zero deadline s h = ground (arith, h)
  wait_loop-IsSeenRunning (suc fuel) deadline s h =
      let s1 = (cluster.monotonic s).1 in
      let s2 = (get_deployment_status cluster service namespace s1).1 in
      let s3 = cluster.sleep rollback_poll_interval s2 in
      elim (Bool-cases (leb deadline (cluster.monotonic s).0)) [
        | inl late ↦ absurd (ground arith)
        | inr early ↦
            elim (Bool-cases
              (is_running cluster (get_deployment_status cluster service namespace s1).0)) [
                | inl up ↦
                    let (spec, seen, ready) =
                      is_running-AllReady (get_deployment_status cluster service namespace s1).0
                        up in
                    rw (early, up)
                      (record { before = s1; spec = spec; seen = seen; ready = ready; now = refl })
                | inr down ↦
                    rw (early, down) (wait_loop-IsSeenRunning fuel deadline s3 (ground arith))
              ]
      ]

  pub wait_for_running-IsSeenRunning :
      (s : es.State)
      → (wait_for_running cluster service namespace s).0 ≡ true
      → IsSeenRunning (wait_for_running cluster service namespace s).1
  unfolding wait_for_running
  wait_for_running-IsSeenRunning s h =
      let (t, s1) = cluster.monotonic s in
      wait_loop-IsSeenRunning 31 (t + rollback_poll_timeout) s1 (is_up-eq-some _ h)

  module _ (clock_at : es.State → ℕ) (laws : IsClock cluster clock_at) where
    get_deployment_status-le :
        (s : es.State) → clock_at s ≤ clock_at (get_deployment_status cluster service namespace s).1
    unfolding get_deployment_status run_kubectl
    get_deployment_status-le s = laws.kubectl-le (get_args cluster service namespace) none s

    pub wait_loop-Ends :
        (fuel deadline : ℕ) (s : es.State)
        → deadline ≤ clock_at s + fuel * rollback_poll_interval
        → (b : Bool) × ((wait_loop cluster (suc fuel) service namespace deadline s).0 ≡ some b)
    unfolding wait_loop wait_turn
    wait_loop-Ends zero deadline s h =
        (false, rw (le→leb deadline (cluster.monotonic s).0 (omega (arith, h, laws.read s))))
    wait_loop-Ends (suc fuel) deadline s h =
        let s1 = (cluster.monotonic s).1 in
        let s2 = (get_deployment_status cluster service namespace s1).1 in
        let s3 = cluster.sleep rollback_poll_interval s2 in
        elim (Bool-cases (leb deadline (cluster.monotonic s).0)) [
          | inl late ↦ (false, rw late)
          | inr early ↦
              elim (Bool-cases
                (is_running cluster (get_deployment_status cluster service namespace s1).0)) [
                  | inl up ↦ (true, rw (early, up))
                  | inr down ↦
                      let (b, e) = wait_loop-Ends fuel deadline s3 (
                        omega (
                          arith,
                          h,
                          laws.monotonic-le s,
                          get_deployment_status-le s1,
                          laws.sleep-le rollback_poll_interval s2,
                        )) in
                      (b, rw (early, down) e)
                ]
        ]

    -- On a clock that never goes back and whose sleeps take at least their time, the loop of
    -- `_wait_for_running` ends by its own tests, and the call answers what the loop does.
    wait_for_running-Ends :
        (s : es.State)
        → let (t, s1) = cluster.monotonic s in
          (b : Bool) × ((wait_loop cluster 31 service namespace (t + rollback_poll_timeout) s1).0
            ≡ some b)
          × ((wait_for_running cluster service namespace s).0 ≡ b)
    unfolding wait_for_running
    wait_for_running-Ends s =
        let (t, s1) = cluster.monotonic s in
        let (b, e) =
          wait_loop-Ends 30 (t + rollback_poll_timeout) s1
            (omega (arith, laws.read s, laws.monotonic-le s)) in
        (b, e, ap is_up e)
