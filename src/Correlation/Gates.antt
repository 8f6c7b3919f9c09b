-- ===== src/Correlation/Gates.antt =====
-- What stands behind a rollback candidate.
use mathlib.Core.Path.{subst}
use ai_devops_copilot.Base.{
  ℕ, ◌≤◌, String, ◌≡◌, refl, Bool, true, false, ◌⊎◌, inl, inr, Option, none, some, List, [], ◌∷◌,
  arith, All, Bool-cases,
}
use ai_devops_copilot.World.{World}
use ai_devops_copilot.Correlation.{
  DeploymentEvent, RollbackCandidate, Rollouts, Tunables, Cache, is_known, is_production,
}
use ai_devops_copilot.Correlation.Closest.{Marked, Holds, closest-Marked}
use ai_devops_copilot.Correlation.Analysis.{
  is_recent, annotate, annotate_all, recent_of, closest, candidate_for, candidate_of, can_recommend,
  recommend, correlate, fetch_deployments, analyze_deployment_correlation,
}

abbrev pub In : {A : Type 0} → A → List A → Type 0
In x [] = ⊥
In x (y ∷ ys) = (y ≡ x) ⊎ In x ys

module _ (es : World) (rollouts : Rollouts es) (tunables : Tunables) where
  open es use {State, floats}
  open floats use {Real, lt}

  abbrev Event : Type 0
  Event = DeploymentEvent Real

  -- what was recently rolled out, before the change-point
  abbrev pub Precedes : Real → Event → Type 0
  Precedes change_point e =
      (is_recent es rollouts tunables tunables.window_minutes e ≡ true)
      × (lt change_point e.deployment_age_minutes ≡ true)

  -- an event with a property that came before, by the names that a candidate shows
  abbrev Behind : (Event → Type 0) → Real → Event → Type 0
  Behind D change_point a =
      (o : Event) × D o
      × Precedes change_point o
      × (o.deployment_name ≡ a.deployment_name)
      × (o.image_tag ≡ a.image_tag)

  -- an annotated event is one of the events that came before, or carries no gap
  annotate-Marked :
      (D : Event → Type 0) (change_point : Real) (e : Event)
      → D e
      → e.minutes_before_incident ≡ none
      → is_recent es rollouts tunables tunables.window_minutes e ≡ true
      → Marked es rollouts tunables
          (Behind D change_point)
          (annotate es rollouts tunables (some change_point) e)
  unfolding annotate
  annotate-Marked D change_point e d fresh recent m marked =
      elim (Bool-cases (lt change_point e.deployment_age_minutes)) [
        | inl before ↦ (e, d, (recent, before), rw before refl, rw before refl)
        | inr after ↦ absurd (ground arith)
      ]

  annotate_all-Marked :
      (D : Event → Type 0) (change_point : Real) (events : List Event)
      → All (λ e. D e × (e.minutes_before_incident ≡ none)) events
      → All (Marked es rollouts tunables (Behind D change_point)) (
          annotate_all es rollouts tunables tunables.window_minutes
            (some change_point)
            (recent_of es rollouts tunables tunables.window_minutes events))
  unfolding annotate_all recent_of
  annotate_all-Marked D change_point [] h = tt
  annotate_all-Marked D change_point (e ∷ events) h =
      let rest = annotate_all-Marked D change_point events h.1 in
      elim (Bool-cases (is_recent es rollouts tunables tunables.window_minutes e)) [
        | inr late ↦ rw late rest
        | inl recent ↦
            rw (recent, recent) (annotate-Marked D change_point e h.0.0 h.0.1 recent, rest)
      ]

  -- what the gates ask for, and the rollout that the candidate names
  abbrev pub Gated : (Event → Type 0) → Bool → ℕ → Option Real → RollbackCandidate → Type 0
  Gated D production confidence change_point c =
      (production ≡ false)
      × (tunables.confidence_threshold ≤ confidence)
      × (c.auto_executable ≡ false)
      × (at : Real) × (change_point ≡ some at)
      × (o : Event) × D o
      × Precedes at o
      × (o.deployment_name ≡ c.deployment)
      × (o.image_tag ≡ c.current_image)

  candidate_for-Gated :
      (D : Event → Type 0) (production : Bool) (confidence : ℕ) (at : Real) (score : String)
      (top : Option (Event × Real)) (c : RollbackCandidate)
      → production ≡ false
      → tunables.confidence_threshold ≤ confidence
      → Holds es rollouts tunables (Behind D at) top
      → candidate_for es rollouts tunables score top ≡ some c
      → Gated D production confidence (some at) c
  unfolding candidate_for candidate_of
  candidate_for-Gated D production confidence at score none c p t h e = absurd (ground arith)
  candidate_for-Gated D production confidence at score (some top) c p t (o, d, q, n, i) e =
      let same : candidate_of es rollouts tunables score top ≡ c = cc in
      subst (Gated D production confidence (some at)) same (p, t, refl, at, refl, o, d, q, n, i)

  can_recommend-gates :
      (production : Bool) (confidence : ℕ) (change_point : Option Real) (recent : List Event)
      → can_recommend es rollouts tunables production confidence change_point recent ≡ true
      → (production ≡ false)
        × (tunables.confidence_threshold ≤ confidence)
        × (is_known change_point ≡ true)
  unfolding can_recommend
  can_recommend-gates production confidence change_point recent e = ground arith

  -- a candidate that is recommended passed the gates, and was chosen among the annotated events
  recommend-eq-some :
      (production : Bool) (confidence : ℕ) (change_point : Option Real) (score : String)
      (recent : List Event) (c : RollbackCandidate)
      → recommend es rollouts tunables production confidence change_point score recent ≡ some c
      → (can_recommend es rollouts tunables production confidence change_point recent ≡ true)
        × (candidate_for es rollouts tunables score (
              closest es rollouts tunables
                (annotate_all es rollouts tunables tunables.window_minutes change_point recent))
            ≡ some c)
  unfolding recommend
  recommend-eq-some production confidence change_point score recent c e =
      elim (Bool-cases
        (can_recommend es rollouts tunables production confidence change_point recent)) [
          | inl can ↦ (can, ground arith)
          | inr refused ↦ absurd (ground arith)
        ]

  recommend-Gated :
      (D : Event → Type 0) (production : Bool) (confidence : ℕ) (change_point : Option Real)
      (score : String) (events : List Event) (c : RollbackCandidate)
      → All (λ e. D e × (e.minutes_before_incident ≡ none)) events
      → recommend es rollouts tunables production confidence change_point score
          (recent_of es rollouts tunables tunables.window_minutes events)
        ≡ some c
      → Gated D production confidence change_point c
  unfolding is_known
  recommend-Gated D production confidence none score events c h e =
      let (can, chosen) =
        recommend-eq-some production confidence none score
          (recent_of es rollouts tunables tunables.window_minutes events) c e in
      let (p, t, known) =
        can_recommend-gates production confidence none
          (recent_of es rollouts tunables tunables.window_minutes events) can in
      absurd (ground arith)
  recommend-Gated D production confidence (some at) score events c h e =
      let recent = recent_of es rollouts tunables tunables.window_minutes events in
      let (can, chosen) = recommend-eq-some production confidence (some at) score recent c e in
      let (p, t, known) = can_recommend-gates production confidence (some at) recent can in
      candidate_for-Gated D production confidence at score
        (closest es rollouts tunables
          (annotate_all es rollouts tunables tunables.window_minutes (some at) recent))
        c p t
        (closest-Marked es rollouts tunables (Behind D at)
          (annotate_all es rollouts tunables tunables.window_minutes (some at) recent)
          (annotate_all-Marked D at events h))
        chosen

  All-In :
      (P : Event → Type 0) (events : List Event) → ((e : Event) → In e events → P e) → All P events
  All-In P [] h = tt
  All-In P (e ∷ events) h = (h e (inl refl), All-In P events (λ o i. h o (inr i)))

  -- Where the events that were fetched carry nothing from an earlier analysis, a rollback is
  -- recommended only outside of production, with a confidence that reaches the threshold and a known
  -- change-point; it is never to be executed by itself, and it names a deployment among the events
  -- that was rolled out within the window and before the change-point.
  pub analyze_deployment_correlation-Gated :
      (service namespace : String) (change_point : Option Real) (confidence : ℕ) (score : String)
      (cache : Cache Real) (s : State) (events : List Event) (c : RollbackCandidate)
      → (fetch_deployments es rollouts tunables namespace service cache s).0.0 ≡ some events
      → ((e : Event) → In e events → e.minutes_before_incident ≡ none)
      → (analyze_deployment_correlation es rollouts tunables service namespace change_point
          confidence score cache s).0.0.rollback_candidate
        ≡ some c
      → Gated
          (λ e. In e events)
          (is_production tunables.production_namespaces namespace)
          confidence
          change_point
          c
  unfolding analyze_deployment_correlation correlate
  analyze_deployment_correlation-Gated service namespace change_point confidence score cache s
        events c fetched fresh e =
      recommend-Gated (λ o. In o events) (is_production tunables.production_namespaces namespace)
        confidence change_point score events c
        (All-In (λ o. In o events × (o.minutes_before_incident ≡ none)) events
          (λ o i. (i, fresh o i)))
        (subst
          (λ found.
            (correlate es rollouts tunables (is_production tunables.production_namespaces namespace)
              confidence change_point score found).rollback_candidate
            ≡ some c)
          fetched e)
