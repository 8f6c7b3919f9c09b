-- ===== src/Safety/Guarded.antt =====
-- What the gates after the policy have checked of a destructive action that they let through.
use ai_devops_copilot.Base.{
  ◌<◌, String, ◌==◌, ◌≡◌, sym, true, false, inl, inr, [], ◌∷◌, contains, ◌∙◌, ap,
}
use mathlib.Core.Path.{subst}
use ai_devops_copilot.Base.Effects.{Eff}
use ai_devops_copilot.Actions.{
  safe_actions, destructive_actions, IsDestructive, destructive-ne-safe,
}
use ai_devops_copilot.World.{World}
use ai_devops_copilot.Policy.{Policy, action}
use ai_devops_copilot.MemoryStore.Incidents.{minutes, count_unresolved_actions}
use ai_devops_copilot.MemoryStore.Locks.{try_acquire_action_lock}
use ai_devops_copilot.LoopDetector.{check_loop}
use ai_devops_copilot.Safety.Types.{Request, Progress, Flow, go, ◌>>=◌, >>=-eq-go}
use ai_devops_copilot.Safety.Gates.{
  proposed_namespace, rate_limit_of, blast_radius_ok, count_budget, loop_gate, idempotency_gate,
  namespace_gate, severity_gate, blast_radius_gate, rate_gate, budget_gate,
}
use ai_devops_copilot.Safety.Gates.Passed.{
  loop-go, idempotency-go, namespace-go, severity-go, blast_radius-go, rate-go, budget-go,
}
use ai_devops_copilot.Safety.{guard}

-- A chain that lets a destructive action through left it unchanged, and has checked `F` of it.
pub record Clears {S : Type 0} (p : Progress) (m : Eff S Flow) (F : String → Type 0) : Type 0 where
  pub at :
      (s : S) (q : Progress)
      → (m s).0 ≡ go q
      → IsDestructive q.action_type
      → (q.action_type ≡ p.action_type) × F q.action_type

Clears-bind :
    {S : Type 0} (p : Progress) (m : Eff S Flow) (f : Progress → Eff S Flow) (F G : String → Type 0)
    → Clears p m F
    → ((p' : Progress) → Clears p' (f p') G)
    → Clears p (m >>= f) (λ a. F a × G a)
Clears-bind p m f F G c k = record {
  at = λ s q h d.
      let (p', e, h') = >>=-eq-go m f s h in
      let (same', g) = (k p').at (m s).1 q h' d in
      let (same, r) = c.at s p' e (subst IsDestructive same' d) in
      (same' ∙ same, (subst F (sym same') r, g));
}

not-notify : (a : String) → IsDestructive a → a ≡ "notify" → ⊥
unfolding contains
not-notify a d e = let d' : contains destructive_actions "notify" ≡ true = rw e at d in cc

-- Each answer of the store is the one that the gate got, in the state in which it asked.
module _ (w : World) (policy : Policy) (req : Request w.floats.Real) where
  abbrev pub NotLooping : String → Type 0
  NotLooping a =
      (s : w.State) × ((check_loop w req.service req.error_type 60 s).0.loop_detected ≡ false)

  abbrev pub Locked : String → Type 0
  Locked a =
      (s : w.State) × ((try_acquire_action_lock w req.service a
          policy.global.idempotency_window_seconds s).0
        ≡ true)

  abbrev pub Unprotected : String → Type 0
  Unprotected a =
      contains policy.global.protected_namespaces (proposed_namespace req.proposed_action) ≡ false

  abbrev pub Severe : String → Type 0
  Severe a =
      (contains ("high" ∷ "critical" ∷ []) req.severity ≡ true)
      × ((req.confidence == "low") ≡ false)

  abbrev pub Contained : String → Type 0
  Contained a =
      contains ("high" ∷ "critical" ∷ []) req.blast_radius_score ≡ true
      → blast_radius_ok w policy req ≡ true

  abbrev pub BelowRate : String → Type 0
  BelowRate a =
      (s : w.State) × (0 < rate_limit_of (action policy a)
        → (count_unresolved_actions w req.service req.error_type (minutes 10) s).0
          < rate_limit_of (action policy a))

  abbrev pub WithinBudget : String → Type 0
  WithinBudget a =
      (s : w.State) × ((count_budget w policy req destructive_actions s).0
        < policy.global.action_budget_per_hour)

  loop-Clears : (p : Progress) → Clears p (loop_gate w policy req p) NotLooping
  loop-Clears p = record {
    at = λ s q h d. elim (loop-go w policy req p s h).1 [
      | inl (same, quiet) ↦ (same, (s, quiet))
      | inr e ↦ absurd (not-notify q.action_type d e)
    ];
  }

  idempotency-Clears : (p : Progress) → Clears p (idempotency_gate w policy req p) Locked
  idempotency-Clears p = record {
    at = λ s q h d.
        let (same, lock) = idempotency-go w policy req p s h in
        elim lock [
          | inl safe ↦
              cc (destructive-ne-safe q.action_type d, ap (contains safe_actions) same, safe)
          | inr held ↦ (same, (s, rw same held))
        ];
  }

  namespace-Clears : (p : Progress) → Clears p (namespace_gate w policy req p) Unprotected
  namespace-Clears p = record { at = λ s q h d. namespace-go w policy req p s h }

  severity-Clears : (p : Progress) → Clears p (severity_gate w policy req p) Severe
  severity-Clears p = record {
    at = λ s q h d.
        let (same, grave) = severity-go w policy req p s h in
        (same, grave (subst IsDestructive same d));
  }

  blast_radius-Clears : (p : Progress) → Clears p (blast_radius_gate w policy req p) Contained
  blast_radius-Clears p = record {
    at = λ s q h d.
        let (same, within) = blast_radius-go w policy req p s h in
        (same, within (subst IsDestructive same d));
  }

  rate-Clears : (p : Progress) → Clears p (rate_gate w policy req p) BelowRate
  rate-Clears p = record {
    at = λ s q h d.
        let (same, below) = rate-go w policy req p s h in
        (same, (s, rw same (below (subst IsDestructive same d))));
  }

  budget-Clears : (p : Progress) → Clears p (budget_gate w policy req p) WithinBudget
  budget-Clears p = record {
    at = λ s q h d.
        let (same, within) = budget-go w policy req p s h in
        (same, (s, within (subst IsDestructive same d)));
  }

  abbrev pub Guarded : String → Type 0
  Guarded a =
      NotLooping a
      × (Locked a × (Unprotected a × (Severe a × (Contained a × (BelowRate a × WithinBudget a)))))

  pub guard-Clears : (p : Progress) → Clears p (guard w policy req p) Guarded
  unfolding guard
  guard-Clears p = Clears-bind p (loop_gate w policy req p) _ NotLooping _ (loop-Clears p) λ p₁.
      Clears-bind p₁ (idempotency_gate w policy req p₁) _ Locked _ (idempotency-Clears p₁) λ p₂.
        Clears-bind p₂ (namespace_gate w policy req p₂) _ Unprotected _ (namespace-Clears p₂) λ p₃.
          Clears-bind p₃ (severity_gate w policy req p₃) _ Severe _ (severity-Clears p₃) λ p₄.
            Clears-bind p₄ (blast_radius_gate w policy req p₄) _ Contained _
              (blast_radius-Clears p₄)
              λ p₅.
                Clears-bind p₅ (rate_gate w policy req p₅) _ BelowRate WithinBudget (rate-Clears p₅)
                  budget-Clears
