-- ===== src/Correlation/Closest.antt =====
-- The event that a candidate is made of is one of those that carry a gap.
use ai_devops_copilot.Base.{
  ◌≡◌, refl, true, false, Option, none, some, List, [], ◌∷◌, All, if◌then◌else◌,
}
use ai_devops_copilot.World.{World}
use ai_devops_copilot.Correlation.{DeploymentEvent, Rollouts, Tunables}
use ai_devops_copilot.Correlation.Analysis.{closer, closest_from, start_with, closest}

module _ (es : World) (rollouts : Rollouts es) (tunables : Tunables) where
  open es use {State, floats}
  open floats use {Real, lt}

  abbrev pub Event : Type 0
  Event = DeploymentEvent Real

  -- Q of every event that carries a gap
  abbrev pub Marked : (Event → Type 0) → Event → Type 0
  Marked Q e = (m : Real) → e.minutes_before_incident ≡ some m → Q e

  closer-Marked :
      (Q : Event → Type 0) (best : Event × Real) (e : Event) (gap : Option Real)
      → Q best.0
      → ((m : Real) → gap ≡ some m → Q e)
      → Q (closer es rollouts tunables best e gap).0
  unfolding closer
  closer-Marked Q best e none q h = q
  closer-Marked Q best e (some m) q h =
      elim (lt m best.1) as (λ x. Q (if x then (e, m) else best).0) [ true ↦ h m refl | false ↦ q ]

  closest_from-Marked :
      (Q : Event → Type 0) (best : Event × Real) (events : List Event)
      → Q best.0
      → All (Marked Q) events
      → Q (closest_from es rollouts tunables best events).0
  unfolding closest_from
  closest_from-Marked Q best [] q h = q
  closest_from-Marked Q best (e ∷ events) q h =
      closest_from-Marked Q (closer es rollouts tunables best e e.minutes_before_incident) events
        (closer-Marked Q best e e.minutes_before_incident q h.0) h.1

  -- Q of what there is
  abbrev pub Holds : (Event → Type 0) → Option (Event × Real) → Type 0
  Holds Q none = Unit
  Holds Q (some top) = Q top.0

  start_with-Marked :
      (Q : Event → Type 0) (e : Event) (events : List Event) (rest : Option (Event × Real))
      (gap : Option Real)
      → ((m : Real) → gap ≡ some m → Q e)
      → All (Marked Q) events
      → Holds Q rest
      → Holds Q (start_with es rollouts tunables e events rest gap)
  unfolding start_with
  start_with-Marked Q e events rest none q h r = r
  start_with-Marked Q e events rest (some m) q h r =
      closest_from-Marked Q (e, m) events (q m refl) h

  pub closest-Marked :
      (Q : Event → Type 0) (events : List Event)
      → All (Marked Q) events
      → Holds Q (closest es rollouts tunables events)
  unfolding closest
  closest-Marked Q [] h = tt
  closest-Marked Q (e ∷ events) h =
      start_with-Marked Q e events (closest es rollouts tunables events) e.minutes_before_incident
        h.0 h.1 (closest-Marked Q events h.1)
