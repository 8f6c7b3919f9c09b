-- ===== src/Actions.antt =====
-- The action names that the safety stack tells apart (`_SAFE_ACTIONS` and `_DESTRUCTIVE_ACTIONS`
-- of agent-backend/app/core/safety.py; approval.py and llm/client.py declare the same set).
use ai_devops_copilot.Base.{
  String, ◌==◌, eq_iff, ◌≡◌, sym, true, false, ◌⊎◌, inl, inr, List, [], ◌∷◌, arith, contains,
  Bool-cases,
}

abbrev pub safe_actions : List String
safe_actions = "notify" ∷ "no_action" ∷ []

abbrev pub destructive_actions : List String
destructive_actions = "restart_pod" ∷ "rollback" ∷ "scale_up" ∷ []

abbrev pub IsDestructive : String → Type 0
IsDestructive a = contains destructive_actions a ≡ true

abbrev pub OneOf : String → Type 0
OneOf a = (a ≡ "restart_pod") ⊎ ((a ≡ "rollback") ⊎ (a ≡ "scale_up"))

pub destructive_cases : (a : String) → IsDestructive a → OneOf a
unfolding contains
destructive_cases a h = elim (Bool-cases ("restart_pod" == a)) [
  | inl e ↦ inl (sym ((eq_iff _ _).0 e))
  | inr n ↦ elim (Bool-cases ("rollback" == a)) [
    | inl e ↦ inr (inl (sym ((eq_iff _ _).0 e)))
    | inr n' ↦ elim (Bool-cases ("scale_up" == a)) [
      | inl e ↦ inr (inr (sym ((eq_iff _ _).0 e)))
      | inr n'' ↦ ground arith
    ]
  ]
]

-- a destructive action is not a safe one
pub destructive-ne-safe : (a : String) → IsDestructive a → contains safe_actions a ≡ false
unfolding contains
destructive-ne-safe a h = go (destructive_cases a h)
  where
    go : OneOf a → contains safe_actions a ≡ false
    go (inl e) = rw e
    go (inr (inl e)) = rw e
    go (inr (inr e)) = rw e
