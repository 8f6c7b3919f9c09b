-- ===== src/Decision/Table.antt =====
-- What the built-in decision table lets through.
use ai_devops_copilot.Base.{
  String, ◌==◌, ◌≡◌, refl, true, false, ◌||◌, ◌⊎◌, inl, inr, List, [], ◌∷◌, arith, contains, drop,
  All, Bool-cases,
}
use ai_devops_copilot.Actions.{IsDestructive, OneOf, destructive_cases}
use ai_devops_copilot.Policy.{DecisionRow, first_match, row_matches}
use ai_devops_copilot.Policy.Defaults.{default_table}

abbrev pub CrashRow : String → String → String → Type 0
CrashRow error_type severity confidence =
    (("runtime_crash" == error_type) ≡ true)
    × ((("critical" == severity) || ("high" == severity)) ≡ true)
    × (("high" == confidence) ≡ true)

abbrev Denies : String → DecisionRow → Type 0
Denies a row = contains row.allowed a ≡ false

-- a table whose rows all deny an action denies it
first_match-Denies :
    (a : String) (table : List DecisionRow) (et sev conf : String)
    → All (Denies a) table
    → contains (first_match table et sev conf) a ≡ false
unfolding first_match
first_match-Denies a [] et sev conf h = unfold contains in refl
first_match-Denies a (row ∷ table) et sev conf h = elim (Bool-cases (row_matches row et sev conf)) [
  | inl hit ↦ rw hit h.0
  | inr miss ↦ rw miss (first_match-Denies a table et sev conf h.1)
]

module _ (et sev conf : String) where
  -- an action that the rows below deny comes from the first row, if that row matches
  allowed_above :
      (a : String) (row : DecisionRow) (table : List DecisionRow)
      → contains (first_match (row ∷ table) et sev conf) a ≡ true
      → (row_matches row et sev conf ≡ true) ⊎ (contains (first_match table et sev conf) a ≡ true)
  unfolding first_match
  allowed_above a row table h = elim (Bool-cases (row_matches row et sev conf)) [
    | inl hit ↦ inl hit
    | inr miss ↦ inr (rw miss at h)
  ]

  critical_row :
      (allowed : List String)
      → row_matches
          (record {
            match_error_type = "runtime_crash";
            match_severity = "critical";
            match_confidence = "high";
            allowed = allowed;
          })
          et
          sev
          conf
        ≡ true
      → CrashRow et sev conf
  unfolding row_matches
  critical_row allowed h = ground arith

  high_row :
      (allowed : List String)
      → row_matches
          (record {
            match_error_type = "runtime_crash";
            match_severity = "high";
            match_confidence = "high";
            allowed = allowed;
          })
          et
          sev
          conf
        ≡ true
      → CrashRow et sev conf
  unfolding row_matches
  high_row allowed h = ground arith

  table-CrashRow :
      (a : String)
      → All (Denies a) (drop 2 default_table)
      → contains (first_match default_table et sev conf) a ≡ true
      → CrashRow et sev conf
  table-CrashRow a denied h = elim (allowed_above a _ _ h) [
    | inl hit ↦ critical_row _ hit
    | inr h' ↦ elim (allowed_above a _ _ h') [
      | inl hit ↦ high_row _ hit
      | inr h'' ↦ cc (first_match-Denies a (drop 2 default_table) et sev conf denied)
    ]
  ]

  default_table-Denies : (a : String) → OneOf a → All (Denies a) (drop 2 default_table)
  unfolding contains
  default_table-Denies a (inl e) =
      rw e (refl, (refl, (refl, (refl, (refl, (refl, (refl, (refl, tt))))))))
  default_table-Denies a (inr (inl e)) =
      rw e (refl, (refl, (refl, (refl, (refl, (refl, (refl, (refl, tt))))))))
  default_table-Denies a (inr (inr e)) =
      rw e (refl, (refl, (refl, (refl, (refl, (refl, (refl, (refl, tt))))))))

-- Of the built-in table, only the rows for a runtime crash of high or critical severity and high
-- confidence let a destructive action through.
pub default_table-CrashRow :
    (a error_type severity confidence : String)
    → IsDestructive a
    → contains (first_match default_table error_type severity confidence) a ≡ true
    → CrashRow error_type severity confidence
default_table-CrashRow a error_type severity confidence d =
    table-CrashRow error_type severity confidence a
      (default_table-Denies error_type severity confidence a (destructive_cases a d))
