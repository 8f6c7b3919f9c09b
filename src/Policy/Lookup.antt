-- ===== src/Policy/Lookup.antt =====
-- The decision table is read in order.
use ai_devops_copilot.Base.{
  String, ◌≡◌, refl, true, false, ◌⊎◌, inl, inr, List, [], ◌∷◌, ◌++◌, ap, All, Bool-cases,
}
use ai_devops_copilot.Policy.{Policy, DecisionRow, row_matches, first_match, lookup_decision}

-- `row` stands in the table, it matches, and no row above it does.
pub record IsFirst (table : List DecisionRow) (et sev conf : String) (row : DecisionRow)
    : Type 0 where
  pub above : List DecisionRow
  pub below : List DecisionRow
  pub split : table ≡ above ++ row ∷ below
  pub matched : row_matches row et sev conf ≡ true
  pub skipped : All (λ r. row_matches r et sev conf ≡ false) above

abbrev pub NoMatch : List DecisionRow → String → String → String → Type 0
NoMatch table et sev conf = All (λ r. row_matches r et sev conf ≡ false) table

abbrev pub Answer : List DecisionRow → String → String → String → List String → Type 0
Answer table et sev conf allowed =
    ((row : DecisionRow) × IsFirst table et sev conf row × (allowed ≡ row.allowed))
    ⊎ (NoMatch table et sev conf × (allowed ≡ []))

Answer-cons :
    (row : DecisionRow) (table : List DecisionRow) (et sev conf : String) (allowed : List String)
    → row_matches row et sev conf ≡ false
    → Answer table et sev conf allowed
    → Answer (row ∷ table) et sev conf allowed
Answer-cons row table et sev conf allowed no_match (inl (r, first, e)) = inl (
  r,
  record {
    above = row ∷ first.above;
    below = first.below;
    split = ap (◌∷◌ row) first.split;
    matched = first.matched;
    skipped = (no_match, first.skipped);
  },
  e,
)
Answer-cons row table et sev conf allowed no_match (inr (none_match, e)) =
    inr ((no_match, none_match), e)

first_match-hit :
    (row : DecisionRow) (table : List DecisionRow) (et sev conf : String)
    → row_matches row et sev conf ≡ true
    → first_match (row ∷ table) et sev conf ≡ row.allowed
unfolding first_match
first_match-hit row table et sev conf h = rw h

first_match-miss :
    (row : DecisionRow) (table : List DecisionRow) (et sev conf : String)
    → row_matches row et sev conf ≡ false
    → first_match (row ∷ table) et sev conf ≡ first_match table et sev conf
unfolding first_match
first_match-miss row table et sev conf h = rw h

first_match-nil : (et sev conf : String) → first_match [] et sev conf ≡ []
unfolding first_match
first_match-nil et sev conf = refl

first_match-Answer :
    (table : List DecisionRow) (et sev conf : String)
    → Answer table et sev conf (first_match table et sev conf)
first_match-Answer [] et sev conf = inr (tt, first_match-nil et sev conf)
first_match-Answer (row ∷ table) et sev conf = elim (Bool-cases (row_matches row et sev conf)) [
  | inl hit ↦ inl (
    row,
    record { above = []; below = table; split = refl; matched = hit; skipped = tt },
    first_match-hit row table et sev conf hit,
  )
  | inr miss ↦
      rw (first_match-miss row table et sev conf miss)
        (Answer-cons row table et sev conf _ miss (first_match-Answer table et sev conf))
]

-- The answer is the allowed list of the first row that matches the three values, with no matching
-- row above it; it is empty if no row of the table matches.
lookup_decision-Answer :
    (policy : Policy) (et sev conf : String)
    → Answer policy.decision_table et sev conf (lookup_decision policy et sev conf)
unfolding lookup_decision
lookup_decision-Answer policy et sev conf = first_match-Answer policy.decision_table et sev conf
