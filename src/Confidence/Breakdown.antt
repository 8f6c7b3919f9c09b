-- ===== src/Confidence/Breakdown.antt =====
-- The breakdown accounts for the score.
use ai_devops_copilot.Base.{
  ℕ, ◌+◌, ◌≤◌, String, ◌==◌, ◌≡◌, refl, Bool, true, false, inl, inr, List, [], ◌∷◌, ◌++◌, arith,
  Bool-cases,
}
use ai_devops_copilot.World.{World, Floats}
use ai_devops_copilot.LogProcessor.Summary.{LogSummary}
use ai_devops_copilot.Confidence.{
  Signal, known_type, severe, frequent, distinct_errors, many_events, high_signal, historical_match,
  Scored, add_if, score_signals, boost, label_of, labelled, score_confidence,
}

-- the number that a line of the breakdown starts with
unfoldable pub points_of : Signal → ℕ
points_of (known_type e) = 2
points_of (severe s) = 2
points_of frequent = 2
points_of (distinct_errors n) = 1
points_of (many_events n) = 1
points_of (high_signal e) = 1
points_of (historical_match r n) = 2

unfoldable pub total : List Signal → ℕ
total [] = 0
total (s ∷ signals) = points_of s + total signals

-- the breakdown adds up to the score, which is at most the bound
abbrev IsWithin : ℕ → Scored → Type 0
IsWithin bound s = (s.score ≡ total s.breakdown) × (s.score ≤ bound)

total-append : (xs ys : List Signal) → total (xs ++ ys) ≡ total xs + total ys
unfolding total
total-append [] ys = omega arith
total-append (x ∷ xs) ys = omega (arith, total-append xs ys)

add_if-IsWithin :
    (test : Bool) (points bound : ℕ) (signal : Signal) (s : Scored)
    → points_of signal ≡ points
    → IsWithin bound s
    → IsWithin (bound + points) (add_if test points signal s)
unfolding add_if total
add_if-IsWithin true points bound signal s e h =
    (omega (arith, total-append s.breakdown (signal ∷ []), e, h.0), omega (arith, h.1))
add_if-IsWithin false points bound signal s e h = (h.0, omega (arith, h.1))

score_signals-IsWithin :
    (fl : Floats) (summary : LogSummary fl.Real) (error_type severity : String)
    → IsWithin 9 (score_signals fl summary error_type severity)
unfolding score_signals points_of total
score_signals-IsWithin fl summary error_type severity = add_if-IsWithin _ 1 8 _ _ refl (
    add_if-IsWithin _ 1 7 _ _ refl (
      add_if-IsWithin _ 1 6 _ _ refl (
        add_if-IsWithin _ 2 4 _ _ refl
          (add_if-IsWithin _ 2 2 _ _ refl (add_if-IsWithin _ 2 0 _ _ refl (refl, omega arith))))))

-- what the caller can rely on
pub record IsExplained (answer : String × ℕ × List Signal) : Type 0 where
  pub accounted : answer.1 ≡ total answer.2
  pub bounded : answer.1 ≤ 11
  pub labelled_by : answer.0 ≡ label_of answer.1

labelled-IsExplained :
    (bound : ℕ) (s : Scored) → bound ≤ 11 → IsWithin bound s → IsExplained (labelled s)
unfolding labelled
labelled-IsExplained bound s le h = record {
  accounted = h.0;
  bounded = omega (arith, h.1, le);
  labelled_by = refl;
}

-- The points of the breakdown add up to the score, the score is at most 11, and the label is the
-- one of the score, whatever the store answers.
pub score_confidence-IsExplained :
    (es : World) (summary : LogSummary es.floats.Real) (error_type severity service : String)
    (s : es.State)
    → IsExplained (score_confidence es summary error_type severity service s).0
unfolding score_confidence boost points_of
score_confidence-IsExplained es summary error_type severity service s =
    let base = score_signals-IsWithin es.floats summary error_type severity in
    elim (Bool-cases (service == "")) [
      | inl e ↦ rw e (labelled-IsExplained 9 _ (omega arith) base)
      | inr n ↦ rw n (labelled-IsExplained 11 _ (omega arith) (add_if-IsWithin _ 2 9 _ _ refl base))
    ]
