-- ===== src/Confidence.antt =====
-- agent-backend/app/core/confidence.py: the score of an analysis, with the signals that make it up.
pub mod Breakdown
mod Tests
use ai_devops_copilot.Base.{
  ℕ, zero, suc, ◌+◌, String, ◌==◌, Bool, true, false, not, List, [], ◌∷◌, ◌++◌, contains, leb,
  length, if◌then◌else◌,
}
use ai_devops_copilot.Base.Effects.{Eff, pure, ◌>>=◌}
use ai_devops_copilot.World.{World, Floats, Incident}
use ai_devops_copilot.LogProcessor.Summary.{LogSummary}
use ai_devops_copilot.MemoryStore.Incidents.{find_similar_incidents}

-- a line of the breakdown
pub data Signal : Type 0 where
  known_type : (error_type : String) → Signal
  severe : (severity : String) → Signal
  frequent : Signal
  distinct_errors many_events : (count : ℕ) → Signal
  high_signal : (error_type : String) → Signal
  historical_match : (resolved similar : ℕ) → Signal

pub record Scored : Type 0 where
  pub score : ℕ
  pub breakdown : List Signal

-- `if test: score += points; breakdown.append(signal)`
unfoldable pub add_if : Bool → ℕ → Signal → Scored → Scored
add_if true points signal s = record {
  score = s.score + points;
  breakdown = s.breakdown ++ signal ∷ [];
}
add_if false points signal s = s

unfoldable pub score_signals : (fl : Floats) → LogSummary fl.Real → String → String → Scored
score_signals fl summary error_type severity =
    let s0 : Scored = record { score = 0; breakdown = [] } in
    let s1 = add_if (not (error_type == "unknown")) 2 (known_type error_type) s0 in
    let s2 = add_if (contains ("high" ∷ "critical" ∷ []) severity) 2 (severe severity) s1 in
    let s3 = add_if (fl.lt (fl.lit 10 100) summary.error_ratio) 2 frequent s2 in
    let s4 = add_if (leb 3 summary.error_count) 1 (distinct_errors summary.error_count) s3 in
    let s5 = add_if (leb 10 summary.total_events) 1 (many_events summary.total_events) s4 in
    add_if (contains ("runtime_crash" ∷ "build_failure" ∷ []) error_type) 1 (high_signal error_type)
      s5

unfoldable pub count_resolved : List Incident → ℕ
count_resolved [] = 0
count_resolved (doc ∷ docs) =
    let rest = count_resolved docs in if doc.outcome == "resolved" then suc rest else rest

unfoldable pub boost : List Incident → Scored → Scored
boost found s =
    add_if (leb 2 (count_resolved found)) 2 (historical_match (count_resolved found) (length found))
      s

unfoldable pub label_of : ℕ → String
label_of score = if leb 7 score then "high" else if leb 4 score then "medium" else "low"

unfoldable pub labelled : Scored → String × ℕ × List Signal
labelled s = (label_of s.score, s.score, s.breakdown)

unfoldable pub score_confidence :
    (es : World)
    → LogSummary es.floats.Real
    → (error_type severity service : String) → Eff es.State (String × ℕ × List Signal)
score_confidence es summary error_type severity service =
    let base = score_signals es.floats summary error_type severity in
    if service == "" then pure (labelled base) else do
      found ← find_similar_incidents es error_type service 3
      pure (labelled (boost found base))
