-- ===== src/LogProcessor/Ranked.antt =====
-- The order of the lines of a summary: a stable sort by three ranks.
use ai_devops_copilot.Base.{
  ℕ, String, Bool, false, not, ◌&&◌, ◌||◌, List, [], ◌∷◌, ◌++◌, codes, lower, is_infix, eqb,
  if◌then◌else◌,
}
use ai_devops_copilot.LogProcessor.Summary.{priority}

-- the lines of one rank, in their order
at_priority : ℕ → List String → List String
at_priority p [] = []
at_priority p (line ∷ lines) =
    let rest = at_priority p lines in if eqb (priority line) p then line ∷ rest else rest

ranks : List String → List String
unfolding at_priority
ranks lines = at_priority 0 lines ++ (at_priority 1 lines ++ at_priority 2 lines)

-- whether a line has one of these words in it, in capitals or not
unfoldable pub mentions : List String → String → Bool
mentions [] line = false
mentions (word ∷ words) line = is_infix (codes word) (lower line) || mentions words line

abbrev pub on_errors : String → Bool
on_errors = mentions ("error" ∷ "critical" ∷ "500" ∷ [])

abbrev pub on_warnings : String → Bool
on_warnings line = not (on_errors line) && mentions ("warning" ∷ "warn" ∷ []) line

abbrev pub on_neither : String → Bool
on_neither line = not (on_errors line) && not (mentions ("warning" ∷ "warn" ∷ []) line)

unfoldable pub keep : (String → Bool) → List String → List String
keep test [] = []
keep test (line ∷ lines) = let rest = keep test lines in if test line then line ∷ rest else rest

-- the lines about errors, then those about warnings, then the others
unfoldable pub by_rank : List String → List String
by_rank lines = keep on_errors lines ++ (keep on_warnings lines ++ keep on_neither lines)

rank_of : Bool → Bool → Bool → Bool → Bool → ℕ
rank_of a b c d e = if a || b || c then 0 else if d || e then 1 else 2
