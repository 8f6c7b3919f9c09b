-- ===== src/Causality.antt =====
-- agent-backend/app/core/causality.py: the evidence behind a root cause, and the service that an
-- action is redirected to. A pattern is an alternation of plain texts, matched without case; the
-- dependencies that the platforms declare are a parameter, `none` where reading them raises.
use Prim.Native.String.{◌++◌}
use ai_devops_copilot.Base.{
  ℕ, String, Bool, true, false, ◌||◌, Option, none, some, List, [], ◌∷◌, Dict, codes, lower, lookup,
  insert, is_infix, set_add, sorted, if◌then◌else◌,
}
use ai_devops_copilot.World.{Floats}

abbrev pub static_dependency_map : Dict (List String)
static_dependency_map =
    ("sample-app", "elasticsearch" ∷ []) ∷ ("agent-backend", "elasticsearch" ∷ []) ∷ []

unfoldable pub listed : Option (List String) → List String
listed none = []
listed (some deps) = deps

-- `existing.update(deps)`
unfoldable pub union : List String → List String → List String
union existing [] = existing
union existing (dep ∷ deps) = union (set_add dep existing) deps

unfoldable pub merge : Dict (List String) → Dict (List String) → Dict (List String)
unfolding listed union
merge merged [] = merged
merge merged ((service, deps) ∷ rest) =
    merge (insert service (sorted (union (union [] (listed (lookup service merged))) deps)) merged)
      rest

-- `_build_dependency_map`
unfoldable pub dependency_map : Option (Dict (List String)) → Dict (List String)
unfolding merge
dependency_map none = static_dependency_map
dependency_map (some platforms) = merge static_dependency_map platforms

abbrev pub dependency_error_patterns : List String
dependency_error_patterns =
    "connection refused" ∷ "timeout" ∷ "no such host" ∷ "econnrefused" ∷ "dns" ∷ "unreachable" ∷ []

-- `_HYPOTHESIS_EVIDENCE`, its patterns in lower case
abbrev pub hypothesis_evidence : Dict (List String)
hypothesis_evidence =
    (
      "db",
      "connection refused" ∷ "timeout" ∷ "no such host" ∷ "db" ∷ "database" ∷ "postgres" ∷ "mysql"
          ∷ "mongo" ∷ [],
    )
    ∷ ("oom", "oomkilled" ∷ "memory" ∷ "out of memory" ∷ "oom" ∷ [])
    ∷ (
      "build",
      "build fail" ∷ "compilation error" ∷ "syntax error" ∷ "import error" ∷ "modulenotfound" ∷ [],
    )
    ∷ ("test", "failed" ∷ "assertion" ∷ "test fail" ∷ "pytest" ∷ [])
    ∷ ("simulated", "simulated" ∷ "intentional" ∷ "test endpoint" ∷ [])
    ∷ []

unfoldable pub any_infix : List String → List ℕ → Bool
unfolding is_infix
any_infix [] text = false
any_infix (pattern ∷ patterns) text = is_infix (codes pattern) text || any_infix patterns text

-- `" ".join(events)`
unfoldable pub join : List String → String
join [] = ""
join (event ∷ []) = event
join (event ∷ next ∷ events) = event ++ " " ++ join (next ∷ events)

unfoldable pub labels_of : Dict (List String) → List ℕ → List String
unfolding any_infix
labels_of [] text = []
labels_of ((label, patterns) ∷ rest) text =
    let others = labels_of rest text in if any_infix patterns text then label ∷ others else others

pub record CausalityResult : Type 0 where
  pub verified : Bool
  pub matched_evidence : List String
  pub target_redirected : Bool
  pub action_target : Option String

unfoldable pub add_quiet : Bool → List String → List String
add_quiet true [] = "simulated_or_no_issue" ∷ []
add_quiet true (label ∷ labels) = label ∷ add_quiet true labels
add_quiet false labels = labels

unfoldable pub redirect : List String → List String → CausalityResult
redirect matched [] = record {
  verified = true;
  matched_evidence = matched;
  target_redirected = false;
  action_target = none;
}
redirect matched (dep ∷ deps) = record {
  verified = true;
  matched_evidence = matched;
  target_redirected = true;
  action_target = some dep;
}

-- the result for the labels that match; `connects` tells of a connection error in the text
unfoldable pub judge : Bool → List String → List String → CausalityResult
unfolding redirect
judge connects deps [] = record {
  verified = false;
  matched_evidence = [];
  target_redirected = false;
  action_target = none;
}
judge connects deps (label ∷ labels) = redirect (label ∷ labels) (if connects then deps else [])

unfoldable pub validate_causality :
    (fl : Floats)
    → Option (Dict (List String))
    → List String
    → fl.Real
    → String
    → String
    → CausalityResult
unfolding join labels_of add_quiet judge dependency_map
validate_causality fl platforms deduplicated_events error_ratio root_cause service =
    let combined = lower (join deduplicated_events ++ " " ++ root_cause) in
    let matched =
      add_quiet (fl.lt error_ratio (fl.lit 5 100)) (labels_of hypothesis_evidence combined) in
    judge (any_infix dependency_error_patterns combined)
      (listed (lookup service (dependency_map platforms))) matched
