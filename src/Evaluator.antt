-- ===== src/Evaluator.antt =====
-- agent-backend/app/core/evaluator.py: the validator of a model's answer. The pattern of verbs stands
-- between word boundaries, so it matches exactly where one of the verbs is a whole word; words are
-- written for ASCII.
use ai_devops_copilot.Base.{
  ℕ, String, Bool, true, false, not, ◌&&◌, ◌||◌, List, [], ◌∷◌, contains, strip, codes, to_lower,
  length, leb, ltb, eqb, if◌then◌else◌,
}
use ai_devops_copilot.LlmClient.Result.{LlmResult, action_type_of}

abbrev pub known_actions : List String
known_actions =
    "restart_pod" ∷ "scale_up" ∷ "rollback" ∷ "trigger_retry" ∷ "notify" ∷ "no_action" ∷ []

abbrev pub verbs : List String
verbs =
    "restart" ∷ "reboot" ∷ "scale" ∷ "rollback" ∷ "retry" ∷ "check" ∷ "investigate" ∷ "inspect"
    ∷ "update" ∷ "upgrade" ∷ "downgrade" ∷ "increase" ∷ "decrease" ∷ "add" ∷ "remove" ∷ "run"
    ∷ "apply" ∷ "fix" ∷ "verify" ∷ "monitor" ∷ "reduce" ∷ "enable" ∷ "disable" ∷ "review" ∷ "flush"
    ∷ "clear" ∷ "drain" ∷ "rotate" ∷ "bounce" ∷ "redeploy" ∷ "reconfigure" ∷ "restart" ∷ "recreate"
    ∷ "exec" ∷ "kubectl" ∷ "query" ∷ "look" ∷ "search" ∷ "examine" ∷ []

-- `\w`
abbrev is_word : ℕ → Bool
is_word c =
    (leb b'a' c && leb c b'z')
    || (leb b'A' c && leb c b'Z')
    || (leb b'0' c && leb c b'9')
    || eqb c b'_'

-- the words of a text in lower case; `word` is the one that is being read, backwards
unfoldable pub words : List ℕ → List ℕ → List (List ℕ)
words word [] = word ∷ []
words word (c ∷ cs) =
    let inside = words (to_lower c ∷ word) cs in
    let outside = words [] cs in if is_word c then inside else word ∷ outside

unfoldable pub same_codes : List ℕ → List ℕ → Bool
same_codes [] [] = true
same_codes (c ∷ cs) (d ∷ ds) = eqb c d && same_codes cs ds
same_codes cs ds = false

unfoldable pub backwards_codes : List ℕ → List ℕ → List ℕ
backwards_codes [] ds = ds
backwards_codes (c ∷ cs) ds = backwards_codes cs (c ∷ ds)

unfoldable pub is_verb : List String → List ℕ → Bool
is_verb [] word = false
is_verb (verb ∷ rest) word = same_codes (backwards_codes (codes verb) []) word || is_verb rest word

unfoldable pub any_verb : List (List ℕ) → Bool
any_verb [] = false
any_verb (word ∷ rest) = is_verb verbs word || any_verb rest

-- `_ACTIONABLE_VERBS.search(suggestion)`
unfoldable pub has_verb : String → Bool
has_verb suggestion = any_verb (words [] (codes suggestion))

abbrev pub min_cause_length : ℕ
min_cause_length = 15

pub data Verdict : Type 0 where
  valid no_causes short_cause no_verb unknown_action : Verdict

unfoldable pub validate_cause : LlmResult → String → Verdict
validate_cause result cause =
    if ltb (length (codes (strip cause))) min_cause_length
    then short_cause
    else if not (has_verb (strip result.suggestion))
    then no_verb
    else if not (contains known_actions (action_type_of "" result))
    then unknown_action
    else valid

unfoldable pub validate_causes : LlmResult → List String → Verdict
unfolding validate_cause
validate_causes result [] = no_causes
validate_causes result (cause ∷ causes) = validate_cause result cause

unfoldable pub validate_response : LlmResult → Verdict
unfolding validate_causes
validate_response result = validate_causes result result.root_causes
