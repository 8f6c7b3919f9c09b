-- ===== src/LlmClient/Result.antt =====
-- agent-backend/app/llm/client.py: the parsed answer of a model, and what is done to it. The dict is
-- a record of the keys that the program reads; a missing key is `none`, and the values are of the types
-- that the prompt asks for: a proposal is not null.
use Prim.Native.String.{◌++◌}
use ai_devops_copilot.Base.{
  String, ◌==◌, Bool, Option, none, some, List, [], ◌∷◌, strip, if◌then◌else◌,
}

pub record ProposedAction : Type 0 where
  pub action : Option String
  pub target : Option String
  pub reason : Option String
  pub namespace : Option String

pub record CrossValidation : Type 0 where
  pub agreed : Bool
  pub secondary_model : Option String
  pub secondary_action : Option String
  pub skipped : Bool
  pub downgraded : Bool

pub record LlmResult : Type 0 where
  pub root_causes : List String
  pub suggestion : String
  pub proposed_action : Option ProposedAction
  pub cross_validation : Option CrossValidation

unfoldable pub name_or : String → Option String → String
name_or default none = default
name_or default (some name) = name

unfoldable pub proposed_name : String → Option ProposedAction → String
unfolding name_or
proposed_name default none = default
proposed_name default (some proposed) = name_or default proposed.action

-- `(result.get("proposed_action") or {}).get("type", default)`
unfoldable pub action_type_of : String → LlmResult → String
unfolding proposed_name
action_type_of default result = proposed_name default result.proposed_action

unfoldable pub first_or : String → List String → String
first_or default [] = default
first_or default (x ∷ xs) = x

-- `_guard_llm_result`
unfoldable pub guard_llm_result : List String → LlmResult → LlmResult
guard_llm_result key_events result =
    if strip (first_or "" result.root_causes) == ""
    then record result {
      root_causes = ("error detected: " ++ first_or "unknown error pattern" key_events) ∷ [];
    }
    else result

-- `result.setdefault("proposed_action", {})`
unfoldable pub proposed_or_empty : Option ProposedAction → ProposedAction
proposed_or_empty none = record { action = none; target = none; reason = none; namespace = none }
proposed_or_empty (some proposed) = proposed

-- what is done to an answer that the validator has rejected twice
unfoldable pub reject : String → String → LlmResult → LlmResult
reject service reason result =
    let proposed = proposed_or_empty result.proposed_action in
    record result {
      proposed_action = some (record proposed {
        action = some "no_action";
        target = elim proposed.target [ none ↦ some service | some t ↦ some t ];
        reason = some ("validator rejected response: " ++ reason);
      });
    }

-- what is done where two models disagree
unfoldable pub downgrade : String → LlmResult → LlmResult
downgrade reason result =
    let proposed = proposed_or_empty result.proposed_action in
    record result {
      proposed_action = some (record proposed { action = some "notify"; reason = some reason });
    }
