-- ===== src/Approval/Tests.antt =====
-- The approval store at concrete requests, with a MAC that joins its arguments.
use Prim.Native.String.{◌++◌}
use ai_devops_copilot.Base.{◌≡◌, refl, [], ◌∷◌, arith, lookup, insert, remove}
use ai_devops_copilot.Approval.{
  ApprovalRequest, Pending, is_expired, Signer, sign, create_approval_request, new_request, decided,
  denied, not_found, approve, reject, decision, decide,
}
use ai_devops_copilot.Approval.Tokens.{IsSigned, created-IsSigned}
use ai_devops_copilot.Approval.Decisions.{
  Ending, decide-Ending, decide-Once, asked_for, create-decide,
}
use ai_devops_copilot.Approval.Store.{create, settle, run, run-IsSigned}

abbrev joiner : Signer
joiner = record {
  fixed3 = λ t. "t";
  hmac = λ key text. key ++ text;
  secret = "s";
  expiry_seconds = 900;
}

abbrev stored : ApprovalRequest
unfolding new_request
stored = new_request joiner "a1" "i1" "shop" "rollback" "shop" "why" 50 51

abbrev one : Pending
unfolding create_approval_request
one = (create_approval_request joiner "a1" "i1" "shop" "rollback" "shop" "why" 50 51 []).1

empty-IsSigned : IsSigned joiner []
unfolding lookup
empty-IsSigned = record { at_key = λ k req found. ground (arith, found) }

one-IsSigned : IsSigned joiner one
unfolding one create_approval_request
one-IsSigned =
    created-IsSigned joiner "a1" "i1" "shop" "rollback" "shop" "why" 50 51 [] empty-IsSigned

granted_now :
    (decide joiner approve "a1" "sa1:i1:t" "ops" 60 one).0
    ≡ decided (decision approve "a1" "ops" stored)
unfolding decide sign is_expired new_request lookup one insert
granted_now = refl

decide-Ending_example :
    Ending joiner approve "a1" "sa1:i1:t" "ops" 60 one
      (decide joiner approve "a1" "sa1:i1:t" "ops" 60 one)
decide-Ending_example = decide-Ending joiner approve "a1" "sa1:i1:t" "ops" 60 one one-IsSigned

decide-Once_example :
    (decide joiner reject "a1" "sa1:i1:t" "eve" 70
      (decide joiner approve "a1" "sa1:i1:t" "ops" 60 one).1).0
    ≡ denied not_found
decide-Once_example =
    decide-Once joiner "a1" "sa1:i1:t" "ops" 60 one approve (decision approve "a1" "ops" stored)
      one-IsSigned granted_now reject "sa1:i1:t" "eve" 70

create-decide_example :
    (decide joiner approve "a1" stored.signed_token "ops" 60 one ≡ (
      decided (asked_for joiner "a1" "i1" "shop" "rollback" "shop" "why" 50 51 approve "ops"),
      remove "a1" [],
    ))
    × (stored.service ≡ "shop")
    × (stored.action_type ≡ "rollback")
    × (stored.target ≡ "shop")
    × (stored.reason ≡ "why")
unfolding stored create_approval_request one
create-decide_example =
    create-decide joiner "a1" "i1" "shop" "rollback" "shop" "why" 50 51 approve "ops" 60 []
      empty-IsSigned (omega arith)

run-IsSigned_example : IsSigned joiner (
    run joiner
      (create "a1" "i1" "shop" "rollback" "shop" "why" 50 51
        ∷ settle approve "a1" "bad" "ops" 60
        ∷ [])
      [])
run-IsSigned_example =
    run-IsSigned joiner
      (create "a1" "i1" "shop" "rollback" "shop" "why" 50 51
        ∷ settle approve "a1" "bad" "ops" 60
        ∷ [])
      [] empty-IsSigned
