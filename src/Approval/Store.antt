-- ===== src/Approval/Store.antt =====
-- The store of requests over any sequence of calls of agent-backend/app/core/approval.py.
use mathlib.Core.Path.{subst}
use ai_devops_copilot.Base.{ℕ, String, ◌≡◌, ◌⊎◌, inl, inr, List, [], ◌∷◌, arith, remove, sym}
use ai_devops_copilot.Approval.{
  Pending, Signer, create_approval_request, verify_token, Verb, decide, get_pending,
}
use ai_devops_copilot.Approval.Tokens.{IsSigned, remove-IsSigned, created-IsSigned}

pub data Call : Type 0 where
  create :
      (approval_id incident_id service action_type target reason : String) → (now later : ℕ) → Call
  verify : (approval_id token : String) → (now : ℕ) → Call
  settle : Verb → (approval_id token by : String) → (now : ℕ) → Call
  get : (approval_id : String) → (now : ℕ) → Call

unfoldable pub step : Signer → Call → Pending → Pending
step signer (create k incident_id service action_type target reason now later) pending =
    (create_approval_request signer k incident_id service action_type target reason now later
      pending).1
step signer (verify k token now) pending = (verify_token signer k token now pending).1
step signer (settle verb k token by now) pending = (decide signer verb k token by now pending).1
step signer (get k now) pending = (get_pending k now pending).1

unfoldable pub run : Signer → List Call → Pending → Pending
run signer [] pending = pending
run signer (call ∷ calls) pending = run signer calls (step signer call pending)

-- a call that makes no request leaves the store as it is, or takes the named request out of it
IsTrimmed : String → Pending → Pending → Type 0
IsTrimmed k before after = (after ≡ before) ⊎ (after ≡ remove k before)

trimmed-IsSigned :
    (signer : Signer) (k : String) (before after : Pending)
    → IsTrimmed k before after
    → IsSigned signer before
    → IsSigned signer after
unfolding IsTrimmed
trimmed-IsSigned signer k before after (inl e) h = subst (λ p. IsSigned signer p) (sym e) h
trimmed-IsSigned signer k before after (inr e) h =
    subst (λ p. IsSigned signer p) (sym e) (remove-IsSigned signer k before h)

verify_token-IsTrimmed :
    (signer : Signer) (k token : String) (now : ℕ) (pending : Pending)
    → IsTrimmed k pending (verify_token signer k token now pending).1
unfolding verify_token IsTrimmed
verify_token-IsTrimmed signer k token now pending = ground arith

get_pending-IsTrimmed :
    (k : String) (now : ℕ) (pending : Pending) → IsTrimmed k pending (get_pending k now pending).1
unfolding get_pending IsTrimmed
get_pending-IsTrimmed k now pending = ground arith

decide-IsTrimmed :
    (signer : Signer) (verb : Verb) (k token by : String) (now : ℕ) (pending : Pending)
    → IsTrimmed k pending (decide signer verb k token by now pending).1
unfolding decide IsTrimmed
decide-IsTrimmed signer verb k token by now pending = ground arith

step-IsSigned :
    (signer : Signer) (call : Call) (pending : Pending)
    → IsSigned signer pending
    → IsSigned signer (step signer call pending)
unfolding step
step-IsSigned signer (create k i s a t r now later) pending h =
    created-IsSigned signer k i s a t r now later pending h
step-IsSigned signer (verify k token now) pending h =
    trimmed-IsSigned signer k pending _ (verify_token-IsTrimmed signer k token now pending) h
step-IsSigned signer (settle verb k token by now) pending h =
    trimmed-IsSigned signer k pending _ (decide-IsTrimmed signer verb k token by now pending) h
step-IsSigned signer (get k now) pending h =
    trimmed-IsSigned signer k pending _ (get_pending-IsTrimmed k now pending) h

-- After any sequence of calls, every stored request lies under its own id and carries the token
-- that its id, its incident and its expiry are signed with, if that was so before.
pub run-IsSigned :
    (signer : Signer) (calls : List Call) (pending : Pending)
    → IsSigned signer pending
    → IsSigned signer (run signer calls pending)
unfolding run
run-IsSigned signer [] pending h = h
run-IsSigned signer (call ∷ calls) pending h =
    run-IsSigned signer calls (step signer call pending) (step-IsSigned signer call pending h)
