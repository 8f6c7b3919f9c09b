-- ===== src/Api/Approvals.antt =====
-- agent-backend/app/api/routes.py: the routes by which a human decides a request.
use Prim.Native.String.{◌++◌}
use ai_devops_copilot.Base.{ℕ, String, Bool, Option, none, some}
use ai_devops_copilot.Approval.{
  Signer, ApprovalRequest, Pending, VerifyReason, valid, not_found, expired, invalid_token,
  Decision, Outcome, decided, denied, key_error, approve, reject, decide, get_pending, is_expired,
}
use ai_devops_copilot.Api.{Http, done, http_error, unhandled}

pub record ApprovalStatus : Type 0 where
  pub request : ApprovalRequest
  pub is_expired : Bool

unfoldable pub status_of : String → ℕ → Option ApprovalRequest → Http ApprovalStatus
status_of approval_id now none =
    http_error 404 ("approval '" ++ approval_id ++ "' not found or expired")
status_of approval_id now (some req) =
    done (record { request = req; is_expired = is_expired req now })

-- `get_approval_status`; the clock is read for the look-up and for the answer
unfoldable pub get_approval_status :
    String → (now later : ℕ) → Pending → Http ApprovalStatus × Pending
unfolding status_of
get_approval_status approval_id now later pending =
    let (found, pending') = get_pending approval_id now pending in
    (status_of approval_id later found, pending')

unfoldable pub verify_reason_text : VerifyReason → String
verify_reason_text valid = "ok"
verify_reason_text not_found = "not_found"
verify_reason_text expired = "expired"
verify_reason_text invalid_token = "invalid_token"

-- a ValueError becomes a 403
unfoldable pub response_of : String → Outcome → Http Decision
unfolding verify_reason_text
response_of denial (decided decision) = done decision
response_of denial (denied reason) = http_error 403 (denial ++ verify_reason_text reason)
response_of denial key_error = unhandled

-- `approve_action`
unfoldable pub approve_action :
    Signer → (approval_id token approved_by : String) (now : ℕ) → Pending → Http Decision × Pending
unfolding response_of
approve_action signer approval_id token approved_by now pending =
    let (outcome, pending') = decide signer approve approval_id token approved_by now pending in
    (response_of "Approval denied: " outcome, pending')

-- `reject_action`
unfoldable pub reject_action :
    Signer → (approval_id token rejected_by : String) (now : ℕ) → Pending → Http Decision × Pending
unfolding response_of
reject_action signer approval_id token rejected_by now pending =
    let (outcome, pending') = decide signer reject approval_id token rejected_by now pending in
    (response_of "Rejection denied: " outcome, pending')
