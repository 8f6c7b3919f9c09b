-- ===== src/Approval.antt =====
-- agent-backend/app/core/approval.py: the store of approval requests, the signed token, and the test
-- for actions that need a human. HMAC-SHA256 is a parameter; `uuid4()` and `time.time()` come in as
-- arguments. Times count microseconds.
pub mod Tokens
pub mod Decisions
pub mod Store
pub mod Required
mod Tests
use Prim.Native.String.{◌++◌}
use ai_devops_copilot.Base.{
  ℕ, ◌+◌, ◌*◌, ◌/◌, ◌%◌, String, ◌==◌, Bool, true, false, not, ◌&&◌, ◌||◌, Option, none, some, List,
  [], ◌∷◌, contains, ltb, decimal, Dict, lookup, insert, remove, if◌then◌else◌,
}
use ai_devops_copilot.Actions.{destructive_actions}

pub record ApprovalRequest : Type 0 where
  pub approval_id : String
  pub incident_id : String
  pub service : String
  pub action_type : String
  pub target : String
  pub reason : String
  pub expires_at : ℕ
  pub signed_token : String
  pub created_at : ℕ

-- `_pending`
abbrev pub Pending : Type 0
Pending = Dict ApprovalRequest

unfoldable pub is_expired : ApprovalRequest → ℕ → Bool
is_expired req now = ltb req.expires_at now

-- `settings`, with the MAC and Python's f"{t:.3f}" of a time
pub record Signer : Type 0 where
  pub fixed3 : ℕ → String
  pub hmac : String → String → String
  pub secret : String
  pub expiry_seconds : ℕ

unfoldable pub sign : Signer → String → String → ℕ → String
sign signer approval_id incident_id expires_at =
    signer.hmac signer.secret
      (approval_id ++ (":" ++ (incident_id ++ (":" ++ signer.fixed3 expires_at))))

-- The clock is read once for `expires_at` and once, later, for `created_at`.
unfoldable pub new_request :
    Signer
    → (approval_id incident_id service action_type target reason : String) (now later : ℕ)
    → ApprovalRequest
new_request signer approval_id incident_id service action_type target reason now later =
    let expires_at = now + signer.expiry_seconds * 1_000_000 in
    record {
      approval_id = approval_id;
      incident_id = incident_id;
      service = service;
      action_type = action_type;
      target = target;
      reason = reason;
      expires_at = expires_at;
      signed_token = sign signer approval_id incident_id expires_at;
      created_at = later;
    }

unfoldable pub create_approval_request :
    Signer
    → (approval_id incident_id service action_type target reason : String) (now later : ℕ) → Pending
    → ApprovalRequest × Pending
create_approval_request signer approval_id incident_id service action_type target reason now later
      pending =
    let req =
      new_request signer approval_id incident_id service action_type target reason now later in
    (req, insert approval_id req pending)

pub data VerifyReason : Type 0 where
  valid not_found expired invalid_token : VerifyReason

verify_found :
    Signer → String → String → ℕ → Pending → Option ApprovalRequest → VerifyReason × Pending
unfolding is_expired
verify_found signer approval_id token now pending none = (not_found, pending)
verify_found signer approval_id token now pending (some req) =
    if is_expired req now
    then (expired, remove approval_id pending)
    else if sign signer approval_id req.incident_id req.expires_at == token
    then (valid, pending)
    else (invalid_token, pending)

unfoldable pub verify_token : Signer → String → String → ℕ → Pending → VerifyReason × Pending
unfolding verify_found
verify_token signer approval_id token now pending =
    verify_found signer approval_id token now pending (lookup approval_id pending)

-- What `approve` and `reject` return, or the ValueError with its reason. A request that has been
-- verified is there for the `pop`; the KeyError is written out all the same.
pub record Decision : Type 0 where
  pub approved : Bool
  pub approval_id : String
  pub incident_id : String
  pub decided_by : String
  pub action_type : Option String

pub data Outcome : Type 0 where
  decided : Decision → Outcome
  denied : VerifyReason → Outcome
  key_error : Outcome

-- The two calls differ in `approved` and in whether the action type is handed back.
pub data Verb : Type 0 where
  approve reject : Verb

unfoldable pub decision : Verb → String → String → ApprovalRequest → Decision
decision approve approval_id by req = record {
  approved = true;
  approval_id = approval_id;
  incident_id = req.incident_id;
  decided_by = by;
  action_type = some req.action_type;
}
decision reject approval_id by req = record {
  approved = false;
  approval_id = approval_id;
  incident_id = req.incident_id;
  decided_by = by;
  action_type = none;
}

pop_decided : Verb → String → String → Pending → Option ApprovalRequest → Outcome × Pending
pop_decided verb approval_id by pending none = (key_error, pending)
pop_decided verb approval_id by pending (some req) =
    (decided (decision verb approval_id by req), remove approval_id pending)

after_verify : Verb → String → String → VerifyReason → Pending → Outcome × Pending
unfolding pop_decided
after_verify verb approval_id by valid pending =
    pop_decided verb approval_id by pending (lookup approval_id pending)
after_verify verb approval_id by reason pending = (denied reason, pending)

unfoldable pub decide :
    Signer → Verb → (approval_id token by : String) (now : ℕ) → Pending → Outcome × Pending
unfolding after_verify verify_token
decide signer verb approval_id token by now pending =
    let (reason, pending') = verify_token signer approval_id token now pending in
    after_verify verb approval_id by reason pending'

get_found : String → ℕ → Pending → Option ApprovalRequest → Option ApprovalRequest × Pending
unfolding is_expired
get_found approval_id now pending none = (none, pending)
get_found approval_id now pending (some req) =
    if is_expired req now then (none, remove approval_id pending) else (some req, pending)

unfoldable pub get_pending : String → ℕ → Pending → Option ApprovalRequest × Pending
unfolding get_found
get_pending approval_id now pending = get_found approval_id now pending (lookup approval_id pending)

pub data ApprovalReason : Type 0 where
  not_needed rollback_always : ApprovalReason
  critical_service : (service : String) → ApprovalReason
  wide_blast : (score : String) → ApprovalReason
  unsure : (confidence : String) → ApprovalReason

abbrev pub is_critical : Option String → Bool
is_critical none = false
is_critical (some c) = c == "critical"

unfoldable pub requires_approval :
    (action_type service confidence blast_radius_score : String)
    → Option String
    → Bool × ApprovalReason
requires_approval action_type service confidence blast_radius_score criticality =
    if not (contains destructive_actions action_type)
    then (false, not_needed)
    else if is_critical criticality
    then (true, critical_service service)
    else if action_type == "rollback"
    then (true, rollback_always)
    else if contains ("high" ∷ "critical" ∷ []) blast_radius_score
    then (true, wide_blast blast_radius_score)
    else if not (confidence == "high") && contains destructive_actions action_type
    then (true, unsure confidence)
    else (false, not_needed)
