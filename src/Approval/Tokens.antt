-- ===== src/Approval/Tokens.antt =====
-- The store of requests under its operations: every stored request is signed for its own key.
use ai_devops_copilot.Base.{
  ℕ, String, eq_iff, ◌≡◌, refl, some, arith, lookup, insert, remove, lookup-insert, lookup-remove,
}
use ai_devops_copilot.Approval.{
  ApprovalRequest, Pending, Signer, sign, create_approval_request, new_request,
}

module _ (signer : Signer) where
  pub record IsSigned (pending : Pending) : Type 0 where
    pub at_key :
        (k : String) (req : ApprovalRequest)
        → lookup k pending ≡ some req
        → (req.approval_id ≡ k) × (req.signed_token ≡ sign signer k req.incident_id req.expires_at)

  pub insert-IsSigned :
      (k : String) (req : ApprovalRequest) (pending : Pending)
      → req.approval_id ≡ k
      → req.signed_token ≡ sign signer k req.incident_id req.expires_at
      → IsSigned pending
      → IsSigned (insert k req pending)
  insert-IsSigned k req pending named signed h = record {
    at_key = λ j r found. ground (arith, eq_iff k j, lookup-insert k j req pending, h.at_key j r);
  }

  pub remove-IsSigned :
      (k : String) (pending : Pending) → IsSigned pending → IsSigned (remove k pending)
  remove-IsSigned k pending h = record {
    at_key = λ j r found. ground (arith, lookup-remove k j pending, h.at_key j r);
  }

  pub created-IsSigned :
      (k incident_id service action_type target reason : String) (now later : ℕ) (pending : Pending)
      → IsSigned pending
      → IsSigned
          (create_approval_request signer k incident_id service action_type target reason now later
            pending).1
  unfolding create_approval_request new_request
  created-IsSigned k incident_id service action_type target reason now later pending h =
      insert-IsSigned k _ pending refl refl h
