-- ===== src/Approval/Decisions.antt =====
-- What `approve` and `reject` do with a token, and that a token is good for one decision.
use ai_devops_copilot.Base.{
  ℕ, ◌+◌, ◌*◌, ◌≤◌, String, ◌==◌, eq_iff, ◌≡◌, ◌∙◌, refl, true, false, inl, inr, none, some, arith,
  lookup, insert, remove, Bool-cases, Option-cases, lookup-insert_self, lookup-remove_self,
  remove-insert, ap,
}
use ai_devops_copilot.Approval.{
  approve, reject, ApprovalRequest, Pending, is_expired, Signer, sign, create_approval_request,
  new_request, not_found, expired, invalid_token, Outcome, decided, denied, Verb, Decision,
  decision, decide,
}
use ai_devops_copilot.Approval.Tokens.{IsSigned, created-IsSigned}

module _ (signer : Signer) (verb : Verb) (k token by : String) (now : ℕ) (pending : Pending) where
  -- `approve` and `reject` go through exactly for a stored request that has not expired, with the
  -- token of that request; the request is then taken out of the store.
  pub decide-eq-decided :
      (req : ApprovalRequest)
      → IsSigned signer pending
      → lookup k pending ≡ some req
      → is_expired req now ≡ false
      → token ≡ req.signed_token
      → decide signer verb k token by now pending
        ≡ (decided (decision verb k by req), remove k pending)
  unfolding decide
  decide-eq-decided req h found fresh e =
      ground (arith, h.at_key k req, eq_iff (sign signer k req.incident_id req.expires_at) token)

  pub decide-eq-not_found :
      lookup k pending ≡ none
      → decide signer verb k token by now pending ≡ (denied not_found, pending)
  unfolding decide
  decide-eq-not_found h = ground arith

  pub decide-eq-expired :
      (req : ApprovalRequest)
      → lookup k pending ≡ some req
      → is_expired req now ≡ true
      → decide signer verb k token by now pending ≡ (denied expired, remove k pending)
  unfolding decide
  decide-eq-expired req h e = ground arith

  pub decide-eq-invalid_token :
      (req : ApprovalRequest)
      → IsSigned signer pending
      → lookup k pending ≡ some req
      → is_expired req now ≡ false
      → (token == req.signed_token) ≡ false
      → decide signer verb k token by now pending ≡ (denied invalid_token, pending)
  unfolding decide
  decide-eq-invalid_token req h found fresh n =
      ground (arith, h.at_key k req, eq_iff (sign signer k req.incident_id req.expires_at) token)

  -- the four ways a decision can end, each with the store that it leaves
  pub data Ending (r : Outcome × Pending) : Type 0 where
    unknown : lookup k pending ≡ none → r ≡ (denied not_found, pending) → Ending r
    late :
        (req : ApprovalRequest)
        → lookup k pending ≡ some req
        → is_expired req now ≡ true
        → r ≡ (denied expired, remove k pending)
        → Ending r
    forged :
        (req : ApprovalRequest)
        → lookup k pending ≡ some req
        → is_expired req now ≡ false
        → (token == req.signed_token) ≡ false
        → r ≡ (denied invalid_token, pending)
        → Ending r
    granted :
        (req : ApprovalRequest)
        → lookup k pending ≡ some req
        → is_expired req now ≡ false
        → token ≡ req.signed_token
        → r ≡ (decided (decision verb k by req), remove k pending)
        → Ending r

  -- On a store whose requests are all signed, a decision is denied for an unknown, an expired or a
  -- forged request, in this order, and goes
  -- through otherwise; only an expired and a decided request leave the store.
  pub decide-Ending : IsSigned signer pending → Ending (decide signer verb k token by now pending)
  decide-Ending h = elim (Option-cases (lookup k pending)) [
    | inl e ↦ unknown e (decide-eq-not_found e)
    | inr (req, e) ↦ elim (Bool-cases (is_expired req now)) [
      | inl x ↦ late req e x (decide-eq-expired req e x)
      | inr x ↦ elim (Bool-cases (token == req.signed_token)) [
        | inl t ↦
            granted req e x ((eq_iff token req.signed_token).0 t)
              (decide-eq-decided req h e x ((eq_iff token req.signed_token).0 t))
        | inr t ↦ forged req e x t (decide-eq-invalid_token req h e x t)
      ]
    ]
  ]

module _ (signer : Signer) (k token by : String) (now : ℕ) (pending : Pending) where
  -- On a store whose requests are all signed, once `approve` or `reject` has gone through, every further decision on the same request is
  -- denied as not found, with whatever token and at whatever time.
  pub decide-Once :
      (verb : Verb) (d : Decision)
      → IsSigned signer pending
      → (decide signer verb k token by now pending).0 ≡ decided d
      → (verb' : Verb) (token' by' : String) (now' : ℕ)
      → (decide signer verb' k token' by' now' (decide signer verb k token by now pending).1).0
        ≡ denied not_found
  decide-Once verb d h e verb' token' by' now' =
      elim (decide-Ending signer verb k token by now pending h) [
        | unknown none_at r ↦ ground (arith, r, e)
        | late req at x r ↦ ground (arith, r, e)
        | forged req at x t r ↦ ground (arith, r, e)
        | granted req at x t r ↦ rw (
          r,
          decide-eq-not_found signer verb' k token' by' now' (remove k pending)
              (lookup-remove_self k pending),
        )
      ]

module _ (signer : Signer) (k incident_id service action_type target reason : String)
    (now later : ℕ) where
  abbrev req : ApprovalRequest
  req = new_request signer k incident_id service action_type target reason now later

  pub new_request-fresh :
      (at : ℕ) → at ≤ now + signer.expiry_seconds * 1_000_000 → is_expired req at ≡ false
  unfolding is_expired new_request
  new_request-fresh at le = ground arith

  -- what is decided of a request that was created for this incident and this action
  abbrev pub asked_for : Verb → String → Decision
  asked_for approve by = record {
    approved = true;
    approval_id = k;
    incident_id = incident_id;
    decided_by = by;
    action_type = some action_type;
  }
  asked_for reject by = record {
    approved = false;
    approval_id = k;
    incident_id = incident_id;
    decided_by = by;
    action_type = none;
  }

  decision-asked_for : (verb : Verb) (by : String) → decision verb k by req ≡ asked_for verb by
  unfolding decision new_request
  decision-asked_for approve by = refl
  decision-asked_for reject by = refl

  -- On a store whose requests are all signed, a request can be decided with the token that it was
  -- created with until it expires. The decision names the incident that the request was created for,
  -- and an approval the action; the request names the service, the action, its target and the reason.
  pub create-decide :
      (verb : Verb) (by : String) (at : ℕ) (pending : Pending)
      → IsSigned signer pending
      → at ≤ now + signer.expiry_seconds * 1_000_000
      → let (made, store) =
          create_approval_request signer k incident_id service action_type target reason now later
            pending in
        (decide signer verb k made.signed_token by at store
          ≡ (decided (asked_for verb by), remove k pending))
        × (made.service ≡ service)
        × (made.action_type ≡ action_type)
        × (made.target ≡ target)
        × (made.reason ≡ reason)
  unfolding create_approval_request new_request
  create-decide verb by at pending h le = (
    decide-eq-decided signer verb k req.signed_token by at (insert k req pending) req
          (created-IsSigned signer k incident_id service action_type target reason now later pending
            h)
          (lookup-insert_self k req pending) (new_request-fresh at le) refl
        ∙ rw (remove-insert k req pending)
            (ap (λ d. (decided d, remove k pending)) (decision-asked_for verb by)),
    refl,
    refl,
    refl,
    refl,
  )
