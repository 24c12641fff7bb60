-- ===== src/Approval/Request.antt =====
-- `ApprovalRequest::create`, `verify_decision` and `validate_unchanged` of
-- crates/bastet-core/src/approval.rs.
use bastet_workstation.Common.{
  ℕ, not, ◌||◌, List, Result, ok, ◌>>◌, fail_if, is_blank, str_eq, ◌==◌, leb, ltb,
}
use bastet_workstation.Identity.{ApprovalRequestId}
use bastet_workstation.Policy.{ScopedPolicy}
use bastet_workstation.Approval.{
  ApprovalAction, ApprovalRequest, ApprovalDecision, ApprovalError, invalid_expiry, empty_actor,
  hash_mismatch, invalid_decision_time, expired, validate_action,
}
use bastet_workstation.Approval.Hash.{HashInput, canonical_hash}

unfoldable pub verify_decision :
    ApprovalRequest → ApprovalDecision → Result (Unit {0}) ApprovalError
verify_decision r d = do
  fail_if (is_blank d.actor) empty_actor
  fail_if (not (d.request_id == r.id) || not (str_eq d.request_hash r.request_hash)) hash_mismatch
  fail_if (ltb d.decided_at_ms r.created_at_ms) invalid_decision_time
  fail_if (leb r.expires_at_ms d.decided_at_ms) expired

module _ (to_vec : HashInput → List ℕ) (sha256 : List ℕ → List ℕ) where
  -- `ApprovalRequest::create`
  unfoldable pub create_request :
      ApprovalRequestId
      → ℕ
      → ℕ
      → ApprovalAction
      → ScopedPolicy
      → Result ApprovalRequest ApprovalError
  create_request id created_at_ms expires_at_ms action parent = do
    validate_action action parent
    fail_if (leb expires_at_ms created_at_ms) invalid_expiry
    ok (record {
      id = id;
      request_hash = canonical_hash to_vec sha256 id created_at_ms expires_at_ms action;
      created_at_ms = created_at_ms;
      expires_at_ms = expires_at_ms;
      action = action;
    })

  unfoldable pub validate_unchanged : ApprovalRequest → Result (Unit {0}) ApprovalError
  validate_unchanged r =
      fail_if
        (not (
          str_eq (canonical_hash to_vec sha256 r.id r.created_at_ms r.expires_at_ms r.action)
            r.request_hash))
        hash_mismatch
