-- ===== src/Store/Spend.antt =====
-- The public calls of crates/bastet-daemon/src/credential_grants.rs, each a transaction: an error leaves
-- the tables as they were.
use Prim.Native.String.{len}
use bastet_workstation.Common.{
  ℕ, String, Bool, not, ◌||◌, Option, none, some, is_some, Result, ok, ◌>>=◌, ◌>>◌, fail_if,
  is_blank, ltb,
}
use bastet_workstation.Identity.{ApprovalRequestId}
use bastet_workstation.Approval.{ApprovalAction}
use bastet_workstation.Store.{Libraries, Tables, StoreError, credential_grant_rejected}
use bastet_workstation.Store.Equality.{same_action}
use bastet_workstation.Store.Statements.{
  staged_of, is_ready, insert_event, spend_grant, revoke_grant_at, exactly_one,
}
use bastet_workstation.Store.Grants.{
  CredentialGrantRecord, now_ms, validate_time, validate_current_catalog, load,
}
use bastet_workstation.Store.Cancel.{cancel_for_request}

-- The grant was issued later than now, or was spent or revoked.
abbrev pub is_unusable : ℕ → CredentialGrantRecord → Bool
is_unusable now record_ =
    ltb now record_.issued_at_ms || is_some record_.consumed_at_ms || is_some record_.revoked_at_ms

module _ (lib : Libraries) where
  -- `Store::credential_grant`
  abbrev pub credential_grant : Tables → ApprovalRequestId → Result CredentialGrantRecord StoreError
  credential_grant t id = load lib t id

  unfoldable pub consume_credential_grant :
      Tables
      → ApprovalRequestId
      → ApprovalAction
      → Option ℕ
      → Result (Tables × CredentialGrantRecord) StoreError
  consume_credential_grant t id action clock = do
    grant ← load lib t id
    fail_if (is_some (staged_of id t)) credential_grant_rejected
    now ← now_ms clock
    validate_time grant.request now
    fail_if (not (same_action grant.request.action action) || is_unusable now grant)
        credential_grant_rejected
    fail_if (not (is_ready t.lifecycle)) credential_grant_rejected
    validate_current_catalog lib t grant.request
    spent ← exactly_one (spend_grant id now t) credential_grant_rejected
    ok (
      insert_event "credential.grant_consumed" (some id) action.scope.run_id spent,
      record grant { consumed_at_ms = some now },
    )

  -- `later` is the clock that `cancel_for_request` reads.
  unfoldable pub revoke_credential_grant :
      Tables
      → ApprovalRequestId
      → String
      → Option ℕ
      → Option ℕ
      → Result (Tables × CredentialGrantRecord) StoreError
  revoke_credential_grant t id actor clock later = do
    fail_if (is_blank actor || ltb 200 (len actor)) credential_grant_rejected
    grant ← load lib t id
    now ← now_ms clock
    validate_time grant.request now
    fail_if (is_unusable now grant) credential_grant_rejected
    revoked ← exactly_one (revoke_grant_at id (λ g. now) actor t) credential_grant_rejected
    cancelled ← cancel_for_request lib revoked id "revoked" later
    ok (
      insert_event "credential.grant_revoked" (some id) none cancelled,
      record grant { revoked_at_ms = some now; revoked_by = some actor },
    )
