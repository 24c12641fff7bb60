-- ===== src/Store/Decision.antt =====
-- The calls of crates/bastet-daemon/src/lib.rs that create and decide approvals, and that cancel a run
-- whose launch is staged.
use bastet_workstation.Common.{
  ℕ, Bool, true, false, not, ◌&&◌, Option, none, some, is_some, ◌∷◌, find, Result, ok, ◌>>=◌, ◌>>◌,
  fail_if, ok_or, map_err, is_none, ◌==◌, if◌then◌else◌,
}
use bastet_workstation.Identity.{ApprovalRequestId, RunId}
use bastet_workstation.Catalog.References.{validate_catalog}
use bastet_workstation.Approval.{ApprovalRequest, ApprovalDecision}
use bastet_workstation.Approval.Request.{validate_unchanged, verify_decision}
use bastet_workstation.Approval.Against.{validate_against}
use bastet_workstation.Store.{
  Libraries, Tables, ApprovalRow, StagedRow, StoreError, from_str, invalid_catalog,
  invalid_approval, approval_not_found, approval_conflict, credential_grant_rejected,
  revision_conflict,
}
use bastet_workstation.Store.Statements.{
  approval_of, has_approval, as_integer, is_open_row, insert_event, update_where, count_where,
  exactly_one,
}
use bastet_workstation.Store.Grants.{
  now_ms, validate_time, validate_current_catalog, issue, is_approve,
}
use bastet_workstation.Store.Staged.{only_if}
use bastet_workstation.Store.Cancel.{cancel_for_request}
use bastet_workstation.Store.Launches.{on_decision, expire}

-- `action.scope.credential_binding.is_some()`
abbrev pub binds_credential : ApprovalRequest → Bool
binds_credential r = is_some r.action.scope.credential_binding

-- `UPDATE approval_requests SET decision_json .. WHERE request_id = ?3 AND decision_json IS NULL`
abbrev pub is_undecided : ApprovalRequestId → ApprovalRow → Bool
is_undecided id r = r.request_id == id && is_none r.decision_json

abbrev pub write_decision : ApprovalDecision → Tables → Tables × ℕ
write_decision d t = (
  record t {
    approvals =
        update_where (is_undecided d.request_id) (λ r. record r { decision_json = some (some d) })
          t.approvals;
  },
  count_where (is_undecided d.request_id) t.approvals,
)

abbrev pub issue_if : Bool → Tables → ApprovalRequest → ApprovalDecision → Result Tables StoreError
issue_if true t r d = issue t r d
issue_if false t r d = ok t

module _ (lib : Libraries) where
  unfoldable pub check_usable : Tables → ApprovalRequest → Option ℕ → Result (Unit {0}) StoreError
  check_usable t r clock = do
    now ← now_ms clock
    validate_time r now
    validate_current_catalog lib t r

  unfoldable pub create_approval : Tables → ApprovalRequest → Option ℕ → Result Tables StoreError
  create_approval t r clock = do
    c ← from_str t.catalog_json
    map_err invalid_catalog (validate_catalog c)
    map_err invalid_approval (validate_against lib.request_bytes lib.sha256 r c)
    only_if (binds_credential r) (check_usable t r clock)
    expires_at_ms ← as_integer r.expires_at_ms
    let row : ApprovalRow = record {
      request_id = r.id;
      request_hash = r.request_hash;
      request_json = some r;
      expires_at_ms = expires_at_ms;
      decision_json = none;
    }
    fail_if (has_approval row t) approval_conflict
    ok (
        insert_event "approval.requested" (some r.id) none
          (record t { approvals = row ∷ t.approvals }))

  -- The decision as it is stored: a decision on a credential is made now.
  unfoldable pub stamp_decision :
      Tables
      → ApprovalRequest
      → ApprovalDecision
      → Bool
      → Option ℕ
      → Result ApprovalDecision StoreError
  stamp_decision t r d acknowledged clock = do
    fail_if (is_approve d.kind && not acknowledged) credential_grant_rejected
    now ← now_ms clock
    validate_time r now
    only_if (is_approve d.kind) (validate_current_catalog lib t r)
    ok (record d { decided_at_ms = now })

  abbrev pub decision_on :
      Bool
      → Tables
      → ApprovalRequest
      → ApprovalDecision
      → Bool
      → Option ℕ
      → Result ApprovalDecision StoreError
  decision_on true t r d acknowledged clock = stamp_decision t r d acknowledged clock
  decision_on false t r d acknowledged clock = ok d

  -- `later` is the clock that `on_decision` reads.
  unfoldable pub decide_approval :
      Tables → ApprovalDecision → Bool → Option ℕ → Option ℕ → Result Tables StoreError
  decide_approval t d acknowledged clock later = do
    row ← ok_or (approval_of d.request_id t) approval_not_found
    fail_if (is_some row.decision_json) approval_conflict
    r ← from_str row.request_json
    map_err invalid_approval (validate_unchanged lib.request_bytes lib.sha256 r)
    decision ← decision_on (binds_credential r) t r d acknowledged clock
    map_err invalid_approval (verify_decision r decision)
    decided ← exactly_one (write_decision decision t) approval_conflict
    issued ← issue_if (binds_credential r && is_approve decision.kind) decided r decision
    launched ← on_decision lib issued r decision.kind later
    ok (
        insert_event (if is_approve d.kind then "approval.approved" else "approval.denied")
          (some d.request_id) none launched)

  -- `cancel_staged_run`, without its receipt.
  abbrev pub cancel_open_run :
      Tables → ℕ → Option StagedRow → RunId → Option ℕ → Result Tables StoreError
  cancel_open_run t expected none run_id clock = ok t
  cancel_open_run t expected (some row) run_id clock = do
    fail_if (not (t.catalog_revision == expected)) (revision_conflict expected t.catalog_revision)
    cancelled ← cancel_for_request lib t row.request_id "cancelled" clock
    ok (insert_event "run.staged_cancelled" none (some run_id) cancelled)

  unfoldable pub cancel_staged_run : Tables → RunId → ℕ → Option ℕ → Result Tables StoreError
  cancel_staged_run t run_id expected clock =
      cancel_open_run t expected
        (find (λ (s : StagedRow). s.run_id == run_id && is_open_row s.state) t.staged) run_id clock

  unfoldable pub expire_staged_launches :
      Tables → Option ℕ → (ℕ → Option ℕ) → Result Tables StoreError
  expire_staged_launches t clock clocks = do now ← now_ms clock; expire lib t now clocks
