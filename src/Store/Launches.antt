-- ===== src/Store/Launches.antt =====
-- `stage`, `on_decision` and `expire` of crates/bastet-daemon/src/staged_launches.rs.
use bastet_workstation.Common.{
  ℕ, suc, ◌+◌, ◌^◌, Bool, true, false, not, ◌&&◌, ◌||◌, Option, none, some, is_some, is_none, List,
  [], ◌∷◌, map, keep_if, Result, ok, ◌>>=◌, ◌>>◌, fail_if, ok_or, map_err, ◌==◌, ltb, leb, order_by,
  if◌then◌else◌,
}
use bastet_workstation.Identity.{ApprovalRequestId, RunId, Run}
use bastet_workstation.Catalog.{find_run}
use bastet_workstation.Approval.{ApprovalRequest, ApprovalDecisionKind}
use bastet_workstation.Approval.Request.{create_request}
use bastet_workstation.Approval.Against.{validate_against}
use bastet_workstation.Store.{
  ProviderLaunchPlan, Libraries, Tables, StagedState, StagedRow, ApprovalRow, StoreError,
  invalid_approval, credential_grant_rejected, run_not_found, approval_conflict,
}
use bastet_workstation.Store.Statements.{
  approval_of, staged_of, is_awaiting_row, is_ready_row, insert_event, insert_approval,
  insert_staged, move_staged, exactly_one,
}
use bastet_workstation.Store.Plan.{load_plan}
use bastet_workstation.Store.Grants.{now_ms, is_approve}
use bastet_workstation.Store.Staged.{
  approval_ttl_ms, load_catalog, current_role_policy, approval_action, validate_request_for_plan,
}
use bastet_workstation.Store.Context.{validate_staged_context}
use bastet_workstation.Store.Cancel.{cancel_for_request}

-- The rows that `expire` selects.
abbrev pub is_expired : ℕ → StagedRow → Option ApprovalRow → Bool
is_expired now row none = false
is_expired now row (some approval) =
    leb approval.expires_at_ms now
    && ((is_awaiting_row row.state && is_none approval.decision_json)
        || (is_ready_row row.state && is_some approval.decision_json))

-- `ORDER BY staged.staged_at_ms, staged.request_id`
abbrev pub staged_first : StagedRow → StagedRow → Bool
staged_first a b =
    ltb a.staged_at_ms b.staged_at_ms
    || (a.staged_at_ms == b.staged_at_ms && leb a.request_id b.request_id)

abbrev pub expired_ids : ℕ → Tables → List ApprovalRequestId
expired_ids now t =
    map (λ (s : StagedRow). s.request_id)
      (order_by staged_first
        (keep_if (λ (s : StagedRow). is_expired now s (approval_of s.request_id t)) t.staged))

module _ (lib : Libraries) where
  -- `stage`, with the fresh id of the request.
  unfoldable pub stage :
      Tables → ProviderLaunchPlan → ApprovalRequestId → Option ℕ → Result Tables StoreError
  stage t plan id clock = do
    c ← load_catalog t
    run ← ok_or (find_run plan.run_id c.runs) run_not_found
    action ← approval_action lib plan
    role_policy ← current_role_policy c plan
    now ← now_ms clock
    fail_if (leb (2 ^ 63) (now + approval_ttl_ms)) credential_grant_rejected
    request ← map_err invalid_approval (
        create_request lib.request_bytes lib.sha256 id now (now + approval_ttl_ms) action
          role_policy)
    map_err invalid_approval (validate_against lib.request_bytes lib.sha256 request c)
    requested ←
        insert_approval
          (record {
            request_id = request.id;
            request_hash = request.request_hash;
            request_json = some request;
            expires_at_ms = request.expires_at_ms;
            decision_json = none;
          })
          t
    staged ←
        insert_staged
          (record {
            run_id = plan.run_id;
            request_id = request.id;
            state = StagedState.awaiting_approval;
            staged_at_ms = now;
            finished_at_ms = none;
            cancel_reason = none;
          })
          requested
    validate_staged_context lib staged run false true
    ok (
        insert_event "provider_launch.staged" (some request.id) (some plan.run_id)
          (insert_event "approval.requested" (some request.id) none staged))

  -- The two arms of `on_decision`.
  unfoldable pub approve_launch : Tables → ApprovalRequest → RunId → Run → Result Tables StoreError
  approve_launch t r run_id run = do
    validate_staged_context lib t run false true
    plan ← load_plan lib t run_id
    validate_request_for_plan lib plan r
    moved ←
        exactly_one
          (move_staged (λ (s : StagedRow). s.request_id == r.id && is_awaiting_row s.state)
            (λ s. record s { state = StagedState.ready }) t)
          approval_conflict
    ok (insert_event "provider_launch.ready" (some r.id) (some run_id) moved)

  unfoldable pub deny_launch :
      Tables → ApprovalRequest → RunId → Option ℕ → Result Tables StoreError
  deny_launch t r run_id clock = do
    plan ← load_plan lib t run_id
    validate_request_for_plan lib plan r
    cancel_for_request lib t r.id "approval_denied" clock

  abbrev pub decide_launch :
      Tables
      → ApprovalRequest
      → ApprovalDecisionKind
      → Option StagedRow
      → Option ℕ
      → Result Tables StoreError
  decide_launch t r kind none clock = ok t
  decide_launch t r kind (some row) clock = do
    fail_if (not (is_awaiting_row row.state)) approval_conflict
    c ← load_catalog t
    run ← ok_or (find_run row.run_id c.runs) run_not_found
    if is_approve kind then approve_launch t r row.run_id run else deny_launch t r row.run_id clock

  unfoldable pub on_decision :
      Tables → ApprovalRequest → ApprovalDecisionKind → Option ℕ → Result Tables StoreError
  on_decision t r kind clock = decide_launch t r kind (staged_of r.id t) clock

  -- The loop over `request_ids`, with a clock for each.
  unfoldable pub cancel_each :
      Tables → List ApprovalRequestId → (ℕ → Option ℕ) → Result Tables StoreError
  cancel_each t [] clocks = ok t
  cancel_each t (id ∷ ids) clocks = do
    next ← cancel_for_request lib t id "approval_expired" (clocks 0)
    cancel_each next ids (λ n. clocks (suc n))

  unfoldable pub expire : Tables → ℕ → (ℕ → Option ℕ) → Result Tables StoreError
  expire t now clocks = do
    fail_if (leb (2 ^ 63) now) credential_grant_rejected
    cancel_each t (expired_ids now t) clocks
