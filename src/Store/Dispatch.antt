-- ===== src/Store/Dispatch.antt =====
-- The dispatch of a launch that is ready, crates/bastet-daemon/src/credential_dispatch.rs: the claim
-- spends the grant before the credential is read, and a failed lookup ends the run.
use bastet_workstation.Common.{
  ℕ, String, not, ◌&&◌, Option, none, some, List, modify_by, Result, ok, err, ◌>>=◌, ◌>>◌, fail_if,
  ok_or, map_err, ◌==◌, ltb, if◌then◌else◌,
}
use bastet_workstation.Adapter.RunState.{NormalizedRunState}
use bastet_workstation.Identity.{ApprovalRequestId, RunId, Run}
use bastet_workstation.Approval.{ApprovalRequest}
use bastet_workstation.Catalog.{IdentityCatalog, find_run, run_key}
use bastet_workstation.Catalog.References.{validate_catalog}
use bastet_workstation.Graph.{GraphNodeState, find_execution}
use bastet_workstation.Graph.Execution.{validate, run_of}
use bastet_workstation.Graph.Transitions.{activate_staged_node, finish_terminal}
use bastet_workstation.Graph.{runs_as}
use bastet_workstation.Store.{
  Libraries, Tables, StagedState, StagedRow, StoreError, database, from_str, invalid_catalog,
  invalid_graph, credential_grant_rejected, run_not_found,
}
use bastet_workstation.Store.Equality.{same_run_state}
use bastet_workstation.Store.Statements.{
  u64_text, checked_next, graph_of, is_ready, is_dispatching_row, insert_event, move_staged,
  exactly_one, write_catalog, write_graph,
}
use bastet_workstation.Store.Plan.{load_plan, validate_online_cli_requirements}
use bastet_workstation.Store.Grants.{now_ms, validate_time, validate_current_catalog, load}
use bastet_workstation.Store.Context.{validate_staged_run}
use bastet_workstation.Store.Cancel.{with_runs}
use bastet_workstation.Store.Spend.{is_unusable}
use bastet_workstation.Store.Claim.{
  CredentialReader, DispatchClaim, PreparedLaunch, BrokerError, authorization, credential, recovery,
  begin_run, lose_credential, has_ready_launch, selection_of, receipt_of, write_claim,
}

module _ (lib : Libraries) where
  -- `claim_staged_dispatch` once the run of the grant was found.
  unfoldable pub claim_run :
      Tables
      → ApprovalRequestId
      → RunId
      → ApprovalRequest
      → IdentityCatalog
      → Run
      → CredentialReader
      → ℕ
      → Result (Tables × DispatchClaim) StoreError
  claim_run t request_id run_id r c run reader now = do
    validate_staged_run lib t run
    validate_current_catalog lib t r
    plan ← load_plan lib t run_id
    validate_online_cli_requirements plan
    selection ← ok_or (selection_of plan.identity.account) credential_grant_rejected
    fail_if (not (reader.accepts selection)) credential_grant_rejected
    stored ← ok_or (graph_of plan.execution_id t) database
    loaded ← from_str stored.execution_json
    graph ← map_err invalid_graph (activate_staged_node loaded plan.node_id plan.owner run_id)
    map_err invalid_graph (validate lib.digest graph)
    revision ← checked_next run.metadata.revision
    let begun = with_runs (modify_by run_key run_id (begin_run (u64_text now) revision)) c
    map_err invalid_catalog (validate_catalog begun)
    next ← checked_next t.catalog_revision
    written ← write_claim t request_id run_id plan begun graph next now
    ok (
      written,
      record { receipt = receipt_of plan run_id next graph.revision; selection = selection },
    )

  unfoldable pub claim_staged_dispatch :
      Tables
      → ApprovalRequestId
      → CredentialReader
      → Option ℕ
      → Result (Tables × DispatchClaim) StoreError
  claim_staged_dispatch t request_id reader clock = do
    fail_if (not (is_ready t.lifecycle)) credential_grant_rejected
    grant ← load lib t request_id
    now ← now_ms clock
    validate_time grant.request now
    fail_if (is_unusable now grant) credential_grant_rejected
    run_id ← ok_or grant.request.action.scope.run_id credential_grant_rejected
    fail_if (not (has_ready_launch request_id run_id t)) credential_grant_rejected
    c ← from_str t.catalog_json
    run ← ok_or (find_run run_id c.runs) run_not_found
    claim_run t request_id run_id grant.request c run reader now

  -- `stamp` is the text of the clock.
  unfoldable pub fail_dispatch_claim : Tables → RunId → String → Result Tables StoreError
  fail_dispatch_claim t run_id stamp = do
    plan ← load_plan lib t run_id
    c ← from_str t.catalog_json
    run ← ok_or (find_run run_id c.runs) run_not_found
    fail_if (not (same_run_state run.state NormalizedRunState.starting)) credential_grant_rejected
    stored ← ok_or (graph_of plan.execution_id t) database
    loaded ← from_str stored.execution_json
    fail_if (not (runs_as (run_of (find_execution plan.node_id loaded.nodes)) run_id))
        credential_grant_rejected
    graph ←
        map_err invalid_graph
          (finish_terminal loaded plan.node_id plan.owner GraphNodeState.uncertain none)
    revision ← checked_next run.metadata.revision
    let lost = with_runs (modify_by run_key run_id (lose_credential stamp revision)) c
    map_err invalid_catalog (validate_catalog lost)
    moved ←
        exactly_one
          (move_staged (λ (s : StagedRow). s.run_id == run_id && is_dispatching_row s.state)
            (λ s. record s { state = StagedState.uncertain }) t)
          credential_grant_rejected
    next ← checked_next t.catalog_revision
    catalog_written ← write_catalog next lost moved
    written ← write_graph plan.execution_id graph catalog_written
    ok (insert_event "provider_launch.credential_lookup_failed" none (some run_id) written)

  -- The tables after a transaction, and what `prepare_staged_credentials` answers.
  abbrev pub recover_claim :
      Tables → Result Tables StoreError → Tables × Result PreparedLaunch BrokerError
  recover_claim claimed (ok failed) = (failed, err credential)
  recover_claim claimed (err e) = (claimed, err recovery)

  abbrev pub read_credential :
      Tables → DispatchClaim → Option (List ℕ) → String → Tables × Result PreparedLaunch BrokerError
  read_credential claimed c (some secret) stamp =
      (claimed, ok (record { receipt = c.receipt; credential = secret }))
  read_credential claimed c none stamp =
      recover_claim claimed (fail_dispatch_claim claimed c.receipt.run_id stamp)

  abbrev pub prepare_claim :
      Tables
      → CredentialReader
      → String
      → Result (Tables × DispatchClaim) StoreError
      → Tables × Result PreparedLaunch BrokerError
  prepare_claim t reader stamp (ok (claimed, c)) =
      read_credential claimed c (reader.read c.selection) stamp
  prepare_claim t reader stamp (err e) = (t, err authorization)

  -- `prepare_staged_credentials`, when no other call comes between its transactions.
  unfoldable pub prepare_staged_credentials :
      Tables
      → ApprovalRequestId
      → CredentialReader
      → Option ℕ
      → String
      → Tables × Result PreparedLaunch BrokerError
  prepare_staged_credentials t request_id reader clock stamp =
      prepare_claim t reader stamp (claim_staged_dispatch t request_id reader clock)

-- `reconcile`
unfoldable pub reconcile : Tables → Tables
reconcile t =
    let moved =
      move_staged (λ (s : StagedRow). is_dispatching_row s.state)
        (λ s. record s { state = StagedState.uncertain }) t in
    if ltb 0 moved.1
    then insert_event "provider_launch.claims_marked_uncertain" none none moved.0
    else moved.0
