-- ===== src/Store/Cancel.antt =====
-- `cancel_for_request` of crates/bastet-daemon/src/staged_launches.rs.
use Prim.Native.String.{len}
use bastet_workstation.Common.{
  ℕ, any, length, String, Bool, false, not, ◌&&◌, ◌||◌, Option, none, some, is_none, List, [], ◌∷◌,
  find_by, modify_by, Result, ok, ◌>>=◌, ◌>>◌, fail_if, ok_or, map_err, is_blank, str_eq, ◌==◌, ltb,
  leb, if◌then◌else◌,
}
use bastet_workstation.Adapter.RunState.{NormalizedRunState}
use bastet_workstation.Identity.{ApprovalRequestId, RunId, Run}
use bastet_workstation.Catalog.{IdentityCatalog, find_run, run_key}
use bastet_workstation.Catalog.References.{validate_catalog}
use bastet_workstation.Graph.{GraphExecution, GraphError, GraphNodeOutput}
use bastet_workstation.Graph.Execution.{validate}
use bastet_workstation.Graph.Transitions.{cancel_staged_node}
use bastet_workstation.M3.Validation.{validate_m3, graph_key}
use bastet_workstation.Store.{
  ProviderLaunchPlan, Libraries, Tables, StagedState, StagedRow, GraphRow, OutputRow, NodeRunRow,
  StoreError, from_str, invalid_catalog, invalid_graph, invalid_m3, invalid_run_state,
  run_not_found, graph_not_found,
}
use bastet_workstation.Store.Statements.{
  update_where, count_where, u64_text, checked_next, staged_of, graph_of, is_open_row,
  is_cancelled_row, insert_event, revoke_grant_at, move_staged, exactly_one, write_catalog,
  write_graph,
}
use bastet_workstation.Store.Plan.{load_plan}
use bastet_workstation.Store.Grants.{now_ms}
use bastet_workstation.Store.Staged.{load_catalog}
use bastet_workstation.Store.Context.{validate_staged_context}

-- `SELECT EXISTS(SELECT 1 FROM graph_node_outputs WHERE ..)`
abbrev pub has_output_row : List OutputRow → GraphExecution → GraphNodeOutput → Bool
has_output_row rows e o =
    any
      (λ (r : OutputRow).
        r.execution_id == e.id
        && r.node_id == o.node_id
        && r.run_id == o.run_id
        && str_eq r.content_hash o.content_hash
        && str_eq r.markdown o.markdown)
      rows

unfoldable pub validate_graph_output_ledger : Tables → GraphExecution → Result (Unit {0}) StoreError
validate_graph_output_ledger t e = do
  fail_if
      (not (count_where (λ (r : OutputRow). r.execution_id == e.id) t.outputs == length e.outputs))
      (invalid_graph GraphError.invalid_output)
  fail_if (any (λ (o : GraphNodeOutput). not (has_output_row t.outputs e o)) e.outputs)
      (invalid_graph GraphError.invalid_output)

-- The run once its launch is cancelled.
abbrev pub cancel_run : String → ℕ → Run → Run
cancel_run finished_at revision run = record run {
  state = NormalizedRunState.cancelled;
  finished_at = some finished_at;
  metadata = record run.metadata { revision = revision; updated_at = finished_at };
}

abbrev pub with_runs : (List Run → List Run) → IdentityCatalog → IdentityCatalog
with_runs f c = record c { runs = f c.runs }

-- `WHERE run_id=?3 AND finished_at IS NULL AND terminal_state IS NULL`
abbrev pub is_unfinished : RunId → NodeRunRow → Bool
is_unfinished id r = r.run_id == id && is_none r.finished_at && is_none r.terminal_state

abbrev pub finish_node_run : RunId → String → Tables → Tables × ℕ
finish_node_run id finished_at t = (
  record t {
    node_runs =
        update_where (is_unfinished id)
          (λ r. record r {
            finished_at = some finished_at;
            terminal_state = some (some NormalizedRunState.cancelled);
            failure_json = none;
          })
          t.node_runs;
  },
  count_where (is_unfinished id) t.node_runs,
)

-- `WHERE request_id=?4 AND state IN ('awaiting_approval', 'ready')`
abbrev pub is_open_launch : ApprovalRequestId → StagedRow → Bool
is_open_launch id r = r.request_id == id && is_open_row r.state

abbrev pub cancel_launch : ℕ → String → StagedRow → StagedRow
cancel_launch finished_at_ms reason r = record r {
  state = StagedState.cancelled;
  finished_at_ms = some finished_at_ms;
  cancel_reason = some reason;
}

-- `now_ms.max(staged_at_ms)`
abbrev pub max : ℕ → ℕ → ℕ
max a b = if leb a b then b else a

-- The grant of a cancelled launch is revoked if it was not spent.
abbrev pub note_revoked : ApprovalRequestId → Tables × ℕ → Tables
note_revoked id (t, revoked) =
    if revoked == 1 then insert_event "credential.grant_revoked" (some id) none t else t

abbrev pub revoke_unspent : ApprovalRequestId → ℕ → Tables → Tables
revoke_unspent id at t =
    note_revoked id
      (revoke_grant_at id (λ g. max g.issued_at_ms at) "daemon:staged_launch_cancelled" t)

module _ (lib : Libraries) where
  -- The loop of `load_graph_executions`.
  unfoldable pub load_graph_rows : Tables → List GraphRow → Result (List GraphExecution) StoreError
  load_graph_rows t [] = ok []
  load_graph_rows t (row ∷ rows) = do
    e ← from_str row.execution_json
    map_err invalid_graph (validate lib.digest e)
    validate_graph_output_ledger t e
    rest ← load_graph_rows t rows
    ok (e ∷ rest)

  -- `M3State { .. }.validate(&catalog)` with the changed execution.
  unfoldable pub validate_with :
      Tables → IdentityCatalog → GraphExecution → Result (Unit {0}) StoreError
  validate_with t c execution = do
    m3 ← from_str t.m3_json
    executions ← load_graph_rows t t.graphs
    persisted ← ok_or (find_by graph_key execution.id executions) graph_not_found
    map_err invalid_m3 (
        validate_m3 lib.digest
          (record {
            catalog = m3;
            graph_executions = modify_by graph_key execution.id (λ e. execution) executions;
          })
          c)

  -- The statements at the end of `cancel_for_request`.
  unfoldable pub write_cancellation :
      Tables
      → ApprovalRequestId
      → RunId
      → ProviderLaunchPlan
      → IdentityCatalog
      → GraphExecution
      → ℕ
      → String
      → Result Tables StoreError
  write_cancellation t request_id run_id plan c execution finished_at_ms reason = do
    next ← checked_next t.catalog_revision
    catalog_written ← write_catalog next c t
    written ← write_graph execution.id execution catalog_written
    finished ←
        exactly_one (finish_node_run run_id (u64_text finished_at_ms) written)
          (invalid_run_state "staged run attempt is already terminal")
    cancelled ←
        exactly_one
          (move_staged (is_open_launch request_id) (cancel_launch finished_at_ms reason) finished)
          (invalid_run_state "staged launch cancellation lost its ledger claim")
    ok (
        insert_event "provider_launch.cancelled" (some request_id) (some run_id)
          (revoke_unspent request_id finished_at_ms cancelled))

  -- `cancel_for_request` on a launch that awaits its approval or is ready.
  unfoldable pub cancel_open :
      Tables → ApprovalRequestId → StagedRow → String → Option ℕ → Result Tables StoreError
  cancel_open t request_id row reason clock = do
    c ← load_catalog t
    run ← ok_or (find_run row.run_id c.runs) run_not_found
    validate_staged_context lib t run false false
    plan ← load_plan lib t row.run_id
    stored ← ok_or (graph_of plan.execution_id t) graph_not_found
    loaded ← from_str stored.execution_json
    fail_if (not (stored.revision == loaded.revision)) (invalid_graph GraphError.invalid_execution)
    execution ←
        map_err invalid_graph (cancel_staged_node loaded plan.node_id plan.owner plan.run_id)
    map_err invalid_graph (validate lib.digest execution)
    now ← now_ms clock
    let finished_at_ms = max now row.staged_at_ms
    revision ← checked_next run.metadata.revision
    let cancelled =
        with_runs (modify_by run_key row.run_id (cancel_run (u64_text finished_at_ms) revision)) c
    map_err invalid_catalog (validate_catalog cancelled)
    validate_with t cancelled execution
    write_cancellation t request_id row.run_id plan cancelled execution finished_at_ms reason

  abbrev pub cancel_row :
      Tables → ApprovalRequestId → Option StagedRow → String → Option ℕ → Result Tables StoreError
  cancel_row t request_id none reason clock = ok t
  cancel_row t request_id (some row) reason clock =
      let cancelled =
        fail_if (not (is_open_row row.state))
          (invalid_run_state "invalid staged launch ledger state")
        >> cancel_open t request_id row reason clock in
      if is_cancelled_row row.state then ok t else cancelled

  unfoldable pub cancel_for_request :
      Tables → ApprovalRequestId → String → Option ℕ → Result Tables StoreError
  cancel_for_request t request_id reason clock = do
    fail_if (is_blank reason || ltb 200 (len reason))
        (invalid_run_state "invalid staged launch cancellation reason")
    cancel_row t request_id (staged_of request_id t) reason clock
