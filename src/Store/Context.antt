-- ===== src/Store/Context.antt =====
-- `validate_staged_context` of crates/bastet-daemon/src/staged_launches.rs.
use bastet_workstation.Common.{
  Bool, true, false, not, ◌||◌, Result, ok, ◌>>=◌, ◌>>◌, fail_if, ok_or, map_err, str_eq, ◌==◌,
}
use bastet_workstation.Identity.{Run}
use bastet_workstation.Catalog.{IdentityCatalog, find_run, find_session}
use bastet_workstation.Approval.{ApprovalRequest}
use bastet_workstation.Approval.Against.{validate_against}
use bastet_workstation.Graph.{GraphExecution, GraphError, find_node, find_execution}
use bastet_workstation.Graph.Execution.{validate}
use bastet_workstation.Store.{
  ProviderLaunchPlan, Libraries, Tables, StoreError, from_str, invalid_approval, invalid_graph,
  invalid_run_state, credential_grant_rejected, run_not_found, graph_not_found, approval_not_found,
}
use bastet_workstation.Store.Equality.{same_identity, same_run}
use bastet_workstation.Store.Statements.{approval_of, staged_for_run, graph_of, latest_attempt}
use bastet_workstation.Store.Plan.{load_plan}
use bastet_workstation.Store.Binding.{ProviderRunBinding, resolve_provider_run_binding}
use bastet_workstation.Store.Staged.{
  load_catalog, current_role_policy, has_begun, is_closed, is_other_run, is_other_session,
  is_unstaged, is_current_attempt, validate_decision_and_grant_state, only_if,
  validate_request_for_plan,
}

-- The launch would be resolved otherwise today.
abbrev pub is_other_selection : ProviderRunBinding → ProviderLaunchPlan → Bool
is_other_selection binding plan =
    not (same_identity binding.launch_identity plan.identity)
    || not (str_eq binding.workspace_root plan.workspace_root)
    || not (str_eq binding.prompt plan.prompt)

unfoldable pub check_run_session :
    IdentityCatalog → ProviderLaunchPlan → Run → Result (Unit {0}) StoreError
check_run_session c plan run = do
  persisted ← ok_or (find_run run.metadata.id c.runs) run_not_found
  fail_if (not (same_run persisted run))
      (invalid_run_state "staged run differs from the current catalog")
  session ← ok_or (find_session run.session_id c.sessions) run_not_found
  fail_if (is_other_session plan session)
      (invalid_run_state "staged session differs from its launch identity")

module _ (lib : Libraries) where
  -- The checks on the catalog and on the graph of the plan.
  unfoldable pub check_plan_graph :
      Tables → IdentityCatalog → ProviderLaunchPlan → Result GraphExecution StoreError
  check_plan_graph t c plan = do
    stored ← ok_or (graph_of plan.execution_id t) graph_not_found
    execution ← from_str stored.execution_json
    map_err invalid_graph (validate lib.digest execution)
    fail_if (not (stored.revision == execution.revision))
        (invalid_graph GraphError.invalid_execution)
    definition ← ok_or (find_node plan.node_id execution.graph.nodes) run_not_found
    node ← ok_or (find_execution plan.node_id execution.nodes) run_not_found
    fail_if (is_unstaged plan definition node)
        (invalid_run_state "staged graph node differs from its launch plan")
    fail_if
        (not (is_current_attempt plan (latest_attempt plan.execution_id plan.node_id t.node_runs)))
        (invalid_run_state "staged run is not the current unfinished attempt")
    ok execution

  -- `if require_live_authority { .. }`
  unfoldable pub check_live_authority :
      Tables
      → IdentityCatalog
      → ProviderLaunchPlan
      → GraphExecution
      → ApprovalRequest
      → Result (Unit {0}) StoreError
  check_live_authority t c plan execution r = do
    map_err invalid_approval (validate_against lib.request_bytes lib.sha256 r c)
    policy ← current_role_policy c plan
    m3 ← from_str t.m3_json
    binding ← resolve_provider_run_binding lib c m3 execution plan.node_id
    fail_if (is_other_selection binding plan)
        (invalid_run_state "current provider selection differs from the staged launch plan")

  unfoldable pub validate_staged_context : Tables → Run → Bool → Bool → Result (Unit {0}) StoreError
  validate_staged_context t run validate_decision_state require_live_authority = do
    fail_if (has_begun run) (invalid_run_state "staged run has invalid catalog timing")
    row ←
        ok_or (staged_for_run run.metadata.id t)
          (invalid_run_state "staged launch ledger is unavailable")
    fail_if (is_closed row) (invalid_run_state "staged launch ledger is terminal or corrupt")
    plan ← load_plan lib t run.metadata.id
    fail_if (is_other_run plan run) (invalid_run_state "staged run differs from its launch plan")
    c ← load_catalog t
    check_run_session c plan run
    execution ← check_plan_graph t c plan
    approval ← ok_or (approval_of row.request_id t) approval_not_found
    r ← from_str approval.request_json
    fail_if (not (r.id == row.request_id)) credential_grant_rejected
    validate_request_for_plan lib plan r
    only_if require_live_authority (check_live_authority t c plan execution r)
    only_if validate_decision_state
        (validate_decision_and_grant_state t r row.state approval.decision_json)

  -- `validate_staged_run`
  abbrev pub validate_staged_run : Tables → Run → Result (Unit {0}) StoreError
  validate_staged_run t run = validate_staged_context t run true false
