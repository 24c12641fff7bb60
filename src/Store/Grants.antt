-- ===== src/Store/Grants.antt =====
-- Credential grants, crates/bastet-daemon/src/credential_grants.rs: the clock, the conditions under which
-- a grant may be issued or used, and the row of a grant.
use bastet_workstation.Common.{
  ℕ, String, Bool, true, false, not, ◌&&◌, ◌||◌, ◌^◌, Option, none, some, is_some, is_none, List,
  length, any, keep_if, Result, ok, err, ◌>>=◌, ◌>>◌, fail_if, ok_or, map_err, str_eq, ◌==◌, leb,
  ltb, if◌then◌else◌,
}
use bastet_workstation.Adapter.RunState.{NormalizedRunState}
use bastet_workstation.Identity.{ApprovalRequestId, RunId, RoleId, Run, is_active}
use bastet_workstation.Catalog.{IdentityCatalog, find_run}
use bastet_workstation.Catalog.References.{validate_catalog}
use bastet_workstation.Approval.{ApprovalRequest, ApprovalDecision, ApprovalDecisionKind}
use bastet_workstation.Approval.Request.{validate_unchanged, verify_decision}
use bastet_workstation.Approval.Against.{validate_against}
use bastet_workstation.Office.{PetAssignment}
use bastet_workstation.Graph.{
  GraphNode, GraphNodeExecution, GraphExecution, find_node, find_execution, is_awaiting, is_running,
  owned_by, runs_as,
}
use bastet_workstation.Graph.Execution.{validate}
use bastet_workstation.M3.{M3Catalog}
use bastet_workstation.Store.{
  ProviderLaunchIdentity, ProviderLaunchPlan, Libraries, Tables, StagedRow, NodeRunRow, StoreError,
  database, from_str, invalid_catalog, invalid_approval, invalid_graph, credential_grant_not_found,
  credential_grant_rejected,
}
use bastet_workstation.Store.Equality.{same_run_state, same_identity}
use bastet_workstation.Store.Statements.{
  approval_of, grant_of, staged_for_run, node_run_of, graph_of, is_open_row, insert_grant,
  insert_event,
}
use bastet_workstation.Store.Plan.{load_launch_identity, validate_current_policy, load_plan}
use bastet_workstation.Store.Binding.{
  ProviderRunBinding, validate_m3_catalog, resolve_provider_run_binding,
}

-- The milliseconds since the epoch, which a clock before the epoch does not give.
abbrev pub now_ms : Option ℕ → Result ℕ StoreError
now_ms none = err credential_grant_rejected
now_ms (some now) = if ltb now (2 ^ 63) then ok now else err credential_grant_rejected

unfoldable pub validate_time : ApprovalRequest → ℕ → Result (Unit {0}) StoreError
validate_time r now =
    fail_if (ltb now r.created_at_ms || leb r.expires_at_ms now || leb (2 ^ 63) r.expires_at_ms)
      credential_grant_rejected

-- `catalog.runs.iter().find(|run| Some(run.metadata.id) == request.action.scope.run_id)`
abbrev pub run_in_scope : Option RunId → IdentityCatalog → Option Run
run_in_scope none c = none
run_in_scope (some id) c = find_run id c.runs

-- The staged launch of the run is of this request, and was neither cancelled nor dispatched.
abbrev pub is_awaiting_launch : ApprovalRequest → Option StagedRow → Bool
is_awaiting_launch r none = false
is_awaiting_launch r (some row) = row.request_id == r.id && is_open_row row.state

-- The run is not where a grant may be used.
abbrev pub is_out_of_place : ApprovalRequest → Run → Option StagedRow → Bool
is_out_of_place r run staged =
    is_some run.finished_at
    || (if is_some staged
        then not (is_awaiting_launch r staged)
          || not (same_run_state run.state NormalizedRunState.awaiting_approval)
          || is_some run.started_at
        else not (same_run_state run.state NormalizedRunState.starting))

abbrev pub assignments_of : ApprovalRequest → M3Catalog → List PetAssignment
assignments_of r m3 =
    keep_if
      (λ (a : PetAssignment).
        is_active a.metadata.lifecycle
        && a.project_id == r.action.scope.project_id
        && a.agent_instance_id == r.action.agent_instance_id)
      m3.office.pet_assignments

-- The node is not the run's, or not in the state of the launch.
abbrev pub is_other_node : RoleId → Run → Bool → GraphNode → GraphNodeExecution → Bool
is_other_node role_id run awaiting definition current =
    not (definition.role_id == role_id)
    || not (runs_as current.run_id run.metadata.id)
    || not (if awaiting then is_awaiting current.state else is_running current.state)

-- The last test of `validate_current_catalog`.
unfoldable pub differs_from_plan :
    ApprovalRequest
    → RoleId
    → Run
    → GraphExecution
    → GraphNode
    → GraphNodeExecution
    → ProviderLaunchIdentity
    → ProviderRunBinding
    → ProviderLaunchPlan
    → Bool
differs_from_plan r role_id run graph definition current selected binding plan =
    not (same_identity selected binding.launch_identity)
    || not (same_identity plan.identity selected)
    || not (plan.execution_id == graph.id)
    || not (plan.node_id == definition.id)
    || not (plan.role_id == role_id)
    || not (plan.session_id == run.session_id)
    || not (owned_by current.owner plan.owner)
    || not (str_eq plan.workspace_root binding.workspace_root)
    || not (str_eq plan.prompt binding.prompt)
    || not (selected.agent_instance_id == r.action.agent_instance_id)
    || not (selected.project_id == r.action.scope.project_id)
    || not (selected.model_id == run.model_id)

abbrev pub is_approve : ApprovalDecisionKind → Bool
is_approve ApprovalDecisionKind.approve = true
is_approve ApprovalDecisionKind.deny = false

pub record CredentialGrantRecord : Type 0 where
  pub request : ApprovalRequest
  pub decision : ApprovalDecision
  pub issued_at_ms : ℕ
  pub consumed_at_ms : Option ℕ
  pub revoked_at_ms : Option ℕ
  pub revoked_by : Option String

-- `issue`
unfoldable pub issue : Tables → ApprovalRequest → ApprovalDecision → Result Tables StoreError
issue t r d = do
  granted ← insert_grant r.id d.decided_at_ms t
  ok (insert_event "credential.grant_issued" (some r.id) r.action.scope.run_id granted)

module _ (lib : Libraries) where
  -- The part of `validate_current_catalog` on a run of a graph node.
  unfoldable pub check_graph_run :
      Tables
      → ApprovalRequest
      → IdentityCatalog
      → M3Catalog
      → Run
      → RoleId
      → Bool
      → NodeRunRow
      → Result (Unit {0}) StoreError
  check_graph_run t r c m3 run role_id awaiting row = do
    fail_if (is_some row.finished_at) credential_grant_rejected
    stored ← ok_or (graph_of row.execution_id t) database
    graph ← from_str stored.execution_json
    map_err invalid_graph (validate lib.digest graph)
    definition ← ok_or (find_node row.node_id graph.graph.nodes) credential_grant_rejected
    current ← ok_or (find_execution definition.id graph.nodes) credential_grant_rejected
    fail_if (is_other_node role_id run awaiting definition current) credential_grant_rejected
    found ← load_launch_identity t run.metadata.id
    selected ← ok_or found credential_grant_rejected
    binding ← resolve_provider_run_binding lib c m3 graph definition.id
    plan ← load_plan lib t run.metadata.id
    validate_current_policy plan c
    fail_if (differs_from_plan r role_id run graph definition current selected binding plan)
        credential_grant_rejected

  -- `if let Some(..) = graph_row { .. } else if assignments.len() != 1 { .. }`
  abbrev pub check_node_run :
      Tables
      → ApprovalRequest
      → IdentityCatalog
      → M3Catalog
      → Run
      → RoleId
      → Bool
      → Option NodeRunRow
      → Result (Unit {0}) StoreError
  check_node_run t r c m3 run role_id awaiting none =
      fail_if (not (length (assignments_of r m3) == 1)) credential_grant_rejected
  check_node_run t r c m3 run role_id awaiting (some row) =
      check_graph_run t r c m3 run role_id awaiting row

  unfoldable pub validate_current_catalog : Tables → ApprovalRequest → Result (Unit {0}) StoreError
  validate_current_catalog t r = do
    c ← from_str t.catalog_json
    map_err invalid_catalog (validate_catalog c)
    map_err invalid_approval (validate_against lib.request_bytes lib.sha256 r c)
    run ← ok_or (run_in_scope r.action.scope.run_id c) credential_grant_rejected
    fail_if (is_out_of_place r run (staged_for_run run.metadata.id t)) credential_grant_rejected
    role_id ← ok_or r.action.role_id credential_grant_rejected
    m3 ← from_str t.m3_json
    validate_m3_catalog lib m3 c
    fail_if (not (any (λ (a : PetAssignment). a.role_id == role_id) (assignments_of r m3)))
        credential_grant_rejected
    check_node_run t r c m3 run role_id (is_awaiting_launch r (staged_for_run run.metadata.id t))
        (node_run_of run.metadata.id t)

  -- `load`
  unfoldable pub load : Tables → ApprovalRequestId → Result CredentialGrantRecord StoreError
  load t id = do
    grant ← ok_or (grant_of id t) credential_grant_not_found
    approval ← ok_or (approval_of id t) credential_grant_not_found
    request ← from_str approval.request_json
    json ← ok_or approval.decision_json credential_grant_rejected
    decision ← from_str json
    map_err invalid_approval (validate_unchanged lib.request_bytes lib.sha256 request)
    map_err invalid_approval (verify_decision request decision)
    fail_if
        (not (request.id == id)
          || not (is_approve decision.kind)
          || is_none request.action.scope.credential_binding
          || not (grant.issued_at_ms == decision.decided_at_ms))
        credential_grant_rejected
    ok (record {
      request = request;
      decision = decision;
      issued_at_ms = grant.issued_at_ms;
      consumed_at_ms = grant.consumed_at_ms;
      revoked_at_ms = grant.revoked_at_ms;
      revoked_by = grant.revoked_by;
    })
