-- ===== src/Store/Staged.antt =====
-- The checks of crates/bastet-daemon/src/staged_launches.rs on a launch that awaits its approval.
use Prim.Native.String.{◌++◌}
use bastet_workstation.Common.{
  ℕ, ◌-◌, ◌*◌, Bool, true, false, not, ◌&&◌, ◌||◌, Option, none, some, is_some, [], ◌∷◌, Result, ok,
  err, ◌>>=◌, ◌>>◌, fail_if, ok_or, map_err, ◌==◌, ltb,
}
use bastet_workstation.Adapter.RunState.{NormalizedRunState}
use bastet_workstation.Identity.{Run, Session}
use bastet_workstation.Policy.{ScopedPolicy, PermissionLevel, use_level, single_run}
use bastet_workstation.Catalog.{IdentityCatalog}
use bastet_workstation.Catalog.References.{validate_catalog}
use bastet_workstation.Approval.{ApprovalRequest, ApprovalDecision, ApprovalAction, high}
use bastet_workstation.Approval.Request.{validate_unchanged, verify_decision}
use bastet_workstation.Graph.{GraphNode, GraphNodeExecution, is_awaiting, owned_by, runs_as}
use bastet_workstation.Store.{
  ProviderLaunchPlan, Libraries, Tables, StagedState, StagedRow, NodeRunRow, GrantRow, StoreError,
  Json, from_str, invalid_catalog, invalid_approval, credential_grant_rejected,
}
use bastet_workstation.Store.Equality.{same_run_state, same_action}
use bastet_workstation.Store.Statements.{grant_of, is_open_row}
use bastet_workstation.Store.Plan.{
  validate_current_policy, validate_online_cli_requirements, plan_hash, active_role,
}
use bastet_workstation.Store.Grants.{is_approve}

abbrev pub approval_ttl_ms : ℕ
approval_ttl_ms = 5 * 60 * 1000

-- `load_catalog`
unfoldable pub load_catalog : Tables → Result IdentityCatalog StoreError
load_catalog t = do c ← from_str t.catalog_json; map_err invalid_catalog (validate_catalog c); ok c

abbrev pub credential_only : ScopedPolicy
credential_only = record {
  layer = single_run;
  ceiling = record {
    filesystem = PermissionLevel.deny;
    network = PermissionLevel.deny;
    process = PermissionLevel.deny;
    device = PermissionLevel.deny;
    credential = use_level;
    persistent_approval = false;
  };
}

-- `current_role_policy`
unfoldable pub current_role_policy :
    IdentityCatalog → ProviderLaunchPlan → Result ScopedPolicy StoreError
current_role_policy c plan = do
  validate_current_policy plan c
  validate_online_cli_requirements plan
  role ← ok_or (active_role c plan.role_id) credential_grant_rejected
  ok role.policy

-- The run is not one that waits for its approval.
abbrev pub has_begun : Run → Bool
has_begun run =
    not (same_run_state run.state NormalizedRunState.awaiting_approval)
    || is_some run.started_at
    || is_some run.finished_at

abbrev pub is_closed : StagedRow → Bool
is_closed row =
    not (is_open_row row.state) || is_some row.finished_at_ms || is_some row.cancel_reason

abbrev pub is_other_run : ProviderLaunchPlan → Run → Bool
is_other_run plan run =
    not (plan.run_id == run.metadata.id)
    || not (plan.session_id == run.session_id)
    || not (plan.identity.model_id == run.model_id)

abbrev pub is_other_session : ProviderLaunchPlan → Session → Bool
is_other_session plan session =
    not (session.agent_instance_id == plan.identity.agent_instance_id)
    || not (session.project_id == plan.identity.project_id)

abbrev pub is_unstaged : ProviderLaunchPlan → GraphNode → GraphNodeExecution → Bool
is_unstaged plan definition node =
    not (definition.role_id == plan.role_id)
    || not (is_awaiting node.state)
    || not (owned_by node.owner plan.owner)
    || not (runs_as node.run_id plan.run_id)

-- `latest == Some(AttemptState { .. })`
abbrev pub is_current_attempt : ProviderLaunchPlan → Option NodeRunRow → Bool
is_current_attempt plan none = false
is_current_attempt plan (some row) =
    row.run_id == plan.run_id
    && row.attempt == plan.attempt
    && not (is_some row.finished_at)
    && not (is_some row.terminal_state)
    && not (is_some row.failure_json)

-- The arm of a launch that is ready, with its decision and its grant.
abbrev pub check_ready : ApprovalRequest → Json ApprovalDecision → ℕ → Result (Unit {0}) StoreError
check_ready r json issued_at_ms = do
  decision ← from_str json
  map_err invalid_approval (verify_decision r decision)
  fail_if (not (is_approve decision.kind && issued_at_ms == decision.decided_at_ms))
      credential_grant_rejected

abbrev pub check_grant_row :
    ApprovalRequest → Json ApprovalDecision → ℕ → Option ℕ → Option ℕ → Result (Unit {0}) StoreError
check_grant_row r json issued_at_ms none none = check_ready r json issued_at_ms
check_grant_row r json issued_at_ms consumed_at_ms revoked_at_ms = err credential_grant_rejected

-- `match (staged_state, decision_json, grant)`
abbrev pub check_decision_state :
    ApprovalRequest
    → StagedState
    → Option (Json ApprovalDecision)
    → Option GrantRow
    → Result (Unit {0}) StoreError
check_decision_state r StagedState.awaiting_approval none none = ok tt
check_decision_state r StagedState.ready (some json) (some g) =
    check_grant_row r json g.issued_at_ms g.consumed_at_ms g.revoked_at_ms
check_decision_state r _ _ _ = err credential_grant_rejected

-- `validate_decision_and_grant_state`
unfoldable pub validate_decision_and_grant_state :
    Tables
    → ApprovalRequest
    → StagedState
    → Option (Json ApprovalDecision)
    → Result (Unit {0}) StoreError
validate_decision_and_grant_state t r state decision_json =
    check_decision_state r state decision_json (grant_of r.id t)

-- `if flag { check?; }`
abbrev pub only_if : Bool → Result (Unit {0}) StoreError → Result (Unit {0}) StoreError
only_if true check = check
only_if false check = ok tt

-- `expires_at_ms.checked_sub(created_at_ms) == Some(APPROVAL_TTL_MS)`
abbrev pub has_ttl : ApprovalRequest → Bool
has_ttl r =
    not (ltb r.expires_at_ms r.created_at_ms)
    && r.expires_at_ms - r.created_at_ms == approval_ttl_ms

module _ (lib : Libraries) where
  unfoldable pub approval_action : ProviderLaunchPlan → Result ApprovalAction StoreError
  approval_action plan = do
    account ← ok_or plan.identity.account credential_grant_rejected
    credential ← ok_or account.credential credential_grant_rejected
    ok (record {
      agent_instance_id = plan.identity.agent_instance_id;
      role_id = some plan.role_id;
      action_key = "credential.use";
      reason_key = "provider.authentication";
      consequence_key = "credential.single_run";
      risk = high;
      scope = record {
        project_id = plan.identity.project_id;
        run_id = some plan.run_id;
        filesystem_roots = plan.workspace_root ∷ [];
        data_scopes = ("provider_launch_plan:" ++ plan_hash lib plan) ∷ [];
        network_destinations = [];
        credential_reference_ids = credential.reference_id ∷ [];
        destination = none;
        credential_binding = some (record {
          agent_provider_id = plan.identity.agent_provider_id;
          account_id = account.account_id;
          adapter_kind = plan.identity.adapter_kind;
          provider_identity = account.provider_identity;
          credential_reference_id = credential.reference_id;
          backend = credential.backend;
          service = credential.service;
          account_label = credential.account_label;
          capability_key = "provider.authenticate";
        });
      };
      requested_policy = credential_only;
    })

  unfoldable pub validate_request_for_plan :
      ProviderLaunchPlan → ApprovalRequest → Result (Unit {0}) StoreError
  validate_request_for_plan plan r = do
    action ← approval_action plan
    fail_if (not (has_ttl r)) credential_grant_rejected
    map_err invalid_approval (validate_unchanged lib.request_bytes lib.sha256 r)
    fail_if (not (same_action r.action action)) credential_grant_rejected
