-- ===== src/Store/Plan.antt =====
-- The launch plans of crates/bastet-daemon/src/provider_launch.rs.
use Prim.Native.String.{◌++◌}
use bastet_workstation.Common.{
  ℕ, String, Bool, false, not, ◌&&◌, ◌||◌, Option, none, some, find, Result, ok, ◌>>=◌, ◌>>◌,
  fail_if, ok_or, map_err, str_eq, ◌==◌,
}
use bastet_workstation.Identity.{ProjectId, RoleId, RunId, Project, Role, is_active}
use bastet_workstation.Policy.{
  ScopedPolicy, single_run, PermissionLevel, observe, use_level, restrict,
}
use bastet_workstation.Catalog.{IdentityCatalog}
use bastet_workstation.Catalog.Validation.{is_project_layer, is_role_layer}
use bastet_workstation.Approval.Hash.{hex}
use bastet_workstation.Store.{
  LaunchPolicySnapshot, ProviderLaunchPlan, ProviderLaunchIdentity, NodeRunRow, Libraries, Tables,
  StoreError, database, Json, from_str, invalid_run_state,
}
use bastet_workstation.Store.Equality.{same_option, same_snapshot, same_identity}
use bastet_workstation.Store.Statements.{plan_of, node_run_of}

-- `LaunchPolicySnapshot::validate`
unfoldable pub validate_snapshot : LaunchPolicySnapshot → Result (Unit {0}) StoreError
validate_snapshot s = do
  fail_if (not (is_project_layer s.project.layer) || not (is_role_layer s.role.layer))
      (invalid_run_state "launch policy layers invalid")
  granted ←
      map_err (λ e. invalid_run_state "launch role policy exceeds project ceiling")
        (restrict s.project s.role)
  ok tt

abbrev pub active_project : IdentityCatalog → ProjectId → Option Project
active_project c id =
    find (λ (p : Project). p.metadata.id == id && is_active p.metadata.lifecycle) c.projects

abbrev pub active_role : IdentityCatalog → RoleId → Option Role
active_role c id =
    find (λ (r : Role). r.metadata.id == id && is_active r.metadata.lifecycle) c.roles

-- `LaunchPolicySnapshot::capture`
unfoldable pub capture :
    IdentityCatalog → ProjectId → RoleId → Result LaunchPolicySnapshot StoreError
capture c project_id role_id = do
  project ←
      ok_or (active_project c project_id) (invalid_run_state "launch project policy unavailable")
  role ← ok_or (active_role c role_id) (invalid_run_state "launch role policy unavailable")
  validate_snapshot (record { project = project.policy; role = role.policy })
  ok (record { project = project.policy; role = role.policy })

abbrev pub online_cli_policy : ScopedPolicy
online_cli_policy = record {
  layer = single_run;
  ceiling = record {
    filesystem = observe;
    network = use_level;
    process = use_level;
    device = PermissionLevel.deny;
    credential = use_level;
    persistent_approval = false;
  };
}

unfoldable pub validate_online_cli_requirements : ProviderLaunchPlan → Result (Unit {0}) StoreError
validate_online_cli_requirements plan = do
  saved ← ok_or plan.policy (invalid_run_state "launch policy unavailable")
  validate_snapshot saved
  granted ←
      map_err (λ e. invalid_run_state "online CLI exceeds launch policy")
        (restrict saved.role online_cli_policy)
  ok tt

unfoldable pub validate_current_policy :
    ProviderLaunchPlan → IdentityCatalog → Result (Unit {0}) StoreError
validate_current_policy plan c = do
  saved ← ok_or plan.policy (invalid_run_state "legacy launch has no saved policy authority")
  fail_if (not (plan.version == 2)) (invalid_run_state "launch policy changed")
  current ← capture c plan.identity.project_id plan.role_id
  fail_if (not (same_snapshot saved current)) (invalid_run_state "launch policy changed")

-- `matches!((plan.version, &plan.policy), (1, None) | (2, Some(_)))`
abbrev pub version_is_valid : ℕ → Option LaunchPolicySnapshot → Bool
version_is_valid version none = version == 1
version_is_valid version (some policy) = version == 2

abbrev pub validate_saved : Option LaunchPolicySnapshot → Result (Unit {0}) StoreError
validate_saved none = ok tt
validate_saved (some policy) = validate_snapshot policy

-- `json.map(|json| serde_json::from_str(&json)).transpose()`
abbrev pub read_identity :
    Option (Json ProviderLaunchIdentity) → Result (Option ProviderLaunchIdentity) StoreError
read_identity none = ok none
read_identity (some json) = do identity ← from_str json; ok (some identity)

unfoldable pub load_launch_identity :
    Tables → RunId → Result (Option ProviderLaunchIdentity) StoreError
load_launch_identity t run_id = do
  row ← ok_or (node_run_of run_id t) database
  read_identity row.launch_identity_json

-- `ledger == Some((execution_id, node_id, attempt))`
abbrev pub is_ledger_of : ProviderLaunchPlan → Option NodeRunRow → Bool
is_ledger_of plan none = false
is_ledger_of plan (some row) =
    row.execution_id == plan.execution_id
    && row.node_id == plan.node_id
    && row.attempt == plan.attempt

module _ (lib : Libraries) where
  -- `ProviderLaunchPlan::hash`
  unfoldable pub plan_hash : ProviderLaunchPlan → String
  plan_hash plan = "sha256:" ++ hex (lib.sha256 (lib.plan_bytes plan))

  -- `ProviderLaunchPlan::load`
  unfoldable pub load_plan : Tables → RunId → Result ProviderLaunchPlan StoreError
  load_plan t run_id = do
    row ← ok_or (plan_of run_id t) (invalid_run_state "launch plan unavailable")
    plan ← from_str row.plan_json
    fail_if
        (not (version_is_valid plan.version plan.policy)
          || not (plan.run_id == run_id)
          || not (str_eq (plan_hash plan) row.plan_hash))
        (invalid_run_state "launch plan integrity check failed")
    validate_saved plan.policy
    fail_if (not (is_ledger_of plan (node_run_of run_id t)))
        (invalid_run_state "launch plan differs from attempt ledger")
    identity ← load_launch_identity t run_id
    fail_if (not (same_option same_identity identity (some plan.identity)))
        (invalid_run_state "launch plan differs from attempt ledger")
    ok plan
