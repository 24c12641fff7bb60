-- ===== src/Approval/Against.antt =====
-- `ApprovalRequest::validate_against` and `validate_credential_binding` of
-- crates/bastet-core/src/approval.rs: an approval request against the identity catalog.
use bastet_workstation.Common.{
  ℕ, String, Bool, true, false, not, Option, some, none, List, any, Result, ok, err, ◌>>=◌, ◌>>◌,
  fail_if, ok_or, for_each, str_eq, ◌==◌, is_empty, if◌then◌else◌,
}
use bastet_workstation.Identity.{
  AgentInstance, Project, Account, Session, RunId, RoleId, is_active, EntityLifecycle,
  CredentialBackend, macos_keychain, windows_credential_manager, linux_secret_service,
  CredentialReference,
}
use bastet_workstation.Policy.{ScopedPolicy}
use bastet_workstation.Catalog.{
  IdentityCatalog, find_agent, find_project, find_role, find_run, find_session, find_account,
  find_agent_provider, find_reference,
}
use bastet_workstation.Approval.{
  ApprovalRequest, ApprovalAction, CredentialGrantBinding, ApprovalError, missing_reference,
  run_agent_mismatch, run_project_mismatch, credential_account_required,
  account_credential_required, credential_account_mismatch, credential_binding_inactive,
  credential_binding_mismatch, panics, restrict_within, validate_action,
}
use bastet_workstation.Approval.Hash.{HashInput}
use bastet_workstation.Approval.Request.{validate_unchanged}

-- The early returns of `validate_credential_binding`: an entity is not active, or two values differ.
abbrev pub require_active : String → EntityLifecycle → Result (Unit {0}) ApprovalError
require_active name l = fail_if (not (is_active l)) (credential_binding_inactive name)

abbrev pub require_same : String → Bool → Result (Unit {0}) ApprovalError
require_same name same = fail_if (not same) (credential_binding_mismatch name)

abbrev pub is_some_id : Option ℕ → ℕ → Bool
is_some_id none id = false
is_some_id (some x) id = x == id

abbrev pub same_backend : CredentialBackend → CredentialBackend → Bool
same_backend macos_keychain macos_keychain = true
same_backend windows_credential_manager windows_credential_manager = true
same_backend linux_secret_service linux_secret_service = true
same_backend _ _ = false

-- The session of a run, of the same agent and project as the action.
unfoldable pub check_session : Session → ApprovalAction → Result (Unit {0}) ApprovalError
check_session session a = do
  fail_if (not (session.agent_instance_id == a.agent_instance_id)) run_agent_mismatch
  fail_if (not (session.project_id == a.scope.project_id)) run_project_mismatch

-- `if let Some(run_id) = self.action.scope.run_id`
unfoldable pub check_run_scope :
    IdentityCatalog → ApprovalAction → Option RunId → Result (Unit {0}) ApprovalError
check_run_scope catalog a none = ok tt
check_run_scope catalog a (some run_id) = do
  run ← ok_or (find_run run_id catalog.runs) (missing_reference "run_id")
  session ← ok_or (find_session run.session_id catalog.sessions) (missing_reference "session_id")
  check_session session a

-- Every named credential exists, and is the one of the agent's account.
unfoldable pub check_references :
    IdentityCatalog → AgentInstance → List ℕ → Result (Unit {0}) ApprovalError
check_references catalog agent ids = do
  for_each
      (λ id.
        fail_if (not (any (λ x. x.metadata.id == id) catalog.credential_references))
          (missing_reference "credential_reference_id"))
      ids
  account_id ← ok_or agent.account_id credential_account_required
  account ← ok_or (find_account account_id catalog.accounts) (missing_reference "account_id")
  own ← ok_or account.credential_reference_id account_credential_required
  for_each (λ id. fail_if (not (id == own)) credential_account_mismatch) ids

unfoldable pub check_credential_scope :
    IdentityCatalog → AgentInstance → List ℕ → Result (Unit {0}) ApprovalError
check_credential_scope catalog agent ids =
    if is_empty ids then ok tt else check_references catalog agent ids

-- The policy that the action is checked against at last: the role's, or the project's.
unfoldable pub parent_policy :
    IdentityCatalog → Project → Option RoleId → Result ScopedPolicy ApprovalError
parent_policy catalog project none = ok project.policy
parent_policy catalog project (some role_id) = do
  role ← ok_or (find_role role_id catalog.roles) (missing_reference "role_id")
  ok role.policy

unfoldable pub check_account : Account → CredentialGrantBinding → Result (Unit {0}) ApprovalError
check_account account b = do
  require_active "account" account.metadata.lifecycle
  require_same "account.agent_provider_id" (account.agent_provider_id == b.agent_provider_id)
  require_same "provider_identity" (str_eq account.provider_identity b.provider_identity)
  require_same "credential_reference_id"
      (is_some_id account.credential_reference_id b.credential_reference_id)

unfoldable pub check_reference :
    CredentialReference → CredentialGrantBinding → Result (Unit {0}) ApprovalError
check_reference reference b = do
  require_active "credential_reference" reference.metadata.lifecycle
  require_same "backend" (same_backend reference.backend b.backend)
  require_same "service" (str_eq reference.service b.service)
  require_same "account_label" (str_eq reference.account_label b.account_label)

unfoldable pub check_role : IdentityCatalog → Option RoleId → Result (Unit {0}) ApprovalError
check_role catalog none = ok tt
check_role catalog (some role_id) = do
  role ← ok_or (find_role role_id catalog.roles) (missing_reference "role_id")
  require_active "role" role.metadata.lifecycle

-- The tests on the run, whose id the code reads with `expect`.
unfoldable pub check_bound_run :
    IdentityCatalog → ApprovalAction → Option RunId → Result (Unit {0}) ApprovalError
check_bound_run catalog a none = err panics
check_bound_run catalog a (some run_id) = do
  run ← ok_or (find_run run_id catalog.runs) (missing_reference "run_id")
  require_active "run" run.metadata.lifecycle
  session ← ok_or (find_session run.session_id catalog.sessions) (missing_reference "session_id")
  require_active "session" session.metadata.lifecycle
  check_session session a

unfoldable pub validate_credential_binding :
    ApprovalRequest
    → IdentityCatalog
    → AgentInstance
    → Project
    → CredentialGrantBinding
    → Result (Unit {0}) ApprovalError
unfolding check_account check_reference check_bound_run check_role
validate_credential_binding r catalog agent project b = do
  require_active "agent_instance" agent.metadata.lifecycle
  require_active "project" project.metadata.lifecycle
  require_same "agent_provider_id" (agent.agent_provider_id == b.agent_provider_id)
  provider ←
      ok_or (find_agent_provider b.agent_provider_id catalog.agent_providers)
        (missing_reference "agent_provider_id")
  require_active "agent_provider" provider.metadata.lifecycle
  require_same "adapter_kind" (str_eq provider.adapter_kind b.adapter_kind)
  require_same "account_id" (is_some_id agent.account_id b.account_id)
  account ← ok_or (find_account b.account_id catalog.accounts) (missing_reference "account_id")
  check_account account b
  reference ←
      ok_or (find_reference b.credential_reference_id catalog.credential_references)
        (missing_reference "credential_reference_id")
  check_reference reference b
  check_bound_run catalog r.action r.action.scope.run_id
  check_role catalog r.action.role_id

unfoldable pub check_grant :
    ApprovalRequest
    → IdentityCatalog
    → AgentInstance
    → Project
    → Option CredentialGrantBinding
    → Result (Unit {0}) ApprovalError
check_grant r catalog agent project none = ok tt
check_grant r catalog agent project (some b) = validate_credential_binding r catalog agent project b

module _ (to_vec : HashInput → List ℕ) (sha256 : List ℕ → List ℕ) where
  unfoldable pub validate_against :
      ApprovalRequest → IdentityCatalog → Result (Unit {0}) ApprovalError
  validate_against r catalog = do
    validate_unchanged to_vec sha256 r
    agent ←
        ok_or (find_agent r.action.agent_instance_id catalog.agent_instances)
          (missing_reference "agent_instance_id")
    project ←
        ok_or (find_project r.action.scope.project_id catalog.projects)
          (missing_reference "project_id")
    granted ← restrict_within project.policy r.action.requested_policy
    parent ← parent_policy catalog project r.action.role_id
    check_run_scope catalog r.action r.action.scope.run_id
    check_credential_scope catalog agent r.action.scope.credential_reference_ids
    check_grant r catalog agent project r.action.scope.credential_binding
    validate_action r.action parent
