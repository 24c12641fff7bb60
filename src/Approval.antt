-- ===== src/Approval.antt =====
-- The approval requests of crates/bastet-core/src/approval.rs.
pub mod Hash
pub mod Digest
pub mod Request
pub mod Against
pub mod Permission
pub mod Decision
pub mod Grounds
pub mod Backing
pub mod Soundness
use bastet_workstation.Common.{
  ℕ, String, Bool, true, false, not, ◌&&◌, ◌||◌, Option, some, none, is_none, is_some, List, [],
  ◌∷◌, Result, ok, err, ◌>>=◌, ◌>>◌, fail_if, for_each, map_err, is_blank, str_eq, ◌==◌,
}
use bastet_workstation.Identity.{
  AgentProviderId, AccountId, CredentialReferenceId, CredentialBackend, ProjectId, RunId,
  AgentInstanceId, RoleId, ApprovalRequestId,
}
use bastet_workstation.Policy.{
  ScopedPolicy, PolicyError, PolicyLayer, single_run, PermissionLevel, use_level, restrict,
}

pub data ApprovalRisk : Type 0 where
  low medium high critical : ApprovalRisk

pub record CredentialGrantBinding : Type 0 where
  pub agent_provider_id : AgentProviderId
  pub account_id : AccountId
  pub adapter_kind : String
  pub provider_identity : String
  pub credential_reference_id : CredentialReferenceId
  pub backend : CredentialBackend
  pub service : String
  pub account_label : String
  pub capability_key : String

pub record ApprovalScope : Type 0 where
  pub project_id : ProjectId
  pub run_id : Option RunId
  pub filesystem_roots : List String
  pub data_scopes : List String
  pub network_destinations : List String
  pub credential_reference_ids : List CredentialReferenceId
  pub destination : Option String
  pub credential_binding : Option CredentialGrantBinding

pub record ApprovalAction : Type 0 where
  pub agent_instance_id : AgentInstanceId
  pub role_id : Option RoleId
  pub action_key : String
  pub reason_key : String
  pub consequence_key : String
  pub risk : ApprovalRisk
  pub scope : ApprovalScope
  pub requested_policy : ScopedPolicy

pub record ApprovalRequest : Type 0 where
  pub id : ApprovalRequestId
  pub request_hash : String
  pub created_at_ms : ℕ  -- u64
  pub expires_at_ms : ℕ  -- u64
  pub action : ApprovalAction

pub data ApprovalDecisionKind : Type 0 where
  approve deny : ApprovalDecisionKind

pub record ApprovalDecision : Type 0 where
  pub request_id : ApprovalRequestId
  pub request_hash : String
  pub kind : ApprovalDecisionKind
  pub decided_at_ms : ℕ  -- u64
  pub actor : String

-- `panics` is the model's own: the call of `expect` in `validate_credential_binding`.
pub data ApprovalError : Type 0 where
  empty_field : String → ApprovalError
  invalid_expiry invalid_policy_layer : ApprovalError
  policy : PolicyError → ApprovalError
  persistent_high_risk hash_mismatch expired empty_actor : ApprovalError
  missing_reference : String → ApprovalError
  credential_account_required account_credential_required : ApprovalError
  credential_account_mismatch run_agent_mismatch run_project_mismatch : ApprovalError
  credential_use_binding_required credential_binding_reference_mismatch : ApprovalError
  credential_binding_run_required credential_binding_role_required : ApprovalError
  empty_credential_capability unsupported_credential_capability : ApprovalError
  credential_permission_required credential_risk_required : ApprovalError
  persistent_credential_grant : ApprovalError
  credential_binding_mismatch credential_binding_inactive : String → ApprovalError
  invalid_decision_time panics : ApprovalError

-- `matches!(risk, High | Critical)`
abbrev pub is_high : ApprovalRisk → Bool
is_high high = true
is_high critical = true
is_high _ = false

abbrev pub is_single_run : PolicyLayer → Bool
is_single_run single_run = true
is_single_run _ = false

abbrev pub is_use : PermissionLevel → Bool
is_use use_level = true
is_use _ = false

-- `ids.as_slice() == [id]`
abbrev pub is_exactly : List ℕ → ℕ → Bool
is_exactly (x ∷ []) id = x == id
is_exactly _ id = false

abbrev pub required_keys : ApprovalAction → List (String × String)
required_keys a =
    ("action_key", a.action_key)
    ∷ ("reason_key", a.reason_key)
    ∷ ("consequence_key", a.consequence_key)
    ∷ []

abbrev pub check_key : String × String → Result (Unit {0}) ApprovalError
check_key (name, value) = fail_if (is_blank value) (empty_field name)

-- `if let Some(binding) = &action.scope.credential_binding` in `validate_action`
unfoldable pub check_binding :
    ApprovalAction → Option CredentialGrantBinding → Result (Unit {0}) ApprovalError
check_binding a none = ok tt
check_binding a (some binding) = do
  fail_if (not (str_eq a.action_key "credential.use")) credential_use_binding_required
  fail_if (is_blank binding.capability_key) empty_credential_capability
  fail_if (not (str_eq binding.capability_key "provider.authenticate"))
      unsupported_credential_capability
  fail_if (is_none a.scope.run_id) credential_binding_run_required
  fail_if (is_none a.role_id) credential_binding_role_required
  fail_if (not (is_exactly a.scope.credential_reference_ids binding.credential_reference_id))
      credential_binding_reference_mismatch
  fail_if (not (is_use a.requested_policy.ceiling.credential)) credential_permission_required
  fail_if (not (is_high a.risk)) credential_risk_required
  fail_if a.requested_policy.ceiling.persistent_approval persistent_credential_grant

-- `parent.restrict(..)?`, with the policy error wrapped.
abbrev pub restrict_within : ScopedPolicy → ScopedPolicy → Result ScopedPolicy ApprovalError
restrict_within parent requested = map_err policy (restrict parent requested)

unfoldable pub validate_action : ApprovalAction → ScopedPolicy → Result (Unit {0}) ApprovalError
unfolding check_binding
validate_action a parent = do
  for_each check_key (required_keys a)
  fail_if (not (is_single_run a.requested_policy.layer)) invalid_policy_layer
  granted ← restrict_within parent a.requested_policy
  fail_if (is_high a.risk && a.requested_policy.ceiling.persistent_approval) persistent_high_risk
  fail_if (str_eq a.action_key "credential.use" && is_none a.scope.credential_binding)
      credential_use_binding_required
  check_binding a a.scope.credential_binding
