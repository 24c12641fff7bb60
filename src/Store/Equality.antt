-- ===== src/Store/Equality.antt =====
-- The derived `==` of the records that the daemon compares whole.
use bastet_workstation.Common.{
  ℕ, Bool, true, false, not, ◌&&◌, Option, none, some, List, [], ◌∷◌, str_eq, ◌==◌,
}
use bastet_workstation.Adapter.RunState.{NormalizedRunState}
use bastet_workstation.Identity.{
  EntityLifecycle, EntityMetadata, CredentialBackend, macos_keychain, windows_credential_manager,
  linux_secret_service, Run,
}
use bastet_workstation.Policy.{ScopedPolicy, level_rank, layer_rank}
use bastet_workstation.Approval.{
  ApprovalRisk, CredentialGrantBinding, ApprovalScope, ApprovalAction,
}
use bastet_workstation.Store.{
  ProviderCredentialSelection, ProviderAccountSelection, ProviderLaunchIdentity,
  LaunchPolicySnapshot,
}

abbrev pub same_option {ℓ} : {A : Type ℓ} → (A → A → Bool) → Option A → Option A → Bool
same_option eq none none = true
same_option eq (some a) (some b) = eq a b
same_option eq _ _ = false

abbrev pub same_list {ℓ} : {A : Type ℓ} → (A → A → Bool) → List A → List A → Bool
same_list eq [] [] = true
same_list eq (x ∷ xs) (y ∷ ys) = eq x y && same_list eq xs ys
same_list eq _ _ = false

abbrev pub same_bool : Bool → Bool → Bool
same_bool true b = b
same_bool false b = not b

-- The place of a variant in its enum.
abbrev pub run_state_index : NormalizedRunState → ℕ
run_state_index NormalizedRunState.starting = 0
run_state_index NormalizedRunState.running = 1
run_state_index NormalizedRunState.awaiting_approval = 2
run_state_index NormalizedRunState.blocked = 3
run_state_index NormalizedRunState.cancelling = 4
run_state_index NormalizedRunState.cancelled = 5
run_state_index NormalizedRunState.failed = 6
run_state_index NormalizedRunState.succeeded = 7
run_state_index NormalizedRunState.recovering = 8
run_state_index NormalizedRunState.uncertain = 9

abbrev pub backend_index : CredentialBackend → ℕ
backend_index macos_keychain = 0
backend_index windows_credential_manager = 1
backend_index linux_secret_service = 2

abbrev pub lifecycle_index : EntityLifecycle → ℕ
lifecycle_index EntityLifecycle.active = 0
lifecycle_index EntityLifecycle.disabled = 1
lifecycle_index EntityLifecycle.archived = 2

abbrev pub risk_index : ApprovalRisk → ℕ
risk_index ApprovalRisk.low = 0
risk_index ApprovalRisk.medium = 1
risk_index ApprovalRisk.high = 2
risk_index ApprovalRisk.critical = 3

abbrev pub same_run_state : NormalizedRunState → NormalizedRunState → Bool
same_run_state a b = run_state_index a == run_state_index b

abbrev pub same_metadata : EntityMetadata ℕ → EntityMetadata ℕ → Bool
same_metadata a b =
    a.id == b.id
    && a.revision == b.revision
    && str_eq a.created_at b.created_at
    && str_eq a.updated_at b.updated_at
    && str_eq a.provenance.source_kind b.provenance.source_kind
    && str_eq a.provenance.source_id b.provenance.source_id
    && str_eq a.provenance.recorded_by b.provenance.recorded_by
    && lifecycle_index a.lifecycle == lifecycle_index b.lifecycle

unfoldable pub same_run : Run → Run → Bool
same_run a b =
    same_metadata a.metadata b.metadata
    && a.session_id == b.session_id
    && a.model_id == b.model_id
    && same_run_state a.state b.state
    && same_option str_eq a.started_at b.started_at
    && same_option str_eq a.finished_at b.finished_at

abbrev pub same_policy : ScopedPolicy → ScopedPolicy → Bool
same_policy a b =
    layer_rank a.layer == layer_rank b.layer
    && level_rank a.ceiling.filesystem == level_rank b.ceiling.filesystem
    && level_rank a.ceiling.network == level_rank b.ceiling.network
    && level_rank a.ceiling.process == level_rank b.ceiling.process
    && level_rank a.ceiling.device == level_rank b.ceiling.device
    && level_rank a.ceiling.credential == level_rank b.ceiling.credential
    && same_bool a.ceiling.persistent_approval b.ceiling.persistent_approval

unfoldable pub same_snapshot : LaunchPolicySnapshot → LaunchPolicySnapshot → Bool
same_snapshot a b = same_policy a.project b.project && same_policy a.role b.role

abbrev pub same_selection : ProviderCredentialSelection → ProviderCredentialSelection → Bool
same_selection a b =
    a.reference_id == b.reference_id
    && backend_index a.backend == backend_index b.backend
    && str_eq a.service b.service
    && str_eq a.account_label b.account_label

abbrev pub same_account : ProviderAccountSelection → ProviderAccountSelection → Bool
same_account a b =
    a.account_id == b.account_id
    && str_eq a.provider_identity b.provider_identity
    && same_option same_selection a.credential b.credential

unfoldable pub same_identity : ProviderLaunchIdentity → ProviderLaunchIdentity → Bool
same_identity a b =
    a.agent_instance_id == b.agent_instance_id
    && a.agent_provider_id == b.agent_provider_id
    && a.project_id == b.project_id
    && a.model_id == b.model_id
    && str_eq a.adapter_kind b.adapter_kind
    && str_eq a.model b.model
    && same_option same_account a.account b.account

abbrev pub same_grant_binding : CredentialGrantBinding → CredentialGrantBinding → Bool
same_grant_binding a b =
    a.agent_provider_id == b.agent_provider_id
    && a.account_id == b.account_id
    && str_eq a.adapter_kind b.adapter_kind
    && str_eq a.provider_identity b.provider_identity
    && a.credential_reference_id == b.credential_reference_id
    && backend_index a.backend == backend_index b.backend
    && str_eq a.service b.service
    && str_eq a.account_label b.account_label
    && str_eq a.capability_key b.capability_key

abbrev pub same_scope : ApprovalScope → ApprovalScope → Bool
same_scope a b =
    a.project_id == b.project_id
    && same_option (λ x y. x == y) a.run_id b.run_id
    && same_list str_eq a.filesystem_roots b.filesystem_roots
    && same_list str_eq a.data_scopes b.data_scopes
    && same_list str_eq a.network_destinations b.network_destinations
    && same_list (λ x y. x == y) a.credential_reference_ids b.credential_reference_ids
    && same_option str_eq a.destination b.destination
    && same_option same_grant_binding a.credential_binding b.credential_binding

unfoldable pub same_action : ApprovalAction → ApprovalAction → Bool
same_action a b =
    a.agent_instance_id == b.agent_instance_id
    && same_option (λ x y. x == y) a.role_id b.role_id
    && str_eq a.action_key b.action_key
    && str_eq a.reason_key b.reason_key
    && str_eq a.consequence_key b.consequence_key
    && risk_index a.risk == risk_index b.risk
    && same_scope a.scope b.scope
    && same_policy a.requested_policy b.requested_policy
