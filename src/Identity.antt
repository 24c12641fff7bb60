-- ===== src/Identity.antt =====
-- The identifiers and the entities of crates/bastet-core/src/identity.rs. A UUID is a number that is
-- only compared; a fresh identifier is an argument of the function that the code draws it in.
use bastet_workstation.Common.{ℕ, String, Option, List, Bool, true, false}
use bastet_workstation.Adapter.RunState.{NormalizedRunState}
use bastet_workstation.Policy.{ScopedPolicy}

abbrev pub AgentProviderId : Type 0
AgentProviderId = ℕ

abbrev pub ModelProviderId : Type 0
ModelProviderId = ℕ

abbrev pub AccountId : Type 0
AccountId = ℕ

abbrev pub ModelId : Type 0
ModelId = ℕ

abbrev pub AgentInstanceId : Type 0
AgentInstanceId = ℕ

abbrev pub ProjectId : Type 0
ProjectId = ℕ

abbrev pub RoleId : Type 0
RoleId = ℕ

abbrev pub SessionId : Type 0
SessionId = ℕ

abbrev pub RunId : Type 0
RunId = ℕ

abbrev pub CredentialReferenceId : Type 0
CredentialReferenceId = ℕ

abbrev pub ApprovalRequestId : Type 0
ApprovalRequestId = ℕ

abbrev pub PetProfileId : Type 0
PetProfileId = ℕ

abbrev pub PetAssignmentId : Type 0
PetAssignmentId = ℕ

abbrev pub RoomId : Type 0
RoomId = ℕ

abbrev pub MeetingId : Type 0
MeetingId = ℕ

abbrev pub DecisionBaselineId : Type 0
DecisionBaselineId = ℕ

abbrev pub GraphNodeId : Type 0
GraphNodeId = ℕ

abbrev pub GraphRunId : Type 0
GraphRunId = ℕ

abbrev pub ArtifactId : Type 0
ArtifactId = ℕ

abbrev pub ArtifactVersionId : Type 0
ArtifactVersionId = ℕ

abbrev pub CostRecordId : Type 0
CostRecordId = ℕ

abbrev pub KnowledgeDeliveryId : Type 0
KnowledgeDeliveryId = ℕ

pub data EntityLifecycle : Type 0 where
  active disabled archived : EntityLifecycle

abbrev pub is_active : EntityLifecycle → Bool
is_active active = true
is_active _ = false

pub record Provenance : Type 0 where
  pub source_kind : String
  pub source_id : String
  pub recorded_by : String

pub record EntityMetadata (I : Type 0) : Type 0 where
  pub id : I
  pub revision : ℕ  -- u64
  pub created_at : String
  pub updated_at : String
  pub provenance : Provenance
  pub lifecycle : EntityLifecycle

pub data CredentialBackend : Type 0 where
  macos_keychain windows_credential_manager linux_secret_service : CredentialBackend

pub record CredentialReference : Type 0 where
  pub metadata : EntityMetadata CredentialReferenceId
  pub backend : CredentialBackend
  pub service : String
  pub account_label : String

pub record AgentProvider : Type 0 where
  pub metadata : EntityMetadata AgentProviderId
  pub adapter_kind : String
  pub display_name : String

pub record ModelProvider : Type 0 where
  pub metadata : EntityMetadata ModelProviderId
  pub provider_key : String
  pub display_name : String

pub record Account : Type 0 where
  pub metadata : EntityMetadata AccountId
  pub agent_provider_id : AgentProviderId
  pub provider_identity : String
  pub credential_reference_id : Option CredentialReferenceId

pub record Model : Type 0 where
  pub metadata : EntityMetadata ModelId
  pub model_provider_id : ModelProviderId
  pub provider_model_id : String
  pub reasoning_controls : List String

pub record AgentInstance : Type 0 where
  pub metadata : EntityMetadata AgentInstanceId
  pub agent_provider_id : AgentProviderId
  pub account_id : Option AccountId
  pub default_model_id : Option ModelId

pub record Project : Type 0 where
  pub metadata : EntityMetadata ProjectId
  pub name : String
  pub workspace_root : String
  pub policy : ScopedPolicy

pub record Role : Type 0 where
  pub metadata : EntityMetadata RoleId
  pub name : String
  pub responsibilities : List String
  pub policy : ScopedPolicy

pub record Session : Type 0 where
  pub metadata : EntityMetadata SessionId
  pub agent_instance_id : AgentInstanceId
  pub project_id : ProjectId
  pub provider_session_id : Option String

pub record Run : Type 0 where
  pub metadata : EntityMetadata RunId
  pub session_id : SessionId
  pub model_id : ModelId
  pub state : NormalizedRunState
  pub started_at : Option String
  pub finished_at : Option String
