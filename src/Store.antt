-- ===== src/Store.antt =====
-- The tables of the daemon's store, crates/bastet-daemon/src/lib.rs, that staged launches and credential
-- grants read and write, and the errors of a call.
pub mod Equality
pub mod Statements
pub mod Plan
pub mod Binding
pub mod Grants
pub mod Staged
pub mod Context
pub mod Cancel
pub mod Launches
pub mod Spend
pub mod Claim
pub mod Dispatch
pub mod Decision
pub mod Calls
pub mod Later
pub mod Keeps
pub mod Steps
pub mod Evolution
pub mod Spending
pub mod Once
pub mod Loaded
pub mod Authority
pub mod Settled
pub mod Settling
pub mod Settlement
pub mod Agreement
pub mod Lookup
pub mod Revoked
use bastet_workstation.Common.{
  ℕ, String, Option, none, some, List, Result, ok_or, Bool, true, false,
}
use bastet_workstation.Adapter.{AdapterFailure}
use bastet_workstation.Adapter.RunState.{NormalizedRunState}
use bastet_workstation.Policy.{ScopedPolicy}
use bastet_workstation.Identity.{
  ApprovalRequestId, RunId, SessionId, RoleId, GraphRunId, GraphNodeId, AgentInstanceId,
  AgentProviderId, ProjectId, ModelId, AccountId, CredentialReferenceId, CredentialBackend,
}
use bastet_workstation.Approval.{ApprovalRequest, ApprovalDecision, ApprovalError}
use bastet_workstation.Approval.Hash.{HashInput}
use bastet_workstation.Catalog.{IdentityCatalog, CatalogError}
use bastet_workstation.Graph.{GraphExecution, GraphError}
use bastet_workstation.M3.{M3Catalog, M3Error}

pub record ProviderCredentialSelection : Type 0 where
  pub reference_id : CredentialReferenceId
  pub backend : CredentialBackend
  pub service : String
  pub account_label : String

pub record ProviderAccountSelection : Type 0 where
  pub account_id : AccountId
  pub provider_identity : String
  pub credential : Option ProviderCredentialSelection

pub record ProviderLaunchIdentity : Type 0 where
  pub agent_instance_id : AgentInstanceId
  pub agent_provider_id : AgentProviderId
  pub project_id : ProjectId
  pub model_id : ModelId
  pub adapter_kind : String
  pub model : String
  pub account : Option ProviderAccountSelection

pub record LaunchPolicySnapshot : Type 0 where
  pub project : ScopedPolicy
  pub role : ScopedPolicy

pub record ProviderLaunchPlan : Type 0 where
  pub version : ℕ  -- u32
  pub execution_id : GraphRunId
  pub node_id : GraphNodeId
  pub session_id : SessionId
  pub run_id : RunId
  pub attempt : ℕ  -- u64
  pub role_id : RoleId
  pub owner : String
  pub identity : ProviderLaunchIdentity
  pub workspace_root : String
  pub prompt : String
  pub policy : Option LaunchPolicySnapshot

-- What the daemon takes from serde_json, sha2 and uuid: the bytes of a request and of a plan, a string
-- as JSON, the two forms of the SHA-256 digest, and the text of an identifier.
pub record Libraries : Type 0 where
  pub request_bytes : HashInput → List ℕ
  pub plan_bytes : ProviderLaunchPlan → List ℕ
  pub quote : String → String
  pub digest : String → String
  pub sha256 : List ℕ → List ℕ
  pub uuid_text : ℕ → String

-- A column of JSON: `none` is a text that serde_json refuses.
abbrev pub Json : Type 0 → Type 0
Json A = Option A

pub data DaemonLifecycle : Type 0 where
  starting ready checkpointing suspended stopping recovering : DaemonLifecycle

pub data StagedState : Type 0 where
  awaiting_approval ready cancelled dispatching uncertain : StagedState

pub record ApprovalRow : Type 0 where
  pub request_id : ApprovalRequestId
  pub request_hash : String
  pub request_json : Json ApprovalRequest
  pub expires_at_ms : ℕ
  pub decision_json : Option (Json ApprovalDecision)

pub record GrantRow : Type 0 where
  pub request_id : ApprovalRequestId
  pub issued_at_ms : ℕ
  pub consumed_at_ms : Option ℕ
  pub revoked_at_ms : Option ℕ
  pub revoked_by : Option String

pub record StagedRow : Type 0 where
  pub run_id : RunId
  pub request_id : ApprovalRequestId
  pub state : StagedState
  pub staged_at_ms : ℕ
  pub finished_at_ms : Option ℕ
  pub cancel_reason : Option String

pub record PlanRow : Type 0 where
  pub run_id : RunId
  pub plan_json : Json ProviderLaunchPlan
  pub plan_hash : String

pub record NodeRunRow : Type 0 where
  pub execution_id : GraphRunId
  pub node_id : GraphNodeId
  pub run_id : RunId
  pub attempt : ℕ
  pub launch_identity_json : Option (Json ProviderLaunchIdentity)
  pub finished_at : Option String
  pub terminal_state : Option (Json NormalizedRunState)
  pub failure_json : Option (Json AdapterFailure)

pub record GraphRow : Type 0 where
  pub execution_id : GraphRunId
  pub revision : ℕ
  pub execution_json : Json GraphExecution

pub record OutputRow : Type 0 where
  pub execution_id : GraphRunId
  pub node_id : GraphNodeId
  pub run_id : RunId
  pub content_hash : String
  pub markdown : String

pub record ClaimRow : Type 0 where
  pub run_id : RunId
  pub request_id : ApprovalRequestId
  pub claimed_at_ms : ℕ

-- Of the payload of an event, the request and the run are kept.
pub record JournalEvent : Type 0 where
  pub event_type : String
  pub request_id : Option ApprovalRequestId
  pub run_id : Option RunId

pub record Tables : Type 0 where
  pub lifecycle : DaemonLifecycle
  pub catalog_revision : ℕ
  pub catalog_json : Json IdentityCatalog
  pub m3_json : Json M3Catalog
  pub approvals : List ApprovalRow
  pub grants : List GrantRow
  pub staged : List StagedRow
  pub plans : List PlanRow
  pub node_runs : List NodeRunRow
  pub graphs : List GraphRow
  pub outputs : List OutputRow
  pub claims : List ClaimRow
  pub journal : List JournalEvent

pub data StoreError : Type 0 where
  database serialization : StoreError
  revision_conflict : ℕ → ℕ → StoreError
  invalid_catalog : CatalogError → StoreError
  invalid_approval : ApprovalError → StoreError
  approval_not_found approval_conflict : StoreError
  credential_grant_not_found credential_grant_rejected : StoreError
  revision_overflow run_not_found : StoreError
  invalid_run_state invalid_mvp : String → StoreError
  invalid_graph : GraphError → StoreError
  invalid_m3 : M3Error → StoreError
  graph_not_found : StoreError

-- `serde_json::from_str(&json)?`
abbrev pub from_str : {A : Type 0} → Json A → Result A StoreError
from_str json = ok_or json serialization
