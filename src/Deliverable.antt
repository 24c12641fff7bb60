-- ===== src/Deliverable.antt =====
-- The documents, costs and knowledge deliveries of crates/bastet-core/src/deliverable.rs.
pub mod Document
pub mod Validation
pub mod Proper
pub mod Life
use bastet_workstation.Common.{ℕ, String, Bool, Option, List}
use bastet_workstation.Adapter.{EvidenceClass}
use bastet_workstation.Identity.{
  EntityMetadata, ProjectId, RunId, GraphNodeId, GraphRunId, ArtifactId, ArtifactVersionId,
  CostRecordId, KnowledgeDeliveryId,
}

pub record DocumentVersion : Type 0 where
  pub id : ArtifactVersionId
  pub version : ℕ  -- u32
  pub parent_id : Option ArtifactVersionId
  pub markdown : String
  pub content_hash : String
  pub source_node_ids : List GraphNodeId
  pub source_execution_id : Option GraphRunId
  pub source_join_node_id : Option GraphNodeId
  pub source_join_output_hash : Option String
  pub accepted_by : Option String
  pub accepted_at : Option String

pub record DocumentArtifact : Type 0 where
  pub metadata : EntityMetadata ArtifactId
  pub project_id : ProjectId
  pub title : String
  pub versions : List DocumentVersion

-- The two floats are their IEEE 754 bits.
pub record CostLedgerRecord : Type 0 where
  pub metadata : EntityMetadata CostRecordId
  pub project_id : ProjectId
  pub node_id : GraphNodeId
  pub run_id : RunId
  pub provider : String
  pub account : String
  pub model : String
  pub currency : Option String
  pub amount : Option ℕ  -- f64
  pub input_tokens : Option ℕ  -- u64
  pub output_tokens : Option ℕ  -- u64
  pub evidence_class : EvidenceClass
  pub source : String
  pub formula_version : Option String
  pub confidence : ℕ  -- f32
  pub reconciliation_state : String

pub data KnowledgeTarget : Type 0 where
  agent_memory_os bastet_mind : KnowledgeTarget

pub data DeliveryState : Type 0 where
  prepared delivered : DeliveryState

pub record KnowledgeDelivery : Type 0 where
  pub metadata : EntityMetadata KnowledgeDeliveryId
  pub project_id : ProjectId
  pub artifact_version_id : ArtifactVersionId
  pub target : KnowledgeTarget
  pub preview : String
  pub redacted : Bool
  pub state : DeliveryState
  pub destination_receipt : Option String

pub record DeliverableCatalog : Type 0 where
  pub documents : List DocumentArtifact
  pub costs : List CostLedgerRecord
  pub knowledge_deliveries : List KnowledgeDelivery

pub data DeliverableError : Type 0 where
  invalid_document_version invalid_acceptance invalid_version_chain : DeliverableError
  invalid_join_receipt invalid_cost invalid_knowledge_delivery : DeliverableError
  unaccepted_artifact : DeliverableError
