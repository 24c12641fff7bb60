-- ===== src/Deliverable/Document.antt =====
-- The operations of crates/bastet-core/src/deliverable.rs on one document version and on one delivery.
-- `digest` stands for the hexadecimal SHA-256 of the sha2 crate.
use Prim.Native.String.{◌++◌}
use bastet_workstation.Common.{
  ℕ, String, Bool, true, false, not, ◌||◌, Option, some, none, is_some, List, Result, ok, ◌>>◌,
  fail_if, is_blank, str_eq, ◌==◌, if◌then◌else◌,
}
use bastet_workstation.Identity.{
  EntityMetadata, ProjectId, ArtifactVersionId, KnowledgeDeliveryId, GraphNodeId, GraphRunId,
}
use bastet_workstation.Deliverable.{
  DocumentVersion, KnowledgeDelivery, KnowledgeTarget, DeliveryState, prepared, delivered,
  DeliverableError, invalid_document_version, invalid_acceptance, invalid_join_receipt,
  invalid_knowledge_delivery,
}

-- `!=` on two booleans
abbrev pub differs : Bool → Bool → Bool
differs a b = if a then not b else b

abbrev pub is_valid_receipt : Option GraphRunId → Option GraphNodeId → Option String → Bool
is_valid_receipt none none none = true
is_valid_receipt (some e) (some n) (some h) = not (is_blank h)
is_valid_receipt _ _ _ = false

abbrev pub is_prepared : DeliveryState → Bool
is_prepared prepared = true
is_prepared delivered = false

module _ (digest : String → String) where
  unfoldable pub hash_markdown : String → String
  hash_markdown content = "sha256:" ++ digest content

  -- `DocumentVersion::create`
  unfoldable pub create_version :
      ArtifactVersionId
      → ℕ
      → Option ArtifactVersionId
      → String
      → List GraphNodeId
      → Result DocumentVersion DeliverableError
  create_version id version parent_id markdown source_node_ids = do
    fail_if (version == 0 || is_blank markdown) invalid_document_version
    ok (record {
      id = id;
      version = version;
      parent_id = parent_id;
      markdown = markdown;
      content_hash = hash_markdown markdown;
      source_node_ids = source_node_ids;
      source_execution_id = none;
      source_join_node_id = none;
      source_join_output_hash = none;
      accepted_by = none;
      accepted_at = none;
    })

  -- `DocumentVersion::validate_unchanged`
  unfoldable pub check_version : DocumentVersion → Result (Unit {0}) DeliverableError
  check_version v =
      fail_if
        (v.version == 0
          || is_blank v.markdown
          || not (str_eq v.content_hash (hash_markdown v.markdown))
          || differs (is_some v.accepted_by) (is_some v.accepted_at)
          || not (
              is_valid_receipt v.source_execution_id v.source_join_node_id
                v.source_join_output_hash))
        invalid_document_version

  unfoldable pub accept :
      DocumentVersion → String → String → Result DocumentVersion DeliverableError
  accept v actor accepted_at = do
    check_version v
    fail_if (is_some v.accepted_by || is_blank actor || is_blank accepted_at) invalid_acceptance
    ok (record v { accepted_by = some actor; accepted_at = some accepted_at })

unfoldable pub bind_join_receipt :
    DocumentVersion → GraphRunId → GraphNodeId → String → Result DocumentVersion DeliverableError
bind_join_receipt v execution_id join_node_id join_output_hash = do
  fail_if
      (is_blank join_output_hash
        || is_some v.source_execution_id
        || is_some v.source_join_node_id
        || is_some v.source_join_output_hash)
      invalid_join_receipt
  ok (record v {
    source_execution_id = some execution_id;
    source_join_node_id = some join_node_id;
    source_join_output_hash = some join_output_hash;
  })

-- `KnowledgeDelivery::prepare`
unfoldable pub prepare :
    EntityMetadata KnowledgeDeliveryId
    → ProjectId
    → ArtifactVersionId
    → KnowledgeTarget
    → String
    → Result KnowledgeDelivery DeliverableError
prepare metadata project_id artifact_version_id target preview = do
  fail_if (is_blank preview) invalid_knowledge_delivery
  ok (record {
    metadata = metadata;
    project_id = project_id;
    artifact_version_id = artifact_version_id;
    target = target;
    preview = preview;
    redacted = true;
    state = prepared;
    destination_receipt = none;
  })

unfoldable pub record_delivered :
    KnowledgeDelivery → String → Result KnowledgeDelivery DeliverableError
record_delivered d receipt = do
  fail_if (not (is_prepared d.state) || is_blank receipt) invalid_knowledge_delivery
  ok (record d { state = delivered; destination_receipt = some receipt })
