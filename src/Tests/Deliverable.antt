-- ===== src/Tests/Deliverable.antt =====
-- The theorems on deliverables at one document with two versions.
use bastet_workstation.Common.{
  ◌≡◌, refl, String, false, true, some, none, is_some, [], ◌∷◌, All, ok, err, is_blank, for_each,
}
use bastet_workstation.Deliverable.{
  DocumentVersion, KnowledgeDelivery, DeliverableCatalog, agent_memory_os, prepared, delivered,
  invalid_acceptance, invalid_knowledge_delivery,
}
use bastet_workstation.Adapter.{locally_measured}
use bastet_workstation.Deliverable.Document.{
  check_version, hash_markdown, accept, record_delivered, prepare, create_version,
}
use bastet_workstation.Deliverable.Validation.{
  check_versions, check_documents, check_cost, check_delivery, validate_deliverables,
}
use bastet_workstation.Deliverable.Proper.{
  IsProperDocument, IsProperDelivery, validate_deliverables-IsProperDocument,
}
use bastet_workstation.Deliverable.Life.{accept_once, deliver_once}
use bastet_workstation.Tests.Approval.{metadata_of}

abbrev pub plain : String → String
plain s = s

abbrev pub first_draft : DocumentVersion
first_draft = record {
  id = 61;
  version = 1;
  parent_id = none;
  markdown = "draft";
  content_hash = "sha256:draft";
  source_node_ids = 31 ∷ 32 ∷ [];
  source_execution_id = none;
  source_join_node_id = none;
  source_join_output_hash = none;
  accepted_by = none;
  accepted_at = none;
}

first_draft_is_created : create_version plain 61 1 none "draft" (31 ∷ 32 ∷ []) ≡ ok first_draft
unfolding create_version hash_markdown is_blank
first_draft_is_created = refl

abbrev final_text : DocumentVersion
final_text = record first_draft {
  id = 62;
  version = 2;
  parent_id = some 61;
  markdown = "final";
  content_hash = "sha256:final";
}

abbrev pub accepted_text : DocumentVersion
accepted_text = record final_text { accepted_by = some "user"; accepted_at = some "2026" }

final_text_is_accepted : accept plain final_text "user" "2026" ≡ ok accepted_text
unfolding accept check_version hash_markdown is_blank
final_text_is_accepted = refl

accept_once_example :
    (check_version plain final_text ≡ ok tt)
    × (is_some final_text.accepted_by ≡ false)
    × (is_blank "user" ≡ false)
    × (is_blank "2026" ≡ false)
    × (accepted_text ≡ record final_text { accepted_by = some "user"; accepted_at = some "2026" })
    × (check_version plain accepted_text ≡ ok tt)
    × ((other later : String) → accept plain accepted_text other later ≡ err invalid_acceptance)
accept_once_example =
    accept_once plain final_text accepted_text "user" "2026" final_text_is_accepted

abbrev note : KnowledgeDelivery
note = record {
  metadata = metadata_of 63;
  project_id = 6;
  artifact_version_id = 62;
  target = agent_memory_os;
  preview = "preview";
  redacted = true;
  state = prepared;
  destination_receipt = none;
}

note_is_prepared : prepare (metadata_of 63) 6 62 agent_memory_os "preview" ≡ ok note
unfolding prepare is_blank
note_is_prepared = refl

abbrev sent_note : KnowledgeDelivery
sent_note = record note { state = delivered; destination_receipt = some "receipt" }

note_is_sent : record_delivered note "receipt" ≡ ok sent_note
unfolding record_delivered is_blank
note_is_sent = refl

deliver_once_example :
    (note.state ≡ prepared)
    × (is_blank "receipt" ≡ false)
    × (sent_note ≡ record note { state = delivered; destination_receipt = some "receipt" })
    × ((other : String) → record_delivered sent_note other ≡ err invalid_knowledge_delivery)
deliver_once_example = deliver_once note sent_note "receipt" note_is_sent

abbrev pub one_document : DeliverableCatalog
one_document = record {
  documents =
      record {
        metadata = metadata_of 60;
        project_id = 6;
        title = "report";
        versions = first_draft ∷ accepted_text ∷ [];
      }
      ∷ [];
  costs =
      record {
        metadata = metadata_of 64;
        project_id = 6;
        node_id = 31;
        run_id = 7;
        provider = "p";
        account = "a";
        model = "m";
        currency = none;
        amount = some 0x3ff0000000000000;
        input_tokens = some 10;
        output_tokens = none;
        evidence_class = locally_measured;
        source = "s";
        formula_version = none;
        confidence = 0x3f000000;
        reconciliation_state = "open";
      }
      ∷ [];
  knowledge_deliveries = sent_note ∷ [];
}

pub one_document_is_valid : validate_deliverables plain one_document ≡ ok tt
unfolding validate_deliverables check_documents check_versions check_version check_cost
    check_delivery hash_markdown for_each is_blank
one_document_is_valid = refl

validate_deliverables-IsProperDocument_example :
    All (IsProperDocument plain) one_document.documents
    × All (IsProperDelivery plain one_document.documents) one_document.knowledge_deliveries
validate_deliverables-IsProperDocument_example =
    validate_deliverables-IsProperDocument plain one_document one_document_is_valid
