-- ===== src/Deliverable/Validation.antt =====
-- `DeliverableCatalog::validate` of crates/bastet-core/src/deliverable.rs.
use Prim.Native.Nat.{◌/◌}
use bastet_workstation.Common.{
  ℕ, suc, ◌-◌, ◌%◌, ◌^◌, String, Bool, true, false, not, ◌&&◌, ◌||◌, Option, some, none, is_some,
  List, [], ◌∷◌, is_empty, length, Result, ok, ◌>>=◌, ◌>>◌, fail_if, for_each, is_blank, contains,
  insert, collect, ◌==◌, leb, ltb, if◌then◌else◌,
}
use bastet_workstation.Adapter.{EvidenceClass}
use bastet_workstation.Deliverable.{
  DocumentVersion, DocumentArtifact, CostLedgerRecord, KnowledgeDelivery, DeliveryState, prepared,
  delivered, DeliverableCatalog, DeliverableError, invalid_document_version, invalid_version_chain,
  invalid_join_receipt, invalid_cost, invalid_knowledge_delivery, unaccepted_artifact,
}
use bastet_workstation.Deliverable.Document.{check_version}

-- `u32::try_from(n).unwrap_or(u32::MAX)`
abbrev pub to_u32 : ℕ → ℕ
to_u32 n = if ltb n (2 ^ 32) then n else 2 ^ 32 - 1

-- `==` on two optional ids
abbrev pub same_id : Option ℕ → Option ℕ → Bool
same_id none none = true
same_id (some a) (some b) = a == b
same_id _ _ = false

-- `if version.accepted_by.is_some() { accepted_versions.insert(version.id); }`
abbrev pub note_accepted : DocumentVersion → List ℕ → List ℕ
note_accepted v accepted = if is_some v.accepted_by then insert v.id accepted else accepted

-- `!(0.0..=1.0).contains(&confidence)`, on the bits of an f32
abbrev pub is_outside_unit : ℕ → Bool
is_outside_unit bits = not (bits % 2 ^ 31 == 0 || leb bits 0x3f800000)

-- `!amount.is_finite() || amount < 0.0`, on the bits of an f64
abbrev pub is_bad_amount : ℕ → Bool
is_bad_amount bits =
    leb 0x7ff0000000000000 (bits % 2 ^ 63) || (bits / 2 ^ 63 == 1 && not (bits % 2 ^ 63 == 0))

abbrev pub holds {ℓ} : {A : Type ℓ} → (A → Bool) → Option A → Bool
holds p none = false
holds p (some a) = p a

abbrev pub is_unknown : EvidenceClass → Bool
is_unknown EvidenceClass.unknown = true
is_unknown _ = false

unfoldable pub check_cost : CostLedgerRecord → Result (Unit {0}) DeliverableError
check_cost c =
    fail_if
      (is_blank c.provider
        || is_blank c.account
        || is_blank c.model
        || is_blank c.source
        || is_blank c.reconciliation_state
        || is_outside_unit c.confidence
        || holds is_bad_amount c.amount
        || (is_unknown c.evidence_class
            && (is_some c.amount || is_some c.input_tokens || is_some c.output_tokens)))
      invalid_cost

-- `match delivery.state { .. }`: the receipt does not fit the state.
abbrev pub has_bad_receipt : DeliveryState → Option String → Bool
has_bad_receipt prepared receipt = is_some receipt
has_bad_receipt delivered none = true
has_bad_receipt delivered (some receipt) = is_blank receipt

unfoldable pub check_delivery : List ℕ → KnowledgeDelivery → Result (Unit {0}) DeliverableError
check_delivery accepted d = do
  fail_if (is_blank d.preview || not d.redacted || has_bad_receipt d.state d.destination_receipt)
      invalid_knowledge_delivery
  fail_if (not (contains accepted d.artifact_version_id)) unaccepted_artifact

module _ (digest : String → String) where
  -- The loop over the versions of a document, from `index`, with `previous` and `accepted_versions`.
  unfoldable pub check_versions :
      ℕ → Option ℕ → List ℕ → List DocumentVersion → Result (List ℕ) DeliverableError
  check_versions index previous accepted [] = ok accepted
  check_versions index previous accepted (v ∷ rest) =
      let others = check_versions (suc index) (some v.id) (note_accepted v accepted) rest in
      do
        check_version digest v
        fail_if (not (v.version == to_u32 (suc index)) || not (same_id v.parent_id previous))
            invalid_version_chain
        fail_if (not (length (collect v.source_node_ids) == 2)) invalid_join_receipt
        others

  -- The loop over the documents, which collects `accepted_versions`.
  unfoldable pub check_documents : List ℕ → List DocumentArtifact → Result (List ℕ) DeliverableError
  check_documents accepted [] = ok accepted
  check_documents accepted (d ∷ rest) = do
    fail_if (is_blank d.title || is_empty d.versions) invalid_document_version
    more ← check_versions 0 none accepted d.versions
    check_documents more rest

  -- `DeliverableCatalog::validate`
  unfoldable pub validate_deliverables : DeliverableCatalog → Result (Unit {0}) DeliverableError
  validate_deliverables c = do
    accepted ← check_documents [] c.documents
    for_each check_cost c.costs
    for_each (check_delivery accepted) c.knowledge_deliveries
