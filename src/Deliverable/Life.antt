-- ===== src/Deliverable/Life.antt =====
-- Acceptance of a document version, and delivery of knowledge.
use bastet_workstation.Common.{
  ◌≡◌, sym, not, String, false, some, is_blank, ok, err, ◌>>◌, fail_if, >>-eq-ok, arith, subst,
  is_some, ◌||◌,
}
use bastet_workstation.Deliverable.{
  DocumentVersion, KnowledgeDelivery, prepared, delivered, invalid_acceptance,
  invalid_knowledge_delivery,
}
use bastet_workstation.Deliverable.Document.{check_version, is_prepared, accept, record_delivered}

-- A version that was accepted was unchanged and not accepted before, by an actor and at a time that
-- are not blank; it is still unchanged, with its contents as they were, and is never accepted again.
pub accept_once :
    (digest : String → String) (v w : DocumentVersion) (actor accepted_at : String)
    → accept digest v actor accepted_at ≡ ok w
    → (check_version digest v ≡ ok tt)
      × (is_some v.accepted_by ≡ false)
      × (is_blank actor ≡ false)
      × (is_blank accepted_at ≡ false)
      × (w ≡ record v { accepted_by = some actor; accepted_at = some accepted_at })
      × (check_version digest w ≡ ok tt)
      × ((other later : String) → accept digest w other later ≡ err invalid_acceptance)
unfolding accept check_version
accept_once digest v w actor accepted_at h =
    let refused =
      fail_if (is_some v.accepted_by || is_blank actor || is_blank accepted_at)
        invalid_acceptance in
    let accepted = record v { accepted_by = some actor; accepted_at = some accepted_at } in
    let (valid, h1) = >>-eq-ok (check_version digest v) (refused >> ok accepted) h in
    let (free, h2) = >>-eq-ok refused (ok accepted) h1 in
    let result : w ≡ accepted = ground arith in
    let still : check_version digest accepted ≡ ok tt = ground arith in
    (
      valid,
      ground arith,
      ground arith,
      ground arith,
      result,
      subst (λ (z : DocumentVersion). check_version digest z ≡ ok tt) (sym result) still,
      λ other later.
          subst (λ (z : DocumentVersion). accept digest z other later ≡ err invalid_acceptance)
            (sym result) (ground (arith, still)),
    )

-- A delivery that was recorded was prepared, with a receipt that is not blank; it is never recorded
-- again.
pub deliver_once :
    (d w : KnowledgeDelivery) (receipt : String)
    → record_delivered d receipt ≡ ok w
    → (d.state ≡ prepared)
      × (is_blank receipt ≡ false)
      × (w ≡ record d { state = delivered; destination_receipt = some receipt })
      × ((other : String) → record_delivered w other ≡ err invalid_knowledge_delivery)
unfolding record_delivered
deliver_once d w receipt h =
    let refused =
      fail_if (not (is_prepared d.state) || is_blank receipt) invalid_knowledge_delivery in
    let recorded = record d { state = delivered; destination_receipt = some receipt } in
    let (free, result) = >>-eq-ok refused (ok recorded) h in
    let same : w ≡ recorded = ground arith in
    (
      ground arith,
      ground arith,
      same,
      λ other.
          subst
            (λ (z : KnowledgeDelivery). record_delivered z other ≡ err invalid_knowledge_delivery)
            (sym same) (ground arith),
    )
