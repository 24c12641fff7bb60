-- ===== src/Deliverable/Proper.antt =====
-- What accepted deliverables are, and how a document version lives.
use bastet_workstation.Common.{
  ℕ, suc, ◌≡◌, refl, String, Bool, true, false, not, ◌||◌, Option, some, none, is_some,
  if◌then◌else◌, List, [], ◌∷◌, any, is_empty, length, All, All-map, arith, ok, ◌>>◌, ◌>>=◌,
  >>-eq-ok, >>=-inv, fail_if, for_each, for_each-All, is_blank, contains, contains-insert, collect,
  eq_iff, ◌==◌,
}
use bastet_workstation.Deliverable.{
  DocumentVersion, DocumentArtifact, KnowledgeDelivery, DeliverableCatalog,
  invalid_document_version, invalid_version_chain, invalid_join_receipt,
}
use bastet_workstation.Deliverable.Document.{check_version, hash_markdown}
use bastet_workstation.Deliverable.Validation.{
  to_u32, same_id, note_accepted, check_cost, has_bad_receipt, check_delivery, check_versions,
  check_documents, validate_deliverables,
}

same_id-eq : (a b : Option ℕ) → same_id a b ≡ true → a ≡ b
same_id-eq none none h = refl
same_id-eq none (some b) h = cc h
same_id-eq (some a) none h = cc h
same_id-eq (some a) (some b) h = ground arith

-- Versions numbered from `suc index`, each the child of the one before it.
abbrev pub IsChain : ℕ → Option ℕ → List DocumentVersion → Type 0
IsChain index previous [] = Unit {0}
IsChain index previous (v ∷ rest) =
    (v.version ≡ to_u32 (suc index))
    × (v.parent_id ≡ previous)
    × IsChain (suc index) (some v.id) rest

abbrev pub accepts : ℕ → DocumentVersion → Bool
accepts id v = if is_some v.accepted_by then v.id == id else false

-- Some version of the document with this id was accepted.
abbrev pub accepted_in : ℕ → DocumentArtifact → Bool
accepted_in id d = any (accepts id) d.versions

module _ (digest : String → String) where
  pub record IsProperVersion (v : DocumentVersion) : Type 0 where
    pub some_content : is_blank v.markdown ≡ false
    pub hashed : v.content_hash ≡ hash_markdown digest v.markdown
    pub acceptance : is_some v.accepted_by ≡ is_some v.accepted_at
    pub two_sources : length (collect v.source_node_ids) ≡ 2

  pub record IsProperDocument (d : DocumentArtifact) : Type 0 where
    pub titled : is_blank d.title ≡ false
    pub versioned : is_empty d.versions ≡ false
    pub versions : All IsProperVersion d.versions
    pub chain : IsChain 0 none d.versions

  pub record IsProperDelivery (documents : List DocumentArtifact) (d : KnowledgeDelivery)
      : Type 0 where
    pub previewed : is_blank d.preview ≡ false
    pub is_redacted : d.redacted ≡ true
    pub fits : has_bad_receipt d.state d.destination_receipt ≡ false
    pub of_accepted : any (accepted_in d.artifact_version_id) documents ≡ true

  record Walked (index : ℕ) (previous : Option ℕ) (accepted out : List ℕ)
      (vs : List DocumentVersion) : Type 0 where
    all_proper : All IsProperVersion vs
    chained : IsChain index previous vs
    union : (id : ℕ) → contains out id ≡ (contains accepted id || any (accepts id) vs)

  contains-note :
      (id : ℕ) (v : DocumentVersion) (accepted : List ℕ)
      → contains (note_accepted v accepted) id ≡ (contains accepted id || accepts id v)
  contains-note id v accepted = ground (arith, contains-insert v.id id accepted)

  IsProperVersion-of :
      (v : DocumentVersion)
      → check_version digest v ≡ ok tt
      → (length (collect v.source_node_ids) == 2) ≡ true
      → IsProperVersion v
  unfolding check_version
  IsProperVersion-of v h two =
      let read = (eq_iff v.content_hash (hash_markdown digest v.markdown)).0 in
      record {
        some_content = ground arith;
        hashed = ground (arith, read);
        acceptance = ground arith;
        two_sources = ground arith;
      }

  check_versions-Walked :
      (index : ℕ) (previous : Option ℕ) (accepted : List ℕ) (vs : List DocumentVersion)
      (out : List ℕ)
      → check_versions digest index previous accepted vs ≡ ok out
      → Walked index previous accepted out vs
  unfolding check_versions
  check_versions-Walked index previous accepted [] out h = record {
    all_proper = tt;
    chained = tt;
    union = λ id. ground arith;
  }
  check_versions-Walked index previous accepted (v ∷ rest) out h =
      let others = check_versions digest (suc index) (some v.id) (note_accepted v accepted) rest in
      let chain =
        fail_if (not (v.version == to_u32 (suc index)) || not (same_id v.parent_id previous))
          invalid_version_chain in
      let join = fail_if (not (length (collect v.source_node_ids) == 2)) invalid_join_receipt in
      let (valid, h1) = >>-eq-ok (check_version digest v) (chain >> (join >> others)) h in
      let (linked, h2) = >>-eq-ok chain (join >> others) h1 in
      let (two, last) = >>-eq-ok join others h2 in
      let w =
        check_versions-Walked (suc index) (some v.id) (note_accepted v accepted) rest out last in
      record {
        all_proper = (IsProperVersion-of v valid (ground arith), w.all_proper);
        chained = (ground arith, same_id-eq v.parent_id previous (ground arith), w.chained);
        union = λ id. ground (arith, w.union id, contains-note id v accepted);
      }

  record Gathered (accepted out : List ℕ) (ds : List DocumentArtifact) : Type 0 where
    all_documents : All IsProperDocument ds
    together : (id : ℕ) → contains out id ≡ (contains accepted id || any (accepted_in id) ds)

  check_documents-Gathered :
      (accepted : List ℕ) (ds : List DocumentArtifact) (out : List ℕ)
      → check_documents digest accepted ds ≡ ok out
      → Gathered accepted out ds
  unfolding check_documents
  check_documents-Gathered accepted [] out h = record {
    all_documents = tt;
    together = λ id. ground arith;
  }
  check_documents-Gathered accepted (d ∷ rest) out h =
      let title = fail_if (is_blank d.title || is_empty d.versions) invalid_document_version in
      let walk = check_versions digest 0 none accepted d.versions in
      let next = λ (more : List ℕ). check_documents digest more rest in
      let (titled, h1) = >>-eq-ok title (walk >>= next) h in
      let (more, (last, walked)) = >>=-inv walk next out h1 in
      let w = check_versions-Walked 0 none accepted d.versions more walked in
      let g = check_documents-Gathered more rest out last in
      record {
        all_documents = (
          record {
            titled = ground arith;
            versioned = ground arith;
            versions = w.all_proper;
            chain = w.chained;
          },
          g.all_documents,
        );
        together = λ id. ground (arith, g.together id, w.union id);
      }

  check_delivery-IsProperDelivery :
      (accepted : List ℕ) (documents : List DocumentArtifact) (d : KnowledgeDelivery)
      → ((id : ℕ) → contains accepted id ≡ any (accepted_in id) documents)
      → check_delivery accepted d ≡ ok tt
      → IsProperDelivery documents d
  unfolding check_delivery
  check_delivery-IsProperDelivery accepted documents d same h = record {
    previewed = ground arith;
    is_redacted = ground arith;
    fits = ground arith;
    of_accepted = ground (arith, same d.artifact_version_id);
  }

  -- In a catalog of deliverables that is accepted, every document has a title and at least one
  -- version; its versions are numbered from one, each the child of the one before it, and each has
  -- content, the hash of its content, an acceptance that is complete or missing, and two distinct
  -- source nodes; and every knowledge delivery has a preview, is redacted, has a receipt exactly when
  -- it was delivered, and is of a version of the catalog that was accepted.
  pub validate_deliverables-IsProperDocument :
      (c : DeliverableCatalog)
      → validate_deliverables digest c ≡ ok tt
      → All IsProperDocument c.documents × All (IsProperDelivery c.documents) c.knowledge_deliveries
  unfolding validate_deliverables
  validate_deliverables-IsProperDocument c h =
      let documents = check_documents digest [] c.documents in
      let costs = for_each check_cost c.costs in
      let deliveries =
        λ (accepted : List ℕ). for_each (check_delivery accepted) c.knowledge_deliveries in
      let (accepted, (h1, gathered)) =
        >>=-inv documents (λ (accepted : List ℕ). costs >> deliveries accepted) tt h in
      let (paid, delivered) = >>-eq-ok costs (deliveries accepted) h1 in
      let g = check_documents-Gathered [] c.documents accepted gathered in
      (
        g.all_documents,
        All-map (λ d. check_delivery accepted d ≡ ok tt) (IsProperDelivery c.documents)
            (λ d passed. check_delivery-IsProperDelivery accepted c.documents d g.together passed)
            c.knowledge_deliveries
            (for_each-All (check_delivery accepted) c.knowledge_deliveries delivered),
      )
