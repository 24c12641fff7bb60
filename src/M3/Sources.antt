-- ===== src/M3/Sources.antt =====
-- What the references of an accepted state lead to.
use bastet_workstation.Common.{
  ◌≡◌, String, true, false, not, List, [], ◌∷◌, map, any, contains, collect, All, All-map, length,
  ok, ◌>>◌, >>-eq-ok, fail_if, map_err, for_each, for_each-All, ◌==◌, length-map, arith, Distinct,
  length-collect-Distinct,
}
use bastet_workstation.Catalog.{IdentityCatalog, role_key, project_key, run_key}
use bastet_workstation.Catalog.Validation.{has_key}
use bastet_workstation.Catalog.References.{validate_catalog}
use bastet_workstation.Office.Validation.{validate_office}
use bastet_workstation.Meeting.{DecisionBaseline, validate_meetings}
use bastet_workstation.Deliverable.{
  DocumentVersion, DocumentArtifact, CostLedgerRecord, DeliverableCatalog,
}
use bastet_workstation.Deliverable.Validation.{validate_deliverables}
use bastet_workstation.Graph.{GraphNode, GraphNodeOutput, GraphExecution}
use bastet_workstation.Graph.Execution.{validate}
use bastet_workstation.M3.{
  M3State, office_error, meeting_error, graph_error, deliverable_error, missing_decision_baseline,
  missing_deliverable_reference, duplicate_graph_execution,
}
use bastet_workstation.M3.Validation.{
  graph_key, baseline_key, graph_nodes, check_node_role, check_graph, has_invalid_source,
  has_unknown_node, has_unknown_source, has_bad_cost, has_dangling, has_unknown_run, validate_m3,
}
use bastet_workstation.M3.Joins.{IsSourced, any-All, IsSourced-of}

-- The project and the sources of a document are in the state, and its versions are sourced.
pub record IsLinkedDocument (identity : IdentityCatalog) (graphs : List GraphExecution)
    (d : DocumentArtifact) : Type 0 where
  pub in_project : has_key project_key identity.projects d.project_id ≡ true
  pub known_nodes :
      All
        (λ (v : DocumentVersion).
          All (λ node. contains (graph_nodes graphs) node ≡ true) v.source_node_ids)
        d.versions
  pub sourced :
      All
        (λ (v : DocumentVersion).
          IsSourced graphs v v.source_execution_id v.source_join_node_id v.source_join_output_hash)
        d.versions

pub record IsLinkedCost (identity : IdentityCatalog) (graphs : List GraphExecution)
    (c : CostLedgerRecord) : Type 0 where
  pub cost_project : has_key project_key identity.projects c.project_id ≡ true
  pub cost_run : has_key run_key identity.runs c.run_id ≡ true
  pub cost_node : contains (graph_nodes graphs) c.node_id ≡ true

pub record IsLinkedGraph (digest : String → String) (identity : IdentityCatalog)
    (baselines : List DecisionBaseline) (e : GraphExecution) : Type 0 where
  pub is_valid : validate digest e ≡ ok tt
  pub decided : has_key baseline_key baselines e.graph.decision_baseline_id ≡ true
  pub known_roles :
      All (λ (n : GraphNode). has_key role_key identity.roles n.role_id ≡ true) e.graph.nodes
  pub known_runs :
      All (λ (o : GraphNodeOutput). has_key run_key identity.runs o.run_id ≡ true) e.outputs

pub record IsLinked (digest : String → String) (s : M3State) (identity : IdentityCatalog)
    : Type 0 where
  pub graph_ids : Distinct (map graph_key s.graph_executions)
  pub graphs :
      All (IsLinkedGraph digest identity s.catalog.meetings.decision_baselines) s.graph_executions
  pub documents :
      All (IsLinkedDocument identity s.graph_executions) s.catalog.deliverables.documents
  pub costs : All (IsLinkedCost identity s.graph_executions) s.catalog.deliverables.costs

module _ (identity : IdentityCatalog) (graphs : List GraphExecution) where
  document_of :
      (d : DocumentArtifact)
      → has_unknown_source identity graphs d ≡ false
      → any (has_invalid_source graphs) d.versions ≡ false
      → IsLinkedDocument identity graphs d
  document_of d known valid = record {
    in_project = ground arith;
    known_nodes =
        All-map (λ v. has_unknown_node graphs v ≡ false) _
          (λ v none_bad.
            All-map (λ node. not (contains (graph_nodes graphs) node) ≡ false) _
              (λ node inside. ground arith) v.source_node_ids
              (any-All (λ node. not (contains (graph_nodes graphs) node)) v.source_node_ids
                none_bad))
          d.versions (any-All (has_unknown_node graphs) d.versions (ground arith));
    sourced =
        All-map (λ v. has_invalid_source graphs v ≡ false) _
          (λ v good. IsSourced-of graphs v _ _ _ good) d.versions
          (any-All (has_invalid_source graphs) d.versions valid);
  }

  documents_of :
      (ds : List DocumentArtifact)
      → any (has_unknown_source identity graphs) ds ≡ false
      → any (λ (d : DocumentArtifact). any (has_invalid_source graphs) d.versions) ds ≡ false
      → All (IsLinkedDocument identity graphs) ds
  documents_of [] known valid = tt
  documents_of (d ∷ ds) known valid =
      (document_of d (ground arith) (ground arith), documents_of ds (ground arith) (ground arith))

  cost_of :
      (c : CostLedgerRecord)
      → has_bad_cost identity graphs c ≡ false
      → IsLinkedCost identity graphs c
  cost_of c h = record {
    cost_project = ground arith;
    cost_run = ground arith;
    cost_node = ground arith;
  }

module _ (digest : String → String) (identity : IdentityCatalog)
    (baselines : List DecisionBaseline) where
  graph_of :
      (e : GraphExecution)
      → check_graph digest identity baselines e ≡ ok tt
      → has_unknown_run identity e ≡ false
      → IsLinkedGraph digest identity baselines e
  unfolding check_graph
  graph_of e h runs =
      let valid = map_err graph_error (validate digest e) in
      let decided =
        fail_if (not (has_key baseline_key baselines e.graph.decision_baseline_id))
          missing_decision_baseline in
      let roles = for_each (check_node_role identity) e.graph.nodes in
      let (v, h1) = >>-eq-ok valid (decided >> roles) h in
      let (d, r) = >>-eq-ok decided roles h1 in
      record {
        is_valid = ground arith;
        decided = ground arith;
        known_roles =
            All-map (λ n. check_node_role identity n ≡ ok tt) _ (λ n passed. ground arith)
              e.graph.nodes (for_each-All (check_node_role identity) e.graph.nodes r);
        known_runs =
            All-map (λ (o : GraphNodeOutput). not (has_key run_key identity.runs o.run_id) ≡ false)
              _ (λ o known. ground arith) e.outputs
              (any-All (λ (o : GraphNodeOutput). not (has_key run_key identity.runs o.run_id))
                e.outputs runs);
      }

  graphs_of :
      (es : List GraphExecution)
      → All (λ e. check_graph digest identity baselines e ≡ ok tt) es
      → any (has_unknown_run identity) es ≡ false
      → All (IsLinkedGraph digest identity baselines) es
  graphs_of [] h runs = tt
  graphs_of (e ∷ es) h runs = (graph_of e h.0 (ground arith), graphs_of es h.1 (ground arith))

-- In a state that is accepted, the executions have distinct ids; each is valid, of a decision
-- baseline of the state, with known roles, and with outputs of known runs; every document is of a
-- known project, with sources among the nodes of the graphs; every version that names a join node is
-- of an execution of the state, has the hash of that node's output, and its sources are the node's
-- needs, research nodes that have outputs; and every cost is of a known project, run and node.
pub validate_m3-IsLinked :
    (digest : String → String) (s : M3State) (identity : IdentityCatalog)
    → validate_m3 digest s identity ≡ ok tt
    → IsLinked digest s identity
unfolding validate_m3 has_dangling
validate_m3-IsLinked digest s identity h =
    let c = s.catalog in
    let es = s.graph_executions in
    let m1 = map_err (λ e. missing_deliverable_reference) (validate_catalog identity) in
    let m2 = map_err office_error (validate_office c.office identity) in
    let m3 = map_err meeting_error (validate_meetings digest c.meetings identity c.office) in
    let m4 = map_err deliverable_error (validate_deliverables digest c.deliverables) in
    let m5 =
      fail_if (not (length (collect (map graph_key es)) == length es)) duplicate_graph_execution in
    let m6 = for_each (check_graph digest identity c.meetings.decision_baselines) es in
    let m7 = fail_if (any (has_unknown_run identity) es) missing_deliverable_reference in
    let m8 = fail_if (has_dangling identity es c.deliverables) missing_deliverable_reference in
    let (r1, h1) = >>-eq-ok m1 (m2 >> (m3 >> (m4 >> (m5 >> (m6 >> (m7 >> m8)))))) h in
    let (r2, h2) = >>-eq-ok m2 (m3 >> (m4 >> (m5 >> (m6 >> (m7 >> m8))))) h1 in
    let (r3, h3) = >>-eq-ok m3 (m4 >> (m5 >> (m6 >> (m7 >> m8)))) h2 in
    let (r4, h4) = >>-eq-ok m4 (m5 >> (m6 >> (m7 >> m8))) h3 in
    let (r5, h5) = >>-eq-ok m5 (m6 >> (m7 >> m8)) h4 in
    let (r6, h6) = >>-eq-ok m6 (m7 >> m8) h5 in
    let (r7, r8) = >>-eq-ok m7 m8 h6 in
    let rest = rest_of identity es c.deliverables r8 in
    record {
      graph_ids =
          (length-collect-Distinct (map graph_key es)).0 (ground (arith, length-map graph_key es));
      graphs =
          graphs_of digest identity c.meetings.decision_baselines es
            (for_each-All (check_graph digest identity c.meetings.decision_baselines) es r6)
            (ground arith);
      documents = rest.0;
      costs = rest.1;
    }
  where
    rest_of :
        (identity : IdentityCatalog) (graphs : List GraphExecution) (c : DeliverableCatalog)
        → fail_if (has_dangling identity graphs c) missing_deliverable_reference ≡ ok tt
        → All (IsLinkedDocument identity graphs) c.documents
          × All (IsLinkedCost identity graphs) c.costs
    rest_of identity graphs c h = (
      documents_of identity graphs c.documents (ground arith) (ground arith),
      All-map (λ cost. has_bad_cost identity graphs cost ≡ false) (IsLinkedCost identity graphs)
          (cost_of identity graphs) c.costs
          (any-All (has_bad_cost identity graphs) c.costs (ground arith)),
    )
