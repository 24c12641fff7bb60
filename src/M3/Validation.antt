-- ===== src/M3/Validation.antt =====
-- `M3State::validate` of crates/bastet-core/src/m3.rs. `digest` stands for the hexadecimal SHA-256 of
-- the sha2 crate.
use bastet_workstation.Common.{
  ℕ, String, Bool, true, not, ◌&&◌, ◌||◌, Option, some, none, is_some, is_none, List, [], ◌∷◌, ◌++◌,
  map, any, find, find_by, length, Result, ◌>>◌, fail_if, map_err, for_each, contains, collect,
  same_set, str_eq, ◌==◌,
}
use bastet_workstation.Identity.{GraphRunId, GraphNodeId}
use bastet_workstation.Catalog.{IdentityCatalog, role_key, project_key, run_key}
use bastet_workstation.Catalog.Validation.{has_key}
use bastet_workstation.Catalog.References.{validate_catalog}
use bastet_workstation.Office.Validation.{validate_office}
use bastet_workstation.Meeting.{DecisionBaseline, validate_meetings}
use bastet_workstation.Deliverable.{
  DocumentVersion, DocumentArtifact, CostLedgerRecord, KnowledgeDelivery, DeliverableCatalog,
}
use bastet_workstation.Deliverable.Validation.{validate_deliverables}
use bastet_workstation.Graph.{
  GraphNode, GraphNodeOutput, GraphExecution, find_node, node_key, is_join, is_research,
}
use bastet_workstation.Graph.Execution.{validate, output}
use bastet_workstation.M3.{
  M3State, M3Error, office_error, meeting_error, graph_error, deliverable_error,
  missing_decision_baseline, missing_role, missing_deliverable_reference, duplicate_graph_execution,
}

abbrev pub graph_key : GraphExecution → ℕ
graph_key e = e.id

abbrev pub baseline_key : DecisionBaseline → ℕ
baseline_key b = b.metadata.id

-- `graph_nodes`: the ids of the nodes of all graphs.
abbrev pub graph_nodes : List GraphExecution → List ℕ
graph_nodes [] = []
graph_nodes (e ∷ es) = map node_key e.graph.nodes ++ graph_nodes es

abbrev pub check_node_role : IdentityCatalog → GraphNode → Result (Unit {0}) M3Error
check_node_role identity node =
    fail_if (not (has_key role_key identity.roles node.role_id)) missing_role

unfoldable pub check_graph :
    (String → String)
    → IdentityCatalog
    → List DecisionBaseline
    → GraphExecution
    → Result (Unit {0}) M3Error
check_graph digest identity baselines e = do
  map_err graph_error (validate digest e)
  fail_if (not (has_key baseline_key baselines e.graph.decision_baseline_id))
      missing_decision_baseline
  for_each (check_node_role identity) e.graph.nodes

-- `execution.output(..).is_none_or(|output| output.content_hash != join_hash)`
abbrev pub hash_differs : String → Option GraphNodeOutput → Bool
hash_differs hash none = true
hash_differs hash (some o) = not (str_eq o.content_hash hash)

-- `.is_none_or(|node| node.kind != Research)`
abbrev pub is_not_research : Option GraphNode → Bool
is_not_research none = true
is_not_research (some node) = not (is_research node.kind)

abbrev pub find_join : GraphNodeId → List GraphNode → Option GraphNode
find_join id = find (λ node. node.id == id && is_join node.kind)

-- The rest of the closure once the join node was looked up.
unfoldable pub join_differs :
    DocumentVersion → GraphExecution → GraphNodeId → String → Option GraphNode → Bool
join_differs v e id hash none = true
join_differs v e id hash (some join) =
    not (same_set (collect v.source_node_ids) (collect join.needs))
    || any (λ need. is_none (output e need) || is_not_research (find_node need e.graph.nodes))
        join.needs
    || hash_differs hash (output e id)

abbrev pub source_differs : DocumentVersion → GraphNodeId → String → Option GraphExecution → Bool
source_differs v id hash none = true
source_differs v id hash (some e) = join_differs v e id hash (find_join id e.graph.nodes)

-- The closure of `has_invalid_source_receipt` on the three optional fields of a version.
unfoldable pub has_invalid_receipt :
    List GraphExecution
    → DocumentVersion
    → Option GraphRunId
    → Option GraphNodeId
    → Option String
    → Bool
has_invalid_receipt graphs v (some e) (some n) (some h) =
    source_differs v n h (find_by graph_key e graphs)
has_invalid_receipt graphs v e n h = is_some e || is_some n || is_some h

abbrev pub has_invalid_source : List GraphExecution → DocumentVersion → Bool
has_invalid_source graphs v =
    has_invalid_receipt graphs v v.source_execution_id v.source_join_node_id
      v.source_join_output_hash

abbrev pub has_unknown_node : List GraphExecution → DocumentVersion → Bool
has_unknown_node graphs v = any (λ node. not (contains (graph_nodes graphs) node)) v.source_node_ids

abbrev pub has_unknown_source : IdentityCatalog → List GraphExecution → DocumentArtifact → Bool
has_unknown_source identity graphs d =
    not (has_key project_key identity.projects d.project_id)
    || any (has_unknown_node graphs) d.versions

abbrev pub has_bad_cost : IdentityCatalog → List GraphExecution → CostLedgerRecord → Bool
has_bad_cost identity graphs cost =
    not (has_key project_key identity.projects cost.project_id)
    || not (has_key run_key identity.runs cost.run_id)
    || not (contains (graph_nodes graphs) cost.node_id)

-- `artifact_versions.contains(&id)`
abbrev pub has_version : List DocumentArtifact → ℕ → Bool
has_version documents id =
    any (λ (d : DocumentArtifact). any (λ (v : DocumentVersion). v.id == id) d.versions) documents

abbrev pub has_bad_delivery : IdentityCatalog → List DocumentArtifact → KnowledgeDelivery → Bool
has_bad_delivery identity documents delivery =
    not (has_key project_key identity.projects delivery.project_id)
    || not (has_version documents delivery.artifact_version_id)

-- The last test of `validate`.
unfoldable pub has_dangling : IdentityCatalog → List GraphExecution → DeliverableCatalog → Bool
has_dangling identity graphs c =
    any (has_unknown_source identity graphs) c.documents
    || any (λ (d : DocumentArtifact). any (has_invalid_source graphs) d.versions) c.documents
    || any (has_bad_cost identity graphs) c.costs
    || any (has_bad_delivery identity c.documents) c.knowledge_deliveries

abbrev pub has_unknown_run : IdentityCatalog → GraphExecution → Bool
has_unknown_run identity e =
    any (λ (o : GraphNodeOutput). not (has_key run_key identity.runs o.run_id)) e.outputs

-- `M3State::validate`
unfoldable pub validate_m3 :
    (String → String) → M3State → IdentityCatalog → Result (Unit {0}) M3Error
validate_m3 digest s identity = do
  map_err (λ e. missing_deliverable_reference) (validate_catalog identity)
  map_err office_error (validate_office s.catalog.office identity)
  map_err meeting_error (validate_meetings digest s.catalog.meetings identity s.catalog.office)
  map_err deliverable_error (validate_deliverables digest s.catalog.deliverables)
  fail_if (not (length (collect (map graph_key s.graph_executions)) == length s.graph_executions))
      duplicate_graph_execution
  for_each (check_graph digest identity s.catalog.meetings.decision_baselines) s.graph_executions
  fail_if (any (has_unknown_run identity) s.graph_executions) missing_deliverable_reference
  fail_if (has_dangling identity s.graph_executions s.catalog.deliverables)
      missing_deliverable_reference
