-- ===== src/Graph/Execution.antt =====
-- `GraphExecution` of crates/bastet-core/src/graph.rs: starting, validating and restarting a run of
-- a graph, its recorded outputs, and the reconciliation after a restart of the daemon.
use bastet_workstation.Common.{
  ℕ, ◌+◌, String, Bool, true, false, not, ◌&&◌, ◌||◌, Option, some, none, List, [], ◌∷◌, ◌++◌, map,
  length, any, all, find, collect, ◌==◌, Result, ok, ◌>>=◌, ◌>>◌, fail_if, is_ok, is_some, is_none,
  is_blank, u64_next, if◌then◌else◌,
}
use mathlib.Core.List.{reverse}
use bastet_workstation.Identity.{RunId, GraphNodeId, GraphRunId}
use bastet_workstation.Graph.{
  GraphNode, WorkflowGraph, GraphNodeState, pending, awaiting_approval, running, succeeded, failed,
  cancelled, blocked, uncertain, GraphNodeExecution, GraphNodeOutput, GraphExecution, GraphError,
  invalid_execution, invalid_output, find_execution, execution_key, is_running, is_succeeded,
  is_failed, node_key,
}
use bastet_workstation.Graph.Validate.{validate as validate_graph}
use bastet_workstation.Graph.Output.{validate_output}

-- `owner.as_deref().is_some_and(|owner| !owner.trim().is_empty())`
abbrev pub has_owner : Option String → Bool
has_owner none = false
has_owner (some owner) = not (is_blank owner)

abbrev pub state_is_valid : GraphNodeState → GraphNodeExecution → Bool
state_is_valid pending x = is_none x.owner
state_is_valid blocked x = is_none x.owner
state_is_valid awaiting_approval x = has_owner x.owner && is_some x.run_id && is_none x.failure
state_is_valid running x = is_some x.owner
state_is_valid succeeded x = is_some x.owner
state_is_valid failed x = is_some x.owner
state_is_valid cancelled x = is_some x.owner
state_is_valid uncertain x = is_none x.owner

abbrev pub execution_state_is_valid : GraphNodeExecution → Bool
execution_state_is_valid x = state_is_valid x.state x

abbrev pub fresh_execution : GraphNode → GraphNodeExecution
fresh_execution node = record {
  node_id = node.id;
  state = pending;
  owner = none;
  revision = 0;
  run_id = none;
  failure = none;
}

abbrev pub begin_execution : GraphRunId → WorkflowGraph → GraphExecution
begin_execution id graph = record {
  id = id;
  graph = graph;
  nodes = map fresh_execution graph.nodes;
  outputs = [];
  restarted_from_execution_id = none;
  revision = 0;
}

unfoldable pub start : GraphRunId → WorkflowGraph → Result GraphExecution GraphError
start id graph = do validate_graph graph; ok (begin_execution id graph)

abbrev pub has_node : List GraphNode → ℕ → Bool
has_node nodes id = any (λ node. node_key node == id) nodes

abbrev pub execution_ids : List GraphNodeExecution → List ℕ
execution_ids = map execution_key

abbrev pub output_run : GraphNodeOutput → ℕ
output_run o = o.run_id

unfoldable pub check_nodes : GraphExecution → Result (Unit {0}) GraphError
check_nodes e =
    fail_if
      (not (length e.nodes == length e.graph.nodes)
        || not (length (collect (execution_ids e.nodes)) == length e.nodes)
        || any (λ x. not (has_node e.graph.nodes x.node_id) || not (execution_state_is_valid x))
            e.nodes)
      invalid_execution

module _ (digest : String → String) where
  unfoldable pub check_outputs : GraphExecution → Result (Unit {0}) GraphError
  check_outputs e =
      fail_if
        (not (length (collect (map output_run e.outputs)) == length e.outputs)
          || any
              (λ o.
                not (is_ok (validate_output digest o)) || not (has_node e.graph.nodes o.node_id))
              e.outputs)
        invalid_output

  -- `GraphExecution::validate`
  unfoldable pub validate : GraphExecution → Result (Unit {0}) GraphError
  validate e = do validate_graph e.graph; check_nodes e; check_outputs e

abbrev pub run_of : Option GraphNodeExecution → Option RunId
run_of none = none
run_of (some x) = x.run_id

abbrev output_for : Option RunId → ℕ → List GraphNodeOutput → Option GraphNodeOutput
output_for (some run) id outputs = find (λ o. o.node_id == id && o.run_id == run) outputs
output_for none id outputs = find (λ o. o.node_id == id) (reverse outputs)

-- `GraphExecution::output`
unfoldable pub output : GraphExecution → GraphNodeId → Option GraphNodeOutput
output e id = output_for (run_of (find_execution id e.nodes)) id e.outputs

-- The node is unknown, has not finished, or has finished under another run.
abbrev pub refuses_output : Option GraphNodeExecution → RunId → Bool
refuses_output none run = true
refuses_output (some x) run =
    not (is_succeeded x.state || is_failed x.state)
    || elim x.run_id [ none ↦ false | some r ↦ not (r == run) ]

module _ (digest : String → String) where
  unfoldable pub record_output : GraphExecution → GraphNodeOutput → Result GraphExecution GraphError
  record_output e o = do
    validate_output digest o
    fail_if
        (any (λ existing. existing.run_id == o.run_id) e.outputs
          || refuses_output (find_execution o.node_id e.nodes) o.run_id)
        invalid_output
    ok (record e { outputs = e.outputs ++ o ∷ [] })

  unfoldable pub restart_as : GraphExecution → GraphRunId → Result GraphExecution GraphError
  restart_as e id = do
    validate digest e
    fail_if
        (any (λ x. not (is_succeeded x.state)) e.nodes
          || all (λ x. is_some (output e x.node_id)) e.nodes)
        invalid_output
    restarted ← start id e.graph
    ok (record restarted { restarted_from_execution_id = some e.id })

abbrev pub lose_run : GraphNodeExecution → GraphNodeExecution
lose_run x = record x {
  state = uncertain;
  owner = none;
  revision = u64_next x.revision;
  run_id = none;
  failure = none;
}

-- The loop of `reconcile_after_restart`, with the number of nodes that it changed.
unfoldable pub reconcile_nodes : List GraphNodeExecution → List GraphNodeExecution × ℕ
reconcile_nodes [] = ([], 0)
reconcile_nodes (x ∷ xs) =
    let (rest, changed) = reconcile_nodes xs in
    if is_running x.state then (lose_run x ∷ rest, changed + 1) else (x ∷ rest, changed)

unfoldable pub reconcile_after_restart : GraphExecution → GraphExecution × ℕ
reconcile_after_restart e =
    let (nodes, changed) = reconcile_nodes e.nodes in
    (
      record e {
        nodes = nodes;
        revision = if changed == 0 then e.revision else u64_next e.revision;
      },
      changed,
    )
