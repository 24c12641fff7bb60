-- ===== src/Graph/Retry.antt =====
-- `retry_failed` of crates/bastet-core/src/graph.rs.
use bastet_workstation.Common.{
  ℕ, zero, suc, Bool, true, false, not, ◌&&◌, Option, some, none, List, [], ◌∷◌, length, any,
  modify_by, Result, ok, err, u64_next, if◌then◌else◌,
}
use bastet_workstation.Identity.{GraphNodeId}
use bastet_workstation.Graph.{
  GraphNode, GraphNodeState, pending, failed, cancelled, blocked, GraphNodeExecution,
  GraphExecution, GraphError, invalid_execution, find_execution, execution_key, is_failed,
  is_blocked,
}
use bastet_workstation.Graph.Transitions.{state_of}

abbrev pub reopen : GraphNodeExecution → GraphNodeExecution
reopen x = record x {
  state = pending;
  owner = none;
  revision = u64_next x.revision;
  run_id = none;
  failure = none;
}

abbrev pub found_blocked : Option GraphNodeState → Bool
found_blocked none = false
found_blocked (some s) = is_blocked s

-- A dependency in one of these states keeps its dependents blocked.
abbrev pub blocks : GraphNodeState → Bool
blocks failed = true
blocks cancelled = true
blocks blocked = true
blocks _ = false

abbrev pub found_blocking : Option GraphNodeState → Bool
found_blocking none = false
found_blocking (some s) = blocks s

-- The definitions that one round of the loop collects in `reopened`.
unfoldable pub reopened_ids : List GraphNodeExecution → List GraphNode → List GraphNodeId
reopened_ids nodes [] = []
reopened_ids nodes (definition ∷ rest) =
    let others = reopened_ids nodes rest in
    if found_blocked (state_of definition.id nodes)
      && not (any (λ d. found_blocking (state_of d nodes)) definition.needs)
    then definition.id ∷ others
    else others

-- `for reopened_id in reopened`; `none` is the error of a node that is not found.
unfoldable pub reopen_each : List ℕ → List GraphNodeExecution → List GraphNodeExecution × Bool
reopen_each [] nodes = (nodes, true)
reopen_each (id ∷ ids) nodes = elim (find_execution id nodes) [
  | none ↦ (nodes, false)
  | some x ↦ reopen_each ids (modify_by execution_key id reopen nodes)
]

pub data Round : Type 0 where
  settled : List GraphNodeExecution → Round
  missing : List GraphNodeExecution → Round
  exhausted : List GraphNodeExecution → Round

-- The loop. Every round but the last reopens a blocked node, so one more than there are nodes is
-- enough fuel; `exhausted` is the model's own.
unfoldable pub reopen_loop : ℕ → List GraphNode → List GraphNodeExecution → Round
reopen_loop zero graph nodes = exhausted nodes
reopen_loop (suc fuel) graph nodes =
    let ids = reopened_ids nodes graph in
    elim ids [
      | [] ↦ settled nodes
      | id ∷ rest ↦
          (let (nodes', found) = reopen_each (id ∷ rest) nodes in
            elim found [ true ↦ reopen_loop fuel graph nodes' | false ↦ missing nodes' ])
    ]

abbrev pub retry_result : GraphExecution → Round → GraphExecution × Result (Unit {0}) GraphError
retry_result e (settled nodes) = (record e { nodes = nodes; revision = u64_next e.revision }, ok tt)
retry_result e (missing nodes) = (record e { nodes = nodes }, err invalid_execution)
retry_result e (exhausted nodes) = (record e { nodes = nodes }, err invalid_execution)

abbrev pub retry_found :
    GraphExecution → ℕ → Option GraphNodeExecution → GraphExecution × Result (Unit {0}) GraphError
retry_found e id none = (e, err invalid_execution)
retry_found e id (some x) =
    if is_failed x.state
    then retry_result e (
        reopen_loop (suc (length e.nodes)) e.graph.nodes
          (modify_by execution_key id reopen e.nodes))
    else (e, err invalid_execution)

unfoldable pub retry_failed :
    GraphExecution → GraphNodeId → GraphExecution × Result (Unit {0}) GraphError
retry_failed e id = retry_found e id (find_execution id e.nodes)
