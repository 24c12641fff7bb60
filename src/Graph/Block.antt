-- ===== src/Graph/Block.antt =====
-- `block_dependents` of crates/bastet-core/src/graph.rs: after a failure or a cancellation, the
-- pending nodes that need it, directly or not, are blocked.
pub mod Fixpoint
pub mod Closure
use bastet_workstation.Common.{
  ℕ, zero, suc, Bool, true, false, not, ◌&&◌, List, [], ◌∷◌, length, any, contains, insert,
  modify_by, u64_next, if◌then◌else◌,
}
use bastet_workstation.Graph.{
  GraphNode, GraphNodeExecution, GraphExecution, blocked, execution_key, is_pending,
}

-- The set `blocked`, the node records, and whether the round changed anything.
pub record Sweep : Type 0 where
  pub reached : List ℕ
  pub executions : List GraphNodeExecution
  pub changed : Bool

abbrev pub block_pending : GraphNodeExecution → GraphNodeExecution
block_pending x =
    if is_pending x.state then record x { state = blocked; revision = u64_next x.revision } else x

-- The body of the inner loop.
unfoldable pub reach_node : GraphNode → Sweep → Sweep
reach_node node w =
    if any (contains w.reached) node.needs && not (contains w.reached node.id)
    then record {
      reached = insert node.id w.reached;
      executions = modify_by execution_key node.id block_pending w.executions;
      changed = true;
    }
    else w

unfoldable pub sweep : List GraphNode → Sweep → Sweep
sweep [] w = w
sweep (node ∷ nodes) w = sweep nodes (reach_node node w)

abbrev pub fresh_round : Sweep → Sweep
fresh_round w = record w { changed = false }

-- The outer loop. Every round but the last reaches a new node, so one more than there are nodes is
-- enough fuel.
unfoldable pub sweep_loop : ℕ → List GraphNode → Sweep → Sweep
sweep_loop zero nodes w = w
sweep_loop (suc fuel) nodes w =
    let w' = sweep nodes (fresh_round w) in
    elim w'.changed [ true ↦ sweep_loop fuel nodes w' | false ↦ w' ]

abbrev pub first_sweep : ℕ → List GraphNodeExecution → Sweep
first_sweep from executions = record {
  reached = from ∷ [];
  executions = executions;
  changed = true;
}

unfoldable pub block_nodes : List GraphNode → ℕ → List GraphNodeExecution → List GraphNodeExecution
block_nodes nodes from executions =
    (sweep_loop (suc (length nodes)) nodes (first_sweep from executions)).executions

abbrev pub block_dependents : ℕ → GraphExecution → GraphExecution
block_dependents from e = record e { nodes = block_nodes e.graph.nodes from e.nodes }
