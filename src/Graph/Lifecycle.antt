-- ===== src/Graph/Lifecycle.antt =====
-- The life of a node, as a diagram: what the operations of crates/bastet-core/src/graph.rs may do to
-- it, and on which condition.
pub mod Blocking
pub mod Reopening
pub mod Staying
pub mod Retrying
pub mod Writing
pub mod Transitions
pub mod Claims
pub mod Ready
use bastet_workstation.Common.{
  ℕ, ◌≡◌, refl, Bool, true, ◌&&◌, List, any, contains, ◌==◌, Pairs, Pairs-refl, some, map-Pairs,
}
use bastet_workstation.Graph.{
  GraphNode, GraphNodeState, pending, awaiting_approval, running, succeeded, failed, cancelled,
  blocked, uncertain, GraphNodeExecution, GraphExecution, execution_key, is_succeeded, find_node,
}
use bastet_workstation.Graph.Execution.{execution_state_is_valid, execution_ids}

-- Some record of the node `d` has succeeded.
abbrev pub HasSucceeded : List GraphNodeExecution → ℕ → Type 0
HasSucceeded nodes d = any (λ x. x.node_id == d && is_succeeded x.state) nodes ≡ true

-- All that the node `id` needs has succeeded.
abbrev pub IsReady : GraphExecution → ℕ → Type 0
IsReady e id =
    (n : GraphNode) × (find_node id e.graph.nodes ≡ some n)
    × ((d : ℕ) → contains n.needs d ≡ true → HasSucceeded e.nodes d)

pub data Step (ready : Type 0) : GraphNodeState → GraphNodeState → Type 0 where
  stay : {s : GraphNodeState} → Step ready s s
  claim : ready → Step ready pending running
  stage : ready → Step ready pending awaiting_approval
  activate : Step ready awaiting_approval running
  withdraw : Step ready awaiting_approval cancelled
  succeed : Step ready running succeeded
  fail : Step ready running failed
  cancel : Step ready running cancelled
  stop : Step ready running blocked
  lose : Step ready running uncertain
  block : Step ready pending blocked
  retry : Step ready failed pending
  reopen : Step ready blocked pending

-- `y` is the record of the node that `x` was, one step further or not, and still consistent.
pub record Moves (e : GraphExecution) (x y : GraphNodeExecution) : Type 0 where
  pub same_id : y.node_id ≡ x.node_id
  pub step : Step (IsReady e x.node_id) x.state y.state
  pub valid : execution_state_is_valid x ≡ true → execution_state_is_valid y ≡ true

-- Every node of the execution takes at most one step, and nothing but the nodes and the revision
-- changes.
pub record Evolves (e e' : GraphExecution) : Type 0 where
  pub same_graph : e'.graph ≡ e.graph
  pub same_outputs : e'.outputs ≡ e.outputs
  pub moves : Pairs (Moves e) e.nodes e'.nodes

pub Moves-refl : (e : GraphExecution) (x : GraphNodeExecution) → Moves e x x
Moves-refl e x = record { same_id = refl; step = stay; valid = λ h. h }

pub Evolves-refl : (e : GraphExecution) → Evolves e e
Evolves-refl e = record {
  same_graph = refl;
  same_outputs = refl;
  moves = Pairs-refl (Moves e) (Moves-refl e) e.nodes;
}

pub Pairs-Moves-ids :
    (e : GraphExecution) (xs ys : List GraphNodeExecution)
    → Pairs (Moves e) xs ys
    → execution_ids ys ≡ execution_ids xs
Pairs-Moves-ids e = map-Pairs execution_key (Moves e) (λ x y m. m.same_id)
