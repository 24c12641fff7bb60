-- ===== src/Graph.antt =====
-- The data of the workflow graph, crates/bastet-core/src/graph.rs: a graph of research, join and
-- document nodes, and the execution record that the daemon stores for it.
use bastet_workstation.Common.{
  ℕ, String, Bool, true, false, Option, none, some, List, find_by, str_eq, ◌==◌,
}
use bastet_workstation.Identity.{RoleId, RunId, DecisionBaselineId, GraphNodeId, GraphRunId}
use bastet_workstation.Adapter.{AdapterFailure}
pub mod Validate
pub mod Output
pub mod Execution
pub mod Block
pub mod Transitions
pub mod Retry
pub mod Lifecycle
pub mod History
pub mod Results

pub data GraphNodeKind : Type 0 where
  research join document : GraphNodeKind

pub record GraphNode : Type 0 where
  pub id : GraphNodeId
  pub kind : GraphNodeKind
  pub role_id : RoleId
  pub title : String
  pub needs : List GraphNodeId

pub record WorkflowGraph : Type 0 where
  pub decision_baseline_id : DecisionBaselineId
  pub nodes : List GraphNode

pub data GraphNodeState : Type 0 where
  pending awaiting_approval running succeeded failed cancelled blocked uncertain : GraphNodeState

pub record GraphNodeExecution : Type 0 where
  pub node_id : GraphNodeId
  pub state : GraphNodeState
  pub owner : Option String
  pub revision : ℕ  -- u64
  pub run_id : Option RunId
  pub failure : Option AdapterFailure

pub record GraphNodeOutput : Type 0 where
  pub node_id : GraphNodeId
  pub run_id : RunId
  pub content_hash : String
  pub markdown : String

pub record GraphExecution : Type 0 where
  pub id : GraphRunId
  pub graph : WorkflowGraph
  pub nodes : List GraphNodeExecution
  pub outputs : List GraphNodeOutput
  pub restarted_from_execution_id : Option GraphRunId
  pub revision : ℕ  -- u64

pub data GraphError : Type 0 where
  duplicate_node empty_title invalid_dependency cycle : GraphError
  invalid_research_join invalid_execution invalid_output : GraphError

abbrev pub node_key : GraphNode → ℕ
node_key n = n.id

abbrev pub execution_key : GraphNodeExecution → ℕ
execution_key x = x.node_id

-- `self.graph.nodes.iter().find(|node| node.id == id)`
abbrev pub find_node : ℕ → List GraphNode → Option GraphNode
find_node = find_by node_key

-- `self.nodes.iter().find(|node| node.node_id == id)`
abbrev pub find_execution : ℕ → List GraphNodeExecution → Option GraphNodeExecution
find_execution = find_by execution_key

abbrev pub is_research : GraphNodeKind → Bool
is_research research = true
is_research _ = false

abbrev pub is_join : GraphNodeKind → Bool
is_join join = true
is_join _ = false

abbrev pub is_pending : GraphNodeState → Bool
is_pending pending = true
is_pending _ = false

abbrev pub is_awaiting : GraphNodeState → Bool
is_awaiting awaiting_approval = true
is_awaiting _ = false

abbrev pub is_running : GraphNodeState → Bool
is_running running = true
is_running _ = false

abbrev pub is_succeeded : GraphNodeState → Bool
is_succeeded succeeded = true
is_succeeded _ = false

abbrev pub is_failed : GraphNodeState → Bool
is_failed failed = true
is_failed _ = false

abbrev pub is_blocked : GraphNodeState → Bool
is_blocked blocked = true
is_blocked _ = false

-- `option == Some(value)` for owners and for runs.
abbrev pub owned_by : Option String → String → Bool
owned_by none owner = false
owned_by (some o) owner = str_eq o owner

abbrev pub runs_as : Option RunId → RunId → Bool
runs_as none run = false
runs_as (some r) run = r == run
