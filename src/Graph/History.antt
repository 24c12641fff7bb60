-- ===== src/Graph/History.antt =====
-- Any history of calls on a `GraphExecution` of crates/bastet-core/src/graph.rs, as the daemon makes
-- them under its lock, one after the other.
pub mod Valid
pub mod Outputs
pub mod Start
pub mod Order
use bastet_workstation.Common.{ℕ, String, Bool, Option, List, [], ◌∷◌, Result, ok, err}
use bastet_workstation.Identity.{RunId, GraphNodeId}
use bastet_workstation.Adapter.{AdapterFailure}
use bastet_workstation.Graph.{GraphNodeState, GraphNodeOutput, GraphExecution, GraphError}
use bastet_workstation.Graph.Execution.{record_output, reconcile_after_restart}
use bastet_workstation.Graph.Transitions.{
  claim_ready, claim_node, stage_node, activate_staged_node, cancel_staged_node, bind_run, complete,
  finish_terminal,
}
use bastet_workstation.Graph.Retry.{retry_failed}

pub data Operation : Type 0 where
  claims_ready : String → ℕ → Operation
  claims : GraphNodeId → String → Operation
  stages : GraphNodeId → String → RunId → Operation
  activates : GraphNodeId → String → RunId → Operation
  cancels : GraphNodeId → String → RunId → Operation
  binds : GraphNodeId → String → RunId → Operation
  completes : GraphNodeId → String → Bool → Operation
  finishes : GraphNodeId → String → GraphNodeState → Option AdapterFailure → Operation
  retries : GraphNodeId → Operation
  reconciles : Operation
  records : GraphNodeOutput → Operation

-- An error before the first write leaves `&mut self` as it was.
abbrev pub after : GraphExecution → Result GraphExecution GraphError → GraphExecution
after e (ok e') = e'
after e (err x) = e

module _ (digest : String → String) where
  unfoldable pub apply : GraphExecution → Operation → GraphExecution
  apply e (claims_ready owner limit) = (claim_ready e owner limit).0
  apply e (claims id owner) = after e (claim_node e id owner)
  apply e (stages id owner run) = after e (stage_node e id owner run)
  apply e (activates id owner run) = after e (activate_staged_node e id owner run)
  apply e (cancels id owner run) = after e (cancel_staged_node e id owner run)
  apply e (binds id owner run) = after e (bind_run e id owner run)
  apply e (completes id owner success) = after e (complete e id owner success)
  apply e (finishes id owner state failure) = after e (finish_terminal e id owner state failure)
  apply e (retries id) = (retry_failed e id).0
  apply e reconciles = (reconcile_after_restart e).0
  apply e (records o) = after e (record_output digest e o)

  unfoldable pub run : GraphExecution → List Operation → GraphExecution
  run e [] = e
  run e (op ∷ ops) = run (apply e op) ops
