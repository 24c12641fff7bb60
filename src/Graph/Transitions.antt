-- ===== src/Graph/Transitions.antt =====
-- The operations of crates/bastet-core/src/graph.rs that move single nodes: claiming, staging for
-- approval, activating, cancelling, binding a run and finishing. Each makes all its checks before it
-- writes, so an error leaves the execution as it was.
use bastet_workstation.Common.{
  ℕ, String, Bool, true, false, not, ◌&&◌, ◌||◌, Option, some, none, List, [], ◌∷◌, ◌++◌, length,
  any, all, is_empty, modify_by, ◌==◌, Result, ok, err, ◌>>=◌, ◌>>◌, fail_if, ok_or, is_some,
  is_blank, u64_next, if◌then◌else◌,
}
use bastet_workstation.Identity.{RunId, GraphNodeId}
use bastet_workstation.Adapter.{AdapterFailure}
use bastet_workstation.Graph.{
  GraphNode, GraphNodeState, awaiting_approval, running, succeeded, failed, cancelled, blocked,
  uncertain, GraphNodeExecution, GraphExecution, GraphError, invalid_execution, find_node,
  find_execution, execution_key, is_pending, is_awaiting, is_running, is_succeeded, owned_by,
  runs_as,
}
use bastet_workstation.Graph.Block.{block_dependents}

-- `states.get(id)`, for the map that is collected from the node records: a later record overwrites
-- an earlier one.
abbrev pub state_of : ℕ → List GraphNodeExecution → Option GraphNodeState
state_of id [] = none
state_of id (x ∷ xs) = elim (state_of id xs) [
  | some s ↦ some s
  | none ↦ if x.node_id == id then some x.state else none
]

-- `states.get(dependency) == Some(&GraphNodeState::Succeeded)`
abbrev pub found_succeeded : Option GraphNodeState → Bool
found_succeeded none = false
found_succeeded (some s) = is_succeeded s

abbrev pub needs_succeeded : List GraphNodeExecution → GraphNode → Bool
needs_succeeded nodes node = all (λ d. found_succeeded (state_of d nodes)) node.needs

abbrev pub give_to : String → GraphNodeExecution → GraphNodeExecution
give_to owner x = record x {
  state = running;
  owner = some owner;
  revision = u64_next x.revision;
  failure = none;
}

abbrev pub push_node {ℓ} :
    {R : Type ℓ} → GraphNodeExecution → List GraphNodeExecution × R → List GraphNodeExecution × R
push_node x (xs, r) = (x ∷ xs, r)

-- The loop of `claim_ready`: `all_nodes` is what the map of states was collected from. It returns the
-- records after the loop, changed or not, and the result. On an error
-- the records that were claimed before it stay claimed.
module _ (nodes : List GraphNode) (all_nodes : List GraphNodeExecution) (owner : String)
    (limit : ℕ) where
  unfoldable pub claim_loop :
      List ℕ
      → List GraphNodeExecution
      → List GraphNodeExecution × Result (List GraphNodeId) GraphError
  claim_loop claimed [] = ([], ok claimed)
  claim_loop claimed (x ∷ xs) = elim (length claimed == limit || not (is_pending x.state)) [
    | true ↦ push_node x (claim_loop claimed xs)
    | false ↦ elim (find_node x.node_id nodes) [
      | none ↦ (x ∷ xs, err invalid_execution)
      | some node ↦ elim (needs_succeeded all_nodes node) [
        | true ↦ push_node (give_to owner x) (claim_loop (claimed ++ x.node_id ∷ []) xs)
        | false ↦ push_node x (claim_loop claimed xs)
      ]
    ]
  ]

abbrev pub claimed_any : Result (List GraphNodeId) GraphError → Bool
claimed_any (ok claimed) = not (is_empty claimed)
claimed_any (err e) = false

unfoldable pub claim_ready :
    GraphExecution → String → ℕ → GraphExecution × Result (List GraphNodeId) GraphError
claim_ready e owner limit =
    if is_blank owner || limit == 0
    then (e, err invalid_execution)
    else (let (nodes, result) = claim_loop e.graph.nodes e.nodes owner limit [] e.nodes in
        (
          record e {
            nodes = nodes;
            revision = if claimed_any result then u64_next e.revision else e.revision;
          },
          result,
        ))

abbrev pub write_node :
    ℕ → (GraphNodeExecution → GraphNodeExecution) → GraphExecution → GraphExecution
write_node id f e = record e {
  nodes = modify_by execution_key id f e.nodes;
  revision = u64_next e.revision;
}

unfoldable pub claim_node : GraphExecution → GraphNodeId → String → Result GraphExecution GraphError
claim_node e id owner = do
  fail_if (is_blank owner) invalid_execution
  definition ← ok_or (find_node id e.graph.nodes) invalid_execution
  fail_if (not (needs_succeeded e.nodes definition)) invalid_execution
  execution ← ok_or (find_execution id e.nodes) invalid_execution
  fail_if (not (is_pending execution.state)) invalid_execution
  ok (write_node id (give_to owner) e)

unfoldable pub dependencies_succeeded : GraphExecution → GraphNodeId → Result Bool GraphError
dependencies_succeeded e id = do
  definition ← ok_or (find_node id e.graph.nodes) invalid_execution
  ok (all (λ d. any (λ x. x.node_id == d && is_succeeded x.state) e.nodes) definition.needs)

unfoldable pub run_id_is_in_use : GraphExecution → RunId → Bool
run_id_is_in_use e run =
    any (λ x. runs_as x.run_id run) e.nodes || any (λ o. o.run_id == run) e.outputs

abbrev pub stage_for : String → RunId → GraphNodeExecution → GraphNodeExecution
stage_for owner run x = record x {
  state = awaiting_approval;
  owner = some owner;
  revision = u64_next x.revision;
  run_id = some run;
  failure = none;
}

unfoldable pub stage_node :
    GraphExecution → GraphNodeId → String → RunId → Result GraphExecution GraphError
unfolding dependencies_succeeded
stage_node e id owner run = do
  fail_if (is_blank owner || run_id_is_in_use e run) invalid_execution
  met ← dependencies_succeeded e id
  fail_if (not met) invalid_execution
  execution ← ok_or (find_execution id e.nodes) invalid_execution
  fail_if (not (is_pending execution.state) || is_some execution.owner || is_some execution.run_id)
      invalid_execution
  ok (write_node id (stage_for owner run) e)

abbrev pub not_staged_as : String → RunId → GraphNodeExecution → Bool
not_staged_as owner run x =
    not (is_awaiting x.state) || not (owned_by x.owner owner) || not (runs_as x.run_id run)

abbrev pub activate : GraphNodeExecution → GraphNodeExecution
activate x = record x { state = running; revision = u64_next x.revision }

unfoldable pub activate_staged_node :
    GraphExecution → GraphNodeId → String → RunId → Result GraphExecution GraphError
activate_staged_node e id owner run = do
  execution ← ok_or (find_execution id e.nodes) invalid_execution
  fail_if (not_staged_as owner run execution) invalid_execution
  ok (write_node id activate e)

abbrev pub withdraw : GraphNodeExecution → GraphNodeExecution
withdraw x = record x { state = cancelled; revision = u64_next x.revision; failure = none }

unfoldable pub cancel_staged_node :
    GraphExecution → GraphNodeId → String → RunId → Result GraphExecution GraphError
cancel_staged_node e id owner run = do
  execution ← ok_or (find_execution id e.nodes) invalid_execution
  fail_if (not_staged_as owner run execution) invalid_execution
  ok (block_dependents id (write_node id withdraw e))

abbrev pub bind_to : RunId → GraphNodeExecution → GraphNodeExecution
bind_to run x = record x { run_id = some run }

-- The only operation that leaves the revisions as they are.
unfoldable pub bind_run :
    GraphExecution → GraphNodeId → String → RunId → Result GraphExecution GraphError
bind_run e id owner run = do
  execution ← ok_or (find_execution id e.nodes) invalid_execution
  fail_if
      (not (is_running execution.state)
        || not (owned_by execution.owner owner)
        || is_some execution.run_id)
      invalid_execution
  ok (record e { nodes = modify_by execution_key id (bind_to run) e.nodes })

abbrev pub not_running_for : String → GraphNodeExecution → Bool
not_running_for owner x = not (is_running x.state) || not (owned_by x.owner owner)

abbrev pub conclude : Bool → GraphNodeExecution → GraphNodeExecution
conclude success x = record x {
  state = if success then succeeded else failed;
  revision = u64_next x.revision;
  failure = none;
}

unfoldable pub complete :
    GraphExecution → GraphNodeId → String → Bool → Result GraphExecution GraphError
complete e id owner success = do
  execution ← ok_or (find_execution id e.nodes) invalid_execution
  fail_if (not_running_for owner execution) invalid_execution
  let concluded = write_node id (conclude success) e
  ok (if success then concluded else block_dependents id concluded)

-- The states that `finish_terminal` accepts, those that keep the owner, and those that block the
-- dependents.
abbrev pub is_terminal : GraphNodeState → Bool
is_terminal succeeded = true
is_terminal failed = true
is_terminal cancelled = true
is_terminal blocked = true
is_terminal uncertain = true
is_terminal _ = false

abbrev pub keeps_owner : GraphNodeState → Bool
keeps_owner succeeded = true
keeps_owner failed = true
keeps_owner cancelled = true
keeps_owner _ = false

abbrev pub blocks_dependents : GraphNodeState → Bool
blocks_dependents failed = true
blocks_dependents cancelled = true
blocks_dependents blocked = true
blocks_dependents _ = false

abbrev pub finish_as :
    String → GraphNodeState → Option AdapterFailure → GraphNodeExecution → GraphNodeExecution
finish_as owner state failure x = record x {
  state = state;
  owner = if keeps_owner state then some owner else none;
  revision = u64_next x.revision;
  failure = failure;
}

unfoldable pub finish_terminal :
    GraphExecution
    → GraphNodeId
    → String
    → GraphNodeState
    → Option AdapterFailure
    → Result GraphExecution GraphError
finish_terminal e id owner state failure = do
  fail_if (not (is_terminal state)) invalid_execution
  execution ← ok_or (find_execution id e.nodes) invalid_execution
  fail_if (not_running_for owner execution) invalid_execution
  let finished = write_node id (finish_as owner state failure) e
  ok (if blocks_dependents state then block_dependents id finished else finished)
