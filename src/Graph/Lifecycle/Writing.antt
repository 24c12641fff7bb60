-- ===== src/Graph/Lifecycle/Writing.antt =====
-- How a write of one node, with or without the blocking of its dependents, evolves an execution.
use bastet_workstation.Common.{
  ℕ, ◌≡◌, refl, sym, ap, subst, ◌∙◌, ◌⊎◌, inl, inr, true, false, some, List, [], ◌∷◌, arith,
  all_elim, Pairs, Pairs-compose, Pairs-modify_by, Bool-cases, Option-cases, key-find_by, modify_by,
}
use bastet_workstation.Graph.{
  GraphNode, GraphNodeState, pending, running, failed, succeeded, cancelled, blocked, uncertain,
  awaiting_approval, GraphNodeExecution, GraphExecution, find_node, find_execution, execution_key,
  is_pending, is_running, is_awaiting,
}
use bastet_workstation.Graph.Block.{block_pending, block_dependents}
use bastet_workstation.Graph.Transitions.{
  state_of, found_succeeded, needs_succeeded, write_node, is_terminal,
}
use bastet_workstation.Graph.Lifecycle.{HasSucceeded, IsReady, Step, Moves, Moves-refl, Evolves}
use bastet_workstation.Graph.Lifecycle.Blocking.{Blocks, block_nodes-Blocks}

-- The map of states says that a node has succeeded only if one of its records does.
HasSucceeded-of_state :
    (d : ℕ) (nodes : List GraphNodeExecution)
    → found_succeeded (state_of d nodes) ≡ true
    → HasSucceeded nodes d
HasSucceeded-of_state d [] h = h
HasSucceeded-of_state d (x ∷ xs) h = elim (Option-cases (state_of d xs)) [
  | inl none' ↦ ground arith
  | inr (s, e) ↦ ground (arith, HasSucceeded-of_state d xs)
]

pub IsReady-of_needs :
    (e : GraphExecution) (id : ℕ) (n : GraphNode)
    → find_node id e.graph.nodes ≡ some n
    → needs_succeeded e.nodes n ≡ true
    → IsReady e id
IsReady-of_needs e id n found met = (
  n,
  found,
  λ d m.
      HasSucceeded-of_state d e.nodes
        (all_elim (λ d. found_succeeded (state_of d e.nodes)) n.needs d met m),
)

-- The steps out of a state that is known by a test.
pub claim_step :
    {ready : Type 0} (s : GraphNodeState) → is_pending s ≡ true → ready → Step ready s running
claim_step pending h r = Step.claim r
claim_step _ h r = absurd (cc h)

pub stage_step :
    {ready : Type 0} (s : GraphNodeState)
    → is_pending s ≡ true
    → ready
    → Step ready s awaiting_approval
stage_step pending h r = Step.stage r
stage_step _ h r = absurd (cc h)

block_step : (ready : Type 0) (s : GraphNodeState) → is_pending s ≡ true → Step ready s blocked
block_step ready pending h = Step.block
block_step ready _ h = absurd (cc h)

pub activate_step :
    (ready : Type 0) (s : GraphNodeState) → is_awaiting s ≡ true → Step ready s running
activate_step ready awaiting_approval h = Step.activate
activate_step ready _ h = absurd (cc h)

pub withdraw_step :
    (ready : Type 0) (s : GraphNodeState) → is_awaiting s ≡ true → Step ready s cancelled
withdraw_step ready awaiting_approval h = Step.withdraw
withdraw_step ready _ h = absurd (cc h)

finish_step_from :
    (ready : Type 0) (t : GraphNodeState) → is_terminal t ≡ true → Step ready running t
finish_step_from ready succeeded h = Step.succeed
finish_step_from ready failed h = Step.fail
finish_step_from ready cancelled h = Step.cancel
finish_step_from ready blocked h = Step.stop
finish_step_from ready uncertain h = Step.lose
finish_step_from ready _ h = absurd (cc h)

pub finish_step :
    (ready : Type 0) (s t : GraphNodeState)
    → is_running s ≡ true
    → is_terminal t ≡ true
    → Step ready s t
finish_step ready running t h k = finish_step_from ready t k
finish_step ready _ t h k = absurd (cc h)

block_pending-Moves : (e : GraphExecution) (x : GraphNodeExecution) → Moves e x (block_pending x)
block_pending-Moves e x = elim (Bool-cases (is_pending x.state)) [
  | inl idle ↦ record {
    same_id = ground arith;
    step = rw idle (block_step (IsReady e x.node_id) x.state idle);
    valid = ground arith;
  }
  | inr other ↦ subst (Moves e x) (ground arith) (Moves-refl e x)
]

module _ (e : GraphExecution) (id : ℕ) (f : GraphNodeExecution → GraphNodeExecution)
    (x : GraphNodeExecution) (found : find_execution id e.nodes ≡ some x)
    (moved : Moves e x (f x)) where
  moved_any : (y : GraphNodeExecution) → find_execution id e.nodes ≡ some y → Moves e y (f y)
  moved_any y found_y = subst (λ (z : GraphNodeExecution). Moves e z (f z)) (ground arith) moved

  pub modify_node-Moves : Pairs (Moves e) e.nodes (modify_by execution_key id f e.nodes)
  modify_node-Moves = Pairs-modify_by execution_key (Moves e) id f (Moves-refl e) e.nodes moved_any

  pub write_node-Evolves : Evolves e (write_node id f e)
  write_node-Evolves = record { same_graph = refl; same_outputs = refl; moves = modify_node-Moves }

  -- The node that was written is not pending any more, so blocking leaves it.
  abbrev MovesOn : GraphNodeExecution → GraphNodeExecution → Type 0
  MovesOn y z = Moves e y z × ((z ≡ y) ⊎ (is_pending z.state ≡ false))

  block_after : (u y z : GraphNodeExecution) → MovesOn u y → Blocks y z → Moves e u z
  block_after u y z (m, on) (inl same) = subst (Moves e u) (sym same) m
  block_after u y z (m, inr on) (inr b) = subst (Moves e u) (sym (b ∙ ground arith)) m
  block_after u y z (m, inl same) (inr b) =
      subst (Moves e u) (sym (b ∙ ap block_pending same)) (block_pending-Moves e u)

  pub write_block-Evolves :
      is_pending (f x).state ≡ false → Evolves e (block_dependents id (write_node id f e))
  write_block-Evolves off = record {
    same_graph = refl;
    same_outputs = refl;
    moves =
        Pairs-compose MovesOn Blocks (Moves e) block_after e.nodes (write_node id f e).nodes _
          (Pairs-modify_by execution_key MovesOn id f (λ y. (Moves-refl e y, inl refl)) e.nodes
            (λ y found_y. (moved_any y found_y, inr (ground arith))))
          (block_nodes-Blocks e.graph.nodes id (write_node id f e).nodes);
  }

pub IsReady-at :
    (e : GraphExecution) (id : ℕ) (x : GraphNodeExecution)
    → find_execution id e.nodes ≡ some x
    → IsReady e id
    → IsReady e x.node_id
IsReady-at e id x found r = subst (IsReady e) (sym (key-find_by execution_key id e.nodes found)) r
