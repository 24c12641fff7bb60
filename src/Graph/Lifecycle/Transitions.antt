-- ===== src/Graph/Lifecycle/Transitions.antt =====
-- Every operation on a single node takes that node one step along the diagram, and at most blocks
-- pending nodes besides.
use bastet_workstation.Common.{
  ℕ, ◌≡◌, refl, sym, subst, ◌∙◌, inl, inr, String, Bool, true, false, ◌&&◌, Option, some, none,
  arith, any, all, all_elim, Bool-cases, modify_by, if◌then◌else◌, ◌==◌, ok, is_blank, is_some,
}
use bastet_workstation.Identity.{RunId}
use bastet_workstation.Adapter.{AdapterFailure}
use bastet_workstation.Graph.{
  GraphNode, GraphNodeState, failed, succeeded, GraphNodeExecution, GraphExecution, find_node,
  find_execution, execution_key, is_pending, is_succeeded, is_running, is_awaiting, owned_by,
}
use bastet_workstation.Graph.Execution.{execution_state_is_valid}
use bastet_workstation.Graph.Block.{block_dependents}
use bastet_workstation.Graph.Transitions.{
  needs_succeeded, give_to, write_node, claim_node, stage_for, stage_node, run_id_is_in_use,
  activate, activate_staged_node, not_staged_as, withdraw, cancel_staged_node, bind_to, bind_run,
  conclude, complete, is_terminal, blocks_dependents, finish_as, finish_terminal,
}
use bastet_workstation.Graph.Lifecycle.{IsReady, Step, Moves, Evolves}
use bastet_workstation.Graph.Lifecycle.Writing.{
  IsReady-of_needs, IsReady-at, claim_step, stage_step, activate_step, withdraw_step, finish_step,
  write_node-Evolves, write_block-Evolves, modify_node-Moves,
}

claim_node_inv :
    (e : GraphExecution) (id : ℕ) (owner : String) (e' : GraphExecution)
    → claim_node e id owner ≡ ok e'
    → (n : GraphNode) × (x : GraphNodeExecution) × (find_node id e.graph.nodes ≡ some n)
      × (needs_succeeded e.nodes n ≡ true)
      × (find_execution id e.nodes ≡ some x)
      × (is_pending x.state ≡ true)
      × (e' ≡ write_node id (give_to owner) e)
unfolding claim_node
claim_node_inv e id owner e' h = ground arith

pub claim_node-Evolves :
    (e : GraphExecution) (id : ℕ) (owner : String) (e' : GraphExecution)
    → claim_node e id owner ≡ ok e'
    → Evolves e e'
claim_node-Evolves e id owner e' h =
    let (n, x, defined, met, found, idle, result) = claim_node_inv e id owner e' h in
    let ready = IsReady-at e id x found (IsReady-of_needs e id n defined met) in
    subst (Evolves e) (sym result) (
      write_node-Evolves e id (give_to owner) x found
        (record { same_id = refl; step = claim_step x.state idle ready; valid = λ v. refl }))

stage_node_inv :
    (e : GraphExecution) (id : ℕ) (owner : String) (run : RunId) (e' : GraphExecution)
    → stage_node e id owner run ≡ ok e'
    → (n : GraphNode) × (x : GraphNodeExecution) × (find_node id e.graph.nodes ≡ some n)
      × (all (λ d. any (λ y. y.node_id == d && is_succeeded y.state) e.nodes) n.needs ≡ true)
      × (find_execution id e.nodes ≡ some x)
      × (is_pending x.state ≡ true)
      × (is_blank owner ≡ false)
      × (run_id_is_in_use e run ≡ false)
      × (e' ≡ write_node id (stage_for owner run) e)
unfolding stage_node
stage_node_inv e id owner run e' h = ground arith

pub stage_node-Evolves :
    (e : GraphExecution) (id : ℕ) (owner : String) (run : RunId) (e' : GraphExecution)
    → stage_node e id owner run ≡ ok e'
    → Evolves e e'
stage_node-Evolves e id owner run e' h =
    let (n, x, defined, met, found, idle, named, unused, result) =
      stage_node_inv e id owner run e' h in
    let ready : IsReady e id = (
      n,
      defined,
      λ d m.
          all_elim (λ d. any (λ y. y.node_id == d && is_succeeded y.state) e.nodes) n.needs d met m,
    ) in
    let ready_x = IsReady-at e id x found ready in
    subst (Evolves e) (sym result) (
      write_node-Evolves e id (stage_for owner run) x found (record {
        same_id = refl;
        step = stage_step x.state idle ready_x;
        valid = λ v. ground arith;
      }))

activate_staged_node_inv :
    (e : GraphExecution) (id : ℕ) (owner : String) (run : RunId) (e' : GraphExecution)
    → activate_staged_node e id owner run ≡ ok e'
    → (x : GraphNodeExecution) × (find_execution id e.nodes ≡ some x)
      × (not_staged_as owner run x ≡ false)
      × (e' ≡ write_node id activate e)
unfolding activate_staged_node
activate_staged_node_inv e id owner run e' h = ground arith

is_some-owned_by : (o : Option String) (owner : String) → owned_by o owner ≡ true → is_some o ≡ true
is_some-owned_by none owner h = h
is_some-owned_by (some o) owner h = refl

pub activate_staged_node-Evolves :
    (e : GraphExecution) (id : ℕ) (owner : String) (run : RunId) (e' : GraphExecution)
    → activate_staged_node e id owner run ≡ ok e'
    → Evolves e e'
activate_staged_node-Evolves e id owner run e' h =
    let (x, found, staged, result) = activate_staged_node_inv e id owner run e' h in
    let awaiting : is_awaiting x.state ≡ true = ground arith in
    let owned = is_some-owned_by x.owner owner (ground arith) in
    subst (Evolves e) (sym result) (
      write_node-Evolves e id activate x found (record {
        same_id = refl;
        step = activate_step (IsReady e x.node_id) x.state awaiting;
        valid = λ v. owned;
      }))

cancel_staged_node_inv :
    (e : GraphExecution) (id : ℕ) (owner : String) (run : RunId) (e' : GraphExecution)
    → cancel_staged_node e id owner run ≡ ok e'
    → (x : GraphNodeExecution) × (find_execution id e.nodes ≡ some x)
      × (not_staged_as owner run x ≡ false)
      × (e' ≡ block_dependents id (write_node id withdraw e))
unfolding cancel_staged_node
cancel_staged_node_inv e id owner run e' h = ground arith

pub cancel_staged_node-Evolves :
    (e : GraphExecution) (id : ℕ) (owner : String) (run : RunId) (e' : GraphExecution)
    → cancel_staged_node e id owner run ≡ ok e'
    → Evolves e e'
cancel_staged_node-Evolves e id owner run e' h =
    let (x, found, staged, result) = cancel_staged_node_inv e id owner run e' h in
    let awaiting : is_awaiting x.state ≡ true = ground arith in
    let owned = is_some-owned_by x.owner owner (ground arith) in
    subst (Evolves e) (sym result) (
      write_block-Evolves e id withdraw x found
        (record {
          same_id = refl;
          step = withdraw_step (IsReady e x.node_id) x.state awaiting;
          valid = λ v. owned;
        })
        refl)

bind_run_inv :
    (e : GraphExecution) (id : ℕ) (owner : String) (run : RunId) (e' : GraphExecution)
    → bind_run e id owner run ≡ ok e'
    → (x : GraphNodeExecution) × (find_execution id e.nodes ≡ some x)
      × (is_running x.state ≡ true)
      × (e' ≡ record e { nodes = modify_by execution_key id (bind_to run) e.nodes })
unfolding bind_run
bind_run_inv e id owner run e' h = ground arith

pub bind_run-Evolves :
    (e : GraphExecution) (id : ℕ) (owner : String) (run : RunId) (e' : GraphExecution)
    → bind_run e id owner run ≡ ok e'
    → Evolves e e'
bind_run-Evolves e id owner run e' h =
    let (x, found, active, result) = bind_run_inv e id owner run e' h in
    subst (Evolves e) (sym result) (record {
      same_graph = refl;
      same_outputs = refl;
      moves =
          modify_node-Moves e id (bind_to run) x found
            (record { same_id = refl; step = Step.stay; valid = λ v. ground arith });
    })

pub complete_inv :
    (e : GraphExecution) (id : ℕ) (owner : String) (success : Bool) (e' : GraphExecution)
    → complete e id owner success ≡ ok e'
    → (x : GraphNodeExecution) × (find_execution id e.nodes ≡ some x)
      × (is_running x.state ≡ true)
      × (owned_by x.owner owner ≡ true)
      × (e' ≡ (
          let concluded = write_node id (conclude success) e in
          if success then concluded else block_dependents id concluded))
unfolding complete
complete_inv e id owner success e' h = ground arith

conclude-Moves :
    (e : GraphExecution) (success : Bool) (owner : String) (x : GraphNodeExecution)
    → is_running x.state ≡ true
    → owned_by x.owner owner ≡ true
    → Moves e x (conclude success x)
conclude-Moves e true owner x active owned = record {
  same_id = refl;
  step = finish_step (IsReady e x.node_id) x.state succeeded active refl;
  valid = λ v. is_some-owned_by x.owner owner owned;
}
conclude-Moves e false owner x active owned = record {
  same_id = refl;
  step = finish_step (IsReady e x.node_id) x.state failed active refl;
  valid = λ v. is_some-owned_by x.owner owner owned;
}

pub complete-Evolves :
    (e : GraphExecution) (id : ℕ) (owner : String) (success : Bool) (e' : GraphExecution)
    → complete e id owner success ≡ ok e'
    → Evolves e e'
complete-Evolves e id owner true e' h =
    let (x, found, active, owned, result) = complete_inv e id owner true e' h in
    subst (Evolves e) (sym result)
      (write_node-Evolves e id (conclude true) x found (conclude-Moves e true owner x active owned))
complete-Evolves e id owner false e' h =
    let (x, found, active, owned, result) = complete_inv e id owner false e' h in
    subst (Evolves e) (sym result) (
      write_block-Evolves e id (conclude false) x found
        (conclude-Moves e false owner x active owned) refl)

finish_terminal_inv :
    (e : GraphExecution) (id : ℕ) (owner : String) (state : GraphNodeState)
    (failure : Option AdapterFailure) (e' : GraphExecution)
    → finish_terminal e id owner state failure ≡ ok e'
    → (x : GraphNodeExecution) × (find_execution id e.nodes ≡ some x)
      × (is_terminal state ≡ true)
      × (is_running x.state ≡ true)
      × (e' ≡ (
          let finished = write_node id (finish_as owner state failure) e in
          if blocks_dependents state then block_dependents id finished else finished))
unfolding finish_terminal
finish_terminal_inv e id owner state failure e' h = ground arith

finish_as-valid :
    (owner : String) (state : GraphNodeState) (failure : Option AdapterFailure)
    (x : GraphNodeExecution)
    → is_terminal state ≡ true
    → execution_state_is_valid (finish_as owner state failure x) ≡ true
finish_as-valid owner state failure x h = ground arith

pub finish_terminal-Evolves :
    (e : GraphExecution) (id : ℕ) (owner : String) (state : GraphNodeState)
    (failure : Option AdapterFailure) (e' : GraphExecution)
    → finish_terminal e id owner state failure ≡ ok e'
    → Evolves e e'
finish_terminal-Evolves e id owner state failure e' h =
    let (x, found, ends, active, result) = finish_terminal_inv e id owner state failure e' h in
    let moved : Moves e x (finish_as owner state failure x) = record {
      same_id = refl;
      step = finish_step (IsReady e x.node_id) x.state state active ends;
      valid = λ v. finish_as-valid owner state failure x ends;
    } in
    let off : is_pending state ≡ false = ground arith in
    elim (Bool-cases (blocks_dependents state)) [
      | inl spreads ↦
          subst (Evolves e) (sym (result ∙ rw spreads))
            (write_block-Evolves e id (finish_as owner state failure) x found moved off)
      | inr quiet ↦
          subst (Evolves e) (sym (result ∙ rw quiet))
            (write_node-Evolves e id (finish_as owner state failure) x found moved)
    ]
