-- ===== src/Graph/History/Valid.antt =====
-- `GraphExecution::validate` accepts whatever the operations make of an execution that it accepts.
use bastet_workstation.Common.{
  ◌≡◌, ◌↔◌, refl, sym, ap, subst, ◌∙◌, String, Bool, true, false, not, ◌||◌, List, [], ◌∷◌, arith,
  length, length-map, any, collect, Distinct, length-collect-Distinct, Pairs, ◌==◌, Result, ok, err,
  fail_if-ok,
}
use bastet_workstation.Graph.{
  GraphNode, WorkflowGraph, GraphNodeExecution, GraphExecution, GraphError, invalid_execution,
  execution_key,
}
use bastet_workstation.Graph.Execution.{
  execution_state_is_valid, execution_ids, has_node, check_nodes,
}
use bastet_workstation.Graph.Lifecycle.{Moves, Evolves, Evolves-refl, Pairs-Moves-ids}
use bastet_workstation.Graph.Lifecycle.Transitions.{
  claim_node-Evolves, stage_node-Evolves, activate_staged_node-Evolves, cancel_staged_node-Evolves,
  bind_run-Evolves, complete-Evolves, finish_terminal-Evolves,
}
use bastet_workstation.Graph.Lifecycle.Claims.{claim_ready-Evolves, reconcile_after_restart-Evolves}
use bastet_workstation.Graph.Lifecycle.Retrying.{retry_failed-Evolves}
use bastet_workstation.Graph.History.{
  Operation, claims_ready, claims, stages, activates, cancels, binds, completes, finishes, retries,
  reconciles, records, after, apply, run,
}

-- A record that `check_nodes` objects to.
abbrev pub is_bad : List GraphNode → GraphNodeExecution → Bool
is_bad nodes x = not (has_node nodes x.node_id) || not (execution_state_is_valid x)

pub record IsConsistent (e : GraphExecution) : Type 0 where
  pub sized : length e.nodes ≡ length e.graph.nodes
  pub unique : Distinct (execution_ids e.nodes)
  pub sound : any (is_bad e.graph.nodes) e.nodes ≡ false

unique_check :
    (e : GraphExecution)
    → (length (collect (execution_ids e.nodes)) == length e.nodes) ≡ true
      ↔ Distinct (execution_ids e.nodes)
unique_check e =
    rw (← length-map execution_key e.nodes) (length-collect-Distinct (execution_ids e.nodes))

pub check_nodes-IsConsistent : (e : GraphExecution) → check_nodes e ≡ ok tt → IsConsistent e
unfolding check_nodes
check_nodes-IsConsistent e h =
    let passed = fail_if-ok _ invalid_execution h in
    record {
      sized = ground arith;
      unique = (unique_check e).0 (ground arith);
      sound = ground arith;
    }

pub IsConsistent-check_nodes : (e : GraphExecution) → IsConsistent e → check_nodes e ≡ ok tt
unfolding check_nodes
IsConsistent-check_nodes e c =
    let distinct = (unique_check e).1 c.unique in
    let counted : (length e.nodes == length e.graph.nodes) ≡ true = ground arith in
    rw (counted, distinct, c.sound)

Moves-sound :
    (e : GraphExecution) (nodes : List GraphNode) (xs ys : List GraphNodeExecution)
    → Pairs (Moves e) xs ys
    → any (is_bad nodes) xs ≡ false
    → any (is_bad nodes) ys ≡ false
Moves-sound e nodes [] [] p h = refl
Moves-sound e nodes [] (y ∷ ys) p h = absurd p
Moves-sound e nodes (x ∷ xs) [] p h = absurd p
Moves-sound e nodes (x ∷ xs) (y ∷ ys) p h =
    let id = p.0.same_id in
    let known : has_node nodes y.node_id ≡ has_node nodes x.node_id = ap (has_node nodes) id in
    let valid = p.0.valid (ground arith) in
    let rest = Moves-sound e nodes xs ys p.1 (ground arith) in ground arith

pub Evolves-IsConsistent : (e e' : GraphExecution) → Evolves e e' → IsConsistent e → IsConsistent e'
Evolves-IsConsistent e e' v c =
    let same = Pairs-Moves-ids e e.nodes e'.nodes v.moves in
    record {
      sized =
          sym (length-map execution_key e'.nodes)
          ∙ ap length same
          ∙ length-map execution_key e.nodes
          ∙ c.sized
          ∙ ap (λ (g : WorkflowGraph). length g.nodes) (sym v.same_graph);
      unique = subst Distinct (sym same) c.unique;
      sound =
          subst (λ (g : WorkflowGraph). any (is_bad g.nodes) e'.nodes ≡ false) (sym v.same_graph)
            (Moves-sound e e.graph.nodes e.nodes e'.nodes v.moves c.sound);
    }

abbrev pub is_record : Operation → Bool
is_record (records o) = true
is_record _ = false

after-Evolves :
    (e : GraphExecution) (r : Result GraphExecution GraphError)
    → ((e' : GraphExecution) → r ≡ ok e' → Evolves e e')
    → Evolves e (after e r)
after-Evolves e (ok e') h = h e' refl
after-Evolves e (err x) h = Evolves-refl e

-- On an execution no two of whose records are of the same node, whatever call is made but the recording
-- of an output, and whether it succeeds or fails, every node takes at most one step of the lifecycle
-- diagram (it enters `running` or `awaiting_approval` from `pending` only when all that it needs has
-- succeeded), and the graph and the outputs stay.
pub apply-Evolves :
    (digest : String → String) (e : GraphExecution) (op : Operation)
    → Distinct (execution_ids e.nodes)
    → is_record op ≡ false
    → Evolves e (apply digest e op)
unfolding apply
apply-Evolves digest e (claims_ready owner limit) d h = claim_ready-Evolves e owner limit
apply-Evolves digest e (claims id owner) d h = after-Evolves e _ (claim_node-Evolves e id owner)
apply-Evolves digest e (stages id owner run) d h =
    after-Evolves e _ (stage_node-Evolves e id owner run)
apply-Evolves digest e (activates id owner run) d h =
    after-Evolves e _ (activate_staged_node-Evolves e id owner run)
apply-Evolves digest e (cancels id owner run) d h =
    after-Evolves e _ (cancel_staged_node-Evolves e id owner run)
apply-Evolves digest e (binds id owner run) d h =
    after-Evolves e _ (bind_run-Evolves e id owner run)
apply-Evolves digest e (completes id owner success) d h =
    after-Evolves e _ (complete-Evolves e id owner success)
apply-Evolves digest e (finishes id owner state failure) d h =
    after-Evolves e _ (finish_terminal-Evolves e id owner state failure)
apply-Evolves digest e (retries id) d h = retry_failed-Evolves e id d
apply-Evolves digest e reconciles d h = reconcile_after_restart-Evolves e
apply-Evolves digest e (records o) d h = absurd (cc h)
