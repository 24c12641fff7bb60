-- ===== src/Graph/History/Start.antt =====
-- What `start` and `restart_as` hand out is valid, so it stays valid.
use bastet_workstation.Common.{
  ℕ, ◌≡◌, refl, sym, ap, subst, ◌∙◌, String, Bool, true, false, not, some, List, [], ◌∷◌, map,
  arith, length-map, any, contains, Distinct, any-contains, ok, >>-eq-ok, all, is_some,
}
use bastet_workstation.Identity.{GraphRunId}
use bastet_workstation.Graph.{
  GraphNode, WorkflowGraph, GraphNodeExecution, GraphExecution, node_key, is_succeeded, is_pending,
}
use bastet_workstation.Graph.Validate.{ids, validate as validate_graph}
use bastet_workstation.Graph.Validate.Spec.{validate_iff_IsWellFormed}
use bastet_workstation.Graph.Execution.{
  fresh_execution, begin_execution, start, restart_as, output, execution_ids, has_node, validate,
  check_outputs,
}
use bastet_workstation.Graph.History.{Operation, run}
use bastet_workstation.Graph.History.Valid.{is_bad, IsConsistent}
use bastet_workstation.Graph.History.Outputs.{IsValid, IsValid-validate, validate-run}

fresh-ids : (nodes : List GraphNode) → execution_ids (map fresh_execution nodes) ≡ ids nodes
fresh-ids [] = refl
fresh-ids (n ∷ ns) = ap (λ l. n.id ∷ l) (fresh-ids ns)

-- A fresh record of a node that is known is consistent.
fresh_sound :
    (known nodes : List GraphNode)
    → ((id : ℕ) → contains (ids nodes) id ≡ true → has_node known id ≡ true)
    → any (is_bad known) (map fresh_execution nodes) ≡ false
fresh_sound known [] h = refl
fresh_sound known (n ∷ ns) h =
    ground (arith, h n.id, fresh_sound known ns (λ id m. h id (ground arith)))

fresh-pending :
    (nodes : List GraphNode)
    → all (λ (x : GraphNodeExecution). is_pending x.state) (map fresh_execution nodes) ≡ true
fresh-pending [] = refl
fresh-pending (n ∷ ns) = fresh-pending ns

all_of_any-not {ℓ} :
    {A : Type ℓ} (p : A → Bool) (xs : List A) → any (λ x. not (p x)) xs ≡ false → all p xs ≡ true
all_of_any-not p [] h = refl
all_of_any-not p (x ∷ xs) h = ground (arith, all_of_any-not p xs)

begin_execution-IsConsistent :
    (id : GraphRunId) (g : WorkflowGraph)
    → validate_graph g ≡ ok tt
    → IsConsistent (begin_execution id g)
begin_execution-IsConsistent id g h =
    let well = (validate_iff_IsWellFormed g).0 h in
    record {
      sized = length-map fresh_execution g.nodes;
      unique = subst Distinct (sym (fresh-ids g.nodes)) well.unique;
      sound = fresh_sound g.nodes g.nodes (λ j m. any-contains node_key j g.nodes ∙ m);
    }

pub start_inv :
    (id : GraphRunId) (g : WorkflowGraph) (e : GraphExecution)
    → start id g ≡ ok e
    → (validate_graph g ≡ ok tt) × (begin_execution id g ≡ e)
unfolding start
start_inv id g e h =
    let (valid, result) = >>-eq-ok (validate_graph g) (ok (begin_execution id g)) h in
    (valid, ground arith)

module _ (digest : String → String) where
  pub begin_execution-IsValid :
      (id : GraphRunId) (g : WorkflowGraph)
      → validate_graph g ≡ ok tt
      → IsValid digest (begin_execution id g)
  begin_execution-IsValid id g h = record {
    graph_valid = h;
    consistent = begin_execution-IsConsistent id g h;
    outputs_valid = unfold check_outputs in refl;
  }

  -- An execution that was started, and then used in any way, is one that `validate` accepts.
  pub validate-run-start :
      (id : GraphRunId) (g : WorkflowGraph) (e : GraphExecution) (ops : List Operation)
      → start id g ≡ ok e
      → validate digest (run digest e ops) ≡ ok tt
  validate-run-start id g e ops h =
      let (valid, result) = start_inv id g e h in
      validate-run digest e ops (
        subst (λ x. validate digest x ≡ ok tt) result
          (IsValid-validate digest _ (begin_execution-IsValid id g valid)))

  restart_as_inv :
      (e : GraphExecution) (id : GraphRunId) (e' : GraphExecution)
      → restart_as digest e id ≡ ok e'
      → (validate digest e ≡ ok tt)
        × (any (λ (x : GraphNodeExecution). not (is_succeeded x.state)) e.nodes ≡ false)
        × (all (λ (x : GraphNodeExecution). is_some (output e x.node_id)) e.nodes ≡ false)
        × (r : GraphExecution) × (start id e.graph ≡ ok r)
        × (e' ≡ record r { restarted_from_execution_id = some e.id })
  unfolding restart_as
  restart_as_inv e id e' h = ground arith

  -- A restart is granted only to a valid execution whose nodes have all succeeded, and of which some
  -- node has no output. It has the same graph, records where it comes from, starts with no output and
  -- every node pending, and is valid.
  pub restart_as-fresh :
      (e : GraphExecution) (id : GraphRunId) (e' : GraphExecution)
      → restart_as digest e id ≡ ok e'
      → (validate digest e ≡ ok tt)
        × (all (λ (x : GraphNodeExecution). is_succeeded x.state) e.nodes ≡ true)
        × (all (λ (x : GraphNodeExecution). is_some (output e x.node_id)) e.nodes ≡ false)
        × (e'.graph ≡ e.graph)
        × (e'.restarted_from_execution_id ≡ some e.id)
        × (e'.outputs ≡ [])
        × (all (λ (x : GraphNodeExecution). is_pending x.state) e'.nodes ≡ true)
        × (validate digest e' ≡ ok tt)
  restart_as-fresh e id e' h =
      let (valid, over, gap, r, started, result) = restart_as_inv e id e' h in
      let (graph_valid, begun) = start_inv id e.graph r started in
      let fresh : e'
          ≡ record (begin_execution id e.graph) { restarted_from_execution_id = some e.id } =
        ground arith in
      let well = begin_execution-IsValid id e.graph graph_valid in
      (
        valid,
        all_of_any-not (λ (x : GraphNodeExecution). is_succeeded x.state) e.nodes over,
        gap,
        ap (λ (z : GraphExecution). z.graph) fresh,
        ap (λ (z : GraphExecution). z.restarted_from_execution_id) fresh,
        ap (λ (z : GraphExecution). z.outputs) fresh,
        ap (λ (z : GraphExecution). all (λ (x : GraphNodeExecution). is_pending x.state) z.nodes)
              fresh
            ∙ fresh-pending e.graph.nodes,
        subst (λ z. validate digest z ≡ ok tt) (sym fresh)
            (IsValid-validate digest _ (record {
              graph_valid = graph_valid;
              consistent = record {
                sized = well.consistent.sized;
                unique = well.consistent.unique;
                sound = well.consistent.sound;
              };
              outputs_valid = unfold check_outputs in refl;
            })),
      )
