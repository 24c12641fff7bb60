-- ===== src/Graph/History/Outputs.antt =====
-- The recorded outputs stay valid, and so does the whole execution, under every history of calls.
use bastet_workstation.Common.{
  ◌≡◌, ◌↔◌, refl, sym, subst, ◌∙◌, inl, inr, String, Bool, true, false, not, ◌||◌, List, [], ◌∷◌,
  ◌++◌, map, arith, length, length-map, any, contains, collect, Distinct, length-collect-Distinct,
  Option-cases, ◌==◌, Result, ok, err, >>-eq-ok, fail_if-ok, is_ok,
}
use bastet_workstation.Graph.{
  GraphNode, WorkflowGraph, GraphNodeOutput, GraphExecution, GraphError, invalid_output,
  execution_key,
}
use bastet_workstation.Graph.Validate.{validate as validate_graph}
use bastet_workstation.Graph.Output.{validate_output}
use bastet_workstation.Graph.Execution.{has_node, check_nodes, check_outputs, validate, output_run}
use bastet_workstation.Graph.{find_execution}
use bastet_workstation.Graph.Execution.{record_output, refuses_output}
use bastet_workstation.Graph.Lifecycle.{Evolves}
use bastet_workstation.Graph.History.{Operation, records, after, apply, run}
use mathlib.Core.List.{map-append}
use bastet_workstation.Common.{
  any-append, any-contains, any-false-find_by, key-find_by, Distinct-snoc,
}
use bastet_workstation.Graph.History.Valid.{
  is_bad, IsConsistent, check_nodes-IsConsistent, IsConsistent-check_nodes, Evolves-IsConsistent,
  apply-Evolves,
}

ok_unit {ι} : {E : Type ι} (r : Result (Unit {0}) E) {u : Unit {0}} → r ≡ ok u → r ≡ ok tt
ok_unit r h = h

unique_runs_check :
    (e : GraphExecution)
    → (length (collect (map output_run e.outputs)) == length e.outputs) ≡ true
      ↔ Distinct (map output_run e.outputs)
unique_runs_check e =
    rw (← length-map output_run e.outputs) (length-collect-Distinct (map output_run e.outputs))

module _ (digest : String → String) where
  -- An output that `check_outputs` objects to.
  abbrev is_bad_output : List GraphNode → GraphNodeOutput → Bool
  is_bad_output nodes o = not (is_ok (validate_output digest o)) || not (has_node nodes o.node_id)

  record HasGoodOutputs (nodes : List GraphNode) (outputs : List GraphNodeOutput) : Type 0 where
    unique_runs : Distinct (map output_run outputs)
    sound_outputs : any (is_bad_output nodes) outputs ≡ false

  check_outputs-HasGoodOutputs :
      (e : GraphExecution) → check_outputs digest e ≡ ok tt → HasGoodOutputs e.graph.nodes e.outputs
  unfolding check_outputs
  check_outputs-HasGoodOutputs e h =
      let passed = fail_if-ok _ invalid_output h in
      record { unique_runs = (unique_runs_check e).0 (ground arith); sound_outputs = ground arith }

  HasGoodOutputs-check_outputs :
      (e : GraphExecution) → HasGoodOutputs e.graph.nodes e.outputs → check_outputs digest e ≡ ok tt
  unfolding check_outputs
  HasGoodOutputs-check_outputs e g =
      let distinct = (unique_runs_check e).1 g.unique_runs in rw (distinct, g.sound_outputs)

  -- What `validate` accepts, part by part.
  pub record IsValid (e : GraphExecution) : Type 0 where
    pub graph_valid : validate_graph e.graph ≡ ok tt
    pub consistent : IsConsistent e
    pub outputs_valid : check_outputs digest e ≡ ok tt

  pub validate-IsValid : (e : GraphExecution) → validate digest e ≡ ok tt → IsValid e
  unfolding validate
  validate-IsValid e h =
      let (graph, rest) = >>-eq-ok (validate_graph e.graph) _ h in
      let (nodes, outputs) = >>-eq-ok (check_nodes e) (check_outputs digest e) rest in
      record {
        graph_valid = graph;
        consistent = check_nodes-IsConsistent e nodes;
        outputs_valid = outputs;
      }

  pub IsValid-validate : (e : GraphExecution) → IsValid e → validate digest e ≡ ok tt
  unfolding validate
  IsValid-validate e v = rw (v.graph_valid, IsConsistent-check_nodes e v.consistent) v.outputs_valid

  Evolves-check_outputs :
      (e e' : GraphExecution)
      → Evolves e e'
      → check_outputs digest e ≡ ok tt
      → check_outputs digest e' ≡ ok tt
  Evolves-check_outputs e e' v h = HasGoodOutputs-check_outputs e' (
      subst (λ (g : WorkflowGraph). HasGoodOutputs g.nodes e'.outputs) (sym v.same_graph)
        (subst (HasGoodOutputs e.graph.nodes) (sym v.same_outputs)
          (check_outputs-HasGoodOutputs e h)))

  Evolves-IsValid : (e e' : GraphExecution) → Evolves e e' → IsValid e → IsValid e'
  Evolves-IsValid e e' v i = record {
    graph_valid = subst (λ g. validate_graph g ≡ ok tt) (sym v.same_graph) i.graph_valid;
    consistent = Evolves-IsConsistent e e' v i.consistent;
    outputs_valid = Evolves-check_outputs e e' v i.outputs_valid;
  }

  pub record_output_inv :
      (e : GraphExecution) (o : GraphNodeOutput) (e' : GraphExecution)
      → record_output digest e o ≡ ok e'
      → (validate_output digest o ≡ ok tt)
        × (any (λ (existing : GraphNodeOutput). existing.run_id == o.run_id) e.outputs ≡ false)
        × (refuses_output (find_execution o.node_id e.nodes) o.run_id ≡ false)
        × (e' ≡ record e { outputs = e.outputs ++ o ∷ [] })
  unfolding record_output
  record_output_inv e o e' h = ground (arith, ok_unit (validate_output digest o))

  record_known :
      (e : GraphExecution) (o : GraphNodeOutput)
      → refuses_output (find_execution o.node_id e.nodes) o.run_id ≡ false
      → IsConsistent e
      → has_node e.graph.nodes o.node_id ≡ true
  record_known e o accepted c = elim (Option-cases (find_execution o.node_id e.nodes)) [
    | inl missing ↦ absurd (ground arith)
    | inr (x, found) ↦
        let good =
          any-false-find_by execution_key (is_bad e.graph.nodes) o.node_id e.nodes c.sound found in
        let same = key-find_by execution_key o.node_id e.nodes found in
        subst (λ id. has_node e.graph.nodes id ≡ true) same (ground arith)
  ]

  record_output-IsValid :
      (e : GraphExecution) (o : GraphNodeOutput) (e' : GraphExecution)
      → record_output digest e o ≡ ok e'
      → IsValid e
      → IsValid e'
  record_output-IsValid e o e' h i =
      let (intact, unused, accepted, result) = record_output_inv e o e' h in
      let old = check_outputs-HasGoodOutputs e i.outputs_valid in
      let known = record_known e o accepted i.consistent in
      let fresh : contains (map output_run e.outputs) o.run_id ≡ false =
        sym (any-contains output_run o.run_id e.outputs) ∙ unused in
      subst IsValid (sym result) (record {
        graph_valid = i.graph_valid;
        consistent = record {
          sized = i.consistent.sized;
          unique = i.consistent.unique;
          sound = i.consistent.sound;
        };
        outputs_valid =
            HasGoodOutputs-check_outputs (record e { outputs = e.outputs ++ o ∷ [] })
              (record {
                unique_runs =
                    subst Distinct (sym (map-append output_run e.outputs (o ∷ [])))
                      (Distinct-snoc (map output_run e.outputs) o.run_id old.unique_runs fresh);
                sound_outputs =
                    any-append (is_bad_output e.graph.nodes) e.outputs (o ∷ [])
                    ∙ rw (old.sound_outputs, intact, known);
              });
      })

  pub apply-IsValid :
      (e : GraphExecution) (op : Operation) → IsValid e → IsValid (apply digest e op)
  apply-IsValid e (records o) i = unfold apply in (recorded (record_output digest e o) refl)
    where
      recorded :
          (r : Result GraphExecution GraphError)
          → record_output digest e o ≡ r
          → IsValid (after e r)
      recorded (ok e') h = record_output-IsValid e o e' h i
      recorded (err x) h = i
  apply-IsValid e op i =
      Evolves-IsValid e (apply digest e op) (apply-Evolves digest e op i.consistent.unique refl) i

  run-IsValid : (e : GraphExecution) (ops : List Operation) → IsValid e → IsValid (run digest e ops)
  unfolding run
  run-IsValid e [] i = i
  run-IsValid e (op ∷ ops) i = run-IsValid (apply digest e op) ops (apply-IsValid e op i)

  -- Whatever calls are made on an execution that `validate` accepts, whether they succeed or fail,
  -- `validate` accepts what is left.
  pub validate-run :
      (e : GraphExecution) (ops : List Operation)
      → validate digest e ≡ ok tt
      → validate digest (run digest e ops) ≡ ok tt
  validate-run e ops h = IsValid-validate _ (run-IsValid e ops (validate-IsValid e h))
