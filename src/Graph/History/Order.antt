-- ===== src/Graph/History/Order.antt =====
-- The order in which nodes run: nothing starts before all that it needs has succeeded, and success is
-- for ever.
use mathlib.Core.List.{Memᴰ}
use bastet_workstation.Common.{
  ℕ, ◌≡◌, refl, sym, ap, subst, ◌∙◌, ◌⊎◌, inl, inr, String, Bool, true, false, ◌&&◌, some, List, [],
  ◌∷◌, map, arith, contains, Pairs, Pairs-mem, All, All-mem, Result, ok, err, ◌==◌, Bool-cases,
}
use bastet_workstation.Identity.{GraphRunId}
use bastet_workstation.Graph.{
  GraphNode, GraphNodeState, pending, blocked, GraphNodeExecution, GraphNodeOutput, WorkflowGraph,
  GraphExecution, GraphError, find_node, is_succeeded,
}
use bastet_workstation.Graph.Execution.{
  start, begin_execution, fresh_execution, record_output, validate,
}
use bastet_workstation.Graph.Lifecycle.{HasSucceeded, Step, Moves, Evolves}
use bastet_workstation.Graph.History.{Operation, apply, run, after, records}
use bastet_workstation.Graph.History.Valid.{apply-Evolves}
use bastet_workstation.Graph.History.Outputs.{
  IsValid, validate-IsValid, apply-IsValid, record_output_inv,
}
use bastet_workstation.Graph.History.Start.{start_inv, begin_execution-IsValid}

-- The node has been claimed or staged since it was last pending or blocked.
abbrev pub is_started : GraphNodeState → Bool
is_started pending = false
is_started blocked = false
is_started _ = true

abbrev pub IsOrdered : GraphExecution → Type 0
IsOrdered e =
    (x : GraphNodeExecution)
    → Memᴰ x e.nodes
    → is_started x.state ≡ true
    → (n : GraphNode) → find_node x.node_id e.graph.nodes ≡ some n
    → (d : ℕ) → contains n.needs d ≡ true
    → HasSucceeded e.nodes d

Step-succeeded :
    {ready : Type 0} {s t : GraphNodeState}
    → Step ready s t
    → is_succeeded s ≡ true
    → is_succeeded t ≡ true
Step-succeeded Step.stay h = h
Step-succeeded (Step.claim r) h = cc h
Step-succeeded (Step.stage r) h = cc h
Step-succeeded Step.activate h = cc h
Step-succeeded Step.withdraw h = cc h
Step-succeeded Step.succeed h = refl
Step-succeeded Step.fail h = cc h
Step-succeeded Step.cancel h = cc h
Step-succeeded Step.stop h = cc h
Step-succeeded Step.lose h = cc h
Step-succeeded Step.block h = cc h
Step-succeeded Step.retry h = cc h
Step-succeeded Step.reopen h = cc h

-- A node that is started was so before, or its needs were met.
Step-started :
    {ready : Type 0} {s t : GraphNodeState}
    → Step ready s t
    → is_started t ≡ true
    → (is_started s ≡ true) ⊎ ready
Step-started Step.stay h = inl h
Step-started (Step.claim r) h = inr r
Step-started (Step.stage r) h = inr r
Step-started Step.activate h = inl refl
Step-started Step.withdraw h = inl refl
Step-started Step.succeed h = inl refl
Step-started Step.fail h = inl refl
Step-started Step.cancel h = inl refl
Step-started Step.stop h = inl refl
Step-started Step.lose h = inl refl
Step-started Step.block h = absurd (cc h)
Step-started Step.retry h = inl refl
Step-started Step.reopen h = absurd (cc h)

Moves-HasSucceeded :
    (e : GraphExecution) (d : ℕ) (xs ys : List GraphNodeExecution)
    → Pairs (Moves e) xs ys
    → HasSucceeded xs d
    → HasSucceeded ys d
Moves-HasSucceeded e d [] [] p h = h
Moves-HasSucceeded e d [] (y ∷ ys) p h = absurd p
Moves-HasSucceeded e d (x ∷ xs) [] p h = absurd p
Moves-HasSucceeded e d (x ∷ xs) (y ∷ ys) p h =
    elim (Bool-cases (x.node_id == d && is_succeeded x.state)) [
      | inl here ↦
          let done = Step-succeeded p.0.step (ground arith) in
          let same = p.0.same_id in ground arith
      | inr other ↦ let rest = Moves-HasSucceeded e d xs ys p.1 (ground arith) in ground arith
    ]

Evolves-IsOrdered : (e e' : GraphExecution) → Evolves e e' → IsOrdered e → IsOrdered e'
Evolves-IsOrdered e e' v o y inside started n found d needs =
    let (x, before, moved) = Pairs-mem (Moves e) e.nodes e'.nodes v.moves inside in
    let found_x : find_node x.node_id e.graph.nodes ≡ some n =
      ap (λ (g : WorkflowGraph). find_node x.node_id g.nodes) (sym v.same_graph)
      ∙ ap (λ id. find_node id e'.graph.nodes) (sym moved.same_id)
      ∙ found in
    let met : HasSucceeded e.nodes d = elim (Step-started moved.step started) [
      | inl was ↦ o x before was n found_x d needs
      | inr (m, found_m, all_met) ↦
          let same : n ≡ m = ground arith in
          all_met d (subst (λ (k : GraphNode). contains k.needs d ≡ true) same needs)
    ] in
    Moves-HasSucceeded e d e.nodes e'.nodes v.moves met

Evolves-HasSucceeded :
    (e e' : GraphExecution) (d : ℕ)
    → Evolves e e'
    → HasSucceeded e.nodes d
    → HasSucceeded e'.nodes d
Evolves-HasSucceeded e e' d v h = Moves-HasSucceeded e d e.nodes e'.nodes v.moves h

fresh_idle :
    (nodes : List GraphNode) → All (λ y. is_started y.state ≡ false) (map fresh_execution nodes)
fresh_idle [] = tt
fresh_idle (n ∷ ns) = (refl, fresh_idle ns)

module _ (digest : String → String) where
  -- Recording an output leaves the nodes and the graph.
  record_keeps :
      (e : GraphExecution) (o : GraphNodeOutput)
      → ((apply digest e (records o)).nodes ≡ e.nodes)
        × ((apply digest e (records o)).graph ≡ e.graph)
  unfolding apply
  record_keeps e o = kept (record_output digest e o) refl
    where
      kept :
          (r : Result GraphExecution GraphError)
          → record_output digest e o ≡ r
          → ((after e r).nodes ≡ e.nodes) × ((after e r).graph ≡ e.graph)
      kept (ok e') h =
          let (intact, unused, accepted, result) = record_output_inv digest e o e' h in
          (ap (λ (z : GraphExecution). z.nodes) result, ap (λ (z : GraphExecution). z.graph) result)
      kept (err x) h = (refl, refl)

  -- An operation is a step of every node, or leaves the nodes and the graph alone.
  apply_cases :
      (e : GraphExecution) (op : Operation)
      → IsValid digest e
      → Evolves e (apply digest e op)
        ⊎ (((apply digest e op).nodes ≡ e.nodes) × ((apply digest e op).graph ≡ e.graph))
  apply_cases e (records o) i = inr (record_keeps e o)
  apply_cases e op i = inl (apply-Evolves digest e op i.consistent.unique refl)

  apply-HasSucceeded :
      (e : GraphExecution) (op : Operation) (d : ℕ)
      → IsValid digest e
      → HasSucceeded e.nodes d
      → HasSucceeded (apply digest e op).nodes d
  apply-HasSucceeded e op d i h = elim (apply_cases e op i) [
    | inl v ↦ Evolves-HasSucceeded e (apply digest e op) d v h
    | inr (nodes, graph) ↦ subst (λ xs. HasSucceeded xs d) (sym nodes) h
  ]

  same-IsOrdered :
      (e e' : GraphExecution) → e'.nodes ≡ e.nodes → e'.graph ≡ e.graph → IsOrdered e → IsOrdered e'
  same-IsOrdered e e' nodes graph o x inside started n found d needs =
      subst (λ xs. HasSucceeded xs d) (sym nodes)
        (o x (subst (Memᴰ x) nodes inside) started n
          (ap (λ (g : WorkflowGraph). find_node x.node_id g.nodes) (sym graph) ∙ found) d needs)

  apply-IsOrdered :
      (e : GraphExecution) (op : Operation)
      → IsValid digest e
      → IsOrdered e
      → IsOrdered (apply digest e op)
  apply-IsOrdered e op i o = elim (apply_cases e op i) [
    | inl v ↦ Evolves-IsOrdered e (apply digest e op) v o
    | inr (nodes, graph) ↦ same-IsOrdered e (apply digest e op) nodes graph o
  ]

  run-IsOrdered :
      (e : GraphExecution) (ops : List Operation)
      → IsValid digest e
      → IsOrdered e
      → IsOrdered (run digest e ops)
  unfolding run
  run-IsOrdered e [] i o = o
  run-IsOrdered e (op ∷ ops) i o =
      run-IsOrdered (apply digest e op) ops (apply-IsValid digest e op i) (apply-IsOrdered e op i o)

  run-HasSucceeded :
      (e : GraphExecution) (ops : List Operation) (d : ℕ)
      → IsValid digest e
      → HasSucceeded e.nodes d
      → HasSucceeded (run digest e ops).nodes d
  unfolding run
  run-HasSucceeded e [] d i h = h
  run-HasSucceeded e (op ∷ ops) d i h =
      run-HasSucceeded (apply digest e op) ops d (apply-IsValid digest e op i)
        (apply-HasSucceeded e op d i h)

  -- In an execution that `validate` accepts, a node that has succeeded has succeeded after any
  -- further calls too.
  pub succeeded_for_ever :
      (e : GraphExecution) (ops : List Operation) (d : ℕ)
      → validate digest e ≡ ok tt
      → HasSucceeded e.nodes d
      → HasSucceeded (run digest e ops).nodes d
  succeeded_for_ever e ops d h = run-HasSucceeded e ops d (validate-IsValid digest e h)

  begin_execution-IsOrdered :
      (id : GraphRunId) (g : WorkflowGraph) → IsOrdered (begin_execution id g)
  begin_execution-IsOrdered id g x inside started =
      let idle = All-mem (λ y. is_started y.state ≡ false) _ (fresh_idle g.nodes) inside in
      absurd (ground arith)

  -- After any calls on a started execution, a node that has been claimed or staged (its state is
  -- neither pending nor blocked) needs only nodes that have succeeded.
  pub starts_in_order :
      (id : GraphRunId) (g : WorkflowGraph) (e : GraphExecution) (ops : List Operation)
      → start id g ≡ ok e
      → IsOrdered (run digest e ops)
  starts_in_order id g e ops h =
      let (valid, result) = start_inv id g e h in
      run-IsOrdered e ops
        (subst (IsValid digest) result (begin_execution-IsValid digest id g valid))
        (subst IsOrdered result (begin_execution-IsOrdered id g))
