-- ===== src/Graph/Results/Failure.antt =====
-- A failed run and its dependents.
use bastet_workstation.Common.{
  ℕ, ◌≡◌, ◌≢◌, refl, sym, subst, ap, ◌∙◌, String, false, List, arith, Pairs, Pairs-compose,
  Pairs-modify_by_all, if◌then◌else◌, ◌==◌, ok, Distinct, map-modify_by, inl, inr, Bool-cases,
}
use bastet_workstation.Identity.{GraphNodeId}
use bastet_workstation.Graph.{GraphNode, GraphNodeExecution, GraphExecution, execution_key}
use bastet_workstation.Graph.Execution.{validate}
use bastet_workstation.Graph.Block.{block_pending}
use bastet_workstation.Graph.Block.Closure.{block_nodes_exact, BlockedExactly}
use bastet_workstation.Graph.Transitions.{complete, conclude, write_node}
use bastet_workstation.Graph.Validate.Paths.{DependsOn}
use bastet_workstation.Graph.Validate.Spec.{validate_iff_IsWellFormed}
use bastet_workstation.Graph.Lifecycle.Transitions.{complete_inv}
use bastet_workstation.Graph.History.Outputs.{validate-IsValid}

-- The failed node's record is concluded, a pending record of a node that depends on it is blocked,
-- and any other stays.
abbrev pub FailureEffect : List GraphNode → ℕ → GraphNodeExecution → GraphNodeExecution → Type 0
FailureEffect nodes id x y =
    (x.node_id ≡ id → y ≡ conclude false x)
    × (DependsOn nodes x.node_id id → y ≡ block_pending x)
    × (x.node_id ≢ id → ¬ DependsOn nodes x.node_id id → y ≡ x)

effect :
    (nodes : List GraphNode) (id : ℕ) (x y z : GraphNodeExecution)
    → ¬ DependsOn nodes id id
    → y ≡ (if x.node_id == id then conclude false x else x)
    → (DependsOn nodes y.node_id id → z ≡ block_pending y)
      × (¬ DependsOn nodes y.node_id id → z ≡ y)
    → FailureEffect nodes id x z
effect nodes id x y z loopless h (spread, free) =
    let same : y.node_id ≡ x.node_id = ground arith in
    (
      λ at. free (λ p. loopless (subst (λ k. DependsOn nodes k id) (same ∙ at) p)) ∙ ground arith,
      λ p.
          let apart : (x.node_id == id) ≡ false = not_itself p in
          let still : y ≡ x = ground arith in
          spread (subst (λ k. DependsOn nodes k id) (sym same) p) ∙ ap block_pending still,
      λ off none_needed.
          free (λ p. none_needed (subst (λ k. DependsOn nodes k id) same p)) ∙ ground arith,
    )
  where
    not_itself : DependsOn nodes x.node_id id → (x.node_id == id) ≡ false
    not_itself p = elim (Bool-cases (x.node_id == id)) [
      | inl e ↦
          let at : x.node_id ≡ id = ground arith in
          absurd (loopless (subst (λ k. DependsOn nodes k id) at p))
      | inr e ↦ e
    ]

-- When an owner reports that a run has failed, in an execution that `validate` accepts, the node's
-- record becomes failed, exactly the pending nodes that depend on it through any chain of needs become
-- blocked, and every other record stays as it was.
pub complete_failure_blocks_dependents :
    (digest : String → String) (e : GraphExecution) (id : GraphNodeId) (owner : String)
    (e' : GraphExecution)
    → validate digest e ≡ ok tt
    → complete e id owner false ≡ ok e'
    → Pairs (FailureEffect e.graph.nodes id) e.nodes e'.nodes
complete_failure_blocks_dependents digest e id owner e' h done =
    let v = validate-IsValid digest e h in
    let well = (validate_iff_IsWellFormed e.graph).0 v.graph_valid in
    let (x, found, active, owned, result) = complete_inv e id owner false e' done in
    let written = write_node id (conclude false) e in
    let unique =
      subst Distinct (sym (map-modify_by execution_key id (conclude false) (λ y. refl) e.nodes))
        v.consistent.unique in
    subst (λ (z : GraphExecution). Pairs (FailureEffect e.graph.nodes id) e.nodes z.nodes)
      (sym result)
      (Pairs-compose _ (BlockedExactly e.graph.nodes id written.nodes unique)
        (FailureEffect e.graph.nodes id)
        (λ a b c p q. effect e.graph.nodes id a b c (well.acyclic id) p q) e.nodes written.nodes _
        (Pairs-modify_by_all execution_key id (conclude false) e.nodes v.consistent.unique)
        (block_nodes_exact e.graph.nodes id written.nodes unique well.acyclic))
