-- ===== src/Graph/Lifecycle/Blocking.antt =====
-- `block_dependents` touches pending nodes only, and turns them into blocked ones.
use bastet_workstation.Common.{
  ℕ, zero, suc, ◌≡◌, refl, ◌⊎◌, inl, inr, not, ◌&&◌, List, [], ◌∷◌, arith, length, any, contains,
  Pairs, Pairs-refl, Pairs-compose, Pairs-modify_by, Bool-cases,
}
use bastet_workstation.Graph.{GraphNode, GraphNodeExecution, execution_key}
use bastet_workstation.Graph.Block.{
  Sweep, block_pending, reach_node, sweep, sweep_loop, fresh_round, first_sweep, block_nodes,
}

abbrev pub Blocks : GraphNodeExecution → GraphNodeExecution → Type 0
Blocks x y = (y ≡ x) ⊎ (y ≡ block_pending x)

Blocks-trans : (x y z : GraphNodeExecution) → Blocks x y → Blocks y z → Blocks x z
Blocks-trans x y z p q = ground arith

abbrev AllBlock : List GraphNodeExecution → List GraphNodeExecution → Type 0
AllBlock = Pairs Blocks

AllBlock-refl : (xs : List GraphNodeExecution) → AllBlock xs xs
AllBlock-refl = Pairs-refl Blocks (λ x. inl refl)

AllBlock-trans :
    (xs ys zs : List GraphNodeExecution) → AllBlock xs ys → AllBlock ys zs → AllBlock xs zs
AllBlock-trans = Pairs-compose Blocks Blocks Blocks Blocks-trans

reach_node-AllBlock :
    (node : GraphNode) (w : Sweep) → AllBlock w.executions (reach_node node w).executions
unfolding reach_node
reach_node-AllBlock node w =
    elim (Bool-cases (any (contains w.reached) node.needs && not (contains w.reached node.id))) [
      | inl e ↦ rw e (
          Pairs-modify_by execution_key Blocks node.id block_pending (λ x. inl refl) w.executions
            (λ x found. inr refl))
      | inr e ↦ rw e (AllBlock-refl w.executions)
    ]

sweep-AllBlock :
    (nodes : List GraphNode) (w : Sweep) → AllBlock w.executions (sweep nodes w).executions
unfolding sweep
sweep-AllBlock [] w = AllBlock-refl w.executions
sweep-AllBlock (node ∷ nodes) w =
    AllBlock-trans _ _ _ (reach_node-AllBlock node w) (sweep-AllBlock nodes (reach_node node w))

sweep_loop-AllBlock :
    (fuel : ℕ) (nodes : List GraphNode) (w : Sweep)
    → AllBlock w.executions (sweep_loop fuel nodes w).executions
unfolding sweep_loop
sweep_loop-AllBlock zero nodes w = AllBlock-refl w.executions
sweep_loop-AllBlock (suc fuel) nodes w =
    let w' = sweep nodes (fresh_round w) in
    let once = sweep-AllBlock nodes (fresh_round w) in
    let more = sweep_loop-AllBlock fuel nodes w' in
    elim (Bool-cases w'.changed) [
      | inl e ↦ rw (e, sweep_loop) (AllBlock-trans _ _ _ once more)
      | inr e ↦ rw (e, sweep_loop) once
    ]

pub block_nodes-Blocks :
    (nodes : List GraphNode) (from : ℕ) (executions : List GraphNodeExecution)
    → Pairs Blocks executions (block_nodes nodes from executions)
unfolding block_nodes
block_nodes-Blocks nodes from executions =
    sweep_loop-AllBlock (suc (length nodes)) nodes (first_sweep from executions)
