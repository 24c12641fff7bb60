-- ===== src/Graph/Block/Closure.antt =====
-- Which nodes `block_dependents` blocks: the pending ones that depend on the given node.
use mathlib.Core.List.{Memᴰ}
use bastet_workstation.Common.{
  ℕ, zero, suc, ◌≡◌, refl, sym, subst, ◌⊎◌, inl, inr, Bool, true, false, not, ◌&&◌, List, [], ◌∷◌,
  arith, length, any, any-true, any_intro, contains, insert, contains-insert, Distinct, Pairs,
  Pairs-compose, Pairs-refl, map-Pairs, Pairs-map, Pairs-modify_by_all, Bool-cases, if◌then◌else◌,
  ◌==◌, ==_iff,
}
use bastet_workstation.Graph.{GraphNode, GraphNodeExecution, execution_key}
use bastet_workstation.Graph.Execution.{execution_ids}
use bastet_workstation.Graph.Validate.Paths.{
  Edge, edge, DependsOn, DependsOn-trans, direct, through, IsAcyclic,
}
use bastet_workstation.Graph.Block.{
  Sweep, block_pending, reach_node, sweep, sweep_loop, fresh_round, first_sweep, block_nodes,
}
use bastet_workstation.Graph.Block.Fixpoint.{
  unreached-le, reaches, reach_node_eq, reach_node_old, IsClosed, sweep_loop-IsClosed,
}

module _ (nodes : List GraphNode) (from : ℕ) where
  -- The set holds the given node and nodes that depend on it.
  abbrev IsReached : List ℕ → Type 0
  IsReached s = (x : ℕ) → contains s x ≡ true → (x ≡ from) ⊎ DependsOn nodes x from

  Edge-to_reached :
      {x b : ℕ} → Edge nodes x b → (b ≡ from) ⊎ DependsOn nodes b from → DependsOn nodes x from
  Edge-to_reached {x} e (inl same) = direct (subst (Edge nodes x) same e)
  Edge-to_reached e (inr p) = DependsOn-trans (direct e) p

  insert-IsReached :
      (n : GraphNode) (s : List ℕ)
      → Memᴰ n nodes
      → any (contains s) n.needs ≡ true
      → IsReached s
      → IsReached (insert n.id s)
  insert-IsReached n s m needy r x h = elim (Bool-cases (n.id == x)) [
    | inl same ↦
        let (b, needs, inside) = any-true (contains s) n.needs needy in
        inr (Edge-to_reached (edge n m ((==_iff n.id x).0 same) needs) (r b inside))
    | inr other ↦ r x (ground (arith, contains-insert n.id x s))
  ]

  module _ (executions : List GraphNodeExecution)
      (unique : Distinct (execution_ids executions)) where
    abbrev is_hit : List ℕ → ℕ → Bool
    is_hit s id = contains s id && not (id == from)

    abbrev Hit : List ℕ → GraphNodeExecution → GraphNodeExecution → Type 0
    Hit s x y = y ≡ (if is_hit s x.node_id then block_pending x else x)

    record Tracks (w : Sweep) : Type 0 where
      from_in : contains w.reached from ≡ true
      reached_ok : IsReached w.reached
      hits : Pairs (Hit w.reached) executions w.executions

    Hit-next :
        (s : List ℕ) (n : GraphNode) (x y z : GraphNodeExecution)
        → contains s from ≡ true
        → contains s n.id ≡ false
        → Hit s x y
        → z ≡ (if y.node_id == n.id then block_pending y else y)
        → Hit (insert n.id s) x z
    Hit-next s n x y z inside new h k =
        let same : y.node_id ≡ x.node_id = ground arith in
        elim (Bool-cases (x.node_id == n.id)) [
          | inl at ↦ ground (arith, contains-insert n.id x.node_id s)
          | inr off ↦ ground (arith, contains-insert n.id x.node_id s)
        ]

    executions_ids :
        (s : List ℕ) (xs ys : List GraphNodeExecution)
        → Pairs (Hit s) xs ys
        → execution_ids ys ≡ execution_ids xs
    executions_ids s = map-Pairs execution_key (Hit s) (λ x y h. ground arith)

    reach_node-Tracks :
        (n : GraphNode) (w : Sweep) → Memᴰ n nodes → Tracks w → Tracks (reach_node n w)
    reach_node-Tracks n w m t = elim (Bool-cases (reaches n w)) [
      | inl new ↦ subst Tracks (sym (reach_node_eq n w new)) (record {
        from_in = ground (arith, contains-insert n.id from w.reached, t.from_in);
        reached_ok = insert-IsReached n w.reached m (ground arith) t.reached_ok;
        hits =
            Pairs-compose (Hit w.reached) _ (Hit (insert n.id w.reached))
              (λ x y z h k. Hit-next w.reached n x y z t.from_in (ground arith) h k) executions
              w.executions _ t.hits
              (Pairs-modify_by_all execution_key n.id block_pending w.executions (
                subst Distinct (sym (executions_ids w.reached executions w.executions t.hits))
                  unique));
      })
      | inr old ↦ subst Tracks (sym (reach_node_old n w old)) t
    ]

    sweep-Tracks :
        (rest : List GraphNode) (w : Sweep)
        → ((n : GraphNode) → Memᴰ n rest → Memᴰ n nodes)
        → Tracks w
        → Tracks (sweep rest w)
    unfolding sweep
    sweep-Tracks [] w sub t = t
    sweep-Tracks (n ∷ rest) w sub t =
        sweep-Tracks rest (reach_node n w) (λ k m. sub k (Memᴰ.tail m))
          (reach_node-Tracks n w (sub n (Memᴰ.head refl)) t)

    fresh-Tracks : (w : Sweep) → Tracks w → Tracks (fresh_round w)
    fresh-Tracks w t = record { from_in = t.from_in; reached_ok = t.reached_ok; hits = t.hits }

    sweep_loop-Tracks : (fuel : ℕ) (w : Sweep) → Tracks w → Tracks (sweep_loop fuel nodes w)
    unfolding sweep_loop
    sweep_loop-Tracks zero w t = t
    sweep_loop-Tracks (suc fuel) w t =
        let w' = sweep nodes (fresh_round w) in
        let once = sweep-Tracks nodes (fresh_round w) (λ n m. m) (fresh-Tracks w t) in
        let more = sweep_loop-Tracks fuel w' once in
        elim (Bool-cases w'.changed) [
          | inl loud ↦ rw (loud, sweep_loop) more
          | inr done ↦ rw (done, sweep_loop) once
        ]

    first_hits : (xs : List GraphNodeExecution) → Pairs (Hit (from ∷ [])) xs xs
    first_hits = Pairs-refl (Hit (from ∷ [])) (λ x. ground arith)

    first-Tracks : Tracks (first_sweep from executions)
    first-Tracks = record {
      from_in = ground arith;
      reached_ok = λ x h. inl (ground arith);
      hits = first_hits executions;
    }

    -- A closed set that holds the node holds all that depend on it.
    closed_above :
        (s : List ℕ) {x b : ℕ}
        → IsClosed nodes s
        → DependsOn nodes x b
        → contains s b ≡ true
        → contains s x ≡ true
    closed_above s {x} {b} c (direct (edge n m at needs)) inside =
        subst (λ k. contains s k ≡ true) at (c n m (any_intro (contains s) n.needs b needs inside))
    closed_above s {b = b} c (through p (edge n m at needs)) inside = closed_above s c p (
        subst (λ k. contains s k ≡ true) at (c n m (any_intro (contains s) n.needs b needs inside)))

    -- A pending node that depends on the given one, through any chain of needs, becomes blocked; all
    -- other records stay as they are.
    abbrev pub BlockedExactly : GraphNodeExecution → GraphNodeExecution → Type 0
    BlockedExactly x y =
        (DependsOn nodes x.node_id from → y ≡ block_pending x)
        × (¬ DependsOn nodes x.node_id from → y ≡ x)

    Hit-BlockedExactly :
        (s : List ℕ)
        → IsAcyclic nodes
        → IsReached s
        → contains s from ≡ true
        → IsClosed nodes s
        → (x y : GraphNodeExecution) → Hit s x y
        → BlockedExactly x y
    Hit-BlockedExactly s acyclic reached start closed x y h = (
      λ p.
          let inside = closed_above s closed p start in
          let apart : (x.node_id == from) ≡ false = not_itself p in ground arith,
      λ free. elim (Bool-cases (is_hit s x.node_id)) [
        | inl hit ↦ elim (reached x.node_id (ground arith)) [
          | inl same ↦ absurd (ground arith)
          | inr p ↦ absurd (free p)
        ]
        | inr miss ↦ ground arith
      ],
    )
      where
        not_itself : DependsOn nodes x.node_id from → (x.node_id == from) ≡ false
        not_itself p = elim (Bool-cases (x.node_id == from)) [
          | inl e ↦
              let same : x.node_id ≡ from = ground arith in
              absurd (acyclic from (subst (λ k. DependsOn nodes k from) same p))
          | inr e ↦ e
        ]

    pub block_nodes_exact :
        IsAcyclic nodes → Pairs BlockedExactly executions (block_nodes nodes from executions)
    unfolding block_nodes
    block_nodes_exact acyclic =
        let last = sweep_loop (suc (length nodes)) nodes (first_sweep from executions) in
        let t = sweep_loop-Tracks (suc (length nodes)) (first_sweep from executions) first-Tracks in
        let closed =
          sweep_loop-IsClosed nodes (suc (length nodes)) (first_sweep from executions)
            (omega (arith, unreached-le nodes (from ∷ []))) in
        Pairs-map (Hit last.reached) BlockedExactly
          (Hit-BlockedExactly last.reached acyclic t.reached_ok t.from_in closed) executions _
          t.hits
