-- ===== src/Graph/Lifecycle/Claims.antt =====
-- `claim_ready` and `reconcile_after_restart` along the diagram.
use bastet_workstation.Common.{
  ℕ, ◌≡◌, refl, sym, ◌⊎◌, inl, inr, String, true, false, not, ◌||◌, some, none, List, [], ◌∷◌, ◌++◌,
  arith, length, Pairs, Pairs-refl, Bool-cases, Option-cases, ◌==◌, Result, err, is_blank, subst,
}
use bastet_workstation.Graph.{
  GraphNode, GraphNodeState, running, GraphNodeExecution, GraphExecution, GraphError,
  invalid_execution, find_node, is_pending, is_running,
}
use bastet_workstation.Graph.Execution.{reconcile_nodes, reconcile_after_restart}
use bastet_workstation.Graph.Transitions.{
  needs_succeeded, give_to, push_node, claim_loop, claim_ready,
}
use bastet_workstation.Graph.Lifecycle.{IsReady, Step, Moves, Moves-refl, Evolves}
use bastet_workstation.Graph.Lifecycle.Writing.{IsReady-of_needs, claim_step}

running_step :
    (ready : Type 0) (s : GraphNodeState)
    → is_running s ≡ true
    → Step ready s GraphNodeState.uncertain
running_step ready running h = Step.lose
running_step ready _ h = absurd (cc h)

-- One round of the loop of `claim_ready`.
module _ (nodes : List GraphNode) (all_nodes : List GraphNodeExecution) (owner : String)
    (limit : ℕ) where
  abbrev pub ClaimCases : List ℕ → GraphNodeExecution → List GraphNodeExecution → Type 0
  ClaimCases claimed x xs =
      let now = claim_loop nodes all_nodes owner limit claimed (x ∷ xs) in
      let later = claim_loop nodes all_nodes owner limit claimed xs in
      let further = claim_loop nodes all_nodes owner limit (claimed ++ x.node_id ∷ []) xs in
      (((length claimed == limit || not (is_pending x.state)) ≡ true) × (now ≡ push_node x later))
      ⊎ ((is_pending x.state ≡ true)
          × ((length claimed == limit) ≡ false)
          × (find_node x.node_id nodes ≡ none)
          × (now ≡ (x ∷ xs, err invalid_execution)))
      ⊎ ((n : GraphNode) × (is_pending x.state ≡ true)
          × ((length claimed == limit) ≡ false)
          × (find_node x.node_id nodes ≡ some n)
          × (needs_succeeded all_nodes n ≡ true)
          × (now ≡ push_node (give_to owner x) further))
      ⊎ ((n : GraphNode) × (is_pending x.state ≡ true)
          × ((length claimed == limit) ≡ false)
          × (find_node x.node_id nodes ≡ some n)
          × (needs_succeeded all_nodes n ≡ false)
          × (now ≡ push_node x later))

  pub claim_loop_cases :
      (claimed : List ℕ) (x : GraphNodeExecution) (xs : List GraphNodeExecution)
      → ClaimCases claimed x xs
  unfolding claim_loop
  claim_loop_cases claimed x xs =
      elim (Bool-cases (length claimed == limit || not (is_pending x.state))) [
        | inl skip ↦ inl (skip, rw (skip, claim_loop))
        | inr open' ↦ elim (Option-cases (find_node x.node_id nodes)) [
          | inl missing ↦
              inr (inl (ground arith, ground arith, missing, rw (open', missing, claim_loop)))
          | inr (n, found) ↦ elim (Bool-cases (needs_succeeded all_nodes n)) [
            | inl met ↦ inr (
                inr (
                  inl (
                    n,
                    ground arith,
                    ground arith,
                    found,
                    met,
                    rw (open', found, met, claim_loop),
                  )))
            | inr unmet ↦ inr (
                inr (
                  inr (
                    n,
                    ground arith,
                    ground arith,
                    found,
                    unmet,
                    rw (open', found, unmet, claim_loop),
                  )))
          ]
        ]
      ]

module _ (e : GraphExecution) (owner : String) (limit : ℕ) where
  abbrev looped : List ℕ → List GraphNodeExecution → List GraphNodeExecution
  looped claimed xs = (claim_loop e.graph.nodes e.nodes owner limit claimed xs).0

  give_to-Moves :
      (x : GraphNodeExecution) (n : GraphNode)
      → is_pending x.state ≡ true
      → find_node x.node_id e.graph.nodes ≡ some n
      → needs_succeeded e.nodes n ≡ true
      → Moves e x (give_to owner x)
  give_to-Moves x n idle found met = record {
    same_id = refl;
    step = claim_step x.state idle (IsReady-of_needs e x.node_id n found met);
    valid = λ v. refl;
  }

  claim_loop-Moves :
      (claimed : List ℕ) (xs : List GraphNodeExecution) → Pairs (Moves e) xs (looped claimed xs)
  claim_loop-Moves claimed [] = unfold claim_loop in tt
  claim_loop-Moves claimed (x ∷ xs) =
      let kept = claim_loop-Moves claimed xs in
      let given = claim_loop-Moves (claimed ++ x.node_id ∷ []) xs in
      let moving = λ (r : List GraphNodeExecution × Result (List ℕ) GraphError).
        Pairs (Moves e) (x ∷ xs) r.0 in
      elim (claim_loop_cases e.graph.nodes e.nodes owner limit claimed x xs) [
        | inl (skipped, same) ↦ subst moving (sym same) (Moves-refl e x, kept)
        | inr (inl (idle, room, missing, same)) ↦
            subst moving (sym same) (Pairs-refl (Moves e) (Moves-refl e) (x ∷ xs))
        | inr (inr (inl (n, idle, room, found, met, same))) ↦
            subst moving (sym same) (give_to-Moves x n idle found met, given)
        | inr (inr (inr (n, idle, room, found, unmet, same))) ↦
            subst moving (sym same) (Moves-refl e x, kept)
      ]

  -- Also when it ends in an error.
  pub claim_ready-Evolves : Evolves e (claim_ready e owner limit).0
  unfolding claim_ready
  claim_ready-Evolves = elim (Bool-cases (is_blank owner || limit == 0)) [
    | inl refused ↦
        rw (refused, claim_ready)
          (record {
            same_graph = refl;
            same_outputs = refl;
            moves = Pairs-refl (Moves e) (Moves-refl e) e.nodes;
          })
    | inr accepted ↦
        rw (accepted, claim_ready)
          (record { same_graph = refl; same_outputs = refl; moves = claim_loop-Moves [] e.nodes })
  ]

reconcile_nodes-Moves :
    (e : GraphExecution) (xs : List GraphNodeExecution) → Pairs (Moves e) xs (reconcile_nodes xs).0
unfolding reconcile_nodes
reconcile_nodes-Moves e [] = tt
reconcile_nodes-Moves e (x ∷ xs) =
    let rest = reconcile_nodes-Moves e xs in
    elim (Bool-cases (is_running x.state)) [
      | inl active ↦
          rw (active, reconcile_nodes)
            (
              record {
                same_id = refl;
                step = running_step (IsReady e x.node_id) x.state active;
                valid = λ v. refl;
              },
              rest,
            )
      | inr other ↦ rw (other, reconcile_nodes) (Moves-refl e x, rest)
    ]

pub reconcile_after_restart-Evolves : (e : GraphExecution) → Evolves e (reconcile_after_restart e).0
unfolding reconcile_after_restart
reconcile_after_restart-Evolves e = record {
  same_graph = refl;
  same_outputs = refl;
  moves = reconcile_nodes-Moves e e.nodes;
}
