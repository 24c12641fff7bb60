-- ===== src/Graph/Results/Retried.antt =====
-- `retry_failed` on a valid execution.
use mathlib.Core.List.{Memᴰ}
use mathlib.Core.List.Memᴰ
use bastet_workstation.Common.{
  ℕ, ◌≡◌, refl, sym, ap, subst, ◌∙◌, ◌⊎◌, inl, inr, String, true, false, ◌||◌, some, none, List, [],
  ◌∷◌, arith, any, any-true, Pairs, Pairs-compose, Pairs-modify_by, modify_by, find_by-Pairs,
  Pairs-find_by, find_by-modify_by_self, find_by-modify_by_other, map-Pairs, any-false, Distinct,
  Bool-cases, ◌==◌, Option-cases, ok, Result,
}
use bastet_workstation.Identity.{GraphNodeId}
use bastet_workstation.Graph.{
  GraphNode, pending, GraphNodeExecution, GraphExecution, WorkflowGraph, GraphError, find_execution,
  execution_key, is_failed, is_blocked, is_pending,
}
use bastet_workstation.Graph.Execution.{validate, execution_ids}
use bastet_workstation.Graph.Transitions.{state_of}
use bastet_workstation.Graph.Retry.{
  reopen, found_blocked, found_blocking, blocks, reopened_ids, retry_failed,
}
use bastet_workstation.Graph.Lifecycle.Reopening.{Reopens, Reopens-id, state_of-find}
use bastet_workstation.Graph.Validate.Spec.{validate_iff_IsWellFormed}
use bastet_workstation.Graph.Lifecycle.Retrying.{
  retry_failed_succeeds, retry_failed-Evolves, RetryLeaves,
}
use bastet_workstation.Graph.History.Outputs.{validate-IsValid}

-- The record stays, or was failed, blocked or pending and is now pending without an owner.
abbrev pub RetryEffect : GraphNodeExecution → GraphNodeExecution → Type 0
RetryEffect x y =
    (y ≡ x)
    ⊎ (((is_failed x.state || is_blocked x.state || is_pending x.state) ≡ true)
        × (y.node_id ≡ x.node_id)
        × (y.state ≡ pending)
        × (y.owner ≡ none))

abbrev First : GraphNodeExecution → GraphNodeExecution → Type 0
First x y = (y ≡ x) ⊎ ((is_failed x.state ≡ true) × (y ≡ reopen x))

effect : (x y z : GraphNodeExecution) → First x y → Reopens y z → RetryEffect x z
effect x y z p q = ground arith

effect-id : (x y : GraphNodeExecution) → RetryEffect x y → y.node_id ≡ x.node_id
effect-id x y p = ground arith

unmoved : (u w : GraphNodeExecution) → RetryEffect u w → blocks w.state ≡ true → w ≡ u
unmoved u w r b = ground arith

reason :
    (nodes : List GraphNodeExecution) (graph : List GraphNode) {n : GraphNode}
    → reopened_ids nodes graph ≡ []
    → Memᴰ n graph
    → found_blocked (state_of n.id nodes) ≡ true
    → any (λ d. found_blocking (state_of d nodes)) n.needs ≡ true
unfolding reopened_ids
reason nodes [] h m b = elim m [ ]
reason nodes (x ∷ graph) {n} h m b = elim (Memᴰ.cases_cons m) [
  | inl e ↦ ground arith
  | inr t ↦ reason nodes graph (ground arith) t b
]

-- No node is blocked without a need that failed, was cancelled or is blocked itself.
abbrev pub HasReasons : GraphExecution → Type 0
HasReasons e =
    (n : GraphNode)
    → Memᴰ n e.graph.nodes
    → found_blocked (state_of n.id e.nodes) ≡ true
    → any (λ d. found_blocking (state_of d e.nodes)) n.needs ≡ true

-- A blocked node that is left with such a need keeps its record.
abbrev pub KeepsBlocked : GraphExecution → GraphExecution → Type 0
KeepsBlocked e e' =
    (n : GraphNode) (z : GraphNodeExecution)
    → Memᴰ n e.graph.nodes
    → find_execution n.id e.nodes ≡ some z
    → is_blocked z.state ≡ true
    → any (λ d. found_blocking (state_of d e'.nodes)) n.needs ≡ true
    → find_execution n.id e'.nodes ≡ some z

module _ (digest : String → String) (e : GraphExecution) (id : GraphNodeId) (x : GraphNodeExecution)
    (h : validate digest e ≡ ok tt) (found : find_execution id e.nodes ≡ some x)
    (was : is_failed x.state ≡ true) where
  leaves-effect : (e' : GraphExecution) → RetryLeaves e id e' → Pairs RetryEffect e.nodes e'.nodes
  leaves-effect e' (nodes', result, reopened, done, stays) =
      subst (λ (z : GraphExecution). Pairs RetryEffect e.nodes z.nodes) (sym result)
        (Pairs-compose First Reopens RetryEffect effect e.nodes
          (modify_by execution_key id reopen e.nodes) nodes'
          (Pairs-modify_by execution_key First id reopen (λ y. inl refl) e.nodes
            (λ y found_y. inr (ground arith, refl)))
          reopened)

  leaves-reasons : (e' : GraphExecution) → RetryLeaves e id e' → HasReasons e'
  leaves-reasons e' (nodes', result, reopened, done, stays) =
      subst HasReasons (sym result) (λ n m b. reason nodes' e.graph.nodes done m b)

  leaves-blocked : (e' : GraphExecution) → RetryLeaves e id e' → KeepsBlocked e e'
  leaves-blocked e' (nodes', result, reopened, done, stays) =
      let v = validate-IsValid digest e h in
      let unique = ((validate_iff_IsWellFormed e.graph).0 v.graph_valid).unique in
      subst (KeepsBlocked e) (sym result) (λ n z m found_z stuck left.
        let apart : (id == n.id) ≡ false = elim (Bool-cases (id == n.id)) [
          | inl same ↦ absurd (ground arith)
          | inr other ↦ other
        ] in
        stays unique n z m
          (find_by-modify_by_other execution_key id reopen (λ y. refl) n.id e.nodes apart ∙ found_z)
          left)

  leaves-pending :
      (e' : GraphExecution)
      → RetryLeaves e id e'
      → (y : GraphNodeExecution) × (find_execution id e'.nodes ≡ some y) × (y.state ≡ pending)
  leaves-pending e' (nodes', result, reopened, done, stays) =
      let written = find_by-modify_by_self execution_key id reopen (λ z. refl) e.nodes found in
      let (y, found_y, r) =
        Pairs-find_by execution_key Reopens Reopens-id id
          (modify_by execution_key id reopen e.nodes) nodes' reopened written in
      (y, ap (λ (z : GraphExecution). find_execution id z.nodes) result ∙ found_y, ground arith)

  -- In an execution that `validate` accepts, the retry of a failed node succeeds. The node is pending
  -- again; every record stays, or was failed, blocked or pending and is now pending without an owner;
  -- no node is left blocked without a need that is failed, cancelled or blocked; and a blocked node of
  -- the graph that is left with such a need keeps its record.
  pub retry_failed_reopens :
      (e' : GraphExecution) × (retry_failed e id ≡ (e', ok tt))
      × Pairs RetryEffect e.nodes e'.nodes
      × HasReasons e'
      × KeepsBlocked e e'
      × ((y : GraphNodeExecution) × (find_execution id e'.nodes ≡ some y) × (y.state ≡ pending))
  retry_failed_reopens =
      let v = validate-IsValid digest e h in
      let (e', result, leaves) = retry_failed_succeeds e id x v.consistent.unique found was in
      (
        e',
        result,
        leaves-effect e' leaves,
        leaves-reasons e' leaves,
        leaves-blocked e' leaves,
        leaves-pending e' leaves,
      )

  same_graph : (e' : GraphExecution) → retry_failed e id ≡ (e', ok tt) → e'.graph ≡ e.graph
  same_graph e' result =
      let v = validate-IsValid digest e h in
      let w = retry_failed-Evolves e id v.consistent.unique in
      ap (λ (r : GraphExecution × Result (Unit {0}) GraphError). r.0.graph) (sym result)
      ∙ w.same_graph

  -- What blocks others after the retry did so before.
  still_blocking :
      (e' : GraphExecution)
      → Pairs RetryEffect e.nodes e'.nodes
      → Distinct (execution_ids e'.nodes)
      → (d : ℕ) → found_blocking (state_of d e'.nodes) ≡ true
      → found_blocking (state_of d e.nodes) ≡ true
  still_blocking e' effects unique d b =
      let v = validate-IsValid digest e h in
      elim (Option-cases (find_execution d e'.nodes)) [
        | inl missing ↦ absurd (ground (arith, state_of-find d e'.nodes unique))
        | inr (w, found_w) ↦
            let (u, found_u, r) =
              find_by-Pairs execution_key RetryEffect effect-id d e.nodes e'.nodes effects
                found_w in
            let blocking_w : blocks w.state ≡ true =
              ground (arith, state_of-find d e'.nodes unique) in
            let same : w ≡ u = unmoved u w r blocking_w in
            ground (arith, state_of-find d e.nodes v.consistent.unique)
      ]

  -- In an execution that `validate` accepts, the retry of one failed node also reopens every other blocked node whose needs are not failed,
  -- cancelled or blocked, whether or not it depends on the retried node.
  pub retry_failed_reopens_others :
      (n : GraphNode) (z y : GraphNodeExecution)
      → Memᴰ n e.graph.nodes
      → find_execution n.id e.nodes ≡ some z
      → is_blocked z.state ≡ true
      → any (λ d. found_blocking (state_of d e.nodes)) n.needs ≡ false
      → find_execution n.id (retry_failed e id).0.nodes ≡ some y
      → y.state ≡ pending
  retry_failed_reopens_others n z y inside found_z stuck free found_y =
      let v = validate-IsValid digest e h in
      let (e', result, effects, reasons, kept, again) = retry_failed_reopens in
      let unique =
        subst Distinct
          (sym (map-Pairs execution_key RetryEffect effect-id e.nodes e'.nodes effects))
          v.consistent.unique in
      let now : find_execution n.id e'.nodes ≡ some y =
        ap (λ (r : GraphExecution × Result (Unit {0}) GraphError). find_execution n.id r.0.nodes)
          (sym result)
        ∙ found_y in
      let (y', found_y', r) =
        Pairs-find_by execution_key RetryEffect effect-id n.id e.nodes e'.nodes effects found_z in
      let same : y' ≡ y = ground arith in
      elim r [
        | inl still ↦
            let blocked_now : found_blocked (state_of n.id e'.nodes) ≡ true =
              ground (arith, state_of-find n.id e'.nodes unique) in
            let (d, needs, blocking) =
              any-true (λ d. found_blocking (state_of d e'.nodes)) n.needs
                (reasons n
                  (subst (λ (g : WorkflowGraph). Memᴰ n g.nodes) (sym (same_graph e' result))
                    inside)
                  blocked_now) in
            let before = still_blocking e' effects unique d blocking in
            let clear = any-false (λ k. found_blocking (state_of k e.nodes)) n.needs d free needs in
            absurd (ground arith)
        | inr (was_open, id_kept, pending_now, free_now) ↦ ground arith
      ]
