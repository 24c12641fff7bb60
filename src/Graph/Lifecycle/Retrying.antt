-- ===== src/Graph/Lifecycle/Retrying.antt =====
-- `retry_failed` ends, and reopens blocked nodes until none is left without a reason.
use bastet_workstation.Common.{
  ℕ, zero, suc, ◌<◌, ◌≡◌, refl, sym, ap, subst, ◌∙◌, ◌⊎◌, inl, inr, true, false, some, List, [],
  ◌∷◌, arith, length, length-map, u64_next, contains, Distinct, Pairs-compose, Pairs-modify_by,
  modify_by, map-modify_by, List-cases, Bool-cases, Option-cases,
}
use bastet_workstation.Graph.{
  GraphNode, GraphNodeState, pending, GraphNodeExecution, find_execution, execution_key, is_blocked,
}
use bastet_workstation.Graph.Execution.{execution_ids}
use bastet_workstation.Graph.Retry.{reopen, reopened_ids, reopen_each, Round, settled, reopen_loop}
use bastet_workstation.Common.{ok, err}
use bastet_workstation.Graph.{GraphExecution, invalid_execution, failed, is_failed}
use bastet_workstation.Graph.Retry.{retry_failed}
use bastet_workstation.Graph.Lifecycle.{IsReady, Step, Moves, Moves-refl, Evolves, Evolves-refl}
use bastet_workstation.Graph.Validate.{ids}
use bastet_workstation.Graph.Lifecycle.Staying.{Stays, Stays-round}
use bastet_workstation.Graph.Lifecycle.Reopening.{
  Reopens, AllReopen, AllReopen-refl, AllReopen-trans, AllReopen-ids, CanReopen, round_shrinks,
  blocked_record, reopened_ids-blocked, count_blocked, count_blocked-le, can_reopen,
}

-- The loop settles: it meets no missing node, when it stops nothing is left to reopen, and a node that
-- has a reason then was not reopened.
abbrev pub Settles : List GraphNode → List GraphNodeExecution → Round → Type 0
Settles graph nodes r =
    (nodes' : List GraphNodeExecution) × (r ≡ settled nodes')
    × AllReopen nodes nodes'
    × (reopened_ids nodes' graph ≡ [])
    × (Distinct (ids graph) → Stays graph nodes nodes')

reopen_loop_stop :
    (fuel : ℕ) (graph : List GraphNode) (nodes : List GraphNodeExecution)
    → reopened_ids nodes graph ≡ []
    → reopen_loop (suc fuel) graph nodes ≡ settled nodes
unfolding reopen_loop
reopen_loop_stop fuel graph nodes h = rw (h, reopen_loop)

reopen_loop_next :
    (fuel : ℕ) (graph : List GraphNode) (nodes : List GraphNodeExecution) (id : ℕ) (ids : List ℕ)
    → reopened_ids nodes graph ≡ id ∷ ids
    → (reopen_each (id ∷ ids) nodes).1 ≡ true
    → reopen_loop (suc fuel) graph nodes ≡ reopen_loop fuel graph (reopen_each (id ∷ ids) nodes).0
unfolding reopen_loop
reopen_loop_next fuel graph nodes id ids h found = rw (h, found, reopen_loop)

able :
    (nodes : List GraphNodeExecution) (id : ℕ)
    → ((x : GraphNodeExecution) × (find_execution id nodes ≡ some x) × (is_blocked x.state ≡ true))
    → CanReopen nodes id
able nodes id (x, found, is_one) = (x, found, ground arith)

pub reopen_loop-Settles :
    (fuel : ℕ) (graph : List GraphNode) (nodes : List GraphNodeExecution)
    → Distinct (execution_ids nodes)
    → count_blocked nodes < fuel
    → Settles graph nodes (reopen_loop fuel graph nodes)
reopen_loop-Settles zero graph nodes d room = absurd (omega arith)
reopen_loop-Settles (suc fuel) graph nodes d room = elim (List-cases (reopened_ids nodes graph)) [
  | inl nothing ↦ (
    nodes,
    reopen_loop_stop fuel graph nodes nothing,
    AllReopen-refl nodes,
    nothing,
    λ g n z m found h. found,
  )
  | inr (id, rest, some_left) ↦
      let listed = λ (j : ℕ) (m : contains (id ∷ rest) j ≡ true).
        reopened_ids-blocked nodes graph j (ap (λ l. contains l j) some_left ∙ m) in
      let (x, found, is_one) = blocked_record nodes id d (listed id (ground arith)) in
      let nodes' = (reopen_each (id ∷ rest) nodes).0 in
      let (all_found, once, fewer) =
        round_shrinks nodes id rest (λ j m. able nodes j (blocked_record nodes j d (listed j m))) x
          found is_one in
      let d' = subst Distinct (sym (AllReopen-ids nodes nodes' once)) d in
      let (last, e, more, done, stays) = reopen_loop-Settles fuel graph nodes' d' (omega arith) in
      let all = AllReopen-trans _ _ _ once more in
      let d_last = subst Distinct (sym (AllReopen-ids nodes last all)) d in
      (
        last,
        reopen_loop_next fuel graph nodes id rest some_left all_found ∙ e,
        all,
        done,
        λ g. Stays-round graph nodes last id rest g d d_last all some_left (stays g),
      )
]

reopen_step : (ready : Type 0) (s : GraphNodeState) → can_reopen s ≡ true → Step ready s pending
reopen_step ready GraphNodeState.blocked h = Step.reopen
reopen_step ready pending h = Step.stay
reopen_step ready _ h = absurd (cc h)

retry_step : (ready : Type 0) (s : GraphNodeState) → is_failed s ≡ true → Step ready s pending
retry_step ready failed h = Step.retry
retry_step ready _ h = absurd (cc h)

-- The record of the retried node, or one that the first write left.
abbrev Retried : GraphNodeExecution → GraphNodeExecution → Type 0
Retried x y = (y ≡ x) ⊎ ((is_failed x.state ≡ true) × (y ≡ reopen x))

Retried-Moves :
    (e : GraphExecution) (x y z : GraphNodeExecution) → Retried x y → Reopens y z → Moves e x z
Retried-Moves e x y z (inl same) (inl still) =
    subst (Moves e x) (sym (still ∙ same)) (Moves-refl e x)
Retried-Moves e x y z (inl same) (inr (can, id, state, owner)) = record {
  same_id = id ∙ ap (λ (u : GraphNodeExecution). u.node_id) same;
  step = rw state (reopen_step (IsReady e x.node_id) x.state (ground arith));
  valid = ground arith;
}
Retried-Moves e x y z (inr (was, same)) (inl still) = record {
  same_id = ground arith;
  step = rw (still, same) (retry_step (IsReady e x.node_id) x.state was);
  valid = ground arith;
}
Retried-Moves e x y z (inr (was, same)) (inr (can, id, state, owner)) = record {
  same_id = ground arith;
  step = rw state (retry_step (IsReady e x.node_id) x.state was);
  valid = ground arith;
}

-- What a successful retry leaves: the failed node's record and the others, reopened or not, and no
-- blocked node without a reason.
abbrev pub RetryLeaves : GraphExecution → ℕ → GraphExecution → Type 0
RetryLeaves e id e' =
    (nodes' : List GraphNodeExecution) × (e'
      ≡ record e { nodes = nodes'; revision = u64_next e.revision })
    × AllReopen (modify_by execution_key id reopen e.nodes) nodes'
    × (reopened_ids nodes' e.graph.nodes ≡ [])
    × (Distinct (ids e.graph.nodes)
        → Stays e.graph.nodes (modify_by execution_key id reopen e.nodes) nodes')

retry_ids :
    (e : GraphExecution) (id : ℕ)
    → execution_ids (modify_by execution_key id reopen e.nodes) ≡ execution_ids e.nodes
retry_ids e id = map-modify_by execution_key id reopen (λ x. refl) e.nodes

retry_room :
    (e : GraphExecution) (id : ℕ)
    → count_blocked (modify_by execution_key id reopen e.nodes) < suc (length e.nodes)
retry_room e id = omega (
  arith,
  count_blocked-le (modify_by execution_key id reopen e.nodes),
  ap length (retry_ids e id),
  length-map execution_key e.nodes,
  length-map execution_key (modify_by execution_key id reopen e.nodes),
)

-- The retry of a failed node succeeds.
pub retry_failed_succeeds :
    (e : GraphExecution) (id : ℕ) (x : GraphNodeExecution)
    → Distinct (execution_ids e.nodes)
    → find_execution id e.nodes ≡ some x
    → is_failed x.state ≡ true
    → (e' : GraphExecution) × (retry_failed e id ≡ (e', ok tt)) × RetryLeaves e id e'
unfolding retry_failed
retry_failed_succeeds e id x d found was =
    let nodes = modify_by execution_key id reopen e.nodes in
    let (nodes', r, reopened, done, stays) =
      reopen_loop-Settles (suc (length e.nodes)) e.graph.nodes nodes
        (subst Distinct (sym (retry_ids e id)) d) (retry_room e id) in
    (
      record e { nodes = nodes'; revision = u64_next e.revision },
      rw (found, was, r),
      (nodes', refl, reopened, done, stays),
    )

-- A node that is unknown or has not failed cannot be retried.
pub retry_failed_refused :
    (e : GraphExecution) (id : ℕ)
    → ((x : GraphNodeExecution) → find_execution id e.nodes ≡ some x → is_failed x.state ≡ false)
    → retry_failed e id ≡ (e, err invalid_execution)
unfolding retry_failed
retry_failed_refused e id h = elim (Option-cases (find_execution id e.nodes)) [
  | inl missing ↦ rw missing
  | inr (x, found) ↦ rw (found, h x found)
]

RetryLeaves-Evolves :
    (e : GraphExecution) (id : ℕ) (x : GraphNodeExecution) (e' : GraphExecution)
    → find_execution id e.nodes ≡ some x
    → is_failed x.state ≡ true
    → RetryLeaves e id e'
    → Evolves e e'
RetryLeaves-Evolves e id x e' found was (nodes', result, reopened, done, stays) =
    subst (Evolves e) (sym result) (record {
      same_graph = refl;
      same_outputs = refl;
      moves =
          Pairs-compose Retried Reopens (Moves e) (Retried-Moves e) e.nodes
            (modify_by execution_key id reopen e.nodes) nodes'
            (Pairs-modify_by execution_key Retried id reopen (λ y. inl refl) e.nodes
              (λ y found_y. inr (ground arith, refl)))
            reopened;
    })

pub retry_failed-Evolves :
    (e : GraphExecution) (id : ℕ)
    → Distinct (execution_ids e.nodes)
    → Evolves e (retry_failed e id).0
retry_failed-Evolves e id d = elim (Option-cases (find_execution id e.nodes)) [
  | inl missing ↦ rw (retry_failed_refused e id (λ x found. absurd (ground arith))) (Evolves-refl e)
  | inr (x, found) ↦ elim (Bool-cases (is_failed x.state)) [
    | inl was ↦
        let (e', result, leaves) = retry_failed_succeeds e id x d found was in
        rw result (RetryLeaves-Evolves e id x e' found was leaves)
    | inr other ↦ rw (retry_failed_refused e id (λ y found_y. ground arith)) (Evolves-refl e)
  ]
]
