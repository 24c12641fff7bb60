-- ===== src/Graph/Lifecycle/Staying.antt =====
-- A blocked node that still has a reason is not reopened by a round of `retry_failed`.
use mathlib.Core.List.{Memᴰ}
use mathlib.Core.List.Memᴰ
use bastet_workstation.Common.{
  ℕ, ◌≡◌, refl, subst, ◌∙◌, inl, inr, Bool, true, false, some, List, [], ◌∷◌, arith, any, contains,
  Distinct, find_by-Pairs, find_by-modify_by_other, Bool-cases, Option-cases, ◌==◌, modify_by,
}
use bastet_workstation.Graph.{GraphNode, GraphNodeExecution, find_execution, execution_key}
use bastet_workstation.Graph.Validate.{ids}
use bastet_workstation.Graph.Validate.Paths.{contains-ids}
use bastet_workstation.Graph.Execution.{execution_ids}
use bastet_workstation.Graph.Transitions.{state_of}
use bastet_workstation.Graph.Retry.{reopen, blocks, found_blocking, reopened_ids, reopen_each}
use bastet_workstation.Graph.Lifecycle.Reopening.{Reopens, Reopens-id, AllReopen, state_of-find}

-- A need that keeps its dependents blocked.
abbrev pub has_reason : List GraphNodeExecution → GraphNode → Bool
has_reason nodes n = any (λ d. found_blocking (state_of d nodes)) n.needs

any-weaken :
    (p q : ℕ → Bool) (xs : List ℕ)
    → ((a : ℕ) → p a ≡ true → q a ≡ true)
    → any p xs ≡ true
    → any q xs ≡ true
any-weaken p q [] f h = h
any-weaken p q (x ∷ xs) f h = ground (arith, f x, any-weaken p q xs f)

unmoved : (u w : GraphNodeExecution) → Reopens u w → blocks w.state ≡ true → w ≡ u
unmoved u w r b = ground arith

-- What blocks others after reopening did so before.
pub blocking_before :
    (xs ys : List GraphNodeExecution)
    → AllReopen xs ys
    → Distinct (execution_ids xs)
    → Distinct (execution_ids ys)
    → (d : ℕ) → found_blocking (state_of d ys) ≡ true
    → found_blocking (state_of d xs) ≡ true
blocking_before xs ys all unique_x unique_y d b = elim (Option-cases (find_execution d ys)) [
  | inl missing ↦ absurd (ground (arith, state_of-find d ys unique_y))
  | inr (w, found_w) ↦
      let (u, found_u, r) = find_by-Pairs execution_key Reopens Reopens-id d xs ys all found_w in
      let blocking_w : blocks w.state ≡ true = ground (arith, state_of-find d ys unique_y) in
      let same : w ≡ u = unmoved u w r blocking_w in ground (arith, state_of-find d xs unique_x)
]

pub reason_before :
    (xs ys : List GraphNodeExecution) (n : GraphNode)
    → AllReopen xs ys
    → Distinct (execution_ids xs)
    → Distinct (execution_ids ys)
    → has_reason ys n ≡ true
    → has_reason xs n ≡ true
reason_before xs ys n all unique_x unique_y h =
    any-weaken _ _ n.needs (blocking_before xs ys all unique_x unique_y) h

not_listed :
    (nodes : List GraphNodeExecution) (graph : List GraphNode) (id : ℕ)
    → contains (ids graph) id ≡ false
    → contains (reopened_ids nodes graph) id ≡ false
unfolding reopened_ids
not_listed nodes [] id h = refl
not_listed nodes (x ∷ graph) id h = ground (arith, not_listed nodes graph id)

-- A round collects no node that has a reason.
pub reopened_ids-unreasoned :
    (nodes : List GraphNodeExecution) (graph : List GraphNode) {n : GraphNode}
    → Distinct (ids graph)
    → Memᴰ n graph
    → has_reason nodes n ≡ true
    → contains (reopened_ids nodes graph) n.id ≡ false
unfolding reopened_ids
reopened_ids-unreasoned nodes [] d m h = elim m [ ]
reopened_ids-unreasoned nodes (x ∷ graph) {n} d m h = elim (Memᴰ.cases_cons m) [
  | inl e ↦ ground (arith, not_listed nodes graph n.id)
  | inr t ↦
      let rest = reopened_ids-unreasoned nodes graph d.1 t h in
      let apart : (x.id == n.id) ≡ false = elim (Bool-cases (x.id == n.id)) [
        | inl e ↦ absurd (ground (arith, d.0, contains-ids graph t))
        | inr e ↦ e
      ] in
      ground arith
]

pub reopen_each-other :
    (listed : List ℕ) (nodes : List GraphNodeExecution) (j : ℕ)
    → contains listed j ≡ false
    → find_execution j (reopen_each listed nodes).0 ≡ find_execution j nodes
unfolding reopen_each
reopen_each-other [] nodes j h = refl
reopen_each-other (id ∷ rest) nodes j h = elim (Option-cases (find_execution id nodes)) [
  | inl missing ↦ rw (missing, reopen_each) refl
  | inr (x, found) ↦
      rw (found, reopen_each)
        (reopen_each-other rest (modify_by execution_key id reopen nodes) j (ground arith)
          ∙ find_by-modify_by_other execution_key id reopen (λ y. refl) j nodes (ground arith))
]

-- Blocked nodes of the graph that have a reason after the reopening keep their records.
abbrev pub Stays : List GraphNode → List GraphNodeExecution → List GraphNodeExecution → Type 0
Stays graph xs ys =
    (n : GraphNode) (z : GraphNodeExecution)
    → Memᴰ n graph
    → find_execution n.id xs ≡ some z
    → has_reason ys n ≡ true
    → find_execution n.id ys ≡ some z

-- A round, and those after it.
pub Stays-round :
    (graph : List GraphNode) (nodes last : List GraphNodeExecution) (id : ℕ) (rest : List ℕ)
    → Distinct (ids graph)
    → Distinct (execution_ids nodes)
    → Distinct (execution_ids last)
    → AllReopen nodes last
    → reopened_ids nodes graph ≡ id ∷ rest
    → Stays graph (reopen_each (id ∷ rest) nodes).0 last
    → Stays graph nodes last
Stays-round graph nodes last id rest d unique unique_last all listed later n z m found h =
    let out : contains (id ∷ rest) n.id ≡ false =
      subst (λ l. contains l n.id ≡ false) listed
        (reopened_ids-unreasoned nodes graph d m
          (reason_before nodes last n all unique unique_last h)) in
    later n z m (reopen_each-other (id ∷ rest) nodes n.id out ∙ found) h
