-- ===== src/Graph/Results/Progress.antt =====
-- An execution is never stuck: when nothing runs and nothing has failed, a node can be claimed.
use mathlib.Core.List.{Memᴰ}
use mathlib.Core.List.Memᴰ
use bastet_workstation.Common.{
  ℕ, zero, suc, ◌+◌, ◌<◌, ◌≤◌, ◌≡◌, ◌≢◌, refl, ap, sym, subst, ◌∙◌, inl, inr, String, Bool,
  Bool-cases, Option-cases, true, false, ◌||◌, some, none, List, [], ◌∷◌, map, arith, length,
  length-map, keep_if, take, any, all, contains, insert, contains-insert, Distinct, All, All-mem,
  all-All, key-find_by, is_some-find_by, any-contains, ok, is_blank, ◌==◌,
}
use bastet_workstation.Graph.{
  GraphNode, GraphNodeExecution, GraphExecution, find_node, node_key, execution_key, is_pending,
  is_succeeded,
}
use bastet_workstation.Graph.Validate.{ids}
use bastet_workstation.Graph.Validate.Paths.{Edge, edge, DependsOn, direct, through, find_node-mem}
use bastet_workstation.Graph.Validate.Complete.{unvisited, unvisited-le, unvisited-insert-lt}
use bastet_workstation.Graph.Validate.Spec.{IsWellFormed, validate_iff_IsWellFormed}
use bastet_workstation.Graph.Execution.{validate, execution_ids, has_node}
use bastet_workstation.Graph.Transitions.{state_of, found_succeeded, needs_succeeded, claim_ready}
use bastet_workstation.Graph.Lifecycle.Ready.{is_ready, ready_ids, undefined}
use bastet_workstation.Graph.History.Valid.{IsConsistent}
use bastet_workstation.Graph.History.Outputs.{validate-IsValid}
use bastet_workstation.Graph.Results.Claimed.{All-defined, claim_ready_takes_first}

-- A list without repetition inside another one leaves room for what it misses.
unvisited-room :
    (xs ys : List ℕ)
    → Distinct ys
    → ((a : ℕ) → contains ys a ≡ true → contains xs a ≡ true)
    → unvisited xs ys + length ys ≤ length xs
unvisited-room xs [] d inside = omega (arith, unvisited-le xs [])
unvisited-room xs (y ∷ ys) (new, d) inside =
    let known : contains xs y ≡ true = inside y (ground arith) in
    let less : unvisited xs (insert y ys) < unvisited xs ys =
      unvisited-insert-lt xs ys y known new in
    let more = unvisited-room xs ys d (λ a m. inside a (ground arith)) in
    let here : unvisited xs (y ∷ ys) < unvisited xs ys =
      subst (λ zs. unvisited xs zs < unvisited xs ys) (rw new refl) less in
    omega (arith, here, more)

-- As long as the other, it misses nothing.
covers :
    (xs ys : List ℕ)
    → Distinct ys
    → ((a : ℕ) → contains ys a ≡ true → contains xs a ≡ true)
    → length ys ≡ length xs
    → (d : ℕ) → contains xs d ≡ true
    → contains ys d ≡ true
covers xs ys distinct inside same d m = elim (Bool-cases (contains ys d)) [
  | inl e ↦ e
  | inr e ↦
      absurd
        (omega (arith, unvisited-insert-lt xs ys d m e, unvisited-room xs ys distinct inside, same))
]

state_of-none :
    (d : ℕ) (xs : List GraphNodeExecution)
    → contains (execution_ids xs) d ≡ false
    → state_of d xs ≡ none
state_of-none d [] m = refl
state_of-none d (x ∷ xs) m =
    let other : (x.node_id == d) ≡ false = ground arith in
    rw (state_of-none d xs (ground arith), other)

state_of-found :
    (d : ℕ) (xs : List GraphNodeExecution)
    → contains (execution_ids xs) d ≡ true
    → (x : GraphNodeExecution) × Memᴰ x xs × (x.node_id ≡ d) × (state_of d xs ≡ some x.state)
state_of-found d [] m = absurd (cc m)
state_of-found d (x ∷ xs) m = elim (Bool-cases (contains (execution_ids xs) d)) [
  | inl e ↦
      let (y, inside, at, found) = state_of-found d xs e in (y, Memᴰ.tail inside, at, rw found refl)
  | inr e ↦
      let here : (x.node_id == d) ≡ true = ground arith in
      (x, Memᴰ.head refl, ground arith, rw (state_of-none d xs e, here) refl)
]

all-false :
    (p : ℕ → Bool) (xs : List ℕ)
    → all p xs ≡ false
    → (a : ℕ) × (contains xs a ≡ true) × (p a ≡ false)
all-false p [] h = absurd (cc h)
all-false p (x ∷ xs) h = elim (Bool-cases (p x)) [
  | inl e ↦ let (a, m, off) = all-false p xs (ground arith) in (a, ground arith, off)
  | inr e ↦ (x, ground arith, e)
]

keep_if-mem :
    (p : GraphNodeExecution → Bool) (xs : List GraphNodeExecution) {x : GraphNodeExecution}
    → Memᴰ x xs
    → p x ≡ true
    → (id : ℕ) × (rest : List ℕ) × (map execution_key (keep_if p xs) ≡ id ∷ rest)
keep_if-mem p [] m h = elim m [ ]
keep_if-mem p (y ∷ xs) m h = elim (Bool-cases (p y)) [
  | inl e ↦ (y.node_id, map execution_key (keep_if p xs), rw e refl)
  | inr e ↦ elim (Memᴰ.cases_cons m) [
    | inl same ↦ absurd (ground (arith, subst (λ z. p z ≡ true) same h))
    | inr t ↦ let (id, rest, found) = keep_if-mem p xs t h in (id, rest, rw e found)
  ]
]

defined_ids :
    (nodes : List GraphNode) (xs : List GraphNodeExecution)
    → All (λ x. has_node nodes x.node_id ≡ true) xs
    → (a : ℕ) → contains (execution_ids xs) a ≡ true
    → contains (ids nodes) a ≡ true
defined_ids nodes [] known a m = absurd (cc m)
defined_ids nodes (x ∷ xs) (here, known) a m = elim (Bool-cases (x.node_id == a)) [
  | inl e ↦
      let same : x.node_id ≡ a = ground arith in
      subst (λ k. contains (ids nodes) k ≡ true) same
        (sym (any-contains node_key x.node_id nodes) ∙ here)
  | inr e ↦ defined_ids nodes xs known a (ground arith)
]

module _ (e : GraphExecution) (g : IsWellFormed e.graph) (c : IsConsistent e)
    (idle : (x : GraphNodeExecution)
      → Memᴰ x e.nodes
      → (is_pending x.state || is_succeeded x.state) ≡ true) where
  abbrev nodes : List GraphNode
  nodes = e.graph.nodes

  abbrev HasReady : Type 0
  HasReady = (x : GraphNodeExecution) × Memᴰ x e.nodes × (is_ready e x ≡ true)

  recorded : (d : ℕ) → contains (ids nodes) d ≡ true → contains (execution_ids e.nodes) d ≡ true
  recorded =
      covers (ids nodes) (execution_ids e.nodes) c.unique
        (defined_ids nodes e.nodes (All-defined nodes e.nodes c.sound))
        (length-map execution_key e.nodes ∙ c.sized ∙ sym (length-map node_key nodes))

  -- A need that has not succeeded is pending.
  waiting_need :
      (x : GraphNodeExecution) (n : GraphNode)
      → find_node x.node_id nodes ≡ some n
      → needs_succeeded e.nodes n ≡ false
      → (y : GraphNodeExecution) × Memᴰ y e.nodes
        × (is_pending y.state ≡ true)
        × Edge nodes x.node_id y.node_id
  waiting_need x n found unmet =
      let (d, needed, off) = all-false (λ b. found_succeeded (state_of b e.nodes)) n.needs unmet in
      let inside = find_node-mem x.node_id nodes found in
      let known = (g.closed n inside d needed).1 in
      let (y, there, at, state) = state_of-found d e.nodes (recorded d known) in
      let not_done : is_succeeded y.state ≡ false =
        subst (λ o. found_succeeded o ≡ false) state off in
      (
        y,
        there,
        ground (arith, idle y there),
        edge n inside (key-find_by node_key x.node_id nodes found)
            (subst (λ k. contains n.needs k ≡ true) (sym at) needed),
      )

  -- From a pending node, each such need leads to another one, never to one before.
  descend :
      (fuel : ℕ) (v : List ℕ) (x : GraphNodeExecution)
      → unvisited (ids nodes) v < fuel
      → Memᴰ x e.nodes
      → is_pending x.state ≡ true
      → ((a : ℕ) → contains v a ≡ true → DependsOn nodes a x.node_id)
      → HasReady
  descend zero v x room m waits before = absurd (omega arith)
  descend (suc fuel) v x room m waits before = elim (Option-cases (find_node x.node_id nodes)) [
    | inl missing ↦
        absurd (undefined e x (All-mem _ e.nodes (All-defined nodes e.nodes c.sound) m) missing)
    | inr (n, found) ↦ elim (Bool-cases (needs_succeeded e.nodes n)) [
      | inl met ↦ (x, m, rw (waits, found) met)
      | inr unmet ↦
          let (y, there, still, step) = waiting_need x n found unmet in
          let new : contains v x.node_id ≡ false = elim (Bool-cases (contains v x.node_id)) [
            | inl old ↦ absurd (g.acyclic x.node_id (before x.node_id old))
            | inr new ↦ new
          ] in
          let known : contains (ids nodes) x.node_id ≡ true =
            sym (is_some-find_by node_key x.node_id nodes) ∙ rw found refl in
          descend fuel (insert x.node_id v) y
            (omega (arith, room, unvisited-insert-lt (ids nodes) v x.node_id known new)) there still
            (λ a inside. elim (Bool-cases (x.node_id == a)) [
              | inl same ↦ subst (λ k. DependsOn nodes k y.node_id) (ground arith) (direct step)
              | inr other ↦ through (before a (ground (arith, contains-insert x.node_id a v))) step
            ])
    ]
  ]

  some_ready : (x : GraphNodeExecution) → Memᴰ x e.nodes → is_pending x.state ≡ true → HasReady
  some_ready x m waits =
      descend (suc (length (ids nodes))) [] x (omega (arith, unvisited-le (ids nodes) [])) m waits
        (λ a inside. absurd (cc inside))

some_pending :
    (xs : List GraphNodeExecution)
    → any (λ x. is_pending x.state) xs ≡ true
    → (x : GraphNodeExecution) × Memᴰ x xs × (is_pending x.state ≡ true)
some_pending [] h = absurd (cc h)
some_pending (x ∷ xs) h = elim (Bool-cases (is_pending x.state)) [
  | inl e ↦ (x, Memᴰ.head refl, e)
  | inr e ↦ let (y, m, waits) = some_pending xs (ground arith) in (y, Memᴰ.tail m, waits)
]

take_some :
    (limit : ℕ) (xs : List ℕ) (id : ℕ) (rest : List ℕ)
    → limit ≢ 0
    → xs ≡ id ∷ rest
    → (more : List ℕ) × (take limit xs ≡ id ∷ more)
take_some zero xs id rest room e = absurd (room refl)
take_some (suc n) xs id rest room e = (take n rest, rw e refl)

-- On an execution that `validate` accepts, all of whose nodes are pending or have succeeded and some of
-- which are pending, `claim_ready` with an owner that is not blank and a positive limit hands out at
-- least one node.
pub claim_ready_progresses :
    (digest : String → String) (e : GraphExecution) (owner : String) (limit : ℕ)
    → validate digest e ≡ ok tt
    → is_blank owner ≡ false
    → limit ≢ 0
    → all (λ x. is_pending x.state || is_succeeded x.state) e.nodes ≡ true
    → any (λ x. is_pending x.state) e.nodes ≡ true
    → (id : ℕ) × (more : List ℕ) × ((claim_ready e owner limit).1 ≡ ok (id ∷ more))
claim_ready_progresses digest e owner limit h named room idle waiting =
    let v = validate-IsValid digest e h in
    let idle_at = λ (x : GraphNodeExecution) (m : Memᴰ x e.nodes).
      All-mem (λ (z : GraphNodeExecution). (is_pending z.state || is_succeeded z.state) ≡ true)
        e.nodes (all-All _ e.nodes idle) m in
    let (x, m, waits) = some_pending e.nodes waiting in
    let (y, there, ready) =
      some_ready e ((validate_iff_IsWellFormed e.graph).0 v.graph_valid) v.consistent idle_at x m
        waits in
    let (id, rest, listed) = keep_if-mem (is_ready e) e.nodes there ready in
    let (more, taken) = take_some limit (ready_ids e e.nodes) id rest room listed in
    (id, more, (claim_ready_takes_first digest e owner limit h named room).0 ∙ ap ok taken)
