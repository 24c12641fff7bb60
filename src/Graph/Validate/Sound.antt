-- ===== src/Graph/Validate/Sound.antt =====
-- What an accepting depth-first search shows: no node of the graph is on a dependency cycle.
use bastet_workstation.Common.{
  ℕ, zero, suc, ◌≡◌, refl, sym, subst, true, some, List, [], ◌∷◌, arith, ◌⊎◌, inl, inr, contains,
  length, Distinct, ◌==◌, Bool-cases, Option-cases, contains-insert, ok,
}
use bastet_workstation.Graph.{GraphNode, GraphError, find_node}
use bastet_workstation.Graph.Validate.{
  ids, Marks, Visit, done, rejected, exhausted, visit, visit_each, enter, visit_all, no_marks, left,
}
use bastet_workstation.Graph.Validate.Paths.{
  Edge, edge, DependsOn, direct, through, IsAcyclic, find_node-of_mem, contains-ids,
}

-- All chains of needs from `a` end, and every node on them is in the graph.
pub data Grounded (nodes : List GraphNode) : ℕ → Type 0 where
  grounded :
      {a : ℕ} (n : GraphNode)
      → find_node a nodes ≡ some n
      → ((b : ℕ) → contains n.needs b ≡ true → Grounded nodes b)
      → Grounded nodes a

first-Edge :
    {nodes : List GraphNode} {a c : ℕ}
    → DependsOn nodes a c
    → (b : ℕ) × Edge nodes a b × ((b ≡ c) ⊎ DependsOn nodes b c)
first-Edge {c = c} (direct e) = (c, e, inl refl)
first-Edge {nodes} {c = c} (through p e) =
    let (b, first, rest) = first-Edge p in
    elim rest [
      | inl same ↦ (b, first, inr (direct (subst (λ x. Edge nodes x c) (sym same) e)))
      | inr q ↦ (b, first, inr (through q e))
    ]

module _ {nodes : List GraphNode} (unique : Distinct (ids nodes)) where
  needs_of_Edge :
      {a b : ℕ} (n : GraphNode)
      → find_node a nodes ≡ some n
      → Edge nodes a b
      → contains n.needs b ≡ true
  needs_of_Edge n found (edge m inside at lists) =
      ground (arith, find_node-of_mem nodes unique inside)

  pub Grounded-no_cycle : {a : ℕ} → Grounded nodes a → ¬ DependsOn nodes a a
  Grounded-no_cycle {a} (grounded n found below) p =
      let (b, first, rest) = first-Edge p in
      let around : DependsOn nodes b b = elim rest [
        | inl same ↦ direct (subst (λ x. Edge nodes x b) (sym same) first)
        | inr q ↦ through q first
      ] in
      Grounded-no_cycle (below b (needs_of_Edge n found first)) around

Visit-cases :
    (r : Visit)
    → ((s : Marks) × (r ≡ done s)) ⊎ ((e : GraphError) × (r ≡ rejected e)) ⊎ (r ≡ exhausted)
Visit-cases (done s) = inl (s, refl)
Visit-cases (rejected e) = inr (inl (e, refl))
Visit-cases exhausted = inr (inr refl)

done-injective : {s t : Marks} → done s ≡ done t → s ≡ t
done-injective h = cc

visit_each_inv :
    (step : ℕ → Marks → Visit) (d : ℕ) (ds : List ℕ) (s s' : Marks)
    → visit_each step (d ∷ ds) s ≡ done s'
    → (t : Marks) × (step d s ≡ done t) × (visit_each step ds t ≡ done s')
unfolding visit_each
visit_each_inv step d ds s s' h = elim (Visit-cases (step d s)) [
  | inl (t, e) ↦ (t, e, ground arith)
  | inr (inl (x, e)) ↦ absurd (ground arith)
  | inr (inr e) ↦ absurd (ground arith)
]

abbrev AllGrounded : List GraphNode → List ℕ → Type 0
AllGrounded nodes xs = (x : ℕ) → contains xs x ≡ true → Grounded nodes x

-- The marks only grow, and every node that is marked as visited is grounded.
record Extends (nodes : List GraphNode) (s s' : Marks) : Type 0 where
  grows : (x : ℕ) → contains s.visited x ≡ true → contains s'.visited x ≡ true
  ground_all : AllGrounded nodes s.visited → AllGrounded nodes s'.visited

Extends-refl : (nodes : List GraphNode) (s : Marks) → Extends nodes s s
Extends-refl nodes s = record { grows = λ x h. h; ground_all = λ h. h }

Extends-trans :
    {nodes : List GraphNode} {s t u : Marks}
    → Extends nodes s t
    → Extends nodes t u
    → Extends nodes s u
Extends-trans p q = record {
  grows = λ x h. q.grows x (p.grows x h);
  ground_all = λ h. q.ground_all (p.ground_all h);
}

abbrev StepExtends : List GraphNode → (ℕ → Marks → Visit) → Type 0
StepExtends nodes step =
    (d : ℕ) (s s' : Marks)
    → step d s ≡ done s'
    → Extends nodes s s' × (contains s'.visited d ≡ true)

module _ {nodes : List GraphNode} (step : ℕ → Marks → Visit) (steps : StepExtends nodes step) where
  visit_each-Extends :
      (ds : List ℕ) (s s' : Marks)
      → visit_each step ds s ≡ done s'
      → Extends nodes s s' × ((d : ℕ) → contains ds d ≡ true → contains s'.visited d ≡ true)
  unfolding visit_each
  visit_each-Extends [] s s' h =
      (subst (Extends nodes s) (done-injective h) (Extends-refl nodes s), λ d m. absurd (cc m))
  visit_each-Extends (d ∷ ds) s s' h =
      let (t, first, others) = visit_each_inv step d ds s s' h in
      let (extends, here) = steps d s t first in
      let (more, rest) = visit_each-Extends ds t s' others in
      (
        Extends-trans extends more,
        λ x m. elim (Bool-cases (d == x)) [
          | inl same ↦ more.grows x (ground (arith, here))
          | inr other ↦ rest x (ground arith)
        ],
      )

visit_inv :
    (fuel : ℕ) (nodes : List GraphNode) (d : ℕ) (s s' : Marks)
    → visit (suc fuel) nodes d s ≡ done s'
    → ((contains s.visited d ≡ true) × (s ≡ s'))
      ⊎ ((n : GraphNode) × (t : Marks) × (find_node d nodes ≡ some n)
          × (visit_each (visit fuel nodes) n.needs (enter d s) ≡ done t)
          × (s' ≡ left d t))
unfolding visit
visit_inv fuel nodes d s s' h = elim (Bool-cases (contains s.visited d)) [
  | inl old ↦ inl (old, ground arith)
  | inr new ↦ elim (Bool-cases (contains s.visiting d)) [
    | inl open' ↦ absurd (ground arith)
    | inr fresh ↦ elim (Option-cases (find_node d nodes)) [
      | inl missing ↦ absurd (ground arith)
      | inr (n, found) ↦ elim (Visit-cases (visit_each (visit fuel nodes) n.needs (enter d s))) [
        | inl (t, e) ↦ inr (n, t, found, e, ground arith)
        | inr (inl (x, e)) ↦ absurd (ground arith)
        | inr (inr e) ↦ absurd (ground arith)
      ]
    ]
  ]
]

-- A node is marked as visited when all its needs are.
left-Extends :
    {nodes : List GraphNode} (d : ℕ) (n : GraphNode) (s t : Marks)
    → find_node d nodes ≡ some n
    → Extends nodes (enter d s) t
    → ((b : ℕ) → contains n.needs b ≡ true → contains t.visited b ≡ true)
    → Extends nodes s (left d t)
left-Extends d n s t found extends below = record {
  grows = λ x m. ground (arith, contains-insert d x t.visited, extends.grows x);
  ground_all = λ old x m.
      let all = extends.ground_all old in
      elim (Bool-cases (d == x)) [
        | inl same ↦ grounded n (ground arith) (λ b l. all b (below b l))
        | inr other ↦ all x (ground (arith, contains-insert d x t.visited))
      ];
}

visit-Extends :
    {nodes : List GraphNode} (fuel d : ℕ) (s s' : Marks)
    → visit fuel nodes d s ≡ done s'
    → Extends nodes s s' × (contains s'.visited d ≡ true)
visit-Extends zero d s s' h = absurd (unfold visit in (cc h))
visit-Extends {nodes} (suc fuel) d s s' h = elim (visit_inv fuel nodes d s s' h) [
  | inl (old, same) ↦ (subst (Extends nodes s) same (Extends-refl nodes s), ground arith)
  | inr (n, t, found, each, e) ↦
      let marked : contains s'.visited d ≡ true = ground (arith, contains-insert d d t.visited) in
      let (extends, below) =
        visit_each-Extends (visit fuel nodes) (visit-Extends fuel) n.needs (enter d s) t each in
      (subst (Extends nodes s) (sym e) (left-Extends d n s t found extends below), marked)
]

-- A node of a graph that the search accepts is grounded.
visit_all-Grounded :
    (nodes : List GraphNode)
    → visit_all nodes ≡ ok tt
    → (a : ℕ) → contains (ids nodes) a ≡ true
    → Grounded nodes a
unfolding visit_all
visit_all-Grounded nodes h a m = elim (Visit-cases search') [
  | inl (s, e) ↦
      let (extends, marked) =
        visit_each-Extends (visit fuel nodes) (visit-Extends fuel) (ids nodes) no_marks s e in
      extends.ground_all (λ x n. absurd (cc n)) a (marked a m)
  | inr (inl (x, e)) ↦ absurd (ground arith)
  | inr (inr e) ↦ absurd (ground arith)
]
  where
    fuel : ℕ
    fuel = suc (length nodes)

    search' : Visit
    search' = visit_each (visit fuel nodes) (ids nodes) no_marks

pub visit_all-IsAcyclic :
    (nodes : List GraphNode) → Distinct (ids nodes) → visit_all nodes ≡ ok tt → IsAcyclic nodes
visit_all-IsAcyclic nodes unique h a p =
    let (b, first, rest) = first-Edge p in
    Grounded-no_cycle unique (visit_all-Grounded nodes h a (source_known first)) p
  where
    source_known : {b : ℕ} → Edge nodes a b → contains (ids nodes) a ≡ true
    source_known (edge n inside at lists) = ground (arith, contains-ids nodes inside)
