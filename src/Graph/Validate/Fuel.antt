-- ===== src/Graph/Validate/Fuel.antt =====
-- The depth-first search is never cut off by its fuel, whatever the graph.
use bastet_workstation.Common.{
  ℕ, zero, suc, ◌<◌, ◌≡◌, ◌≢◌, refl, true, false, List, [], ◌∷◌, arith, inl, inr, contains, insert,
  length, Bool-cases, Option-cases, contains-insert, contains-remove, is_some-find_by, length-map,
}
use bastet_workstation.Graph.{GraphNode, find_node, node_key}
use bastet_workstation.Graph.Validate.{
  ids, Marks, Visit, done, rejected, exhausted, visit, visit_each, leave, enter, no_marks,
}
use bastet_workstation.Graph.Validate.Complete.{
  unvisited, unvisited-le, unvisited-insert-lt, Same, Same-enter,
}

-- The search ended, and if it accepts it is back at the nodes that were being visited.
abbrev Settled : List ℕ → Visit → Type 0
Settled v (done t) = Same t.visiting v
Settled v (rejected e) = Unit {0}
Settled v exhausted = ⊥

abbrev Settles : (ℕ → Marks → Visit) → List ℕ → Type 0
Settles step v = (d : ℕ) (s : Marks) → Same s.visiting v → Settled v (step d s)

visit_each-Settled :
    (step : ℕ → Marks → Visit) (v ds : List ℕ)
    → Settles step v
    → (s : Marks) → Same s.visiting v
    → Settled v (visit_each step ds s)
unfolding visit_each
visit_each-Settled step v [] h s same = same
visit_each-Settled step v (d ∷ ds) h s same =
    next (step d s) (h d s same) (visit_each-Settled step v ds h)
  where
    next :
        (r : Visit)
        → Settled v r
        → ((t : Marks) → Same t.visiting v → Settled v (visit_each step ds t))
        → Settled v (elim r [
          | done t ↦ visit_each step ds t
          | rejected e ↦ rejected e
          | exhausted ↦ exhausted
        ])
    next (done t) k rest = rest t k
    next (rejected e) k rest = tt
    next exhausted k rest = absurd k

leave-Settled :
    (d : ℕ) (v : List ℕ) (r : Visit)
    → contains v d ≡ false
    → Settled (insert d v) r
    → Settled v (leave d r)
leave-Settled d v (done t) off k =
    λ x. ground (arith, k x, contains-remove d x t.visiting, contains-insert d x v)
leave-Settled d v (rejected e) off k = tt
leave-Settled d v exhausted off k = absurd k

visit-Settles :
    (nodes : List GraphNode) (fuel : ℕ) (v : List ℕ)
    → unvisited (ids nodes) v < fuel
    → Settles (visit fuel nodes) v
unfolding visit
visit-Settles nodes zero v room d s same = absurd (omega arith)
visit-Settles nodes (suc fuel) v room d s same = elim (Bool-cases (contains s.visited d)) [
  | inl old ↦ rw old same
  | inr new ↦ elim (Bool-cases (contains s.visiting d)) [
    | inl open' ↦ rw (new, open') tt
    | inr fresh ↦ elim (Option-cases (find_node d nodes)) [
      | inl missing ↦ rw (new, fresh, missing) tt
      | inr (n, found) ↦
          let known : contains (ids nodes) d ≡ true =
            ground (arith, is_some-find_by node_key d nodes) in
          let off : contains v d ≡ false = ground (arith, same d) in
          rw (new, fresh, found)
            (leave-Settled d v (visit_each (visit fuel nodes) n.needs (enter d s)) off (
              visit_each-Settled (visit fuel nodes) (insert d v) n.needs
                (visit-Settles nodes fuel (insert d v)
                  (omega (arith, unvisited-insert-lt (ids nodes) v d known off)))
                (enter d s) (Same-enter v d s same)))
    ]
  ]
]

not_exhausted : (v : List ℕ) (r : Visit) → Settled v r → r ≢ exhausted
not_exhausted v (done t) k e = cc e
not_exhausted v (rejected x) k e = cc e
not_exhausted v exhausted k e = absurd k

-- One more unit of fuel than there are nodes is enough for the search over any list of nodes, with
-- dangling references or cycles too: it accepts or rejects, and is not cut off.
pub visit_never_exhausted :
    (nodes : List GraphNode)
    → visit_each (visit (suc (length nodes)) nodes) (ids nodes) no_marks ≢ exhausted
visit_never_exhausted nodes = not_exhausted [] _ (
    visit_each-Settled (visit (suc (length nodes)) nodes) [] (ids nodes)
      (visit-Settles nodes (suc (length nodes)) []
        (omega (arith, unvisited-le (ids nodes) [], length-map node_key nodes)))
      no_marks (λ x. refl))
