-- ===== src/Graph/Validate/Complete.antt =====
-- A depth-first search over a graph without dangling references and cycles ends, and accepts.
use mathlib.Core.List.{Memᴰ}
use bastet_workstation.Common.{
  ℕ, zero, suc, ◌<◌, ◌≤◌, ◌≡◌, refl, subst, ◌∙◌, true, false, some, List, [], ◌∷◌, arith, inl, inr,
  contains, insert, length, ◌==◌, if◌then◌else◌, Bool-cases, Option-cases, contains-insert,
  contains-remove, ok, is_some-find_by, length-map, key-find_by, ==_iff,
}
use bastet_workstation.Graph.{GraphNode, find_node, node_key}
use bastet_workstation.Graph.Validate.{
  ids, Marks, Visit, done, visit, visit_each, enter, visit_all, no_marks, left,
}
use bastet_workstation.Graph.Validate.Paths.{
  Edge, edge, DependsOn, direct, through, IsAcyclic, find_node-mem,
}

-- How many of the ids are not being visited: the depth that is left for the search.
abbrev pub unvisited : List ℕ → List ℕ → ℕ
unvisited [] v = 0
unvisited (x ∷ xs) v = let rest = unvisited xs v in if contains v x then rest else suc rest

pub unvisited-le : (xs v : List ℕ) → unvisited xs v ≤ length xs
unvisited-le [] v = omega arith
unvisited-le (x ∷ xs) v = ground (arith, unvisited-le xs v)

unvisited-insert-le : (xs v : List ℕ) (a : ℕ) → unvisited xs (insert a v) ≤ unvisited xs v
unvisited-insert-le [] v a = omega arith
unvisited-insert-le (x ∷ xs) v a = ground (arith, unvisited-insert-le xs v a, contains-insert a x v)

pub unvisited-insert-lt :
    (xs v : List ℕ) (a : ℕ)
    → contains xs a ≡ true
    → contains v a ≡ false
    → unvisited xs (insert a v) < unvisited xs v
unvisited-insert-lt [] v a m f = absurd (cc m)
unvisited-insert-lt (x ∷ xs) v a m f =
    ground (arith, unvisited-insert-lt xs v a, unvisited-insert-le xs v a, contains-insert a x v)

abbrev pub Same : List ℕ → List ℕ → Type 0
Same v w = (x : ℕ) → contains v x ≡ contains w x

-- A step that is made while the nodes of `v` are being visited ends, and leaves them as they are.
abbrev Ends : (ℕ → Marks → Visit) → List ℕ → ℕ → Type 0
Ends step v d =
    (s : Marks) → Same s.visiting v → (t : Marks) × (step d s ≡ done t) × Same t.visiting v

visit_each-Ends :
    (step : ℕ → Marks → Visit) (v ds : List ℕ)
    → ((d : ℕ) → contains ds d ≡ true → Ends step v d)
    → (s : Marks) → Same s.visiting v
    → (t : Marks) × (visit_each step ds s ≡ done t) × Same t.visiting v
unfolding visit_each
visit_each-Ends step v [] ends s same = (s, refl, same)
visit_each-Ends step v (d ∷ ds) ends s same =
    let (t, first, same_t) = ends d (ground arith) s same in
    let (u, others, same_u) = visit_each-Ends step v ds (λ x m. ends x (ground arith)) t same_t in
    (u, rw (first, visit_each) others, same_u)

pub Same-enter :
    (v : List ℕ) (d : ℕ) (s : Marks) → Same s.visiting v → Same (insert d s.visiting) (insert d v)
Same-enter v d s same x =
    ground (arith, contains-insert d x s.visiting, contains-insert d x v, same x)

visit_old :
    (fuel : ℕ) (nodes : List GraphNode) (d : ℕ) (s : Marks)
    → contains s.visited d ≡ true
    → visit (suc fuel) nodes d s ≡ done s
unfolding visit
visit_old fuel nodes d s old = ground arith

visit_fresh :
    (fuel : ℕ) (nodes : List GraphNode) (d : ℕ) (s t : Marks) (n : GraphNode)
    → contains s.visited d ≡ false
    → contains s.visiting d ≡ false
    → find_node d nodes ≡ some n
    → visit_each (visit fuel nodes) n.needs (enter d s) ≡ done t
    → visit (suc fuel) nodes d s ≡ done (left d t)
unfolding visit
visit_fresh fuel nodes d s t n new fresh found each = ground arith

module _ {nodes : List GraphNode}
    (refs : (n : GraphNode)
      → Memᴰ n nodes
      → (b : ℕ) → contains n.needs b ≡ true
      → contains (ids nodes) b ≡ true)
    (acyclic : IsAcyclic nodes) where
  not_above :
      (v : List ℕ) (d : ℕ)
      → ((x : ℕ) → contains v x ≡ true → DependsOn nodes x d)
      → contains v d ≡ false
  not_above v d above = elim (Bool-cases (contains v d)) [
    | inl m ↦ absurd (acyclic d (above d m))
    | inr f ↦ f
  ]

  known_node :
      (d : ℕ) → contains (ids nodes) d ≡ true → (n : GraphNode) × (find_node d nodes ≡ some n)
  known_node d known = elim (Option-cases (find_node d nodes)) [
    | inl missing ↦ absurd (ground (arith, is_some-find_by node_key d nodes))
    | inr found ↦ found
  ]

  above_child :
      (v : List ℕ) (d b : ℕ)
      → Edge nodes d b
      → ((x : ℕ) → contains v x ≡ true → DependsOn nodes x d)
      → (x : ℕ) → contains (insert d v) x ≡ true
      → DependsOn nodes x b
  above_child v d b e above x m = elim (Bool-cases (d == x)) [
    | inl same ↦ direct (subst (λ y. Edge nodes y b) ((==_iff d x).0 same) e)
    | inr other ↦ through (above x (ground (arith, contains-insert d x v))) e
  ]

  visit-Ends :
      (fuel : ℕ) (v : List ℕ) (d : ℕ)
      → contains (ids nodes) d ≡ true
      → ((x : ℕ) → contains v x ≡ true → DependsOn nodes x d)
      → unvisited (ids nodes) v < fuel
      → Ends (visit fuel nodes) v d
  visit-Ends zero v d known above room s same = absurd (omega arith)
  visit-Ends (suc fuel) v d known above room s same = elim (Bool-cases (contains s.visited d)) [
    | inl old ↦ (s, visit_old fuel nodes d s old, same)
    | inr new ↦
        let off : contains v d ≡ false = not_above v d above in
        let (n, found) = known_node d known in
        let (t, each, same_t) =
          visit_each-Ends (visit fuel nodes) (insert d v) n.needs
            (λ b m.
              let e = edge n (find_node-mem d nodes found) (key-find_by node_key d nodes found) m in
              visit-Ends fuel (insert d v) b (refs n (find_node-mem d nodes found) b m)
                (above_child v d b e above)
                (omega (arith, unvisited-insert-lt (ids nodes) v d known off)))
            (enter d s) (Same-enter v d s same) in
        (
          left d t,
          visit_fresh fuel nodes d s t n new (same d ∙ off) found each,
          λ x. ground (arith, same_t x, contains-remove d x t.visiting, contains-insert d x v),
        )
  ]

  pub visit_all-ok : visit_all nodes ≡ ok tt
  unfolding visit_all
  visit_all-ok =
      let (t, e, same) =
        visit_each-Ends (visit (suc (length nodes)) nodes) [] (ids nodes)
          (λ d known.
            visit-Ends (suc (length nodes)) [] d known (λ x m. absurd (cc m))
              (omega (arith, unvisited-le (ids nodes) [], length-map node_key nodes)))
          no_marks (λ x. refl) in
      rw e
