-- ===== src/Graph/Block/Fixpoint.antt =====
-- The loops of `block_dependents` end, with a set that is closed under "needs one of".
use mathlib.Core.List.{Memᴰ}
use mathlib.Core.List.Memᴰ
use bastet_workstation.Common.{
  ℕ, zero, suc, ◌≤◌, ◌<◌, ◌≡◌, refl, sym, subst, inl, inr, Bool, true, false, not, ◌&&◌, List, [],
  ◌∷◌, arith, length, any, contains, modify_by, insert, contains-insert, Bool-cases, if◌then◌else◌,
}
use bastet_workstation.Graph.{GraphNode, execution_key}
use bastet_workstation.Graph.Block.{
  Sweep, block_pending, reach_node, sweep, sweep_loop, fresh_round,
}

-- How many nodes are not reached yet.
abbrev pub unreached : List GraphNode → List ℕ → ℕ
unreached [] s = 0
unreached (n ∷ ns) s = let rest = unreached ns s in if contains s n.id then rest else suc rest

pub unreached-le : (ns : List GraphNode) (s : List ℕ) → unreached ns s ≤ length ns
unreached-le [] s = omega arith
unreached-le (n ∷ ns) s = ground (arith, unreached-le ns s)

unreached-insert-le :
    (ns : List GraphNode) (s : List ℕ) (a : ℕ) → unreached ns (insert a s) ≤ unreached ns s
unreached-insert-le [] s a = omega arith
unreached-insert-le (n ∷ ns) s a =
    ground (arith, unreached-insert-le ns s a, contains-insert a n.id s)

unreached-insert-lt :
    (ns : List GraphNode) (s : List ℕ) {n : GraphNode}
    → Memᴰ n ns
    → contains s n.id ≡ false
    → unreached ns (insert n.id s) < unreached ns s
unreached-insert-lt [] s m f = elim m [ ]
unreached-insert-lt (x ∷ ns) s {n} m f = elim (Memᴰ.cases_cons m) [
  | inl e ↦ ground (arith, unreached-insert-le ns s n.id, contains-insert n.id x.id s)
  | inr t ↦ ground (arith, unreached-insert-lt ns s t f, contains-insert n.id x.id s)
]

-- The node adds nothing to the set.
abbrev pub IsClosedAt : List ℕ → GraphNode → Type 0
IsClosedAt s n = any (contains s) n.needs ≡ true → contains s n.id ≡ true

abbrev pub reaches : GraphNode → Sweep → Bool
reaches n w = any (contains w.reached) n.needs && not (contains w.reached n.id)

reach_node_new :
    (n : GraphNode) (w : Sweep)
    → reaches n w ≡ true
    → ((reach_node n w).reached ≡ insert n.id w.reached) × ((reach_node n w).changed ≡ true)
unfolding reach_node
reach_node_new n w h = (rw h, rw h)

pub reach_node_eq :
    (n : GraphNode) (w : Sweep)
    → reaches n w ≡ true
    → reach_node n w ≡ record {
      reached = insert n.id w.reached;
      executions = modify_by execution_key n.id block_pending w.executions;
      changed = true;
    }
unfolding reach_node
reach_node_eq n w h = rw h

pub reach_node_old : (n : GraphNode) (w : Sweep) → reaches n w ≡ false → reach_node n w ≡ w
unfolding reach_node
reach_node_old n w h = rw h

module _ (nodes : List GraphNode) where
  -- What one round does: the measure does not grow, and if nothing changed the set is closed.
  record Swept (rest : List GraphNode) (w w' : Sweep) : Type 0 where
    shrinks : unreached nodes w'.reached ≤ unreached nodes w.reached
    stays_changed : w.changed ≡ true → w'.changed ≡ true
    progress :
        w.changed ≡ false
        → w'.changed ≡ true
        → unreached nodes w'.reached < unreached nodes w.reached
    quiet : w'.changed ≡ false → w' ≡ w
    closed : w'.changed ≡ false → (n : GraphNode) → Memᴰ n rest → IsClosedAt w.reached n

  sweep-Swept :
      (rest : List GraphNode) (w : Sweep)
      → ((n : GraphNode) → Memᴰ n rest → Memᴰ n nodes)
      → Swept rest w (sweep rest w)
  unfolding sweep
  sweep-Swept [] w sub = record {
    shrinks = omega arith;
    stays_changed = λ h. h;
    progress = λ h k. absurd (ground arith);
    quiet = λ h. refl;
    closed = λ h n m. elim m [ ];
  }
  sweep-Swept (n ∷ rest) w sub =
      let ih = sweep-Swept rest (reach_node n w) (λ k m. sub k (Memᴰ.tail m)) in
      elim (Bool-cases (reaches n w)) [
        | inl new ↦
            let (grown, moved) = reach_node_new n w new in
            let fewer : unreached nodes (reach_node n w).reached < unreached nodes w.reached =
              rw grown
                (unreached-insert-lt nodes w.reached (sub n (Memᴰ.head refl)) (ground arith)) in
            let loud = ih.stays_changed moved in
            record {
              shrinks = omega (arith, ih.shrinks);
              stays_changed = λ h. loud;
              progress = λ h k. omega (arith, ih.shrinks);
              quiet = λ h. absurd (ground arith);
              closed = λ h. absurd (ground arith);
            }
        | inr old ↦
            let same = reach_node_old n w old in
            let swept = subst (λ v. Swept rest v (sweep rest v)) same ih in
            rw same (record {
              shrinks = swept.shrinks;
              stays_changed = swept.stays_changed;
              progress = swept.progress;
              quiet = swept.quiet;
              closed = λ h k m. elim (Memᴰ.cases_cons m) [
                | inl e ↦ subst (IsClosedAt w.reached) (sym e) (λ some_need. ground arith)
                | inr t ↦ swept.closed h k t
              ];
            })
      ]

  abbrev pub IsClosed : List ℕ → Type 0
  IsClosed s = (n : GraphNode) → Memᴰ n nodes → IsClosedAt s n

  pub sweep_loop-IsClosed :
      (fuel : ℕ) (w : Sweep)
      → unreached nodes w.reached < fuel
      → IsClosed (sweep_loop fuel nodes w).reached
  unfolding sweep_loop
  sweep_loop-IsClosed zero w room = absurd (omega arith)
  sweep_loop-IsClosed (suc fuel) w room =
      let w' = sweep nodes (fresh_round w) in
      let swept = sweep-Swept nodes (fresh_round w) (λ n m. m) in
      elim (Bool-cases w'.changed) [
        | inl loud ↦
            rw (loud, sweep_loop)
              (sweep_loop-IsClosed fuel w' (omega (arith, swept.progress refl loud)))
        | inr done ↦
            rw (done, sweep_loop)
              (subst (λ (v : Sweep). IsClosed v.reached) (sym (swept.quiet done))
                (swept.closed done))
      ]
