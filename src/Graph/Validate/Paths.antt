-- ===== src/Graph/Validate/Paths.antt =====
-- The dependency relation of a list of graph nodes, and its transitive closure.
use mathlib.Core.List.{Memᴰ}
use mathlib.Core.List.Memᴰ
use bastet_workstation.Common.{
  ℕ, ◌≡◌, true, some, List, [], ◌∷◌, arith, inl, inr, contains, Distinct, ◌==◌, Bool-cases,
}
use bastet_workstation.Graph.{GraphNode, find_node}
use bastet_workstation.Graph.Validate.{ids}

-- Some node with the id `a` lists `b` among its needs.
pub data Edge (nodes : List GraphNode) (a b : ℕ) : Type 0 where
  edge : (n : GraphNode) → Memᴰ n nodes → n.id ≡ a → contains n.needs b ≡ true → Edge nodes a b

-- `a` needs `b`, directly or through other nodes.
pub data DependsOn (nodes : List GraphNode) (a : ℕ) : ℕ → Type 0 where
  direct : {b : ℕ} → Edge nodes a b → DependsOn nodes a b
  through : {b c : ℕ} → DependsOn nodes a b → Edge nodes b c → DependsOn nodes a c

abbrev pub IsAcyclic : List GraphNode → Type 0
IsAcyclic nodes = (a : ℕ) → ¬ DependsOn nodes a a

pub DependsOn-trans :
    {nodes : List GraphNode} {a b c : ℕ}
    → DependsOn nodes a b
    → DependsOn nodes b c
    → DependsOn nodes a c
DependsOn-trans p (direct e) = through p e
DependsOn-trans p (through q e) = through (DependsOn-trans p q) e

-- What is found is in the list, under the id that was looked for.
pub find_node-mem :
    (id : ℕ) (nodes : List GraphNode) {n : GraphNode} → find_node id nodes ≡ some n → Memᴰ n nodes
find_node-mem id [] h = cc
find_node-mem id (x ∷ xs) {n} h = elim (Bool-cases (x.id == id)) [
  | inl e ↦ Memᴰ.head (ground arith)
  | inr e ↦ Memᴰ.tail (find_node-mem id xs (ground arith))
]

pub contains-ids :
    (nodes : List GraphNode) {n : GraphNode} → Memᴰ n nodes → contains (ids nodes) n.id ≡ true
contains-ids [] m = elim m [ ]
contains-ids (x ∷ xs) {n} m = elim (Memᴰ.cases_cons m) [
  | inl e ↦ ground arith
  | inr t ↦ ground (arith, contains-ids xs t)
]

-- With distinct ids, a node of the list is the one that is found.
pub find_node-of_mem :
    (nodes : List GraphNode) {n : GraphNode}
    → Distinct (ids nodes)
    → Memᴰ n nodes
    → find_node n.id nodes ≡ some n
find_node-of_mem [] d m = elim m [ ]
find_node-of_mem (x ∷ xs) {n} d m = elim (Memᴰ.cases_cons m) [
  | inl e ↦ ground arith
  | inr t ↦ ground (arith, find_node-of_mem xs d.1 t, contains-ids xs t)
]
