-- ===== src/Graph/Validate/Spec.antt =====
-- What `WorkflowGraph::validate` accepts, said without the search and the sets of the code.
use mathlib.Core.List.{Memᴰ}
use bastet_workstation.Common.{
  ℕ, ◌≡◌, ◌≢◌, ◌↔◌, sym, ◌∙◌, Bool, true, false, not, ◌||◌, List, [], ◌∷◌, arith, length, All-mem,
  All-of_mem, keep_if, any, contains, collect, same_set, same_set_iff, contains-collect, Distinct,
  length-collect-Distinct, any-false, any-false_intro, is_blank, ◌==◌, ok, fail_if, fail_if-ok,
  >>-eq-ok, for_each, for_each-All, All-for_each, length-map, is_empty-eq-nil, one_of_length,
  two_of_length,
}
use bastet_workstation.Graph.{
  GraphNode, WorkflowGraph, empty_title, invalid_dependency, duplicate_node, invalid_research_join,
  is_research, is_join, node_key,
}
use bastet_workstation.Graph.Validate.{
  ids, check_node, check_join, validate_research_join, visit_all, validate,
}
use bastet_workstation.Graph.Validate.Paths.{IsAcyclic}
use bastet_workstation.Graph.Validate.Sound.{visit_all-IsAcyclic}
use bastet_workstation.Graph.Validate.Complete.{visit_all-ok}

-- Two research nodes that need nothing, and one join that needs exactly the two.
pub record HasResearchJoin (nodes : List GraphNode) : Type 0 where
  pub left : GraphNode
  pub right : GraphNode
  pub join_node : GraphNode
  pub researches : keep_if (λ n. is_research n.kind) nodes ≡ left ∷ right ∷ []
  pub joins : keep_if (λ n. is_join n.kind) nodes ≡ join_node ∷ []
  pub join_needs : (d : ℕ) → contains join_node.needs d ≡ contains (left.id ∷ right.id ∷ []) d
  pub left_free : left.needs ≡ []
  pub right_free : right.needs ≡ []

pub record IsWellFormed (g : WorkflowGraph) : Type 0 where
  pub unique : Distinct (ids g.nodes)
  pub titled : (n : GraphNode) → Memᴰ n g.nodes → is_blank n.title ≡ false
  pub closed :
      (n : GraphNode)
      → Memᴰ n g.nodes
      → (b : ℕ) → contains n.needs b ≡ true
      → (b ≢ n.id) × (contains (ids g.nodes) b ≡ true)
  pub acyclic : IsAcyclic g.nodes
  pub has_research_join : HasResearchJoin g.nodes

abbrev IsChecked : List ℕ → GraphNode → Type 0
IsChecked known n =
    (is_blank n.title ≡ false)
    × ((b : ℕ) → contains n.needs b ≡ true → (b ≢ n.id) × (contains known b ≡ true))

check_node_iff : (known : List ℕ) (n : GraphNode) → check_node known n ≡ ok tt ↔ IsChecked known n
unfolding check_node
check_node_iff known n = (forth, back)
  where
    bad : ℕ → Bool
    bad d = d == n.id || not (contains known d)

    forth : check_node known n ≡ ok tt → IsChecked known n
    forth h =
        let (titled, rest) =
          >>-eq-ok (fail_if (is_blank n.title) empty_title)
            (fail_if (any bad n.needs) invalid_dependency) h in
        (
          fail_if-ok _ empty_title titled,
          λ b m.
              let fine : bad b ≡ false =
                any-false bad n.needs b (fail_if-ok _ invalid_dependency rest) m in
              ground arith,
        )

    back : IsChecked known n → check_node known n ≡ ok tt
    back (titled, closed) =
        rw (titled, any-false_intro bad n.needs (λ b m. let c = closed b m in ground arith))

module _ (left right join_node : GraphNode) where
  abbrev Joins : Type 0
  Joins =
      ((d : ℕ) → contains join_node.needs d ≡ contains (left.id ∷ right.id ∷ []) d)
      × (left.needs ≡ [])
      × (right.needs ≡ [])

  abbrev cited : List ℕ
  cited = collect join_node.needs

  abbrev expected : List ℕ
  expected = collect (left.id ∷ right.id ∷ [])

  check_join-Joins : check_join (left ∷ right ∷ []) (join_node ∷ []) ≡ ok tt → Joins
  unfolding check_join
  check_join-Joins h =
      let passed = fail_if-ok _ invalid_research_join h in
      let same : same_set cited expected ≡ true = ground arith in
      (
        λ d.
            sym (contains-collect join_node.needs d)
            ∙ (same_set_iff cited expected).0 same d
            ∙ contains-collect (left.id ∷ right.id ∷ []) d,
        is_empty-eq-nil left.needs (ground arith),
        is_empty-eq-nil right.needs (ground arith),
      )

  Joins-check_join : Joins → check_join (left ∷ right ∷ []) (join_node ∷ []) ≡ ok tt
  unfolding check_join
  Joins-check_join (needs, left_free, right_free) =
      let same : same_set cited expected ≡ true = (same_set_iff cited expected).1 (λ d.
        contains-collect join_node.needs d
        ∙ needs d
        ∙ sym (contains-collect (left.id ∷ right.id ∷ []) d)) in
      rw (same, left_free, right_free)

abbrev researches_of : WorkflowGraph → List GraphNode
researches_of g = keep_if (λ n. is_research n.kind) g.nodes

abbrev joins_of : WorkflowGraph → List GraphNode
joins_of g = keep_if (λ n. is_join n.kind) g.nodes

validate_research_join-HasResearchJoin :
    (g : WorkflowGraph) → validate_research_join g ≡ ok tt → HasResearchJoin g.nodes
unfolding validate_research_join
validate_research_join-HasResearchJoin g h =
    let (counted, checked) =
      >>-eq-ok
        (fail_if (not (length (researches_of g) == 2) || not (length (joins_of g) == 1))
          invalid_research_join)
        (check_join (researches_of g) (joins_of g)) h in
    let counts = fail_if-ok _ invalid_research_join counted in
    let (left, right, two) = two_of_length (researches_of g) (ground arith) in
    let (join_node, one) = one_of_length (joins_of g) (ground arith) in
    let (needs, left_free, right_free) =
      check_join-Joins left right join_node (rw (two, one) at checked) in
    record {
      left = left;
      right = right;
      join_node = join_node;
      researches = two;
      joins = one;
      join_needs = needs;
      left_free = left_free;
      right_free = right_free;
    }

HasResearchJoin-validate_research_join :
    (g : WorkflowGraph) → HasResearchJoin g.nodes → validate_research_join g ≡ ok tt
unfolding validate_research_join
HasResearchJoin-validate_research_join g j =
    rw (j.researches, j.joins)
      (Joins-check_join j.left j.right j.join_node (j.join_needs, j.left_free, j.right_free))

abbrev known_ids : WorkflowGraph → List ℕ
known_ids g = collect (ids g.nodes)

Distinct-check :
    (g : WorkflowGraph) → (length (known_ids g) == length g.nodes) ≡ true ↔ Distinct (ids g.nodes)
Distinct-check g = rw (← length-map node_key g.nodes) (length-collect-Distinct (ids g.nodes))

IsChecked-of_ids :
    (g : WorkflowGraph) (n : GraphNode) → IsChecked (ids g.nodes) n → IsChecked (known_ids g) n
IsChecked-of_ids g n (titled, closed) = (
  titled,
  λ b m. let (apart, inside) = closed b m in (apart, contains-collect (ids g.nodes) b ∙ inside),
)

validate-IsWellFormed : (g : WorkflowGraph) → validate g ≡ ok tt → IsWellFormed g
unfolding validate
validate-IsWellFormed g h =
    let (sized, h₁) =
      >>-eq-ok (fail_if (not (length (known_ids g) == length g.nodes)) duplicate_node) _ h in
    let (checked, h₂) = >>-eq-ok (for_each (check_node (known_ids g)) g.nodes) _ h₁ in
    let (searched, joined) = >>-eq-ok (visit_all g.nodes) (validate_research_join g) h₂ in
    let passed = fail_if-ok _ duplicate_node sized in
    let unique = (Distinct-check g).0 (ground arith) in
    let each = for_each-All (check_node (known_ids g)) g.nodes checked in
    let checks = λ (n : GraphNode) (m : Memᴰ n g.nodes).
      (check_node_iff (known_ids g) n).0 (All-mem _ g.nodes each m) in
    record {
      unique = unique;
      titled = λ n m. (checks n m).0;
      closed = λ n m b l.
          let (apart, inside) = (checks n m).1 b l in
          (apart, sym (contains-collect (ids g.nodes) b) ∙ inside);
      acyclic = visit_all-IsAcyclic g.nodes unique searched;
      has_research_join = validate_research_join-HasResearchJoin g joined;
    }

IsWellFormed-validate : (g : WorkflowGraph) → IsWellFormed g → validate g ≡ ok tt
unfolding validate
IsWellFormed-validate g w =
    let each = All-of_mem _ g.nodes (λ n m.
      (check_node_iff (known_ids g) n).1 (IsChecked-of_ids g n (w.titled n m, w.closed n m))) in
    rw
      (
        (Distinct-check g).1 w.unique,
        All-for_each (check_node (known_ids g)) g.nodes each,
        visit_all-ok {nodes = g.nodes} (λ n m b l. (w.closed n m b l).1) w.acyclic,
      )
      (HasResearchJoin-validate_research_join g w.has_research_join)

-- `validate` accepts a graph exactly when it is well formed: its ids are distinct, every title has
-- a visible character, every need names another node of the graph, no node depends on itself through
-- any chain of needs, and there are exactly two research nodes, which need nothing, and one join,
-- which needs exactly these two.
pub validate_iff_IsWellFormed : (g : WorkflowGraph) → validate g ≡ ok tt ↔ IsWellFormed g
validate_iff_IsWellFormed g = (validate-IsWellFormed g, IsWellFormed-validate g)
