-- ===== src/Graph/Validate.antt =====
-- `WorkflowGraph::validate`, `validate_research_join` and the depth-first `visit` of
-- crates/bastet-core/src/graph.rs.
pub mod Paths
pub mod Sound
pub mod Complete
pub mod Fuel
pub mod Spec
use bastet_workstation.Common.{
  ℕ, zero, suc, Bool, true, false, not, ◌||◌, Option, none, some, List, [], ◌∷◌, map, length, any,
  all, keep_if, is_empty, contains, insert, remove, collect, same_set, ◌==◌, is_blank,
  if◌then◌else◌, Result, ok, err, ◌>>=◌, ◌>>◌, fail_if, for_each,
}
use bastet_workstation.Graph.{
  GraphNode, WorkflowGraph, GraphError, duplicate_node, empty_title, invalid_dependency, cycle,
  invalid_research_join, find_node, node_key, is_research, is_join,
}

-- The two sets that `visit` is passed by reference.
pub record Marks : Type 0 where
  pub visiting : List ℕ
  pub visited : List ℕ

-- `exhausted` is the model's own: the fuel ran out.
pub data Visit : Type 0 where
  done : Marks → Visit
  rejected : GraphError → Visit
  exhausted : Visit

-- `for dependency in &node.needs { visit(*dependency, ..)?; }`
unfoldable pub visit_each : (ℕ → Marks → Visit) → List ℕ → Marks → Visit
visit_each step [] s = done s
visit_each step (d ∷ ds) s = elim (step d s) [
  | done s' ↦ visit_each step ds s'
  | rejected e ↦ rejected e
  | exhausted ↦ exhausted
]

abbrev pub left : ℕ → Marks → Marks
left id s = record { visiting = remove id s.visiting; visited = insert id s.visited }

abbrev pub leave : ℕ → Visit → Visit
leave id (done s) = done (left id s)
leave id (rejected e) = rejected e
leave id exhausted = exhausted

abbrev pub enter : ℕ → Marks → Marks
enter id s = record s { visiting = insert id s.visiting }

unfoldable pub visit : ℕ → List GraphNode → ℕ → Marks → Visit
visit zero nodes id s = exhausted
visit (suc fuel) nodes id s =
    if contains s.visited id
    then done s
    else if contains s.visiting id
    then rejected cycle
    else elim (find_node id nodes) [
      | none ↦ rejected invalid_dependency
      | some node ↦ leave id (visit_each (visit fuel nodes) node.needs (enter id s))
    ]

abbrev pub visit_result : Visit → Result (Unit {0}) GraphError
visit_result (done s) = ok tt
visit_result (rejected e) = err e
visit_result exhausted = err cycle

abbrev pub no_marks : Marks
no_marks = record { visiting = []; visited = [] }

abbrev pub ids : List GraphNode → List ℕ
ids = map node_key

-- Each call of `visit` is on a node below the ones in `visiting`, so one more than there are nodes
-- is enough fuel.
unfoldable pub visit_all : List GraphNode → Result (Unit {0}) GraphError
unfolding visit_each visit
visit_all nodes = visit_result (visit_each (visit (suc (length nodes)) nodes) (ids nodes) no_marks)

unfoldable pub check_node : List ℕ → GraphNode → Result (Unit {0}) GraphError
check_node known node = do
  fail_if (is_blank node.title) empty_title
  fail_if (any (λ dependency. dependency == node.id || not (contains known dependency)) node.needs)
      invalid_dependency

-- `joins[0]` is read behind the test that there is one join.
unfoldable pub check_join : List GraphNode → List GraphNode → Result (Unit {0}) GraphError
check_join researches [] = err invalid_research_join
check_join researches (first ∷ _) =
    fail_if
      (not (same_set (collect first.needs) (collect (ids researches)))
        || any (λ node. not (is_empty node.needs)) researches)
      invalid_research_join

unfoldable pub validate_research_join : WorkflowGraph → Result (Unit {0}) GraphError
unfolding check_join
validate_research_join g = do
  let researches = keep_if (λ node. is_research node.kind) g.nodes
  let joins = keep_if (λ node. is_join node.kind) g.nodes
  fail_if (not (length researches == 2) || not (length joins == 1)) invalid_research_join
  check_join researches joins

unfoldable pub validate : WorkflowGraph → Result (Unit {0}) GraphError
unfolding check_node visit_all validate_research_join
validate g = do
  let known = collect (ids g.nodes)
  fail_if (not (length known == length g.nodes)) duplicate_node
  for_each (check_node known) g.nodes
  visit_all g.nodes
  validate_research_join g
