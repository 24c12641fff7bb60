-- ===== src/M3/Joins.antt =====
-- Where the join node that a document version names leads.
use bastet_workstation.Common.{
  ℕ, ◌≡◌, String, Bool, true, false, ◌||◌, Option, some, none, is_none, is_some, List, [], ◌∷◌, any,
  find_by, contains, collect, same_set, contains-collect, same_set_iff, All, All-map, eq_iff, sym,
  ◌∙◌, arith, inl, inr, Option-cases,
}
use bastet_workstation.Identity.{GraphRunId, GraphNodeId}
use bastet_workstation.Deliverable.{DocumentVersion}
use bastet_workstation.Graph.{GraphNode, GraphNodeOutput, GraphExecution, find_node, is_research}
use bastet_workstation.Graph.Execution.{output}
use bastet_workstation.M3.Validation.{
  graph_key, is_not_research, find_join, join_differs, has_invalid_receipt,
}

-- A node whose output is in the record, of a research node of the graph.
abbrev pub IsResearched : GraphExecution → ℕ → Type 0
IsResearched e need =
    (is_some (output e need) ≡ true)
    × (node : GraphNode) × (find_node need e.graph.nodes ≡ some node)
    × (is_research node.kind ≡ true)

-- The join node that the version names is in an execution of the state, with the output whose hash
-- the version has, and its needs are the version's sources, all researched.
pub record IsJoinOf (graphs : List GraphExecution) (v : DocumentVersion) (e n : ℕ) (hash : String)
    : Type 0 where
  pub execution : GraphExecution
  pub is_found : find_by graph_key e graphs ≡ some execution
  pub join : GraphNode
  pub is_join : find_join n execution.graph.nodes ≡ some join
  pub same_sources : (id : ℕ) → contains v.source_node_ids id ≡ contains join.needs id
  pub researched : All (IsResearched execution) join.needs
  pub joined : GraphNodeOutput
  pub has_output : output execution n ≡ some joined
  pub same_hash : joined.content_hash ≡ hash

-- A version names its join node, execution and hash, or none of them.
abbrev pub IsSourced :
    List GraphExecution
    → DocumentVersion
    → Option GraphRunId
    → Option GraphNodeId
    → Option String
    → Type 0
IsSourced graphs v (some e) (some n) (some h) = IsJoinOf graphs v e n h
IsSourced graphs v none none none = Unit {0}
IsSourced graphs v _ _ _ = ⊥

pub any-All {ℓ} :
    {A : Type ℓ} (p : A → Bool) (xs : List A) → any p xs ≡ false → All (λ x. p x ≡ false) xs
any-All p [] h = tt
any-All p (x ∷ xs) h = (ground arith, any-All p xs (ground arith))

researched_of :
    (e : GraphExecution) (need : ℕ)
    → (is_none (output e need) || is_not_research (find_node need e.graph.nodes)) ≡ false
    → IsResearched e need
researched_of e need h = elim (Option-cases (find_node need e.graph.nodes)) [
  | inl absent ↦ absurd (ground arith)
  | inr (node, found) ↦ (ground arith, node, found, ground arith)
]

module _ (graphs : List GraphExecution) (v : DocumentVersion) where
  join_of :
      (e n : ℕ) (hash : String)
      → has_invalid_receipt graphs v (some e) (some n) (some hash) ≡ false
      → IsJoinOf graphs v e n hash
  unfolding has_invalid_receipt join_differs
  join_of e n hash h = elim (Option-cases (find_by graph_key e graphs)) [
    | inl absent ↦ absurd (ground arith)
    | inr (execution, found) ↦ elim (Option-cases (find_join n execution.graph.nodes)) [
      | inl absent ↦ absurd (ground arith)
      | inr (join, is_there) ↦ elim (Option-cases (output execution n)) [
        | inl absent ↦ absurd (ground arith)
        | inr (joined, stored) ↦
            let needed = λ (need : ℕ).
              is_none (output execution need)
              || is_not_research (find_node need execution.graph.nodes) in
            let same : same_set (collect v.source_node_ids) (collect join.needs) ≡ true =
              ground arith in
            let sets = (same_set_iff (collect v.source_node_ids) (collect join.needs)).0 same in
            let read = (eq_iff joined.content_hash hash).0 in
            record {
              execution = execution;
              is_found = found;
              join = join;
              is_join = is_there;
              same_sources = λ id.
                  sym (contains-collect v.source_node_ids id)
                  ∙ sets id
                  ∙ contains-collect join.needs id;
              researched =
                  All-map (λ need. needed need ≡ false) (IsResearched execution)
                    (researched_of execution) join.needs (any-All needed join.needs (ground arith));
              joined = joined;
              has_output = stored;
              same_hash = ground (arith, read);
            }
      ]
    ]
  ]

  pub IsSourced-of :
      (e : Option ℕ) (n : Option ℕ) (h : Option String)
      → has_invalid_receipt graphs v e n h ≡ false
      → IsSourced graphs v e n h
  unfolding has_invalid_receipt
  IsSourced-of none none none p = tt
  IsSourced-of none none (some h) p = cc p
  IsSourced-of none (some n) none p = cc p
  IsSourced-of none (some n) (some h) p = cc p
  IsSourced-of (some e) none none p = cc p
  IsSourced-of (some e) none (some h) p = cc p
  IsSourced-of (some e) (some n) none p = cc p
  IsSourced-of (some e) (some n) (some h) p = join_of e n h p
