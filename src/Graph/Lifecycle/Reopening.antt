-- ===== src/Graph/Lifecycle/Reopening.antt =====
-- The rounds of `retry_failed`: what reopening the collected nodes does to the records.
use bastet_workstation.Common.{
  ℕ, suc, ◌≤◌, ◌<◌, ◌≡◌, refl, sym, subst, ◌∙◌, ◌⊎◌, inl, inr, Bool, true, ◌||◌, Option, some, none,
  List, [], ◌∷◌, arith, length, contains, Distinct, Pairs, Pairs-refl, Pairs-compose,
  Pairs-modify_by, map-Pairs, modify_by, is_some-find_by, find_by-modify_by_self,
  find_by-modify_by_other, Bool-cases, Option-cases, if◌then◌else◌, ◌==◌,
}
use bastet_workstation.Graph.{
  GraphNode, GraphNodeState, pending, GraphNodeExecution, find_execution, execution_key, is_pending,
  is_blocked,
}
use bastet_workstation.Graph.Execution.{execution_ids}
use bastet_workstation.Graph.Transitions.{state_of}
use bastet_workstation.Graph.Retry.{reopen, found_blocked, reopened_ids, reopen_each}

abbrev pub can_reopen : GraphNodeState → Bool
can_reopen s = is_blocked s || is_pending s

-- The node stays as it is, or is pending again with no owner.
abbrev pub Reopens : GraphNodeExecution → GraphNodeExecution → Type 0
Reopens x y =
    (y ≡ x)
    ⊎ ((can_reopen x.state ≡ true)
        × (y.node_id ≡ x.node_id)
        × (y.state ≡ pending)
        × (y.owner ≡ none))

pub Reopens-id : (x y : GraphNodeExecution) → Reopens x y → y.node_id ≡ x.node_id
Reopens-id x y p = ground arith

Reopens-trans : (x y z : GraphNodeExecution) → Reopens x y → Reopens y z → Reopens x z
Reopens-trans x y z p q = ground arith

abbrev pub AllReopen : List GraphNodeExecution → List GraphNodeExecution → Type 0
AllReopen = Pairs Reopens

pub AllReopen-refl : (xs : List GraphNodeExecution) → AllReopen xs xs
AllReopen-refl = Pairs-refl Reopens (λ x. inl refl)

pub AllReopen-trans :
    (xs ys zs : List GraphNodeExecution) → AllReopen xs ys → AllReopen ys zs → AllReopen xs zs
AllReopen-trans = Pairs-compose Reopens Reopens Reopens Reopens-trans

abbrev pub state_found : Option GraphNodeExecution → Option GraphNodeState
state_found none = none
state_found (some x) = some x.state

-- With distinct ids the map of states holds the state of the record that is found.
pub state_of-find :
    (id : ℕ) (nodes : List GraphNodeExecution)
    → Distinct (execution_ids nodes)
    → state_of id nodes ≡ state_found (find_execution id nodes)
state_of-find id [] d = refl
state_of-find id (x ∷ xs) d =
    ground (arith, state_of-find id xs d.1, is_some-find_by execution_key id xs)

-- How many nodes are blocked: the measure of the loop.
abbrev pub count_blocked : List GraphNodeExecution → ℕ
count_blocked [] = 0
count_blocked (x ∷ xs) =
    let rest = count_blocked xs in if is_blocked x.state then suc rest else rest

pub count_blocked-le : (xs : List GraphNodeExecution) → count_blocked xs ≤ length xs
count_blocked-le [] = omega arith
count_blocked-le (x ∷ xs) = ground (arith, count_blocked-le xs)

pub AllReopen-count_blocked :
    (xs ys : List GraphNodeExecution) → AllReopen xs ys → count_blocked ys ≤ count_blocked xs
AllReopen-count_blocked [] [] p = omega arith
AllReopen-count_blocked [] (y ∷ ys) p = absurd p
AllReopen-count_blocked (x ∷ xs) [] p = absurd p
AllReopen-count_blocked (x ∷ xs) (y ∷ ys) p = ground (arith, AllReopen-count_blocked xs ys p.1)

reopen-count_blocked :
    (id : ℕ) (xs : List GraphNodeExecution) {x : GraphNodeExecution}
    → find_execution id xs ≡ some x
    → is_blocked x.state ≡ true
    → count_blocked (modify_by execution_key id reopen xs) < count_blocked xs
reopen-count_blocked id [] found b = absurd (cc found)
reopen-count_blocked id (y ∷ ys) {x} found b = ground (arith, reopen-count_blocked id ys {x = x})

reopen-AllReopen :
    (id : ℕ) (xs : List GraphNodeExecution) (x : GraphNodeExecution)
    → find_execution id xs ≡ some x
    → can_reopen x.state ≡ true
    → AllReopen xs (modify_by execution_key id reopen xs)
reopen-AllReopen id xs x found can =
    Pairs-modify_by execution_key Reopens id reopen (λ y. inl refl) xs
      (λ y found_y. inr (ground arith, refl, refl, refl))

abbrev pub CanReopen : List GraphNodeExecution → ℕ → Type 0
CanReopen nodes id =
    (x : GraphNodeExecution) × (find_execution id nodes ≡ some x) × (can_reopen x.state ≡ true)

-- Reopening one node leaves every other as it was.
CanReopen-modify :
    (id : ℕ) (nodes : List GraphNodeExecution) (j : ℕ)
    → CanReopen nodes j
    → CanReopen (modify_by execution_key id reopen nodes) j
CanReopen-modify id nodes j (x, found, can) = elim (Bool-cases (id == j)) [
  | inl same ↦
      let e : id ≡ j = ground arith in
      (
        reopen x,
        subst (λ k. find_execution k (modify_by execution_key id reopen nodes) ≡ some (reopen x)) e
            (find_by-modify_by_self execution_key id reopen (λ y. refl) nodes
              (subst (λ k. find_execution k nodes ≡ some x) (sym e) found)),
        refl,
      )
  | inr other ↦
      (x, find_by-modify_by_other execution_key id reopen (λ y. refl) j nodes other ∙ found, can)
]

reopen_each-finds :
    (ids : List ℕ) (nodes : List GraphNodeExecution)
    → ((id : ℕ) → contains ids id ≡ true → CanReopen nodes id)
    → ((reopen_each ids nodes).1 ≡ true) × AllReopen nodes (reopen_each ids nodes).0
unfolding reopen_each
reopen_each-finds [] nodes can = (refl, AllReopen-refl nodes)
reopen_each-finds (id ∷ ids) nodes can =
    let (x, found, able) = can id (ground arith) in
    let (all_found, rest) =
      reopen_each-finds ids (modify_by execution_key id reopen nodes)
        (λ j m. CanReopen-modify id nodes j (can j (ground arith))) in
    rw (found, reopen_each)
      (all_found, AllReopen-trans _ _ _ (reopen-AllReopen id nodes x found able) rest)

-- What is collected for reopening is blocked.
pub reopened_ids-blocked :
    (nodes : List GraphNodeExecution) (graph : List GraphNode) (id : ℕ)
    → contains (reopened_ids nodes graph) id ≡ true
    → found_blocked (state_of id nodes) ≡ true
unfolding reopened_ids
reopened_ids-blocked nodes [] id m = absurd (cc m)
reopened_ids-blocked nodes (definition ∷ rest) id m =
    ground (arith, reopened_ids-blocked nodes rest id)

pub blocked_record :
    (nodes : List GraphNodeExecution) (id : ℕ)
    → Distinct (execution_ids nodes)
    → found_blocked (state_of id nodes) ≡ true
    → (x : GraphNodeExecution) × (find_execution id nodes ≡ some x) × (is_blocked x.state ≡ true)
blocked_record nodes id d h = elim (Option-cases (find_execution id nodes)) [
  | inl missing ↦ absurd (ground (arith, state_of-find id nodes d))
  | inr (x, found) ↦ (x, found, ground (arith, state_of-find id nodes d))
]

pub AllReopen-ids :
    (xs ys : List GraphNodeExecution) → AllReopen xs ys → execution_ids ys ≡ execution_ids xs
AllReopen-ids = map-Pairs execution_key Reopens Reopens-id

-- A round that has something to reopen finds it, and leaves fewer nodes blocked.
pub round_shrinks :
    (nodes : List GraphNodeExecution) (id : ℕ) (ids : List ℕ)
    → ((j : ℕ) → contains (id ∷ ids) j ≡ true → CanReopen nodes j)
    → (x : GraphNodeExecution) → find_execution id nodes ≡ some x
    → is_blocked x.state ≡ true
    → ((reopen_each (id ∷ ids) nodes).1 ≡ true)
      × AllReopen nodes (reopen_each (id ∷ ids) nodes).0
      × (count_blocked (reopen_each (id ∷ ids) nodes).0 < count_blocked nodes)
unfolding reopen_each
round_shrinks nodes id ids can x found is_one =
    let nodes' = modify_by execution_key id reopen nodes in
    let (all_found, rest) =
      reopen_each-finds ids nodes' (λ j m. CanReopen-modify id nodes j (can j (ground arith))) in
    rw (found, reopen_each)
      (
        all_found,
        AllReopen-trans _ _ _ (reopen-AllReopen id nodes x found (ground arith)) rest,
        omega (
          arith,
          AllReopen-count_blocked nodes' (reopen_each ids nodes').0 rest,
          reopen-count_blocked id nodes found is_one,
        ),
      )
