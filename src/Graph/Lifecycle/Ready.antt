-- ===== src/Graph/Lifecycle/Ready.antt =====
-- Which nodes `claim_ready` hands out: the first ones that are ready, in the order of the record.
use mathlib.Core.List.{append_assoc, append-nil}
use bastet_workstation.Common.{
  ℕ, zero, suc, ◌+◌, ◌≡◌, refl, sym, ap, subst, ◌∙◌, inl, inr, String, Bool, true, false, ◌&&◌,
  Option, some, none, List, [], ◌∷◌, ◌++◌, map, arith, length, length-append, keep_if, take,
  contains, contains-append, contains-take, Distinct, All, Pairs, if◌then◌else◌, Result, ok,
  is_some-find_by, any-contains,
}
use bastet_workstation.Graph.{
  GraphNode, GraphNodeExecution, GraphExecution, GraphError, find_node, node_key, execution_key,
  is_pending,
}
use bastet_workstation.Graph.Execution.{execution_ids, has_node}
use bastet_workstation.Graph.Transitions.{needs_succeeded, give_to, push_node, claim_loop}
use bastet_workstation.Graph.Lifecycle.Claims.{claim_loop_cases}

abbrev pub met_by : List GraphNodeExecution → Option GraphNode → Bool
met_by nodes none = false
met_by nodes (some n) = needs_succeeded nodes n

-- The node is pending and all that it needs has succeeded.
abbrev pub is_ready : GraphExecution → GraphNodeExecution → Bool
is_ready e x = is_pending x.state && met_by e.nodes (find_node x.node_id e.graph.nodes)

abbrev pub ready_ids : GraphExecution → List GraphNodeExecution → List ℕ
ready_ids e xs = map execution_key (keep_if (is_ready e) xs)

abbrev pub IsDefined : GraphExecution → GraphNodeExecution → Type 0
IsDefined e x = has_node e.graph.nodes x.node_id ≡ true

pub undefined :
    (e : GraphExecution) (x : GraphNodeExecution)
    → IsDefined e x
    → find_node x.node_id e.graph.nodes ≡ none
    → ⊥
undefined e x known missing = ground (
  arith,
  any-contains node_key x.node_id e.graph.nodes,
  is_some-find_by node_key x.node_id e.graph.nodes,
)

module _ (e : GraphExecution) (owner : String) (limit : ℕ) where
  abbrev pub looped :
      List ℕ → List GraphNodeExecution → List GraphNodeExecution × Result (List ℕ) GraphError
  looped = claim_loop e.graph.nodes e.nodes owner limit

  abbrev pub chosen : ℕ → List ℕ → List GraphNodeExecution → List ℕ
  chosen k claimed xs = claimed ++ take k (ready_ids e xs)

  abbrev pub LoopGives : ℕ → List ℕ → List GraphNodeExecution → Type 0
  LoopGives k claimed xs = (looped claimed xs).1 ≡ ok (chosen k claimed xs)

  result_of_push :
      (x : GraphNodeExecution) {r s : List GraphNodeExecution × Result (List ℕ) GraphError}
      → r ≡ push_node x s
      → r.1 ≡ s.1
  result_of_push x h = ap (λ (z : List GraphNodeExecution × Result (List ℕ) GraphError). z.1) h

  -- Choosing `x` puts its id behind the ones that are chosen already.
  chosen_next :
      (k : ℕ) (claimed : List ℕ) (x : GraphNodeExecution) (xs : List GraphNodeExecution)
      → is_ready e x ≡ true
      → chosen k (claimed ++ x.node_id ∷ []) xs ≡ chosen (suc k) claimed (x ∷ xs)
  chosen_next k claimed x xs h =
      rw h (append_assoc claimed (x.node_id ∷ []) (take k (ready_ids e xs)))

  chosen_skip :
      (k : ℕ) (claimed : List ℕ) (x : GraphNodeExecution) (xs : List GraphNodeExecution)
      → is_ready e x ≡ false
      → chosen k claimed xs ≡ chosen k claimed (x ∷ xs)
  chosen_skip k claimed x xs h = rw h

  claim_loop_end : (claimed : List ℕ) → (looped claimed []).1 ≡ ok claimed
  unfolding claim_loop
  claim_loop_end claimed = refl

  chosen_nil : (k : ℕ) (claimed : List ℕ) → chosen k claimed [] ≡ claimed
  chosen_nil zero claimed = append-nil claimed
  chosen_nil (suc k) claimed = append-nil claimed

  pub claim_loop-gives :
      (k : ℕ) (claimed : List ℕ) (xs : List GraphNodeExecution)
      → length claimed + k ≡ limit
      → All (IsDefined e) xs
      → LoopGives k claimed xs
  claim_loop-gives k claimed [] room known =
      claim_loop_end claimed ∙ ap ok (sym (chosen_nil k claimed))
  claim_loop-gives zero claimed (x ∷ xs) room known =
      let later = claim_loop-gives zero claimed xs room known.1 in
      elim (claim_loop_cases e.graph.nodes e.nodes owner limit claimed x xs) [
        | inl (skipped, same) ↦ result_of_push x same ∙ later
        | inr (inl (idle, open', missing, same)) ↦ absurd (undefined e x known.0 missing)
        | inr (inr (inl (n, idle, open', found, met, same))) ↦ absurd (ground arith)
        | inr (inr (inr (n, idle, open', found, unmet, same))) ↦ absurd (ground arith)
      ]
  claim_loop-gives (suc k) claimed (x ∷ xs) room known =
      let later = claim_loop-gives (suc k) claimed xs room known.1 in
      let further =
        claim_loop-gives k (claimed ++ x.node_id ∷ []) xs
          (omega (arith, length-append claimed (x.node_id ∷ []))) known.1 in
      elim (claim_loop_cases e.graph.nodes e.nodes owner limit claimed x xs) [
        | inl (skipped, same) ↦
            result_of_push x same ∙ later ∙ ap ok (chosen_skip (suc k) claimed x xs (ground arith))
        | inr (inl (idle, open', missing, same)) ↦ absurd (undefined e x known.0 missing)
        | inr (inr (inl (n, idle, open', found, met, same))) ↦
            result_of_push (give_to owner x) same
            ∙ further
            ∙ ap ok (chosen_next k claimed x xs (ground arith))
        | inr (inr (inr (n, idle, open', found, unmet, same))) ↦
            result_of_push x same ∙ later ∙ ap ok (chosen_skip (suc k) claimed x xs (ground arith))
      ]

  -- The record of a chosen node is given to the owner; every other is as it was.
  abbrev pub Given : List ℕ → GraphNodeExecution → GraphNodeExecution → Type 0
  Given out x y = y ≡ (if contains out x.node_id then give_to owner x else x)

  abbrev pub LoopWrites : ℕ → List ℕ → List GraphNodeExecution → Type 0
  LoopWrites k claimed xs = Pairs (Given (chosen k claimed xs)) xs (looped claimed xs).0

  abbrev pub Unclaimed : List ℕ → List GraphNodeExecution → Type 0
  Unclaimed claimed xs = (a : ℕ) → contains (execution_ids xs) a ≡ true → contains claimed a ≡ false

  contains-ready_ids :
      (xs : List GraphNodeExecution) (a : ℕ)
      → contains (ready_ids e xs) a ≡ true
      → contains (execution_ids xs) a ≡ true
  contains-ready_ids [] a h = h
  contains-ready_ids (x ∷ xs) a h = ground (arith, contains-ready_ids xs a)

  not_chosen :
      (k : ℕ) (claimed : List ℕ) (xs : List GraphNodeExecution) (a : ℕ)
      → contains claimed a ≡ false
      → contains (execution_ids xs) a ≡ false
      → contains (chosen k claimed xs) a ≡ false
  not_chosen k claimed xs a h f = ground (
    arith,
    contains-append claimed (take k (ready_ids e xs)) a,
    contains-take k (ready_ids e xs) a,
    contains-ready_ids xs a,
  )

  -- A skipped node is not among the chosen.
  skip-Given :
      (k : ℕ) (claimed : List ℕ) (x : GraphNodeExecution) (xs : List GraphNodeExecution)
      → Unclaimed claimed (x ∷ xs)
      → Distinct (execution_ids (x ∷ xs))
      → Given (chosen k claimed xs) x x
  skip-Given k claimed x xs apart d =
      let off : contains (chosen k claimed xs) x.node_id ≡ false =
        not_chosen k claimed xs x.node_id (apart x.node_id (ground arith)) d.0 in
      rw off

  give-Given :
      (k : ℕ) (claimed : List ℕ) (x : GraphNodeExecution) (xs : List GraphNodeExecution)
      → Given (chosen k (claimed ++ x.node_id ∷ []) xs) x (give_to owner x)
  give-Given k claimed x xs =
      let on : contains (chosen k (claimed ++ x.node_id ∷ []) xs) x.node_id ≡ true = ground (
        arith,
        contains-append (claimed ++ x.node_id ∷ []) (take k (ready_ids e xs)) x.node_id,
        contains-append claimed (x.node_id ∷ []) x.node_id,
      ) in
      rw on

  writes_of_push :
      (out : List ℕ) (x y : GraphNodeExecution) (xs : List GraphNodeExecution)
      {r s : List GraphNodeExecution × Result (List ℕ) GraphError}
      → r ≡ push_node y s
      → Given out x y
      → Pairs (Given out) xs s.0
      → Pairs (Given out) (x ∷ xs) r.0
  writes_of_push out x y xs h g p =
      subst
        (λ (z : List GraphNodeExecution × Result (List ℕ) GraphError).
          Pairs (Given out) (x ∷ xs) z.0)
        (sym h) (g, p)

  Unclaimed-next :
      (claimed : List ℕ) (x : GraphNodeExecution) (xs : List GraphNodeExecution)
      → Unclaimed claimed (x ∷ xs)
      → Distinct (execution_ids (x ∷ xs))
      → Unclaimed (claimed ++ x.node_id ∷ []) xs
  Unclaimed-next claimed x xs apart d a m =
      let old : contains claimed a ≡ false = apart a (ground arith) in
      ground (arith, contains-append claimed (x.node_id ∷ []) a)

  pub claim_loop-writes :
      (k : ℕ) (claimed : List ℕ) (xs : List GraphNodeExecution)
      → length claimed + k ≡ limit
      → All (IsDefined e) xs
      → Distinct (execution_ids xs)
      → Unclaimed claimed xs
      → LoopWrites k claimed xs
  claim_loop-writes k claimed [] room known d apart = unfold claim_loop in tt
  claim_loop-writes zero claimed (x ∷ xs) room known d apart =
      let later =
        claim_loop-writes zero claimed xs room known.1 d.1 (λ a m. apart a (ground arith)) in
      elim (claim_loop_cases e.graph.nodes e.nodes owner limit claimed x xs) [
        | inl (skipped, same) ↦
            writes_of_push (chosen zero claimed xs) x x xs same
              (skip-Given zero claimed x xs apart d) later
        | inr (inl (idle, open', missing, same)) ↦ absurd (undefined e x known.0 missing)
        | inr (inr (inl (n, idle, open', found, met, same))) ↦ absurd (ground arith)
        | inr (inr (inr (n, idle, open', found, unmet, same))) ↦ absurd (ground arith)
      ]
  claim_loop-writes (suc k) claimed (x ∷ xs) room known d apart =
      let later =
        claim_loop-writes (suc k) claimed xs room known.1 d.1 (λ a m. apart a (ground arith)) in
      let further =
        claim_loop-writes k (claimed ++ x.node_id ∷ []) xs
          (omega (arith, length-append claimed (x.node_id ∷ []))) known.1 d.1
          (Unclaimed-next claimed x xs apart d) in
      let related = λ (out : List ℕ). Pairs (Given out) (x ∷ xs) (looped claimed (x ∷ xs)).0 in
      let skip = skip-Given (suc k) claimed x xs apart d in
      elim (claim_loop_cases e.graph.nodes e.nodes owner limit claimed x xs) [
        | inl (skipped, same) ↦
            subst related (chosen_skip (suc k) claimed x xs (ground arith))
              (writes_of_push (chosen (suc k) claimed xs) x x xs same skip later)
        | inr (inl (idle, open', missing, same)) ↦ absurd (undefined e x known.0 missing)
        | inr (inr (inl (n, idle, open', found, met, same))) ↦
            subst related (chosen_next k claimed x xs (ground arith)) (
              writes_of_push (chosen k (claimed ++ x.node_id ∷ []) xs) x (give_to owner x) xs same
                (give-Given k claimed x xs) further)
        | inr (inr (inr (n, idle, open', found, unmet, same))) ↦
            subst related (chosen_skip (suc k) claimed x xs (ground arith))
              (writes_of_push (chosen (suc k) claimed xs) x x xs same skip later)
      ]
