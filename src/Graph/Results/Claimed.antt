-- ===== src/Graph/Results/Claimed.antt =====
-- `claim_ready` on a valid execution.
use bastet_workstation.Common.{
  ℕ, ◌≡◌, ◌≢◌, refl, String, Bool, true, false, not, ◌||◌, List, [], ◌∷◌, arith, any, All, Pairs,
  take, if◌then◌else◌, ◌==◌, ok, is_blank, is_empty, u64_next,
}
use bastet_workstation.Graph.{GraphNode, GraphNodeExecution, GraphExecution}
use bastet_workstation.Graph.Execution.{validate, has_node}
use bastet_workstation.Graph.Transitions.{claim_ready}
use bastet_workstation.Graph.Lifecycle.Ready.{ready_ids, Given, claim_loop-gives, claim_loop-writes}
use bastet_workstation.Graph.History.Valid.{is_bad}
use bastet_workstation.Graph.History.Outputs.{validate-IsValid}

pub All-defined :
    (nodes : List GraphNode) (xs : List GraphNodeExecution)
    → any (is_bad nodes) xs ≡ false
    → All (λ x. has_node nodes x.node_id ≡ true) xs
All-defined nodes [] h = tt
All-defined nodes (x ∷ xs) h = (ground arith, All-defined nodes xs (ground arith))

if_not {ℓ} : {A : Type ℓ} (b : Bool) (x y : A) → (if not b then x else y) ≡ (if b then y else x)
if_not true x y = refl
if_not false x y = refl

-- On an execution that `validate` accepts, with an owner that is not blank and a positive limit,
-- `claim_ready` returns the ids of the first `limit` ready nodes (those that are pending and all of
-- whose needs have succeeded), in the order of the record. Exactly the records of these nodes are
-- given to the owner; the others, the graph and the outputs stay as they are, and the revision moves
-- on if a node was claimed.
pub claim_ready_takes_first :
    (digest : String → String) (e : GraphExecution) (owner : String) (limit : ℕ)
    → validate digest e ≡ ok tt
    → is_blank owner ≡ false
    → limit ≢ 0
    → let out = take limit (ready_ids e e.nodes) in
      let e' = (claim_ready e owner limit).0 in
      ((claim_ready e owner limit).1 ≡ ok out)
      × Pairs (Given e owner limit out) e.nodes e'.nodes
      × (e'.graph ≡ e.graph)
      × (e'.outputs ≡ e.outputs)
      × (e'.revision ≡ (if is_empty out then e.revision else u64_next e.revision))
unfolding claim_ready
claim_ready_takes_first digest e owner limit h named some_room =
    let v = validate-IsValid digest e h in
    let known = All-defined e.graph.nodes e.nodes v.consistent.sound in
    let gives = claim_loop-gives e owner limit limit [] e.nodes (omega arith) known in
    let writes =
      claim_loop-writes e owner limit limit [] e.nodes (omega arith) known v.consistent.unique
        (λ a m. refl) in
    let open' : (is_blank owner || limit == 0) ≡ false = ground arith in
    rw (open', claim_ready)
      (
        gives,
        writes,
        refl,
        refl,
        rw gives (if_not (is_empty (take limit (ready_ids e e.nodes))) _ _),
      )
