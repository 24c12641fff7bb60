-- ===== src/Store/Steps.antt =====
-- Every statement changes grants and staged launches only as the diagrams allow.
use bastet_workstation.Common.{
  ℕ, ◌≡◌, refl, String, Bool, Option-cases, true, false, ◌&&◌, Option, some, ok, Holds, Holds-ok,
  Holds-after, arith, inl, inr, ◌==◌,
}
use bastet_workstation.Approval.{ApprovalRequest, ApprovalDecision}
use bastet_workstation.Store.{
  Tables, StoreError, StagedState, StagedRow, GrantRow, ApprovalRow, ClaimRow, ProviderLaunchPlan,
  credential_grant_rejected,
}
use bastet_workstation.Store.Statements.{
  exactly_one, insert_event, revoke_grant_at, spend_grant, move_staged, staged_of, grant_of,
  is_ready_row, insert_approval, insert_staged, insert_claim, insert_grant, fresh_grant,
}
use bastet_workstation.Catalog.{IdentityCatalog}
use bastet_workstation.Graph.{GraphExecution}
use bastet_workstation.Store.Grants.{issue}
use bastet_workstation.Store.Claim.{write_claim}
use bastet_workstation.Store.Decision.{write_decision, issue_if}
use bastet_workstation.Store.Later.{
  Later, IsOneUse, leads_to, Later-refl, Later-same, Later-staged, Later-grants, Later-new_grant,
  Later-new_staged,
}
use bastet_workstation.Store.Keeps.{
  unchanged-Later, chain, exactly_one-Later, write_catalog-Later, write_graph-Later,
  insert_event-Later, revoke_grant_at-Later,
}

pub insert_approval-Later :
    (row : ApprovalRow) (t : Tables) → Holds (Later t) (insert_approval row t)
insert_approval-Later row t = search (Holds-after, unchanged-Later)

pub insert_claim-Later : (row : ClaimRow) (t : Tables) → Holds (Later t) (insert_claim row t)
insert_claim-Later row t = search (Holds-after, unchanged-Later)

pub ok-Later : (t u : Tables) → Later t u → Holds {E = StoreError} (Later t) (ok u)
ok-Later t u l = Holds-ok (Later t) _ u refl l

pub insert_staged-Later : (row : StagedRow) (t : Tables) → Holds (Later t) (insert_staged row t)
insert_staged-Later row t = elim (Option-cases (staged_of row.request_id t)) [
  | inr (old, found) ↦ record { at = λ u h. absurd (ground arith) }
  | inl new ↦ search (Holds-after, ok-Later, Later-new_staged)
]

pub insert_grant-Later : (id at : ℕ) (t : Tables) → Holds (Later t) (insert_grant id at t)
insert_grant-Later id at t = elim (Option-cases (grant_of id t)) [
  | inr (old, found) ↦ record { at = λ u h. absurd (ground arith) }
  | inl new ↦
      let unused : (n : ℕ) → IsOneUse (fresh_grant id n) = λ n. inl refl in
      search (Holds-after, ok-Later, Later-new_grant, unused) depth 8
]

pub spend_grant-Later :
    (t : Tables) (id now : ℕ) (e : StoreError)
    → Holds (Later t) (exactly_one (spend_grant id now t) e)
spend_grant-Later t id now e = exactly_one-Later t _ _ e (
    Later-grants t id (λ r. record r { consumed_at_ms = some now }) (λ g. refl) (λ g. refl)
      (λ g unused. inr unused.1))

pub revoke-Later :
    (t : Tables) (id : ℕ) (time : GrantRow → ℕ) (actor : String) (e : StoreError)
    → Holds (Later t) (exactly_one (revoke_grant_at id time actor t) e)
revoke-Later t id time actor e = exactly_one-Later t _ _ e (revoke_grant_at-Later t id time actor)

-- A move of launches along one edge of the diagram.
pub move-Later :
    (t : Tables) (p : StagedRow → Bool) (state : StagedState) (e : StoreError)
    → ((r : StagedRow) → p r ≡ true → leads_to r.state state ≡ true)
    → Holds (Later t) (exactly_one (move_staged p (λ s. record s { state = state }) t) e)
move-Later t p state e edge = exactly_one-Later t _ _ e (
    Later-staged t p (λ s. record s { state = state }) (λ r. refl)
      (λ r here. (refl, refl, edge r here)))

pub log-Later :
    (t : Tables) (event_type : String) (request_id run_id : Option ℕ) (u : Tables)
    → Later t u
    → Holds {E = StoreError} (Later t) (ok (insert_event event_type request_id run_id u))
log-Later t event_type request_id run_id u l =
    Holds-ok (Later t) _ _ refl (insert_event-Later t event_type request_id run_id u l)

pub write_decision-Later :
    (t : Tables) (d : ApprovalDecision) (e : StoreError)
    → Holds (Later t) (exactly_one (write_decision d t) e)
write_decision-Later t d e = exactly_one-Later t _ _ e (Later-same t _ refl refl)

pub issue-Later :
    (t : Tables) (r : ApprovalRequest) (d : ApprovalDecision) → Holds (Later t) (issue t r d)
unfolding issue
issue-Later t r d = search (chain, insert_grant-Later, log-Later, Later-refl) depth 8

pub write_claim-Later :
    (t : Tables) (id run_id : ℕ) (plan : ProviderLaunchPlan) (c : IdentityCatalog)
    (e : GraphExecution) (next now : ℕ)
    → Holds (Later t) (write_claim t id run_id plan c e next now)
unfolding write_claim
write_claim-Later t id run_id plan c e next now =
    let moved = λ (u : Tables).
      move-Later u (λ (s : StagedRow). s.request_id == id && is_ready_row s.state)
        StagedState.dispatching credential_grant_rejected (λ s here. ground arith) in
    search
      (
        chain, spend_grant-Later, moved, insert_claim-Later, write_catalog-Later, write_graph-Later,
        log-Later, insert_event-Later, Later-refl,
      )
      depth 14

pub issue_if-Later :
    (b : Bool) (t : Tables) (r : ApprovalRequest) (d : ApprovalDecision)
    → Holds (Later t) (issue_if b t r d)
issue_if-Later true t r d = issue-Later t r d
issue_if-Later false t r d = ok-Later t t (Later-refl t)
