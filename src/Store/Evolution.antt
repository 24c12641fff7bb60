-- ===== src/Store/Evolution.antt =====
-- Every call changes grants and staged launches only as the diagrams allow.
use bastet_workstation.Common.{
  ℕ, suc, find, ltb, refl, String, Bool, Bool-cases, ◌&&◌, Option, none, some, List, [], ◌∷◌,
  Result, ok, err, Holds, Holds-after, arith, inl, inr, ◌==◌,
}
use bastet_workstation.Identity.{RunId, Run}
use bastet_workstation.Approval.{
  ApprovalAction, ApprovalRequest, ApprovalDecision, ApprovalDecisionKind,
}
use bastet_workstation.Store.{
  Libraries, Tables, StoreError, StagedState, StagedRow, ProviderLaunchPlan, approval_conflict,
  credential_grant_rejected,
}
use bastet_workstation.Store.Statements.{
  move_staged, staged_of, is_awaiting_row, is_dispatching_row,
}
use bastet_workstation.Catalog.{IdentityCatalog}
use bastet_workstation.Store.Grants.{CredentialGrantRecord, is_approve}
use bastet_workstation.Store.Launches.{
  stage, approve_launch, deny_launch, decide_launch, on_decision, cancel_each, expire,
}
use bastet_workstation.Store.Spend.{consume_credential_grant, revoke_credential_grant}
use bastet_workstation.Store.Claim.{CredentialReader, DispatchClaim}
use bastet_workstation.Store.Dispatch.{
  claim_run, claim_staged_dispatch, fail_dispatch_claim, reconcile,
}
use bastet_workstation.Store.Decision.{
  create_approval, decide_approval, cancel_open_run, cancel_staged_run, expire_staged_launches,
}
use bastet_workstation.Store.Calls.{
  Call, stages, creates, decides, consumes, revokes, claims, loses, cancels, expires, reconciles,
  committed, committed_with, apply_call, apply_calls,
}
use bastet_workstation.Store.Later.{Later, Later-refl, Later-trans, Later-staged}
use bastet_workstation.Store.Keeps.{
  unchanged-Later, chain, chain_with, answer-Later, write_catalog-Later, write_graph-Later,
  insert_event-Later, cancel_for_request-Later,
}
use bastet_workstation.Store.Steps.{
  insert_approval-Later, ok-Later, insert_staged-Later, spend_grant-Later, revoke-Later, move-Later,
  log-Later, write_decision-Later, write_claim-Later, issue_if-Later,
}

module _ (lib : Libraries) where
  stage-Later :
      (t : Tables) (plan : ProviderLaunchPlan) (id : ℕ) (clock : Option ℕ)
      → Holds (Later t) (stage lib t plan id clock)
  unfolding stage
  stage-Later t plan id clock =
      search
        (
          chain, Holds-after, insert_approval-Later, insert_staged-Later, log-Later,
          insert_event-Later, Later-refl,
        )
        depth 24

  deny_launch-Later :
      (t : Tables) (r : ApprovalRequest) (run_id : ℕ) (clock : Option ℕ)
      → Holds (Later t) (deny_launch lib t r run_id clock)
  unfolding deny_launch
  deny_launch-Later t r run_id clock = search (Holds-after, cancel_for_request-Later) depth 10

  consume-Later :
      (t : Tables) (id : ℕ) (action : ApprovalAction) (clock : Option ℕ)
      → Holds
          (λ (p : Tables × CredentialGrantRecord). Later t p.0)
          (consume_credential_grant lib t id action clock)
  unfolding consume_credential_grant
  consume-Later t id action clock =
      search
        (chain_with, Holds-after, spend_grant-Later, answer-Later, insert_event-Later, Later-refl)
        depth 20

  revoke_credential_grant-Later :
      (t : Tables) (id : ℕ) (actor : String) (clock later : Option ℕ)
      → Holds
          (λ (p : Tables × CredentialGrantRecord). Later t p.0)
          (revoke_credential_grant lib t id actor clock later)
  unfolding revoke_credential_grant
  revoke_credential_grant-Later t id actor clock later =
      search
        (
          chain_with, Holds-after, revoke-Later, cancel_for_request-Later, answer-Later,
          insert_event-Later, Later-refl,
        )
        depth 20

  approve_launch-Later :
      (t : Tables) (r : ApprovalRequest) (run_id : RunId) (run : Run)
      → Holds (Later t) (approve_launch lib t r run_id run)
  unfolding approve_launch
  approve_launch-Later t r run_id run =
      let moved = λ (u : Tables).
        move-Later u (λ (s : StagedRow). s.request_id == r.id && is_awaiting_row s.state)
          StagedState.ready approval_conflict (λ s here. ground arith) in
      search (chain, Holds-after, moved, log-Later, Later-refl) depth 10

  on_decision-Later :
      (t : Tables) (r : ApprovalRequest) (kind : ApprovalDecisionKind) (clock : Option ℕ)
      → Holds (Later t) (on_decision lib t r kind clock)
  unfolding on_decision
  on_decision-Later t r kind clock = on_row (staged_of r.id t)
    where
      on_row : (o : Option StagedRow) → Holds (Later t) (decide_launch lib t r kind o clock)
      on_row none = ok-Later t t (Later-refl t)
      on_row (some row) = elim (Bool-cases (is_approve kind)) [
        | inl e ↦ rw e (search (Holds-after, approve_launch-Later))
        | inr e ↦ rw e (search (Holds-after, deny_launch-Later))
      ]

  cancel_each-Later :
      (t : Tables) (ids : List ℕ) (clocks : ℕ → Option ℕ)
      → Holds (Later t) (cancel_each lib t ids clocks)
  unfolding cancel_each
  cancel_each-Later t [] clocks = ok-Later t t (Later-refl t)
  cancel_each-Later t (id ∷ ids) clocks =
      chain t _ _ (cancel_for_request-Later lib t id "approval_expired" (clocks 0))
        (λ u. cancel_each-Later u ids (λ n. clocks (suc n)))

  expire_staged_launches-Later :
      (t : Tables) (clock : Option ℕ) (clocks : ℕ → Option ℕ)
      → Holds (Later t) (expire_staged_launches lib t clock clocks)
  unfolding expire_staged_launches expire
  expire_staged_launches-Later t clock clocks = search (Holds-after, cancel_each-Later)

  claim_run-Later :
      (t : Tables) (id run_id : ℕ) (r : ApprovalRequest) (c : IdentityCatalog) (run : Run)
      (reader : CredentialReader) (now : ℕ)
      → Holds
          (λ (p : Tables × DispatchClaim). Later t p.0)
          (claim_run lib t id run_id r c run reader now)
  unfolding claim_run
  claim_run-Later t id run_id r c run reader now =
      search (chain_with, Holds-after, write_claim-Later, answer-Later, Later-refl) depth 40

  claim-Later :
      (t : Tables) (id : ℕ) (reader : CredentialReader) (clock : Option ℕ)
      → Holds
          (λ (p : Tables × DispatchClaim). Later t p.0)
          (claim_staged_dispatch lib t id reader clock)
  unfolding claim_staged_dispatch
  claim-Later t id reader clock = search (Holds-after, claim_run-Later) depth 20

  pub fail_dispatch_claim-Later :
      (t : Tables) (run_id : ℕ) (stamp : String)
      → Holds (Later t) (fail_dispatch_claim lib t run_id stamp)
  unfolding fail_dispatch_claim
  fail_dispatch_claim-Later t run_id stamp =
      let moved = λ (u : Tables).
        move-Later u (λ (s : StagedRow). s.run_id == run_id && is_dispatching_row s.state)
          StagedState.uncertain credential_grant_rejected (λ s here. ground arith) in
      search
        (chain, Holds-after, moved, write_catalog-Later, write_graph-Later, log-Later, Later-refl)
        depth 30

  create_approval-Later :
      (t : Tables) (r : ApprovalRequest) (clock : Option ℕ)
      → Holds (Later t) (create_approval lib t r clock)
  unfolding create_approval
  create_approval-Later t r clock = search (Holds-after, unchanged-Later) depth 10

  decide_approval-Later :
      (t : Tables) (d : ApprovalDecision) (acknowledged : Bool) (clock later : Option ℕ)
      → Holds (Later t) (decide_approval lib t d acknowledged clock later)
  unfolding decide_approval
  decide_approval-Later t d acknowledged clock later =
      search
        (
          chain, Holds-after, write_decision-Later, issue_if-Later, on_decision-Later, log-Later,
          Later-refl,
        )
        depth 16

  cancel_staged_run-Later :
      (t : Tables) (run_id expected : ℕ) (clock : Option ℕ)
      → Holds (Later t) (cancel_staged_run lib t run_id expected clock)
  unfolding cancel_staged_run
  cancel_staged_run-Later t run_id expected clock = on_row (find _ t.staged)
    where
      on_row :
          (o : Option StagedRow) → Holds (Later t) (cancel_open_run lib t expected o run_id clock)
      on_row none = ok-Later t t (Later-refl t)
      on_row (some row) =
          search (chain, Holds-after, cancel_for_request-Later, log-Later, Later-refl) depth 8

reconcile-Later : (t : Tables) → Later t (reconcile t)
unfolding reconcile
reconcile-Later t =
    let moved =
      move_staged (λ (s : StagedRow). is_dispatching_row s.state)
        (λ s. record s { state = StagedState.uncertain }) t in
    let l : Later t moved.0 =
      Later-staged t (λ (s : StagedRow). is_dispatching_row s.state)
        (λ s. record s { state = StagedState.uncertain }) (λ r. refl)
        (λ r here. (refl, refl, ground arith)) in
    elim (Bool-cases (ltb 0 moved.1)) [
      | inl e ↦ rw e (insert_event-Later t _ _ _ _ l)
      | inr e ↦ rw e l
    ]

committed-Later :
    (t : Tables) (r : Result Tables StoreError) → Holds (Later t) r → Later t (committed t r)
committed-Later t (ok u) h = h.at u refl
committed-Later t (err e) h = Later-refl t

committed_with-Later :
    {A : Type 0} (t : Tables) (r : Result (Tables × A) StoreError)
    → Holds (λ (p : Tables × A). Later t p.0) r
    → Later t (committed_with t r)
committed_with-Later t (ok (u, a)) h = h.at (u, a) refl
committed_with-Later t (err e) h = Later-refl t

pub apply_call-Later : (lib : Libraries) (t : Tables) (c : Call) → Later t (apply_call lib t c)
unfolding apply_call
apply_call-Later lib t (stages plan id clock) =
    committed-Later t _ (stage-Later lib t plan id clock)
apply_call-Later lib t (creates r clock) = committed-Later t _ (create_approval-Later lib t r clock)
apply_call-Later lib t (decides d acknowledged clock later) =
    committed-Later t _ (decide_approval-Later lib t d acknowledged clock later)
apply_call-Later lib t (consumes id action clock) =
    committed_with-Later t _ (consume-Later lib t id action clock)
apply_call-Later lib t (revokes id actor clock later) =
    committed_with-Later t _ (revoke_credential_grant-Later lib t id actor clock later)
apply_call-Later lib t (claims id reader clock) =
    committed_with-Later t _ (claim-Later lib t id reader clock)
apply_call-Later lib t (loses run_id stamp) =
    committed-Later t _ (fail_dispatch_claim-Later lib t run_id stamp)
apply_call-Later lib t (cancels run_id expected clock) =
    committed-Later t _ (cancel_staged_run-Later lib t run_id expected clock)
apply_call-Later lib t (expires clock clocks) =
    committed-Later t _ (expire_staged_launches-Later lib t clock clocks)
apply_call-Later lib t reconciles = reconcile-Later t

-- After any calls, a grant that was there still is, with its time of issue; a grant that had been spent
-- or revoked has the same row, and a grant that was not may have been spent or revoked, never both. And
-- a staged launch that was there still is, for the same run, and its state has followed the diagram:
-- from awaiting approval to ready, to dispatching, to uncertain, or from the first two to cancelled.
pub apply_calls-Later :
    (lib : Libraries) (t : Tables) (cs : List Call) → Later t (apply_calls lib t cs)
unfolding apply_calls
apply_calls-Later lib t [] = Later-refl t
apply_calls-Later lib t (c ∷ cs) =
    Later-trans t (apply_call lib t c) _ (apply_call-Later lib t c)
      (apply_calls-Later lib (apply_call lib t c) cs)
