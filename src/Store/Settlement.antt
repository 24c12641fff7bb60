-- ===== src/Store/Settlement.antt =====
-- Every call leaves the launches and their grants settled.
use bastet_workstation.Common.{
  ℕ, suc, find, refl, String, Bool, Bool-cases, ◌&&◌, Option, none, some, List, [], ◌∷◌, Result, ok,
  Option-cases, ◌∙◌, Holds, Holds-ok, Holds-after, Holds-when, sym, ◌≡◌, ◌>>=◌, not, true, false,
  arith, inl, inr, ◌==◌,
}
use bastet_workstation.Identity.{RunId, Run}
use bastet_workstation.Approval.{
  ApprovalAction, ApprovalRequest, ApprovalDecision, ApprovalDecisionKind,
}
use bastet_workstation.Store.{
  Libraries, Tables, StoreError, StagedState, StagedRow, ProviderLaunchPlan, approval_conflict,
  credential_grant_rejected,
}
use bastet_workstation.Store.Statements.{
  insert_event, staged_of, is_awaiting_row, is_dispatching_row, is_cancelled_row, exactly_one,
}
use bastet_workstation.Store.Grants.{CredentialGrantRecord, is_approve, issue}
use bastet_workstation.Store.Launches.{
  stage, approve_launch, deny_launch, on_decision, cancel_each, expire,
}
use bastet_workstation.Store.Spend.{consume_credential_grant, revoke_credential_grant}
use bastet_workstation.Store.Dispatch.{fail_dispatch_claim}
use bastet_workstation.Store.Decision.{
  create_approval, write_decision, issue_if, decide_approval, cancel_open_run, cancel_staged_run,
  expire_staged_launches,
}
use bastet_workstation.Store.Settled.{settled-nearly, nearly-settled}
use bastet_workstation.Store.Settling.{
  Settles, Nears, settle, near, one, ok-Settles, unchanged-Settles, log-Settles,
  write_catalog-Settles, write_graph-Settles, insert_approval-Settles, insert_staged-Settles,
  spend_grant-Settles, revoke-Settles, move-Settles, insert_grant-Nears, cancel_for_request-Settles,
}

pub answer-Settles :
    {A : Type 0} (u : Tables) (a : A)
    → Settles u
    → Holds {E = StoreError} (λ (p : Tables × A). Settles p.0) (ok (u, a))
answer-Settles {A} u a h = Holds-ok (λ (p : Tables × A). Settles p.0) _ (u, a) refl h

pub log_ok-Settles :
    (event_type : String) (request_id run_id : Option ℕ) (u : Tables)
    → Settles u
    → Holds {E = StoreError} Settles (ok (insert_event event_type request_id run_id u))
log_ok-Settles event_type request_id run_id u h =
    ok-Settles _ (log-Settles event_type request_id run_id u h)

pub write_decision-Settles :
    (t : Tables) (d : ApprovalDecision) (e : StoreError)
    → Settles t
    → Holds Settles (exactly_one (write_decision d t) e)
write_decision-Settles t d e h = one Settles _ _ e (record { all = h.all })

issue-Nears :
    (t : Tables) (r : ApprovalRequest) (d : ApprovalDecision)
    → Settles t
    → Holds (Nears r.id) (issue t r d)
unfolding issue
issue-Nears t r d h =
    near (Nears r.id) r.id _ _ (insert_grant-Nears r.id d.decided_at_ms t h)
      (λ u n. Holds-ok (Nears r.id) _ _ refl (record { all = n.all }))

issue_if-Nears :
    (b : Bool) (t : Tables) (r : ApprovalRequest) (d : ApprovalDecision)
    → Settles t
    → Holds (Nears r.id) (issue_if b t r d)
issue_if-Nears true t r d h = issue-Nears t r d h
issue_if-Nears false t r d h =
    Holds-ok (Nears r.id) _ t refl (record { all = settled-nearly t r.id h.all })

waits_open :
    (s r : StagedRow)
    → some s ≡ some r
    → not (is_awaiting_row r.state) ≡ false
    → is_cancelled_row s.state ≡ false
waits_open s r same waits = ground arith

module _ (lib : Libraries) where
  pub stage-Settles :
      (t : Tables) (plan : ProviderLaunchPlan) (id : ℕ) (clock : Option ℕ)
      → Settles t
      → Holds Settles (stage lib t plan id clock)
  unfolding stage
  stage-Settles t plan id clock h =
      search
        (
          settle Settles,
          Holds-after,
          insert_approval-Settles,
          insert_staged-Settles,
          log_ok-Settles,
          log-Settles,
        )
        depth 24

  pub deny_launch-Settles :
      (t : Tables) (r : ApprovalRequest) (run_id : ℕ) (clock : Option ℕ)
      → Settles t
      → Holds Settles (deny_launch lib t r run_id clock)
  unfolding deny_launch
  deny_launch-Settles t r run_id clock h = search (Holds-after, cancel_for_request-Settles) depth 10

  pub approve_launch-Settles :
      (t : Tables) (r : ApprovalRequest) (run_id : RunId) (run : Run)
      → Settles t
      → Holds Settles (approve_launch lib t r run_id run)
  unfolding approve_launch
  approve_launch-Settles t r run_id run h =
      let moved = λ (u : Tables).
        move-Settles u (λ (s : StagedRow). s.request_id == r.id && is_awaiting_row s.state)
          StagedState.ready approval_conflict (λ s g y d. refl) in
      search (settle Settles, Holds-after, moved, log_ok-Settles) depth 10

  -- A decision is on a launch that waits for it, so a new grant is not one of a cancelled launch.
  pub on_decision-Settles :
      (t : Tables) (r : ApprovalRequest) (kind : ApprovalDecisionKind) (clock : Option ℕ)
      → Nears r.id t
      → Holds Settles (on_decision lib t r kind clock)
  unfolding on_decision
  on_decision-Settles t r kind clock n = elim (Option-cases (staged_of r.id t)) [
    | inl e ↦ rw e (
        ok-Settles t (record {
          all = nearly-settled t r.id n.all (λ row found. absurd (ground (arith, e, found)));
        }))
    | inr (row, e) ↦ rw e (
        Holds-when Settles (not (is_awaiting_row row.state)) _ _ (λ awaiting.
          let h : Settles t = record {
            all =
                nearly-settled t r.id n.all
                  (λ other found. waits_open other row (sym found ∙ e) awaiting);
          } in
          elim (Bool-cases (is_approve kind)) [
            | inl y ↦ rw y (search (Holds-after, approve_launch-Settles))
            | inr y ↦ rw y (search (Holds-after, deny_launch-Settles))
          ]))
  ]

  -- The grant of an approval, and the launch that it is for.
  deciding :
      (b : Bool) (t : Tables) (r : ApprovalRequest) (d : ApprovalDecision)
      (kind : ApprovalDecisionKind) (clock : Option ℕ) (k : Tables → Result Tables StoreError)
      → Settles t
      → ((u : Tables) → Settles u → Holds Settles (k u))
      → Holds Settles (issue_if b t r d >>= (λ u. on_decision lib u r kind clock >>= k))
  deciding b t r d kind clock k h rest =
      near Settles r.id _ _ (issue_if-Nears b t r d h)
        (λ u n. settle Settles _ k (on_decision-Settles u r kind clock n) rest)

  pub decide_approval-Settles :
      (t : Tables) (d : ApprovalDecision) (acknowledged : Bool) (clock later : Option ℕ)
      → Settles t
      → Holds Settles (decide_approval lib t d acknowledged clock later)
  unfolding decide_approval
  decide_approval-Settles t d acknowledged clock later h =
      search (settle Settles, deciding, Holds-after, write_decision-Settles, log_ok-Settles) depth
        16

  pub consume-Settles :
      (t : Tables) (id : ℕ) (action : ApprovalAction) (clock : Option ℕ)
      → Settles t
      → Holds
          (λ (p : Tables × CredentialGrantRecord). Settles p.0)
          (consume_credential_grant lib t id action clock)
  unfolding consume_credential_grant
  consume-Settles t id action clock h =
      search (settle, Holds-after, spend_grant-Settles, answer-Settles, log-Settles) depth 20

  pub revoke_credential_grant-Settles :
      (t : Tables) (id : ℕ) (actor : String) (clock later : Option ℕ)
      → Settles t
      → Holds
          (λ (p : Tables × CredentialGrantRecord). Settles p.0)
          (revoke_credential_grant lib t id actor clock later)
  unfolding revoke_credential_grant
  revoke_credential_grant-Settles t id actor clock later h =
      search
        (
          settle, Holds-after, revoke-Settles, cancel_for_request-Settles, answer-Settles,
          log-Settles,
        )
        depth 20

  pub cancel_each-Settles :
      (t : Tables) (ids : List ℕ) (clocks : ℕ → Option ℕ)
      → Settles t
      → Holds Settles (cancel_each lib t ids clocks)
  unfolding cancel_each
  cancel_each-Settles t [] clocks h = ok-Settles t h
  cancel_each-Settles t (id ∷ ids) clocks h =
      settle Settles _ _ (cancel_for_request-Settles lib t id "approval_expired" (clocks 0) h)
        (λ u k. cancel_each-Settles u ids (λ n. clocks (suc n)) k)

  pub expire_staged_launches-Settles :
      (t : Tables) (clock : Option ℕ) (clocks : ℕ → Option ℕ)
      → Settles t
      → Holds Settles (expire_staged_launches lib t clock clocks)
  unfolding expire_staged_launches expire
  expire_staged_launches-Settles t clock clocks h = search (Holds-after, cancel_each-Settles)

  pub fail_dispatch_claim-Settles :
      (t : Tables) (run_id : ℕ) (stamp : String)
      → Settles t
      → Holds Settles (fail_dispatch_claim lib t run_id stamp)
  unfolding fail_dispatch_claim
  fail_dispatch_claim-Settles t run_id stamp h =
      let moved = λ (u : Tables).
        move-Settles u (λ (s : StagedRow). s.run_id == run_id && is_dispatching_row s.state)
          StagedState.uncertain credential_grant_rejected (λ s g y d. ground arith) in
      search
        (
          settle Settles,
          Holds-after,
          moved,
          write_catalog-Settles,
          write_graph-Settles,
          log_ok-Settles,
        )
        depth 30

  pub create_approval-Settles :
      (t : Tables) (r : ApprovalRequest) (clock : Option ℕ)
      → Settles t
      → Holds Settles (create_approval lib t r clock)
  unfolding create_approval
  create_approval-Settles t r clock h = search (Holds-after, unchanged-Settles) depth 10

  pub cancel_staged_run-Settles :
      (t : Tables) (run_id expected : ℕ) (clock : Option ℕ)
      → Settles t
      → Holds Settles (cancel_staged_run lib t run_id expected clock)
  unfolding cancel_staged_run
  cancel_staged_run-Settles t run_id expected clock h = on_row (find _ t.staged)
    where
      on_row :
          (o : Option StagedRow) → Holds Settles (cancel_open_run lib t expected o run_id clock)
      on_row none = ok-Settles t h
      on_row (some row) =
          search (settle Settles, Holds-after, cancel_for_request-Settles, log_ok-Settles) depth 8
