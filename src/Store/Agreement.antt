-- ===== src/Store/Agreement.antt =====
-- After any calls, the launches and their grants agree.
use bastet_workstation.Common.{
  ℕ, ltb, refl, Bool-cases, ◌&&◌, Option, List, [], ◌∷◌, Result, ok, err, Holds, Holds-after,
  Holds-then, Holds-when, sym, subst, ◌≡◌, ◌>>=◌, true, false, is_none, arith, inl, inr, ◌==◌,
}
use bastet_workstation.Identity.{Run}
use bastet_workstation.Approval.{ApprovalRequest}
use bastet_workstation.Store.{
  Libraries, Tables, StoreError, StagedState, StagedRow, ProviderLaunchPlan,
}
use bastet_workstation.Store.Statements.{
  move_staged, is_dispatching_row, is_ready_row, exactly_one, spend_grant,
}
use bastet_workstation.Catalog.{IdentityCatalog}
use bastet_workstation.Store.Grants.{CredentialGrantRecord}
use bastet_workstation.Store.Claim.{CredentialReader, DispatchClaim, write_claim}
use bastet_workstation.Store.Dispatch.{claim_run, claim_staged_dispatch, reconcile}
use bastet_workstation.Store.Calls.{
  Call, stages, creates, decides, consumes, revokes, claims, loses, cancels, expires, reconciles,
  committed, committed_with, apply_call, apply_calls,
}
use bastet_workstation.Graph.{GraphExecution}
use bastet_workstation.Store.Later.{find_grant, is_none-eq}
use bastet_workstation.Store.Spend.{is_unusable}
use bastet_workstation.Store.Spending.{IsFree, IsSpent, spend_grant-IsSpent}
use bastet_workstation.Store.Loaded.{IsApproved, loading}
use bastet_workstation.Store.Settled.{demand, IsSettled, settled-move}
use bastet_workstation.Store.Settling.{
  Settles, settle, one, log-Settles, write_catalog-Settles, write_graph-Settles,
  insert_claim-Settles, spend_grant-Settles,
}
use bastet_workstation.Store.Settlement.{
  answer-Settles, log_ok-Settles, stage-Settles, decide_approval-Settles, consume-Settles,
  revoke_credential_grant-Settles, expire_staged_launches-Settles, fail_dispatch_claim-Settles,
  create_approval-Settles, cancel_staged_run-Settles,
}

-- The grant of the request is spent as well.
record Paid (id : ℕ) (t : Tables) : Type 0 where
  settles : Settles t
  spent : IsSpent id t

pay-Paid :
    (t : Tables) (id now : ℕ) (e : StoreError)
    → Settles t
    → IsFree id t
    → Holds (Paid id) (exactly_one (spend_grant id now t) e)
pay-Paid t id now e h free = record {
  at = λ u answer. record {
    settles = (spend_grant-Settles t id now e h).at u answer;
    spent = (spend_grant-IsSpent t id now e free).at u answer;
  };
}

-- A launch whose grant is spent may be dispatched.
dispatch-Settles :
    (t : Tables) (id : ℕ) (e : StoreError)
    → Paid id t
    → Holds Settles (
        exactly_one
          (move_staged
            (λ (s : StagedRow). s.request_id == id && is_ready_row s.state)
            (λ s. record s { state = StagedState.dispatching })
            t)
          e)
dispatch-Settles t id e paid = one Settles _ _ e (record {
  all =
      settled-move t (λ (s : StagedRow). s.request_id == id && is_ready_row s.state)
        (λ s. record s { state = StagedState.dispatching }) (λ r. refl)
        (λ r y d.
          let (g, found, spent) = paid.spent in
          let same : r.request_id ≡ id = ground arith in
          subst (λ k. demand StagedState.dispatching (find_grant k t.grants) ≡ true) (sym same)
            (rw found spent))
        paid.settles.all;
})

paying :
    (t : Tables) (id now : ℕ) (e : StoreError) (k : Tables → Result Tables StoreError)
    → Settles t
    → IsFree id t
    → ((u : Tables) → Paid id u → Holds Settles (k u))
    → Holds Settles (exactly_one (spend_grant id now t) e >>= k)
paying t id now e k h free rest = Holds-then Settles (Paid id) _ k (pay-Paid t id now e h free) rest

write_claim-Settles :
    (t : Tables) (id run_id : ℕ) (plan : ProviderLaunchPlan) (c : IdentityCatalog)
    (e : GraphExecution) (next now : ℕ)
    → Settles t
    → IsFree id t
    → Holds Settles (write_claim t id run_id plan c e next now)
unfolding write_claim
write_claim-Settles t id run_id plan c e next now h free =
    search
      (
        paying,
        settle Settles,
        dispatch-Settles,
        insert_claim-Settles,
        write_catalog-Settles,
        write_graph-Settles,
        log_ok-Settles,
        log-Settles,
      )
      depth 14

-- A grant that was loaded and is usable is free.
pub usable_grant :
    (lib : Libraries) (id now : ℕ) (t : Tables) (grant : CredentialGrantRecord)
    → IsApproved lib t id grant
    → is_unusable now grant ≡ false
    → IsFree id t
usable_grant lib id now t grant a usable =
    let spent : is_none a.row.consumed_at_ms ≡ true = ground (arith, a.consumed) in
    let kept : is_none a.row.revoked_at_ms ≡ true = ground (arith, a.revoked) in
    (
      a.row,
      a.found_row,
      (is_none-eq a.row.consumed_at_ms spent, is_none-eq a.row.revoked_at_ms kept),
    )

module _ (lib : Libraries) where
  claim_run-Settles :
      (t : Tables) (id run_id : ℕ) (r : ApprovalRequest) (c : IdentityCatalog) (run : Run)
      (reader : CredentialReader) (now : ℕ)
      → Settles t
      → IsFree id t
      → Holds
          (λ (p : Tables × DispatchClaim). Settles p.0)
          (claim_run lib t id run_id r c run reader now)
  unfolding claim_run
  claim_run-Settles t id run_id r c run reader now h free =
      search (settle, Holds-after, write_claim-Settles, answer-Settles) depth 40

  claim-Settles :
      (t : Tables) (id : ℕ) (reader : CredentialReader) (clock : Option ℕ)
      → Settles t
      → Holds
          (λ (p : Tables × DispatchClaim). Settles p.0)
          (claim_staged_dispatch lib t id reader clock)
  unfolding claim_staged_dispatch
  claim-Settles t id reader clock h =
      search (loading, Holds-when, Holds-after, usable_grant lib, claim_run-Settles) depth 24

reconcile-Settles : (t : Tables) → Settles t → Settles (reconcile t)
unfolding reconcile
reconcile-Settles t h =
    let moved =
      move_staged (λ (s : StagedRow). is_dispatching_row s.state)
        (λ s. record s { state = StagedState.uncertain }) t in
    let l : Settles moved.0 = record {
      all =
          settled-move t (λ (s : StagedRow). is_dispatching_row s.state)
            (λ s. record s { state = StagedState.uncertain }) (λ r. refl) (λ r y d. ground arith)
            h.all;
    } in
    elim (Bool-cases (ltb 0 moved.1)) [ inl e ↦ rw e (log-Settles _ _ _ _ l) | inr e ↦ rw e l ]

committed-Settles :
    (t : Tables) (r : Result Tables StoreError)
    → Settles t
    → Holds Settles r
    → Settles (committed t r)
committed-Settles t (ok u) h holds = holds.at u refl
committed-Settles t (err e) h holds = h

committed_with-Settles :
    {A : Type 0} (t : Tables) (r : Result (Tables × A) StoreError)
    → Settles t
    → Holds (λ (p : Tables × A). Settles p.0) r
    → Settles (committed_with t r)
committed_with-Settles t (ok (u, a)) h holds = holds.at (u, a) refl
committed_with-Settles t (err e) h holds = h

apply_call-Settles :
    (lib : Libraries) (t : Tables) (c : Call) → Settles t → Settles (apply_call lib t c)
unfolding apply_call
apply_call-Settles lib t (stages plan id clock) h =
    committed-Settles t _ h (stage-Settles lib t plan id clock h)
apply_call-Settles lib t (creates r clock) h =
    committed-Settles t _ h (create_approval-Settles lib t r clock h)
apply_call-Settles lib t (decides d acknowledged clock later) h =
    committed-Settles t _ h (decide_approval-Settles lib t d acknowledged clock later h)
apply_call-Settles lib t (consumes id action clock) h =
    committed_with-Settles t _ h (consume-Settles lib t id action clock h)
apply_call-Settles lib t (revokes id actor clock later) h =
    committed_with-Settles t _ h (revoke_credential_grant-Settles lib t id actor clock later h)
apply_call-Settles lib t (claims id reader clock) h =
    committed_with-Settles t _ h (claim-Settles lib t id reader clock h)
apply_call-Settles lib t (loses run_id stamp) h =
    committed-Settles t _ h (fail_dispatch_claim-Settles lib t run_id stamp h)
apply_call-Settles lib t (cancels run_id expected clock) h =
    committed-Settles t _ h (cancel_staged_run-Settles lib t run_id expected clock h)
apply_call-Settles lib t (expires clock clocks) h =
    committed-Settles t _ h (expire_staged_launches-Settles lib t clock clocks h)
apply_call-Settles lib t reconciles h = reconcile-Settles t h

apply_calls-Settles :
    (lib : Libraries) (t : Tables) (cs : List Call) → Settles t → Settles (apply_calls lib t cs)
unfolding apply_calls
apply_calls-Settles lib t [] h = h
apply_calls-Settles lib t (c ∷ cs) h =
    apply_calls-Settles lib (apply_call lib t c) cs (apply_call-Settles lib t c h)

-- In tables where every launch that is dispatching or uncertain has spent its grant, and no launch that
-- is cancelled has a grant that was neither spent nor revoked, this is so after any calls too.
pub apply_calls-IsSettled :
    (lib : Libraries) (t : Tables) (cs : List Call) → IsSettled t → IsSettled (apply_calls lib t cs)
apply_calls-IsSettled lib t cs h = (apply_calls-Settles lib t cs (record { all = h })).all
