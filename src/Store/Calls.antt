-- ===== src/Store/Calls.antt =====
-- Any sequence of the calls on staged launches and credential grants. The daemon takes its calls one
-- after the other, each with its own transaction, under the lock of its connection.
use bastet_workstation.Common.{ℕ, String, Bool, Option, List, [], ◌∷◌, Result, ok, err}
use bastet_workstation.Identity.{ApprovalRequestId, RunId}
use bastet_workstation.Approval.{ApprovalAction, ApprovalRequest, ApprovalDecision}
use bastet_workstation.Store.{ProviderLaunchPlan, Libraries, Tables, StoreError}
use bastet_workstation.Store.Launches.{stage}
use bastet_workstation.Store.Spend.{consume_credential_grant, revoke_credential_grant}
use bastet_workstation.Store.Claim.{CredentialReader}
use bastet_workstation.Store.Dispatch.{claim_staged_dispatch, fail_dispatch_claim, reconcile}
use bastet_workstation.Store.Decision.{
  create_approval, decide_approval, cancel_staged_run, expire_staged_launches,
}

pub data Call : Type 0 where
  stages : ProviderLaunchPlan → ApprovalRequestId → Option ℕ → Call
  creates : ApprovalRequest → Option ℕ → Call
  decides : ApprovalDecision → Bool → Option ℕ → Option ℕ → Call
  consumes : ApprovalRequestId → ApprovalAction → Option ℕ → Call
  revokes : ApprovalRequestId → String → Option ℕ → Option ℕ → Call
  claims : ApprovalRequestId → CredentialReader → Option ℕ → Call
  loses : RunId → String → Call
  cancels : RunId → ℕ → Option ℕ → Call
  expires : Option ℕ → (ℕ → Option ℕ) → Call
  reconciles : Call

-- The transaction is committed when the call succeeds, and rolled back when it does not.
abbrev pub committed : Tables → Result Tables StoreError → Tables
committed t (ok next) = next
committed t (err e) = t

abbrev pub committed_with {ℓ} : {A : Type ℓ} → Tables → Result (Tables × A) StoreError → Tables
committed_with t (ok (next, a)) = next
committed_with t (err e) = t

module _ (lib : Libraries) where
  unfoldable pub apply_call : Tables → Call → Tables
  apply_call t (stages plan id clock) = committed t (stage lib t plan id clock)
  apply_call t (creates r clock) = committed t (create_approval lib t r clock)
  apply_call t (decides d acknowledged clock later) =
      committed t (decide_approval lib t d acknowledged clock later)
  apply_call t (consumes id action clock) =
      committed_with t (consume_credential_grant lib t id action clock)
  apply_call t (revokes id actor clock later) =
      committed_with t (revoke_credential_grant lib t id actor clock later)
  apply_call t (claims id reader clock) =
      committed_with t (claim_staged_dispatch lib t id reader clock)
  apply_call t (loses run_id stamp) = committed t (fail_dispatch_claim lib t run_id stamp)
  apply_call t (cancels run_id expected clock) =
      committed t (cancel_staged_run lib t run_id expected clock)
  apply_call t (expires clock clocks) = committed t (expire_staged_launches lib t clock clocks)
  apply_call t reconciles = reconcile t

  unfoldable pub apply_calls : Tables → List Call → Tables
  apply_calls t [] = t
  apply_calls t (c ∷ cs) = apply_calls (apply_call t c) cs
