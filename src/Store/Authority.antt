-- ===== src/Store/Authority.antt =====
-- A grant is used only under an approval that is in force.
use bastet_workstation.Common.{
  ℕ, ◌≡◌, refl, subst, ◌≤◌, Bool, true, false, not, ◌||◌, is_none, Option, none, some, Result, ok,
  err, Holds, Holds-after, Holds-found, Holds-when, arith, is_ok,
}
use bastet_workstation.Identity.{Run}
use bastet_workstation.Catalog.{IdentityCatalog}
use bastet_workstation.Approval.{ApprovalAction}
use bastet_workstation.Store.{Libraries, Tables, StoreError}
use bastet_workstation.Store.Statements.{is_ready}
use bastet_workstation.Store.Grants.{CredentialGrantRecord}
use bastet_workstation.Store.Spend.{is_unusable, consume_credential_grant}
use bastet_workstation.Store.Claim.{CredentialReader}
use bastet_workstation.Store.Dispatch.{claim_run, claim_staged_dispatch}
use bastet_workstation.Store.Later.{IsUnused, is_none-eq}
use bastet_workstation.Store.Calls.{
  Call, stages, creates, decides, consumes, revokes, claims, loses, cancels, expires, reconciles,
}
use bastet_workstation.Store.Once.{spends}
use bastet_workstation.Store.Loaded.{
  IsApproved, IsCurrent, IsBacked, loading, timing, in_time, checking, settled,
}

-- The request was approved, and is in force at this time for a grant that was not used.
pub record IsAuthorised (lib : Libraries) (t : Tables) (id now : ℕ) : Type 0 where
  pub grant : CredentialGrantRecord
  pub approved : IsApproved lib t id grant
  pub unused : IsUnused approved.row
  pub not_before : grant.issued_at_ms ≤ now
  pub current : IsCurrent grant.request now
  pub backed : IsBacked t grant.request
  pub ready : is_ready t.lifecycle ≡ true

-- A call is authorised at the time that its clock shows.
abbrev pub IsAuthorisedAt : Libraries → Tables → ℕ → Option ℕ → Type 0
IsAuthorisedAt lib t id clock = (now : ℕ) × (clock ≡ some now) × IsAuthorised lib t id now

-- What the checks before the first write have shown.
authorised :
    (lib : Libraries) (t : Tables) (id now : ℕ) (clock : Option ℕ) (grant : CredentialGrantRecord)
    → IsApproved lib t id grant
    → clock ≡ some now
    → IsCurrent grant.request now
    → is_unusable now grant ≡ false
    → not (is_ready t.lifecycle) ≡ false
    → IsBacked t grant.request
    → IsAuthorisedAt lib t id clock
authorised lib t id now clock grant a shows current usable ready backed =
    let spent : is_none a.row.consumed_at_ms ≡ true = ground (arith, a.consumed) in
    let kept : is_none a.row.revoked_at_ms ≡ true = ground (arith, a.revoked) in
    (
      now,
      shows,
      record {
        grant = grant;
        approved = a;
        unused = (is_none-eq a.row.consumed_at_ms spent, is_none-eq a.row.revoked_at_ms kept);
        not_before = ground arith;
        current = current;
        backed = backed;
        ready = ground arith;
      },
    )

pub asked_usable : (b c : Bool) → (b || c) ≡ false → c ≡ false
asked_usable b c h = ground arith

module _ (lib : Libraries) where
  consume-IsAuthorisedAt :
      (t : Tables) (id : ℕ) (action : ApprovalAction) (clock : Option ℕ)
      → Holds (λ p. IsAuthorisedAt lib t id clock) (consume_credential_grant lib t id action clock)
  unfolding consume_credential_grant
  consume-IsAuthorisedAt t id action clock =
      search (loading, timing, in_time, checking, Holds-when, settled, authorised, asked_usable)
        depth 24

  -- The claim of the run validates the catalog again.
  claim_run-IsAuthorisedAt :
      (t : Tables) (id run_id : ℕ) (c : IdentityCatalog) (run : Run) (reader : CredentialReader)
      (now : ℕ) (clock : Option ℕ) (grant : CredentialGrantRecord)
      → IsApproved lib t id grant
      → clock ≡ some now
      → IsCurrent grant.request now
      → is_unusable now grant ≡ false
      → not (is_ready t.lifecycle) ≡ false
      → Holds
          (λ p. IsAuthorisedAt lib t id clock)
          (claim_run lib t id run_id grant.request c run reader now)
  unfolding claim_run
  claim_run-IsAuthorisedAt t id run_id c run reader now clock grant a shows current usable ready =
      search (checking, Holds-after, settled, authorised) depth 8

  claim-IsAuthorisedAt :
      (t : Tables) (id : ℕ) (reader : CredentialReader) (clock : Option ℕ)
      → Holds (λ p. IsAuthorisedAt lib t id clock) (claim_staged_dispatch lib t id reader clock)
  unfolding claim_staged_dispatch
  claim-IsAuthorisedAt t id reader clock =
      search (loading, timing, in_time, Holds-when, Holds-found, claim_run-IsAuthorisedAt) depth 24

-- The clock that a call reads first.
abbrev pub clock_of : Call → Option ℕ
clock_of (consumes id action clock) = clock
clock_of (claims id reader clock) = clock
clock_of c = none

at_answer :
    {A : Type 0} (Q : Type 0) (r : Result A StoreError)
    → is_ok r ≡ true
    → Holds (λ (a : A). Q) r
    → Q
at_answer Q (ok a) h holds = holds.at a refl
at_answer Q (err e) h holds = absurd (cc h)

-- A call that spends the grant of a request reads a time at which the request is in force. The request
-- binds a credential and is stored with the hash of its contents, and with a decision that approves it
-- and answers it, made when the grant was issued, not later than the time read; that time is not before
-- the creation and before the expiry; the grant was not used or revoked; the action is grounded in the
-- catalog that is stored, and the daemon is ready.
pub spends-IsAuthorised :
    (lib : Libraries) (id : ℕ) (t : Tables) (c : Call)
    → spends lib id t c ≡ true
    → IsAuthorisedAt lib t id (clock_of c)
unfolding spends
spends-IsAuthorised lib id t (consumes j action clock) h =
    let same : j ≡ id = ground arith in
    subst (λ k. IsAuthorisedAt lib t k clock) same
      (at_answer (IsAuthorisedAt lib t j clock) (consume_credential_grant lib t j action clock)
        (ground arith) (consume-IsAuthorisedAt lib t j action clock))
spends-IsAuthorised lib id t (claims j reader clock) h =
    let same : j ≡ id = ground arith in
    subst (λ k. IsAuthorisedAt lib t k clock) same
      (at_answer (IsAuthorisedAt lib t j clock) (claim_staged_dispatch lib t j reader clock)
        (ground arith) (claim-IsAuthorisedAt lib t j reader clock))
spends-IsAuthorised lib id t (stages plan j clock) h = absurd (cc h)
spends-IsAuthorised lib id t (creates r clock) h = absurd (cc h)
spends-IsAuthorised lib id t (decides d acknowledged clock later) h = absurd (cc h)
spends-IsAuthorised lib id t (revokes j actor clock later) h = absurd (cc h)
spends-IsAuthorised lib id t (loses run_id stamp) h = absurd (cc h)
spends-IsAuthorised lib id t (cancels run_id expected clock) h = absurd (cc h)
spends-IsAuthorised lib id t (expires clock clocks) h = absurd (cc h)
spends-IsAuthorised lib id t reconciles h = absurd (cc h)
