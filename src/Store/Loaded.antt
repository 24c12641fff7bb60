-- ===== src/Store/Loaded.antt =====
-- What the checks of a call on a grant have read and tested.
use bastet_workstation.Common.{
  ℕ, ◌≡◌, refl, ◌∙◌, ◌≤◌, ◌<◌, true, false, not, ◌||◌, is_some, is_none, Option, none, some, Result,
  ok, err, ◌>>=◌, ◌>>◌, map_err, Holds, Holds-ok, Holds-err, Holds-then, Holds-found, Holds-when,
  arith, ◌==◌, ltb, Bool-cases, inl, inr, ◌^◌,
}
use bastet_workstation.Catalog.{IdentityCatalog}
use bastet_workstation.Approval.{ApprovalRequest, ApprovalDecision}
use bastet_workstation.Approval.Request.{validate_unchanged, verify_decision}
use bastet_workstation.Approval.Decision.{Answers, verify_decision_iff_Answers}
use bastet_workstation.Approval.Against.{validate_against}
use bastet_workstation.Approval.Soundness.{IsGrounded, validate_against-IsGrounded}
use bastet_workstation.Store.{
  Libraries, Tables, StoreError, GrantRow, ApprovalRow, from_str, serialization,
}
use bastet_workstation.Store.Statements.{approval_of}
use bastet_workstation.Store.Grants.{
  CredentialGrantRecord, load, now_ms, validate_time, validate_current_catalog, is_approve,
}
use bastet_workstation.Store.Later.{find_grant}

-- The grant, the approval and the decision of a request, as they are stored and as they were checked.
pub record IsApproved (lib : Libraries) (t : Tables) (id : ℕ) (grant : CredentialGrantRecord)
    : Type 0 where
  pub row : GrantRow
  pub asked : ApprovalRow
  pub found_row : find_grant id t.grants ≡ some row
  pub found_asked : approval_of id t ≡ some asked
  pub request_read : asked.request_json ≡ some grant.request
  pub decision_read : asked.decision_json ≡ some (some grant.decision)
  pub unchanged : validate_unchanged lib.request_bytes lib.sha256 grant.request ≡ ok tt
  pub answers : Answers grant.request grant.decision
  pub approves : is_approve grant.decision.kind ≡ true
  pub its_own : grant.request.id ≡ id
  pub binds : is_some grant.request.action.scope.credential_binding ≡ true
  pub issued_then : row.issued_at_ms ≡ grant.decision.decided_at_ms
  pub issued : grant.issued_at_ms ≡ row.issued_at_ms
  pub consumed : grant.consumed_at_ms ≡ row.consumed_at_ms
  pub revoked : grant.revoked_at_ms ≡ row.revoked_at_ms

-- The time is in the interval of the request.
abbrev pub IsCurrent : ApprovalRequest → ℕ → Type 0
IsCurrent r now = (r.created_at_ms ≤ now) × (now < r.expires_at_ms)

-- The action is grounded in the catalog that is stored.
abbrev pub IsBacked : Tables → ApprovalRequest → Type 0
IsBacked t r = (c : IdentityCatalog) × (t.catalog_json ≡ some c) × IsGrounded c r.action

pub mapped :
    {A B E F : Type 0} (P : B → Type 0) (f : E → F) (r : Result A E) (k : A → Result B F)
    → ((a : A) → r ≡ ok a → Holds P (k a))
    → Holds P (map_err f r >>= k)
mapped P f (ok a) k h = h a refl
mapped P f (err e) k h = Holds-err P (f e)

pub checked :
    {B E F : Type 0} (P : B → Type 0) (f : E → F) (r : Result (Unit {0}) E) (k : Result B F)
    → (r ≡ ok tt → Holds P k)
    → Holds P (map_err f r >> k)
checked P f (ok a) k h = h refl
checked P f (err e) k h = Holds-err P (f e)

pub read_json :
    {A B : Type 0} (P : B → Type 0) (o : Option A) (k : A → Result B StoreError)
    → ((a : A) → o ≡ some a → Holds P (k a))
    → Holds P (from_str o >>= k)
read_json P none k h = Holds-err P serialization
read_json P (some a) k h = h a refl

is_some-eq : {A : Type 0} (o : Option A) → is_none o ≡ false → is_some o ≡ true
is_some-eq none h = absurd (cc h)
is_some-eq (some a) h = refl

loaded_grant :
    (lib : Libraries) (t : Tables) (id : ℕ) (row : GrantRow) (asked : ApprovalRow)
    (r : ApprovalRequest) (d : ApprovalDecision) (json : Option ApprovalDecision)
    → find_grant id t.grants ≡ some row
    → approval_of id t ≡ some asked
    → asked.request_json ≡ some r
    → asked.decision_json ≡ some json
    → json ≡ some d
    → validate_unchanged lib.request_bytes lib.sha256 r ≡ ok tt
    → verify_decision r d ≡ ok tt
    → (not (r.id == id)
        || not (is_approve d.kind)
        || is_none r.action.scope.credential_binding
        || not (row.issued_at_ms == d.decided_at_ms))
      ≡ false
    → Holds {E = StoreError} (IsApproved lib t id) (
        ok (record {
          request = r;
          decision = d;
          issued_at_ms = row.issued_at_ms;
          consumed_at_ms = row.consumed_at_ms;
          revoked_at_ms = row.revoked_at_ms;
          revoked_by = row.revoked_by;
        }))
loaded_grant lib t id row asked r d json g a rr dj j unchanged verified checks =
    Holds-ok (IsApproved lib t id) _ _ refl (record {
      row = row;
      asked = asked;
      found_row = g;
      found_asked = a;
      request_read = rr;
      decision_read = dj ∙ rw j refl;
      unchanged = unchanged;
      answers = (verify_decision_iff_Answers r d).0 verified;
      approves = ground arith;
      its_own = ground arith;
      binds = is_some-eq r.action.scope.credential_binding (ground arith);
      issued_then = ground arith;
      issued = refl;
      consumed = refl;
      revoked = refl;
    })

load-IsApproved :
    (lib : Libraries) (t : Tables) (id : ℕ) → Holds (IsApproved lib t id) (load lib t id)
unfolding load
load-IsApproved lib t id =
    search (Holds-found, Holds-when, read_json, mapped, loaded_grant) depth 30

module _ {A : Type 0} (P : A → Type 0) where
  pub loading :
      (lib : Libraries) (t : Tables) (id : ℕ) (k : CredentialGrantRecord → Result A StoreError)
      → ((grant : CredentialGrantRecord) → IsApproved lib t id grant → Holds P (k grant))
      → Holds P (load lib t id >>= k)
  loading lib t id k rest =
      Holds-then P (IsApproved lib t id) (load lib t id) k (load-IsApproved lib t id) rest

  pub timing :
      (clock : Option ℕ) (k : ℕ → Result A StoreError)
      → ((now : ℕ) → clock ≡ some now → Holds P (k now))
      → Holds P (now_ms clock >>= k)
  timing none k rest = Holds-err P _
  timing (some now) k rest = elim (Bool-cases (ltb now (2 ^ 63))) [
    | inl y ↦ rw y (rest now refl)
    | inr y ↦ rw y (Holds-err P _)
  ]

  pub in_time :
      (r : ApprovalRequest) (now : ℕ) (k : Unit {0} → Result A StoreError)
      → (IsCurrent r now → Holds P (k tt))
      → Holds P (validate_time r now >>= k)
  unfolding validate_time
  in_time r now k rest = Holds-when P _ _ k (λ h. rest (ground arith, ground arith))

-- Whatever the call still does.
pub settled : {A : Type 0} (Q : Type 0) (r : Result A StoreError) → Q → Holds (λ (a : A). Q) r
settled Q r q = record { at = λ a h. q }

backing :
    (lib : Libraries) (t : Tables) (r : ApprovalRequest) (c : IdentityCatalog) (u : Unit {0})
    → t.catalog_json ≡ some c
    → validate_against lib.request_bytes lib.sha256 r c ≡ ok u
    → IsBacked t r
backing lib t r c u stored accepted =
    (c, stored, (validate_against-IsGrounded lib.request_bytes lib.sha256 r c accepted).1)

checked-IsBacked :
    (lib : Libraries) (t : Tables) (r : ApprovalRequest)
    → Holds (λ u. IsBacked t r) (validate_current_catalog lib t r)
unfolding validate_current_catalog
checked-IsBacked lib t r =
    read_json (λ (u : Unit {0}). IsBacked t r) t.catalog_json _
      (λ c stored. search (checked, settled, backing lib t r c) depth 8)

module _ {A : Type 0} (P : A → Type 0) where
  pub checking :
      (lib : Libraries) (t : Tables) (r : ApprovalRequest) (k : Unit {0} → Result A StoreError)
      → (IsBacked t r → Holds P (k tt))
      → Holds P (validate_current_catalog lib t r >>= k)
  checking lib t r k rest =
      Holds-then P (λ u. IsBacked t r) _ k (checked-IsBacked lib t r) (λ u. rest)
