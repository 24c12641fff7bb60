-- ===== src/Store/Spending.antt =====
-- A call that spends a grant finds it unused and leaves it spent.
use bastet_workstation.Common.{
  ℕ, ◌≡◌, refl, sym, subst, ◌∙◌, Bool, Bool-cases, true, false, is_some, is_none, ◌||◌, ◌&&◌,
  Option, none, some, Result, ok, ◌>>=◌, Holds, Holds-ok, Holds-err, Holds-after, Holds-then,
  Holds-found, Holds-when, key-find_by, arith, inl, inr, ◌==◌,
}
use bastet_workstation.Catalog.{IdentityCatalog}
use bastet_workstation.Identity.{Run}
use bastet_workstation.Graph.{GraphExecution}
use bastet_workstation.Approval.{ApprovalAction, ApprovalRequest}
use bastet_workstation.Store.{
  Libraries, Tables, StoreError, GrantRow, StagedRow, StagedState, ProviderLaunchPlan,
  credential_grant_rejected,
}
use bastet_workstation.Store.Statements.{exactly_one, spend_grant, is_unspent, is_ready_row}
use bastet_workstation.Store.Grants.{CredentialGrantRecord, load}
use bastet_workstation.Store.Spend.{is_unusable, consume_credential_grant}
use bastet_workstation.Store.Claim.{CredentialReader, write_claim}
use bastet_workstation.Store.Dispatch.{claim_run, claim_staged_dispatch}
use bastet_workstation.Store.Later.{
  is_none-eq, Later, GrantLater, IsUnused, find_grant, find_by-update_where,
}
use bastet_workstation.Store.Keeps.{write_catalog-Later, write_graph-Later}
use bastet_workstation.Store.Steps.{move-Later, insert_claim-Later}

abbrev pub IsFree : ℕ → Tables → Type 0
IsFree id t = (g : GrantRow) × (find_grant id t.grants ≡ some g) × IsUnused g

abbrev pub IsSpent : ℕ → Tables → Type 0
IsSpent id t =
    (g : GrantRow) × (find_grant id t.grants ≡ some g) × (is_some g.consumed_at_ms ≡ true)

later_spent :
    (o : Option GrantRow) (g : GrantRow)
    → is_some g.consumed_at_ms ≡ true
    → GrantLater (some g) o
    → (h : GrantRow) × (o ≡ some h) × (is_some h.consumed_at_ms ≡ true)
later_spent none g s l = absurd l
later_spent (some h) g s (i, inl e) =
    (h, refl, subst (λ (z : GrantRow). is_some z.consumed_at_ms ≡ true) (sym e) s)
later_spent (some h) g s (i, inr (u, o)) = absurd (ground (arith, u.0))

pub IsSpent-Later : (id : ℕ) (t u : Tables) → Later t u → IsSpent id t → IsSpent id u
IsSpent-Later id t u l (g, found, s) =
    later_spent (find_grant id u.grants) g s
      (subst (λ o. GrantLater o (find_grant id u.grants)) found (l.of_grants id))

-- The update spends the row that `load` read.
pub spend_grant-IsSpent :
    (t : Tables) (id now : ℕ) (e : StoreError)
    → IsFree id t
    → Holds (IsSpent id) (exactly_one (spend_grant id now t) e)
spend_grant-IsSpent t id now e (g, found, unused) =
    let spend = λ (r : GrantRow). record r { consumed_at_ms = some now } in
    let here : is_unspent id g ≡ true =
      ground (
        arith,
        key-find_by (λ (r : GrantRow). r.request_id) id t.grants found,
        unused.0,
        unused.1,
      ) in
    let row : find_grant id (spend_grant id now t).0.grants ≡ some (spend g) =
      find_by-update_where (λ (r : GrantRow). r.request_id) (is_unspent id) spend (λ x. refl) id
        t.grants
      ∙ rw found (rw here refl) in
    let spent : IsSpent id (spend_grant id now t).0 = (spend g, row, refl) in
    elim (Bool-cases ((spend_grant id now t).1 == 1)) [
      | inl y ↦ rw y (Holds-ok (IsSpent id) _ _ refl spent)
      | inr y ↦ rw y (Holds-err (IsSpent id) e)
    ]

-- What `load` read of the row.
abbrev Of : ℕ → Tables → CredentialGrantRecord → Type 0
Of id t grant =
    (g : GrantRow) × (find_grant id t.grants ≡ some g)
    × (grant.consumed_at_ms ≡ g.consumed_at_ms)
    × (grant.revoked_at_ms ≡ g.revoked_at_ms)

read_row :
    (id : ℕ) (t : Tables) (grant : CredentialGrantRecord) (g : GrantRow)
    → find_grant id t.grants ≡ some g
    → grant.consumed_at_ms ≡ g.consumed_at_ms
    → grant.revoked_at_ms ≡ g.revoked_at_ms
    → Holds {E = StoreError} (Of id t) (ok grant)
read_row id t grant g found c r = Holds-ok (Of id t) _ grant refl (g, found, c, r)

load-Of : (lib : Libraries) (t : Tables) (id : ℕ) → Holds (Of id t) (load lib t id)
unfolding load
load-Of lib t id = search (Holds-found, Holds-after, read_row) depth 20

-- A grant that `load` read and that is usable was not used.
usable-IsFree :
    (id now : ℕ) (t : Tables) (grant : CredentialGrantRecord)
    → Of id t grant
    → is_unusable now grant ≡ false
    → IsFree id t
usable-IsFree id now t grant (g, found, c, r) usable =
    let unspent : is_none grant.consumed_at_ms ≡ true = ground arith in
    let kept : is_none grant.revoked_at_ms ≡ true = ground arith in
    (
      g,
      found,
      (
        sym c ∙ is_none-eq grant.consumed_at_ms unspent,
        sym r ∙ is_none-eq grant.revoked_at_ms kept,
      ),
    )

asked-IsFree :
    (id now : ℕ) (t : Tables) (grant : CredentialGrantRecord) (b : Bool)
    → Of id t grant
    → (b || is_unusable now grant) ≡ false
    → IsFree id t
asked-IsFree id now t grant b of usable = usable-IsFree id now t grant of (ground arith)

-- The statement that spends the grant, and those after it.
spending :
    (t : Tables) (id now : ℕ) (e : StoreError) (k : Tables → Result Tables StoreError)
    → IsFree id t
    → ((u : Tables) → IsSpent id u → Holds (IsSpent id) (k u))
    → Holds (IsSpent id) (exactly_one (spend_grant id now t) e >>= k)
spending t id now e k free rest =
    Holds-then (IsSpent id) (IsSpent id) _ k (spend_grant-IsSpent t id now e free) rest

keeping :
    (id : ℕ) (u : Tables) (r : Result Tables StoreError) (k : Tables → Result Tables StoreError)
    → Holds (Later u) r
    → IsSpent id u
    → ((v : Tables) → IsSpent id v → Holds (IsSpent id) (k v))
    → Holds (IsSpent id) (r >>= k)
keeping id u r k later spent rest =
    Holds-then (IsSpent id) (Later u) r k later (λ v l. rest v (IsSpent-Later id u v l spent))

ok-IsSpent : (id : ℕ) (u : Tables) → IsSpent id u → Holds {E = StoreError} (IsSpent id) (ok u)
ok-IsSpent id u spent = Holds-ok (IsSpent id) _ u refl spent

write_claim-IsSpent :
    (t : Tables) (id run_id : ℕ) (plan : ProviderLaunchPlan) (c : IdentityCatalog)
    (e : GraphExecution) (next now : ℕ)
    → IsFree id t
    → Holds (IsSpent id) (write_claim t id run_id plan c e next now)
unfolding write_claim
write_claim-IsSpent t id run_id plan c e next now free =
    let moved = λ (u : Tables).
      move-Later u (λ (s : StagedRow). s.request_id == id && is_ready_row s.state)
        StagedState.dispatching credential_grant_rejected (λ s here. ground arith) in
    search
      (
        spending, keeping, moved, insert_claim-Later, write_catalog-Later, write_graph-Later,
        ok-IsSpent,
      )
      depth 14

-- A call with an answer that spends the grant.
abbrev pub Spends {ℓ} : {A : Type ℓ} → ℕ → Tables → Tables × A → Type 0
Spends id t p = IsFree id t × IsSpent id p.0

module _ {A : Type 0} (id : ℕ) (t : Tables) where
  after_spending :
      (r : Result Tables StoreError) (k : Tables → Result (Tables × A) StoreError)
      → Holds (IsSpent id) r
      → ((u : Tables) → IsSpent id u → Holds (Spends id t) (k u))
      → Holds (Spends id t) (r >>= k)
  after_spending r k h rest = Holds-then (Spends id t) (IsSpent id) r k h rest

  loading :
      (lib : Libraries) (k : CredentialGrantRecord → Result (Tables × A) StoreError)
      → ((grant : CredentialGrantRecord) → Of id t grant → Holds (Spends id t) (k grant))
      → Holds (Spends id t) (load lib t id >>= k)
  loading lib k rest = Holds-then (Spends id t) (Of id t) _ k (load-Of lib t id) rest

  answer-Spends :
      (u : Tables) (a : A)
      → IsFree id t
      → IsSpent id u
      → Holds {E = StoreError} (Spends id t) (ok (u, a))
  answer-Spends u a free spent = Holds-ok (Spends id t) _ (u, a) refl (free, spent)

module _ (lib : Libraries) where
  pub consume-Spends :
      (t : Tables) (id : ℕ) (action : ApprovalAction) (clock : Option ℕ)
      → Holds (Spends id t) (consume_credential_grant lib t id action clock)
  unfolding consume_credential_grant
  consume-Spends t id action clock =
      search
        (
          loading, Holds-when, Holds-after, after_spending, spend_grant-IsSpent, asked-IsFree,
          answer-Spends,
        )
        depth 24

  claim_run-Spends :
      (t : Tables) (id run_id : ℕ) (r : ApprovalRequest) (c : IdentityCatalog) (run : Run)
      (reader : CredentialReader) (now : ℕ)
      → IsFree id t
      → Holds (Spends id t) (claim_run lib t id run_id r c run reader now)
  unfolding claim_run
  claim_run-Spends t id run_id r c run reader now free =
      search (after_spending, Holds-after, write_claim-IsSpent, answer-Spends) depth 40

  pub claim-Spends :
      (t : Tables) (id : ℕ) (reader : CredentialReader) (clock : Option ℕ)
      → Holds (Spends id t) (claim_staged_dispatch lib t id reader clock)
  unfolding claim_staged_dispatch
  claim-Spends t id reader clock =
      search (loading, Holds-when, Holds-after, usable-IsFree, claim_run-Spends) depth 24
