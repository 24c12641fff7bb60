-- ===== src/Store/Keeps.antt =====
-- Every call changes grants and staged launches only as the diagram allows.
use bastet_workstation.Common.{
  ℕ, ◌≡◌, refl, String, Option, none, some, Result, ok, ◌>>=◌, Holds, Holds-ok, Holds-err,
  Holds-after, Holds-then, arith, inl, inr, ◌==◌, Bool-cases,
}
use bastet_workstation.Catalog.{IdentityCatalog}
use bastet_workstation.Graph.{GraphExecution}
use bastet_workstation.Store.{
  Libraries, Tables, StoreError, StagedRow, GrantRow, ProviderLaunchPlan,
}
use bastet_workstation.Store.Statements.{
  exactly_one, write_catalog, write_graph, insert_event, revoke_grant_at, move_staged, staged_of,
  is_cancelled_row,
}
use bastet_workstation.Store.Cancel.{
  write_cancellation, cancel_open, cancel_for_request, cancel_row, is_open_launch, cancel_launch,
  revoke_unspent, max, finish_node_run,
}
use bastet_workstation.Store.Later.{
  Later, Later-refl, Later-trans, Later-same, Later-staged, Later-grants,
}

pub weaken :
    (t u : Tables) (r : Result Tables StoreError)
    → Later t u
    → Holds (Later u) r
    → Holds (Later t) r
weaken t u r l h = record { at = λ v e. Later-trans t u v l (h.at v e) }

-- The next statement of a transaction.
pub chain :
    (t : Tables) (r : Result Tables StoreError) (k : Tables → Result Tables StoreError)
    → Holds (Later t) r
    → ((u : Tables) → Holds (Later u) (k u))
    → Holds (Later t) (r >>= k)
chain t r k h next = Holds-then (Later t) (Later t) r k h (λ u l. weaken t u (k u) l (next u))

-- The same when the call has an answer.
pub chain_with :
    {A : Type 0} (t : Tables) (r : Result Tables StoreError)
    (k : Tables → Result (Tables × A) StoreError)
    → Holds (Later t) r
    → ((u : Tables) → Holds (λ (p : Tables × A). Later u p.0) (k u))
    → Holds (λ (p : Tables × A). Later t p.0) (r >>= k)
chain_with {A} t r k h next =
    Holds-then (λ (p : Tables × A). Later t p.0) (Later t) r k h
      (λ u l. record { at = λ p e. Later-trans t u p.0 l ((next u).at p e) })

pub answer-Later :
    {A : Type 0} (t u : Tables) (a : A)
    → Later t u
    → Holds {E = StoreError} (λ (p : Tables × A). Later t p.0) (ok (u, a))
answer-Later {A} t u a l = Holds-ok (λ (p : Tables × A). Later t p.0) _ (u, a) refl l

-- A change of other tables.
pub unchanged-Later :
    (t u : Tables)
    → u.grants ≡ t.grants
    → u.staged ≡ t.staged
    → Holds {E = StoreError} (Later t) (ok u)
unchanged-Later t u g s = Holds-ok (Later t) _ u refl (Later-same t u g s)

pub exactly_one-Later :
    (t u : Tables) (n : ℕ) (e : StoreError) → Later t u → Holds (Later t) (exactly_one (u, n) e)
exactly_one-Later t u n e l = elim (Bool-cases (n == 1)) [
  | inl y ↦ rw y (Holds-ok (Later t) _ u refl l)
  | inr y ↦ rw y (Holds-err (Later t) e)
]

pub write_catalog-Later :
    (n : ℕ) (c : IdentityCatalog) (t : Tables) → Holds (Later t) (write_catalog n c t)
write_catalog-Later n c t =
    Holds-after (Later t) _ _ (λ stored. Holds-ok (Later t) _ _ refl (Later-same t _ refl refl))

pub write_graph-Later :
    (id : ℕ) (e : GraphExecution) (t : Tables) → Holds (Later t) (write_graph id e t)
write_graph-Later id e t =
    Holds-after (Later t) _ _ (λ stored. Holds-ok (Later t) _ _ refl (Later-same t _ refl refl))

pub insert_event-Later :
    (t : Tables) (event_type : String) (request_id run_id : Option ℕ) (u : Tables)
    → Later t u
    → Later t (insert_event event_type request_id run_id u)
insert_event-Later t event_type request_id run_id u l =
    Later-trans t u _ l (Later-same u _ refl refl)

pub revoke_grant_at-Later :
    (t : Tables) (id : ℕ) (time : GrantRow → ℕ) (actor : String)
    → Later t (revoke_grant_at id time actor t).0
revoke_grant_at-Later t id time actor =
    Later-grants t id (λ r. record r { revoked_at_ms = some (time r); revoked_by = some actor })
      (λ g. refl) (λ g. refl) (λ g unused. inl unused.0)

revoke_unspent-Later : (t : Tables) (id at : ℕ) → Later t (revoke_unspent id at t)
revoke_unspent-Later t id at =
    let revoked =
      revoke_grant_at id (λ (g : GrantRow). max g.issued_at_ms at) "daemon:staged_launch_cancelled"
        t in
    let l : Later t revoked.0 = revoke_grant_at-Later t id _ _ in
    elim (Bool-cases (revoked.1 == 1)) [
      | inl e ↦ rw e (insert_event-Later t _ _ _ _ l)
      | inr e ↦ rw e l
    ]

finish_node_run-Later :
    (t : Tables) (id : ℕ) (at : String) (e : StoreError)
    → Holds (Later t) (exactly_one (finish_node_run id at t) e)
finish_node_run-Later t id at e = exactly_one-Later t _ _ e (Later-same t _ refl refl)

cancel_launch-Later :
    (t : Tables) (id at : ℕ) (reason : String) (e : StoreError)
    → Holds (Later t) (exactly_one (move_staged (is_open_launch id) (cancel_launch at reason) t) e)
cancel_launch-Later t id at reason e = exactly_one-Later t _ _ e (
    Later-staged t (is_open_launch id) (cancel_launch at reason) (λ r. refl)
      (λ r here. (refl, refl, ground arith)))

log_cancelled-Later :
    (t : Tables) (request_id run_id : Option ℕ) (id at : ℕ) (event_type : String)
    → Holds {E = StoreError}
        (Later t)
        (ok (insert_event event_type request_id run_id (revoke_unspent id at t)))
log_cancelled-Later t request_id run_id id at event_type =
    Holds-ok (Later t) _ _ refl (insert_event-Later t _ _ _ _ (revoke_unspent-Later t id at))

module _ (lib : Libraries) where
  write_cancellation-Later :
      (t : Tables) (request_id run_id : ℕ) (plan : ProviderLaunchPlan) (c : IdentityCatalog)
      (e : GraphExecution) (at : ℕ) (reason : String)
      → Holds (Later t) (write_cancellation lib t request_id run_id plan c e at reason)
  unfolding write_cancellation
  write_cancellation-Later t request_id run_id plan c e at reason =
      search
        (
          chain, Holds-after, write_catalog-Later, write_graph-Later, finish_node_run-Later,
          cancel_launch-Later, log_cancelled-Later,
        )
        depth 14

  cancel_open-Later :
      (t : Tables) (request_id : ℕ) (row : StagedRow) (reason : String) (clock : Option ℕ)
      → Holds (Later t) (cancel_open lib t request_id row reason clock)
  unfolding cancel_open
  cancel_open-Later t request_id row reason clock =
      search (Holds-after, write_cancellation-Later) depth 30

  pub cancel_for_request-Later :
      (t : Tables) (request_id : ℕ) (reason : String) (clock : Option ℕ)
      → Holds (Later t) (cancel_for_request lib t request_id reason clock)
  unfolding cancel_for_request
  cancel_for_request-Later t request_id reason clock =
      Holds-after (Later t) _ _ (λ checked. on_row (staged_of request_id t))
    where
      on_row : (o : Option StagedRow) → Holds (Later t) (cancel_row lib t request_id o reason clock)
      on_row none = Holds-ok (Later t) _ t refl (Later-refl t)
      on_row (some row) = elim (Bool-cases (is_cancelled_row row.state)) [
        | inl e ↦ rw e (Holds-ok (Later t) _ t refl (Later-refl t))
        | inr e ↦
            rw e (Holds-after (Later t) _ _ (λ u. cancel_open-Later t request_id row reason clock))
      ]
