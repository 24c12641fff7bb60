-- ===== src/Store/Settling.antt =====
-- The statements and the cancellation leave launches and their grants settled.
use bastet_workstation.Common.{
  ℕ, fail_if, String, ◌≡◌, refl, Bool, Bool-cases, true, Option, Option-cases, none, some, ◌∷◌,
  Result, ok, ◌>>=◌, Holds, Holds-ok, Holds-err, Holds-after, Holds-then, arith, inl, inr, ◌==◌,
}
use bastet_workstation.Catalog.{IdentityCatalog}
use bastet_workstation.Graph.{GraphExecution}
use bastet_workstation.Store.{
  Libraries, Tables, StoreError, StagedState, StagedRow, GrantRow, ApprovalRow, ClaimRow,
  ProviderLaunchPlan,
}
use bastet_workstation.Store.Statements.{
  exactly_one, write_catalog, write_graph, insert_event, insert_approval, insert_claim,
  insert_staged, insert_grant, as_integer, grant_of, staged_of, move_staged, spend_grant,
  revoke_grant_at, is_awaiting_row, is_cancelled_row,
}
use bastet_workstation.Store.Cancel.{
  is_open_launch, cancel_launch, revoke_unspent, finish_node_run, write_cancellation, cancel_open,
  cancel_row, cancel_for_request,
}
use bastet_workstation.Store.Later.{find_grant}
use bastet_workstation.Store.Settled.{
  demand, IsSettled, IsNearly, settled-same, settled-grants, settled-move, nearly-cancel,
  settled-revoke_unspent, nearly-new_grant,
}

pub record Settles (t : Tables) : Type 0 where
  pub all : IsSettled t

pub record Nears (id : ℕ) (t : Tables) : Type 0 where
  pub all : IsNearly id t

module _ {A : Type 0} (P : A → Type 0) where
  -- The next statement of a transaction.
  pub settle :
      (r : Result Tables StoreError) (k : Tables → Result A StoreError)
      → Holds Settles r
      → ((u : Tables) → Settles u → Holds P (k u))
      → Holds P (r >>= k)
  settle r k h rest = Holds-then P Settles r k h rest

  pub near :
      (id : ℕ) (r : Result Tables StoreError) (k : Tables → Result A StoreError)
      → Holds (Nears id) r
      → ((u : Tables) → Nears id u → Holds P (k u))
      → Holds P (r >>= k)
  near id r k h rest = Holds-then P (Nears id) r k h rest

pub one {ℓ} :
    (P : Tables → Type ℓ) (u : Tables) (n : ℕ) (e : StoreError)
    → P u
    → Holds P (exactly_one (u, n) e)
one P u n e p = elim (Bool-cases (n == 1)) [
  | inl y ↦ rw y (Holds-ok P _ u refl p)
  | inr y ↦ rw y (Holds-err P e)
]

pub ok-Settles : (u : Tables) → Settles u → Holds {E = StoreError} Settles (ok u)
ok-Settles u h = Holds-ok Settles _ u refl h

-- A change of other tables.
pub unchanged-Settles :
    (t u : Tables)
    → u.grants ≡ t.grants
    → u.staged ≡ t.staged
    → Settles t
    → Holds {E = StoreError} Settles (ok u)
unchanged-Settles t u g s h = ok-Settles u (record { all = settled-same t u g s h.all })

pub log-Settles :
    (event_type : String) (request_id run_id : Option ℕ) (u : Tables)
    → Settles u
    → Settles (insert_event event_type request_id run_id u)
log-Settles event_type request_id run_id u h = record { all = h.all }

pub write_catalog-Settles :
    (n : ℕ) (c : IdentityCatalog) (t : Tables) → Settles t → Holds Settles (write_catalog n c t)
write_catalog-Settles n c t h = search (Holds-after, unchanged-Settles)

pub write_graph-Settles :
    (id : ℕ) (e : GraphExecution) (t : Tables) → Settles t → Holds Settles (write_graph id e t)
write_graph-Settles id e t h = search (Holds-after, unchanged-Settles)

pub insert_claim-Settles :
    (row : ClaimRow) (t : Tables) → Settles t → Holds Settles (insert_claim row t)
insert_claim-Settles row t h = search (Holds-after, unchanged-Settles)

pub insert_approval-Settles :
    (row : ApprovalRow) (t : Tables) → Settles t → Holds Settles (insert_approval row t)
insert_approval-Settles row t h = search (Holds-after, unchanged-Settles)

finish_node_run-Settles :
    (t : Tables) (id : ℕ) (at : String) (e : StoreError)
    → Settles t
    → Holds Settles (exactly_one (finish_node_run id at t) e)
finish_node_run-Settles t id at e h = one Settles _ _ e (record { all = h.all })

cancel_launch-Nears :
    (t : Tables) (id at : ℕ) (reason : String) (e : StoreError)
    → Settles t
    → Holds (Nears id) (exactly_one (move_staged (is_open_launch id) (cancel_launch at reason) t) e)
cancel_launch-Nears t id at reason e h =
    one (Nears id) _ _ e (record { all = nearly-cancel t id at reason h.all })

log_cancelled-Settles :
    (t : Tables) (request_id run_id : Option ℕ) (id at : ℕ) (event_type : String)
    → Nears id t
    → Holds {E = StoreError} Settles
        (ok (insert_event event_type request_id run_id (revoke_unspent id at t)))
log_cancelled-Settles t request_id run_id id at event_type h =
    ok-Settles _ (record { all = settled-revoke_unspent t id at h.all })

-- A launch that is new waits for its approval.
pub insert_staged-Settles :
    (row : StagedRow) (t : Tables)
    → is_awaiting_row row.state ≡ true
    → Settles t
    → Holds Settles (insert_staged row t)
insert_staged-Settles row t awaiting h =
    let new : Settles (record t { staged = row ∷ t.staged }) = record {
      all = λ j. elim (Bool-cases (row.request_id == j)) [
        | inl e ↦ rw e (ground arith)
        | inr e ↦ rw e (h.all j)
      ];
    } in
    Holds-after Settles (fail_if _ _) _ (λ fresh. ok-Settles _ new)

pub spend_grant-Settles :
    (t : Tables) (id now : ℕ) (e : StoreError)
    → Settles t
    → Holds Settles (exactly_one (spend_grant id now t) e)
spend_grant-Settles t id now e h = one Settles _ _ e (record {
  all = settled-grants t id (λ r. record r { consumed_at_ms = some now }) (λ g. refl) h.all;
})

pub revoke-Settles :
    (t : Tables) (id : ℕ) (time : GrantRow → ℕ) (actor : String) (e : StoreError)
    → Settles t
    → Holds Settles (exactly_one (revoke_grant_at id time actor t) e)
revoke-Settles t id time actor e h = one Settles _ _ e (record {
  all =
      settled-grants t id (λ r. record r { revoked_at_ms = some (time r); revoked_by = some actor })
        (λ g. refl) h.all;
})

-- A move to a state that demands no more than the one before.
pub move-Settles :
    (t : Tables) (p : StagedRow → Bool) (state : StagedState) (e : StoreError)
    → ((r : StagedRow) (g : Option GrantRow)
        → p r ≡ true
        → demand r.state g ≡ true
        → demand state g ≡ true)
    → Settles t
    → Holds Settles (exactly_one (move_staged p (λ s. record s { state = state }) t) e)
move-Settles t p state e less h = one Settles _ _ e (record {
  all =
      settled-move t p (λ s. record s { state = state }) (λ r. refl)
        (λ r y d. less r (find_grant r.request_id t.grants) y d) h.all;
})

pub insert_grant-Nears :
    (id at : ℕ) (t : Tables) → Settles t → Holds (Nears id) (insert_grant id at t)
insert_grant-Nears id at t h = elim (Option-cases (grant_of id t)) [
  | inr (old, found) ↦ record { at = λ u h. absurd (ground arith) }
  | inl new ↦ Holds-after (Nears id) (fail_if _ _) _ (λ fresh.
      Holds-after (Nears id) (as_integer at) _
        (λ n. Holds-ok (Nears id) _ _ refl (record { all = nearly-new_grant t id n new h.all })))
]

module _ (lib : Libraries) where
  write_cancellation-Settles :
      (t : Tables) (request_id run_id : ℕ) (plan : ProviderLaunchPlan) (c : IdentityCatalog)
      (e : GraphExecution) (at : ℕ) (reason : String)
      → Settles t
      → Holds Settles (write_cancellation lib t request_id run_id plan c e at reason)
  unfolding write_cancellation
  write_cancellation-Settles t request_id run_id plan c e at reason h =
      search
        (
          settle Settles,
          near Settles request_id,
          Holds-after,
          write_catalog-Settles,
          write_graph-Settles,
          finish_node_run-Settles,
          cancel_launch-Nears,
          log_cancelled-Settles,
        )
        depth 14

  cancel_open-Settles :
      (t : Tables) (request_id : ℕ) (row : StagedRow) (reason : String) (clock : Option ℕ)
      → Settles t
      → Holds Settles (cancel_open lib t request_id row reason clock)
  unfolding cancel_open
  cancel_open-Settles t request_id row reason clock h =
      search (Holds-after, write_cancellation-Settles) depth 30

  pub cancel_for_request-Settles :
      (t : Tables) (request_id : ℕ) (reason : String) (clock : Option ℕ)
      → Settles t
      → Holds Settles (cancel_for_request lib t request_id reason clock)
  unfolding cancel_for_request
  cancel_for_request-Settles t request_id reason clock h =
      Holds-after Settles _ _ (λ checked. on_row (staged_of request_id t))
    where
      on_row : (o : Option StagedRow) → Holds Settles (cancel_row lib t request_id o reason clock)
      on_row none = ok-Settles t h
      on_row (some row) = elim (Bool-cases (is_cancelled_row row.state)) [
        | inl e ↦ rw e (ok-Settles t h)
        | inr e ↦
            rw e
              (Holds-after Settles _ _ (λ u. cancel_open-Settles t request_id row reason clock h))
      ]
