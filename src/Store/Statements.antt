-- ===== src/Store/Statements.antt =====
-- What the SQL statements of crates/bastet-daemon do to the tables, in a transaction.
use Prim.Native.Nat.{◌/◌}
use Prim.Native.String.{◌++◌ as concat}
use bastet_workstation.Common.{
  ℕ, zero, suc, ◌+◌, ◌%◌, ◌^◌, String, Bool, true, false, ◌&&◌, ◌||◌, Option, none, some, is_some,
  is_none, List, [], ◌∷◌, ◌++◌, any, find_by, Result, ok, err, ◌>>=◌, ◌>>◌, fail_if, str_eq, ◌==◌,
  ltb, if◌then◌else◌,
}
use bastet_workstation.Identity.{ApprovalRequestId, RunId, GraphRunId, GraphNodeId}
use bastet_workstation.Catalog.{IdentityCatalog}
use bastet_workstation.Approval.Hash.{hex_digits, digit_at}
use bastet_workstation.Graph.{GraphExecution}
use bastet_workstation.Store.{
  StagedState, ApprovalRow, GrantRow, StagedRow, PlanRow, NodeRunRow, GraphRow, ClaimRow, Tables,
  StoreError, database, revision_overflow, DaemonLifecycle,
}

-- `UPDATE table SET .. WHERE ..`, and the number of rows that it changes.
abbrev pub update_where {ℓ} : {A : Type ℓ} → (A → Bool) → (A → A) → List A → List A
update_where p f [] = []
update_where p f (x ∷ xs) = let rest = update_where p f xs in (if p x then f x else x) ∷ rest

abbrev pub count_where {ℓ} : {A : Type ℓ} → (A → Bool) → List A → ℕ
count_where p [] = 0
count_where p (x ∷ xs) = let rest = count_where p xs in if p x then suc rest else rest

-- The decimal digits of a number below 10 ^ fuel: `n.to_string()`.
unfoldable pub decimal_digits : ℕ → ℕ → String
decimal_digits zero n = ""
decimal_digits (suc fuel) n =
    let rest = decimal_digits fuel (n / 10) in
    if ltb n 10 then digit_at hex_digits n else concat rest (digit_at hex_digits (n % 10))

-- `to_string` of a u64, which has at most twenty digits.
abbrev pub u64_text : ℕ → String
u64_text n = decimal_digits 20 n

-- `value.checked_add(1).ok_or(StoreError::RevisionOverflow)`
abbrev pub checked_next : ℕ → Result ℕ StoreError
checked_next n = if ltb (n + 1) (2 ^ 64) then ok (n + 1) else err revision_overflow

-- rusqlite refuses a u64 that is not an i64.
abbrev pub as_integer : ℕ → Result ℕ StoreError
as_integer n = if ltb n (2 ^ 63) then ok n else err database

abbrev pub is_ready : DaemonLifecycle → Bool
is_ready DaemonLifecycle.ready = true
is_ready _ = false

abbrev pub is_awaiting_row : StagedState → Bool
is_awaiting_row StagedState.awaiting_approval = true
is_awaiting_row _ = false

abbrev pub is_ready_row : StagedState → Bool
is_ready_row StagedState.ready = true
is_ready_row _ = false

abbrev pub is_cancelled_row : StagedState → Bool
is_cancelled_row StagedState.cancelled = true
is_cancelled_row _ = false

abbrev pub is_dispatching_row : StagedState → Bool
is_dispatching_row StagedState.dispatching = true
is_dispatching_row _ = false

-- `state IN ('awaiting_approval', 'ready')`
abbrev pub is_open_row : StagedState → Bool
is_open_row s = is_awaiting_row s || is_ready_row s

-- The rows with a key, as `SELECT .. WHERE key = ?1` finds them.
abbrev pub approval_of : ApprovalRequestId → Tables → Option ApprovalRow
approval_of id t = find_by (λ (r : ApprovalRow). r.request_id) id t.approvals

abbrev pub grant_of : ApprovalRequestId → Tables → Option GrantRow
grant_of id t = find_by (λ (r : GrantRow). r.request_id) id t.grants

abbrev pub staged_of : ApprovalRequestId → Tables → Option StagedRow
staged_of id t = find_by (λ (r : StagedRow). r.request_id) id t.staged

abbrev pub staged_for_run : RunId → Tables → Option StagedRow
staged_for_run id t = find_by (λ (r : StagedRow). r.run_id) id t.staged

abbrev pub plan_of : RunId → Tables → Option PlanRow
plan_of id t = find_by (λ (r : PlanRow). r.run_id) id t.plans

abbrev pub node_run_of : RunId → Tables → Option NodeRunRow
node_run_of id t = find_by (λ (r : NodeRunRow). r.run_id) id t.node_runs

abbrev pub graph_of : GraphRunId → Tables → Option GraphRow
graph_of id t = find_by (λ (r : GraphRow). r.execution_id) id t.graphs

-- `ORDER BY attempt DESC LIMIT 1`
abbrev later_attempt : NodeRunRow → Option NodeRunRow → Option NodeRunRow
later_attempt r none = some r
later_attempt r (some other) = if ltb r.attempt other.attempt then some other else some r

unfoldable pub latest_attempt : GraphRunId → GraphNodeId → List NodeRunRow → Option NodeRunRow
latest_attempt execution_id node_id [] = none
latest_attempt execution_id node_id (r ∷ rs) =
    let rest = latest_attempt execution_id node_id rs in
    if r.execution_id == execution_id && r.node_id == node_id then later_attempt r rest else rest

-- `insert_event`
abbrev pub insert_event : String → Option ApprovalRequestId → Option RunId → Tables → Tables
insert_event event_type request_id run_id t = record t {
  journal =
      t.journal
      ++ record { event_type = event_type; request_id = request_id; run_id = run_id } ∷ [];
}

-- `WHERE request_id = ?1 AND consumed_at_ms IS NULL AND revoked_at_ms IS NULL`
abbrev pub is_unspent : ApprovalRequestId → GrantRow → Bool
is_unspent id r = r.request_id == id && is_none r.consumed_at_ms && is_none r.revoked_at_ms

-- The updates of `credential_grants`, each with the number of rows that it changed.
abbrev pub spend_grant : ApprovalRequestId → ℕ → Tables → Tables × ℕ
spend_grant id now t = (
  record t {
    grants = update_where (is_unspent id) (λ r. record r { consumed_at_ms = some now }) t.grants;
  },
  count_where (is_unspent id) t.grants,
)

abbrev pub revoke_grant_at : ApprovalRequestId → (GrantRow → ℕ) → String → Tables → Tables × ℕ
revoke_grant_at id time actor t = (
  record t {
    grants =
        update_where (is_unspent id)
          (λ r. record r { revoked_at_ms = some (time r); revoked_by = some actor }) t.grants;
  },
  count_where (is_unspent id) t.grants,
)

-- `UPDATE staged_provider_launches SET .. WHERE ..`
abbrev pub move_staged : (StagedRow → Bool) → (StagedRow → StagedRow) → Tables → Tables × ℕ
move_staged p f t = (record t { staged = update_where p f t.staged }, count_where p t.staged)

-- `if transaction.execute(..)? != 1 { return Err(..) }`
abbrev pub exactly_one : Tables × ℕ → StoreError → Result Tables StoreError
exactly_one (t, changed) e = if changed == 1 then ok t else err e

-- `UPDATE identity_catalog`
abbrev pub write_catalog : ℕ → IdentityCatalog → Tables → Result Tables StoreError
write_catalog revision catalog t = do
  stored ← as_integer revision
  ok (record t { catalog_revision = stored; catalog_json = some catalog })

-- `UPDATE graph_executions`
abbrev pub write_graph : GraphRunId → GraphExecution → Tables → Result Tables StoreError
write_graph id e t = do
  stored ← as_integer e.revision
  ok (record t {
    graphs =
        update_where (λ (r : GraphRow). r.execution_id == id)
          (λ r. record r { revision = stored; execution_json = some e }) t.graphs;
  })

-- `INSERT INTO credential_grants`, whose primary key is the request.
abbrev pub fresh_grant : ApprovalRequestId → ℕ → GrantRow
fresh_grant id issued_at_ms = record {
  request_id = id;
  issued_at_ms = issued_at_ms;
  consumed_at_ms = none;
  revoked_at_ms = none;
  revoked_by = none;
}

abbrev pub insert_grant : ApprovalRequestId → ℕ → Tables → Result Tables StoreError
insert_grant id issued_at_ms t = do
  fail_if (is_some (grant_of id t) || is_none (approval_of id t)) database
  issued ← as_integer issued_at_ms
  ok (record t { grants = fresh_grant id issued ∷ t.grants })

-- `INSERT INTO staged_provider_launches`, where the run and the request are each unique.
abbrev pub insert_staged : StagedRow → Tables → Result Tables StoreError
insert_staged row t = do
  fail_if (is_some (staged_of row.request_id t) || is_some (staged_for_run row.run_id t)) database
  ok (record t { staged = row ∷ t.staged })

-- The primary key and the unique index of `approval_requests`.
abbrev pub has_approval : ApprovalRow → Tables → Bool
has_approval row t =
    any
      (λ (r : ApprovalRow).
        r.request_id == row.request_id || str_eq r.request_hash row.request_hash)
      t.approvals

-- `INSERT INTO approval_requests`
abbrev pub insert_approval : ApprovalRow → Tables → Result Tables StoreError
insert_approval row t = do
  fail_if (has_approval row t) database
  expires_at_ms ← as_integer row.expires_at_ms
  ok (record t { approvals = record row { expires_at_ms = expires_at_ms } ∷ t.approvals })

abbrev pub insert_claim : ClaimRow → Tables → Result Tables StoreError
insert_claim row t = do
  fail_if
      (any (λ (r : ClaimRow). r.run_id == row.run_id || r.request_id == row.request_id) t.claims)
      database
  ok (record t { claims = row ∷ t.claims })
