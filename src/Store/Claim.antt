-- ===== src/Store/Claim.antt =====
-- The data of a dispatch, crates/bastet-daemon/src/credential_dispatch.rs, and what a claim writes.
use bastet_workstation.Common.{
  ℕ, String, Bool, false, ◌&&◌, Option, none, some, List, find, Result, ok, ◌>>=◌, ◌==◌,
}
use bastet_workstation.Adapter.RunState.{NormalizedRunState}
use bastet_workstation.Identity.{ApprovalRequestId, RunId, SessionId, GraphRunId, GraphNodeId, Run}
use bastet_workstation.Catalog.{IdentityCatalog}
use bastet_workstation.Graph.{GraphExecution}
use bastet_workstation.Store.{
  ProviderCredentialSelection, ProviderAccountSelection, ProviderLaunchIdentity, ProviderLaunchPlan,
  Tables, StagedState, StagedRow, StoreError, credential_grant_rejected,
}
use bastet_workstation.Store.Statements.{
  is_ready_row, insert_event, spend_grant, move_staged, exactly_one, write_catalog, write_graph,
  insert_claim,
}

-- `CredentialReader`: the test of a selection and the lookup in the native store.
pub record CredentialReader : Type 0 where
  pub accepts : ProviderCredentialSelection → Bool
  pub read : ProviderCredentialSelection → Option (List ℕ)

-- The fields of `BeginGraphNodeRunReceipt`.
pub record LaunchReceipt : Type 0 where
  pub execution_id : GraphRunId
  pub node_id : GraphNodeId
  pub session_id : SessionId
  pub run_id : RunId
  pub launch_identity : Option ProviderLaunchIdentity
  pub adapter_kind : String
  pub model : String
  pub workspace_root : String
  pub prompt : String
  pub catalog_revision : ℕ
  pub graph_revision : ℕ

pub record DispatchClaim : Type 0 where
  pub receipt : LaunchReceipt
  pub selection : ProviderCredentialSelection

pub record PreparedLaunch : Type 0 where
  pub receipt : LaunchReceipt
  pub credential : List ℕ

pub data BrokerError : Type 0 where
  authorization credential recovery : BrokerError

abbrev pub begin_run : String → ℕ → Run → Run
begin_run started_at revision run = record run {
  state = NormalizedRunState.starting;
  started_at = some started_at;
  metadata = record run.metadata { revision = revision; updated_at = started_at };
}

abbrev pub lose_credential : String → ℕ → Run → Run
lose_credential at revision run = record run {
  state = NormalizedRunState.uncertain;
  metadata = record run.metadata { revision = revision; updated_at = at };
}

-- `SELECT state .. WHERE request_id=?1 AND run_id=?2` finds a launch that is ready.
abbrev pub has_ready_launch : ApprovalRequestId → RunId → Tables → Bool
has_ready_launch request_id run_id t =
    is_ready_launch
      (find (λ (s : StagedRow). s.request_id == request_id && s.run_id == run_id) t.staged)
  where
    is_ready_launch : Option StagedRow → Bool
    is_ready_launch none = false
    is_ready_launch (some row) = is_ready_row row.state

-- `plan.identity.account.and_then(|account| account.credential)`
abbrev pub selection_of : Option ProviderAccountSelection → Option ProviderCredentialSelection
selection_of none = none
selection_of (some account) = account.credential

abbrev pub receipt_of : ProviderLaunchPlan → RunId → ℕ → ℕ → LaunchReceipt
receipt_of plan run_id catalog_revision graph_revision = record {
  execution_id = plan.execution_id;
  node_id = plan.node_id;
  session_id = plan.session_id;
  run_id = run_id;
  launch_identity = some plan.identity;
  adapter_kind = plan.identity.adapter_kind;
  model = plan.identity.model;
  workspace_root = plan.workspace_root;
  prompt = plan.prompt;
  catalog_revision = catalog_revision;
  graph_revision = graph_revision;
}

-- The statements at the end of `claim_staged_dispatch`.
unfoldable pub write_claim :
    Tables
    → ApprovalRequestId
    → RunId
    → ProviderLaunchPlan
    → IdentityCatalog
    → GraphExecution
    → ℕ
    → ℕ
    → Result Tables StoreError
write_claim t request_id run_id plan c graph next now = do
  spent ← exactly_one (spend_grant request_id now t) credential_grant_rejected
  moved ←
      exactly_one
        (move_staged (λ (s : StagedRow). s.request_id == request_id && is_ready_row s.state)
          (λ s. record s { state = StagedState.dispatching }) spent)
        credential_grant_rejected
  claimed ←
      insert_claim (record { run_id = run_id; request_id = request_id; claimed_at_ms = now }) moved
  catalog_written ← write_catalog next c claimed
  written ← write_graph plan.execution_id graph catalog_written
  ok (
      insert_event "provider_launch.dispatch_claimed" (some request_id) (some run_id)
        (insert_event "credential.grant_consumed" (some request_id) (some run_id) written))
