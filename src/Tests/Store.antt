-- ===== src/Tests/Store.antt =====
-- The theorems on the store at an approved credential, which is used twice.
use bastet_workstation.Common.{
  ◌≤◌, ◌==◌, Bool-cases, inl, inr, Result, ok, ◌≡◌, refl, true, some, none, List, [], ◌∷◌,
}
use bastet_workstation.Store.{Libraries, Tables, DaemonLifecycle, StagedState, StoreError}
use bastet_workstation.Store.Calls.{Call, consumes, reconciles, apply_calls}
use bastet_workstation.Store.Later.{Later}
use bastet_workstation.Store.Evolution.{apply_calls-Later}
use bastet_workstation.Store.Once.{spends, count_spends, spent_at_most_once}
use bastet_workstation.Store.Settled.{IsSettled}
use bastet_workstation.Store.Agreement.{apply_calls-IsSettled}
use bastet_workstation.Store.Authority.{IsAuthorisedAt, spends-IsAuthorised}
use bastet_workstation.Tests.Approval.{
  to_vec, sha256, sample_catalog, sample_request, sample_decision, grant_action,
}
use bastet_workstation.Tests.State.{one_pet}
use bastet_workstation.Store.Spend.{consume_credential_grant, revoke_credential_grant}
use bastet_workstation.Store.Cancel.{cancel_for_request}
use bastet_workstation.Store.Revoked.{revoke_credential_grant-never_spent}
use bastet_workstation.Store.Grants.{
  CredentialGrantRecord, load, validate_time, validate_current_catalog,
}
use bastet_workstation.Approval.Request.{validate_unchanged, verify_decision}
use bastet_workstation.Approval.Hash.{canonical_hash, hex, hex_byte}
use bastet_workstation.Approval.Against.{
  validate_against, check_session, check_run_scope, check_references, check_credential_scope,
  parent_policy, check_account, check_reference, check_role, check_bound_run,
  validate_credential_binding, check_grant,
}
use bastet_workstation.Approval.{validate_action, check_binding}
use bastet_workstation.Policy.{restrict, check_field}
use bastet_workstation.Common.{for_each}
use bastet_workstation.Common.{is_blank}
use bastet_workstation.Catalog.References.{
  validate_catalog, check_keys, check_links, check_account_links, check_agent_links,
  check_agent_account, check_session_links, check_run_links,
}
use bastet_workstation.Common.{each_once}
use bastet_workstation.Catalog.Validation.{
  validate_required_fields, check_agent_provider, check_model_provider, check_account_fields,
  check_model, check_project, check_role_fields, check_session_fields, check_reference_fields,
  validate_metadata, validate_run_timing,
}
use bastet_workstation.Store.Binding.{validate_m3_catalog}
use bastet_workstation.Office.Validation.{
  check_profile, collect_states, check_state, check_assignment, check_room, validate_office,
  check_assignments,
}
use bastet_workstation.Meeting.{validate_meetings, check_baselines}
use bastet_workstation.Deliverable.Validation.{validate_deliverables, check_documents}
use bastet_workstation.Store.Equality.{same_action}

abbrev stand_ins : Libraries
stand_ins = record {
  request_bytes = to_vec;
  plan_bytes = λ plan. plan.run_id ∷ [];
  quote = λ s. s;
  digest = λ s. s;
  sha256 = sha256;
  uuid_text = λ n. "id";
}

abbrev granted : Tables
granted = record {
  lifecycle = DaemonLifecycle.ready;
  catalog_revision = 1;
  catalog_json = some sample_catalog;
  m3_json = some (record {
    office = one_pet;
    meetings = record { meetings = []; decision_baselines = [] };
    deliverables = record { documents = []; costs = []; knowledge_deliveries = [] };
  });
  approvals =
      record {
        request_id = 20;
        request_hash = "1464c8";
        request_json = some sample_request;
        expires_at_ms = 200;
        decision_json = some (some sample_decision);
      }
      ∷ [];
  grants =
      record {
        request_id = 20;
        issued_at_ms = 150;
        consumed_at_ms = none;
        revoked_at_ms = none;
        revoked_by = none;
      }
      ∷ [];
  staged = [];
  plans = [];
  node_runs = [];
  graphs = [];
  outputs = [];
  claims = [];
  journal = [];
}

abbrev two_uses : List Call
two_uses =
    consumes 20 grant_action (some 160) ∷ consumes 20 grant_action (some 170) ∷ reconciles ∷ []

spent_at_most_once_example : count_spends stand_ins 20 granted two_uses ≤ 1
spent_at_most_once_example = spent_at_most_once stand_ins 20 granted two_uses

apply_calls-Later_example : Later granted (apply_calls stand_ins granted two_uses)
apply_calls-Later_example = apply_calls-Later stand_ins granted two_uses

first_use : spends stand_ins 20 granted (consumes 20 grant_action (some 160)) ≡ true
unfolding check_profile collect_states check_state check_assignment check_room spends
    consume_credential_grant load validate_unchanged verify_decision validate_time
    validate_current_catalog canonical_hash hex hex_byte validate_against validate_action
    check_binding restrict check_field for_each is_blank check_session check_run_scope
    check_references check_credential_scope parent_policy check_account check_reference check_role
    check_bound_run validate_credential_binding check_grant validate_catalog check_keys each_once
    validate_required_fields check_links check_agent_provider check_model_provider
    check_account_fields check_model check_project check_role_fields check_session_fields
    check_reference_fields validate_metadata validate_run_timing check_account_links
    check_agent_links check_agent_account check_session_links check_run_links validate_m3_catalog
    validate_office check_assignments validate_meetings check_baselines validate_deliverables
    check_documents same_action
first_use = refl

spends-IsAuthorised_example : IsAuthorisedAt stand_ins granted 20 (some 160)
spends-IsAuthorised_example =
    spends-IsAuthorised stand_ins 20 granted (consumes 20 grant_action (some 160)) first_use

-- The grant was spent for a launch, which a restart finds in dispatch.
abbrev dispatched : Tables
dispatched = record granted {
  grants =
      record {
        request_id = 20;
        issued_at_ms = 150;
        consumed_at_ms = some 160;
        revoked_at_ms = none;
        revoked_by = none;
      }
      ∷ [];
  staged =
      record {
        run_id = 7;
        request_id = 20;
        state = StagedState.dispatching;
        staged_at_ms = 110;
        finished_at_ms = none;
        cancel_reason = none;
      }
      ∷ [];
}

dispatched_is_settled : IsSettled dispatched
dispatched_is_settled j = elim (Bool-cases (20 == j)) [ inl e ↦ rw e refl | inr e ↦ rw e refl ]

apply_calls-IsSettled_example : IsSettled (apply_calls stand_ins dispatched (reconciles ∷ two_uses))
apply_calls-IsSettled_example =
    apply_calls-IsSettled stand_ins dispatched (reconciles ∷ two_uses) dispatched_is_settled

abbrev withdrawn : Result (Tables × CredentialGrantRecord) StoreError
withdrawn = revoke_credential_grant stand_ins granted 20 "owner" (some 160) (some 161)

abbrev after_revocation : Tables
after_revocation = record granted {
  grants =
      record {
        request_id = 20;
        issued_at_ms = 150;
        consumed_at_ms = none;
        revoked_at_ms = some 160;
        revoked_by = some "owner";
      }
      ∷ [];
  journal =
      record { event_type = "credential.grant_revoked"; request_id = some 20; run_id = none } ∷ [];
}

abbrev revoked_record : CredentialGrantRecord
revoked_record = record {
  request = sample_request;
  decision = sample_decision;
  issued_at_ms = 150;
  consumed_at_ms = none;
  revoked_at_ms = some 160;
  revoked_by = some "owner";
}

withdrawn_succeeds : withdrawn ≡ ok (after_revocation, revoked_record)
unfolding revoke_credential_grant cancel_for_request load validate_unchanged verify_decision
    validate_time canonical_hash hex hex_byte is_blank
withdrawn_succeeds = refl

revoke_credential_grant-never_spent_example :
    count_spends stand_ins 20 after_revocation two_uses ≡ 0
revoke_credential_grant-never_spent_example =
    revoke_credential_grant-never_spent stand_ins granted 20 "owner" (some 160) (some 161)
      after_revocation revoked_record two_uses withdrawn_succeeds
