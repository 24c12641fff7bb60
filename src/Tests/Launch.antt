-- ===== src/Tests/Launch.antt =====
-- The dispatch of a launch that its user has approved, with a credential and without.
use bastet_workstation.Store.Claim.{write_claim}
use bastet_workstation.Store.Dispatch.{claim_run, claim_staged_dispatch, fail_dispatch_claim}
use bastet_workstation.Store.Staged.{
  load_catalog, validate_decision_and_grant_state, approval_action, validate_request_for_plan,
}
use bastet_workstation.Store.Context.{check_run_session, check_plan_graph, validate_staged_context}
use bastet_workstation.Store.Plan.{
  validate_snapshot, capture, validate_online_cli_requirements, validate_current_policy,
  load_launch_identity, plan_hash, load_plan,
}
use bastet_workstation.Store.Binding.{
  validate_m3_catalog, select_account, graph_node_prompt, resolve_provider_run_binding,
}
use bastet_workstation.Store.Grants.{
  validate_time, differs_from_plan, check_graph_run, validate_current_catalog, load,
}
use bastet_workstation.Store.Statements.{decimal_digits, latest_attempt}
use bastet_workstation.Store.Equality.{same_run, same_snapshot, same_identity, same_action}
use bastet_workstation.Approval.{validate_action}
use bastet_workstation.Approval.Request.{verify_decision, validate_unchanged}
use bastet_workstation.Approval.Hash.{canonical_hash}
use bastet_workstation.Approval.Against.{
  check_session, check_run_scope, check_references, check_credential_scope, parent_policy,
  validate_credential_binding, check_grant, validate_against,
}
use bastet_workstation.Policy.{restrict}
use bastet_workstation.Catalog.Validation.{
  validate_metadata, validate_run_timing, check_agent_provider, check_model_provider,
  check_account_fields, check_model, check_project, check_role_fields, check_session_fields,
  check_reference_fields, validate_required_fields,
}
use bastet_workstation.Catalog.References.{
  check_account_links, check_agent_account, check_agent_links, check_session_links, check_run_links,
  check_keys, check_links, validate_catalog,
}
use bastet_workstation.Office.Validation.{
  check_state, collect_states, check_profile, check_assignment, check_assignments, check_room,
  validate_office,
}
use bastet_workstation.Meeting.{
  check_meeting, hash_content, check_baseline, check_baselines, validate_meetings,
}
use bastet_workstation.Deliverable.Validation.{check_documents, validate_deliverables}
use bastet_workstation.Graph.Validate.{validate as validate_graph}
use bastet_workstation.Graph.Execution.{check_nodes, check_outputs, validate}
use bastet_workstation.Graph.Transitions.{activate_staged_node, finish_terminal}
use bastet_workstation.Common.{
  true, none, some, [], ◌∷◌, Result, ok, err, ◌≡◌, refl, is_blank, for_each, each_once,
}
use bastet_workstation.Store.{Tables}
use bastet_workstation.Store.Claim.{
  CredentialReader, PreparedLaunch, BrokerError, credential, receipt_of,
}
use bastet_workstation.Store.Dispatch.{prepare_staged_credentials}
use bastet_workstation.Store.Lookup.{IsOnceRead, prepare_staged_credentials-IsOnceRead}
use bastet_workstation.Tests.Ready.{stand_ins, launch_plan, ready_tables}

-- Readers of the native store, of which the second finds nothing.
abbrev full_store : CredentialReader
full_store = record { accepts = λ selection. true; read = λ selection. some (1 ∷ 2 ∷ []) }

abbrev empty_store : CredentialReader
empty_store = record { accepts = λ selection. true; read = λ selection. none }

abbrev found_run : Tables × Result PreparedLaunch BrokerError
found_run = prepare_staged_credentials stand_ins ready_tables 20 full_store (some 160) "160"

abbrev lost_run : Tables × Result PreparedLaunch BrokerError
lost_run = prepare_staged_credentials stand_ins ready_tables 20 empty_store (some 160) "160"

launch_is_dispatched :
    (found_run.1 ≡ ok (record { receipt = receipt_of launch_plan 7 2 3; credential = 1 ∷ 2 ∷ [] }))
    × (lost_run.1 ≡ err credential)
unfolding write_claim claim_run claim_staged_dispatch fail_dispatch_claim load_catalog
    validate_decision_and_grant_state approval_action validate_request_for_plan check_run_session
    check_plan_graph validate_staged_context validate_snapshot capture
    validate_online_cli_requirements validate_current_policy load_launch_identity plan_hash
    load_plan validate_m3_catalog select_account graph_node_prompt resolve_provider_run_binding
    validate_time differs_from_plan check_graph_run validate_current_catalog load decimal_digits
    latest_attempt same_run same_snapshot same_identity same_action validate_action verify_decision
    validate_unchanged canonical_hash check_session check_run_scope check_references
    check_credential_scope parent_policy validate_credential_binding check_grant validate_against
    restrict validate_metadata validate_run_timing check_agent_provider check_model_provider
    check_account_fields check_model check_project check_role_fields check_session_fields
    check_reference_fields validate_required_fields check_account_links check_agent_account
    check_agent_links check_session_links check_run_links check_keys check_links validate_catalog
    check_state collect_states check_profile check_assignment check_assignments check_room
    validate_office check_meeting hash_content check_baseline check_baselines validate_meetings
    check_documents validate_deliverables validate_graph check_nodes check_outputs validate
    activate_staged_node finish_terminal is_blank for_each each_once prepare_staged_credentials
launch_is_dispatched = (refl, refl)

prepare_staged_credentials-IsOnceRead_example :
    IsOnceRead 20 ready_tables
      (prepare_staged_credentials stand_ins ready_tables 20 empty_store (some 160) "160")
prepare_staged_credentials-IsOnceRead_example =
    prepare_staged_credentials-IsOnceRead stand_ins ready_tables 20 empty_store (some 160) "160"
