-- ===== src/Tests/Approval.antt =====
-- The theorems on approvals at a request for the use of one credential.
use bastet_workstation.Common.{
  ℕ, ◌≡◌, ◌≢◌, refl, ◌↔◌, ◌<◌, arith, false, some, none, List, [], ◌∷◌, ok, err, for_each, is_blank,
  each_once, map, ◌%◌,
}
use Prim.Native.String.{len}
use bastet_workstation.Identity.{EntityMetadata, active, macos_keychain}
use bastet_workstation.Adapter.RunState.{starting}
use bastet_workstation.Policy.{
  ScopedPolicy, PolicyLayer, project, role_or_agent, single_run, use_level, restrict, check_field,
}
use bastet_workstation.Catalog.{IdentityCatalog}
use bastet_workstation.Catalog.Validation.{
  validate_metadata, validate_run_timing, validate_required_fields, check_agent_provider,
  check_model_provider, check_account_fields, check_model, check_project, check_role_fields,
  check_session_fields, check_reference_fields,
}
use bastet_workstation.Catalog.References.{
  check_account_links, check_agent_links, check_agent_account, check_session_links, check_run_links,
  check_keys, check_links, validate_catalog,
}
use bastet_workstation.Catalog.Integrity.{HasIntegrity, validate_catalog-HasIntegrity}
use bastet_workstation.Approval.{
  ApprovalAction, ApprovalRequest, ApprovalDecision, CredentialGrantBinding, high, approve, panics,
  hash_mismatch, validate_action, check_binding,
}
use bastet_workstation.Approval.Hash.{HashInput, canonical_hash, hex, hex_byte}
use bastet_workstation.Approval.Digest.{AreBytes}
use bastet_workstation.Approval.Request.{verify_decision, create_request, validate_unchanged}
use bastet_workstation.Approval.Decision.{
  Answers, verify_decision_iff_Answers, verify_decision_refuses_other,
  create_request-verify_decision,
}
use bastet_workstation.Approval.Permission.{IsPermitted, validate_action_iff_IsPermitted}
use bastet_workstation.Approval.Against.{
  check_session, check_run_scope, check_references, check_credential_scope, parent_policy,
  check_account, check_reference, check_role, check_bound_run, validate_credential_binding,
  check_grant, validate_against,
}
use bastet_workstation.Approval.Grounds.{validate_against_never_panics}
use bastet_workstation.Approval.Soundness.{IsGrounded, validate_against-IsGrounded}

-- Stand-ins for the serialisation and the digest.
abbrev pub to_vec : HashInput → List ℕ
to_vec i = i.id ∷ i.created_at_ms ∷ i.expires_at_ms ∷ []

abbrev pub sha256 : List ℕ → List ℕ
sha256 bytes = bytes

abbrev pub metadata_of : ℕ → EntityMetadata ℕ
metadata_of id = record {
  id = id;
  revision = 1;
  created_at = "2026";
  updated_at = "2026";
  provenance = record { source_kind = "test"; source_id = "1"; recorded_by = "user" };
  lifecycle = active;
}

abbrev pub use_policy : PolicyLayer → ScopedPolicy
use_policy layer = record {
  layer = layer;
  ceiling = record {
    filesystem = use_level;
    network = use_level;
    process = use_level;
    device = use_level;
    credential = use_level;
    persistent_approval = false;
  };
}

abbrev grant_binding : CredentialGrantBinding
grant_binding = record {
  agent_provider_id = 1;
  account_id = 2;
  adapter_kind = "codex";
  provider_identity = "me";
  credential_reference_id = 3;
  backend = macos_keychain;
  service = "svc";
  account_label = "main";
  capability_key = "provider.authenticate";
}

abbrev pub grant_action : ApprovalAction
grant_action = record {
  agent_instance_id = 4;
  role_id = some 5;
  action_key = "credential.use";
  reason_key = "reason";
  consequence_key = "consequence";
  risk = high;
  scope = record {
    project_id = 6;
    run_id = some 7;
    filesystem_roots = [];
    data_scopes = [];
    network_destinations = [];
    credential_reference_ids = 3 ∷ [];
    destination = none;
    credential_binding = some grant_binding;
  };
  requested_policy = use_policy single_run;
}

abbrev pub sample_catalog : IdentityCatalog
sample_catalog = record {
  credential_references =
      record {
        metadata = metadata_of 3;
        backend = macos_keychain;
        service = "svc";
        account_label = "main";
      }
      ∷ [];
  agent_providers =
      record { metadata = metadata_of 1; adapter_kind = "codex"; display_name = "Codex" } ∷ [];
  model_providers =
      record { metadata = metadata_of 10; provider_key = "openai"; display_name = "OpenAI" } ∷ [];
  accounts =
      record {
        metadata = metadata_of 2;
        agent_provider_id = 1;
        provider_identity = "me";
        credential_reference_id = some 3;
      }
      ∷ [];
  models =
      record {
        metadata = metadata_of 9;
        model_provider_id = 10;
        provider_model_id = "m";
        reasoning_controls = [];
      }
      ∷ [];
  agent_instances =
      record {
        metadata = metadata_of 4;
        agent_provider_id = 1;
        account_id = some 2;
        default_model_id = none;
      }
      ∷ [];
  projects =
      record {
        metadata = metadata_of 6;
        name = "project";
        workspace_root = "/";
        policy = use_policy project;
      }
      ∷ [];
  roles =
      record {
        metadata = metadata_of 5;
        name = "role";
        responsibilities = [];
        policy = use_policy role_or_agent;
      }
      ∷ [];
  sessions =
      record {
        metadata = metadata_of 8;
        agent_instance_id = 4;
        project_id = 6;
        provider_session_id = none;
      }
      ∷ [];
  runs =
      record {
        metadata = metadata_of 7;
        session_id = 8;
        model_id = 9;
        state = starting;
        started_at = none;
        finished_at = none;
      }
      ∷ [];
}

abbrev pub sample_request : ApprovalRequest
sample_request = record {
  id = 20;
  request_hash = "1464c8";
  created_at_ms = 100;
  expires_at_ms = 200;
  action = grant_action;
}

abbrev pub sample_decision : ApprovalDecision
sample_decision = record {
  request_id = 20;
  request_hash = "1464c8";
  kind = approve;
  decided_at_ms = 150;
  actor = "user";
}

sample_is_created :
    create_request to_vec sha256 20 100 200 grant_action (use_policy project) ≡ ok sample_request
unfolding create_request validate_action check_binding restrict check_field for_each is_blank
    canonical_hash hex hex_byte
sample_is_created = refl

sample_is_permitted : validate_action grant_action (use_policy project) ≡ ok tt
unfolding validate_action check_binding restrict check_field for_each is_blank
sample_is_permitted = refl

sample_is_answered : verify_decision sample_request sample_decision ≡ ok tt
unfolding verify_decision is_blank
sample_is_answered = refl

sample_is_unchanged : validate_unchanged to_vec sha256 sample_request ≡ ok tt
unfolding validate_unchanged canonical_hash hex hex_byte
sample_is_unchanged = refl

sample_is_grounded : validate_against to_vec sha256 sample_request sample_catalog ≡ ok tt
unfolding validate_against validate_unchanged canonical_hash hex hex_byte validate_action
    check_binding restrict check_field for_each is_blank check_session check_run_scope
    check_references check_credential_scope parent_policy check_account check_reference check_role
    check_bound_run validate_credential_binding check_grant
sample_is_grounded = refl

verify_decision_iff_Answers_example :
    verify_decision sample_request sample_decision ≡ ok tt ↔ Answers sample_request sample_decision
verify_decision_iff_Answers_example = verify_decision_iff_Answers sample_request sample_decision

-- Stand-ins that tell two actions apart by their reason, and give bytes.
abbrev reason_vec : HashInput → List ℕ
reason_vec i = i.id ∷ len i.action.reason_key ∷ []

abbrev byte_digest : List ℕ → List ℕ
byte_digest bytes = map (λ b. b % 256) bytes

byte_digest-AreBytes : (bytes : List ℕ) → AreBytes (byte_digest bytes)
byte_digest-AreBytes [] = tt
byte_digest-AreBytes (b ∷ bytes) = (omega arith, byte_digest-AreBytes bytes)

abbrev asked_request : ApprovalRequest
asked_request = record sample_request { request_hash = "1406" }

-- Under the same id, for another reason.
abbrev other_request : ApprovalRequest
other_request = record sample_request {
  request_hash = "1405";
  action = record grant_action { reason_key = "other" };
}

abbrev asked_decision : ApprovalDecision
asked_decision = record sample_decision { request_hash = "1406" }

asked_is_unchanged : validate_unchanged reason_vec byte_digest asked_request ≡ ok tt
unfolding validate_unchanged canonical_hash hex hex_byte
asked_is_unchanged = refl

other_is_unchanged : validate_unchanged reason_vec byte_digest other_request ≡ ok tt
unfolding validate_unchanged canonical_hash hex hex_byte
other_is_unchanged = refl

asked_is_answered : verify_decision asked_request asked_decision ≡ ok tt
unfolding verify_decision is_blank
asked_is_answered = refl

verify_decision_refuses_other_example :
    verify_decision other_request asked_decision ≡ err hash_mismatch
verify_decision_refuses_other_example =
    verify_decision_refuses_other reason_vec byte_digest asked_request other_request asked_decision
      byte_digest-AreBytes asked_is_unchanged other_is_unchanged (λ e. cc e) asked_is_answered

create_request-verify_decision_example :
    (validate_unchanged to_vec sha256 sample_request ≡ ok tt)
    × (validate_action grant_action (use_policy project) ≡ ok tt)
    × (100 < 200)
    × (verify_decision sample_request (record sample_decision { decided_at_ms = 100 }) ≡ ok tt)
create_request-verify_decision_example =
    create_request-verify_decision to_vec sha256 20 100 200 grant_action (use_policy project)
      sample_request approve 100 "user" sample_is_created (unfold is_blank in refl) (omega arith)
      (omega arith)

validate_action_iff_IsPermitted_example :
    validate_action grant_action (use_policy project) ≡ ok tt
    ↔ IsPermitted grant_action (use_policy project)
validate_action_iff_IsPermitted_example =
    validate_action_iff_IsPermitted grant_action (use_policy project)

validate_against_never_panics_example :
    validate_against to_vec sha256 sample_request sample_catalog ≢ err panics
validate_against_never_panics_example =
    validate_against_never_panics to_vec sha256 sample_request sample_catalog (use_policy project)
      sample_is_permitted

validate_against-IsGrounded_example :
    (validate_unchanged to_vec sha256 sample_request ≡ ok tt)
    × IsGrounded sample_catalog grant_action
validate_against-IsGrounded_example =
    validate_against-IsGrounded to_vec sha256 sample_request sample_catalog sample_is_grounded

sample_catalog_is_valid : validate_catalog sample_catalog ≡ ok tt
unfolding validate_catalog check_keys each_once validate_required_fields check_links
    check_agent_provider check_model_provider check_account_fields check_model check_project
    check_role_fields check_session_fields check_reference_fields validate_metadata
    validate_run_timing check_account_links check_agent_links check_agent_account
    check_session_links check_run_links for_each is_blank
sample_catalog_is_valid = refl

validate_catalog-HasIntegrity_example : HasIntegrity sample_catalog
validate_catalog-HasIntegrity_example =
    validate_catalog-HasIntegrity sample_catalog sample_catalog_is_valid
