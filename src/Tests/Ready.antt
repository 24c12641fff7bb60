-- ===== src/Tests/Ready.antt =====
-- The tables of a launch that its user has approved.
use Prim.Native.String.{◌++◌}
use bastet_workstation.Common.{ℕ, none, some, [], ◌∷◌}
use bastet_workstation.Adapter.RunState.{NormalizedRunState}
use bastet_workstation.Policy.{project, role_or_agent}
use bastet_workstation.Identity.{macos_keychain}
use bastet_workstation.Catalog.{IdentityCatalog}
use bastet_workstation.Approval.{ApprovalRequest, ApprovalDecision, high, approve}
use bastet_workstation.Graph.{
  GraphExecution, GraphNodeExecution, research, join, document, awaiting_approval, pending,
}
use bastet_workstation.Store.{
  Libraries, Tables, DaemonLifecycle, StagedState, ProviderLaunchPlan, ProviderLaunchIdentity,
}
use bastet_workstation.Store.Staged.{credential_only}
use bastet_workstation.Tests.Approval.{sha256, sample_catalog, metadata_of, use_policy}
use bastet_workstation.Tests.State.{one_pet, decided}

abbrev pub stand_ins : Libraries
stand_ins = record {
  request_bytes = λ input. input.id ∷ [];
  plan_bytes = λ plan. plan.run_id ∷ [];
  quote = λ s. s;
  digest = λ s. s;
  sha256 = sha256;
  uuid_text = λ n. "id";
}

abbrev launch_catalog : IdentityCatalog
launch_catalog = record sample_catalog {
  agent_instances =
      record {
        metadata = metadata_of 4;
        agent_provider_id = 1;
        account_id = some 2;
        default_model_id = some 9;
      }
      ∷ [];
  runs =
      record {
        metadata = metadata_of 7;
        session_id = 8;
        model_id = 9;
        state = NormalizedRunState.awaiting_approval;
        started_at = none;
        finished_at = none;
      }
      ∷ [];
}

abbrev waiting : GraphNodeExecution
waiting = record {
  node_id = 31;
  state = awaiting_approval;
  owner = some "worker";
  revision = 1;
  run_id = some 7;
  failure = none;
}

abbrev idle : ℕ → GraphNodeExecution
idle id = record {
  node_id = id;
  state = pending;
  owner = none;
  revision = 0;
  run_id = none;
  failure = none;
}

abbrev staged_graph : GraphExecution
staged_graph = record {
  id = 30;
  graph = record {
    decision_baseline_id = 51;
    nodes =
        record { id = 31; kind = research; role_id = 5; title = "market"; needs = [] }
        ∷ record { id = 32; kind = research; role_id = 5; title = "risk"; needs = [] }
        ∷ record { id = 33; kind = join; role_id = 5; title = "join"; needs = 31 ∷ 32 ∷ [] }
        ∷ record { id = 34; kind = document; role_id = 5; title = "report"; needs = 33 ∷ [] }
        ∷ [];
  };
  nodes = waiting ∷ idle 32 ∷ idle 33 ∷ idle 34 ∷ [];
  outputs = [];
  restarted_from_execution_id = none;
  revision = 2;
}

abbrev launch_identity : ProviderLaunchIdentity
launch_identity = record {
  agent_instance_id = 4;
  agent_provider_id = 1;
  project_id = 6;
  model_id = 9;
  adapter_kind = "codex";
  model = "m";
  account = some (record {
    account_id = 2;
    provider_identity = "me";
    credential = some (record {
      reference_id = 3;
      backend = macos_keychain;
      service = "svc";
      account_label = "main";
    });
  });
}

abbrev pub launch_plan : ProviderLaunchPlan
launch_plan = record {
  version = 2;
  execution_id = 30;
  node_id = 31;
  session_id = 8;
  run_id = 7;
  attempt = 1;
  role_id = 5;
  owner = "worker";
  identity = launch_identity;
  workspace_root = "/";
  prompt =
      "Decision baseline:\ngo\n\nAssigned task:\nmarket"
      ++ "\n\nOutput contract:\nReturn a self-contained Markdown final response "
      ++ "directly. This is a read-only report task, not a request to plan work or edit "
      ++ "files. Do not use task-planning or file-writing tools. You may use permitted "
      ++ "read-only research tools. Explicitly state material tool limitations and "
      ++ "unverified facts. Never return an empty, plan-only, or filename-only result.";
  policy = some (record { project = use_policy project; role = use_policy role_or_agent });
}

abbrev launch_request : ApprovalRequest
launch_request = record {
  id = 20;
  action = record {
    agent_instance_id = 4;
    role_id = some 5;
    action_key = "credential.use";
    reason_key = "provider.authentication";
    consequence_key = "credential.single_run";
    risk = high;
    scope = record {
      project_id = 6;
      run_id = some 7;
      filesystem_roots = "/" ∷ [];
      data_scopes = "provider_launch_plan:sha256:07" ∷ [];
      network_destinations = [];
      credential_reference_ids = 3 ∷ [];
      destination = none;
      credential_binding = some (record {
        agent_provider_id = 1;
        account_id = 2;
        adapter_kind = "codex";
        provider_identity = "me";
        credential_reference_id = 3;
        backend = macos_keychain;
        service = "svc";
        account_label = "main";
        capability_key = "provider.authenticate";
      });
    };
    requested_policy = credential_only;
  };
  created_at_ms = 100;
  expires_at_ms = 300100;
  request_hash = "14";
}

abbrev approved : ApprovalDecision
approved = record {
  request_id = 20;
  request_hash = "14";
  kind = approve;
  decided_at_ms = 150;
  actor = "user";
}

abbrev pub ready_tables : Tables
ready_tables = record {
  lifecycle = DaemonLifecycle.ready;
  catalog_revision = 1;
  catalog_json = some launch_catalog;
  m3_json = some (record {
    office = one_pet;
    meetings = decided;
    deliverables = record { documents = []; costs = []; knowledge_deliveries = [] };
  });
  approvals =
      record {
        request_id = 20;
        request_hash = "14";
        request_json = some launch_request;
        expires_at_ms = 300100;
        decision_json = some (some approved);
      }
      ∷ [];
  grants =
      record {
        request_id = 20;
        issued_at_ms = 150;
        consumed_at_ms = none;
        revoked_at_ms = none;
        revoked_by = none;
      }
      ∷ [];
  staged =
      record {
        run_id = 7;
        request_id = 20;
        state = StagedState.ready;
        staged_at_ms = 110;
        finished_at_ms = none;
        cancel_reason = none;
      }
      ∷ [];
  plans = record { run_id = 7; plan_json = some launch_plan; plan_hash = "sha256:07" } ∷ [];
  node_runs =
      record {
        execution_id = 30;
        node_id = 31;
        run_id = 7;
        attempt = 1;
        launch_identity_json = some (some launch_identity);
        finished_at = none;
        terminal_state = none;
        failure_json = none;
      }
      ∷ [];
  graphs = record { execution_id = 30; revision = 2; execution_json = some staged_graph } ∷ [];
  outputs = [];
  claims = [];
  journal = [];
}
